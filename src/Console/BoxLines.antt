-- ===== src/Console/BoxLines.antt =====
-- The lines that lib/raxzus_shell_ui.c draws, column by column.
use raxzus_heap_research.Console.Screen.{Screen}
use raxzus_heap_research.Base.{
  ◌==◌, if◌then◌else◌, lt→ltb, eq→==, ne→==, eq-or-ne, length, length-append, done, pure, sub32, ℕ,
  zero, suc, ◌+◌, ◌-◌, ◌/◌, ◌%◌, ◌^◌, ◌≤◌, ◌<◌, ◌≡◌, refl, ◌∙◌, inl, inr, true, false, ◌||◌, List,
  [], ◌∷◌, ◌++◌, arith,
}
use raxzus_heap_research.Console.Paint.{paint, colored, replicate, length-colored, length-replicate}
use raxzus_heap_research.Console.Draws.{
  Draws, pure-Draws, seq-Draws, char-Draws, text-Draws, space-Draws, newline-Draws,
  string_length-length,
}
use raxzus_heap_research.Console.Boxes.{string_length, align_loop, align_line, print_text_align}

-- The cells of a line of `print_text_align`: the walls, the text from a column on, and spaces.
abbrev pub aligned : (before after wall_color text_color : ℕ) (text : List ℕ) → List (ℕ × ℕ)
aligned before after wall_color text_color text =
    (0xBA, wall_color)
    ∷ (replicate before (b' ', 0x0F)
        ++ (colored text_color text ++ (replicate after (b' ', 0x0F) ++ (0xBA, wall_color) ∷ [])))

-- The columns behind the text.
after_text-Draws :
    (left n ii width column wall_color text_color : ℕ) (text : List ℕ)
    → left ≡ n + 1
    → ii + n ≡ width
    → 0 < ii
    → column < ii
    → Draws
        (align_loop left ii width column wall_color text_color text)
        (replicate n (b' ', 0x0F) ++ (0xBA, wall_color % 2 ^ 8) ∷ [])
unfolding align_loop
after_text-Draws zero n ii width column wall_color text_color text h end pos behind =
    absurd (omega arith)
after_text-Draws (suc left) zero ii width column wall_color text_color text h end pos behind =
    let last : (ii == 0 || ii == width) ≡ true = ground arith in
    let e : left ≡ 0 = omega arith in
    rw (last, e)
      (seq-Draws ((0xBA, wall_color % 2 ^ 8) ∷ []) [] (char-Draws wall_color 0xBA) pure-Draws)
after_text-Draws (suc left) (suc n) ii width column wall_color text_color text h end pos behind =
    let inside : (ii == 0 || ii == width) ≡ false = ground arith in
    let other : (ii == column) ≡ false = ne→== ii column (omega arith) in
    rw (inside, other)
      (seq-Draws ((b' ', 0x0F) ∷ []) (replicate n (b' ', 0x0F) ++ (0xBA, wall_color % 2 ^ 8) ∷ [])
        space-Draws
        (after_text-Draws left n (ii + 1) width column wall_color text_color text (omega arith)
          (omega arith) (omega arith) (omega arith)))

-- The columns from `ii` on, before the text.
before_text-Draws :
    (left m n ii width column wall_color text_color : ℕ) (text : List ℕ)
    → left ≡ m + n + 2
    → ii + m ≡ column
    → column + 1 + n ≡ width
    → 0 < ii
    → Draws (align_loop left ii width column wall_color text_color text) (
        replicate m (b' ', 0x0F)
        ++ (colored (text_color % 2 ^ 8) text
            ++ (replicate n (b' ', 0x0F) ++ (0xBA, wall_color % 2 ^ 8) ∷ [])))
unfolding align_loop
before_text-Draws zero m n ii width column wall_color text_color text h at end pos =
    absurd (omega arith)
before_text-Draws (suc left) zero n ii width column wall_color text_color text h at end pos =
    let inside : (ii == 0 || ii == width) ≡ false = ground arith in
    let here : (ii == column) ≡ true = eq→== ii column (omega arith) in
    let rest = replicate n (b' ', 0x0F) ++ (0xBA, wall_color % 2 ^ 8) ∷ [] in
    rw (inside, here)
      (seq-Draws (colored (text_color % 2 ^ 8) text) rest (text-Draws text_color text) (
        after_text-Draws left n (ii + 1) width column wall_color text_color text (omega arith)
          (omega arith) (omega arith) (omega arith)))
before_text-Draws (suc left) (suc m) n ii width column wall_color text_color text h at end pos =
    let inside : (ii == 0 || ii == width) ≡ false = ground arith in
    let other : (ii == column) ≡ false = ne→== ii column (omega arith) in
    rw (inside, other)
      (seq-Draws ((b' ', 0x0F) ∷ []) _ space-Draws (
        before_text-Draws left m n (ii + 1) width column wall_color text_color text (omega arith)
          (omega arith) end (omega arith)))

whole_line-Draws :
    (left m n width column wall_color text_color : ℕ) (text : List ℕ)
    → left ≡ width + 1
    → m + 1 ≡ column
    → column + 1 + n ≡ width
    → Draws
        (align_loop left 0 width column wall_color text_color text)
        (aligned m n (wall_color % 2 ^ 8) (text_color % 2 ^ 8) text)
unfolding align_loop
whole_line-Draws zero m n width column wall_color text_color text h at end = absurd (omega arith)
whole_line-Draws (suc left) m n width column wall_color text_color text h at end =
    seq-Draws ((0xBA, wall_color % 2 ^ 8) ∷ []) _ (char-Draws wall_color 0xBA) (
      before_text-Draws left m n 1 width column wall_color text_color text (omega arith)
        (omega arith) end (omega arith))

align_line-Draws :
    (m n width column wall_color text_color : ℕ) (text : List ℕ)
    → m + 1 ≡ column
    → column + 1 + n ≡ width
    → width < 2 ^ 31
    → Draws
        (align_line width column wall_color text_color text)
        (aligned m n (wall_color % 2 ^ 8) (text_color % 2 ^ 8) text ++ (b'\n', 0x0F) ∷ [])
unfolding align_line
align_line-Draws m n width column wall_color text_color text at end small =
    rw (lt→ltb width (2 ^ 31) small) (
      seq-Draws _ ((b'\n', 0x0F) ∷ [])
        (whole_line-Draws (width + 1) m n width column wall_color text_color text refl at end)
        newline-Draws)

-- The spaces in front of the text: two, all but one, or half of what is free.
abbrev pub indent : (align free : ℕ) → ℕ
indent align free = if align == 1 then 2 else if align == 2 then free - 3 else free / 2 - 1

length-aligned :
    (m n wall_color text_color : ℕ) (text : List ℕ)
    → length (aligned m n wall_color text_color text) ≡ m + n + 2 + length text
length-aligned m n wall_color text_color text =
    let blank = replicate n (b' ', 0x0F) in
    let wall = (0xBA, wall_color) ∷ [] in
    let front = replicate m (b' ', 0x0F) in
    let a = length-append front (colored text_color text ++ (blank ++ wall)) in
    let b = length-append (colored text_color text) (blank ++ wall) in
    let c = length-append blank wall in
    omega (
      arith,
      a,
      b,
      c,
      length-replicate m (b' ', 0x0F),
      length-replicate n (b' ', 0x0F),
      length-colored text_color text,
    )

align_cases-Draws :
    (align free wall_color text_color : ℕ) (text : List ℕ)
    → 4 ≤ free
    → free < 2 ^ 31
    → 1 ≤ align
    → align ≤ 3
    → Draws
        (if align == 1
          then align_line free 3 wall_color text_color text
          else if align == 2
          then align_line free (sub32 free 2) wall_color text_color text
          else if align == 3
          then align_line free (free / 2) wall_color text_color text
          else pure tt)
        (aligned
            (indent align free)
            (free - 2 - indent align free)
            (wall_color % 2 ^ 8)
            (text_color % 2 ^ 8)
            text
          ++ (b'\n', 0x0F) ∷ [])
align_cases-Draws align free wall_color text_color text four small low high =
    elim (eq-or-ne align 1) [
      | inl one ↦ rw (eq→== align 1 one) (
          align_line-Draws 2 (free - 2 - 2) free 3 wall_color text_color text (omega arith)
            (omega arith) small)
      | inr ne ↦ elim (eq-or-ne align 2) [
        | inl two ↦
            rw (ne→== align 1 ne, eq→== align 2 two)
              (align_line-Draws (free - 3) (free - 2 - (free - 3)) free (sub32 free 2) wall_color
                text_color text (omega arith) (omega arith) small)
        | inr ne' ↦
            rw (ne→== align 1 ne, ne→== align 2 ne', eq→== align 3 (omega arith))
              (align_line-Draws (free / 2 - 1) (free - 2 - (free / 2 - 1)) free (free / 2)
                wall_color text_color text (omega arith) (omega arith) small)
      ]
    ]

pub print_text_align-Draws :
    (text : List ℕ) (width align wall_color text_color text_delay_ms : ℕ)
    → length text + 4 ≤ width
    → width < 2 ^ 31
    → 1 ≤ align
    → align ≤ 3
    → let free = width - length text in
      let m = indent align free in
      let line = aligned m (free - 2 - m) (wall_color % 2 ^ 8) (text_color % 2 ^ 8) text in
      Draws
        (print_text_align text width align wall_color text_color text_delay_ms)
        (line ++ (b'\n', 0x0F) ∷ [])
      × (length line ≡ width)
unfolding print_text_align
print_text_align-Draws text width align wall_color text_color delay fits small low high =
    let free = width - length text in
    let e : sub32 width (string_length text) ≡ free =
      rw (string_length-length text (omega arith)) (omega arith) in
    let bound : indent align free + 2 ≤ free = ground arith in
    (
      rw e (
          align_cases-Draws align free wall_color text_color text (omega arith) (omega arith) low
            high),
      length-aligned (indent align free) (free - 2 - indent align free) _ _ text ∙ omega arith,
    )

-- `print_text_align` of a text that leaves four columns or more prints, in the white colour, a line
-- of exactly the width between two walls, with the text behind two spaces, in front of one, or in
-- the middle.
pub print_text_align_lem :
    (text : List ℕ) (width align wall_color text_color text_delay_ms : ℕ) (s : Screen)
    → s.color ≡ 0x0F
    → length text + 4 ≤ width
    → width < 2 ^ 31
    → 1 ≤ align
    → align ≤ 3
    → let free = width - length text in
      let m = indent align free in
      let line = aligned m (free - 2 - m) (wall_color % 2 ^ 8) (text_color % 2 ^ 8) text in
      (print_text_align text width align wall_color text_color text_delay_ms s
        ≡ done tt (paint (line ++ (b'\n', 0x0F) ∷ []) s))
      × (length line ≡ width)
print_text_align_lem text width align wall_color text_color delay s w fits small low high =
    let (draws, columns) =
      print_text_align-Draws text width align wall_color text_color delay fits small low high in
    (draws s w, columns)
