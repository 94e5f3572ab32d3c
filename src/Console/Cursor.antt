-- ===== src/Console/Cursor.antt =====
-- The cursor of lib/vga.c: `print_char` keeps it on the screen, and `backspace` does not.
use raxzus_heap_research.Console.Scroll.{scroll_lem}
use raxzus_heap_research.Base.{
  le→ltb, lt-or-le, ℕ, ◌-◌, ◌*◌, ◌^◌, ◌≤◌, ◌<◌, ◌≡◌, refl, ◌∙◌, ◌≢◌, inl, inr, true, false, List,
  [], ◌∷◌, arith,
}
use raxzus_heap_research.Console.Screen.{
  Screen, at_least, cell, scroll, place_char, print_char, print, backspace,
}

-- The cursor is in a column of the screen, in one of its rows or just below.
abbrev pub IsOnScreen : Screen → Type 0
IsOnScreen s = (s.cursor_row ≤ 25) × (s.cursor_col < 80)

-- The second half of `print_char` from a cursor in one of the rows.
place_char_lem :
    (c : ℕ) (s : Screen)
    → s.cursor_row < 25
    → s.cursor_col < 80
    → IsOnScreen (place_char c s)
      × ((i : ℕ) → 4000 ≤ i → (place_char c s).video_memory i ≡ s.video_memory i)
unfolding place_char
place_char_lem c s row col = (ground arith, λ i h. ground arith)

-- `print_char` keeps the cursor on the screen, and writes nothing behind the screen.
pub print_char-IsOnScreen :
    (c : ℕ) (s : Screen)
    → IsOnScreen s
    → IsOnScreen (print_char c s)
      × ((i : ℕ) → 4000 ≤ i → (print_char c s).video_memory i ≡ s.video_memory i)
unfolding print_char
print_char-IsOnScreen c s (row, col) = elim (lt-or-le s.cursor_row 25) [
  | inl inside ↦
      let no : at_least s.cursor_row 25 ≡ false = ground arith in
      rw no (place_char_lem c s inside col)
  | inr below ↦
      let yes : at_least s.cursor_row 25 ≡ true = ground arith in
      let at_row : (scroll s).cursor_row ≡ 24 = (scroll_lem s 0).1 in
      let at_col : (scroll s).cursor_col ≡ 0 = (scroll_lem s 0).2 in
      let (a, b) = place_char_lem c (scroll s) (omega arith) (omega arith) in
      rw yes (
        a,
        λ i h. b i h ∙ (scroll_lem s i).0 ∙ rw (le→ltb i 3840 (omega arith), le→ltb i 4000 h) refl,
      )
]

-- So does a whole text.
pub print-IsOnScreen : (message : List ℕ) (s : Screen) → IsOnScreen s → IsOnScreen (print message s)
unfolding print
print-IsOnScreen [] s on = on
print-IsOnScreen (c ∷ message) s on =
    print-IsOnScreen message (print_char c s) (print_char-IsOnScreen c s on).0

-- With a typed line and the cursor at the start of a row other than the first, `backspace` leaves
-- the cursor behind the last column of the row above; the next character, if it is no newline, then
-- goes to the start of the row that the cursor had left, and the cursor stays on that character.
pub print_char-backspace :
    (n c : ℕ) (s : Screen)
    → 0 < n
    → n < 2 ^ 31
    → 0 < s.cursor_row
    → s.cursor_row ≤ 25
    → s.cursor_col ≡ 0
    → c ≢ b'\n'
    → let s' = print_char c (backspace n s) in
      (s'.video_memory (s.cursor_row * 160) ≡ c)
      × (s'.cursor_row ≡ s.cursor_row)
      × (s'.cursor_col ≡ 0)
unfolding print_char place_char backspace
print_char-backspace n c s pos small low high start ne =
    let e : s.cursor_row * 160 ≡ cell (s.cursor_row - 1) 80 = omega arith in
    (ground arith, ground arith, ground arith)
