-- ===== src/Console/Refine.antt =====
-- The keyboard handler of lib/keyboard.c implements the line editor.
use mathlib.Core.Path.{ap₂}
use raxzus_heap_research.Base.{
  ltb, if◌then◌else◌, lt→ltb, le→ltb, eq→==, ne→==, lt-or-le, eq-or-ne, length, Run, done, update,
  ℕ, suc, ◌+◌, ◌-◌, ◌≤◌, ◌≡◌, refl, sym, ap, ◌∙◌, ◌≢◌, inl, inr, true, false, List, [], ◌∷◌, ◌++◌,
  arith,
}
use raxzus_heap_research.Text.Words.{HasNoNul}
use raxzus_heap_research.Console.Keyboard.{Keyboard, buffer_size, Output, echo, erase, press}
use raxzus_heap_research.Console.Edit.{
  Editor, drop_last, edit, contents, Represents, length-contents, contents-agree, contents-snoc,
  drop_last-snoc, HasNoNul-snoc, HasNoNul-drop_last,
}

-- The outcome of a run: it returns, and the keyboard then represents the editor `e`.
pub record Edited (e : Editor) (r : Run Keyboard (List Output)) : Type 0 where
  pub outputs : List Output
  pub after : Keyboard
  pub returns : r ≡ done outputs after
  pub represents : Represents after e

abbrev pub with_line : Editor → List ℕ → Editor
with_line e line = record e { line = line }

module _ (k : Keyboard) (e : Editor) (rep : Represents k e) where
  pub line_length : length e.line ≡ k.buffer_pos
  line_length = ap length (sym rep.typed) ∙ length-contents k.command_buffer 0 k.buffer_pos

  -- A line in a buffer whose keys are those of `e`.
  pub represent :
      (buffer : ℕ → ℕ) (pos : ℕ) (line : List ℕ)
      → contents buffer 0 pos ≡ line
      → pos ≤ buffer_size
      → HasNoNul line
      → Represents (record k { command_buffer = buffer; buffer_pos = pos }) (with_line e line)
  represent buffer pos line typed room text = record {
    left = rep.left;
    right = rep.right;
    typed = typed;
    room = room;
    text = text;
  }

  erased_line : k.buffer_pos ≢ 0 → contents k.command_buffer 0 (k.buffer_pos - 1) ≡ drop_last e.line
  erased_line ne =
      let n = k.buffer_pos - 1 in
      let b = k.command_buffer in
      let pos : suc n ≡ k.buffer_pos = omega arith in
      sym (drop_last-snoc (contents b 0 n) (b (0 + n)))
      ∙ ap drop_last (sym (contents-snoc b 0 n) ∙ ap (contents b 0) pos ∙ rep.typed)

  typed_line :
      (ascii : ℕ)
      → contents (update k.command_buffer k.buffer_pos ascii) 0 (k.buffer_pos + 1)
        ≡ e.line ++ ascii ∷ []
  typed_line ascii =
      let b' = update k.command_buffer k.buffer_pos ascii in
      let n = k.buffer_pos in
      let pos : n + 1 ≡ suc n = omega arith in
      let new : b' (0 + n) ≡ ascii = ground arith in
      ap (contents b' 0) pos
      ∙ contents-snoc b' 0 n
      ∙ ap₂ (λ xs x. xs ++ x ∷ [])
          (contents-agree k.command_buffer b' 0 n (λ j h. ground arith) ∙ rep.typed) new

  -- The two branches that change the line.
  abbrev erased : Keyboard
  erased = if ltb 0 k.buffer_pos then record k { buffer_pos = k.buffer_pos - 1 } else k

  back_Edited : Edited (with_line e (drop_last e.line)) (done (erase k.buffer_pos ∷ []) erased)
  unfolding drop_last
  back_Edited = elim (eq-or-ne k.buffer_pos 0) [
    | inl z ↦
        let empty : [] ≡ e.line = ap (contents k.command_buffer 0) (sym z) ∙ rep.typed in
        let no : ltb 0 k.buffer_pos ≡ false = ground arith in
        rw (no, ← empty)
          (record {
            outputs = erase k.buffer_pos ∷ [];
            after = k;
            returns = refl;
            represents =
                represent k.command_buffer k.buffer_pos [] (rep.typed ∙ sym empty) rep.room tt;
          })
    | inr ne ↦
        let yes : ltb 0 k.buffer_pos ≡ true = ground arith in
        let room = rep.room in
        rw yes (record {
          outputs = erase k.buffer_pos ∷ [];
          after = record k { buffer_pos = k.buffer_pos - 1 };
          returns = refl;
          represents =
              represent k.command_buffer (k.buffer_pos - 1) (drop_last e.line) (erased_line ne)
                (omega arith) (HasNoNul-drop_last e.line rep.text);
        })
  ]

  abbrev stored : ℕ → Keyboard
  stored ascii = record k {
    command_buffer = update k.command_buffer k.buffer_pos ascii;
    buffer_pos = k.buffer_pos + 1;
  }

  char_Edited :
      (ascii : ℕ)
      → ascii ≢ 0
      → Edited
          (with_line e (if ltb k.buffer_pos buffer_size then e.line ++ ascii ∷ [] else e.line))
          (if ltb k.buffer_pos buffer_size
            then done (echo ascii ∷ []) (stored ascii)
            else done [] (record k { buffer_pos = buffer_size }))
  char_Edited ascii ne = elim (lt-or-le k.buffer_pos buffer_size) [
    | inl room ↦ rw (lt→ltb k.buffer_pos buffer_size room) (record {
      outputs = echo ascii ∷ [];
      after = stored ascii;
      returns = refl;
      represents =
          represent (update k.command_buffer k.buffer_pos ascii) (k.buffer_pos + 1)
            (e.line ++ ascii ∷ []) (typed_line ascii) (omega arith)
            (HasNoNul-snoc e.line ascii rep.text ne);
    })
    | inr full ↦
        let room = rep.room in
        let same : k.buffer_pos ≡ buffer_size = omega arith in
        rw (le→ltb k.buffer_pos buffer_size full) (record {
          outputs = [];
          after = record k { buffer_pos = buffer_size };
          returns = refl;
          represents =
              represent k.command_buffer buffer_size e.line
                (ap (contents k.command_buffer 0) (sym same) ∙ rep.typed) (omega arith) rep.text;
        })
  ]

  pub press-Edited :
      (ascii : ℕ) → ascii ≢ b'\n' → Edited (with_line e (edit ascii e.line)) (press ascii k)
  unfolding press edit
  press-Edited ascii other = elim (eq-or-ne ascii 0) [
    | inl z ↦ rw (eq→== ascii 0 z) (record {
      outputs = [];
      after = k;
      returns = refl;
      represents = represent k.command_buffer k.buffer_pos e.line rep.typed rep.room rep.text;
    })
    | inr ne ↦ elim (eq-or-ne ascii 8) [
      | inl back ↦ rw (ne→== ascii 0 ne, ne→== ascii b'\n' other, eq→== ascii 8 back) back_Edited
      | inr char ↦
          rw (ne→== ascii 0 ne, ne→== ascii b'\n' other, ne→== ascii 8 char, line_length)
            (char_Edited ascii ne)
    ]
  ]
