-- ===== src/Console/Typing.antt =====
-- Whole lines typed on the keyboard of lib/keyboard.c, up to the key that ends them.
use raxzus_heap_research.Text.Words.{cuts, HasNoNul}
use mathlib.Core.Path.{ap₂}
use raxzus_heap_research.Base.{
  ltb, ◌==◌, if◌then◌else◌, lt→ltb, lt→leb, le→leb, lt-or-le, Run, done, update, ℕ, zero, suc, ◌<◌,
  ◌≡◌, refl, sym, ap, ◌∙◌, subst, ◌≢◌, inl, inr, Bool, true, false, not, ◌&&◌, ◌||◌, List, [], ◌∷◌,
  ◌++◌, arith,
}
use raxzus_heap_research.Console.Keyboard.{
  keymap_lower, keymap_upper, entry, scancode_to_ascii, Keyboard, buffer_size, Output, process,
  prompt, send_eoi, c_string, write_line, enter, press, handle_scancode, keyboard_interrupt_handler,
}
use raxzus_heap_research.Console.Edit.{
  Editor, edit, editor_step, contents, Represents, contents-agree, c_string-contents,
}
use raxzus_heap_research.Console.Refine.{Edited, press-Edited}

-- The scan code of the key that ends the line.
abbrev pub enter_key : ℕ
enter_key = 0x1C

-- No newline stands in a table, or none but at the index `i`.
abbrev no_newline : List ℕ → Bool
no_newline [] = true
no_newline (y ∷ ys) = not (y == b'\n') && no_newline ys

abbrev only_at : ℕ → List ℕ → Bool
only_at i [] = true
only_at zero (x ∷ xs) = no_newline xs
only_at (suc i) (x ∷ xs) = not (x == b'\n') && only_at i xs

no_newline-entry : (xs : List ℕ) (n : ℕ) → no_newline xs ≡ true → entry xs n ≢ b'\n'
no_newline-entry [] n h e = absurd (omega (arith, e))
no_newline-entry (x ∷ xs) zero h e = absurd (ground arith)
no_newline-entry (x ∷ xs) (suc n) h e = no_newline-entry xs n (ground arith) e

only_at-entry : (i : ℕ) (xs : List ℕ) (n : ℕ) → only_at i xs ≡ true → entry xs n ≡ b'\n' → n ≡ i
only_at-entry i [] n h e = absurd (omega (arith, e))
only_at-entry zero (x ∷ xs) zero h e = refl
only_at-entry zero (x ∷ xs) (suc n) h e = absurd (no_newline-entry xs n h e)
only_at-entry (suc i) (x ∷ xs) zero h e = absurd (ground arith)
only_at-entry (suc i) (x ∷ xs) (suc n) h e = ap suc (only_at-entry i xs n (ground arith) e)

-- One key gives a newline, with shift and without.
newline_key :
    (scancode : ℕ) (shift : Bool) → scancode_to_ascii scancode shift ≡ b'\n' → scancode ≡ enter_key
unfolding scancode_to_ascii
newline_key scancode shift e = elim (lt-or-le scancode 128) [
  | inr high ↦ absurd (omega (arith, (rw (le→leb 128 scancode high) at e)))
  | inl low ↦ go shift (rw (lt→leb 128 scancode low) at e)
]
  where
    go :
        (b : Bool)
        → (if b then entry keymap_upper scancode else entry keymap_lower scancode) ≡ b'\n'
        → scancode ≡ enter_key
    go true e = only_at-entry 28 keymap_upper scancode refl e
    go false e = only_at-entry 28 keymap_lower scancode refl e

-- A test that the handler and the editor both make.
both :
    (b : Bool) {e e' : Editor} {r r' : Run Keyboard (List Output)}
    → Edited e r
    → Edited e' r'
    → Edited (if b then e else e') (if b then r else r')
both true a b = a
both false a b = b

module _ (k : Keyboard) (e : Editor) (rep : Represents k e) where
  -- A key that changes nothing but the shift state.
  shift_Edited :
      (left right : Bool)
      → Edited
          (record e { left_shift = left; right_shift = right })
          (done [] (record k { left_shift_pressed = left; right_shift_pressed = right }))
  shift_Edited left right = record {
    outputs = [];
    after = record k { left_shift_pressed = left; right_shift_pressed = right };
    returns = refl;
    represents = record {
      left = refl;
      right = refl;
      typed = rep.typed;
      room = rep.room;
      text = rep.text;
    };
  }

  press_key :
      (scancode : ℕ)
      → scancode ≢ enter_key
      → Edited
          (record e {
            line = edit (scancode_to_ascii scancode (e.left_shift || e.right_shift)) e.line;
          })
          (press (scancode_to_ascii scancode (k.left_shift_pressed || k.right_shift_pressed)) k)
  press_key scancode other =
      let shift = k.left_shift_pressed || k.right_shift_pressed in
      subst
        (λ b.
          Edited (record e { line = edit (scancode_to_ascii scancode b) e.line })
            (press (scancode_to_ascii scancode shift) k))
        (ap₂ ◌||◌ rep.left rep.right)
        (press-Edited k e rep (scancode_to_ascii scancode shift)
          (λ n. other (newline_key scancode shift n)))

  -- Every key but the one that ends the line.
  handle_scancode-Edited :
      (scancode : ℕ)
      → scancode ≢ enter_key
      → Edited (editor_step scancode e) (handle_scancode scancode k)
  unfolding handle_scancode editor_step
  handle_scancode-Edited scancode other =
      let same : Edited e (done [] k) = record {
        outputs = [];
        after = k;
        returns = refl;
        represents = rep;
      } in
      let l = rep.left in
      let r = rep.right in
      both (scancode == 0x2A) (left_Edited true) (
        both (scancode == 0xAA) (left_Edited false) (
          both (scancode == 0x36) (right_Edited true) (
            both (scancode == 0xB6) (right_Edited false)
              (both (ltb scancode 128) (press_key scancode other) same))))
    where
      left_Edited :
          (b : Bool)
          → Edited (record e { left_shift = b }) (done [] (record k { left_shift_pressed = b }))
      left_Edited b =
          subst
            (λ t.
              Edited (record e { left_shift = b; right_shift = t })
                (done [] (record k { left_shift_pressed = b })))
            rep.right (shift_Edited b k.right_shift_pressed)

      right_Edited :
          (b : Bool)
          → Edited (record e { right_shift = b }) (done [] (record k { right_shift_pressed = b }))
      right_Edited b =
          subst
            (λ t.
              Edited (record e { left_shift = t; right_shift = b })
                (done [] (record k { right_shift_pressed = b })))
            rep.left (shift_Edited k.left_shift_pressed b)

  -- The handler of lib/keyboard.c does to the buffer what the line editor does to its line, for every
  -- key but the one that ends the line.
  pub keyboard_interrupt_handler-Edited :
      (scancode : ℕ)
      → scancode ≢ enter_key
      → Edited (editor_step scancode e) (keyboard_interrupt_handler scancode k)
  unfolding keyboard_interrupt_handler
  keyboard_interrupt_handler-Edited scancode other =
      let h = handle_scancode-Edited scancode other in
      record {
        outputs = h.outputs ++ send_eoi ∷ [];
        after = h.after;
        returns = rw h.returns refl;
        represents = h.represents;
      }

  -- The end of a line that leaves room for the NUL.
  pub enter_line :
      k.buffer_pos < buffer_size
      → (g : Keyboard) × (enter k ≡ done (process e.line ∷ prompt ∷ []) g)
        × Represents g (record e { line = [] })
  unfolding enter
  enter_line room =
      let b = update k.command_buffer k.buffer_pos 0 in
      let n = k.buffer_pos in
      let kept : contents b 0 n ≡ e.line =
        contents-agree k.command_buffer b 0 n (λ j h. ground arith) ∙ rep.typed in
      let line : c_string buffer_size 0 b ≡ e.line =
        c_string-contents buffer_size 0 n b room (subst HasNoNul (sym kept) rep.text) (ground arith)
        ∙ kept in
      (
        record k { command_buffer = write_line 0 (cuts false 0 e.line).0 b; buffer_pos = 0 },
        rw (lt→ltb n buffer_size room, enter)
            (ap
              (λ t.
                done (process t ∷ prompt ∷ [])
                  (record k { command_buffer = write_line 0 (cuts false 0 t).0 b; buffer_pos = 0 }))
              line),
        record { left = rep.left; right = rep.right; typed = refl; room = omega arith; text = tt },
      )
