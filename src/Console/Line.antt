-- ===== src/Console/Line.antt =====
-- From the first key to the call of the shell, on the keyboard of lib/keyboard.c.
use raxzus_heap_research.Base.{
  ltb, length, done, fault, Cmd, pure, ◌>>=◌, ◌>>◌, ℕ, ◌<◌, ◌≡◌, refl, sym, ◌∙◌, subst, ◌≢◌, Bool,
  true, false, ◌||◌, List, [], ◌∷◌, arith,
}
use raxzus_heap_research.Text.Words.{HasNoNul}
use raxzus_heap_research.Console.Keyboard.{
  scancode_to_ascii, Keyboard, buffer_size, Output, process, prompt, send_eoi, enter, press,
  handle_scancode, keyboard_interrupt_handler,
}
use raxzus_heap_research.Console.Edit.{Editor, editor_step, Represents}
use raxzus_heap_research.Console.Refine.{line_length}
use raxzus_heap_research.Console.Typing.{enter_key, keyboard_interrupt_handler-Edited, enter_line}

-- An interrupt for each key, one after the other; what they put out is dropped.
unfoldable pub type_keys : List ℕ → Cmd Keyboard (Unit {0})
type_keys [] = pure tt
type_keys (scancode ∷ scancodes) = do
  outputs ← keyboard_interrupt_handler scancode
  type_keys scancodes

-- The keys, then the one that ends the line.
abbrev pub type_line : List ℕ → Cmd Keyboard (List Output)
type_line scancodes = do type_keys scancodes; keyboard_interrupt_handler enter_key

-- The line that the keys leave in an editor.
abbrev pub edit_keys : List ℕ → Editor → Editor
edit_keys [] e = e
edit_keys (scancode ∷ scancodes) e = edit_keys scancodes (editor_step scancode e)

abbrev pub WithoutEnter : List ℕ → Type 0
WithoutEnter [] = Unit {0}
WithoutEnter (scancode ∷ scancodes) = (scancode ≢ enter_key) × WithoutEnter scancodes

type_keys-Represents :
    (scancodes : List ℕ) (k : Keyboard) (e : Editor)
    → Represents k e
    → WithoutEnter scancodes
    → (g : Keyboard) × (type_keys scancodes k ≡ done tt g) × Represents g (edit_keys scancodes e)
unfolding type_keys
type_keys-Represents [] k e rep none_of = (k, refl, rep)
type_keys-Represents (scancode ∷ scancodes) k e rep (other, others) =
    let step = keyboard_interrupt_handler-Edited k e rep scancode other in
    let (g, returns, rep') =
      type_keys-Represents scancodes step.after (editor_step scancode e) step.represents others in
    (g, rw step.returns returns, rep')

enter_press : (k : Keyboard) → handle_scancode enter_key k ≡ enter k
unfolding handle_scancode scancode_to_ascii press
enter_press k = go (k.left_shift_pressed || k.right_shift_pressed)
  where
    go : (b : Bool) → press (scancode_to_ascii enter_key b) k ≡ enter k
    go true = refl
    go false = refl

-- The last key of a line: the shell gets it, the prompt is shown, and the line is empty.
enter_interrupt :
    (k : Keyboard) (e : Editor)
    → Represents k e
    → length e.line < buffer_size
    → (g : Keyboard) × (keyboard_interrupt_handler enter_key k
        ≡ done (process e.line ∷ prompt ∷ send_eoi ∷ []) g)
      × Represents g (record e { line = [] })
unfolding keyboard_interrupt_handler
enter_interrupt k e rep short =
    let (g, returns, rep') =
      enter_line k e rep (subst (λ n. n < buffer_size) (line_length k e rep) short) in
    (g, rw (enter_press k, returns) refl, rep')

-- Any keys and then the one that ends the line: if the line that the editor makes of them is
-- shorter than the buffer, the shell gets that line, which holds no NUL, and the buffer is empty
-- for the next line.
pub type_line-Represents :
    (scancodes : List ℕ) (k : Keyboard) (e : Editor)
    → Represents k e
    → WithoutEnter scancodes
    → (let line = (edit_keys scancodes e).line in
        length line < buffer_size
        → (g : Keyboard) × (type_line scancodes k ≡ done (process line ∷ prompt ∷ send_eoi ∷ []) g)
          × Represents g (record (edit_keys scancodes e) { line = [] })
          × HasNoNul line)
type_line-Represents scancodes k e rep others short =
    let (g, returns, rep') = type_keys-Represents scancodes k e rep others in
    let (g', returns', rep'') = enter_interrupt g (edit_keys scancodes e) rep' short in
    (g', rw returns returns', rep'', rep'.text)

enter_full : (k : Keyboard) → k.buffer_pos ≡ buffer_size → enter k ≡ fault
unfolding enter
enter_full k full =
    let no : ltb k.buffer_pos buffer_size ≡ false = ground arith in rw (no, enter) refl

-- With a line as long as the buffer, the key that ends it writes behind the buffer.
pub type_line_fault :
    (scancodes : List ℕ) (k : Keyboard) (e : Editor)
    → Represents k e
    → WithoutEnter scancodes
    → length (edit_keys scancodes e).line ≡ buffer_size
    → type_line scancodes k ≡ fault
unfolding keyboard_interrupt_handler
type_line_fault scancodes k e rep others full =
    let (g, returns, rep') = type_keys-Represents scancodes k e rep others in
    let at_end : g.buffer_pos ≡ buffer_size =
      sym (line_length g (edit_keys scancodes e) rep') ∙ full in
    rw (returns, enter_press g, enter_full g at_end) refl
