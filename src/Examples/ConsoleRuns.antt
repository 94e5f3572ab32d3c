-- ===== src/Examples/ConsoleRuns.antt =====
-- The screen, the keyboard and the shell at concrete states.
use raxzus_heap_research.Base.{
  done, fault, ℕ, zero, suc, ◌+◌, ◌≡◌, refl, false, List, [], ◌∷◌, arith,
}
use raxzus_heap_research.Text.Words.{HasNoNul}
use raxzus_heap_research.Console.Screen.{Screen, print_char, backspace}
use raxzus_heap_research.Console.Cursor.{print_char-backspace}
use raxzus_heap_research.Console.Keyboard.{
  scancode_to_ascii, Keyboard, process, prompt, send_eoi, keyboard_interrupt_handler,
}
use raxzus_heap_research.Console.Edit.{
  Editor, drop_last, edit, editor_step, contents, Represents, length-contents,
}
use raxzus_heap_research.Console.Refine.{Edited}
use raxzus_heap_research.Console.Typing.{keyboard_interrupt_handler-Edited}
use raxzus_heap_research.Console.Line.{
  type_line, WithoutEnter, type_line-Represents, type_line_fault,
}

-- The cursor at the start of a row, on a screen full of `x`.
abbrev screen : ℕ → Screen
screen row = record { video_memory = λ i. b'x'; cursor_row = row; cursor_col = 0; color = 0x0F }

print_char-backspace_example :
    ((print_char b'a' (backspace 100 (screen 3))).video_memory 480 ≡ b'a')
    × ((print_char b'a' (backspace 100 (screen 3))).cursor_row ≡ 3)
    × ((print_char b'a' (backspace 100 (screen 3))).cursor_col ≡ 0)
print_char-backspace_example =
    print_char-backspace 100 b'a' (screen 3) (omega arith) (omega arith) (omega arith) (omega arith)
      refl (λ e. absurd (omega (arith, e)))

-- The keyboard and the editor with nothing typed.
abbrev keyboard : Keyboard
keyboard = record {
  left_shift_pressed = false;
  right_shift_pressed = false;
  command_buffer = λ i. 0;
  buffer_pos = 0;
}

abbrev editor : Editor
editor = record { left_shift = false; right_shift = false; line = [] }

empty-Represents : Represents keyboard editor
empty-Represents = record { left = refl; right = refl; typed = refl; room = omega arith; text = tt }

-- The keys `M`, `e`, backspace, `e`.
abbrev keys : List ℕ
keys = 0x2A ∷ 0x32 ∷ 0xAA ∷ 0x12 ∷ 0x0E ∷ 0x12 ∷ []

keys-WithoutEnter : WithoutEnter keys
keys-WithoutEnter = (
  (λ e. absurd (omega (arith, e))),
  (
    (λ e. absurd (omega (arith, e))),
    (
      (λ e. absurd (omega (arith, e))),
      (
        (λ e. absurd (omega (arith, e))),
        ((λ e. absurd (omega (arith, e))), ((λ e. absurd (omega (arith, e))), tt)),
      ),
    ),
  ),
)

keyboard_interrupt_handler-Edited_example :
    Edited (editor_step 0x12 editor) (keyboard_interrupt_handler 0x12 keyboard)
keyboard_interrupt_handler-Edited_example =
    keyboard_interrupt_handler-Edited keyboard editor empty-Represents 0x12
      (λ e. absurd (omega (arith, e)))

type_line-Represents_example :
    (g : Keyboard) × (type_line keys keyboard
      ≡ done (process (b'M' ∷ b'e' ∷ []) ∷ prompt ∷ send_eoi ∷ []) g)
    × Represents g editor
    × HasNoNul (b'M' ∷ b'e' ∷ [])
unfolding editor_step edit drop_last scancode_to_ascii
type_line-Represents_example =
    type_line-Represents keys keyboard editor empty-Represents keys-WithoutEnter (omega arith)

-- The keyboard after 256 characters.
abbrev full_keyboard : Keyboard
full_keyboard = record {
  left_shift_pressed = false;
  right_shift_pressed = false;
  command_buffer = λ i. b'e';
  buffer_pos = 256;
}

abbrev full_editor : Editor
full_editor = record { left_shift = false; right_shift = false; line = contents (λ i. b'e') 0 256 }

HasNoNul-contents : (i count : ℕ) → HasNoNul (contents (λ j. b'e') i count)
HasNoNul-contents i zero = tt
HasNoNul-contents i (suc count) =
    ((λ e. absurd (omega (arith, e))), HasNoNul-contents (i + 1) count)

full-Represents : Represents full_keyboard full_editor
full-Represents = record {
  left = refl;
  right = refl;
  typed = refl;
  room = omega arith;
  text = HasNoNul-contents 0 256;
}

type_line_fault_example : type_line [] full_keyboard ≡ fault
type_line_fault_example =
    type_line_fault [] full_keyboard full_editor full-Represents tt
      (length-contents (λ i. b'e') 0 256)

-- `diskW 5 1 x`.
abbrev disk_line : List ℕ
disk_line = b'd' ∷ b'i' ∷ b's' ∷ b'k' ∷ b'W' ∷ b' ' ∷ b'5' ∷ b' ' ∷ b'1' ∷ b' ' ∷ b'x' ∷ []
