-- ===== src/Console/Keyboard.antt =====
-- lib/keymap.c and lib/keyboard.c: from scan codes to the line that the shell gets. What the screen
-- and the shell do with it is left as a list of outputs, in order.
use raxzus_heap_research.Base.{
  ltb, leb, ◌==◌, if◌then◌else◌, done, fault, Cmd, pure, ◌>>=◌, update, ℕ, zero, suc, ◌+◌, ◌-◌,
  Bool, true, false, ◌||◌, List, [], ◌∷◌, ◌++◌,
}
use raxzus_heap_research.Text.Words.{cuts}

-- The Swedish layout, without and with shift, for the codes below 128.
abbrev pub keymap_lower : List ℕ
keymap_lower =
    0 ∷ 27 ∷ b'1' ∷ b'2' ∷ b'3' ∷ b'4' ∷ b'5' ∷ b'6' ∷ b'7' ∷ b'8' ∷ b'9' ∷ b'0' ∷ b'+' ∷ 0xB4 ∷ 8
    ∷ 9 ∷ b'q' ∷ b'w' ∷ b'e' ∷ b'r' ∷ b't' ∷ b'y' ∷ b'u' ∷ b'i' ∷ b'o' ∷ b'p' ∷ 0xE5 ∷ 0xA8 ∷ 10 ∷ 0
    ∷ b'a' ∷ b's' ∷ b'd' ∷ b'f' ∷ b'g' ∷ b'h' ∷ b'j' ∷ b'k' ∷ b'l' ∷ 0xF6 ∷ 0xE4 ∷ 0xA7 ∷ 0 ∷ 39
    ∷ b'z' ∷ b'x' ∷ b'c' ∷ b'v' ∷ b'b' ∷ b'n' ∷ b'm' ∷ b',' ∷ b'.' ∷ b'-' ∷ 0 ∷ b'*' ∷ 0 ∷ b' ' ∷ 0
    ∷ 0 ∷ 0 ∷ 0 ∷ 0 ∷ 0 ∷ 0 ∷ 0 ∷ 0 ∷ 0 ∷ 0 ∷ 0 ∷ 0 ∷ 0 ∷ 0 ∷ 0 ∷ 0 ∷ 0 ∷ 0 ∷ 0 ∷ 0 ∷ 0 ∷ 0 ∷ 0 ∷ 0
    ∷ 0 ∷ 0 ∷ 0 ∷ 0 ∷ 0 ∷ 0 ∷ 0 ∷ 0 ∷ 0 ∷ 0 ∷ 0 ∷ 0 ∷ 0 ∷ 0 ∷ 0 ∷ 0 ∷ 0 ∷ 0 ∷ 0 ∷ 0 ∷ 0 ∷ 0 ∷ 0 ∷ 0
    ∷ 0 ∷ 0 ∷ 0 ∷ 0 ∷ 0 ∷ 0 ∷ 0 ∷ 0 ∷ 0 ∷ 0 ∷ 0 ∷ 0 ∷ 0 ∷ 0 ∷ 0 ∷ 0 ∷ 0 ∷ 0 ∷ 0 ∷ 0 ∷ 0 ∷ []

abbrev pub keymap_upper : List ℕ
keymap_upper =
    0 ∷ 27 ∷ b'!' ∷ b'"' ∷ b'#' ∷ 0xA4 ∷ b'%' ∷ b'&' ∷ b'/' ∷ b'(' ∷ b')' ∷ b'=' ∷ b'?' ∷ b'`' ∷ 8
    ∷ 9 ∷ b'Q' ∷ b'W' ∷ b'E' ∷ b'R' ∷ b'T' ∷ b'Y' ∷ b'U' ∷ b'I' ∷ b'O' ∷ b'P' ∷ 0xC5 ∷ b'^' ∷ 10 ∷ 0
    ∷ b'A' ∷ b'S' ∷ b'D' ∷ b'F' ∷ b'G' ∷ b'H' ∷ b'J' ∷ b'K' ∷ b'L' ∷ 0xD6 ∷ 0xC4 ∷ 0xBD ∷ 0 ∷ b'*'
    ∷ b'Z' ∷ b'X' ∷ b'C' ∷ b'V' ∷ b'B' ∷ b'N' ∷ b'M' ∷ b';' ∷ b':' ∷ b'_' ∷ 0 ∷ b'*' ∷ 0 ∷ b' ' ∷ 0
    ∷ 0 ∷ 0 ∷ 0 ∷ 0 ∷ 0 ∷ 0 ∷ 0 ∷ 0 ∷ 0 ∷ 0 ∷ 0 ∷ 0 ∷ 0 ∷ 0 ∷ 0 ∷ 0 ∷ 0 ∷ 0 ∷ 0 ∷ 0 ∷ 0 ∷ 0 ∷ 0 ∷ 0
    ∷ 0 ∷ 0 ∷ 0 ∷ 0 ∷ 0 ∷ 0 ∷ 0 ∷ 0 ∷ 0 ∷ 0 ∷ 0 ∷ 0 ∷ 0 ∷ 0 ∷ 0 ∷ 0 ∷ 0 ∷ 0 ∷ 0 ∷ 0 ∷ 0 ∷ 0 ∷ 0 ∷ 0
    ∷ 0 ∷ 0 ∷ 0 ∷ 0 ∷ 0 ∷ 0 ∷ 0 ∷ 0 ∷ 0 ∷ 0 ∷ 0 ∷ 0 ∷ 0 ∷ 0 ∷ 0 ∷ 0 ∷ 0 ∷ 0 ∷ 0 ∷ 0 ∷ 0 ∷ []

abbrev pub entry : List ℕ → ℕ → ℕ
entry [] n = 0
entry (x ∷ xs) zero = x
entry (x ∷ xs) (suc n) = entry xs n

unfoldable pub scancode_to_ascii : ℕ → Bool → ℕ
scancode_to_ascii scancode shift_pressed =
    if leb 128 scancode
    then 0
    else if shift_pressed
    then entry keymap_upper scancode
    else entry keymap_lower scancode

-- The static variables. The position stays between 0 and 256.
pub record Keyboard : Type 0 where
  pub left_shift_pressed : Bool
  pub right_shift_pressed : Bool
  pub command_buffer : ℕ → ℕ
  pub buffer_pos : ℕ

abbrev pub buffer_size : ℕ
buffer_size = 256

-- The calls that the handler makes: a character on the screen, `backspace` at a position of the
-- line, `process_input` on a line, the prompt, and the end-of-interrupt signal for line 1.
pub data Output : Type 0 where
  echo : ℕ → Output
  erase : ℕ → Output
  process : List ℕ → Output
  prompt : Output
  send_eoi : Output

-- The C string from index `i` on, of at most `left` characters.
unfoldable pub c_string : (left i : ℕ) → (ℕ → ℕ) → List ℕ
c_string zero i buffer = []
c_string (suc left) i buffer =
    let rest = c_string left (i + 1) buffer in if buffer i == 0 then [] else buffer i ∷ rest

-- The list written into the buffer from index `i` on.
abbrev pub write_line : (i : ℕ) → List ℕ → (ℕ → ℕ) → ℕ → ℕ
write_line i [] buffer = buffer
write_line i (c ∷ line) buffer = write_line (i + 1) line (update buffer i c)

-- The line is ended and given to the shell, which overwrites the spaces between its words: the buffer
-- is as a shell that returns leaves it. An index behind the buffer is not allowed.
unfoldable pub enter : Cmd Keyboard (List Output)
enter k = elim (ltb k.buffer_pos buffer_size) [
  | true ↦
      let buffer = update k.command_buffer k.buffer_pos 0 in
      let line = c_string buffer_size 0 buffer in
      done (process line ∷ prompt ∷ [])
        (record k { command_buffer = write_line 0 (cuts false 0 line).0 buffer; buffer_pos = 0 })
  | false ↦ fault
]

-- A character from the keymap.
unfoldable pub press : ℕ → Cmd Keyboard (List Output)
press ascii k =
    if ascii == 0
    then done [] k
    else if ascii == b'\n'
    then enter k
    else if ascii == 8
    then done (erase k.buffer_pos ∷ [])
        (if ltb 0 k.buffer_pos then record k { buffer_pos = k.buffer_pos - 1 } else k)
    else if ltb k.buffer_pos buffer_size
    then done (echo ascii ∷ []) (record k {
      command_buffer = update k.command_buffer k.buffer_pos ascii;
      buffer_pos = k.buffer_pos + 1;
    })
    else done [] (record k { buffer_pos = buffer_size })

-- The `switch` on the scan code; a code from 128 on is a release.
unfoldable pub handle_scancode : ℕ → Cmd Keyboard (List Output)
handle_scancode scancode k =
    if scancode == 0x2A
    then done [] (record k { left_shift_pressed = true })
    else if scancode == 0xAA
    then done [] (record k { left_shift_pressed = false })
    else if scancode == 0x36
    then done [] (record k { right_shift_pressed = true })
    else if scancode == 0xB6
    then done [] (record k { right_shift_pressed = false })
    else if ltb scancode 128
    then press (scancode_to_ascii scancode (k.left_shift_pressed || k.right_shift_pressed)) k
    else done [] k

unfoldable pub keyboard_interrupt_handler : ℕ → Cmd Keyboard (List Output)
keyboard_interrupt_handler scancode = do
  outputs ← handle_scancode scancode
  pure (outputs ++ send_eoi ∷ [])
