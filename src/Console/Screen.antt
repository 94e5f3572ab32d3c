-- ===== src/Console/Screen.antt =====
-- The text screen of lib/vga.c: 25 rows of 80 cells of two bytes, the character and its colour.
use raxzus_heap_research.Base.{
  ltb, leb, ◌==◌, if◌then◌else◌, u32, sub32, update, ℕ, zero, suc, ◌+◌, ◌*◌, ◌^◌, Bool, not, ◌&&◌,
  ◌||◌, List, [], ◌∷◌,
}

-- The bytes behind `video_memory`, by index, and the cursor. The rows and columns are the bit
-- patterns of `int`s.
pub record Screen : Type 0 where
  pub video_memory : ℕ → ℕ
  pub cursor_row : ℕ
  pub cursor_col : ℕ
  pub color : ℕ

-- `x >= y` for the bit pattern of an `int` and a small number.
abbrev pub at_least : ℕ → ℕ → Bool
at_least x y = leb y x && ltb x (2 ^ 31)

-- The index of the cell at a row and a column.
abbrev pub cell : ℕ → ℕ → ℕ
cell row col = u32 ((row * 80 + col) * 2)

-- A character and its colour in the cell at a byte index.
abbrev pub put : ℕ → ℕ → ℕ → (ℕ → ℕ) → ℕ → ℕ
put position c color vm = update (update vm position c) (u32 (position + 1)) color

-- Bytes from `byte` on of a row, copied from the row below: `left` are left.
unfoldable pub copy_bytes : (left byte row : ℕ) → (ℕ → ℕ) → ℕ → ℕ
copy_bytes zero byte row vm = vm
copy_bytes (suc left) byte row vm =
    copy_bytes left (byte + 1) row (update vm (row * 160 + byte) (vm ((row + 1) * 160 + byte)))

-- Rows from `row` on.
unfoldable pub copy_rows : (left row : ℕ) → (ℕ → ℕ) → ℕ → ℕ
copy_rows zero row vm = vm
copy_rows (suc left) row vm = copy_rows left (row + 1) (copy_bytes 160 0 row vm)

-- Cells of the last row from column `j` on.
unfoldable pub blank_cells : (left j color : ℕ) → (ℕ → ℕ) → ℕ → ℕ
blank_cells zero j color vm = vm
blank_cells (suc left) j color vm =
    blank_cells left (j + 1) color (put ((24 * 80 + j) * 2) b' ' color vm)

unfoldable pub scroll : Screen → Screen
scroll s = record s {
  video_memory = blank_cells 80 0 s.color (copy_rows 24 0 s.video_memory);
  cursor_row = 24;
  cursor_col = 0;
}

-- The second half of `print_char`.
unfoldable pub place_char : ℕ → Screen → Screen
place_char c s =
    if c == b'\n'
    then record s { cursor_row = u32 (s.cursor_row + 1); cursor_col = 0 }
    else (let vm = put (cell s.cursor_row s.cursor_col) c s.color s.video_memory in
        let col = u32 (s.cursor_col + 1) in
        if at_least col 80
        then record s { video_memory = vm; cursor_row = u32 (s.cursor_row + 1); cursor_col = 0 }
        else record s { video_memory = vm; cursor_col = col })

unfoldable pub print_char : ℕ → Screen → Screen
print_char c s = place_char c (if at_least s.cursor_row 25 then scroll s else s)

unfoldable pub print : List ℕ → Screen → Screen
print [] s = s
print (c ∷ message) s = print message (print_char c s)

-- The loops of `clearScreen` over the columns of a row and over the rows.
unfoldable pub clear_cells : (left row col : ℕ) → (ℕ → ℕ) → ℕ → ℕ
clear_cells zero row col vm = vm
clear_cells (suc left) row col vm =
    clear_cells left row (col + 1) (put ((row * 80 + col) * 2) b' ' 0x07 vm)

unfoldable pub clear_rows : (left row : ℕ) → (ℕ → ℕ) → ℕ → ℕ
clear_rows zero row vm = vm
clear_rows (suc left) row vm = clear_rows left (row + 1) (clear_cells 80 row 0 vm)

unfoldable pub clear_screen : Screen → Screen
clear_screen s = record s {
  video_memory = clear_rows 25 0 s.video_memory;
  cursor_row = 0;
  cursor_col = 0;
}

-- `cursor_col < 1` and `buffer_position > 0`, on `int`s.
abbrev less_than_1 : ℕ → Bool
less_than_1 x = x == 0 || leb (2 ^ 31) x

-- `buffer_position` is the length of the line that has been typed.
unfoldable pub backspace : (buffer_position : ℕ) → Screen → Screen
backspace buffer_position s =
    let position = cell s.cursor_row s.cursor_col in
    if at_least buffer_position 1 && less_than_1 s.cursor_col
    then record s { cursor_row = sub32 s.cursor_row 1; cursor_col = 80 }
    else if at_least buffer_position 1 || (buffer_position == 0 && not (s.cursor_col == 11))
    then record s {
      video_memory = update (update s.video_memory position b' ') (sub32 position 2) b' ';
      cursor_col = sub32 s.cursor_col 1;
    }
    else s

-- `video_memory` holds `char`s: 0xDB is kept as that byte.
unfoldable pub cursor_blinker : Screen → Screen
cursor_blinker s =
    let position = cell s.cursor_row s.cursor_col in
    if s.video_memory position == b' '
    then record s { video_memory = put position 0xDB 0x07 s.video_memory }
    else record s { video_memory = update s.video_memory position b' ' }
