-- ===== src/Console/Boxes.antt =====
-- The boxes and aligned lines of lib/raxzus_shell_ui.c.
use raxzus_heap_research.Base.{
  ltb, ◌==◌, if◌then◌else◌, Cmd, pure, ◌>>◌, u32, sub32, codes, ℕ, zero, suc, ◌+◌, ◌/◌, ◌^◌, ◌||◌,
  List, [], ◌∷◌,
}
use raxzus_heap_research.Console.Screen.{Screen}
use raxzus_heap_research.Console.Print.{set_color, Arg, string, int, kprintf}

-- The rounds of `for (i = 0; i < n; i++)` on an `int`, by its bit pattern.
abbrev pub rounds : ℕ → ℕ
rounds n = if ltb n (2 ^ 31) then n else 0

-- `set_color(color); kprintf(format, ...);`
unfoldable pub in_color : ℕ → List ℕ → List Arg → Cmd Screen (Unit {0})
unfolding set_color kprintf
in_color color text args = set_color color >> kprintf text args

unfoldable pub string_length : List ℕ → ℕ
string_length [] = 0
string_length (c ∷ text) = u32 (string_length text + 1)

-- The loop of `draw_box_top` from `i` on.
unfoldable pub box_top_loop :
    (left i width wall_color text_color : ℕ) (title : List ℕ) → Cmd Screen (Unit {0})
unfolding in_color
box_top_loop zero i width wall_color text_color title = pure tt
box_top_loop (suc left) i width wall_color text_color title = do
  if i == width / 2
      then in_color text_color (codes "%s") (string title ∷ [])
      else in_color wall_color (codes "%c") (int 0xCD ∷ [])
  box_top_loop left (i + 1) width wall_color text_color title

unfoldable pub draw_box_top :
    (width wall_color text_color : ℕ) (title : List ℕ) → Cmd Screen (Unit {0})
unfolding box_top_loop in_color kprintf string_length
draw_box_top width wall_color text_color title = do
  kprintf (codes "\n") []
  let inner = sub32 width (string_length title)
  in_color wall_color (codes "%c") (int 0xC9 ∷ [])
  box_top_loop (rounds (sub32 inner 1)) 0 inner wall_color text_color title
  in_color wall_color (codes "%c\n") (int 0xBB ∷ [])

-- The loops of `draw_box_sides` over the columns and over the rows.
unfoldable pub side_cells : (left ii width color : ℕ) → Cmd Screen (Unit {0})
unfolding in_color kprintf
side_cells zero ii width color = pure tt
side_cells (suc left) ii width color = do
  if ii == 0 || ii == sub32 width 1
      then in_color color (codes "%c") (int 0xBA ∷ [])
      else kprintf (codes " ") []
  side_cells left (ii + 1) width color

unfoldable pub side_rows : (left width color : ℕ) → Cmd Screen (Unit {0})
unfolding side_cells kprintf
side_rows zero width color = pure tt
side_rows (suc left) width color = do
  side_cells (rounds width) 0 width color
  kprintf (codes "\n") []
  side_rows left width color

unfoldable pub draw_box_sides : (width num_lines color : ℕ) → Cmd Screen (Unit {0})
unfolding side_rows
draw_box_sides width num_lines color = side_rows (rounds num_lines / 3) width color

unfoldable pub box_bottom_loop : (left color : ℕ) → Cmd Screen (Unit {0})
unfolding in_color
box_bottom_loop zero color = pure tt
box_bottom_loop (suc left) color = do
  in_color color (codes "%c") (int 0xCD ∷ [])
  box_bottom_loop left color

unfoldable pub draw_box_bottom : (width color : ℕ) → Cmd Screen (Unit {0})
unfolding box_bottom_loop in_color
draw_box_bottom width color = do
  in_color color (codes "%c") (int 0xC8 ∷ [])
  box_bottom_loop (rounds (sub32 width 2)) color
  in_color color (codes "%c\n") (int 0xBC ∷ [])

-- The loop that the cases of `print_text_align` share, with the column at which the text goes.
unfoldable pub align_loop :
    (left ii width column wall_color text_color : ℕ) (text : List ℕ) → Cmd Screen (Unit {0})
unfolding in_color kprintf
align_loop zero ii width column wall_color text_color text = pure tt
align_loop (suc left) ii width column wall_color text_color text = do
  if ii == 0 || ii == width
      then in_color wall_color (codes "%c") (int 0xBA ∷ [])
      else if ii == column
      then in_color text_color (codes "%s") (string text ∷ [])
      else kprintf (codes " ") []
  align_loop left (ii + 1) width column wall_color text_color text

unfoldable pub align_line :
    (width column wall_color text_color : ℕ) (text : List ℕ) → Cmd Screen (Unit {0})
unfolding align_loop kprintf
align_line width column wall_color text_color text = do
  align_loop (if ltb width (2 ^ 31) then width + 1 else 0) 0 width column wall_color text_color text
  kprintf (codes "\n") []

unfoldable pub print_text_align :
    (text : List ℕ) (width align wall_color text_color text_delay_ms : ℕ) → Cmd Screen (Unit {0})
unfolding align_line string_length
print_text_align text width align wall_color text_color text_delay_ms =
    let inner = sub32 width (string_length text) in
    if align == 1
    then align_line inner 3 wall_color text_color text
    else if align == 2
    then align_line inner (sub32 inner 2) wall_color text_color text
    else if align == 3
    then align_line inner (inner / 2) wall_color text_color text
    else pure tt
