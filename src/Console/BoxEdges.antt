-- ===== src/Console/BoxEdges.antt =====
-- The edges and walls of the boxes of lib/raxzus_shell_ui.c, column by column.
use raxzus_heap_research.Base.{
  ◌==◌, eq→==, ne→==, length, length-append, sub32, ℕ, zero, suc, ◌+◌, ◌-◌, ◌/◌, ◌%◌, ◌^◌, ◌≤◌, ◌<◌,
  ◌≡◌, refl, ◌∙◌, true, false, ◌||◌, List, [], ◌∷◌, ◌++◌, arith,
}
use raxzus_heap_research.Console.Paint.{colored, replicate, length-colored, length-replicate}
use raxzus_heap_research.Console.Draws.{
  Draws, pure-Draws, seq-Draws, char-Draws, char_line-Draws, text-Draws, space-Draws, newline-Draws,
  string_length-length,
}
use raxzus_heap_research.Console.Boxes.{
  rounds, string_length, box_top_loop, draw_box_top, side_cells, side_rows, draw_box_sides,
  box_bottom_loop, draw_box_bottom,
}

bottom_loop-Draws :
    (left color : ℕ) → Draws (box_bottom_loop left color) (replicate left (0xCD, color % 2 ^ 8))
unfolding box_bottom_loop
bottom_loop-Draws zero color = pure-Draws
bottom_loop-Draws (suc left) color =
    seq-Draws ((0xCD, color % 2 ^ 8) ∷ []) (replicate left (0xCD, color % 2 ^ 8))
      (char-Draws color 0xCD) (bottom_loop-Draws left color)

-- The lower edge of a box, and the newline.
abbrev pub bottom_edge : (width k : ℕ) → List (ℕ × ℕ)
bottom_edge width k = (0xC8, k) ∷ (replicate (width - 2) (0xCD, k) ++ (0xBC, k) ∷ (b'\n', k) ∷ [])

pub draw_box_bottom-Draws :
    (width color : ℕ)
    → 2 ≤ width
    → width < 2 ^ 31
    → Draws (draw_box_bottom width color) (bottom_edge width (color % 2 ^ 8))
unfolding draw_box_bottom
draw_box_bottom-Draws width color two small =
    let k = color % 2 ^ 8 in
    let e : rounds (sub32 width 2) ≡ width - 2 = ground arith in
    rw e (
      seq-Draws ((0xC8, k) ∷ []) (replicate (width - 2) (0xCD, k) ++ (0xBC, k) ∷ (b'\n', k) ∷ [])
        (char-Draws color 0xC8)
        (seq-Draws (replicate (width - 2) (0xCD, k)) ((0xBC, k) ∷ (b'\n', k) ∷ [])
          (bottom_loop-Draws (width - 2) color) (char_line-Draws color 0xBC)))

-- The columns of `draw_box_top` from `i` on, behind the title.
after_title-Draws :
    (left i width wall_color text_color : ℕ) (title : List ℕ)
    → width / 2 < i
    → Draws
        (box_top_loop left i width wall_color text_color title)
        (replicate left (0xCD, wall_color % 2 ^ 8))
unfolding box_top_loop
after_title-Draws zero i width wall_color text_color title behind = pure-Draws
after_title-Draws (suc left) i width wall_color text_color title behind =
    rw (ne→== i (width / 2) (omega arith)) (
      seq-Draws ((0xCD, wall_color % 2 ^ 8) ∷ []) _ (char-Draws wall_color 0xCD)
        (after_title-Draws left (i + 1) width wall_color text_color title (omega arith)))

before_title-Draws :
    (left m n i width wall_color text_color : ℕ) (title : List ℕ)
    → left ≡ m + 1 + n
    → i + m ≡ width / 2
    → Draws (box_top_loop left i width wall_color text_color title) (
        replicate m (0xCD, wall_color % 2 ^ 8)
        ++ (colored (text_color % 2 ^ 8) title ++ replicate n (0xCD, wall_color % 2 ^ 8)))
unfolding box_top_loop
before_title-Draws zero m n i width wall_color text_color title h at = absurd (omega arith)
before_title-Draws (suc left) zero n i width wall_color text_color title h at =
    let e : left ≡ n = omega arith in
    rw (eq→== i (width / 2) (omega arith), e)
      (seq-Draws (colored (text_color % 2 ^ 8) title) _ (text-Draws text_color title)
        (after_title-Draws n (i + 1) width wall_color text_color title (omega arith)))
before_title-Draws (suc left) (suc m) n i width wall_color text_color title h at =
    rw (ne→== i (width / 2) (omega arith)) (
      seq-Draws ((0xCD, wall_color % 2 ^ 8) ∷ []) _ (char-Draws wall_color 0xCD) (
        before_title-Draws left m n (i + 1) width wall_color text_color title (omega arith)
          (omega arith)))

-- The upper edge of a box with its title, and the newline.
abbrev pub top_edge : (before after wall_color text_color : ℕ) (title : List ℕ) → List (ℕ × ℕ)
top_edge before after wall_color text_color title =
    (0xC9, wall_color)
    ∷ ((replicate before (0xCD, wall_color)
          ++ (colored text_color title ++ replicate after (0xCD, wall_color)))
        ++ (0xBB, wall_color) ∷ (b'\n', wall_color) ∷ [])

length-top_edge :
    (m n wall_color text_color : ℕ) (title : List ℕ)
    → length (top_edge m n wall_color text_color title) ≡ m + n + 3 + length title
length-top_edge m n wall_color text_color title =
    let bar = replicate n (0xCD, wall_color) in
    let front = replicate m (0xCD, wall_color) in
    let words = colored text_color title in
    let a =
      length-append (front ++ (words ++ bar)) ((0xBB, wall_color) ∷ (b'\n', wall_color) ∷ []) in
    let b = length-append front (words ++ bar) in
    let c = length-append words bar in
    omega (
      arith,
      a,
      b,
      c,
      length-replicate m (0xCD, wall_color),
      length-replicate n (0xCD, wall_color),
      length-colored text_color title,
    )

-- `draw_box_top` starts a new line and prints an edge of exactly the width on it, with the title in
-- the middle, where the title leaves three columns or more; the newline is in the colour of the walls.
pub draw_box_top-Draws :
    (width wall_color text_color : ℕ) (title : List ℕ)
    → length title + 3 ≤ width
    → width < 2 ^ 31
    → let free = width - length title in
      let m = free / 2 in
      let edge = top_edge m (free - 2 - m) (wall_color % 2 ^ 8) (text_color % 2 ^ 8) title in
      Draws (draw_box_top width wall_color text_color title) ((b'\n', 0x0F) ∷ edge)
      × (length edge ≡ width + 1)
unfolding draw_box_top
draw_box_top-Draws width wall_color text_color title fits small =
    let free = width - length title in
    let e : sub32 width (string_length title) ≡ free =
      rw (string_length-length title (omega arith)) (omega arith) in
    let e' : rounds (sub32 free 1) ≡ free - 1 = ground arith in
    (
      rw (e, e')
          (seq-Draws ((b'\n', 0x0F) ∷ []) _ newline-Draws (
            seq-Draws ((0xC9, wall_color % 2 ^ 8) ∷ []) _ (char-Draws wall_color 0xC9) (
              seq-Draws _ ((0xBB, wall_color % 2 ^ 8) ∷ (b'\n', wall_color % 2 ^ 8) ∷ [])
                (before_title-Draws (free - 1) (free / 2) (free - 2 - free / 2) 0 free wall_color
                  text_color title (omega arith) (omega arith))
                (char_line-Draws wall_color 0xBB)))),
      length-top_edge (free / 2) (free - 2 - free / 2) _ _ title ∙ omega arith,
    )

-- A row of `draw_box_sides` from column `ii` on.
side_cells-Draws :
    (left n ii width color : ℕ)
    → left ≡ n + 1
    → ii + left ≡ width
    → 0 < ii
    → width < 2 ^ 31
    → Draws
        (side_cells left ii width color)
        (replicate n (b' ', 0x0F) ++ (0xBA, color % 2 ^ 8) ∷ [])
unfolding side_cells
side_cells-Draws zero n ii width color h end pos small = absurd (omega arith)
side_cells-Draws (suc left) zero ii width color h end pos small =
    let last : (ii == 0 || ii == sub32 width 1) ≡ true = ground arith in
    let e : left ≡ 0 = omega arith in
    rw (last, e) (seq-Draws ((0xBA, color % 2 ^ 8) ∷ []) [] (char-Draws color 0xBA) pure-Draws)
side_cells-Draws (suc left) (suc n) ii width color h end pos small =
    let inside : (ii == 0 || ii == sub32 width 1) ≡ false = ground arith in
    rw inside (
      seq-Draws ((b' ', 0x0F) ∷ []) _ space-Draws (
        side_cells-Draws left n (ii + 1) width color (omega arith) (omega arith) (omega arith)
          small))

-- A row between two walls.
abbrev pub side_row : (width k : ℕ) → List (ℕ × ℕ)
side_row width k = (0xBA, k) ∷ (replicate (width - 2) (b' ', 0x0F) ++ (0xBA, k) ∷ [])

abbrev pub side_rows_cells : (rows width k : ℕ) → List (ℕ × ℕ)
side_rows_cells zero width k = []
side_rows_cells (suc rows) width k =
    side_row width k ++ (b'\n', 0x0F) ∷ side_rows_cells rows width k

first_cell-Draws :
    (left width color : ℕ)
    → left ≡ width
    → 2 ≤ width
    → width < 2 ^ 31
    → Draws (side_cells left 0 width color) (side_row width (color % 2 ^ 8))
unfolding side_cells
first_cell-Draws zero width color e two small = absurd (omega arith)
first_cell-Draws (suc left) width color e two small =
    seq-Draws ((0xBA, color % 2 ^ 8) ∷ []) _ (char-Draws color 0xBA) (
      side_cells-Draws left (width - 2) 1 width color (omega arith) (omega arith) (omega arith)
        small)

side_rows-Draws :
    (rows width color : ℕ)
    → 2 ≤ width
    → width < 2 ^ 31
    → Draws (side_rows rows width color) (side_rows_cells rows width (color % 2 ^ 8))
unfolding side_rows
side_rows-Draws zero width color two small = pure-Draws
side_rows-Draws (suc rows) width color two small =
    let e : rounds width ≡ width = ground arith in
    rw e (
      seq-Draws (side_row width (color % 2 ^ 8)) _
        (first_cell-Draws width width color refl two small)
        (seq-Draws ((b'\n', 0x0F) ∷ []) _ newline-Draws
          (side_rows-Draws rows width color two small)))

-- `draw_box_sides` draws a third of the rows that it is asked for, each with two walls and blank
-- between them.
pub draw_box_sides-Draws :
    (width num_lines color : ℕ)
    → 2 ≤ width
    → width < 2 ^ 31
    → num_lines < 2 ^ 31
    → Draws
        (draw_box_sides width num_lines color)
        (side_rows_cells (num_lines / 3) width (color % 2 ^ 8))
      × (length (side_row width (color % 2 ^ 8)) ≡ width)
unfolding draw_box_sides
draw_box_sides-Draws width num_lines color two small few =
    let k = color % 2 ^ 8 in
    let e : rounds num_lines / 3 ≡ num_lines / 3 = ground arith in
    let a = length-append (replicate (width - 2) (b' ', 0x0F)) ((0xBA, k) ∷ []) in
    (
      rw e (side_rows-Draws (num_lines / 3) width color two small),
      omega (arith, a, length-replicate (width - 2) (b' ', 0x0F)),
    )
