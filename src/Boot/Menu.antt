-- ===== src/Boot/Menu.antt =====
-- What kernel.c prints at start-up: the title and the boot menu.
use raxzus_heap_research.Console.Paint.{paint}
use raxzus_heap_research.Base.{
  length, done, Cmd, ◌>>◌, codes, ℕ, ◌-◌, ◌%◌, ◌^◌, ◌≤◌, ◌<◌, ◌≡◌, subst, List, [], ◌∷◌, ◌++◌,
  arith,
}
use raxzus_heap_research.Console.Screen.{Screen}
use raxzus_heap_research.Console.Print.{kprintf}
use raxzus_heap_research.Console.Draws.{Draws, seq-Draws, newline-Draws}
use raxzus_heap_research.Console.Boxes.{
  draw_box_top, draw_box_sides, draw_box_bottom, print_text_align,
}
use raxzus_heap_research.Console.BoxLines.{aligned, print_text_align-Draws}
use raxzus_heap_research.Console.BoxEdges.{
  bottom_edge, draw_box_bottom-Draws, top_edge, draw_box_top-Draws, draw_box_sides-Draws,
}

abbrev pub color_cyan : ℕ
color_cyan = 0x03

-- The first four calls of `kernel_main`.
unfoldable pub boot_title : Cmd Screen (Unit {0})
unfolding draw_box_top print_text_align draw_box_bottom
boot_title = do
  draw_box_top 70 0x0F 0x05 []
  print_text_align (codes "RaxzusOS Kernel v1.0 - Boot Sequence") 70 3 0x00 0x0F 2
  draw_box_bottom 70 0x0F
  print_text_align (codes "Inizializing system programs.....") 70 1 0x00 0x0E 2

-- The menu, behind the initialisation.
unfoldable pub boot_menu : Cmd Screen (Unit {0})
unfolding kprintf draw_box_top draw_box_sides print_text_align draw_box_bottom
boot_menu = do
  kprintf (codes "\n") []
  draw_box_top 30 color_cyan 0x07 (codes "[ RaxzusOS Boot Menu ]")
  draw_box_sides 30 2 color_cyan
  print_text_align (codes "[1] Normal Boot") 30 1 color_cyan 0x02 2
  print_text_align (codes "[2] Safe Mode") 30 1 color_cyan 0x0E 2
  print_text_align (codes "[3] Recovery") 30 1 color_cyan 0x04 2
  draw_box_sides 30 2 color_cyan
  draw_box_bottom 30 color_cyan

-- An entry of the menu: 30 columns and the newline.
abbrev pub menu_line : (text_color : ℕ) (text : List ℕ) → List (ℕ × ℕ)
menu_line text_color text =
    aligned 2 (26 - length text) color_cyan text_color text ++ (b'\n', 0x0F) ∷ []

menu_line-Draws :
    (text_color : ℕ) (text : List ℕ)
    → length text ≤ 26
    → text_color < 2 ^ 8
    → Draws (print_text_align text 30 1 color_cyan text_color 2) (menu_line text_color text)
menu_line-Draws text_color text fits color =
    let (draws, width) =
      print_text_align-Draws text 30 1 color_cyan text_color 2 (omega arith) (omega arith)
        (omega arith) (omega arith) in
    let after : 30 - length text - 2 - 2 ≡ 26 - length text = omega arith in
    let same : text_color % 2 ^ 8 ≡ text_color = omega arith in
    let p = print_text_align text 30 1 color_cyan text_color 2 in
    subst (λ t. Draws p (aligned 2 t color_cyan text_color text ++ (b'\n', 0x0F) ∷ [])) after
      (subst
        (λ t.
          Draws p (aligned 2 (30 - length text - 2 - 2) color_cyan t text ++ (b'\n', 0x0F) ∷ []))
        same draws)

abbrev pub menu_cells : List (ℕ × ℕ)
menu_cells =
    (b'\n', 0x0F)
    ∷ (b'\n', 0x0F)
    ∷ (top_edge 4 2 color_cyan 0x07 (codes "[ RaxzusOS Boot Menu ]")
        ++ (menu_line 0x02 (codes "[1] Normal Boot")
            ++ (menu_line 0x0E (codes "[2] Safe Mode")
                ++ (menu_line 0x04 (codes "[3] Recovery") ++ bottom_edge 30 color_cyan))))

boot_menu-Draws : Draws boot_menu menu_cells
unfolding boot_menu
boot_menu-Draws =
    let no_rows : Draws (draw_box_sides 30 2 color_cyan) [] =
      (draw_box_sides-Draws 30 2 color_cyan (omega arith) (omega arith) (omega arith)).0 in
    seq-Draws ((b'\n', 0x0F) ∷ []) _ newline-Draws (
      seq-Draws ((b'\n', 0x0F) ∷ top_edge 4 2 color_cyan 0x07 (codes "[ RaxzusOS Boot Menu ]")) _
        (draw_box_top-Draws 30 color_cyan 0x07 (codes "[ RaxzusOS Boot Menu ]") (omega arith)
          (omega arith)).0
        (seq-Draws [] _ no_rows (
          seq-Draws (menu_line 0x02 (codes "[1] Normal Boot")) _
            (menu_line-Draws 0x02 (codes "[1] Normal Boot") (omega arith) (omega arith))
            (seq-Draws (menu_line 0x0E (codes "[2] Safe Mode")) _
              (menu_line-Draws 0x0E (codes "[2] Safe Mode") (omega arith) (omega arith))
              (seq-Draws (menu_line 0x04 (codes "[3] Recovery")) _
                (menu_line-Draws 0x04 (codes "[3] Recovery") (omega arith) (omega arith))
                (seq-Draws [] _ no_rows
                  (draw_box_bottom-Draws 30 color_cyan (omega arith) (omega arith))))))))

-- In the white colour the menu is a box of 30 columns: the upper edge with the title, the three entries one below the
-- other, and the lower edge. No blank row stands between them, although two are asked for each time:
-- a third of two is none.
pub boot_menu_lem : (s : Screen) → s.color ≡ 0x0F → boot_menu s ≡ done tt (paint menu_cells s)
boot_menu_lem s w = boot_menu-Draws s w

-- The title returns.
pub boot_title-returns : (s : Screen) → s.color ≡ 0x0F → (t : Screen) × (boot_title s ≡ done tt t)
unfolding boot_title
boot_title-returns s w =
    let title = codes "RaxzusOS Kernel v1.0 - Boot Sequence" in
    let start = codes "Inizializing system programs....." in
    let (top, _) = draw_box_top-Draws 70 0x0F 0x05 [] (omega arith) (omega arith) in
    let (middle, _) =
      print_text_align-Draws title 70 3 0x00 0x0F 2 (omega arith) (omega arith) (omega arith)
        (omega arith) in
    let bottom = draw_box_bottom-Draws 70 0x0F (omega arith) (omega arith) in
    let (last, _) =
      print_text_align-Draws start 70 1 0x00 0x0E 2 (omega arith) (omega arith) (omega arith)
        (omega arith) in
    let whole = seq-Draws _ _ top (seq-Draws _ _ middle (seq-Draws _ _ bottom last)) in
    (_, whole s w)
