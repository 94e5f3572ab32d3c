-- ===== src/Console/Paint.antt =====
-- Characters with their colours on the screen of lib/vga.c: what the drawing routines of
-- lib/raxzus_shell_ui.c amount to.
use raxzus_heap_research.Base.{length, ℕ, zero, suc, ◌≡◌, refl, sym, ap, ◌∙◌, List, [], ◌∷◌, ◌++◌}
use raxzus_heap_research.Console.Screen.{Screen, print_char, print}
use raxzus_heap_research.Console.Cursor.{IsOnScreen, print_char-IsOnScreen}
use raxzus_heap_research.Console.Print.{color-print_char, same_color}

-- Each character in its colour; then the colour is white, as `kprintf` leaves it.
unfoldable pub paint : List (ℕ × ℕ) → Screen → Screen
paint [] s = record s { color = 0x0F }
paint ((c, k) ∷ cells) s = paint cells (print_char c (record s { color = k }))

-- A text in one colour, and a cell again and again.
abbrev pub colored : ℕ → List ℕ → List (ℕ × ℕ)
colored k [] = []
colored k (c ∷ text) = (c, k) ∷ colored k text

abbrev pub replicate : ℕ → ℕ × ℕ → List (ℕ × ℕ)
replicate zero a = []
replicate (suc n) a = a ∷ replicate n a

pub length-colored : (k : ℕ) (text : List ℕ) → length (colored k text) ≡ length text
length-colored k [] = refl
length-colored k (c ∷ text) = ap suc (length-colored k text)

pub length-replicate : (n : ℕ) (a : ℕ × ℕ) → length (replicate n a) ≡ n
length-replicate zero a = refl
length-replicate (suc n) a = ap suc (length-replicate n a)

-- The colour before is of no account.
pub paint_color :
    (cells : List (ℕ × ℕ)) (k : ℕ) (s : Screen)
    → paint cells (record s { color = k }) ≡ paint cells s
unfolding paint
paint_color [] k s = refl
paint_color (c ∷ cells) k s = refl

pub paint-append : (xs ys : List (ℕ × ℕ)) (s : Screen) → paint (xs ++ ys) s ≡ paint ys (paint xs s)
unfolding paint
paint-append [] ys s = sym (paint_color ys 0x0F s)
paint-append ((c, k) ∷ xs) ys s = paint-append xs ys (print_char c (record s { color = k }))

pub paint-colored :
    (k : ℕ) (text : List ℕ) (s : Screen)
    → paint (colored k text) s ≡ record (print text (record s { color = k })) { color = 0x0F }
unfolding paint print
paint-colored k [] s = refl
paint-colored k (c ∷ text) s =
    let s' = print_char c (record s { color = k }) in
    paint-colored k text s'
    ∙ ap (λ t. record (print text t) { color = 0x0F })
        (same_color k s' (color-print_char c (record s { color = k })))

-- What is painted leaves the cursor on the screen and the colour white.
pub paint-IsOnScreen :
    (cells : List (ℕ × ℕ)) (s : Screen)
    → IsOnScreen s
    → IsOnScreen (paint cells s) × ((paint cells s).color ≡ 0x0F)
unfolding paint
paint-IsOnScreen [] s on = (on, refl)
paint-IsOnScreen ((c, k) ∷ cells) s on =
    paint-IsOnScreen cells (print_char c (record s { color = k }))
      (print_char-IsOnScreen c (record s { color = k }) on).0
