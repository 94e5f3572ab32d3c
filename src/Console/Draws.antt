-- ===== src/Console/Draws.antt =====
-- Printing routines of lib/raxzus_shell_ui.c as the cells that they paint.
use raxzus_heap_research.Base.{
  ◌==◌, if◌then◌else◌, if_cases, length, done, Cmd, and_then, pure, ◌>>◌, codes, ℕ, ◌%◌, ◌^◌, ◌<◌,
  ◌≡◌, refl, sym, ap, ◌∙◌, Bool, true, false, not, ◌&&◌, some, List, [], ◌∷◌, ◌++◌, arith,
}
use raxzus_heap_research.Console.Screen.{Screen, print_char, print}
use raxzus_heap_research.Console.Print.{
  set_color, Arg, string, int, conversion_s, conversion_c, conversion, kprintf_loop, kprintf,
  formatted, print-append, color-print_char, color-print, same_color, kprintf-formatted,
}
use raxzus_heap_research.Console.Paint.{paint, colored, paint-append, paint-colored}
use raxzus_heap_research.Console.Boxes.{in_color, string_length}

-- In the white colour, the routine returns, and has painted the cells.
abbrev pub Draws : Cmd Screen (Unit {0}) → List (ℕ × ℕ) → Type 0
Draws p cells = (s : Screen) → s.color ≡ 0x0F → p s ≡ done tt (paint cells s)

pub color-paint : (cells : List (ℕ × ℕ)) (s : Screen) → (paint cells s).color ≡ 0x0F
unfolding paint
color-paint [] s = refl
color-paint ((c, k) ∷ cells) s = color-paint cells (print_char c (record s { color = k }))

pub pure-Draws : Draws (pure tt) []
unfolding paint
pure-Draws s w = ap (done tt) (sym (same_color 0x0F s w))

pub seq-Draws :
    {p q : Cmd Screen (Unit {0})} (xs ys : List (ℕ × ℕ))
    → Draws p xs
    → Draws q ys
    → Draws (p >> q) (xs ++ ys)
seq-Draws {q = q} xs ys a b s w =
    ap (λ r. and_then r (λ _. q)) (a s w)
    ∙ b (paint xs s) (color-paint xs s)
    ∙ ap (done tt) (sym (paint-append xs ys s))

-- A routine after a test that is known.
pub if-Draws :
    {p q : Cmd Screen (Unit {0})} (xs : List (ℕ × ℕ)) (b : Bool)
    → (b ≡ true → Draws p xs)
    → (b ≡ false → Draws q xs)
    → Draws (if b then p else q) xs
if-Draws {p = p} {q = q} xs b t f = if_cases (λ r. Draws r xs) b p q t f

pub char-Draws :
    (k c : ℕ) → Draws (in_color k (codes "%c") (int c ∷ [])) ((c % 2 ^ 8, k % 2 ^ 8) ∷ [])
unfolding in_color set_color kprintf kprintf_loop conversion conversion_c paint
char-Draws k c s w = refl

pub char_line-Draws :
    (k c : ℕ)
    → Draws
        (in_color k (codes "%c\n") (int c ∷ []))
        ((c % 2 ^ 8, k % 2 ^ 8) ∷ (b'\n', k % 2 ^ 8) ∷ [])
unfolding in_color set_color kprintf kprintf_loop conversion conversion_c paint
char_line-Draws k c s w =
    ap (λ t. done tt (record (print_char b'\n' t) { color = 0x0F }))
      (sym
        (same_color (k % 2 ^ 8) s' (color-print_char (c % 2 ^ 8) (record s { color = k % 2 ^ 8 }))))
  where
    s' : Screen
    s' = print_char (c % 2 ^ 8) (record s { color = k % 2 ^ 8 })

pub text-Draws :
    (k : ℕ) (t : List ℕ) → Draws (in_color k (codes "%s") (string t ∷ [])) (colored (k % 2 ^ 8) t)
unfolding in_color set_color kprintf kprintf_loop conversion conversion_s
text-Draws k t s w = ap (done tt) (sym (paint-colored (k % 2 ^ 8) t s))

pub kprintf-Draws :
    (text : List ℕ) (args : List Arg) (out : List ℕ)
    → formatted false text args ≡ some out
    → Draws (kprintf text args) (colored 0x0F out)
kprintf-Draws text args out h s w =
    kprintf-formatted text args out s w h
    ∙ ap (done tt) (
        sym (same_color 0x0F (print out s) (color-print out s ∙ w))
        ∙ ap (λ t. record (print out t) { color = 0x0F }) (sym (same_color 0x0F s w))
        ∙ sym (paint-colored 0x0F out s))

pub space-Draws : Draws (kprintf (codes " ") []) ((b' ', 0x0F) ∷ [])
space-Draws = kprintf-Draws (codes " ") [] (b' ' ∷ []) (unfold formatted in refl)

pub newline-Draws : Draws (kprintf (codes "\n") []) ((b'\n', 0x0F) ∷ [])
newline-Draws = kprintf-Draws (codes "\n") [] (b'\n' ∷ []) (unfold formatted in refl)

-- The length, where it is an `int`.
pub string_length-length : (text : List ℕ) → length text < 2 ^ 31 → string_length text ≡ length text
unfolding string_length
string_length-length [] h = refl
string_length-length (c ∷ text) h = rw (string_length-length text (omega arith)) (omega arith)

-- A text without conversions, in any colour.
abbrev pub is_plain : List ℕ → Bool
is_plain [] = true
is_plain (c ∷ text) = not (c == b'%') && is_plain text

is_plain-cons :
    (c : ℕ) (text : List ℕ)
    → is_plain (c ∷ text) ≡ true
    → ((c == b'%') ≡ false) × (is_plain text ≡ true)
is_plain-cons c text h = (ground arith, ground arith)

plain_loop :
    (text : List ℕ) (args : List Arg) (s : Screen)
    → is_plain text ≡ true
    → kprintf_loop false text args s ≡ done tt (print text s)
unfolding kprintf_loop print
plain_loop [] args s h = refl
plain_loop (c ∷ text) args s h =
    let (plain, rest) = is_plain-cons c text h in
    rw (kprintf_loop, plain) (plain_loop text args (print_char c s) rest)

pub plain-Draws :
    (k : ℕ) (text : List ℕ)
    → is_plain text ≡ true
    → Draws (in_color k text []) (colored (k % 2 ^ 8) text)
unfolding in_color set_color kprintf
plain-Draws k text h s w =
    rw (plain_loop text [] (record s { color = k % 2 ^ 8 }) h)
      (ap (done tt) (sym (paint-colored (k % 2 ^ 8) text s)))

pub say-Draws : (text : List ℕ) → is_plain text ≡ true → Draws (kprintf text []) (colored 0x0F text)
unfolding kprintf
say-Draws text h s w = rw (plain_loop text [] s h) (
    ap (λ t. done tt (record (print text t) { color = 0x0F })) (sym (same_color 0x0F s w))
    ∙ ap (done tt) (sym (paint-colored 0x0F text s)))

-- A text, and what comes after it.
pub then_say :
    {q : Cmd Screen (Unit {0})} (text : List ℕ) (ys : List (ℕ × ℕ))
    → is_plain text ≡ true
    → Draws q ys
    → Draws (kprintf text [] >> q) (colored 0x0F text ++ ys)
then_say text ys h = seq-Draws (colored 0x0F text) ys (say-Draws text h)

pub then_in_color :
    {q : Cmd Screen (Unit {0})} (k : ℕ) (text : List ℕ) (ys : List (ℕ × ℕ))
    → is_plain text ≡ true
    → Draws q ys
    → Draws (in_color k text [] >> q) (colored (k % 2 ^ 8) text ++ ys)
then_in_color k text ys h = seq-Draws (colored (k % 2 ^ 8) text) ys (plain-Draws k text h)

-- In the white colour, the routine returns, and has printed the text.
abbrev pub Says : Cmd Screen (Unit {0}) → List ℕ → Type 0
Says p text = (s : Screen) → s.color ≡ 0x0F → p s ≡ done tt (print text s)

pub pure-Says : Says (pure tt) []
unfolding print
pure-Says s w = refl

pub seq-Says :
    {p q : Cmd Screen (Unit {0})} (xs ys : List ℕ)
    → Says p xs
    → Says q ys
    → Says (p >> q) (xs ++ ys)
seq-Says {q = q} xs ys a b s w =
    ap (λ r. and_then r (λ _. q)) (a s w)
    ∙ b (print xs s) (color-print xs s ∙ w)
    ∙ ap (done tt) (sym (print-append xs ys s))

-- A call of `kprintf`, and what comes after it.
pub then_format :
    {q : Cmd Screen (Unit {0})} (text : List ℕ) (args : List Arg) (out ys : List ℕ)
    → formatted false text args ≡ some out
    → Says q ys
    → Says (kprintf text args >> q) (out ++ ys)
then_format text args out ys h = seq-Says out ys (λ s w. kprintf-formatted text args out s w h)

pub format-Says :
    (text : List ℕ) (args : List Arg) (out : List ℕ)
    → formatted false text args ≡ some out
    → Says (kprintf text args) out
format-Says text args out h s w = kprintf-formatted text args out s w h
