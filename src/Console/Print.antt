-- ===== src/Console/Print.antt =====
-- `make_color`, `set_color`, `int_to_hex_string` and `kprintf` of lib/vga.c.
use mathlib.Core.Option
use mathlib.Core.List.{reverse}
use raxzus_heap_research.Base.{
  ◌==◌, if◌then◌else◌, ne→==, eq-or-ne, if_cases, done, fault, Cmd, and_then, pure, ◌>>=◌, ◌>>◌, ℕ,
  ◌*◌, ◌%◌, ◌^◌, bit_or, ◌≡◌, refl, sym, ap, ◌∙◌, inl, inr, Bool, true, false, ◌||◌, Option, none,
  some, List, [], ◌∷◌, ◌++◌, arith,
}
use raxzus_heap_research.Text.Number.{int_to_string, hex_loop, int_to_hex_string}
use raxzus_heap_research.Console.Screen.{Screen, scroll, place_char, print_char, print}

-- The colours are `char`s.
unfoldable pub make_color : ℕ → ℕ → ℕ
make_color fg bg = bit_or fg (bg * 2 ^ 4) % 2 ^ 8

unfoldable pub set_color : ℕ → Cmd Screen (Unit {0})
set_color choosen_color s = done tt (record s { color = choosen_color % 2 ^ 8 })

-- The variable arguments: a string, an `int` by its bit pattern, and a `double` by the characters
-- that `double_to_string` gives for it.
pub data Arg : Type 0 where
  string : List ℕ → Arg
  int : ℕ → Arg
  double : List ℕ → Arg

-- The digits of `int_to_hex_string`: it calls `kprintf` for each, which sets the colour back.
unfoldable pub print_hex : List ℕ → Screen → Screen
print_hex [] s = s
print_hex (c ∷ digits) s = print_hex digits (record (print_char c s) { color = 0x0F })

-- `int_to_hex_string` on the screen: 0 is printed by one call.
unfoldable pub print_hex_value : ℕ → Screen → Screen
unfolding print_hex
print_hex_value value s =
    if value == 0
    then record (print (b'0' ∷ b'x' ∷ b'0' ∷ []) s) { color = 0x0F }
    else print_hex (int_to_hex_string value) s

-- The cases of the `switch`; reading an argument of another type is not defined in C.
unfoldable pub conversion_s : List Arg → Cmd Screen (List Arg)
conversion_s (string t ∷ args) s = done args (print t s)
conversion_s _ s = fault

unfoldable pub conversion_c : List Arg → Cmd Screen (List Arg)
conversion_c (int c ∷ args) s = done args (print_char (c % 2 ^ 8) s)
conversion_c _ s = fault

unfoldable pub conversion_d : List Arg → Cmd Screen (List Arg)
conversion_d (int value ∷ args) s = done args (print (int_to_string value) s)
conversion_d _ s = fault

unfoldable pub conversion_x : List Arg → Cmd Screen (List Arg)
unfolding print_hex_value
conversion_x (int value ∷ args) s = done args (print_hex_value value s)
conversion_x _ s = fault

unfoldable pub conversion_f : List Arg → Cmd Screen (List Arg)
conversion_f (double t ∷ args) s = done args (print t s)
conversion_f _ s = fault

unfoldable pub conversion : ℕ → List Arg → Cmd Screen (List Arg)
unfolding conversion_s conversion_c conversion_d conversion_x conversion_f
conversion c args =
    if c == b's'
    then conversion_s args
    else if c == b'c'
    then conversion_c args
    else if c == b'd'
    then conversion_d args
    else if c == b'x'
    then conversion_x args
    else if c == b'f'
    then conversion_f args
    else pure args

-- The loop over the text; the first argument says whether the last character was a `%`. A text that
-- ends in `%` is read behind its NUL.
unfoldable pub kprintf_loop : Bool → List ℕ → List Arg → Cmd Screen (Unit {0})
unfolding conversion
kprintf_loop false [] args = pure tt
kprintf_loop true [] args = λ s. fault
kprintf_loop false (c ∷ text) args =
    λ s. kprintf_loop (c == b'%') text args (if c == b'%' then s else print_char c s)
kprintf_loop true (c ∷ text) args = conversion c args >>= kprintf_loop false text

unfoldable pub kprintf : List ℕ → List Arg → Cmd Screen (Unit {0})
unfolding kprintf_loop
kprintf text args = kprintf_loop false text args >> λ s. done tt (record s { color = 0x0F })

-- What a conversion stands for, and the arguments that are left.
unfoldable pub expansion : ℕ → List Arg → Option (List ℕ × List Arg)
expansion c (string t ∷ args) =
    if c == b's'
    then some (t, args)
    else if c == b'c' || c == b'd' || c == b'x' || c == b'f'
    then none
    else some ([], string t ∷ args)
expansion c (int n ∷ args) =
    if c == b'c'
    then some (n % 2 ^ 8 ∷ [], args)
    else if c == b'd'
    then some (int_to_string n, args)
    else if c == b'x'
    then some (int_to_hex_string n, args)
    else if c == b's' || c == b'f'
    then none
    else some ([], int n ∷ args)
expansion c (double t ∷ args) =
    if c == b'f'
    then some (t, args)
    else if c == b'c' || c == b'd' || c == b'x' || c == b's'
    then none
    else some ([], double t ∷ args)
expansion c [] =
    if c == b's' || c == b'c' || c == b'd' || c == b'x' || c == b'f' then none else some ([], [])

-- An expansion in front of what the rest of the text gives.
abbrev in_front : Option (List ℕ × List Arg) → (List Arg → Option (List ℕ)) → Option (List ℕ)
in_front none rest = none
in_front (some (t, left)) rest = Option.map (λ out. t ++ out) (rest left)

-- The characters of a format with its arguments: the reference for `kprintf`.
unfoldable pub formatted : Bool → List ℕ → List Arg → Option (List ℕ)
unfolding expansion
formatted false [] args = some []
formatted true [] args = none
formatted false (c ∷ text) args =
    Option.map (λ out. if c == b'%' then out else c ∷ out) (formatted (c == b'%') text args)
formatted true (c ∷ text) args = in_front (expansion c args) (formatted false text)

pub print-append : (xs ys : List ℕ) (s : Screen) → print (xs ++ ys) s ≡ print ys (print xs s)
unfolding print
print-append [] ys s = refl
print-append (x ∷ xs) ys s = print-append xs ys (print_char x s)

-- Printing leaves the colour alone.
pub color-print_char : (c : ℕ) (s : Screen) → (print_char c s).color ≡ s.color
unfolding print_char place_char scroll
color-print_char c s = ground arith

pub color-print : (message : List ℕ) (s : Screen) → (print message s).color ≡ s.color
unfolding print
color-print [] s = refl
color-print (c ∷ message) s = color-print message (print_char c s) ∙ color-print_char c s

pub same_color : (k : ℕ) (s : Screen) → s.color ≡ k → record s { color = k } ≡ s
same_color k s h = ap (λ c. record s { color = c }) (sym h)

print_hex_lem :
    (digits : List ℕ) (s : Screen) → s.color ≡ 0x0F → print_hex digits s ≡ print digits s
unfolding print_hex print
print_hex_lem [] s h = refl
print_hex_lem (c ∷ digits) s h =
    ap (print_hex digits) (same_color 0x0F (print_char c s) (color-print_char c s ∙ h))
    ∙ print_hex_lem digits (print_char c s) (color-print_char c s ∙ h)

print_hex_value_lem :
    (value : ℕ) (s : Screen)
    → s.color ≡ 0x0F
    → print_hex_value value s ≡ print (int_to_hex_string value) s
unfolding print_hex_value int_to_hex_string
print_hex_value_lem value s h = elim (eq-or-ne value 0) [
  | inl z ↦ rw z (
      same_color 0x0F (print (b'0' ∷ b'x' ∷ b'0' ∷ []) s)
        (color-print (b'0' ∷ b'x' ∷ b'0' ∷ []) s ∙ h))
  | inr ne ↦ rw (ne→== value 0 ne) (print_hex_lem (reverse (hex_loop 8 value)) s h)
]

conversion_lem :
    (c : ℕ) (args left : List Arg) (t : List ℕ) (s : Screen)
    → s.color ≡ 0x0F
    → expansion c args ≡ some (t, left)
    → conversion c args s ≡ done left (print t s)
unfolding conversion conversion_s conversion_c conversion_d conversion_x conversion_f expansion
    print
conversion_lem c [] left t s w h = ground arith
conversion_lem c (string u ∷ args) left t s w h = ground arith
conversion_lem c (int n ∷ args) left t s w h = ground (arith, print_hex_value_lem n s w)
conversion_lem c (double u ∷ args) left t s w h = ground arith

map-some :
    {f : List ℕ → List ℕ} (o : Option (List ℕ)) {out : List ℕ}
    → Option.map f o ≡ some out
    → (rest : List ℕ) × (o ≡ some rest) × (out ≡ f rest)
map-some none h = cc
map-some (some rest) h = (rest, refl, sym (Option.some-injective _ _ h))

in_front-some :
    (o : Option (List ℕ × List Arg)) (rest : List Arg → Option (List ℕ)) {out : List ℕ}
    → in_front o rest ≡ some out
    → (t : List ℕ) × (left : List Arg) × (o ≡ some (t, left))
      × ((more : List ℕ) × (rest left ≡ some more) × (out ≡ t ++ more))
in_front-some none rest h = cc
in_front-some (some (t, left)) rest h = (t, left, refl, map-some (rest left) h)

plain_step :
    (c : ℕ) (out rest : List ℕ) (s : Screen)
    → out ≡ (if c == b'%' then rest else c ∷ rest)
    → print out s ≡ print rest (if c == b'%' then s else print_char c s)
unfolding print
plain_step c out rest s e = rw e (ground arith)

kprintf_loop_lem :
    (b : Bool) (text : List ℕ) (args : List Arg) (out : List ℕ) (s : Screen)
    → s.color ≡ 0x0F
    → formatted b text args ≡ some out
    → kprintf_loop b text args s ≡ done tt (print out s)
unfolding kprintf_loop formatted print
kprintf_loop_lem false [] args out s w h =
    ap (λ o. done tt (print o s)) (Option.some-injective _ _ h)
kprintf_loop_lem true [] args out s w h = cc
kprintf_loop_lem false (c ∷ text) args out s w h =
    let (rest, e, shape) = map-some (formatted (c == b'%') text args) h in
    let white : (if c == b'%' then s else print_char c s).color ≡ 0x0F =
      if_cases (λ t. t.color ≡ 0x0F) (c == b'%') s (print_char c s) (λ _. w)
        (λ _. color-print_char c s ∙ w) in
    kprintf_loop_lem (c == b'%') text args rest _ white e
    ∙ ap (done tt) (sym (plain_step c out rest s shape))
kprintf_loop_lem true (c ∷ text) args out s w h =
    let (t, left, e, (more, e', shape)) =
      in_front-some (expansion c args) (formatted false text) h in
    ap (λ r. and_then r (kprintf_loop false text)) (conversion_lem c args left t s w e)
    ∙ kprintf_loop_lem false text left more (print t s) (color-print t s ∙ w) e'
    ∙ ap (done tt) (sym (ap (λ o. print o s) shape ∙ print-append t more s))

-- `kprintf`, in the white colour that it always leaves, prints the characters of the format with
-- its arguments, where the arguments fit the conversions.
pub kprintf-formatted :
    (text : List ℕ) (args : List Arg) (out : List ℕ) (s : Screen)
    → s.color ≡ 0x0F
    → formatted false text args ≡ some out
    → kprintf text args s ≡ done tt (print out s)
unfolding kprintf
kprintf-formatted text args out s w h =
    rw (kprintf_loop_lem false text args out s w h)
      (ap (done tt) (same_color 0x0F (print out s) (color-print out s ∙ w)))
