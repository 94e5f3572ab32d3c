-- ===== src/Text/Number.antt =====
-- Numbers and their digits: `int_to_string` and `int_to_hex_string` of lib/vga.c, `is_valid_number`
-- and `string_to_int` of lib/kutils.c. A C string is the list of its characters up to the NUL.
use native.Mathlib.Nat.{pow-suc}
use mathlib.Core.List.{reverse, reverse-cons, reverse-reverse}
use raxzus_heap_research.Base.{
  ltb, leb, ◌==◌, if◌then◌else◌, lt→leb, eq→==, ne→==, eq-or-ne, u32, sub32, ℕ, zero, suc, ◌+◌, ◌-◌,
  ◌*◌, ◌/◌, ◌%◌, ◌^◌, ◌<◌, ◌≡◌, refl, sym, subst, ◌≢◌, inl, inr, Bool, true, false, ◌&&◌, ◌||◌,
  List, [], ◌∷◌, ◌++◌, arith,
}

-- A `char` as an `int`, by its bit pattern: bytes from 128 on are negative.
abbrev pub char_to_int : ℕ → ℕ
char_to_int c = if ltb c 128 then c else 2 ^ 32 - 256 + c

-- Comparisons of a character with an ASCII one: a negative `char` is less than any.
unfoldable pub is_valid_number : List ℕ → Bool
is_valid_number [] = true
is_valid_number (c ∷ str) =
    if leb 128 c || ltb c b'0' || ltb b'9' c then false else is_valid_number str

-- The loop of `string_to_int`, with `int` arithmetic that wraps.
unfoldable pub string_to_int_loop : ℕ → List ℕ → ℕ
string_to_int_loop result [] = result
string_to_int_loop result (c ∷ input) =
    string_to_int_loop (u32 (result * 10 + sub32 (char_to_int c) b'0')) input

unfoldable pub string_to_int : List ℕ → ℕ
string_to_int input = string_to_int_loop 0 input

-- The digits of a positive value in the order in which they are written, the lowest first. A call
-- has as many rounds as the value may have digits.
unfoldable pub digit_loop : (rounds value : ℕ) → List ℕ
digit_loop zero value = []
digit_loop (suc rounds) value =
    let rest = digit_loop rounds (value / 10) in
    if value == 0 then [] else (value % 10 + b'0') ∷ rest

-- `value` is the bit pattern of an `int`. The loop that swaps the digits from both ends towards the
-- middle is the list's reversal.
unfoldable pub int_to_string : ℕ → List ℕ
int_to_string value =
    if leb (2 ^ 31) value
    then (if value == 2 ^ 31
        then b'-' ∷ b'2' ∷ b'1' ∷ b'4' ∷ b'7' ∷ b'4' ∷ b'8' ∷ b'3' ∷ b'6' ∷ b'4' ∷ b'8' ∷ []
        else b'-' ∷ reverse (digit_loop 10 (2 ^ 32 - value)))
    else if value == 0
    then b'0' ∷ []
    else reverse (digit_loop 10 value)

-- The table `hex`.
unfoldable pub hex_digit : ℕ → ℕ
hex_digit d = if ltb d 10 then d + b'0' else d - 10 + b'A'

unfoldable pub hex_loop : (rounds value : ℕ) → List ℕ
unfolding hex_digit
hex_loop zero value = []
hex_loop (suc rounds) value =
    let rest = hex_loop rounds (value / 2 ^ 4) in
    if value == 0 then [] else hex_digit (value % 2 ^ 4) ∷ rest

-- The characters that `int_to_hex_string` prints: the buffer backwards.
unfoldable pub int_to_hex_string : ℕ → List ℕ
int_to_hex_string value = if value == 0 then b'0' ∷ b'x' ∷ b'0' ∷ [] else reverse (hex_loop 8 value)

string_to_int_loop-append :
    (r : ℕ) (xs ys : List ℕ)
    → string_to_int_loop r (xs ++ ys) ≡ string_to_int_loop (string_to_int_loop r xs) ys
unfolding string_to_int_loop
string_to_int_loop-append r [] ys = refl
string_to_int_loop-append r (x ∷ xs) ys =
    string_to_int_loop-append (u32 (r * 10 + sub32 (char_to_int x) b'0')) xs ys

is_valid_number-append :
    (xs ys : List ℕ) → is_valid_number (xs ++ ys) ≡ (is_valid_number xs && is_valid_number ys)
unfolding is_valid_number
is_valid_number-append [] ys = refl
is_valid_number-append (x ∷ xs) ys = ground (arith, is_valid_number-append xs ys)

-- Both readers on the digits of a value, the highest first.
digit_loop_read :
    (rounds value : ℕ)
    → value < 10 ^ rounds
    → value < 2 ^ 32
    → (string_to_int_loop 0 (reverse (digit_loop rounds value)) ≡ value)
      × (is_valid_number (reverse (digit_loop rounds value)) ≡ true)
unfolding digit_loop string_to_int_loop is_valid_number
digit_loop_read zero value h w = (omega arith, refl)
digit_loop_read (suc rounds) value h w = elim (eq-or-ne value 0) [
  | inl z ↦ rw (eq→== value 0 z) (omega arith, refl)
  | inr ne ↦
      let (read, valid) =
        digit_loop_read rounds (value / 10) (omega (arith, pow-suc 10 rounds)) (omega arith) in
      let low = (value % 10 + b'0') ∷ [] in
      rw (ne→== value 0 ne, reverse-cons)
        (
          rw (string_to_int_loop-append 0 (reverse (digit_loop rounds (value / 10))) low, read)
              (ground arith),
          rw (is_valid_number-append (reverse (digit_loop rounds (value / 10))) low, valid)
              (ground arith),
        )
]

zero_read : (string_to_int (int_to_string 0) ≡ 0) × (is_valid_number (int_to_string 0) ≡ true)
unfolding string_to_int string_to_int_loop int_to_string is_valid_number
zero_read = (refl, refl)

positive_digits :
    (value : ℕ) → value < 2 ^ 31 → value ≢ 0 → int_to_string value ≡ reverse (digit_loop 10 value)
unfolding int_to_string
positive_digits value h ne = rw (lt→leb (2 ^ 31) value h, ne→== value 0 ne)

-- What `int_to_string` prints of a number that is not negative is accepted by `is_valid_number`,
-- and `string_to_int` reads the number back.
pub string_to_int-int_to_string :
    (value : ℕ)
    → value < 2 ^ 31
    → (string_to_int (int_to_string value) ≡ value) × (is_valid_number (int_to_string value) ≡ true)
string_to_int-int_to_string value h = elim (eq-or-ne value 0) [
  | inl z ↦
      subst
        (λ t. (string_to_int (int_to_string t) ≡ t) × (is_valid_number (int_to_string t) ≡ true))
        (sym z) zero_read
  | inr ne ↦
      rw (positive_digits value h ne)
        (unfold string_to_int in digit_loop_read 10 value (omega arith) (omega arith))
]

-- A reader of the printed hexadecimal digits, the lowest first.
unfoldable pub hex_value : List ℕ → ℕ
hex_value [] = 0
hex_value (c ∷ cs) = (if ltb c b'A' then c - b'0' else c - b'A' + 10) + 16 * hex_value cs

hex_loop_read : (rounds value : ℕ) → value < 16 ^ rounds → hex_value (hex_loop rounds value) ≡ value
unfolding hex_value hex_loop hex_digit
hex_loop_read zero value h = omega arith
hex_loop_read (suc rounds) value h =
    ground (arith, hex_loop_read rounds (value / 2 ^ 4), pow-suc 16 rounds)

-- The characters that `int_to_hex_string` prints of a word other than 0 are its hexadecimal digits,
-- the highest first.
pub hex_value-int_to_hex_string :
    (value : ℕ) → value < 2 ^ 32 → value ≢ 0 → hex_value (reverse (int_to_hex_string value)) ≡ value
unfolding int_to_hex_string
hex_value-int_to_hex_string value h ne =
    rw (ne→== value 0 ne, reverse-reverse) (hex_loop_read 8 value h)
