-- ===== src/Base/Bits.antt =====
-- The binary digits of a number, and what the native bit operations do to each of them.
use Prim.Native.Nat.{
  ℕ, zero, suc, ◌+◌, ◌-◌, ◌*◌, ◌/◌, ◌%◌, ◌^◌, ◌≤◌, ◌<◌, min, max, bit_and, bit_or, digits,
  bit_and-bitwise, bit_or-bitwise,
}
use mathlib.Core.Path.{◌≡◌, refl, sym, ap, ◌∙◌, subst}
use mathlib.Core.Logic.{◌≢◌, inl, inr}
use native.Mathlib.Nat.{pow-suc, one-le-pow, le_refl}
use native.Mathlib.Omega.{arith}
use raxzus_heap_research.Base.Tests.{◌==◌, if◌then◌else◌, ne→==, lt-or-le, eq-or-ne}

-- Digit `j` of `w`, the lowest first.
abbrev pub bit : ℕ → ℕ → ℕ
bit w zero = w % 2
bit w (suc j) = bit (w / 2) j

pub bit-lt : (w j : ℕ) → bit w j < 2
bit-lt w zero = omega arith
bit-lt w (suc j) = bit-lt (w / 2) j

pub bit-zero : (j : ℕ) → bit 0 j ≡ 0
bit-zero zero = refl
bit-zero (suc j) = bit-zero j

module _ (z : ℕ → ℕ) (f : ℕ → ℕ → ℕ) (small : (x y : ℕ) → x < 2 → y < 2 → f x y < 2)
    (tail : (b j : ℕ) → bit (z b) j ≡ f 0 (bit b j)) where
  bit-digits : (n a b j : ℕ) → a ≤ n → bit (digits z f n a b) j ≡ f (bit a j) (bit b j)
  bit-digits zero zero b j h = rw bit-zero (tail b j)
  bit-digits zero (suc a) b j h = absurd (omega arith)
  bit-digits (suc n) zero b j h = rw bit-zero (tail b j)
  bit-digits (suc n) (suc a) b zero h =
      omega (arith, small (suc a % 2) (b % 2) (omega arith) (omega arith))
  bit-digits (suc n) (suc a) b (suc j) h =
      let low = small (suc a % 2) (b % 2) (omega arith) (omega arith) in
      let d = digits z f n (suc a / 2) (b / 2) in
      let e : (d * 2 + f (suc a % 2) (b % 2)) / 2 ≡ d = omega arith in
      rw e (bit-digits n (suc a / 2) (b / 2) j (omega arith))

pub bit-bit_and : (a b j : ℕ) → bit (bit_and a b) j ≡ min (bit a j) (bit b j)
bit-bit_and a b j = rw bit_and-bitwise (
    bit-digits (λ _. 0) min (λ x y p q. omega arith) (λ c i. rw bit-zero (omega arith)) a a b j
      (le_refl a))

pub bit-bit_or : (a b j : ℕ) → bit (bit_or a b) j ≡ max (bit a j) (bit b j)
bit-bit_or a b j =
    rw bit_or-bitwise
      (bit-digits (λ c. c) max (λ x y p q. omega arith) (λ c i. omega arith) a a b j (le_refl a))

-- A number below `2 ^ n` is given by its first `n` digits.
pub bit_ext : (n a b : ℕ) → a < 2 ^ n → b < 2 ^ n → ((j : ℕ) → j < n → bit a j ≡ bit b j) → a ≡ b
bit_ext zero a b p q h = omega arith
bit_ext (suc n) a b p q h = omega (
  arith,
  h 0 (omega arith),
  bit_ext n (a / 2) (b / 2) (omega (arith, pow-suc 2 n)) (omega (arith, pow-suc 2 n))
      (λ j l. h (suc j) (omega arith)),
)

-- `1 << i`.
pub bit-pow : (i j : ℕ) → bit (2 ^ i) j ≡ (if i == j then 1 else 0)
bit-pow zero zero = refl
bit-pow zero (suc j) = ground (arith, bit-zero j)
bit-pow (suc i) zero = ground (arith, pow-suc 2 i)
bit-pow (suc i) (suc j) =
    let e : 2 ^ suc i / 2 ≡ 2 ^ i = omega (arith, pow-suc 2 i) in rw e (ground (arith, bit-pow i j))

-- The complement of `a` among `n` digits.
pub bit-complement : (n a j : ℕ) → a < 2 ^ n → j < n → bit (2 ^ n - 1 - a) j ≡ 1 - bit a j
bit-complement zero a j p q = absurd (omega arith)
bit-complement (suc n) a zero p q = omega (arith, pow-suc 2 n)
bit-complement (suc n) a (suc j) p q =
    let e : (2 ^ suc n - 1 - a) / 2 ≡ 2 ^ n - 1 - a / 2 = omega (arith, pow-suc 2 n) in
    rw e (bit-complement n (a / 2) j (omega (arith, pow-suc 2 n)) (omega arith))

-- A number whose digits are all 0 is 0.
zero_of_bits : (n a : ℕ) → a ≤ n → ((j : ℕ) → bit a j ≡ 0) → a ≡ 0
zero_of_bits n zero p h = refl
zero_of_bits zero (suc a) p h = absurd (omega arith)
zero_of_bits (suc n) (suc a) p h =
    omega (arith, h 0, zero_of_bits n (suc a / 2) (omega arith) (λ j. h (suc j)))

-- The test `w & (1 << j)` is zero exactly where digit `j` is.
pub bit_of_bit_and-pow : (w j : ℕ) → bit_and w (2 ^ j) ≡ 0 → bit w j ≡ 0
bit_of_bit_and-pow w j h =
    ground (
      arith,
      bit-bit_and w (2 ^ j) j,
      bit-pow j j,
      bit-lt w j,
      ap (λ (t : ℕ). bit t j) h,
      bit-zero j,
    )

pub bit_and-pow_of_bit : (w j : ℕ) → bit w j ≡ 0 → bit_and w (2 ^ j) ≡ 0
bit_and-pow_of_bit w j h = zero_of_bits (bit_and w (2 ^ j)) (bit_and w (2 ^ j)) (le_refl _) (λ i.
    elim (eq-or-ne j i) [
      | inl e ↦
          subst (λ k. bit (bit_and w (2 ^ j)) k ≡ 0) e (omega (arith, bit-bit_and w (2 ^ j) j))
      | inr ne ↦ rw (bit-bit_and, bit-pow, ne→== j i ne) (omega arith)
    ])

pub bit_test : (w j : ℕ) → (bit_and w (2 ^ j) == 0) ≡ (bit w j == 0)
bit_test w j = ground (arith, bit_of_bit_and-pow w j, bit_and-pow_of_bit w j)

-- The word of `n` ones has every digit 1.
pub bit-ones : (n j : ℕ) → j < n → bit (2 ^ n - 1) j ≡ 1
bit-ones zero j h = absurd (omega arith)
bit-ones (suc n) zero h = omega (arith, pow-suc 2 n, one-le-pow n 2)
bit-ones (suc n) (suc j) h =
    let e : (2 ^ suc n - 1) / 2 ≡ 2 ^ n - 1 = omega (arith, pow-suc 2 n) in
    rw e (bit-ones n j (omega arith))

-- A word below `2 ^ n` that is not all ones has a digit 0 to be found.
pub clear_bit_of_ne : (n w : ℕ) → w < 2 ^ n → w ≢ 2 ^ n - 1 → (j : ℕ) × (j < n) × (bit w j ≡ 0)
clear_bit_of_ne zero w p ne = absurd (ne (omega arith))
clear_bit_of_ne (suc n) w p ne = elim (eq-or-ne (w % 2) 0) [
  | inl e ↦ (0, omega arith, e)
  | inr odd ↦
      let (j, l, e) =
        clear_bit_of_ne n (w / 2) (omega (arith, pow-suc 2 n))
          (λ full. ne (omega (arith, pow-suc 2 n))) in
      (suc j, omega arith, e)
]

-- Both operations stay below `2 ^ n`.
bound_of_bits : (n a : ℕ) → ((j : ℕ) → n ≤ j → bit a j ≡ 0) → a < 2 ^ n
bound_of_bits zero a h = omega (arith, zero_of_bits a a (le_refl a) (λ j. h j (omega arith)))
bound_of_bits (suc n) a h =
    omega (arith, pow-suc 2 n, bound_of_bits n (a / 2) (λ j l. h (suc j) (omega arith)))

bit_of_lt : (n a j : ℕ) → a < 2 ^ n → n ≤ j → bit a j ≡ 0
bit_of_lt zero a j p q = rw (zero_of_lt_one) (bit-zero j)
  where
    zero_of_lt_one : a ≡ 0
    zero_of_lt_one = omega arith
bit_of_lt (suc n) a zero p q = absurd (omega arith)
bit_of_lt (suc n) a (suc j) p q = bit_of_lt n (a / 2) j (omega (arith, pow-suc 2 n)) (omega arith)

pub bit_or-lt : (n a b : ℕ) → a < 2 ^ n → b < 2 ^ n → bit_or a b < 2 ^ n
bit_or-lt n a b p q =
    bound_of_bits n (bit_or a b)
      (λ j l. omega (arith, bit-bit_or a b j, bit_of_lt n a j p l, bit_of_lt n b j q l))

pub bit_and-lt : (n a b : ℕ) → a < 2 ^ n → bit_and a b < 2 ^ n
bit_and-lt n a b p =
    bound_of_bits n (bit_and a b) (λ j l. omega (arith, bit-bit_and a b j, bit_of_lt n a j p l))

-- Numbers with the same digits are the same.
pub eq_of_bits : (n a b : ℕ) → a ≤ n → b ≤ n → ((j : ℕ) → bit a j ≡ bit b j) → a ≡ b
eq_of_bits zero a b p q h = omega arith
eq_of_bits (suc n) a b p q h = elim (lt-or-le a b) [
  | inl l ↦
      omega (arith, h 0, eq_of_bits n (a / 2) (b / 2) (omega arith) (omega arith) (λ j. h (suc j)))
  | inr l ↦
      omega (arith, h 0, eq_of_bits n (a / 2) (b / 2) (omega arith) (omega arith) (λ j. h (suc j)))
]

bit-shifted : (k q r j : ℕ) → r < 2 ^ k → bit (q * 2 ^ k + r) j ≡ max (bit (q * 2 ^ k) j) (bit r j)
bit-shifted zero q r j h =
    let e : r ≡ 0 = omega arith in
    let e' : q * 2 ^ 0 + r ≡ q * 2 ^ 0 = omega arith in rw (e', e, bit-zero) (omega arith)
bit-shifted (suc k) q r zero h = omega (arith, ap (λ (t : ℕ). q * t) (pow-suc 2 k))
bit-shifted (suc k) q r (suc j) h =
    let double = ap (λ (t : ℕ). q * t) (pow-suc 2 k) in
    let e : (q * 2 ^ suc k + r) / 2 ≡ q * 2 ^ k + r / 2 = omega (arith, double) in
    let e' : q * 2 ^ suc k / 2 ≡ q * 2 ^ k = omega (arith, double) in
    rw (e, e') (bit-shifted k q (r / 2) j (omega (arith, pow-suc 2 k)))

-- `(q << k) | r` is a sum where `r` fits below bit `k`.
pub bit_or_shifted : (k q r : ℕ) → r < 2 ^ k → bit_or (q * 2 ^ k) r ≡ q * 2 ^ k + r
bit_or_shifted k q r h =
    eq_of_bits (bit_or (q * 2 ^ k) r + (q * 2 ^ k + r)) (bit_or (q * 2 ^ k) r) (q * 2 ^ k + r)
      (omega arith) (omega arith) (λ j. bit-bit_or (q * 2 ^ k) r j ∙ sym (bit-shifted k q r j h))

pub bit_or_comm : (a b : ℕ) → bit_or a b ≡ bit_or b a
bit_or_comm a b =
    eq_of_bits (bit_or a b + bit_or b a) (bit_or a b) (bit_or b a) (omega arith) (omega arith)
      (λ j. omega (arith, bit-bit_or a b j, bit-bit_or b a j))

pub pow-lt-pow : (i n : ℕ) → i < n → 2 ^ i < 2 ^ n
pow-lt-pow zero zero h = absurd (omega arith)
pow-lt-pow zero (suc n) h = omega (arith, pow-suc 2 n, one-le-pow n 2)
pow-lt-pow (suc i) zero h = absurd (omega arith)
pow-lt-pow (suc i) (suc n) h = omega (arith, pow-suc 2 i, pow-suc 2 n, pow-lt-pow i n (omega arith))
