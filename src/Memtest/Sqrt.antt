-- ===== src/Memtest/Sqrt.antt =====
-- `isqrt` of lib/memtest.c: the integer square root by Newton's rule.
use native.Mathlib.Nat.{mul-le-mul, mul-le-mul_left, le_refl, lt-mul-div-succ, div-mul-le_self}
use raxzus_heap_research.Base.{
  ltb, ◌==◌, if◌then◌else◌, ltb→lt, lt→ltb, ltb→le, ne→==, Bool-cases, lt-or-le, eq-or-ne, u32, ℕ,
  zero, suc, ◌+◌, ◌-◌, ◌*◌, ◌/◌, ◌^◌, ◌≤◌, ◌<◌, ◌≡◌, refl, sym, ap, ◌∙◌, subst, ◌≢◌, ◌⊎◌, inl, inr,
  true, false, Option, none, some, arith,
}

-- The loop, with an upper bound on its rounds; a division by zero gives no result.
unfoldable pub isqrt_loop : (rounds n x y : ℕ) → Option ℕ
isqrt_loop zero n x y = none
isqrt_loop (suc rounds) n x y = elim (ltb y x) [
  | true ↦ if y == 0 then none else isqrt_loop rounds n y (u32 (y + n / y) / 2)
  | false ↦ some x
]

unfoldable pub isqrt : ℕ → Option ℕ
unfolding isqrt_loop
isqrt n = if n == 0 then some 0 else isqrt_loop (suc n) n n (n / 2 + 1)

four_apart : (a d : ℕ) → 4 * (a * (a + d)) ≤ (a + (a + d)) * (a + (a + d))
four_apart a d =
    let e : (a + (a + d)) * (a + (a + d)) ≡ 4 * (a * (a + d)) + d * d = omega arith in omega arith

-- A product is at most the square of the mean.
four_products : (a b : ℕ) → 4 * (a * b) ≤ (a + b) * (a + b)
four_products a b = elim (lt-or-le a b) [
  | inl h ↦
      let e : a + (b - a) ≡ b = omega arith in
      subst (λ t. 4 * (a * t) ≤ (a + t) * (a + t)) e (four_apart a (b - a))
  | inr h ↦
      let e : b + (a - b) ≡ a = omega arith in
      let f = subst (λ t. 4 * (b * t) ≤ (b + t) * (b + t)) e (four_apart b (a - b)) in omega arith
]

square_mono : (a b : ℕ) → a ≤ b → a * a ≤ b * b
square_mono a b h = mul-le-mul h h

-- Newton's step does not fall below a root.
step_above : (s n x : ℕ) → 0 < x → s * s ≤ n → s ≤ (x + n / x) / 2
step_above s n x pos root = elim (lt-or-le ((x + n / x) / 2) s) [
  | inr h ↦ h
  | inl h ↦
      let b = n / x + 1 in
      let above : x + b ≤ 2 * s = omega arith in
      let big : n < x * b = lt-mul-div-succ n pos in
      let f = four_products x b in let g = square_mono (x + b) (2 * s) above in absurd (omega arith)
]

-- No root of a number lies above the bound.
abbrev AboveRoots : ℕ → ℕ → Type 0
AboveRoots n x = (s : ℕ) → s * s ≤ n → s ≤ x

-- The step does not wrap.
step-fits : (n x : ℕ) → n < 2 ^ 32 → 0 < x → x ≤ n / 2 + 1 → AboveRoots n x → x + n / x < 2 ^ 32
step-fits n x small pos low above =
    let d = div-mul-le_self n x in
    elim (lt-or-le x 2) [
      | inl h ↦
          let e = mul-le-mul_left (n / x) pos in
          elim (lt-or-le n 4) [
            | inl few ↦ omega arith
            | inr many ↦ let two = above 2 many in absurd (omega arith)
          ]
      | inr h ↦ let e = mul-le-mul_left (n / x) h in omega arith
    ]

-- A result, and that it is the root.
abbrev pub IsRoot : ℕ → ℕ → Type 0
IsRoot n r = (r * r ≤ n) × (n < (r + 1) * (r + 1))

last_round : (n x : ℕ) → 0 < x → AboveRoots n x → x ≤ (x + n / x) / 2 → IsRoot n x
last_round n x pos above stop =
    let d = div-mul-le_self n x in
    let low : x ≤ n / x = omega arith in
    let e = mul-le-mul low (le_refl x) in
    (
      omega arith,
      elim (lt-or-le n ((x + 1) * (x + 1))) [
        | inl h ↦ h
        | inr h ↦ let f = above (x + 1) h in absurd (omega arith)
      ],
    )

go_on :
    (rounds n x y : ℕ)
    → ltb y x ≡ true
    → y ≢ 0
    → isqrt_loop (suc rounds) n x y ≡ isqrt_loop rounds n y (u32 (y + n / y) / 2)
unfolding isqrt_loop
go_on rounds n x y go ne = rw (isqrt_loop, go, ne→== y 0 ne) refl

ends : (rounds n x y : ℕ) → ltb y x ≡ false → isqrt_loop (suc rounds) n x y ≡ some x
unfolding isqrt_loop
ends rounds n x y stop = rw (isqrt_loop, stop) refl

isqrt_loop-IsRoot :
    (rounds n x y : ℕ)
    → n < 2 ^ 32
    → 0 < n
    → 0 < x
    → x ≤ n / 2 + 1
    → AboveRoots n x
    → y ≡ (x + n / x) / 2
    → x < rounds
    → (r : ℕ) × (isqrt_loop rounds n x y ≡ some r) × IsRoot n r
isqrt_loop-IsRoot zero n x y small some_n pos low above step enough = absurd (omega arith)
isqrt_loop-IsRoot (suc rounds) n x y small some_n pos low above step enough =
    elim (Bool-cases (ltb y x)) [
      | inl go ↦
          let less = ltb→lt y x go in
          let roots : AboveRoots n y =
            λ s h. subst (λ t. s ≤ t) (sym step) (step_above s n x pos h) in
          let pos' : 0 < y = let h = roots 1 some_n in omega arith in
          let fits = step-fits n y small pos' (omega arith) roots in
          let next : u32 (y + n / y) / 2 ≡ (y + n / y) / 2 = omega arith in
          let (r, e, root) =
            isqrt_loop-IsRoot rounds n y (u32 (y + n / y) / 2) small some_n pos' (omega arith) roots
              next (omega arith) in
          (r, go_on rounds n x y go (omega arith) ∙ e, root)
      | inr stop ↦
          let reached = ltb→le y x stop in
          (x, ends rounds n x y stop, last_round n x pos above (omega arith))
    ]

first_step :
    (n : ℕ)
    → 3 ≤ n
    → n < 2 ^ 32
    → (r : ℕ) × (isqrt_loop n n (n / 2 + 1) (u32 (n / 2 + 1 + n / (n / 2 + 1)) / 2) ≡ some r)
      × IsRoot n r
first_step n three small =
    let x = n / 2 + 1 in
    let above : AboveRoots n x = λ s h. elim (lt-or-le x s) [
      | inr ok ↦ ok
      | inl big ↦ let f = square_mono (x + 1) s (omega arith) in absurd (omega arith)
    ] in
    let fits = step-fits n x small (omega arith) (omega arith) above in
    isqrt_loop-IsRoot n n x _ small (omega arith) (omega arith) (omega arith) above (omega arith)
      (omega arith)

small_roots : (isqrt 0 ≡ some 0) × (isqrt 1 ≡ some 1) × (isqrt 2 ≡ some 2)
unfolding isqrt isqrt_loop
small_roots = (refl, refl, refl)

isqrt-IsRoot : (n : ℕ) → 3 ≤ n → n < 2 ^ 32 → (r : ℕ) × (isqrt n ≡ some r) × IsRoot n r
unfolding isqrt
isqrt-IsRoot n three small =
    let (r, e, root) = first_step n three small in
    (
      r,
      rw (ne→== n 0 (omega arith))
          (go_on n n n (n / 2 + 1) (lt→ltb _ _ (omega arith)) (omega arith) ∙ e),
      root,
    )

-- `isqrt` ends for every word, within one round more than its argument, and gives the integer square
-- root, with one exception: of 2 it gives 2.
pub isqrt_lem :
    (n : ℕ)
    → n < 2 ^ 32
    → (r : ℕ) × (isqrt n ≡ some r) × (((n ≡ 2) × (r ≡ 2)) ⊎ ((r * r ≤ n) × (n < (r + 1) * (r + 1))))
isqrt_lem n small =
    let (zero_root, one_root, two_root) = small_roots in
    elim (eq-or-ne n 0) [
      | inl z ↦ (0, ap isqrt z ∙ zero_root, inr (omega arith, omega arith))
      | inr nz ↦ elim (eq-or-ne n 1) [
        | inl o ↦ (1, ap isqrt o ∙ one_root, inr (omega arith, omega arith))
        | inr no_one ↦ elim (eq-or-ne n 2) [
          | inl two ↦ (2, ap isqrt two ∙ two_root, inl (two, refl))
          | inr no_two ↦ let (r, e, root) = isqrt-IsRoot n (omega arith) small in (r, e, inr root)
        ]
      ]
    ]
