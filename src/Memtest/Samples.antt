-- ===== src/Memtest/Samples.antt =====
-- The statistics of 32 timings in `cmd_memtest_v1` of lib/memtest.c. The numbers are 32-bit words.
use raxzus_heap_research.Heap.Chain.{has}
use raxzus_heap_research.Base.{
  ltb, if◌then◌else◌, length, u32, sub32, ℕ, ◌+◌, ◌*◌, ◌/◌, ◌^◌, ◌≤◌, ◌<◌, ◌≡◌, refl, subst, ◌⊎◌,
  inl, inr, true, List, [], ◌∷◌, arith,
}

-- `frag_min`, `frag_max` and `frag_sum`, and the same for `clean`.
pub record Stats : Type 0 where
  pub least : ℕ
  pub greatest : ℕ
  pub sum : ℕ

abbrev pub no_samples : Stats
no_samples = record { least = 0xFFFFFFFF; greatest = 0; sum = 0 }

-- What a round makes of them, from the duration `d`.
unfoldable pub add_sample : ℕ → Stats → Stats
add_sample d s = record {
  least = if ltb d s.least then d else s.least;
  greatest = if ltb s.greatest d then d else s.greatest;
  sum = u32 (s.sum + d);
}

unfoldable pub add_samples : List ℕ → Stats → Stats
unfolding add_sample
add_samples [] s = s
add_samples (d ∷ samples) s = add_samples samples (add_sample d s)

unfoldable pub average : Stats → ℕ
average s = s.sum / 32

-- The loop that sums the squared differences: the product of two `int`s, as a word.
unfoldable pub variance_loop : List ℕ → (avg var : ℕ) → ℕ
variance_loop [] avg var = var
variance_loop (d ∷ samples) avg var =
    let diff = sub32 d avg in variance_loop samples avg (u32 (var + diff * diff))

unfoldable pub variance : List ℕ → (avg : ℕ) → ℕ
unfolding variance_loop
variance samples avg = variance_loop samples avg 0 / 31

-- The exact sum of the durations.
abbrev pub total : List ℕ → ℕ
total [] = 0
total (d ∷ samples) = d + total samples

-- Every duration lies in a range.
abbrev pub Within : ℕ → ℕ → List ℕ → Type 0
Within lo hi [] = Unit {0}
Within lo hi (d ∷ samples) = ((lo ≤ d) × (d ≤ hi)) × Within lo hi samples

Within-weaken :
    (lo hi lo' hi' : ℕ) (samples : List ℕ)
    → lo' ≤ lo
    → hi ≤ hi'
    → Within lo hi samples
    → Within lo' hi' samples
Within-weaken lo hi lo' hi' [] a b w = tt
Within-weaken lo hi lo' hi' (d ∷ samples) a b ((p, q), w) =
    ((omega arith, omega arith), Within-weaken lo hi lo' hi' samples a b w)

total-Within :
    (lo hi : ℕ) (samples : List ℕ)
    → Within lo hi samples
    → (lo * length samples ≤ total samples) × (total samples ≤ hi * length samples)
total-Within lo hi [] w = (omega arith, omega arith)
total-Within lo hi (d ∷ samples) ((p, q), w) =
    let (a, b) = total-Within lo hi samples w in (grind arith, grind arith)

add_samples_lem :
    (samples : List ℕ) (s : Stats)
    → s.sum + total samples < 2 ^ 32
    → let t = add_samples samples s in
      (t.sum ≡ s.sum + total samples)
      × (t.least ≤ s.least)
      × (s.greatest ≤ t.greatest)
      × Within t.least t.greatest samples
unfolding add_samples add_sample
add_samples_lem [] s small = (omega arith, omega arith, omega arith, tt)
add_samples_lem (d ∷ samples) s small =
    let s' = add_sample d s in
    let fits : s.sum + d < 2 ^ 32 = omega arith in
    let low : (s'.least ≤ s.least) × (s'.least ≤ d) = (ground arith, ground arith) in
    let high : (s.greatest ≤ s'.greatest) × (d ≤ s'.greatest) = (ground arith, ground arith) in
    let (sum, least, greatest, within) = add_samples_lem samples s' (omega arith) in
    (omega arith, omega arith, omega arith, ((omega arith, omega arith), within))

-- One more sample keeps the extremes among the start and the samples, or takes them from it.
add_samples-attained :
    (samples : List ℕ) (s : Stats)
    → let t = add_samples samples s in
      ((t.least ≡ s.least) ⊎ (has t.least samples ≡ true))
      × ((t.greatest ≡ s.greatest) ⊎ (has t.greatest samples ≡ true))
unfolding add_samples add_sample
add_samples-attained [] s = (inl refl, inl refl)
add_samples-attained (d ∷ samples) s =
    let s' = add_sample d s in
    let (low, high) = add_samples-attained samples s' in (ground (arith, low), ground (arith, high))

-- An extreme that is still the start is one that some sample has, or none is there.
start-least :
    (samples : List ℕ) (lo hi : ℕ)
    → 0 < length samples
    → total samples < 2 ^ 32
    → lo ≡ 0xFFFFFFFF
    → Within lo hi samples
    → has lo samples ≡ true
start-least [] lo hi some_there small e w = absurd (omega arith)
start-least (d ∷ samples) lo hi some_there small e ((a, b), w) =
    let same : lo ≡ d = omega arith in ground arith

start-greatest :
    (samples : List ℕ) (lo hi : ℕ)
    → 0 < length samples
    → hi ≡ 0
    → Within lo hi samples
    → has hi samples ≡ true
start-greatest [] lo hi some_there e w = absurd (omega arith)
start-greatest (d ∷ samples) lo hi some_there e ((a, b), w) =
    let same : hi ≡ d = omega arith in ground arith

-- Of 32 timings whose sum fits a word, the minimum and the maximum that are printed are two of them,
-- and every timing lies between the two, and so does the average, which is the exact mean rounded
-- down.
pub average_lem :
    (samples : List ℕ)
    → length samples ≡ 32
    → total samples < 2 ^ 32
    → let s = add_samples samples no_samples in
      (has s.least samples ≡ true)
      × (has s.greatest samples ≡ true)
      × Within s.least s.greatest samples
      × (average s ≡ total samples / 32)
      × (s.least ≤ average s)
      × (average s ≤ s.greatest)
unfolding average
average_lem samples count small =
    let s = add_samples samples no_samples in
    let (sum, least, greatest, within) = add_samples_lem samples no_samples (omega arith) in
    let (low, high) = total-Within s.least s.greatest samples within in
    let low' : s.least * 32 ≤ total samples = subst (λ t. s.least * t ≤ total samples) count low in
    let high' : total samples ≤ s.greatest * 32 =
      subst (λ t. total samples ≤ s.greatest * t) count high in
    let (at_least, at_greatest) = add_samples-attained samples no_samples in
    let some_there : 0 < length samples = omega (arith, count) in
    (
      elim at_least [
        | inl start ↦ start-least samples s.least s.greatest some_there small start within
        | inr there ↦ there
      ],
      elim at_greatest [
        | inl start ↦ start-greatest samples s.least s.greatest some_there start within
        | inr there ↦ there
      ],
      within,
      omega arith,
      omega arith,
      omega arith,
    )
