-- ===== src/Base/Word.antt =====
-- 32-bit words as native numbers: casts, `int` division, page rounding, single-word updates.
use Prim.Native.Nat.{ℕ, ◌+◌, ◌-◌, ◌*◌, ◌/◌, ◌%◌, ◌^◌}
use raxzus_heap_research.Base.Tests.{◌==◌, ltb, if◌then◌else◌}

abbrev pub u32_mod : ℕ
u32_mod = 2 ^ 32

abbrev pub u32 : ℕ → ℕ
u32 n = n % 2 ^ 32

-- `a - b` of two words. 2 ^ 32 is added first, since `-` stops at 0.
abbrev pub sub32 : ℕ → ℕ → ℕ
sub32 a b = (a + 2 ^ 32 - b) % 2 ^ 32

-- `(int)a / k` and `(int)a % k`, with the result cast back to a word: C rounds towards 0.
abbrev pub int_div : ℕ → ℕ → ℕ
int_div a k = if ltb a (2 ^ 31) then a / k else u32 (2 ^ 32 - (2 ^ 32 - a) / k)

abbrev pub int_mod : ℕ → ℕ → ℕ
int_mod a k = if ltb a (2 ^ 31) then a % k else u32 (2 ^ 32 - (2 ^ 32 - a) % k)

-- `a & ~0xFFF`.
abbrev pub page_base : ℕ → ℕ
page_base a = a / 4096 * 4096

-- An array or a memory after a write.
abbrev pub update {ℓ} : {A : Type ℓ} → (ℕ → A) → ℕ → A → ℕ → A
update f p v q = if p == q then v else f q
