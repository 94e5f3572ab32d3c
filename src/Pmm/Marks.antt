-- ===== src/Pmm/Marks.antt =====
-- The bitmap of lib/pmm.c read frame by frame, and what `set_frame` and `clear_frame` do to it.
use raxzus_heap_research.Base.{
  ◌==◌, if◌then◌else◌, eq→==, eq-or-ne, bit, bit-lt, bit-bit_and, bit-bit_or, bit-pow,
  bit-complement, done, update, ℕ, ◌-◌, ◌*◌, ◌/◌, ◌%◌, ◌^◌, ◌≤◌, ◌<◌, bit_and, bit_or, ◌≡◌, inl,
  inr, arith,
}
use raxzus_heap_research.Pmm.{Frames, set_frame, clear_frame}
use native.Mathlib.Nat.{pow-le-pow_right}

-- The bit of frame `k`: 1 if it is in use.
abbrev pub mark : Frames → ℕ → ℕ
mark f k = bit (f.bitmap (k / 32)) (k % 32)

-- Every entry of the array is a 32-bit word.
abbrev pub IsBitmap : Frames → Type 0
IsBitmap f = (i : ℕ) → f.bitmap i < 2 ^ 32

-- The state after the bit of frame `k` has been written.
abbrev pub with_word : Frames → ℕ → ℕ → Frames
with_word f k word = record f { bitmap = update f.bitmap (k / 32) word }

pub pow-lt-u32 : (i : ℕ) → i < 32 → 2 ^ i < 2 ^ 32
pow-lt-u32 i h =
    let le : 2 ^ i ≤ 2 ^ 31 = pow-le-pow_right (omega arith) {j = 31} (omega arith) in omega arith

pub mark-set :
    (f : Frames) (k j : ℕ)
    → mark (with_word f k (bit_or (f.bitmap (k / 32)) (2 ^ (k % 32)))) j
      ≡ (if k == j then 1 else mark f j)
mark-set f k j = elim (eq-or-ne (k / 32) (j / 32)) [
  | inl e ↦
      rw (eq→== (k / 32) (j / 32) e, ← e)
        (rw (bit-bit_or, bit-pow) (ground (arith, bit-lt (f.bitmap (k / 32)) (j % 32))))
  | inr ne ↦ ground arith
]

pub mark-clear :
    (f : Frames) (k j : ℕ)
    → mark (with_word f k (bit_and (f.bitmap (k / 32)) (2 ^ 32 - 1 - 2 ^ (k % 32)))) j
      ≡ (if k == j then 0 else mark f j)
mark-clear f k j = elim (eq-or-ne (k / 32) (j / 32)) [
  | inl e ↦
      let low : 2 ^ (k % 32) < 2 ^ 32 = pow-lt-u32 (k % 32) (omega arith) in
      rw (eq→== (k / 32) (j / 32) e, ← e)
        (rw (bit-bit_and, bit-complement 32 (2 ^ (k % 32)) (j % 32) low (omega arith), bit-pow)
          (ground (arith, bit-lt (f.bitmap (k / 32)) (j % 32))))
  | inr ne ↦ ground arith
]

pub set_frame-eq :
    (f : Frames) (a : ℕ)
    → a < 2 ^ 31
    → set_frame a f
      ≡ done tt (with_word f (a / 4096) (bit_or (f.bitmap (a / 4096 / 32)) (2 ^ (a / 4096 % 32))))
unfolding set_frame
set_frame-eq f a h = ground arith

pub clear_frame-eq :
    (f : Frames) (a : ℕ)
    → a < 2 ^ 31
    → (let word = (bit_and (f.bitmap (a / 4096 / 32)) (2 ^ 32 - 1 - 2 ^ (a / 4096 % 32))) in
        clear_frame a f ≡ done word (with_word f (a / 4096) word))
unfolding clear_frame
clear_frame-eq f a h = ground arith

pub update-lt :
    (f : Frames) (k word i : ℕ)
    → IsBitmap f
    → word < 2 ^ 32
    → update f.bitmap (k / 32) word i < 2 ^ 32
update-lt f k word i words h = ground (arith, words i)

-- `set_frame` at the address of frame `k`.
pub set_frame_page :
    (f : Frames) (k : ℕ) (a : ℕ)
    → a ≡ k * 4096
    → k < 2 ^ 19
    → set_frame a f ≡ done tt (with_word f k (bit_or (f.bitmap (k / 32)) (2 ^ (k % 32))))
set_frame_page f k a e h =
    let page : a / 4096 ≡ k = omega arith in rw page at (set_frame-eq f a (omega arith))
