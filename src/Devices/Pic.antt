-- ===== src/Devices/Pic.antt =====
-- lib/pic.c: the interrupt masks of the two controllers, and the end-of-interrupt signal.
use raxzus_heap_research.Base.{
  ltb, leb, ◌==◌, if◌then◌else◌, lt→ltb, le→ltb, lt-or-le, bit, bit-lt, bit-bit_and, bit-bit_or,
  bit-pow, bit-complement, bit_or-lt, bit_and-lt, pow-lt-pow, Run, done, fault, Cmd, ℕ, ◌-◌, ◌^◌,
  ◌≤◌, ◌<◌, bit_and, bit_or, ◌≡◌, ◌∙◌, inl, inr, true, false, List, [], ◌∷◌, arith,
}
use raxzus_heap_research.Devices.Ports.{PortWrite, outb, u8}

-- The mask registers behind `PIC1_DATA` and `PIC2_DATA`, a byte each.
pub record Masks : Type 0 where
  pub pic1 : ℕ
  pub pic2 : ℕ

-- `mask = change(mask, 1 << irq)` on the controller of the line. A shift by 32 or more is undefined.
change_mask : (change : ℕ → ℕ → ℕ) → (irq : ℕ) → Cmd Masks (Unit {0})
change_mask change irq m =
    if ltb irq 8
    then done tt (record m { pic1 = u8 (change m.pic1 (2 ^ irq)) })
    else (elim (ltb (irq - 8) 32) [
      | true ↦ done tt (record m { pic2 = u8 (change m.pic2 (2 ^ (irq - 8))) })
      | false ↦ fault
    ])

-- `mask &= ~(1 << irq)`.
unfoldable pub pic_enable_irq : ℕ → Cmd Masks (Unit {0})
unfolding change_mask
pic_enable_irq = change_mask (λ mask b. bit_and mask (2 ^ 32 - 1 - b))

-- `mask |= (1 << irq)`.
unfoldable pub pic_disable_irq : ℕ → Cmd Masks (Unit {0})
unfolding change_mask
pic_disable_irq = change_mask (λ mask b. bit_or mask b)

-- The command writes of `pic_send_eoi`: the slave first, for its lines.
unfoldable pub pic_send_eoi : ℕ → List PortWrite
pic_send_eoi irq = if leb 8 irq then outb 0xA0 0x20 ∷ outb 0x20 0x20 ∷ [] else outb 0x20 0x20 ∷ []

-- `pic_remap`: the writes, with the masks read before put back at the end.
unfoldable pub pic_remap : (offset1 offset2 : ℕ) → Masks → List PortWrite
pic_remap offset1 offset2 m =
    outb 0x20 0x11
    ∷ outb 0xA0 0x11
    ∷ outb 0x21 offset1
    ∷ outb 0xA1 offset2
    ∷ outb 0x21 0x04
    ∷ outb 0xA1 0x02
    ∷ outb 0x21 0x01
    ∷ outb 0xA1 0x01
    ∷ outb 0x21 m.pic1
    ∷ outb 0xA1 m.pic2
    ∷ []

-- The mask bit of a line: 1 while it is disabled.
unfoldable pub line_mask : Masks → ℕ → ℕ
line_mask m line = if ltb line 8 then bit m.pic1 line else bit m.pic2 (line - 8)

-- The outcome of setting the mask bit of one line to `value`, and no other.
pub record LineSet (m : Masks) (irq value : ℕ) (r : Run Masks (Unit {0})) : Type 0 where
  pub after : Masks
  pub returns : r ≡ done tt after
  pub lines : (j : ℕ) → j < 16 → line_mask after j ≡ (if irq == j then value else line_mask m j)

abbrev pub IsBytes : Masks → Type 0
IsBytes m = (m.pic1 < 2 ^ 8) × (m.pic2 < 2 ^ 8)

-- One mask byte after a bit was cleared or set.
clear_byte :
    (w i j : ℕ)
    → w < 2 ^ 8
    → i < 8
    → j < 8
    → bit (u8 (bit_and w (2 ^ 32 - 1 - 2 ^ i))) j ≡ (if i == j then 0 else bit w j)
clear_byte w i j h hi hj =
    let e : u8 (bit_and w (2 ^ 32 - 1 - 2 ^ i)) ≡ bit_and w (2 ^ 32 - 1 - 2 ^ i) =
      omega (arith, bit_and-lt 8 w (2 ^ 32 - 1 - 2 ^ i) h) in
    rw
      (
        e,
        bit-bit_and,
        bit-complement 32 (2 ^ i) j (pow-lt-pow i 32 (omega arith)) (omega arith),
        bit-pow,
      )
      (ground (arith, bit-lt w j))

set_byte :
    (w i j : ℕ)
    → w < 2 ^ 8
    → i < 8
    → j < 8
    → bit (u8 (bit_or w (2 ^ i))) j ≡ (if i == j then 1 else bit w j)
set_byte w i j h hi hj =
    let e : u8 (bit_or w (2 ^ i)) ≡ bit_or w (2 ^ i) =
      omega (arith, bit_or-lt 8 w (2 ^ i) h (pow-lt-pow i 8 hi)) in
    rw (e, bit-bit_or, bit-pow) (ground (arith, bit-lt w j))

-- For each of the sixteen lines, and masks of a byte, `pic_enable_irq` clears the mask bit of the
-- line, and `pic_disable_irq` sets it; both leave the other fifteen lines alone.
pic_irq-LineSet :
    (m : Masks) (irq : ℕ)
    → IsBytes m
    → irq < 16
    → LineSet m irq 0 (pic_enable_irq irq m) × LineSet m irq 1 (pic_disable_irq irq m)
unfolding pic_enable_irq pic_disable_irq line_mask
pic_irq-LineSet m irq (h1, h2) h = elim (lt-or-le irq 8) [
  | inl low ↦ (
    record {
      after = record m { pic1 = u8 (bit_and m.pic1 (2 ^ 32 - 1 - 2 ^ irq)) };
      returns = ground arith;
      lines = λ j hj. elim (lt-or-le j 8) [
        | inl lj ↦ rw (lt→ltb j 8 lj) (clear_byte m.pic1 irq j h1 low lj)
        | inr lj ↦ ground arith
      ];
    },
    record {
      after = record m { pic1 = u8 (bit_or m.pic1 (2 ^ irq)) };
      returns = ground arith;
      lines = λ j hj. elim (lt-or-le j 8) [
        | inl lj ↦ rw (lt→ltb j 8 lj) (set_byte m.pic1 irq j h1 low lj)
        | inr lj ↦ ground arith
      ];
    },
  )
  | inr high ↦ (
    record {
      after = record m { pic2 = u8 (bit_and m.pic2 (2 ^ 32 - 1 - 2 ^ (irq - 8))) };
      returns = ground arith;
      lines = λ j hj. elim (lt-or-le j 8) [
        | inl lj ↦ ground arith
        | inr lj ↦
            rw (le→ltb j 8 lj)
              (clear_byte m.pic2 (irq - 8) (j - 8) h2 (omega arith) (omega arith) ∙ ground arith)
      ];
    },
    record {
      after = record m { pic2 = u8 (bit_or m.pic2 (2 ^ (irq - 8))) };
      returns = ground arith;
      lines = λ j hj. elim (lt-or-le j 8) [
        | inl lj ↦ ground arith
        | inr lj ↦
            rw (le→ltb j 8 lj)
              (set_byte m.pic2 (irq - 8) (j - 8) h2 (omega arith) (omega arith) ∙ ground arith)
      ];
    },
  )
]

-- From line 40 on the shift count is 32 or more, which C leaves undefined; so for the line 46 that
-- `kernel_main` disables.
pub pic_irq_fault :
    (m : Masks) (irq : ℕ)
    → 40 ≤ irq
    → (pic_enable_irq irq m ≡ fault) × (pic_disable_irq irq m ≡ fault)
unfolding pic_enable_irq pic_disable_irq
pic_irq_fault m irq h = (ground arith, ground arith)
