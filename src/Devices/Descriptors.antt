-- ===== src/Devices/Descriptors.antt =====
-- lib/gdt.c and lib/interrupts.c: segment descriptors and interrupt gates, and what the processor
-- reads back from their packed fields.
use mathlib.Core.Bool.{false≢true}
use raxzus_heap_research.Base.{
  ◌==◌, ==→eq, if_cases, bit_or_shifted, bit_or_comm, update, ℕ, ◌+◌, ◌*◌, ◌/◌, ◌%◌, ◌^◌, ◌≤◌, ◌<◌,
  bit_or, ◌≡◌, refl, sym, ◌∙◌, subst, ◌≢◌, ◌↔◌, Bool, true, false, ◌||◌, List, [], ◌∷◌, arith,
}

-- `struct gdt_entry`.
pub record GdtEntry : Type 0 where
  pub limit_low : ℕ
  pub base_low : ℕ
  pub base_mid : ℕ
  pub access : ℕ
  pub granularity : ℕ
  pub base_high : ℕ

-- The macros of include/gdt.h. `TOP_NIBBLE` is `x & 0xF0`.
abbrev bits_0_to_15 : ℕ → ℕ
bits_0_to_15 x = x % 2 ^ 16

abbrev bits_16_to_23 : ℕ → ℕ
bits_16_to_23 x = x / 2 ^ 16 % 2 ^ 8

abbrev bits_24_to_31 : ℕ → ℕ
bits_24_to_31 x = x / 2 ^ 24 % 2 ^ 8

abbrev bits_16_to_19 : ℕ → ℕ
bits_16_to_19 x = x / 2 ^ 16 % 2 ^ 4

abbrev top_nibble : ℕ → ℕ
top_nibble x = x / 2 ^ 4 % 2 ^ 4 * 2 ^ 4

-- `gdt_set_entry` on one entry.
unfoldable pub gdt_set_entry : (base limit access gran : ℕ) → GdtEntry
gdt_set_entry base limit access gran = record {
  limit_low = bits_0_to_15 limit;
  base_low = bits_0_to_15 base;
  base_mid = bits_16_to_23 base;
  access = access;
  granularity = bit_or (bits_16_to_19 limit) (top_nibble gran);
  base_high = bits_24_to_31 base;
}

-- The processor's reading of an entry.
unfoldable pub segment_base : GdtEntry → ℕ
segment_base e = e.base_high * 2 ^ 24 + e.base_mid * 2 ^ 16 + e.base_low

unfoldable pub segment_limit : GdtEntry → ℕ
segment_limit e = e.granularity % 2 ^ 4 * 2 ^ 16 + e.limit_low

unfoldable pub segment_flags : GdtEntry → ℕ
segment_flags e = e.granularity / 2 ^ 4

granularity_sum :
    (limit gran : ℕ)
    → bit_or (bits_16_to_19 limit) (top_nibble gran) ≡ top_nibble gran + bits_16_to_19 limit
granularity_sum limit gran =
    bit_or_comm (bits_16_to_19 limit) (top_nibble gran)
    ∙ bit_or_shifted 4 (gran / 2 ^ 4 % 2 ^ 4) (bits_16_to_19 limit) (omega arith)

-- The processor reads back a 32-bit base, a 20-bit limit, the access byte and the upper four bits
-- of a byte of flags, as they were given.
pub gdt_set_entry_read :
    (base limit access gran : ℕ)
    → base < 2 ^ 32
    → limit < 2 ^ 20
    → gran < 2 ^ 8
    → let e = gdt_set_entry base limit access gran in
      (segment_base e ≡ base)
      × (segment_limit e ≡ limit)
      × (segment_flags e ≡ gran / 2 ^ 4)
      × (e.access ≡ access)
unfolding gdt_set_entry segment_base segment_limit segment_flags
gdt_set_entry_read base limit access gran hb hl hg = (
  omega arith,
  omega (arith, granularity_sum limit gran),
  omega (arith, granularity_sum limit gran),
  refl,
)

-- The six entries that `init_gdt` and `tss_set_entry` write: `tss` is the task state's address, and
-- 104 bytes its size.
unfoldable pub init_gdt : (tss : ℕ) → List GdtEntry
unfolding gdt_set_entry
init_gdt tss =
    gdt_set_entry 0 0 0 0
    ∷ gdt_set_entry 0 0xFFFFF 0x9A 0xCF
    ∷ gdt_set_entry 0 0xFFFFF 0x92 0xCF
    ∷ gdt_set_entry 0 0xFFFFF 0xFA 0xCF
    ∷ gdt_set_entry 0 0xFFFFF 0xF2 0xCF
    ∷ gdt_set_entry tss 103 0x89 0x00
    ∷ []

-- `struct idt_entry`.
pub record IdtEntry : Type 0 where
  pub base_low : ℕ
  pub selector : ℕ
  pub always0 : ℕ
  pub flags : ℕ
  pub base_high : ℕ

abbrev pub Idt : Type 0
Idt = ℕ → IdtEntry

abbrev pub blank_entry : IdtEntry
blank_entry = record { base_low = 0; selector = 0; always0 = 0; flags = 0; base_high = 0 }

-- An entry with the handler's address in two halves.
abbrev pub gate : (handler_address selector flags : ℕ) → IdtEntry
gate handler_address selector flags = record {
  base_low = handler_address % 2 ^ 16;
  selector = selector;
  always0 = 0;
  flags = flags;
  base_high = handler_address / 2 ^ 16 % 2 ^ 16;
}

unfoldable pub set_idt_entry : (num handler_address selector flags : ℕ) → Idt → Idt
set_idt_entry num handler_address selector flags idt =
    update idt num (gate handler_address selector flags)

-- `install_idt` clears the table, and `init_interrupts` enters the eight gates.
unfoldable pub init_interrupts : (isr_wrapper : ℕ → ℕ) (cs : ℕ) → Idt
unfolding set_idt_entry
init_interrupts isr_wrapper cs = set_idt_entry 8 (isr_wrapper 8) cs 0x8E (
    set_idt_entry 14 (isr_wrapper 14) cs 0x8E (
      set_idt_entry 13 (isr_wrapper 13) cs 0x8E (
        set_idt_entry 0 (isr_wrapper 0) cs 0x8E (
          set_idt_entry 32 (isr_wrapper 32) cs 0x8E (
            set_idt_entry 33 (isr_wrapper 33) cs 0x8E (
              set_idt_entry 130 (isr_wrapper 130) cs 0x8E
                (set_idt_entry 129 (isr_wrapper 129) cs 0xEE (λ _. blank_entry))))))))

unfoldable pub gate_handler : IdtEntry → ℕ
gate_handler e = e.base_high * 2 ^ 16 + e.base_low

-- The vectors that have a handler.
abbrev pub is_handled : ℕ → Bool
is_handled v = v == 0 || v == 8 || v == 13 || v == 14 || v == 32 || v == 33 || v == 129 || v == 130

-- What the gate `e` of vector `v` has to be, with handlers from `isr_wrapper`.
abbrev pub IsGate : (isr_wrapper : ℕ → ℕ) (cs v : ℕ) → IdtEntry → Type 0
IsGate isr_wrapper cs v e =
    (is_handled v ≡ true → (gate_handler e ≡ isr_wrapper v) × (e.selector ≡ cs) × (128 ≤ e.flags))
    × (is_handled v ≡ false → e.flags ≡ 0)
    × ((e.flags / 32 % 4 ≡ 3) ↔ (v ≡ 129))

-- A gate that the code enters, other than the system call's, at its own vector.
kernel_gate :
    (isr_wrapper : ℕ → ℕ) (cs n v : ℕ)
    → isr_wrapper n < 2 ^ 32
    → is_handled n ≡ true
    → n ≢ 129
    → (n == v) ≡ true
    → IsGate isr_wrapper cs v (gate (isr_wrapper n) cs 0x8E)
unfolding gate_handler
kernel_gate isr_wrapper cs n v h handled kernel same =
    subst (λ t. IsGate isr_wrapper cs t (gate (isr_wrapper n) cs 0x8E)) (==→eq n v same)
      (
        (λ _. (omega arith, refl, omega arith)),
        (λ none. absurd (false≢true (sym none ∙ handled))),
        ((λ e. absurd (omega arith)), (λ e. absurd (kernel e))),
      )

-- With handlers at 32-bit addresses, a vector that has a handler leads to it, in the kernel's
-- segment; any other is not present; only the system call, vector 129, may be raised from user
-- mode.
pub init_interrupts-IsGate :
    (isr_wrapper : ℕ → ℕ) (cs v : ℕ)
    → ((n : ℕ) → isr_wrapper n < 2 ^ 32)
    → IsGate isr_wrapper cs v (init_interrupts isr_wrapper cs v)
unfolding init_interrupts gate_handler
init_interrupts-IsGate isr_wrapper cs v h =
    let P = IsGate isr_wrapper cs v in
    if_cases P (8 == v) _ _ (kernel_gate isr_wrapper cs 8 v (h 8) refl (omega arith)) λ n8.
      if_cases P (14 == v) _ _ (kernel_gate isr_wrapper cs 14 v (h 14) refl (omega arith)) λ n14.
        if_cases P (13 == v) _ _ (kernel_gate isr_wrapper cs 13 v (h 13) refl (omega arith)) λ n13.
          if_cases P (0 == v) _ _ (kernel_gate isr_wrapper cs 0 v (h 0) refl (omega arith)) λ n0.
            if_cases P (32 == v) _ _ (kernel_gate isr_wrapper cs 32 v (h 32) refl (omega arith))
              λ n32.
                if_cases P (33 == v) _ _ (kernel_gate isr_wrapper cs 33 v (h 33) refl (omega arith))
                  λ n33.
                    if_cases P (130 == v) _ _
                      (kernel_gate isr_wrapper cs 130 v (h 130) refl (omega arith))
                      λ n130.
                        if_cases P (129 == v) _ _
                          (λ n129.
                            let e : 129 ≡ v = ==→eq 129 v n129 in
                            subst (λ t. IsGate isr_wrapper cs t (gate (isr_wrapper 129) cs 0xEE)) e
                              (
                                (λ _. (omega (arith, h 129), refl, omega arith)),
                                (λ none. cc),
                                ((λ _. refl), (λ _. refl)),
                              ))
                          λ n129. (
                            (λ y. absurd (ground arith)),
                            (λ _. refl),
                            ((λ z. absurd (omega arith)), (λ z. absurd (ground arith))),
                          )
