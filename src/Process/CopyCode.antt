-- ===== src/Process/CopyCode.antt =====
-- The loop of `create_process` in lib/process_manager.c that copies the code of a user process, on
-- the direct map.
use raxzus_heap_research.Base.{
  ◌==◌, if◌then◌else◌, eq→==, ne→==, eq-or-ne, done, u32, update, ℕ, zero, suc, ◌+◌, ◌%◌, ◌^◌, ◌≤◌,
  ◌<◌, ◌≡◌, refl, ap, ◌∙◌, ◌≢◌, ◌⊎◌, inl, inr, arith,
}
use raxzus_heap_research.Machine.{Layout, Machine, to_virt}
use raxzus_heap_research.Machine.Bytes.{
  byte, with_byte, word_base, load_byte, store_byte, byte-with_byte,
}
use raxzus_heap_research.Paging.Present.{load_direct, store_direct}
use raxzus_heap_research.Process.Create.{copy_code}

-- The byte at a physical address.
abbrev pub byte_of : (ℕ → ℕ) → ℕ → ℕ
byte_of ram pa = byte (ram (word_base pa)) (pa % 4)

byte-lt : (word i : ℕ) → byte word i < 2 ^ 8
byte-lt word zero = omega arith
byte-lt word (suc zero) = omega arith
byte-lt word (suc (suc zero)) = omega arith
byte-lt word (suc (suc (suc i))) = omega arith

-- A write of the byte at `p`.
abbrev poke : (ℕ → ℕ) → ℕ → ℕ → ℕ → ℕ
poke ram p b = update ram (word_base p) (with_byte (ram (word_base p)) (p % 4) b)

byte_of-poke :
    (ram : ℕ → ℕ) (p q b : ℕ)
    → b < 2 ^ 8
    → byte_of (poke ram p b) q ≡ (if p == q then b else byte_of ram q)
byte_of-poke ram p q b small = elim (eq-or-ne (word_base p) (word_base q)) [
  | inl same ↦ rw (eq→== (word_base p) (word_base q) same) (
      byte-with_byte (ram (word_base p)) (p % 4) (q % 4) b (omega arith) (omega arith) small
      ∙ elim (eq-or-ne p q) [
        | inl e ↦ rw (eq→== p q e, eq→== (p % 4) (q % 4) (ap (λ t. t % 4) e)) refl
        | inr ne ↦
            rw (ne→== p q ne, ne→== (p % 4) (q % 4) (omega arith))
              (ap (λ t. byte (ram t) (q % 4)) same)
      ])
  | inr other ↦
      let ne : p ≢ q = λ e. other (ap word_base e) in
      rw (ne→== (word_base p) (word_base q) other, ne→== p q ne) refl
]

module _ (l : Layout) where
  load_byte_direct :
      (v pa : ℕ) (m : Machine)
      → v ≡ 0xC0000000 + pa
      → pa < 2 ^ 30
      → load_byte l v m ≡ done (byte_of m.ram pa) m
  unfolding load_byte
  load_byte_direct v pa m e h =
      let base : word_base v ≡ u32 (0xC0000000 + word_base pa) = omega arith in
      let at : v % 4 ≡ pa % 4 = omega arith in
      rw (base, at, load_direct l m (0xC0000000 + word_base pa) (word_base pa) refl (omega arith))
        refl

  store_byte_direct :
      (v pa b : ℕ) (m : Machine)
      → v ≡ 0xC0000000 + pa
      → pa < 2 ^ 30
      → store_byte l v b m ≡ done tt (record m { ram = poke m.ram pa b })
  unfolding store_byte
  store_byte_direct v pa b m e h =
      let base : word_base v ≡ u32 (0xC0000000 + word_base pa) = omega arith in
      let at : v % 4 ≡ pa % 4 = omega arith in
      let w = word_base pa in
      rw
        (
          base,
          at,
          load_direct l m (0xC0000000 + w) w refl (omega arith),
          store_direct l m (0xC0000000 + w) w (with_byte (m.ram w) (pa % 4) b) refl (omega arith),
        )
        refl

  copy_step :
      (left i dst src b : ℕ) {m1 : Machine} (m : Machine)
      → load_byte l (u32 (src + i)) m ≡ done b m
      → store_byte l (u32 (dst + i)) b m ≡ done tt m1
      → copy_code l (suc left) i dst src m ≡ copy_code l left (i + 1) dst src m1
  unfolding copy_code
  copy_step left i dst src b m e e' = rw (e, e') refl

  copy_end : (i dst src : ℕ) (m : Machine) → copy_code l zero i dst src m ≡ done tt m
  unfolding copy_code
  copy_end i dst src m = refl

  -- The bytes from `i` on are copied where the two blocks are apart; nothing else is written.
  pub copy_code_lem :
      (n left i dst src : ℕ) (m : Machine)
      → i + left ≡ n
      → dst % 4 ≡ 0
      → n % 4 ≡ 0
      → dst + n ≤ 2 ^ 30
      → src + n ≤ 2 ^ 30
      → (src + n ≤ dst) ⊎ (dst + n ≤ src)
      → (m' : Machine) × (copy_code l left i (to_virt dst) (to_virt src) m ≡ done tt m')
        × (m'.frames ≡ m.frames)
        × ((j : ℕ) → i ≤ j → j < n → byte_of m'.ram (dst + j) ≡ byte_of m.ram (src + j))
        × ((j : ℕ) → j < i → byte_of m'.ram (dst + j) ≡ byte_of m.ram (dst + j))
        × ((a : ℕ) → (a < dst) ⊎ (dst + n ≤ a) → m'.ram a ≡ m.ram a)
  copy_code_lem n zero i dst src m e al aln fits fits' apart = (
    m,
    copy_end i (to_virt dst) (to_virt src) m,
    refl,
    (λ j from to. absurd (omega arith)),
    (λ j below. refl),
    λ a off. refl,
  )
  copy_code_lem n (suc left) i dst src m e al aln fits fits' apart =
      let b = byte_of m.ram (src + i) in
      let m1 : Machine = record m { ram = poke m.ram (dst + i) b } in
      let small = byte-lt (m.ram (word_base (src + i))) ((src + i) % 4) in
      let read = load_byte_direct (u32 (to_virt src + i)) (src + i) m (omega arith) (omega arith) in
      let written =
        store_byte_direct (u32 (to_virt dst + i)) (dst + i) b m (omega arith) (omega arith) in
      let (m', returns, frames, copied, kept, others) =
        copy_code_lem n left (i + 1) dst src m1 (omega arith) al aln fits fits' apart in
      let changed = λ (q : ℕ). byte_of-poke m.ram (dst + i) q b small in
      (
        m',
        copy_step left i (to_virt dst) (to_virt src) b m read written ∙ returns,
        frames,
        (λ j from to. elim (eq-or-ne i j) [
          | inl same ↦
              kept j (omega arith)
              ∙ changed (dst + j)
              ∙ rw (eq→== (dst + i) (dst + j) (omega arith))
                  (ap (λ t. byte_of m.ram (src + t)) same)
          | inr other ↦
              copied j (omega arith) to
              ∙ changed (src + j)
              ∙ rw (ne→== (dst + i) (src + j) (ground arith)) refl
        ]),
        (λ j below.
            kept j (omega arith)
            ∙ changed (dst + j)
            ∙ rw (ne→== (dst + i) (dst + j) (omega arith)) refl),
        λ a off. others a off ∙ rw (ne→== (word_base (dst + i)) a (ground arith)) refl,
      )
