-- ===== src/Pmm/Search.antt =====
-- What the loops of both frame searches of lib/pmm.c come to, frame by frame.
use raxzus_heap_research.Base.{
  ltb, ◌==◌, if◌then◌else◌, ==→eq, eq→==, ne→==, Bool-cases, lt-or-le, bit, bit-lt, bit_test,
  bit-ones, ℕ, zero, suc, ◌+◌, ◌-◌, ◌*◌, ◌/◌, ◌%◌, ◌^◌, ◌≤◌, ◌<◌, max, bit_and, ◌≡◌, refl, ◌≢◌, inl,
  inr, true, false, arith,
}
use raxzus_heap_research.Pmm.{
  bitmap_size, Frames, Scan, found, next, stuck, or_else, frame_address, kernel_bits, kernel_words,
  process_bits, process_words,
}
use raxzus_heap_research.Pmm.Marks.{mark}

-- The outcome of a search over the frames from `lo` up to `hi`: the first free one, or none.
abbrev pub Finds : Frames → ℕ → ℕ → Scan → Type 0
Finds f lo hi (found a) =
    (k : ℕ) × (lo ≤ k)
    × (k < hi)
    × (a ≡ k * 4096)
    × (mark f k ≡ 0)
    × ((j : ℕ) → lo ≤ j → j < k → mark f j ≡ 1)
Finds f lo hi next = (j : ℕ) → lo ≤ j → j < hi → mark f j ≡ 1
Finds f lo hi stuck = ⊥

module _ (f : Frames) where
  Finds-or_else :
      (lo mid hi : ℕ) (s t : Scan)
      → lo ≤ mid
      → mid ≤ hi
      → Finds f lo mid s
      → Finds f mid hi t
      → Finds f lo hi (or_else s t)
  Finds-or_else lo mid hi (found a) t p q (k, l, u, e, m, all) ft = (k, l, omega arith, e, m, all)
  Finds-or_else lo mid hi next (found a) p q fs (k, l, u, e, m, all) = (
    k,
    omega arith,
    u,
    e,
    m,
    λ j x y. elim (lt-or-le j mid) [ inl below ↦ fs j x below | inr above ↦ all j above y ],
  )
  Finds-or_else lo mid hi next next p q fs ft =
      λ j x y. elim (lt-or-le j mid) [ inl below ↦ fs j x below | inr above ↦ ft j above y ]
  Finds-or_else lo mid hi next stuck p q fs ft = ft
  Finds-or_else lo mid hi stuck t p q fs ft = absurd fs

  -- One frame that is in use, ahead of a search.
  Finds-cons :
      (lo hi : ℕ) (s : Scan) → lo < hi → mark f lo ≡ 1 → Finds f (lo + 1) hi s → Finds f lo hi s
  Finds-cons lo hi s p m fs =
      Finds-or_else lo (lo + 1) hi next s (omega arith) (omega arith)
        (λ j x y. let e : j ≡ lo = omega arith in rw e m) fs

  mark_of_word : (index pos : ℕ) → pos < 32 → mark f (index * 32 + pos) ≡ bit (f.bitmap index) pos
  mark_of_word index pos h =
      let q : (index * 32 + pos) / 32 ≡ index = omega arith in
      let r : (index * 32 + pos) % 32 ≡ pos = omega arith in rw (q, r)

  -- A word of ones has every frame in use.
  full_word :
      (index : ℕ)
      → f.bitmap index ≡ 0xFFFFFFFF
      → (j : ℕ) → index * 32 ≤ j
      → j < index * 32 + 32
      → mark f j ≡ 1
  full_word index full j lo hi =
      let q : j / 32 ≡ index = omega arith in rw (q, full) (bit-ones 32 (j % 32) (omega arith))

  -- One bit of a word: a free frame found, or the search behind it.
  Finds-bit :
      (index pos lo hi : ℕ) (rest : Scan)
      → lo ≡ index * 32 + pos
      → pos < 32
      → index < bitmap_size
      → lo < hi
      → Finds f (lo + 1) hi rest
      → Finds f lo hi (
          if bit_and (f.bitmap index) (2 ^ pos) == 0 then found (frame_address index pos) else rest)
  Finds-bit index pos lo hi rest e p q r ih =
      let m : mark f lo ≡ bit (f.bitmap index) pos = rw e (mark_of_word index pos p) in
      rw bit_test (elim (Bool-cases (bit (f.bitmap index) pos == 0)) [
        | inl clear ↦
            rw clear (lo, omega arith, r, omega arith, ground arith, λ j x y. absurd (omega arith))
        | inr taken ↦
            rw taken (Finds-cons lo hi rest r (ground (arith, bit-lt (f.bitmap index) pos)) ih)
      ])

  process_bits-Finds :
      (index left pos lo hi : ℕ)
      → pos + left ≡ 32
      → 0 < index
      → index < bitmap_size
      → lo ≡ index * 32 + pos
      → hi ≡ index * 32 + 32
      → Finds f lo hi (process_bits f index left pos)
  unfolding process_bits
  process_bits-Finds index zero pos lo hi e p q el eh = λ j x y. absurd (omega arith)
  process_bits-Finds index (suc left) pos lo hi e p q el eh =
      let ne : (frame_address index pos == 0) ≡ false = ground arith in
      rw ne (
        Finds-bit index pos lo hi _ el (omega arith) q (omega arith)
          (process_bits-Finds index left (pos + 1) (lo + 1) hi (omega arith) p q (omega arith) eh))

  -- One word of the bitmap: skipped when it is full, else searched bit by bit.
  Finds-word :
      (index lo mid hi : ℕ) (bits rest : Scan)
      → lo ≤ mid
      → mid ≤ hi
      → index * 32 ≤ lo
      → mid ≤ index * 32 + 32
      → Finds f lo mid bits
      → Finds f mid hi rest
      → Finds f lo hi (if f.bitmap index == 0xFFFFFFFF then rest else or_else bits rest)
  Finds-word index lo mid hi bits rest p q l u fb fr =
      elim (Bool-cases (f.bitmap index == 0xFFFFFFFF)) [
        | inl full ↦ rw full (
            Finds-or_else lo mid hi next rest p q
              (λ j x y. full_word index (==→eq _ _ full) j (omega arith) (omega arith)) fr)
        | inr some_free ↦ rw some_free (Finds-or_else lo mid hi bits rest p q fb fr)
      ]

  process_words-Finds :
      (left index lo : ℕ)
      → index + left ≡ bitmap_size
      → 0 < index
      → lo ≡ index * 32
      → Finds f lo (2 ^ 20) (process_words f left index)
  unfolding process_words
  process_words-Finds zero index lo e p el = λ j x y. absurd (omega arith)
  process_words-Finds (suc left) index lo e p el =
      Finds-word index lo (lo + 32) (2 ^ 20) (process_bits f index 32 0) _ (omega arith)
        (omega arith) (omega arith) (omega arith)
        (process_bits-Finds index 32 0 lo (lo + 32) refl p (omega arith) (omega arith)
          (omega arith))
        (process_words-Finds left (index + 1) (lo + 32) (omega arith) (omega arith) (omega arith))

  first_word_full :
      (left : ℕ)
      → 1 + left ≡ bitmap_size
      → f.bitmap 0 ≡ 0xFFFFFFFF
      → Finds f 0 (2 ^ 20) (process_words f (suc left) 0)
  unfolding process_words
  first_word_full left e full = rw (eq→== (f.bitmap 0) 0xFFFFFFFF full) (
      Finds-or_else 0 32 (2 ^ 20) next _ (omega arith) (omega arith)
        (λ j x y. full_word 0 full j (omega arith) y)
        (process_words-Finds left 1 32 e (omega arith) (omega arith)))

  first_word_stuck : (left : ℕ) → f.bitmap 0 ≢ 0xFFFFFFFF → process_words f (suc left) 0 ≡ stuck
  unfolding process_words process_bits
  first_word_stuck left ne = rw (ne→== (f.bitmap 0) 0xFFFFFFFF ne)

  -- With its first word full, the process search finds the first free frame of all.
  pub process_search-Finds :
      f.bitmap 0 ≡ 0xFFFFFFFF → Finds f 0 (2 ^ 20) (process_words f bitmap_size 0)
  process_search-Finds full = first_word_full 32767 refl full

  -- With its first word not full, it stops for ever: frame 0 is looked at first, and has address 0.
  pub process_search_stuck : f.bitmap 0 ≢ 0xFFFFFFFF → process_words f bitmap_size 0 ≡ stuck
  process_search_stuck ne = first_word_stuck 32767 ne

  module _ (start first : ℕ) (aligned : start ≡ first * 4096) where
    kernel_bits-Finds :
        (index left pos lo hi : ℕ)
        → pos + left ≡ 32
        → index < bitmap_size
        → lo ≡ index * 32 + pos
        → hi ≡ index * 32 + 32
        → first ≤ hi
        → Finds f (max lo first) hi (kernel_bits f start index left pos)
    unfolding kernel_bits
    kernel_bits-Finds index zero pos lo hi e q el eh fh = λ j x y. absurd (omega arith)
    kernel_bits-Finds index (suc left) pos lo hi e q el eh fh =
        let ih =
          kernel_bits-Finds index left (pos + 1) (lo + 1) hi (omega arith) q (omega arith) eh fh in
        elim (lt-or-le lo first) [
          | inl below ↦
              let t : ltb (frame_address index pos) start ≡ true = ground arith in
              let m : max lo first ≡ max (lo + 1) first = omega arith in
              rw (t, m)
                (elim (bit_and (f.bitmap index) (2 ^ pos) == 0)
                  as (λ b. Finds f (max (lo + 1) first) hi (
                    if b
                    then kernel_bits f start index left (pos + 1)
                    else kernel_bits f start index left (pos + 1))) [ true ↦ ih | false ↦ ih ])
          | inr above ↦
              let t : ltb (frame_address index pos) start ≡ false = ground arith in
              let m : max lo first ≡ lo = omega arith in
              let m' : max (lo + 1) first ≡ lo + 1 = omega arith in
              rw (t, m) (Finds-bit index pos lo hi _ el (omega arith) q (omega arith) (rw m' at ih))
        ]

    kernel_words-Finds :
        (left index lo : ℕ)
        → index + left ≡ bitmap_size
        → lo ≡ index * 32
        → first ≤ lo + 32
        → first ≤ 2 ^ 20
        → Finds f (max lo first) (2 ^ 20) (kernel_words f start left index)
    unfolding kernel_words
    kernel_words-Finds zero index lo e el fh top = λ j x y. absurd (omega arith)
    kernel_words-Finds (suc left) index lo e el fh top =
        let m : max (lo + 32) first ≡ lo + 32 = omega arith in
        let ih =
          kernel_words-Finds left (index + 1) (lo + 32) (omega arith) (omega arith) (omega arith)
            top in
        Finds-word index (max lo first) (lo + 32) (2 ^ 20) (kernel_bits f start index 32 0) _
          (omega arith) (omega arith) (omega arith) (omega arith)
          (kernel_bits-Finds index 32 0 lo (lo + 32) refl (omega arith) (omega arith) (omega arith)
            (omega arith))
          (rw m at ih)

    -- The kernel search finds the first free frame from the page `first` of `start` on.
    pub kernel_search-Finds :
        first < 2 ^ 20
        → Finds f first
            (2 ^ 20)
            (kernel_words f start (bitmap_size - start / 4096 / 32) (start / 4096 / 32))
    kernel_search-Finds top =
        let index = start / 4096 / 32 in
        let m : max (index * 32) first ≡ first = omega arith in
        rw m at (
          kernel_words-Finds (bitmap_size - index) index (index * 32) (omega arith) refl
            (omega arith) (omega arith))
