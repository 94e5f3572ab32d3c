-- ===== src/Memtest/Buffers.antt =====
-- The buffers of `cmd_memtest_v2` of lib/memtest.c: a pattern is written byte by byte, and the bytes
-- that differ from it are counted.
use raxzus_heap_research.Base.{
  ◌==◌, if◌then◌else◌, eq→==, eq-or-ne, done, Cmd, pure, ◌>>=◌, ◌>>◌, u32, ℕ, zero, suc, ◌+◌, ◌^◌,
  ◌≤◌, ◌<◌, ◌≡◌, refl, sym, ap, ◌∙◌, subst, inl, inr, arith,
}
use raxzus_heap_research.Machine.{Layout, Machine}
use raxzus_heap_research.Machine.Access.{kernel_base, IsApart}
use raxzus_heap_research.Machine.Bytes.{
  load_byte, store_byte, HasByte, load_byte_lem, store_byte-ByteWritten,
}

module _ (l : Layout) (pattern : ℕ → ℕ) where
  -- `for (i = ...) buf[i] = pattern(i);` with `left` rounds left.
  unfoldable pub fill_buffer : (left i buf : ℕ) → Cmd Machine (Unit {0})
  unfolding store_byte
  fill_buffer zero i buf = pure tt
  fill_buffer (suc left) i buf = do
    store_byte l (u32 (buf + i)) (pattern i)
    fill_buffer left (i + 1) buf

  -- `for (i = ...) if (buf[i] != pattern(i)) bad++;`
  unfoldable pub count_bad : (left i buf bad : ℕ) → Cmd Machine ℕ
  unfolding load_byte
  count_bad zero i buf bad = pure bad
  count_bad (suc left) i buf bad = do
    x ← load_byte l (u32 (buf + i))
    count_bad left (i + 1) buf (if x == pattern i then bad else u32 (bad + 1))

  -- The number of bytes from `i` on that differ from the pattern.
  abbrev pub mismatches : (left i : ℕ) → (bytes : ℕ → ℕ) → ℕ
  mismatches zero i bytes = 0
  mismatches (suc left) i bytes =
      (if bytes i == pattern i then 0 else 1) + mismatches left (i + 1) bytes

  fill_end : (i buf : ℕ) (m : Machine) → fill_buffer zero i buf m ≡ done tt m
  unfolding fill_buffer
  fill_end i buf m = refl

  fill_step :
      (left i buf : ℕ) {v : ℕ} (m : Machine) {t : Machine}
      → u32 (buf + i) ≡ v
      → store_byte l v (pattern i) m ≡ done tt t
      → fill_buffer (suc left) i buf m ≡ fill_buffer left (i + 1) buf t
  unfolding fill_buffer
  fill_step left i buf m at e = rw (at, e) refl

  module _ (small : (i : ℕ) → pattern i < 2 ^ 8) (buf size : ℕ)
      (fits : buf + size ≤ kernel_base) where
    -- The bytes below `i` hold the pattern, and all are mapped.
    record Filled (m : Machine) (i : ℕ) : Type 0 where
      apart : IsApart l m.ram
      written : (j : ℕ) → j < i → HasByte l m.ram (buf + j) (pattern j)
      mapped : (j : ℕ) → j < size → (x : ℕ) × HasByte l m.ram (buf + j) x

    fill-Filled :
        (left i : ℕ) (m : Machine)
        → i + left ≡ size
        → Filled m i
        → (m' : Machine) × (fill_buffer left i buf m ≡ done tt m')
          × Filled m' size
          × (m'.frames ≡ m.frames)
    fill-Filled zero i m e f = (m, fill_end i buf m, subst (Filled m) (omega arith) f, refl)
    fill-Filled (suc left) i m e f =
        let (old, h) = f.mapped i (omega arith) in
        let at : u32 (buf + i) ≡ buf + i = omega arith in
        let w =
          store_byte-ByteWritten l m (buf + i) old (pattern i) f.apart (omega arith) (small i) h in
        let f' : Filled w.after (i + 1) = record {
          apart = w.apart;
          written = λ j below. elim (eq-or-ne j i) [
            | inl same ↦ subst (λ t. HasByte l w.after.ram (buf + t) (pattern t)) (sym same) w.here
            | inr other ↦
                w.elsewhere (buf + j) (pattern j) (omega arith) (omega arith)
                  (f.written j (omega arith))
          ];
          mapped = λ j below. elim (eq-or-ne j i) [
            | inl same ↦ (
              pattern i,
              subst (λ t. HasByte l w.after.ram (buf + t) (pattern i)) (sym same) w.here,
            )
            | inr other ↦
                let (x, hx) = f.mapped j below in
                (x, w.elsewhere (buf + j) x (omega arith) (omega arith) hx)
          ];
        } in
        let (m', returns, full, frames) = fill-Filled left (i + 1) w.after (omega arith) f' in
        (m', fill_step left i buf m at w.returns ∙ returns, full, frames ∙ w.frames)

    count_from :
        (left i bad : ℕ) (m : Machine) (bytes : ℕ → ℕ)
        → i + left ≡ size
        → bad ≤ i
        → ((j : ℕ) → j < size → HasByte l m.ram (buf + j) (bytes j))
        → count_bad left i buf bad m ≡ done (bad + mismatches left i bytes) m
    unfolding count_bad
    count_from zero i bad m bytes e few at_byte = ap (λ t. done t m) (omega arith)
    count_from (suc left) i bad m bytes e few at_byte =
        let at : u32 (buf + i) ≡ buf + i = omega arith in
        let bad' = if bytes i == pattern i then bad else u32 (bad + 1) in
        let more : bad' + mismatches left (i + 1) bytes ≡ bad + mismatches (suc left) i bytes =
          ground arith in
        rw (at, load_byte_lem l m (buf + i) (bytes i) (at_byte i (omega arith)))
          (count_from left (i + 1) bad' m bytes (omega arith) (ground arith) at_byte
            ∙ ap (λ t. done t m) more)

    -- The count is the number of bytes that differ from the pattern, whatever is in the buffer.
    pub count_bad_lem :
        (m : Machine) (bytes : ℕ → ℕ)
        → ((j : ℕ) → j < size → HasByte l m.ram (buf + j) (bytes j))
        → count_bad size 0 buf 0 m ≡ done (mismatches size 0 bytes) m
    count_bad_lem m bytes at_byte =
        count_from size 0 0 m bytes (omega arith) (omega arith) at_byte
        ∙ ap (λ t. done t m) (omega arith)

    count-zero :
        (left i bad : ℕ) (m : Machine)
        → i + left ≡ size
        → Filled m size
        → count_bad left i buf bad m ≡ done bad m
    unfolding count_bad
    count-zero zero i bad m e f = refl
    count-zero (suc left) i bad m e f =
        let at : u32 (buf + i) ≡ buf + i = omega arith in
        rw
          (
            at,
            load_byte_lem l m (buf + i) (pattern i) (f.written i (omega arith)),
            eq→== (pattern i) (pattern i) refl,
          )
          (count-zero left (i + 1) bad m (omega arith) f)

    -- A buffer below the kernel whose bytes are mapped keeps the pattern: the count of bad bytes
    -- after the writes is 0, and no frame is taken.
    pub count_bad-fill_buffer :
        (m : Machine)
        → IsApart l m.ram
        → ((j : ℕ) → j < size → (x : ℕ) × HasByte l m.ram (buf + j) x)
        → (m' : Machine) × (fill_buffer size 0 buf m ≡ done tt m')
          × (count_bad size 0 buf 0 m' ≡ done 0 m')
          × (m'.frames ≡ m.frames)
    count_bad-fill_buffer m apart mapped =
        let start : Filled m 0 = record {
          apart = apart;
          written = λ j h. absurd (omega arith);
          mapped = mapped;
        } in
        let (m', returns, full, frames) = fill-Filled size 0 m (omega arith) start in
        (m', returns, count-zero size 0 0 m' (omega arith) full, frames)
