-- ===== src/Devices/Sectors.antt =====
-- What `ata_read_sector` of lib/ata_disk_driver.c leaves in the caller's buffer.
use raxzus_heap_research.Devices.Ata.{select_block}
use mathlib.Core.Bool.{false≢true}
use raxzus_heap_research.Base.{
  ltb, leb, if◌then◌else◌, Bool-cases, eq-or-ne, Run, done, update, ℕ, zero, suc, ◌+◌, ◌-◌, ◌*◌,
  ◌<◌, ◌≡◌, refl, sym, ap, ◌∙◌, inl, inr, true, false, ◌&&◌, [], ◌∷◌, ◌++◌, arith,
}
use raxzus_heap_research.Devices.Ports.{outb, u16}
use raxzus_heap_research.Devices.Transfer.{
  Transfer, is_busy, has_data, ata_wait_ready, wait_data, read_words, read_sectors, start,
  ata_read_sector,
}

-- From any time on, one of the next `rounds` reads of the status has the drive not busy, and one has
-- it ready to give data.
pub record IsPrompt (status : ℕ → ℕ) (rounds : ℕ) : Type 0 where
  pub ready : (n : ℕ) → (k : ℕ) × (k < rounds) × (is_busy (status (n + k)) ≡ false)
  pub gives : (n : ℕ) → (k : ℕ) × (k < rounds) × (has_data (status (n + k)) ≡ true)

module _ (status data_register : ℕ → ℕ) where
  -- The outcome of waiting: nothing but the number of reads changes.
  record Waited (t : Transfer) (r : Run Transfer (Unit {0})) : Type 0 where
    reads : ℕ
    returns : r ≡ done tt (record t { polls = reads })

  wait_ready-Waited :
      (rounds k : ℕ) (t : Transfer)
      → k < rounds
      → is_busy (status (t.polls + k)) ≡ false
      → Waited t (ata_wait_ready status data_register rounds t)
  unfolding ata_wait_ready
  wait_ready-Waited zero k t h e = absurd (omega arith)
  wait_ready-Waited (suc rounds) k t h e = elim (Bool-cases (is_busy (status t.polls))) [
    | inr idle ↦ rw idle (record { reads = t.polls + 1; returns = refl })
    | inl busy ↦ elim (eq-or-ne k 0) [
      | inl z ↦ absurd (
          false≢true (
            sym
              (ap (λ n. is_busy (status n)) (let s : t.polls ≡ t.polls + k = omega arith in s) ∙ e)
            ∙ busy))
      | inr ne ↦
          let rest =
            wait_ready-Waited rounds (k - 1) (record t { polls = t.polls + 1 }) (omega arith)
              (ap (λ n. is_busy (status n))
                  (let s : t.polls + 1 + (k - 1) ≡ t.polls + k = omega arith in s)
                ∙ e) in
          rw busy (record { reads = rest.reads; returns = rest.returns })
    ]
  ]

  wait_data-Waited :
      (rounds k : ℕ) (t : Transfer)
      → k < rounds
      → has_data (status (t.polls + k)) ≡ true
      → Waited t (wait_data status data_register rounds t)
  unfolding wait_data
  wait_data-Waited zero k t h e = absurd (omega arith)
  wait_data-Waited (suc rounds) k t h e = elim (Bool-cases (has_data (status t.polls))) [
    | inl here ↦ rw here (record { reads = t.polls + 1; returns = refl })
    | inr none_yet ↦ elim (eq-or-ne k 0) [
      | inl z ↦ absurd (
          false≢true (
            sym none_yet
            ∙ ap (λ n. has_data (status n)) (let s : t.polls ≡ t.polls + k = omega arith in s)
            ∙ e))
      | inr ne ↦
          let rest =
            wait_data-Waited rounds (k - 1) (record t { polls = t.polls + 1 }) (omega arith)
              (ap (λ n. has_data (status n))
                  (let s : t.polls + 1 + (k - 1) ≡ t.polls + k = omega arith in s)
                ∙ e) in
          rw none_yet (record { reads = rest.reads; returns = rest.returns })
    ]
  ]

  -- The outcome of filling the buffer from index `lo` up to `hi` with the words of the drive, where the
  -- word at an index is the one that is read at that time.
  pub record Filled (t : Transfer) (lo hi : ℕ) (r : Run Transfer (Unit {0})) : Type 0 where
    pub after : Transfer
    pub returns : r ≡ done tt after
    pub count : after.words_read ≡ hi
    pub writes : after.writes ≡ t.writes
    pub filled :
        (j : ℕ)
        → after.buffer j ≡ (if leb lo j && ltb j hi then u16 (data_register j) else t.buffer j)

  read_words-Filled :
      (left i s hi : ℕ) (t : Transfer)
      → t.words_read ≡ s * 256 + i
      → s * 256 + i + left ≡ hi
      → Filled t (s * 256 + i) hi (read_words status data_register left i s t)
  unfolding read_words
  read_words-Filled zero i s hi t at_word e = record {
    after = t;
    returns = refl;
    count = omega arith;
    writes = refl;
    filled = λ j. ground arith;
  }
  read_words-Filled (suc left) i s hi t at_word e =
      let rest =
        read_words-Filled left (i + 1) s hi
          (record t {
            buffer = update t.buffer (s * 256 + i) (u16 (data_register t.words_read));
            words_read = t.words_read + 1;
          })
          (omega arith) (omega arith) in
      record {
        after = rest.after;
        returns = rest.returns;
        count = rest.count;
        writes = rest.writes;
        filled = λ j. ground (arith, rest.filled j, ap data_register at_word);
      }

  module _ (rounds : ℕ) (prompt : IsPrompt status rounds) where
    waits : (t : Transfer) → Waited t (ata_wait_ready status data_register rounds t)
    waits t = let (k, h, e) = prompt.ready t.polls in wait_ready-Waited rounds k t h e

    waits_data : (t : Transfer) → Waited t (wait_data status data_register rounds t)
    waits_data t = let (k, h, e) = prompt.gives t.polls in wait_data-Waited rounds k t h e

    read_sectors-Filled :
        (left s hi : ℕ) (t : Transfer)
        → t.words_read ≡ s * 256
        → (s + left) * 256 ≡ hi
        → Filled t (s * 256) hi (read_sectors status data_register rounds left s t)
    unfolding read_sectors
    read_sectors-Filled zero s hi t at_word e = record {
      after = t;
      returns = refl;
      count = omega arith;
      writes = refl;
      filled = λ j. ground arith;
    }
    read_sectors-Filled (suc left) s hi t at_word e =
        let a = waits t in
        let b = waits_data (record t { polls = a.reads }) in
        let c =
          read_words-Filled 256 0 s ((s + 1) * 256) (record t { polls = b.reads }) (omega arith)
            (omega arith) in
        let rest = read_sectors-Filled left (s + 1) hi c.after c.count (omega arith) in
        record {
          after = rest.after;
          returns = rw (a.returns, b.returns, c.returns) rest.returns;
          count = rest.count;
          writes = rest.writes ∙ c.writes;
          filled = λ j. ground (arith, rest.filled j, c.filled j);
        }

    -- With a drive that answers in time, `ata_read_sector` returns, has selected the block and sent the
    -- read command, and leaves the drive's words in order in the first 256 words of the buffer for each
    -- sector; the rest of the buffer is as it was.
    pub ata_read_sector_lem :
        (lba sector_count : ℕ) (t : Transfer)
        → t.words_read ≡ 0
        → (g : Transfer) × (ata_read_sector status data_register rounds lba sector_count t
            ≡ done tt g)
          × (g.writes ≡ (t.writes ++ select_block lba sector_count) ++ outb 0x1F7 0x20 ∷ [])
          × ((j : ℕ)
              → g.buffer j
                ≡ (if ltb j (sector_count * 256) then u16 (data_register j) else t.buffer j))
    unfolding ata_read_sector start
    ata_read_sector_lem lba sector_count t none_read =
        let block = select_block lba sector_count in
        let a = waits t in
        let t1 : Transfer = record t { polls = a.reads; writes = t.writes ++ block } in
        let b = waits t1 in
        let t2 : Transfer = record t {
          polls = b.reads;
          writes = (t.writes ++ block) ++ outb 0x1F7 0x20 ∷ [];
        } in
        let c = waits t2 in
        let r =
          read_sectors-Filled sector_count 0 (sector_count * 256) (record t2 { polls = c.reads })
            none_read (omega arith) in
        (
          r.after,
          rw (a.returns, b.returns, c.returns) r.returns,
          r.writes,
          λ j. ground (arith, r.filled j),
        )
