-- ===== src/Devices/Transfer.antt =====
-- `ata_read_sector` and `ata_write_sector` of lib/ata_disk_driver.c. The drive is given by what its
-- status and data registers read, time after time; the four reads of the register 0x3F6 only wait.
use raxzus_heap_research.Base.{
  ◌==◌, if◌then◌else◌, done, hang, Cmd, pure, ◌>>◌, update, ℕ, zero, suc, ◌+◌, ◌*◌, ◌/◌, ◌%◌, ◌^◌,
  Bool, List, [], ◌∷◌, ◌++◌,
}
use raxzus_heap_research.Devices.Ports.{PortWrite, outb, u16}
use raxzus_heap_research.Devices.Ata.{select_block}

-- The caller's buffer of 16-bit words, how often either register was read, and the writes so far.
pub record Transfer : Type 0 where
  pub buffer : ℕ → ℕ
  pub polls : ℕ
  pub words_read : ℕ
  pub writes : List PortWrite

abbrev pub emit : List PortWrite → Cmd Transfer (Unit {0})
emit ws t = done tt (record t { writes = t.writes ++ ws })

-- The busy bit and the data-request bit of the status.
abbrev pub is_busy : ℕ → Bool
is_busy status = status / 2 ^ 7 % 2 == 1

abbrev pub has_data : ℕ → Bool
has_data status = status / 2 ^ 3 % 2 == 1

module _ (status data_register : ℕ → ℕ) where
  -- `while (inb(ATA_STATUS) & 0x80) {}`, for at most as many rounds.
  unfoldable pub ata_wait_ready : ℕ → Cmd Transfer (Unit {0})
  ata_wait_ready zero t = hang
  ata_wait_ready (suc rounds) t =
      let t' = record t { polls = t.polls + 1 } in
      let rest = ata_wait_ready rounds t' in if is_busy (status t.polls) then rest else done tt t'

  -- `while (!(inb(ATA_STATUS) & 0x08)) {}`.
  unfoldable pub wait_data : ℕ → Cmd Transfer (Unit {0})
  wait_data zero t = hang
  wait_data (suc rounds) t =
      let t' = record t { polls = t.polls + 1 } in
      let rest = wait_data rounds t' in if has_data (status t.polls) then done tt t' else rest

  -- `buffer[s*256+i] = inw(ATA_DATA)`, for the words from `i` on.
  unfoldable pub read_words : (left i s : ℕ) → Cmd Transfer (Unit {0})
  read_words zero i s t = done tt t
  read_words (suc left) i s t = read_words left (i + 1) s (record t {
    buffer = update t.buffer (s * 256 + i) (u16 (data_register t.words_read));
    words_read = t.words_read + 1;
  })

  -- `outw(ATA_DATA, buffer[s*256+i])`.
  unfoldable pub write_words : (left i s : ℕ) → Cmd Transfer (Unit {0})
  write_words zero i s t = done tt t
  write_words (suc left) i s t =
      write_words left (i + 1) s
        (record t { writes = t.writes ++ outb 0x1F0 (t.buffer (s * 256 + i)) ∷ [] })

  -- The sectors from `s` on.
  unfoldable pub read_sectors : (rounds left s : ℕ) → Cmd Transfer (Unit {0})
  read_sectors rounds zero s = pure tt
  read_sectors rounds (suc left) s = do
    ata_wait_ready rounds
    wait_data rounds
    read_words 256 0 s
    read_sectors rounds left (s + 1)

  unfoldable pub write_sectors : (rounds left s : ℕ) → Cmd Transfer (Unit {0})
  write_sectors rounds zero s = pure tt
  write_sectors rounds (suc left) s = do
    ata_wait_ready rounds
    wait_data rounds
    write_words 256 0 s
    write_sectors rounds left (s + 1)

  -- The registers, then the command once the drive is not busy.
  unfoldable pub start : (rounds command lba sector_count : ℕ) → Cmd Transfer (Unit {0})
  start rounds command lba sector_count = do
    ata_wait_ready rounds
    emit (select_block lba sector_count)
    ata_wait_ready rounds
    emit (outb 0x1F7 command ∷ [])
    ata_wait_ready rounds

  unfoldable pub ata_read_sector : (rounds lba sector_count : ℕ) → Cmd Transfer (Unit {0})
  ata_read_sector rounds lba sector_count = do
    start rounds 0x20 lba sector_count
    read_sectors rounds sector_count 0

  -- The last command flushes the drive's cache.
  unfoldable pub ata_write_sector : (rounds lba sector_count : ℕ) → Cmd Transfer (Unit {0})
  ata_write_sector rounds lba sector_count = do
    start rounds 0x30 lba sector_count
    write_sectors rounds sector_count 0
    emit (outb 0x1F7 0xE7 ∷ [])
    ata_wait_ready rounds
