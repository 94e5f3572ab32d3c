-- ===== src/Devices/Ata.antt =====
-- lib/ata_disk_driver.c: how a block address is spread over the drive's registers.
use raxzus_heap_research.Base.{
  ◌==◌, if◌then◌else◌, bit_or_shifted, ℕ, ◌+◌, ◌*◌, ◌/◌, ◌%◌, ◌^◌, ◌<◌, bit_or, ◌≡◌, List, [], ◌∷◌,
  arith,
}
use raxzus_heap_research.Devices.Ports.{PortWrite, outb, u8}

abbrev pub ata_master : ℕ
ata_master = 0xE0

set_master_slave_super_lba : ℕ → ℕ → ℕ
set_master_slave_super_lba lba drive_select = u8 (bit_or drive_select (lba / 2 ^ 24 % 2 ^ 4))

get_low_lba : ℕ → ℕ
get_low_lba lba = lba % 2 ^ 8

get_mid_lba : ℕ → ℕ
get_mid_lba lba = lba / 2 ^ 8 % 2 ^ 8

get_high_lba : ℕ → ℕ
get_high_lba lba = lba / 2 ^ 16 % 2 ^ 8

-- The register writes before the command, the same in both functions.
unfoldable pub select_block : (lba sector_count : ℕ) → List PortWrite
unfolding set_master_slave_super_lba get_low_lba get_mid_lba get_high_lba
select_block lba sector_count =
    outb 0x1F6 (set_master_slave_super_lba lba ata_master)
    ∷ outb 0x1F2 sector_count
    ∷ outb 0x1F3 (get_low_lba lba)
    ∷ outb 0x1F4 (get_mid_lba lba)
    ∷ outb 0x1F5 (get_high_lba lba)
    ∷ []

-- The value that was last written to a port.
unfoldable pub register : ℕ → List PortWrite → ℕ
register port [] = 0
register port (outb p v ∷ writes) = let rest = register port writes in if p == port then v else rest

-- The drive's reading of its registers: a 28-bit block address.
unfoldable pub selected_lba : List PortWrite → ℕ
unfolding register
selected_lba writes =
    register 0x1F6 writes % 16 * 2 ^ 24
    + register 0x1F5 writes * 2 ^ 16
    + register 0x1F4 writes * 2 ^ 8
    + register 0x1F3 writes

-- The drive register is the master's digit above the top digit of the address.
drive_register : (n : ℕ) → n < 16 → u8 (bit_or ata_master n) ≡ 14 * 16 + n
drive_register n h = omega (arith, bit_or_shifted 4 14 n h)

-- The drive selects the master and the block that was asked for, modulo 2^28.
selected_lba-select_block :
    (lba sector_count : ℕ)
    → (selected_lba (select_block lba sector_count) ≡ lba % 2 ^ 28)
      × (register 0x1F6 (select_block lba sector_count) / 16 ≡ 14)
unfolding selected_lba select_block
selected_lba-select_block lba sector_count =
    let d = drive_register (lba / 2 ^ 24 % 2 ^ 4) (omega arith) in
    (omega (arith, d), omega (arith, d))
