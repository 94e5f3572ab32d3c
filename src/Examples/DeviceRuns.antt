-- ===== src/Examples/DeviceRuns.antt =====
-- The device drivers on concrete register values.
use raxzus_heap_research.Devices.Ports.{outb, u16}
use raxzus_heap_research.Devices.Transfer.{Transfer, ata_read_sector}
use raxzus_heap_research.Devices.Sectors.{IsPrompt, ata_read_sector_lem}
use raxzus_heap_research.Base.{
  ltb, if◌then◌else◌, done, ℕ, ◌+◌, ◌*◌, ◌%◌, ◌^◌, ◌≡◌, refl, [], ◌∷◌, ◌++◌, arith,
}
use raxzus_heap_research.Devices.Ata.{select_block}
use raxzus_heap_research.Devices.Descriptors.{
  gdt_set_entry, segment_base, segment_limit, segment_flags, gdt_set_entry_read, init_interrupts,
  IsGate, init_interrupts-IsGate,
}
use raxzus_heap_research.Devices.Pic.{Masks}

gdt_set_entry_read_example :
    let e = gdt_set_entry 0x12345678 0xABCDE 0x9A 0xCF in
    (segment_base e ≡ 0x12345678)
    × (segment_limit e ≡ 0xABCDE)
    × (segment_flags e ≡ 0xC)
    × (e.access ≡ 0x9A)
gdt_set_entry_read_example =
    gdt_set_entry_read 0x12345678 0xABCDE 0x9A 0xCF (omega arith) (omega arith) (omega arith)

-- Handlers 16 bytes apart.
abbrev wrappers : ℕ → ℕ
wrappers n = (0xC0100000 + 16 * n) % 2 ^ 32

init_interrupts-IsGate_example : IsGate wrappers 8 129 (init_interrupts wrappers 8 129)
init_interrupts-IsGate_example = init_interrupts-IsGate wrappers 8 129 (λ n. omega arith)

-- The masks after reset: every line is disabled.
abbrev all_masked : Masks
all_masked = record { pic1 = 255; pic2 = 255 }

abbrev last_hour : ℕ
last_hour = 23

-- The chip at 23 hours.
abbrev late : ℕ → ℕ
late i = 0x23

-- A drive that is ready at every read, and gives 0, 1, 2 and so on.
abbrev idle_status : ℕ → ℕ
idle_status n = 0x08

idle-IsPrompt : IsPrompt idle_status 1
idle-IsPrompt = record { ready = λ n. (0, omega arith, refl); gives = λ n. (0, omega arith, refl) }

abbrev no_transfer : Transfer
no_transfer = record { buffer = λ i. 0xFFFF; polls = 0; words_read = 0; writes = [] }

ata_read_sector_lem_example :
    (g : Transfer) × (ata_read_sector idle_status (λ n. n) 1 49 2 no_transfer ≡ done tt g)
    × (g.writes ≡ ([] ++ select_block 49 2) ++ outb 0x1F7 0x20 ∷ [])
    × ((j : ℕ) → g.buffer j ≡ (if ltb j 512 then u16 j else 0xFFFF))
ata_read_sector_lem_example =
    ata_read_sector_lem idle_status (λ n. n) 1 idle-IsPrompt 49 2 no_transfer refl
