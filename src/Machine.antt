-- ===== src/Machine.antt =====
-- Physical memory, the two-level page tables of the processor, and C's loads and stores through
-- kernel pointers. The address space from 0xC0000000 on is the kernel's direct map of physical
-- memory (lib/paging_manager.c, `map_kernel_memory`); below it an access walks the page directory.
pub mod Access
pub mod Walk
pub mod Bytes
use raxzus_heap_research.Base.{
  leb, ◌==◌, if◌then◌else◌, Run, done, hang, fault, Cmd, pure, ◌>>=◌, ◌>>◌, u32, sub32, page_base,
  update, ℕ, zero, suc, ◌+◌, ◌-◌, ◌*◌, ◌/◌, ◌%◌, ◌^◌, Bool, ◌&&◌, Option, none, some,
}
use raxzus_heap_research.Pmm.{Frames}

-- The linker's symbols, as virtual addresses (linker.ld).
pub record Layout : Type 0 where
  pub heap_start : ℕ
  pub kernel_page_dir : ℕ
  pub kernel_page_table : ℕ
  pub kernel_page_tables_base : ℕ

-- `ram` holds a 32-bit word at each physical address that is a multiple of 4.
pub record Machine : Type 0 where
  pub frames : Frames
  pub ram : ℕ → ℕ

-- `virt + 0xC0000000` and back, as `uint32_t`.
abbrev pub to_virt : ℕ → ℕ
to_virt phys = u32 (phys + 0xC0000000)

abbrev pub to_phys : ℕ → ℕ
to_phys virt = sub32 virt 0xC0000000

-- `IS_VIRTUAL`.
abbrev pub is_virtual : ℕ → Bool
is_virtual addr = leb 0xC0000000 addr

abbrev pub dir_index : ℕ → ℕ
dir_index virt = virt / 2 ^ 22

abbrev pub table_index : ℕ → ℕ
table_index virt = virt / 2 ^ 12 % 2 ^ 10

-- The present bit, `entry & 0x1`.
abbrev pub is_present : ℕ → Bool
is_present entry = entry % 2 == 1

-- The processor's walk from the page directory at physical address `dir`.
unfoldable pub translate : (ℕ → ℕ) → ℕ → ℕ → Option ℕ
translate ram dir virt =
    let pde = ram (dir + 4 * dir_index virt) in
    let pte = ram (page_base pde + 4 * table_index virt) in
    if is_present pde && is_present pte then some (page_base pte + virt % 4096) else none

-- A run of the frame allocator, as one of the machine.
abbrev pub on_machine : {A : Type 0} → Run Frames A → Cmd Machine A
on_machine (done a f) m = done a (record m { frames = f })
on_machine hang m = hang
on_machine fault m = fault

abbrev pub with_frames : {A : Type 0} → Cmd Frames A → Cmd Machine A
with_frames c m = on_machine (c m.frames) m

module _ (l : Layout) where
  -- The physical address behind a pointer, under the kernel's page directory.
  unfoldable pub resolve : (ℕ → ℕ) → ℕ → Option ℕ
  unfolding translate
  resolve ram virt =
      if is_virtual virt
      then some (virt - 0xC0000000)
      else translate ram (to_phys l.kernel_page_dir) virt

  -- `*(uint32_t*)virt`. An address that is not mapped is a page fault.
  unfoldable pub load : ℕ → Cmd Machine ℕ
  load virt m = elim (resolve m.ram virt) [ none ↦ fault | some pa ↦ done (m.ram pa) m ]

  unfoldable pub store : ℕ → ℕ → Cmd Machine (Unit {0})
  store virt word m = elim (resolve m.ram virt) [
    | none ↦ fault
    | some pa ↦ done tt (record m { ram = update m.ram pa word })
  ]

  -- `words[first + i] = value(i)` for `count` words.
  unfoldable pub fill : ℕ → ℕ → ℕ → ℕ → Cmd Machine (Unit {0})
  unfolding store
  fill zero base first value = pure tt
  fill (suc count) base first value = do
    store (u32 (base + 4 * first)) value
    fill count base (first + 1) value

  -- `target[first + i] = source[first + i]` for `count` words.
  unfoldable pub copy : ℕ → ℕ → ℕ → ℕ → Cmd Machine (Unit {0})
  unfolding load store
  copy zero target source first = pure tt
  copy (suc count) target source first = do
    word ← load (u32 (source + 4 * first))
    store (u32 (target + 4 * first)) word
    copy count target source (first + 1)
