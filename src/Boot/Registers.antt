-- ===== src/Boot/Registers.antt =====
-- The registers that start-up sets: the control registers of lib/paging_manager.c, the task state of
-- lib/gdt.c, and the timer's divisor of lib/interrupts.c.
use raxzus_heap_research.Base.{
  ◌==◌, if◌then◌else◌, ℕ, ◌+◌, ◌*◌, ◌/◌, ◌%◌, ◌^◌, ◌<◌, bit_and, bit_or, ◌≡◌, List, [], ◌∷◌, arith,
}
use raxzus_heap_research.Machine.{Layout, to_phys}
use raxzus_heap_research.Devices.Ports.{PortWrite, outb}

pub record Control : Type 0 where
  pub cr0 : ℕ
  pub cr3 : ℕ
  pub cr4 : ℕ

unfoldable pub set_cr3_register : Layout → Control → Control
set_cr3_register l c = record c { cr3 = to_phys l.kernel_page_dir }

-- `set_CR0_32_bit_register`: paging on or off.
unfoldable pub set_cr0_register : (on : ℕ) → Control → Control
set_cr0_register on c =
    if on == 1
    then record c { cr0 = bit_or c.cr0 0x80000000 }
    else record c { cr0 = bit_and c.cr0 0x7FFFFFFF }

-- `cr4 |= 0x80`: global pages.
unfoldable pub enable_global_pages : Control → Control
enable_global_pages c = record c { cr4 = bit_or c.cr4 0x80 }

-- The fields of the task state that are not left 0.
pub record TaskState : Type 0 where
  pub esp0 : ℕ
  pub ss0 : ℕ
  pub iomap_base : ℕ

-- The bytes of `struct tss_entry`.
abbrev pub tss_size : ℕ
tss_size = 104

-- The task state after `kmemset` and the three assignments of `tss_set_entry`; the descriptor is in
-- `init_gdt`.
unfoldable pub tss_set_entry : (kernel_stack : ℕ) → TaskState
tss_set_entry kernel_stack = record { esp0 = kernel_stack; ss0 = 0x10; iomap_base = tss_size }

unfoldable pub get_tss_stack : TaskState → ℕ
get_tss_stack t = t.esp0

-- `setup_time`: channel 0, low byte first.
unfoldable pub setup_time : (divisor : ℕ) → List PortWrite
setup_time divisor =
    outb 0x43 0x36 ∷ outb 0x40 (divisor % 2 ^ 8) ∷ outb 0x40 (divisor / 2 ^ 8 % 2 ^ 8) ∷ []

-- What the timer's channel 0 makes of the writes to it: the low byte, then the high byte.
unfoldable pub timer_divisor : List PortWrite → ℕ
timer_divisor (outb _ _ ∷ outb _ low ∷ outb _ high ∷ []) = low + high * 2 ^ 8
timer_divisor _ = 0

-- The timer counts with the 16-bit divisor that is asked for.
pub timer_divisor-setup_time :
    (divisor : ℕ) → divisor < 2 ^ 16 → timer_divisor (setup_time divisor) ≡ divisor
unfolding timer_divisor setup_time
timer_divisor-setup_time divisor small = omega arith
