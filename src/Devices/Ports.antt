-- ===== src/Devices/Ports.antt =====
-- lib/io.c: the writes that a driver makes to I/O ports, in order.
use raxzus_heap_research.Base.{ℕ, ◌%◌, ◌^◌}

-- `outb(port, value)`.
pub data PortWrite : Type 0 where
  outb : (port value : ℕ) → PortWrite

-- A cast to `uint8_t` or `uint16_t`.
abbrev pub u8 : ℕ → ℕ
u8 n = n % 2 ^ 8

abbrev pub u16 : ℕ → ℕ
u16 n = n % 2 ^ 16
