-- ===== src/Boot.antt =====
-- Start-up: kernel.c, `init_paging` of lib/paging_manager.c, `tss_set_entry` of lib/gdt.c and
-- `setup_time` of lib/interrupts.c.
pub mod Registers
pub mod Menu
pub mod Main
