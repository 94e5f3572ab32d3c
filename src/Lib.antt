-- ===== src/Lib.antt =====
-- RaxzusOS, a 32-bit x86 kernel whose heap gives each size class a virtual region of its own.
--
-- Parts, and how they use each other:
--   * Base: Boolean tests, lists, bits of words, the outcome of a command (`Run`: done, hang, fault)
--     and 32-bit arithmetic with its wrap-around.
--   * Pmm: lib/pmm.c but for map_page. `Frames` is the bitmap and the counter. A search that the C
--     code writes with two loops is kernel_words/process_words over kernel_bits/process_bits; `hang`
--     is its `while(1)`, and `fault` an index outside the bitmap. Init, Alloc, Release and High
--     hold what the allocators do on every kind of bitmap.
--   * Machine: physical memory, the processor's walk through directory and table, and C's loads and
--     stores through kernel pointers. From 0xC0000000 on an address is the direct map of
--     lib/paging_manager.c; below, the kernel's page directory is walked. An access that is not
--     mapped is a `fault`. Access turns memory apart from the page tables into a partial map, and
--     Bytes reads and writes the bytes of its words.
--   * Paging: map_page and allocate_page of lib/pmm.c, and lib/paging_manager.c. They write page
--     tables through Machine and take frames from Pmm. Present and Fresh are map_page with a table
--     that is there and with a new one, Direct and DirectMap the kernel's map of physical memory,
--     Private the directory of a process.
--   * Heap: lib/heap_domain.c. Domain has one size class, Large the allocations above 4 KiB, Route
--     the global domains with kmalloc and kfree_heap. Chain is the free list as a data type over
--     memory; Lifo, Link, LinkPage, Expand and RoundTrip hold what the operations do to it;
--     NewPage, Outside and Growth follow a page from the frame allocator through both directories
--     to the free list, and PageView has what a client sees of that. Classes is the choice of a
--     class, InPage where the blocks of a page lie, LargeSize the page count of a large allocation.
--     Live is what a client may rely on: histories of allocations, writes to held blocks and frees,
--     with the set of held blocks; Owned, Rebuild, NewBlocks, Held and Histories relate the heap
--     to it.
--   * Memtest: lib/memtest.c, the benchmarks, which are clients of the heap. Bench is their state,
--     Sqrt and Samples the statistics, Fragments, Buffers and Commands the two commands, Verdicts
--     what their checks find.
--   * Devices: lib/gdt.c, lib/interrupts.c, lib/pic.c, lib/ata_disk_driver.c
--     (Ata, Transfer, Sectors), lib/rtc.c.
--   * Text: lib/kutils.c, and the number and string functions of lib/vga.c and
--     lib/raxzus_shell_ui.c.
--   * Console: the screen of lib/vga.c (Screen, Scroll, Cursor), its kprintf (Print) and its clock
--     (Clock); lib/keyboard.c and lib/keymap.c (Keyboard; Edit is the line editor that they implement,
--     Refine, Typing and Line relate the two); the command dispatch of lib/raxzus_shell.c (Shell,
--     Commands); lib/raxzus_shell_ui.c (Boxes, Banners, with BoxLines and BoxEdges on the boxes);
--     lib/exceptions.c and lib/forgeproc.c (Faults, Reports). Paint is a list of coloured characters
--     as a screen shows it, and Draws the routines whose effect is such a list.
--   * Process: lib/process_manager.c. Schedule, Rounds and Next have the scheduler on its linked list
--     of control blocks, Create the creation of a process on the machine's memory, Append the list
--     that it joins, Frame, CopyCode and NewStack the stack and the code that it starts from.
--   * Boot: kernel.c. Registers has the control registers, the task state and the timer, Menu the
--     texts, Main the order of start-up on the state of all parts.
--   * Examples: the theorems at concrete states.
--
-- A pointer is its address; a struct that C changes in place is passed and returned. The linker's
-- symbols are the record `Layout`. Signed numbers are their 32-bit patterns.
--
-- Loops run on the number of rounds that the C loop has: bitmap_size words of 32 bits, the pages of
-- the kernel's image, the blocks of a page, the pages of an allocation, and as many digits as a
-- 32-bit number may have. The scheduler's loop has no bound in the code: it takes a number of
-- rounds, and one more than the ticks that all processes have left to sleep is enough. So do the
-- disk driver's polling loops: as many as the drive needs to answer are enough. The square root's
-- loop has one round more than its argument, which is enough, and the walk to the end of the process
-- list takes a number of rounds, where one for each process is enough. A `hlt` with interrupts
-- off is `hang`, and in the exception handlers `halted`, with the screen as it then is.
--
-- Not modelled: what lib/pic.c, lib/pmm.c and the domains of lib/heap_domain.c print on the way, the
-- translation cache (invlpg), assembler code (the entry points, the switch between
-- processes, cli and sti), interrupts in the middle of an operation, double_to_string with its
-- floating-point numbers, dump_stack_before_iret, test_mapping and commented code. The commands of
-- Shell are named, not run, so that the dispatch stands apart from the commands. The block that
-- tokinize_words asks for is taken to be there, with room for the 200 bytes and no more. A history
-- of the heap starts from a valid heap; that init_all_heaps, which links 256 pages for each class,
-- leaves one is not shown. Its steps allocate from a free list, or grow the class by a frame below
-- 2 GiB whose page tables are there, or find no frame. It has no growth that makes a page table and
-- no large allocation: from 2 GiB on lib/pmm.c hands out frames that it fails to mark, and memory in
-- use could be given away.
pub mod Base
pub mod Pmm
pub mod Machine
pub mod Memtest
pub mod Paging
pub mod Heap
pub mod Devices
pub mod Text
pub mod Console
pub mod Process
pub mod Boot
pub mod Examples
