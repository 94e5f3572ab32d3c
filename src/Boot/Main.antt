-- ===== src/Boot/Main.antt =====
-- `kernel_main` of kernel.c and `init_paging` of lib/paging_manager.c: the order of start-up. The
-- loops at the end only wait for interrupts.
use raxzus_heap_research.Base.{
  Run, done, hang, fault, Cmd, and_then, ◌>>◌, codes, ℕ, ◌≡◌, refl, ap, ◌∙◌, Option, some, List, [],
  ◌∷◌, ◌++◌,
}
use raxzus_heap_research.Pmm.{init_pmm}
use raxzus_heap_research.Machine.{Layout, Machine, with_frames}
use raxzus_heap_research.Paging.{setup_entries, map_kernel_memory}
use raxzus_heap_research.Heap.Route.{Kernel, init_all_heaps}
use raxzus_heap_research.Devices.Ports.{PortWrite}
use raxzus_heap_research.Devices.Pic.{Masks, pic_enable_irq, pic_disable_irq, pic_remap}
use raxzus_heap_research.Devices.Descriptors.{GdtEntry, init_gdt, Idt, init_interrupts}
use raxzus_heap_research.Console.Screen.{Screen}
use raxzus_heap_research.Console.Print.{int, kprintf}
use raxzus_heap_research.Console.Boxes.{in_color}
use raxzus_heap_research.Boot.Registers.{
  Control, set_cr3_register, set_cr0_register, enable_global_pages, TaskState, tss_set_entry,
  setup_time,
}
use raxzus_heap_research.Boot.Menu.{color_cyan, boot_title, boot_menu, boot_title-returns}

-- The state of start-up: the heap is there once it has been initialised, and the port writes are
-- kept in order.
pub record System : Type 0 where
  pub machine : Machine
  pub heap : Option Kernel
  pub screen : Screen
  pub control : Control
  pub masks : Masks
  pub ports : List PortWrite
  pub task_state : TaskState
  pub gdt : List GdtEntry
  pub idt : Idt

abbrev after_screen : Run Screen (Unit {0}) → Cmd System (Unit {0})
after_screen (done a t) s = done tt (record s { screen = t })
after_screen hang s = hang
after_screen fault s = fault

abbrev shows : Cmd Screen (Unit {0}) → Cmd System (Unit {0})
shows p s = after_screen (p s.screen) s

abbrev after_memory : Run Machine (Unit {0}) → Cmd System (Unit {0})
after_memory (done a m) s = done tt (record s { machine = m })
after_memory hang s = hang
after_memory fault s = fault

abbrev in_memory : Cmd Machine (Unit {0}) → Cmd System (Unit {0})
in_memory p s = after_memory (p s.machine) s

abbrev after_masks : Run Masks (Unit {0}) → Cmd System (Unit {0})
after_masks (done a m) s = done tt (record s { masks = m })
after_masks hang s = hang
after_masks fault s = fault

abbrev on_masks : Cmd Masks (Unit {0}) → Cmd System (Unit {0})
on_masks p s = after_masks (p s.masks) s

abbrev after_heaps : Run Kernel (Unit {0}) → Cmd System (Unit {0})
after_heaps (done a k) s = done tt (record s { machine = k.machine; heap = some k })
after_heaps hang s = hang
after_heaps fault s = fault

abbrev sets : (System → System) → Cmd System (Unit {0})
sets f s = done tt (f s)

abbrev label : List ℕ → Cmd System (Unit {0})
label text = shows (in_color 0x0F text [])

abbrev ok_text : Cmd System (Unit {0})
ok_text = shows (in_color 0x02 (codes "[OK]\n") [])

module _ (l : Layout) where
  unfoldable pub init_paging : Cmd System (Unit {0})
  unfolding in_color setup_entries map_kernel_memory set_cr3_register set_cr0_register
      enable_global_pages
  init_paging = do
    label (codes "[MEM] Creating blank entries........")
    in_memory (setup_entries l)
    ok_text
    label (codes "[MEM] Mapping memory........")
    in_memory (map_kernel_memory l)
    ok_text
    label (codes "[MEM] Assigning CR3 to paging dir........")
    sets (λ s. record s { control = set_cr3_register l s.control })
    ok_text
    label (codes "[MEM] Fliping the CR0 bit........")
    sets (λ s. record s { control = set_cr0_register 1 s.control })
    ok_text
    label (codes "[MEM] Enabling PGE (global pages)........")
    sets (λ s. record s { control = enable_global_pages s.control })
    ok_text

  -- `init_keyboard` only prints.
  unfoldable pub init_keyboard : Cmd System (Unit {0})
  unfolding in_color
  init_keyboard = do label (codes "[INIT] Keyboard driver initialized........"); ok_text

  -- The heap's first and last line on the screen, and its domains. What each domain prints on the way
  -- is left out.
  unfoldable pub start_heaps : Cmd System (Unit {0})
  unfolding in_color init_all_heaps
  start_heaps = do
    label (codes "[HEAP] Initializing heap domains........\n")
    (λ s. after_heaps (init_all_heaps l s.machine) s)
    shows (in_color 0x02 (codes "[HEAP] All heap domains ready\n") [])

  -- The interrupt table with its port writes; `idt` is the address of the table.
  unfoldable pub start_interrupts : (isr_wrapper : ℕ → ℕ) (cs idt : ℕ) → Cmd System (Unit {0})
  unfolding in_color kprintf init_interrupts setup_time
  start_interrupts isr_wrapper cs idt = do
    label (codes "[INIT] Setting up interrupts....")
    shows (kprintf (codes "The IDTP.limit: %x\n") (int idt ∷ []))
    sets (λ s. record s { idt = init_interrupts isr_wrapper cs })
    sets (λ s. record s { ports = s.ports ++ setup_time 11932 })
    ok_text

  -- The controllers and the keyboard, without what `pic_remap` prints.
  unfoldable pub start_controllers : Cmd System (Unit {0})
  unfolding pic_remap pic_disable_irq pic_enable_irq init_keyboard
  start_controllers = do
    sets (λ s. record s { ports = s.ports ++ pic_remap 32 40 s.masks })
    on_masks (pic_disable_irq 46)
    on_masks (pic_disable_irq 0)
    on_masks (pic_enable_irq 1)
    init_keyboard

  -- Memory and the processor's tables; `tss` and `stack_end` are the addresses of the task state
  -- and of the end of its stack.
  unfoldable pub start_memory :
      (isr_wrapper : ℕ → ℕ) (cs idt tss stack_end : ℕ) → Cmd System (Unit {0})
  unfolding init_paging init_pmm start_heaps tss_set_entry init_gdt start_interrupts
  start_memory isr_wrapper cs idt tss stack_end = do
    init_paging
    in_memory (with_frames (init_pmm l.heap_start))
    start_heaps
    sets (λ s. record s { gdt = init_gdt tss; task_state = tss_set_entry stack_end })
    start_interrupts isr_wrapper cs idt

  -- The part of `kernel_main` behind the controllers.
  unfoldable pub start_system :
      (isr_wrapper : ℕ → ℕ) (cs idt tss stack_end : ℕ) → Cmd System (Unit {0})
  unfolding start_memory boot_menu kprintf in_color
  start_system isr_wrapper cs idt tss stack_end = do
    start_memory isr_wrapper cs idt tss stack_end
    shows boot_menu
    shows (kprintf (codes "Jumping to IDLE.... \n") [])
    shows (kprintf (codes "dfsfsdf\n") [])
    shows (in_color color_cyan (codes "RaxzusOS > ") [])

  unfoldable pub kernel_main :
      (isr_wrapper : ℕ → ℕ) (cs idt tss stack_end : ℕ) → Cmd System (Unit {0})
  unfolding boot_title start_controllers start_system
  kernel_main isr_wrapper cs idt tss stack_end = do
    shows boot_title
    start_controllers
    start_system isr_wrapper cs idt tss stack_end

controllers_fault : (l : Layout) (s : System) → start_controllers l s ≡ fault
unfolding start_controllers pic_disable_irq
controllers_fault l s = refl

-- `kernel_main` shifts by 38 to disable the line 46, which C does not define: whatever the machine
-- is like at start-up, with a white screen colour, it gets there and not further in a defined way.
kernel_main_fault :
    (l : Layout) (isr_wrapper : ℕ → ℕ) (cs idt tss stack_end : ℕ) (s : System)
    → s.screen.color ≡ 0x0F
    → kernel_main l isr_wrapper cs idt tss stack_end s ≡ fault
unfolding kernel_main
kernel_main_fault l isr_wrapper cs idt tss stack_end s w =
    let (t, shown) = boot_title-returns s.screen w in
    let rest = start_system l isr_wrapper cs idt tss stack_end in
    ap (λ r. and_then (after_screen r s) (λ _. start_controllers l >> rest)) shown
    ∙ ap (λ r. and_then r (λ _. rest)) (controllers_fault l (record s { screen = t }))
