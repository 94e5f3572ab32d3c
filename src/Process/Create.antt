-- ===== src/Process/Create.antt =====
-- `create_process` and `init_process_scheduler` of lib/process_manager.c: a control block, a page
-- directory, and the stack from which the process is first entered.
use raxzus_heap_research.Pmm.{get_next_free_process_frame}
use raxzus_heap_research.Paging.{page_kernel, page_user, map_page, create_process_page_directory}
use raxzus_heap_research.Heap.Domain.{null}
use raxzus_heap_research.Base.{
  ◌==◌, if◌then◌else◌, Run, done, hang, fault, Cmd, pure, ◌>>=◌, ◌>>◌, u32, sub32, ℕ, zero, suc,
  ◌+◌, ◌%◌, ◌^◌, Bool, true, false, List, [], ◌∷◌, ◌++◌,
}
use raxzus_heap_research.Machine.{Layout, Machine, to_virt, to_phys, with_frames, load, store}
use raxzus_heap_research.Machine.Bytes.{load_byte, store_byte}
use raxzus_heap_research.Heap.Route.{Kernel, kmalloc}

-- The kernel with `process_lists` and the 16-bit `current_index`.
pub record Processes : Type 0 where
  pub kernel : Kernel
  pub process_lists : ℕ
  pub current_index : ℕ

abbrev pub after_kernel : {A : Type 0} → Run Kernel A → Cmd Processes A
after_kernel (done a k) s = done a (record s { kernel = k })
after_kernel hang s = hang
after_kernel fault s = fault

abbrev pub in_kernel : {A : Type 0} → Cmd Kernel A → Cmd Processes A
in_kernel c s = after_kernel (c s.kernel) s

abbrev pub after_machine : {A : Type 0} → Run Machine A → Cmd Processes A
after_machine (done a m) s = done a (record s { kernel = record s.kernel { machine = m } })
after_machine hang s = hang
after_machine fault s = fault

abbrev pub in_machine : {A : Type 0} → Cmd Machine A → Cmd Processes A
in_machine c s = after_machine (c s.kernel.machine) s

-- The offsets of the fields of `struct PCB`, and its size.
abbrev pub offset_saved_esp : ℕ
offset_saved_esp = 0

abbrev pub offset_page_dir : ℕ
offset_page_dir = 4

abbrev pub offset_stack_top : ℕ
offset_stack_top = 16

abbrev pub offset_pid : ℕ
offset_pid = 80

abbrev pub offset_sleep_time : ℕ
offset_sleep_time = 84

abbrev pub offset_kernel_stack_top : ℕ
offset_kernel_stack_top = 88

abbrev pub offset_next : ℕ
offset_next = 92

abbrev pub offset_prev : ℕ
offset_prev = 96

abbrev pub pcb_size : ℕ
pcb_size = 100

abbrev pub proc_stack_virt : ℕ
proc_stack_virt = 0xBFFFF000

abbrev pub proc_stack_size : ℕ
proc_stack_size = 4096

abbrev pub proc_code_virt : ℕ
proc_code_virt = 0x10000000

-- What is pushed for the return from an interrupt, first to last: with a stack of its own for a user
-- process, and then eight registers that are 0.
abbrev pub frame_of_user : List ℕ
frame_of_user = 0x23 ∷ (proc_stack_virt + proc_stack_size) ∷ 0x202 ∷ 0x1B ∷ proc_code_virt ∷ []

abbrev pub frame_of_kernel : (func : ℕ) → List ℕ
frame_of_kernel func = 0x202 ∷ 0x08 ∷ func ∷ []

abbrev pub popa_frame : List ℕ
popa_frame = 0 ∷ 0 ∷ 0 ∷ 0 ∷ 0 ∷ 0 ∷ 0 ∷ 0 ∷ []

module _ (l : Layout) where
  abbrev set_field : (pcb field value : ℕ) → Cmd Machine (Unit {0})
  set_field pcb field value = store l (u32 (pcb + field)) value

  -- `*(--sp) = word;` for each word; the new stack pointer.
  unfoldable pub push_words : (sp : ℕ) → List ℕ → Cmd Machine ℕ
  unfolding store
  push_words sp [] = pure sp
  push_words sp (word ∷ words) = do store l (sub32 sp 4) word; push_words (sub32 sp 4) words

  -- `for (i = ...) dst[i] = src[i];` on bytes.
  unfoldable pub copy_code : (left i dst src : ℕ) → Cmd Machine (Unit {0})
  unfolding load_byte store_byte
  copy_code zero i dst src = pure tt
  copy_code (suc left) i dst src = do
    b ← load_byte l (u32 (src + i))
    store_byte l (u32 (dst + i)) b
    copy_code left (i + 1) dst src

  -- The stack of a new process in the frame `stack_phys`: the stack pointer into the direct map.
  unfoldable pub build_stack : (proc_dir stack_phys func : ℕ) (is_user : Bool) → Cmd Machine ℕ
  unfolding map_page push_words copy_code
  build_stack proc_dir stack_phys func is_user =
      let top = u32 (to_virt stack_phys + proc_stack_size) in
      if is_user
      then (do
        map_page l proc_dir proc_stack_virt stack_phys page_user
        code_phys ← with_frames get_next_free_process_frame
        map_page l proc_dir proc_code_virt code_phys page_user
        copy_code 4096 0 (to_virt code_phys) func
        push_words top (frame_of_user ++ popa_frame))
      else (do
        map_page l proc_dir proc_stack_virt stack_phys page_kernel
        push_words top (frame_of_kernel func ++ popa_frame))

  -- The last block of the list, for at most as many rounds.
  unfoldable pub last_process : (rounds current : ℕ) → Cmd Machine ℕ
  unfolding load
  last_process zero current = λ m. hang
  last_process (suc rounds) current = do
    following ← load l (u32 (current + offset_next))
    elim (following == 0) [ true ↦ pure current | false ↦ last_process rounds following ]

  -- The new block at the end of the list, or as the whole list.
  unfoldable pub append_process : (rounds new_process : ℕ) → Cmd Processes (Unit {0})
  unfolding last_process store
  append_process rounds new_process s =
      if s.current_index == 0
      then done tt (record s { process_lists = new_process; current_index = 1 })
      else (do
        current ← in_machine (last_process rounds s.process_lists)
        in_machine (set_field current offset_next new_process)
        in_machine (set_field new_process offset_prev current))
          (record s { current_index = (s.current_index + 1) % 2 ^ 16 })

  -- A null block ends the function; without a kernel stack the machine stops. `rounds` bounds the
  -- walk along the list.
  unfoldable pub create_process : (rounds func : ℕ) (is_user : Bool) → Cmd Processes (Unit {0})
  unfolding kmalloc create_process_page_directory build_stack append_process store
  create_process rounds func is_user s =
      (do
        new_process ← in_kernel (kmalloc l pcb_size)
        if new_process == null then pure tt else (do
          in_machine (set_field new_process offset_pid s.current_index)
          in_machine (set_field new_process offset_sleep_time 0)
          in_machine (set_field new_process offset_next null)
          in_machine (set_field new_process offset_prev null)
          proc_dir ← in_machine (create_process_page_directory l)
          in_machine (set_field new_process offset_page_dir proc_dir)
          stack_phys ← in_machine (with_frames get_next_free_process_frame)
          sp ← in_machine (build_stack proc_dir stack_phys func is_user)
          in_machine (
              set_field new_process offset_saved_esp
                (u32 (proc_stack_virt + sub32 sp (to_virt stack_phys))))
          in_machine (set_field new_process offset_stack_top (proc_stack_virt + proc_stack_size))
          kstack ← in_kernel (kmalloc l 4096)
          if kstack == null then (λ t. hang) else (do
            in_machine (set_field new_process offset_kernel_stack_top (u32 (kstack + 4096)))
            append_process rounds new_process)))
        s

  -- What the processor is loaded with: the physical address of the directory, and the stack pointer.
  -- The function never returns; in the model it ends with these two.
  unfoldable pub init_process_scheduler : (func : ℕ) → Cmd Processes (ℕ × ℕ)
  unfolding create_process load
  init_process_scheduler func s =
      (do
        create_process 1 func false
        λ t.
            (do
              directory ← in_machine (load l (u32 (t.process_lists + offset_page_dir)))
              first_esp ← in_machine (load l (u32 (t.process_lists + offset_saved_esp)))
              pure (to_phys directory, first_esp))
              t)
        (record s { current_index = 0 })
