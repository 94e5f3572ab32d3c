-- ===== src/Examples/SpawnRuns.antt =====
-- What a new process gets from lib/process_manager.c and lib/paging_manager.c, with the kernel at the
-- end of the second MiB.
use raxzus_heap_research.Pmm.{get_next_free_process_frame}
use raxzus_heap_research.Paging.Present.{
  pde, pte, IsTables, PageMapped, map_page_present, map_page-PageMapped,
}
use raxzus_heap_research.Process.CopyCode.{byte_of}
use raxzus_heap_research.Process.NewStack.{build_kernel_stack_lem, build_user_stack_lem}
use raxzus_heap_research.Heap.Held.{done_inj}
use raxzus_heap_research.Machine.Access.{kernel_base, peek, IsApart}
use raxzus_heap_research.Process.Append.{Listed, only, append_process_lem}
use raxzus_heap_research.Base.{
  ◌==◌, if◌then◌else◌, done, sub32, update, ℕ, ◌+◌, ◌-◌, ◌*◌, ◌/◌, ◌%◌, ◌≤◌, ◌<◌, bit_or, ◌≡◌, refl,
  sym, ◌∙◌, subst, ◌≢◌, ◌⊎◌, inl, inr, true, false, none, some, List, [], ◌∷◌, arith,
}
use raxzus_heap_research.Pmm.Alloc.{IsFirstFree, Claimed, get_next_free_process_frame-Claimed}
use raxzus_heap_research.Machine.{Machine, to_virt, is_present, translate}
use raxzus_heap_research.Pmm.Marks.{mark}
use raxzus_heap_research.Paging.{page_kernel, page_user, map_page, create_process_page_directory}
use raxzus_heap_research.Paging.Private.{create_process_page_directory_lem}
use raxzus_heap_research.Process.Create.{
  Processes, proc_stack_virt, proc_code_virt, build_stack, append_process,
}
use raxzus_heap_research.Process.Frame.{Holds}
use raxzus_heap_research.Examples.FrameRuns.{low_used, low_used-IsFirstFree}
use raxzus_heap_research.Examples.HeapRuns.{
  layout, one_page, one_page-IsApart, machine, kernel, peek_block,
}
use raxzus_heap_research.Examples.PageRuns.{two_tables, before}

frame_768-IsFirstFree : IsFirstFree (low_used 24) ((layout.heap_start - 0xC0000000) / 4096) 768
frame_768-IsFirstFree =
    let first = low_used-IsFirstFree 24 in
    record {
      from = omega arith;
      is_free = first.is_free;
      before = λ j a b. first.before j (omega arith) b;
    }

create_process_page_directory_lem_example :
    (m' : Machine) × (create_process_page_directory layout before ≡ done 0xC0300000 m')
    × ((i : ℕ) → 768 ≤ i → i < 1024 → m'.ram (768 * 4096 + 4 * i) ≡ two_tables (0x200000 + 4 * i))
    × ((v : ℕ) → v < 0xC0000000 → translate m'.ram (768 * 4096) v ≡ none)
    × ((j : ℕ) → mark m'.frames j ≡ (if 768 == j then 1 else mark (low_used 24) j))
create_process_page_directory_lem_example =
    create_process_page_directory_lem layout before 0x200000 768 (omega arith) (omega arith) refl
      frame_768-IsFirstFree refl refl (omega arith) (omega arith) (λ e. absurd (omega (arith, e)))

-- A directory at 0x200000 with tables for the stack and for the code.
abbrev process_tables : ℕ → ℕ
process_tables a = if a == 0x200BFC then 0x201003 else if a == 0x200100 then 0x203003 else 0

abbrev spawning : Machine
spawning = record { frames = low_used 24; ram = process_tables }

process_tables-IsTables : IsTables process_tables 0x200000
process_tables-IsTables = record {
  directory = omega arith;
  direct = λ v h p. ground arith;
  off_directory = λ v w h h' p e. absurd (ground arith);
  disjoint = λ v w h h' p p' e. ground arith;
}

stack_mapped :
    (flags : ℕ)
    → flags < 4096
    → flags % 2 ≡ 1
    → PageMapped spawning 0x200000 proc_stack_virt 0x400000
        (map_page layout 0xC0200000 proc_stack_virt 0x400000 flags spawning)
stack_mapped flags low odd =
    map_page-PageMapped layout spawning 0x200000 proc_stack_virt 0x400000 flags
      process_tables-IsTables (omega arith) refl (omega arith) refl low odd

build_kernel_stack_lem_example :
    (m' : Machine) × (sp : ℕ) × (build_stack layout 0xC0200000 0x400000 0xC0101000 false spawning
      ≡ done sp m')
    × (sub32 sp (to_virt 0x400000) ≡ 4096 - 44)
    × Holds m'.ram
        (0x400000 + (4096 - 44))
        (0 ∷ 0 ∷ 0 ∷ 0 ∷ 0 ∷ 0 ∷ 0 ∷ 0 ∷ 0xC0101000 ∷ 0x08 ∷ 0x202 ∷ [])
    × ((a : ℕ)
        → (a < 0x400000 + (4096 - 44)) ⊎ (0x400000 + 4096 ≤ a)
        → m'.ram a ≡ (stack_mapped page_kernel (omega arith) refl).after.ram a)
build_kernel_stack_lem_example =
    build_kernel_stack_lem layout spawning 0x200000 0x400000 (omega arith) 0xC0101000
      (stack_mapped page_kernel (omega arith) refl)

abbrev user_stack :
    PageMapped spawning 0x200000 proc_stack_virt 0x400000
      (map_page layout 0xC0200000 proc_stack_virt 0x400000 page_user spawning)
user_stack = stack_mapped page_user (omega arith) refl

-- What the first page leaves.
user_stack-after : user_stack.after ≡ record spawning {
  ram =
      update process_tables
        (pte process_tables 0x200000 proc_stack_virt)
        (bit_or 0x400000 page_user);
}
user_stack-after =
    (done_inj (
      sym user_stack.returns
      ∙ map_page_present layout spawning 0x200000 proc_stack_virt 0x400000 page_user
          process_tables-IsTables (omega arith) refl (omega arith))).1

user_frame :
    Claimed user_stack.after.frames 768 (get_next_free_process_frame user_stack.after.frames)
user_frame =
    subst (λ t. Claimed t.frames 768 (get_next_free_process_frame t.frames)) (sym user_stack-after)
      (get_next_free_process_frame-Claimed (low_used 24) 768 refl (low_used-IsFirstFree 24)
        (omega arith))

code_table : is_present (user_stack.after.ram (pde 0x200000 proc_code_virt)) ≡ true
code_table =
    subst (λ t. is_present (t.ram (pde 0x200000 proc_code_virt)) ≡ true) (sym user_stack-after) refl

user_code :
    PageMapped
      (record user_stack.after { frames = user_frame.after })
      0x200000
      proc_code_virt
      (768 * 4096)
      (map_page layout 0xC0200000 proc_code_virt
        (768 * 4096)
        page_user
        (record user_stack.after { frames = user_frame.after }))
user_code =
    map_page-PageMapped layout (record user_stack.after { frames = user_frame.after }) 0x200000
      proc_code_virt (768 * 4096) page_user user_stack.tables (omega arith) code_table (omega arith)
      refl (omega arith) refl

build_user_stack_lem_example :
    (m' : Machine) × (sp : ℕ) × (build_stack layout 0xC0200000 0x400000 0xC0101000 true spawning
      ≡ done sp m')
    × (sub32 sp (to_virt 0x400000) ≡ 4096 - 52)
    × Holds m'.ram
        (0x400000 + (4096 - 52))
        (0 ∷ 0 ∷ 0 ∷ 0 ∷ 0 ∷ 0 ∷ 0 ∷ 0 ∷ 0x10000000 ∷ 0x1B ∷ 0x202 ∷ 0xC0000000 ∷ 0x23 ∷ [])
    × ((j : ℕ)
        → j < 4096
        → byte_of m'.ram (768 * 4096 + j) ≡ byte_of user_code.after.ram (0x101000 + j))
    × ((a : ℕ)
        → (a < 768 * 4096) ⊎ (768 * 4096 + 4096 ≤ a)
        → (a < 0x400000 + (4096 - 52)) ⊎ (0x400000 + 4096 ≤ a)
        → m'.ram a ≡ user_code.after.ram a)
build_user_stack_lem_example =
    build_user_stack_lem layout spawning 0x200000 0x400000 (omega arith) 0x101000 768 user_stack
      user_frame user_code (omega arith) (omega arith) (inl (omega arith)) (inr (omega arith))

-- One process at the start of the heap page, and a zeroed block behind it.
abbrev one_process : Processes
one_process = record { kernel = kernel; process_lists = 0x10000000; current_index = 1 }

abbrev process_0 : List ℕ
process_0 = 0x10000000 ∷ []

one_process-Listed : Listed (peek layout one_page) 0x10000000 process_0
unfolding translate
one_process-Listed = only (omega arith) (peek_block 0x1000005C 0 (omega arith) refl refl)

zero_next : peek layout one_page 0x100000DC ≡ some 0
unfolding translate
zero_next = peek_block 0x100000DC 0 (omega arith) refl refl

zero_prev : peek layout one_page 0x100000E0 ≡ some 0
unfolding translate
zero_prev = peek_block 0x100000E0 0 (omega arith) refl refl

append_process_lem_example :
    (m : Machine) × (append_process layout 1 0x10000080 one_process
      ≡ done tt (record one_process { kernel = record kernel { machine = m }; current_index = 2 }))
    × Listed (peek layout m.ram) 0x10000000 (0x10000000 ∷ 0x10000080 ∷ [])
    × (peek layout m.ram 0x100000E0 ≡ some 0x10000000)
    × (m.frames ≡ machine.frames)
    × IsApart layout m.ram
    × ((a : ℕ)
        → a < kernel_base
        → a ≢ 0x1000005C
        → a ≢ 0x100000E0
        → peek layout m.ram a ≡ peek layout one_page a)
append_process_lem_example =
    append_process_lem layout 1 0x10000080 0 process_0 one_process (λ e. absurd (omega (arith, e)))
      one_page-IsApart one_process-Listed (omega arith) (λ e. absurd (omega (arith, e)))
      (omega arith) zero_next zero_prev (λ q i. ground arith)
