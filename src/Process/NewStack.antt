-- ===== src/Process/NewStack.antt =====
-- `build_stack`: the part of `create_process` in lib/process_manager.c that maps and fills the stack
-- of a new process, and copies the code of a user process.
use raxzus_heap_research.Base.{
  done, Cmd, and_then, ◌>>=◌, ◌>>◌, u32, sub32, ℕ, ◌+◌, ◌-◌, ◌*◌, ◌%◌, ◌^◌, ◌≤◌, ◌<◌, ◌≡◌, ap, ◌∙◌,
  ◌⊎◌, true, false, [], ◌∷◌, ◌++◌, arith,
}
use raxzus_heap_research.Pmm.{get_next_free_process_frame}
use raxzus_heap_research.Pmm.Alloc.{Claimed}
use raxzus_heap_research.Machine.{Layout, Machine, to_virt, with_frames}
use raxzus_heap_research.Machine.Access.{with_frames-done}
use raxzus_heap_research.Machine.Bytes.{byte, word_base}
use raxzus_heap_research.Paging.{page_kernel, page_user, map_page}
use raxzus_heap_research.Paging.Present.{PageMapped}
use raxzus_heap_research.Process.Create.{
  proc_stack_virt, proc_stack_size, proc_code_virt, frame_of_user, popa_frame, push_words,
  copy_code, build_stack,
}
use raxzus_heap_research.Process.Frame.{Holds, new_stack_lem}
use raxzus_heap_research.Process.CopyCode.{byte_of, copy_code_lem}

-- The value that the first of two parts returns is what the second starts from.
in_order :
    {A B : Type 0} (p : Cmd Machine A) (rest : A → Cmd Machine B) (m : Machine) {t u : Machine}
    {a : A} {b : B}
    → p m ≡ done a t
    → rest a t ≡ done b u
    → (p >>= rest) m ≡ done b u
in_order p rest m e f = ap (λ r. and_then r rest) e ∙ f

-- The five calls for a user process.
user_steps :
    (l : Layout) (proc_dir stack_phys func code_phys sp : ℕ) (m m1 m2 m3 m4 m5 : Machine)
    → map_page l proc_dir proc_stack_virt stack_phys page_user m ≡ done tt m1
    → with_frames get_next_free_process_frame m1 ≡ done code_phys m2
    → map_page l proc_dir proc_code_virt code_phys page_user m2 ≡ done tt m3
    → copy_code l 4096 0 (to_virt code_phys) func m3 ≡ done tt m4
    → push_words l (u32 (to_virt stack_phys + proc_stack_size)) (frame_of_user ++ popa_frame) m4
      ≡ done sp m5
    → build_stack l proc_dir stack_phys func true m ≡ done sp m5
unfolding build_stack
user_steps l proc_dir stack_phys func code_phys sp m m1 m2 m3 m4 m5 e1 e2 e3 e4 e5 =
    let push =
      push_words l (u32 (to_virt stack_phys + proc_stack_size)) (frame_of_user ++ popa_frame) in
    let copy_then = λ (c : ℕ). copy_code l 4096 0 (to_virt c) func >> push in
    let enter_then = λ (c : ℕ). map_page l proc_dir proc_code_virt c page_user >> copy_then c in
    let stack_page = map_page l proc_dir proc_stack_virt stack_phys page_user in
    in_order stack_page (λ _. with_frames get_next_free_process_frame >>= enter_then) m e1
      (in_order (with_frames get_next_free_process_frame) enter_then m1 e2 (
        in_order (map_page l proc_dir proc_code_virt code_phys page_user) (λ _. copy_then code_phys)
          m2 e3 (in_order (copy_code l 4096 0 (to_virt code_phys) func) (λ _. push) m3 e4 e5)))

module _ (l : Layout) (m : Machine) (dir stack_phys : ℕ) (fits : stack_phys + 4096 < 2 ^ 30) where
  -- Once `map_page` has entered the stack's frame, the stack of a kernel process is built: from the
  -- saved stack pointer up to the end of the frame lie eight zero registers, the function, the kernel's
  -- code segment and the flags, from which the process is entered, and nothing else is written.
  pub build_kernel_stack_lem :
      (func : ℕ)
      (mapped : PageMapped m dir proc_stack_virt stack_phys
        (map_page l (to_virt dir) proc_stack_virt stack_phys page_kernel m))
      → (m' : Machine) × (sp : ℕ) × (build_stack l (to_virt dir) stack_phys func false m
          ≡ done sp m')
        × (sub32 sp (to_virt stack_phys) ≡ 4096 - 44)
        × Holds m'.ram
            (stack_phys + (4096 - 44))
            (0 ∷ 0 ∷ 0 ∷ 0 ∷ 0 ∷ 0 ∷ 0 ∷ 0 ∷ func ∷ 0x08 ∷ 0x202 ∷ [])
        × ((a : ℕ)
            → (a < stack_phys + (4096 - 44)) ⊎ (stack_phys + 4096 ≤ a)
            → m'.ram a ≡ mapped.after.ram a)
  unfolding build_stack
  build_kernel_stack_lem func mapped =
      let (m', sp, returns, at, holds, kept) =
        new_stack_lem l mapped.after stack_phys func false fits in
      (m', sp, rw mapped.returns returns, at, holds, kept)

  -- Once `map_page` has entered the stack's frame and the next free frame for the code, the stack of a
  -- user process is built: the frame for the code holds the 4096 bytes of the function, from the saved
  -- stack pointer up to the end of the stack's frame lie eight zero registers, the address of the code
  -- page, the user's code segment, the flags, and the user's stack with its segment, and nothing else
  -- is written.
  pub build_user_stack_lem :
      (func k : ℕ)
      (stack : PageMapped m dir proc_stack_virt stack_phys
        (map_page l (to_virt dir) proc_stack_virt stack_phys page_user m))
      (claimed : Claimed stack.after.frames k (get_next_free_process_frame stack.after.frames))
      (code : PageMapped
        (record stack.after { frames = claimed.after })
        dir
        proc_code_virt
        (k * 4096)
        (map_page l
          (to_virt dir)
          proc_code_virt
          (k * 4096)
          page_user
          (record stack.after { frames = claimed.after })))
      → k * 4096 + 4096 ≤ 2 ^ 30
      → func + 4096 ≤ 2 ^ 30
      → (func + 4096 ≤ k * 4096) ⊎ (k * 4096 + 4096 ≤ func)
      → (stack_phys + 4096 ≤ k * 4096) ⊎ (k * 4096 + 4096 ≤ stack_phys)
      → (m' : Machine) × (sp : ℕ) × (build_stack l (to_virt dir) stack_phys (to_virt func) true m
          ≡ done sp m')
        × (sub32 sp (to_virt stack_phys) ≡ 4096 - 52)
        × Holds m'.ram
            (stack_phys + (4096 - 52))
            (0 ∷ 0 ∷ 0 ∷ 0 ∷ 0 ∷ 0 ∷ 0 ∷ 0 ∷ 0x10000000 ∷ 0x1B ∷ 0x202 ∷ 0xC0000000 ∷ 0x23 ∷ [])
        × ((j : ℕ) → j < 4096 → byte_of m'.ram (k * 4096 + j) ≡ byte_of code.after.ram (func + j))
        × ((a : ℕ)
            → (a < k * 4096) ⊎ (k * 4096 + 4096 ≤ a)
            → (a < stack_phys + (4096 - 52)) ⊎ (stack_phys + 4096 ≤ a)
            → m'.ram a ≡ code.after.ram a)
  build_user_stack_lem func k stack claimed code code_fits func_fits apart apart' =
      let (m1, copies, frames, copied, below, others) =
        copy_code_lem l 4096 4096 0 (k * 4096) func code.after (omega arith) (omega arith)
          (omega arith) code_fits func_fits apart in
      let (m', sp, returns, at, holds, kept) =
        new_stack_lem l m1 stack_phys (to_virt func) true fits in
      let taken = with_frames-done get_next_free_process_frame stack.after claimed.returns in
      (
        m',
        sp,
        user_steps l (to_virt dir) stack_phys (to_virt func) (k * 4096) sp m stack.after
            (record stack.after { frames = claimed.after }) code.after m1 m' stack.returns taken
            code.returns copies returns,
        at,
        holds,
        (λ j h.
            let w = word_base (k * 4096 + j) in
            ap (λ t. byte t ((k * 4096 + j) % 4)) (kept w (ground arith))
            ∙ copied j (omega arith) h),
        λ a off off'. kept a off' ∙ others a off,
      )
