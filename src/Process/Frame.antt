-- ===== src/Process/Frame.antt =====
-- The stack that `create_process` of lib/process_manager.c leaves, read back by `popa` and `iret`.
use mathlib.Core.List.{reverse, reverse-cons}
use raxzus_heap_research.Base.{
  if◌then◌else◌, eq→==, ne→==, if_cases, length, length-reverse, done, u32, sub32, update, ℕ, ◌+◌,
  ◌-◌, ◌*◌, ◌^◌, ◌≤◌, ◌<◌, ◌≡◌, refl, sym, ap, ◌∙◌, subst, ◌⊎◌, inr, Bool, true, false, List, [],
  ◌∷◌, ◌++◌, arith,
}
use raxzus_heap_research.Machine.{Layout, Machine, to_virt, store}
use raxzus_heap_research.Paging.Present.{store_direct}
use raxzus_heap_research.Process.Create.{
  proc_stack_virt, proc_stack_size, proc_code_virt, frame_of_user, frame_of_kernel, popa_frame,
  push_words,
}

-- The words from an address in the direct map on.
abbrev pub Holds : (ℕ → ℕ) → ℕ → List ℕ → Type 0
Holds ram pa [] = Unit {0}
Holds ram pa (word ∷ words) = (ram pa ≡ word) × Holds ram (pa + 4) words

Holds-append :
    (ram : ℕ → ℕ) (xs : List ℕ) (word pa : ℕ)
    → Holds ram pa xs
    → ram (pa + 4 * length xs) ≡ word
    → Holds ram pa (xs ++ word ∷ [])
Holds-append ram [] word pa h e = (ap ram (omega arith) ∙ e, tt)
Holds-append ram (x ∷ xs) word pa (here, rest) e =
    (here, Holds-append ram xs word (pa + 4) rest (ap ram (omega arith) ∙ e))

push_none : (l : Layout) (sp : ℕ) (m : Machine) → push_words l sp [] m ≡ done sp m
unfolding push_words
push_none l sp m = refl

push_one :
    (l : Layout) (word : ℕ) (words : List ℕ) (sp : ℕ) (m : Machine)
    → 0xC0000004 ≤ sp
    → sp < 2 ^ 32
    → push_words l sp (word ∷ words) m
      ≡ push_words l (sp - 4) words (record m { ram = update m.ram (sp - 4 - 0xC0000000) word })
unfolding push_words
push_one l word words sp m high small =
    let below : sub32 sp 4 ≡ sp - 4 = omega arith in
    let whole : sp - 4 ≡ u32 (sp - 4) = omega arith in
    let stored : store l (sp - 4) word m
        ≡ done tt (record m { ram = update m.ram (sp - 4 - 0xC0000000) word }) =
      ap (λ t. store l t word m) whole
      ∙ store_direct l m (sp - 4) (sp - 4 - 0xC0000000) word (omega arith) (omega arith) in
    rw (below, stored) refl

-- What is pushed below a stack pointer in the direct map lies there upwards in reverse order, and
-- nothing else is written.
pub push_words_lem :
    (l : Layout) (words : List ℕ) (sp : ℕ) (m : Machine)
    → 0xC0000000 + 4 * length words ≤ sp
    → sp < 2 ^ 32
    → let sp' = sp - 4 * length words in
      (m' : Machine) × (push_words l sp words m ≡ done sp' m')
      × Holds m'.ram (sp' - 0xC0000000) (reverse words)
      × ((a : ℕ) → (a < sp' - 0xC0000000) ⊎ (sp - 0xC0000000 ≤ a) → m'.ram a ≡ m.ram a)
      × (m'.frames ≡ m.frames)
push_words_lem l [] sp m high small =
    (m, push_none l sp m ∙ ap (λ t. done t m) (omega arith), tt, (λ a o. refl), refl)
push_words_lem l (word ∷ words) sp m high small =
    let top = sp - 4 - 0xC0000000 in
    let m1 : Machine = record m { ram = update m.ram top word } in
    let first = push_one l word words sp m (omega arith) small in
    let (m', returns, holds, kept, frames) =
      push_words_lem l words (sp - 4) m1 (omega arith) (omega arith) in
    let start : sp - 4 * length (word ∷ words) ≡ sp - 4 - 4 * length words = omega arith in
    let there : m'.ram top ≡ word = kept top (inr (omega arith)) ∙ rw (eq→== top top refl) refl in
    (
      m',
      first ∙ returns ∙ ap (λ t. done t m') (sym start),
      rw (reverse-cons word words) (
          Holds-append m'.ram (reverse words) word _
            (subst (λ t. Holds m'.ram (t - 0xC0000000) (reverse words)) (sym start) holds)
            (ap m'.ram (omega (arith, length-reverse words)) ∙ there)),
      (λ a o. kept a (ground arith) ∙ rw (ne→== top a (ground arith)) refl),
      frames,
    )

-- What `popa` and `iret` find on a new stack: eight registers that are 0, the address, the code
-- segment and the flags with interrupts on; a user process has a stack and its segment above them.
abbrev pub entry_words : (func : ℕ) (is_user : Bool) → List ℕ
entry_words func false = 0 ∷ 0 ∷ 0 ∷ 0 ∷ 0 ∷ 0 ∷ 0 ∷ 0 ∷ func ∷ 0x08 ∷ 0x202 ∷ []
entry_words func true =
    0
    ∷ 0
    ∷ 0
    ∷ 0
    ∷ 0
    ∷ 0
    ∷ 0
    ∷ 0
    ∷ proc_code_virt
    ∷ 0x1B
    ∷ 0x202
    ∷ (proc_stack_virt + proc_stack_size)
    ∷ 0x23
    ∷ []

abbrev pub pushed_words : (func : ℕ) (is_user : Bool) → List ℕ
pushed_words func false = frame_of_kernel func ++ popa_frame
pushed_words func true = frame_of_user ++ popa_frame

pushed_words-reverse :
    (func : ℕ) (is_user : Bool)
    → (reverse (pushed_words func is_user) ≡ entry_words func is_user)
      × (length (pushed_words func is_user) ≡ (if is_user then 13 else 11))
pushed_words-reverse func false = (refl, refl)
pushed_words-reverse func true = (refl, refl)

-- The stack of a new process, in a frame of the direct map: from the saved stack pointer up to the
-- end of the frame lie the words from which the process is entered, and nothing else is written.
pub new_stack_lem :
    (l : Layout) (m : Machine) (stack_phys func : ℕ) (is_user : Bool)
    → stack_phys + 4096 < 2 ^ 30
    → let size = 4 * (if is_user then 13 else 11) in
      (m' : Machine) × (sp : ℕ) × (push_words l
          (u32 (to_virt stack_phys + proc_stack_size))
          (pushed_words func is_user)
          m
        ≡ done sp m')
      × (sub32 sp (to_virt stack_phys) ≡ proc_stack_size - size)
      × Holds m'.ram (stack_phys + (proc_stack_size - size)) (entry_words func is_user)
      × ((a : ℕ)
          → (a < stack_phys + (proc_stack_size - size)) ⊎ (stack_phys + proc_stack_size ≤ a)
          → m'.ram a ≡ m.ram a)
new_stack_lem l m stack_phys func is_user fits =
    let words = pushed_words func is_user in
    let top = u32 (to_virt stack_phys + proc_stack_size) in
    let (back, count) = pushed_words-reverse func is_user in
    let few : (if is_user then 13 else 11) ≤ 13 =
      if_cases (λ t. t ≤ 13) is_user 13 11 (λ _. omega arith) (λ _. omega arith) in
    let (m', returns, holds, kept, frames) =
      push_words_lem l words top m (omega arith) (omega arith) in
    let at : top - 4 * length words - 0xC0000000
        ≡ stack_phys + (proc_stack_size - 4 * (if is_user then 13 else 11)) =
      omega arith in
    (
      m',
      top - 4 * length words,
      returns,
      omega arith,
      subst (λ t. Holds m'.ram t (entry_words func is_user)) at
          (subst (Holds m'.ram (top - 4 * length words - 0xC0000000)) back holds),
      λ a o. kept a (ground arith),
    )
