-- ===== src/Process/Next.antt =====
-- `schedule` of lib/process_manager.c on the list of control blocks.
use raxzus_heap_research.Base.{
  eq→==, ne→==, Bool-cases, eq-or-ne, Run, done, ℕ, suc, ◌≤◌, ◌<◌, ◌≡◌, refl, sym, ap, ◌∙◌, subst,
  ◌≢◌, ◌⊎◌, inl, inr, true, false, List, ◌∷◌, arith,
}
use raxzus_heap_research.Heap.Chain.{has}
use raxzus_heap_research.Process.Schedule.{
  Pcb, Scheduler, sleeps, tss_set_kernel_stack, successor, tick, visit, schedule_loop, schedule,
}
use raxzus_heap_research.Process.Rounds.{
  Pcbs, end, link, asleep, total_sleep, IsRound, Visited, visit_here, schedule_loop-Scheduled,
}

module _ {pcbs : ℕ → Pcb} where
  first_of : {h : ℕ} {ps : List ℕ} → Pcbs pcbs h ps → (h ≡ 0) ⊎ (has h ps ≡ true)
  first_of end = inl refl
  first_of (link {p} {ps} ne rest) = inr (ground arith)

  first_in : {h : ℕ} {ps : List ℕ} → Pcbs pcbs h ps → (q : ℕ) → has q ps ≡ true → has h ps ≡ true
  first_in end q i = i
  first_in (link {p} {ps} ne rest) q i = ground arith

  not_null_of : {h : ℕ} {ps : List ℕ} → Pcbs pcbs h ps → (q : ℕ) → has q ps ≡ true → q ≢ 0
  not_null_of end q i = cc
  not_null_of (link {p} {ps} ne rest) q i = elim (eq-or-ne q p) [
    | inl same ↦ (λ z. ne (sym same ∙ z))
    | inr other ↦ not_null_of rest q (ground arith)
  ]

  next_of :
      {h : ℕ} {ps : List ℕ}
      → Pcbs pcbs h ps
      → (q : ℕ) → has q ps ≡ true
      → ((pcbs q).next_pcb ≡ 0) ⊎ (has (pcbs q).next_pcb ps ≡ true)
  next_of end q i = cc
  next_of (link {p} {ps} ne rest) q i = elim (eq-or-ne q p) [
    | inl same ↦
        subst (λ t. ((pcbs t).next_pcb ≡ 0) ⊎ (has (pcbs t).next_pcb (p ∷ ps) ≡ true)) (sym same)
          (elim (first_of rest) [ inl z ↦ inl z | inr j ↦ inr (ground arith) ])
    | inr other ↦ elim (next_of rest q (ground arith)) [
      | inl z ↦ inl z
      | inr j ↦ inr (ground arith)
    ]
  ]

-- A list from `process_lists` on is a round.
list-IsRound : (s : Scheduler) (ps : List ℕ) → Pcbs s.pcbs s.process_lists ps → IsRound s ps
list-IsRound s ps list = record { not_null = not_null_of list; closed = follows }
  where
    follows : (q : ℕ) → has q ps ≡ true → has (successor s q) ps ≡ true
    follows q i = elim (eq-or-ne (s.pcbs q).next_pcb 0) [
      | inl z ↦ rw (eq→== (s.pcbs q).next_pcb 0 z) (first_in list q i)
      | inr ne ↦
          rw (ne→== (s.pcbs q).next_pcb 0 ne)
            (elim (next_of list q i) [ inl z ↦ absurd (ne z) | inr j ↦ j ])
    ]

tick_awake : (p : Pcb) → asleep p ≤ 1 → sleeps (tick p) ≡ false
tick_awake p h = elim (Bool-cases (sleeps p)) [
  | inl s ↦ rw s (ground arith)
  | inr a ↦ let same : p ≡ tick p = rw a refl in subst (λ t. sleeps t ≡ false) same a
]

-- The outcome of a switch: the next process is one of the list and is awake, its kernel stack is
-- the one that the processor will use, the list is as it was, and nobody sleeps longer.
pub record Switched (s : Scheduler) (ps : List ℕ) (r : Run Scheduler (Unit {0})) : Type 0 where
  pub after : Scheduler
  pub returns : r ≡ done tt after
  pub in_list : has after.next_process ps ≡ true
  pub awake : sleeps (after.pcbs after.next_process) ≡ false
  pub stack : after.esp0 ≡ (s.pcbs after.next_process).kernel_stack_top
  pub visited : (q : ℕ) → Visited (s.pcbs q) (after.pcbs q)

-- While the current process is on the list, a number of rounds above the ticks that all processes
-- have left to sleep is enough for `schedule` to return; the next process is then one of the list
-- that is awake, its kernel stack is in the task state, the list is as it was, and nobody sleeps
-- longer.
pub schedule-Switched :
    (rounds : ℕ) (s : Scheduler) (ps : List ℕ)
    → Pcbs s.pcbs s.process_lists ps
    → has s.current_process ps ≡ true
    → total_sleep s.pcbs ps < rounds
    → Switched s ps (schedule rounds s)
unfolding schedule
schedule-Switched rounds s ps list here enough =
    let r =
      schedule_loop-Scheduled rounds s.current_process s ps (list-IsRound s ps list) here enough in
    let next : r.chosen ≡ r.after.next_process = sym r.is_next in
    record {
      after = tss_set_kernel_stack (r.after.pcbs r.chosen).kernel_stack_top r.after;
      returns = rw r.returns refl;
      in_list = subst (λ t. has t ps ≡ true) next r.in_round;
      awake = subst (λ t. sleeps (r.after.pcbs t) ≡ false) next r.awake;
      stack = (r.visited r.chosen).kept_stack ∙ ap (λ t. (s.pcbs t).kernel_stack_top) next;
      visited = r.visited;
    }

-- With the current process on the list, and the process behind it awake or in its last tick, one
-- round is enough and that process is next.
schedule_next :
    (rounds : ℕ) (s : Scheduler) (ps : List ℕ)
    → Pcbs s.pcbs s.process_lists ps
    → has s.current_process ps ≡ true
    → asleep (s.pcbs (successor s s.current_process)) ≤ 1
    → (g : Scheduler) × (schedule (suc rounds) s ≡ done tt g)
      × (g.next_process ≡ successor s s.current_process)
unfolding schedule schedule_loop
schedule_next rounds s ps list here short =
    let p = successor s s.current_process in
    let round = list-IsRound s ps list in
    let a = ne→== s.current_process 0 (round.not_null s.current_process here) in
    let b = ne→== p 0 (round.not_null p (round.closed s.current_process here)) in
    let awake : sleeps ((visit p s).pcbs p) ≡ false =
      subst (λ t. sleeps t ≡ false) (sym (visit_here s p)) (tick_awake (s.pcbs p) short) in
    (
      tss_set_kernel_stack ((visit p s).pcbs p).kernel_stack_top (visit p s),
      rw (a, b, awake) refl,
      refl,
    )
