-- ===== src/Process/Rounds.antt =====
-- The rounds of the scheduler of lib/process_manager.c: it always finds a process that is awake.
use mathlib.Core.Bool.{false≢true}
use raxzus_heap_research.Base.{
  ◌==◌, if◌then◌else◌, eq→==, ne→==, Bool-cases, eq-or-ne, Run, done, ℕ, zero, suc, ◌+◌, ◌≤◌, ◌<◌,
  ◌≡◌, refl, sym, ap, ◌∙◌, subst, ◌≢◌, inl, inr, true, false, List, [], ◌∷◌, arith,
}
use raxzus_heap_research.Heap.Chain.{has}
use raxzus_heap_research.Process.Schedule.{
  Pcb, Scheduler, sleeps, successor, tick, visit, schedule_loop,
}

-- The control blocks from `p` to the end of the list.
pub data Pcbs (pcbs : ℕ → Pcb) : ℕ → List ℕ → Type 0 where
  end : Pcbs pcbs 0 []
  link : {p : ℕ} {ps : List ℕ} → p ≢ 0 → Pcbs pcbs (pcbs p).next_pcb ps → Pcbs pcbs p (p ∷ ps)

-- The ticks that the processes of a list sleep altogether.
abbrev pub asleep : Pcb → ℕ
asleep p = if sleeps p then p.sleep_time else 0

abbrev pub total_sleep : (ℕ → Pcb) → List ℕ → ℕ
total_sleep pcbs [] = 0
total_sleep pcbs (p ∷ ps) = asleep (pcbs p) + total_sleep pcbs ps

-- Every process of `ps` is a control block, and is followed by one of them.
pub record IsRound (s : Scheduler) (ps : List ℕ) : Type 0 where
  pub not_null : (p : ℕ) → has p ps ≡ true → p ≢ 0
  pub closed : (p : ℕ) → has p ps ≡ true → has (successor s p) ps ≡ true

-- What a tick does to a control block.
tick_lem :
    (p : Pcb)
    → ((tick p).next_pcb ≡ p.next_pcb)
      × ((tick p).kernel_stack_top ≡ p.kernel_stack_top)
      × (asleep (tick p) ≤ asleep p)
      × (sleeps (tick p) ≡ true → asleep (tick p) < asleep p)
tick_lem p = elim (Bool-cases (sleeps p)) [
  | inl s ↦ rw s (refl, refl, ground arith, λ h. ground arith)
  | inr a ↦
      let same : p ≡ tick p = rw a refl in
      subst
        (λ t.
          (t.next_pcb ≡ p.next_pcb)
          × (t.kernel_stack_top ≡ p.kernel_stack_top)
          × (asleep t ≤ asleep p)
          × (sleeps t ≡ true → asleep t < asleep p))
        same (refl, refl, omega arith, λ h. absurd (false≢true (sym a ∙ h)))
]

-- A visit keeps the list and the stacks, and nobody sleeps longer.
pub record Visited (before after : Pcb) : Type 0 where
  pub kept_next : after.next_pcb ≡ before.next_pcb
  pub kept_stack : after.kernel_stack_top ≡ before.kernel_stack_top
  pub no_longer : asleep after ≤ asleep before

visit-Visited : (s : Scheduler) (p q : ℕ) → Visited (s.pcbs q) ((visit p s).pcbs q)
visit-Visited s p q = elim (eq-or-ne p q) [
  | inl e ↦
      rw (eq→== p q e, e)
        (let (a, b, c, d) = tick_lem (s.pcbs q) in
          record { kept_next = a; kept_stack = b; no_longer = c })
  | inr ne ↦
      rw (ne→== p q ne) (record { kept_next = refl; kept_stack = refl; no_longer = omega arith })
]

successor_kept : (s : Scheduler) (p q : ℕ) → successor (visit p s) q ≡ successor s q
successor_kept s p q =
    ap (λ (n : ℕ). if n == 0 then s.process_lists else n) (visit-Visited s p q).kept_next

IsRound-visit : {s : Scheduler} {ps : List ℕ} (p : ℕ) → IsRound s ps → IsRound (visit p s) ps
IsRound-visit {s} {ps} p round = record {
  not_null = round.not_null;
  closed = λ q i. subst (λ t. has t ps ≡ true) (sym (successor_kept s p q)) (round.closed q i);
}

total_sleep-visit :
    (s : Scheduler) (p : ℕ) (ps : List ℕ) → total_sleep (visit p s).pcbs ps ≤ total_sleep s.pcbs ps
total_sleep-visit s p [] = omega arith
total_sleep-visit s p (q ∷ ps) =
    omega (arith, (visit-Visited s p q).no_longer, total_sleep-visit s p ps)

pub visit_here : (s : Scheduler) (p : ℕ) → (visit p s).pcbs p ≡ tick (s.pcbs p)
visit_here s p = rw (eq→== p p refl) refl

visit_lt :
    (s : Scheduler) (p : ℕ)
    → sleeps ((visit p s).pcbs p) ≡ true
    → asleep ((visit p s).pcbs p) < asleep (s.pcbs p)
visit_lt s p h =
    let (a, b, c, less) = tick_lem (s.pcbs p) in
    subst (λ t. asleep t < asleep (s.pcbs p)) (sym (visit_here s p))
      (less (subst (λ t. sleeps t ≡ true) (visit_here s p) h))

-- A visit after which the process still sleeps brings the total down.
total_sleep-lt :
    (s : Scheduler) (p : ℕ) (ps : List ℕ)
    → has p ps ≡ true
    → sleeps ((visit p s).pcbs p) ≡ true
    → total_sleep (visit p s).pcbs ps < total_sleep s.pcbs ps
total_sleep-lt s p [] i h = absurd (false≢true i)
total_sleep-lt s p (q ∷ ps) i h = elim (eq-or-ne p q) [
  | inl e ↦
      let here : asleep ((visit p s).pcbs q) < asleep (s.pcbs q) =
        subst (λ t. asleep ((visit p s).pcbs t) < asleep (s.pcbs t)) e (visit_lt s p h) in
      omega (arith, here, total_sleep-visit s p ps)
  | inr ne ↦
      omega
        (arith, (visit-Visited s p q).no_longer, total_sleep-lt s p ps (rw (ne→== p q ne) at i) h)
]

-- The outcome of the loop: a process of the round that is awake is the next one; nobody sleeps
-- longer than before, and the list and the stacks are as they were.
pub record Scheduled (s : Scheduler) (ps : List ℕ) (r : Run Scheduler ℕ) : Type 0 where
  pub chosen : ℕ
  pub after : Scheduler
  pub returns : r ≡ done chosen after
  pub in_round : has chosen ps ≡ true
  pub is_next : after.next_process ≡ chosen
  pub awake : sleeps (after.pcbs chosen) ≡ false
  pub visited : (q : ℕ) → Visited (s.pcbs q) (after.pcbs q)

Visited-trans : {a b c : Pcb} → Visited a b → Visited b c → Visited a c
Visited-trans v w = record {
  kept_next = w.kept_next ∙ v.kept_next;
  kept_stack = w.kept_stack ∙ v.kept_stack;
  no_longer = (let x = v.no_longer in let y = w.no_longer in omega arith);
}

pub schedule_loop-Scheduled :
    (rounds sim_current : ℕ) (s : Scheduler) (ps : List ℕ)
    → IsRound s ps
    → has sim_current ps ≡ true
    → total_sleep s.pcbs ps < rounds
    → Scheduled s ps (schedule_loop rounds sim_current s)
unfolding schedule_loop
schedule_loop-Scheduled zero sim_current s ps round i enough = absurd (omega arith)
schedule_loop-Scheduled (suc rounds) sim_current s ps round i enough =
    let p = successor s sim_current in
    let s' = visit p s in
    let j = round.closed sim_current i in
    let a = ne→== sim_current 0 (round.not_null sim_current i) in
    let b = ne→== p 0 (round.not_null p j) in
    elim (Bool-cases (sleeps (s'.pcbs p))) [
      | inl still ↦
          let rest =
            schedule_loop-Scheduled rounds p s' ps (IsRound-visit p round) j
              (let less = total_sleep-lt s p ps j still in omega arith) in
          rw (a, b, still)
            (record {
              chosen = rest.chosen;
              after = rest.after;
              returns = rest.returns;
              in_round = rest.in_round;
              is_next = rest.is_next;
              awake = rest.awake;
              visited = λ q. Visited-trans (visit-Visited s p q) (rest.visited q);
            })
      | inr awake ↦
          rw (a, b, awake)
            (record {
              chosen = p;
              after = s';
              returns = refl;
              in_round = j;
              is_next = refl;
              awake = awake;
              visited = visit-Visited s p;
            })
    ]
