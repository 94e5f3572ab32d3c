-- ===== src/Process/Append.antt =====
-- The list of processes that `create_process` of lib/process_manager.c extends at its end.
use raxzus_heap_research.Machine.{Layout, Machine, load, store}
use raxzus_heap_research.Base.{
  ◌==◌, eq→==, ne→==, eq-or-ne, length, done, Cmd, and_then, pure, u32, ℕ, zero, suc, ◌+◌, ◌%◌, ◌^◌,
  ◌≤◌, ◌<◌, ◌≡◌, refl, sym, ap, ◌∙◌, ◌≢◌, ◌⊎◌, inl, inr, true, false, Option, some, List, [], ◌∷◌,
  ◌++◌, arith,
}
use raxzus_heap_research.Machine.Access.{kernel_base, peek, IsApart, load-peek, store-Written}
use raxzus_heap_research.Heap.Domain.{null}
use raxzus_heap_research.Heap.Chain.{View, has}
use raxzus_heap_research.Process.Create.{
  Processes, offset_next, offset_prev, pcb_size, last_process, append_process,
}

-- From the first block on, the fields `next` lead through the blocks of the list, and the last one
-- is NULL.
pub data Listed (view : View) : ℕ → List ℕ → Type 0 where
  only :
      {p : ℕ}
      → p + pcb_size ≤ kernel_base
      → view (p + offset_next) ≡ some null
      → Listed view p (p ∷ [])
  link :
      {p q : ℕ} {ps : List ℕ}
      → p + pcb_size ≤ kernel_base
      → view (p + offset_next) ≡ some q
      → q ≢ null
      → Listed view q ps
      → Listed view p (p ∷ ps)

abbrev pub last_of : ℕ → List ℕ → ℕ
last_of p [] = p
last_of p (q ∷ ps) = last_of q ps

same_link : {v : Option ℕ} {p q : ℕ} → v ≡ some p → v ≡ some q → p ≡ q
same_link e e' = cc

-- The last block of a list is on it, and its `next` is NULL.
Listed-last :
    {view : View} {p : ℕ} {ps : List ℕ} (d : ℕ)
    → Listed view p ps
    → let z = last_of d ps in
      (has z ps ≡ true) × (z + pcb_size ≤ kernel_base) × (view (z + offset_next) ≡ some null)
Listed-last d (only {p} fits e) = (rw (eq→== p p refl) refl, fits, e)
Listed-last d (link {p} fits e ne s) =
    let (on, fits', last) = Listed-last p s in (ground arith, fits', last)

Listed-fits :
    {view : View} {p : ℕ} {ps : List ℕ} (q : ℕ)
    → Listed view p ps
    → has q ps ≡ true
    → q + pcb_size ≤ kernel_base
Listed-fits q (only {p} fits e) on = let same : q ≡ p = ground arith in omega arith
Listed-fits q (link {p} fits e ne s) on = elim (eq-or-ne q p) [
  | inl same ↦ omega arith
  | inr other ↦ Listed-fits q s (ground arith)
]

-- A list whose last block is given a successor goes on there.
Listed-append :
    {view view' : View} {p n : ℕ} {ps ns : List ℕ} (z : ℕ)
    → Listed view p ps
    → has z ps ≡ true
    → view (z + offset_next) ≡ some null
    → view' (z + offset_next) ≡ some n
    → ((q : ℕ) → has q ps ≡ true → q ≢ z → view' (q + offset_next) ≡ view (q + offset_next))
    → n ≢ null
    → Listed view' n ns
    → Listed view' p (ps ++ ns)
Listed-append {view} {view'} z (only {p} fits e) on last at_z kept ne rest =
    let same : z ≡ p = ground arith in
    link fits (ap (λ t. view' (t + offset_next)) (sym same) ∙ at_z) ne rest
Listed-append {view} {view'} z (link {p} {q} fits e ne' s) on last at_z kept ne rest =
    let other : p ≢ z = λ same. ne' (same_link e (ap (λ t. view (t + offset_next)) same ∙ last)) in
    link fits (kept p (rw (eq→== p p refl) refl) other ∙ e) ne'
      (Listed-append z s (ground arith) last at_z (λ t i. kept t (ground arith)) ne rest)

module _ (l : Layout) where
  reads_next :
      (current following : ℕ) (m : Machine)
      → current + pcb_size ≤ kernel_base
      → peek l m.ram (current + offset_next) ≡ some following
      → load l (u32 (current + offset_next)) m ≡ done following m
  reads_next current following m fits e =
      let at : u32 (current + offset_next) ≡ current + offset_next = omega arith in
      rw at (load-peek l m (current + offset_next) following e)

  -- What the walk does with the link that it has read.
  abbrev goes_on : (rounds current following : ℕ) → Cmd Machine ℕ
  goes_on rounds current following = elim (following == 0) [
    | true ↦ pure current
    | false ↦ last_process l rounds following
  ]

  walk_step :
      (rounds current following : ℕ) (m : Machine)
      → load l (u32 (current + offset_next)) m ≡ done following m
      → last_process l (suc rounds) current m ≡ goes_on rounds current following m
  unfolding last_process
  walk_step rounds current following m e = ap (λ r. and_then r (goes_on rounds current)) e

  -- The walk ends at the last block, within as many rounds as there are blocks.
  last_process_lem :
      (rounds d p : ℕ) (ps : List ℕ) (m : Machine)
      → Listed (peek l m.ram) p ps
      → length ps ≤ rounds
      → last_process l rounds p m ≡ done (last_of d ps) m
  last_process_lem zero d p ps m (only fits e) enough = absurd (omega arith)
  last_process_lem zero d p ps m (link fits e ne s) enough = absurd (omega arith)
  last_process_lem (suc rounds) d p ps m (only fits e) enough =
      walk_step rounds p null m (reads_next p null m fits e)
  last_process_lem (suc rounds) d p ps m (link {q = q} fits e ne s) enough =
      walk_step rounds p q m (reads_next p q m fits e)
      ∙ rw (goes_on, ne→== q 0 ne) (last_process_lem rounds p q _ m s (omega arith))

  set_field_done :
      (pcb field value : ℕ) (m m' : Machine)
      → pcb + field < 2 ^ 32
      → store l (pcb + field) value m ≡ done tt m'
      → store l (u32 (pcb + field)) value m ≡ done tt m'
  set_field_done pcb field value m m' low e =
      let at : u32 (pcb + field) ≡ pcb + field = omega arith in rw at e

  -- The end of the list is found and the two links are written.
  appends :
      (rounds n z : ℕ) (s : Processes) (m1 m2 : Machine)
      → s.current_index ≢ 0
      → last_process l rounds s.process_lists s.kernel.machine ≡ done z s.kernel.machine
      → store l (u32 (z + offset_next)) n s.kernel.machine ≡ done tt m1
      → store l (u32 (n + offset_prev)) z m1 ≡ done tt m2
      → append_process l rounds n s
        ≡ done tt (record s {
          kernel = record s.kernel { machine = m2 };
          current_index = (s.current_index + 1) % 2 ^ 16;
        })
  unfolding append_process
  appends rounds n z s m1 m2 started found linked back =
      rw (ne→== s.current_index 0 started, found, linked, back) refl

  -- With a first process there, a new block that is zero at both links is appended: the list goes on
  -- with it, its `prev` is the block that was the last, and nothing but the two links changes.
  pub append_process_lem :
      (rounds n old : ℕ) (ps : List ℕ) (s : Processes)
      → s.current_index ≢ 0
      → IsApart l s.kernel.machine.ram
      → Listed (peek l s.kernel.machine.ram) s.process_lists ps
      → length ps ≤ rounds
      → n ≢ null
      → n + pcb_size ≤ kernel_base
      → peek l s.kernel.machine.ram (n + offset_next) ≡ some null
      → peek l s.kernel.machine.ram (n + offset_prev) ≡ some old
      → ((q : ℕ) → has q ps ≡ true → (q + pcb_size ≤ n) ⊎ (n + pcb_size ≤ q))
      → let z = last_of null ps in
        (m : Machine) × (append_process l rounds n s
          ≡ done tt (record s {
            kernel = record s.kernel { machine = m };
            current_index = (s.current_index + 1) % 2 ^ 16;
          }))
        × Listed (peek l m.ram) s.process_lists (ps ++ n ∷ [])
        × (peek l m.ram (n + offset_prev) ≡ some z)
        × (m.frames ≡ s.kernel.machine.frames)
        × IsApart l m.ram
        × ((a : ℕ)
            → a < kernel_base
            → a ≢ z + offset_next
            → a ≢ n + offset_prev
            → peek l m.ram a ≡ peek l s.kernel.machine.ram a)
  append_process_lem rounds n old ps s started apart listed enough ne fits zero_next at_prev clear =
      let m0 = s.kernel.machine in
      let z = last_of null ps in
      let (on, fits_z, last) = Listed-last null listed in
      let away = clear z on in
      let w = store-Written l m0 (z + offset_next) null n apart (omega arith) last in
      let prev_kept : peek l w.after.ram (n + offset_prev) ≡ some old =
        w.view (n + offset_prev) (omega arith)
        ∙ rw (ne→== (z + offset_next) (n + offset_prev) (omega arith)) at_prev in
      let v = store-Written l w.after (n + offset_prev) old z w.apart (omega arith) prev_kept in
      let kept : (a : ℕ)
          → a < kernel_base
          → a ≢ z + offset_next
          → a ≢ n + offset_prev
          → peek l v.after.ram a ≡ peek l m0.ram a =
        λ a below other other'.
          v.view a below
          ∙ rw (ne→== (n + offset_prev) a (λ e. other' (sym e)))
              (w.view a below ∙ rw (ne→== (z + offset_next) a (λ e. other (sym e))) refl) in
      let at_z : peek l v.after.ram (z + offset_next) ≡ some n =
        v.view (z + offset_next) (omega arith)
        ∙ rw (ne→== (n + offset_prev) (z + offset_next) (omega arith))
            (w.view (z + offset_next) (omega arith) ∙ rw (eq→== (z + offset_next) _ refl) refl) in
      (
        v.after,
        appends rounds n z s w.after v.after started
            (last_process_lem rounds null s.process_lists ps m0 listed enough)
            (set_field_done z offset_next n m0 w.after (omega arith) w.returns)
            (set_field_done n offset_prev z w.after v.after (omega arith) v.returns),
        Listed-append z listed on last at_z
            (λ q i other.
              let c = clear q i in
              let f = Listed-fits q listed i in
              kept (q + offset_next) (omega arith) (omega arith) (omega arith))
            ne
            (only fits
              (kept (n + offset_next) (omega arith) (omega arith) (omega arith) ∙ zero_next)),
        v.view (n + offset_prev) (omega arith) ∙ rw (eq→== (n + offset_prev) _ refl) refl,
        v.frames ∙ w.frames,
        v.apart,
        kept,
      )
