-- ===== src/Heap/NewPage.antt =====
-- What `map_page` of lib/pmm.c makes of the memory that lib/heap_domain.c sees: one more page of data,
-- apart from the page tables.
use raxzus_heap_research.Base.{
  eq-or-ne, page_base, update, ℕ, ◌+◌, ◌/◌, ◌%◌, ◌<◌, ◌≡◌, sym, ◌∙◌, ◌≢◌, inl, inr, true, some,
  arith,
}
use raxzus_heap_research.Machine.{Layout, to_phys, is_present, resolve}
use raxzus_heap_research.Machine.Access.{kernel_base, pde_at, pte_at, IsApart, resolve-user}
use raxzus_heap_research.Paging.Present.{
  pte, IsTables, pte_kept, present_kept, entered_here, entered_elsewhere,
}

-- A frame that no mapped address and no walk of the kernel's directory reaches.
pub record IsUnused (l : Layout) (ram : ℕ → ℕ) (phys : ℕ) : Type 0 where
  pub off_directory : (o w : ℕ) → o < 4096 → w < kernel_base → phys + o ≢ pde_at l w
  pub off_tables :
      (o w : ℕ)
      → o < 4096
      → w < kernel_base
      → is_present (ram (pde_at l w)) ≡ true
      → phys + o ≢ pte_at l ram w
  pub unmapped :
      (o v pa : ℕ) → o < 4096 → v < kernel_base → resolve l ram v ≡ some pa → phys + o ≢ pa

module _ (l : Layout) (ram : ℕ → ℕ) (virt phys word : ℕ)
    (ok : IsTables ram (to_phys l.kernel_page_dir)) (user : virt < kernel_base)
    (present : is_present (ram (pde_at l virt)) ≡ true) (odd : word % 2 ≡ 1)
    (base : page_base word ≡ phys) where
  abbrev kdir : ℕ
  kdir = to_phys l.kernel_page_dir

  abbrev pub paged : ℕ → ℕ
  paged = update ram (pte ram kdir virt) word

  pub here :
      (v : ℕ)
      → v < kernel_base
      → v / 4096 ≡ virt / 4096
      → resolve l paged v ≡ some (phys + v % 4096)
  here v h e =
      resolve-user l paged v h
      ∙ entered_here ram kdir virt word ok (omega arith) present v phys (omega arith) e odd base

  pub elsewhere :
      (v : ℕ) → v < kernel_base → v / 4096 ≢ virt / 4096 → resolve l paged v ≡ resolve l ram v
  elsewhere v h ne =
      resolve-user l paged v h
      ∙ entered_elsewhere ram kdir virt word ok (omega arith) present v (omega arith) ne
      ∙ sym (resolve-user l ram v h)

  -- Where a mapped address leads: into the new page, or where it did.
  data Leads (v pa : ℕ) : Type 0 where
    new : v / 4096 ≡ virt / 4096 → phys + v % 4096 ≡ pa → Leads v pa
    old : v / 4096 ≢ virt / 4096 → resolve l ram v ≡ some pa → Leads v pa

  leads : (v pa : ℕ) → v < kernel_base → resolve l paged v ≡ some pa → Leads v pa
  leads v pa h e = elim (eq-or-ne (v / 4096) (virt / 4096)) [
    | inl same ↦ new same (some-injective (sym (here v h same) ∙ e))
    | inr ne ↦ old ne (sym (elsewhere v h ne) ∙ e)
  ]
    where
      some-injective : {a b : ℕ} → some a ≡ some b → a ≡ b
      some-injective q = cc

  module _ (apart : IsApart l ram) (unused : IsUnused l ram phys) where
    same_pte_at : (w : ℕ) → w < kernel_base → pte_at l paged w ≡ pte_at l ram w
    same_pte_at w h = pte_kept ram kdir virt word ok (omega arith) present w (omega arith)

    was_present :
        (w : ℕ)
        → w < kernel_base
        → is_present (paged (pde_at l w)) ≡ true
        → is_present (ram (pde_at l w)) ≡ true
    was_present w h p = present_kept ram kdir virt word ok (omega arith) present w (omega arith) p

    off_directory_new :
        (v w pa : ℕ) → v < kernel_base → w < kernel_base → Leads v pa → pa ≢ pde_at l w
    off_directory_new v w pa h h' (new same e) q =
        unused.off_directory (v % 4096) w (omega arith) h' (e ∙ q)
    off_directory_new v w pa h h' (old ne e) q = apart.off_directory v w pa h h' e q

    off_tables_new :
        (v w pa : ℕ)
        → v < kernel_base
        → w < kernel_base
        → Leads v pa
        → is_present (paged (pde_at l w)) ≡ true
        → pa ≢ pte_at l paged w
    off_tables_new v w pa h h' (new same e) p q =
        unused.off_tables (v % 4096) w (omega arith) h' (was_present w h' p)
          (e ∙ q ∙ same_pte_at w h')
    off_tables_new v w pa h h' (old ne e) p q =
        apart.off_tables v w pa h h' e (was_present w h' p) (q ∙ same_pte_at w h')

    injective_new :
        (v w pa : ℕ) → v < kernel_base → w < kernel_base → Leads v pa → Leads w pa → v ≡ w
    injective_new v w pa h h' (new s e) (new s' e') = omega arith
    injective_new v w pa h h' (new s e) (old ne' e') =
        absurd (unused.unmapped (v % 4096) w pa (omega arith) h' e' e)
    injective_new v w pa h h' (old ne e) (new s' e') =
        absurd (unused.unmapped (w % 4096) v pa (omega arith) h e e')
    injective_new v w pa h h' (old ne e) (old ne' e') = apart.injective v w pa h h' e e'

    -- The data with the new page lies apart from the page tables, as before.
    pub IsApart-paged : IsApart l paged
    IsApart-paged = record {
      off_directory = λ v w pa h h' e. off_directory_new v w pa h h' (leads v pa h e);
      off_tables = λ v w pa h h' e p. off_tables_new v w pa h h' (leads v pa h e) p;
      injective = λ v w pa h h' e e'. injective_new v w pa h h' (leads v pa h e) (leads w pa h' e');
    }
