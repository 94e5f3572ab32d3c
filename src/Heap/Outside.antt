-- ===== src/Heap/Outside.antt =====
-- A write to a word that the kernel's page directory does not lead through, such as an entry of a
-- size class's own tables in lib/heap_domain.c.
use raxzus_heap_research.Base.{
  page_base, update, ℕ, ◌+◌, ◌*◌, ◌^◌, ◌≤◌, ◌<◌, ◌≡◌, sym, ap, ◌∙◌, subst, ◌≢◌, true, arith,
}
use raxzus_heap_research.Machine.{Layout, to_phys, table_index, is_present, resolve}
use raxzus_heap_research.Machine.Access.{
  kernel_base, pde_at, pte_at, IsApart, translate-agree, resolve-user,
}
use raxzus_heap_research.Paging.Present.{pde, pte, IsTables}
use raxzus_heap_research.Heap.NewPage.{IsUnused}

-- No walk of the directory at `dir` reads the word at `q`.
pub record IsOutside (ram : ℕ → ℕ) (dir q : ℕ) : Type 0 where
  pub not_directory : (w : ℕ) → w < 2 ^ 32 → q ≢ pde dir w
  pub not_tables : (w : ℕ) → w < 2 ^ 32 → is_present (ram (pde dir w)) ≡ true → q ≢ pte ram dir w

module _ (ram : ℕ → ℕ) (dir q word : ℕ) (out : IsOutside ram dir q) where
  abbrev pub written : ℕ → ℕ
  written = update ram q word

  pde_same : (w : ℕ) → w < 2 ^ 32 → written (pde dir w) ≡ ram (pde dir w)
  pde_same w h = ground (arith, out.not_directory w h)

  pte_same : (w : ℕ) → w < 2 ^ 32 → pte written dir w ≡ pte ram dir w
  pte_same w h = ap (λ t. page_base t + 4 * table_index w) (pde_same w h)

  pub present_same :
      (w : ℕ) → w < 2 ^ 32 → is_present (written (pde dir w)) ≡ is_present (ram (pde dir w))
  present_same w h = ap (λ t. is_present t) (pde_same w h)

  pub IsTables-written : IsTables ram dir → IsTables written dir
  IsTables-written ok = record {
    directory = ok.directory;
    direct = λ v h p.
        subst (λ t. page_base t + 4096 ≤ 2 ^ 30) (sym (pde_same v h))
          (ok.direct v h (sym (present_same v h) ∙ p));
    off_directory = λ v w h h' p e.
        ok.off_directory v w h h' (sym (present_same v h) ∙ p) (sym (pte_same v h) ∙ e);
    disjoint = λ v w h h' p p' e.
        ok.disjoint v w h h' (sym (present_same v h) ∙ p) (sym (present_same w h') ∙ p')
          (sym (pte_same v h) ∙ e ∙ pte_same w h');
  }

module _ (l : Layout) (ram : ℕ → ℕ) (q word : ℕ)
    (out : IsOutside ram (to_phys l.kernel_page_dir) q) where
  abbrev kernel_dir : ℕ
  kernel_dir = to_phys l.kernel_page_dir

  abbrev after : ℕ → ℕ
  after = update ram q word

  pub resolve_same : (v : ℕ) → v < kernel_base → resolve l after v ≡ resolve l ram v
  resolve_same v h =
      resolve-user l after v h
      ∙ translate-agree ram after kernel_dir v (pde_same ram kernel_dir q word out v (omega arith))
          (λ p. ground (arith, out.not_tables v (omega arith) p))
      ∙ sym (resolve-user l ram v h)

  was_present :
      (w : ℕ)
      → w < kernel_base
      → is_present (after (pde_at l w)) ≡ true
      → is_present (ram (pde_at l w)) ≡ true
  was_present w h p = sym (present_same ram kernel_dir q word out w (omega arith)) ∙ p

  pte_at_same : (w : ℕ) → w < kernel_base → pte_at l after w ≡ pte_at l ram w
  pte_at_same w h = pte_same ram kernel_dir q word out w (omega arith)

  pub IsApart-outside : IsApart l ram → IsApart l after
  IsApart-outside apart = record {
    off_directory = λ v w pa h h' e. apart.off_directory v w pa h h' (sym (resolve_same v h) ∙ e);
    off_tables = λ v w pa h h' e p x.
        apart.off_tables v w pa h h' (sym (resolve_same v h) ∙ e) (was_present w h' p)
          (x ∙ pte_at_same w h');
    injective = λ v w pa h h' e e'.
        apart.injective v w pa h h' (sym (resolve_same v h) ∙ e) (sym (resolve_same w h') ∙ e');
  }

  pub IsUnused-outside : (phys : ℕ) → IsUnused l ram phys → IsUnused l after phys
  IsUnused-outside phys unused = record {
    off_directory = unused.off_directory;
    off_tables =
        λ o w h h' p x. unused.off_tables o w h h' (was_present w h' p) (x ∙ pte_at_same w h');
    unmapped = λ o v pa h h' e. unused.unmapped o v pa h h' (sym (resolve_same v h') ∙ e);
  }
