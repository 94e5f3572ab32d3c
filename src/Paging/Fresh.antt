-- ===== src/Paging/Fresh.antt =====
-- `map_page` of lib/pmm.c where the page's table is a new frame.
use raxzus_heap_research.Pmm.Marks.{mark}
use raxzus_heap_research.Pmm.{is_physical, get_next_free_kernel_frame}
use raxzus_heap_research.Pmm.Alloc.{Claimed}
use raxzus_heap_research.Paging.{page_table, map_page}
use raxzus_heap_research.Base.{
  ◌==◌, if◌then◌else◌, eq→==, Bool-cases, eq-or-ne, u32, page_base, update, ℕ, ◌+◌, ◌*◌, ◌%◌, ◌^◌,
  ◌≤◌, ◌<◌, bit_or, ◌≡◌, refl, sym, ap, ◌∙◌, subst, ◌≢◌, inl, inr, true, false, ◌&&◌, none, arith,
}
use raxzus_heap_research.Machine.{
  Layout, Machine, to_virt, is_virtual, dir_index, table_index, is_present, translate, store,
}
use raxzus_heap_research.Machine.Access.{translate-agree, with_frames-done}
use raxzus_heap_research.Paging.Present.{
  pde, pte, IsTables, load_direct, store_direct, entry_sum, PageMapped, pde_kept, IsTables-entered,
  entered_here, entered_elsewhere,
}

-- A frame that can become a table: it lies in the direct map, apart from the directory and its
-- tables, and has no present entry.
pub record IsFresh (ram : ℕ → ℕ) (dir table : ℕ) : Type 0 where
  pub aligned : table % 4096 ≡ 0
  pub direct : table + 4096 ≤ 2 ^ 30
  pub off_directory : (v w : ℕ) → v < 2 ^ 32 → w < 2 ^ 32 → table + 4 * table_index v ≢ pde dir w
  pub off_tables :
      (v w : ℕ)
      → v < 2 ^ 32
      → w < 2 ^ 32
      → is_present (ram (pde dir w)) ≡ true
      → table + 4 * table_index v ≢ pte ram dir w
  pub clean : (v : ℕ) → v < 2 ^ 32 → is_present (ram (table + 4 * table_index v)) ≡ false

module _ (ram : ℕ → ℕ) (dir virt table word : ℕ) (ok : IsTables ram dir)
    (fresh : IsFresh ram dir table) (user : virt < 2 ^ 32)
    (absent : is_present (ram (pde dir virt)) ≡ false) (odd : word % 2 ≡ 1)
    (base : page_base word ≡ table) where
  abbrev linked : ℕ → ℕ
  linked = update ram (pde dir virt) word

  abbrev SameTable : ℕ → Type 0
  SameTable v = dir_index virt ≡ dir_index v

  new_pde : (v : ℕ) → SameTable v → linked (pde dir v) ≡ word
  new_pde v e = ground arith

  old_pde : (v : ℕ) → dir_index virt ≢ dir_index v → linked (pde dir v) ≡ ram (pde dir v)
  old_pde v ne = ground arith

  new_pte : (v : ℕ) → SameTable v → pte linked dir v ≡ table + 4 * table_index v
  new_pte v e =
      ap (λ t. page_base t + 4 * table_index v) (new_pde v e)
      ∙ ap (λ (t : ℕ). t + 4 * table_index v) base

  old_pte : (v : ℕ) → dir_index virt ≢ dir_index v → pte linked dir v ≡ pte ram dir v
  old_pte v ne = ap (λ t. page_base t + 4 * table_index v) (old_pde v ne)

  old_present :
      (v : ℕ)
      → dir_index virt ≢ dir_index v
      → is_present (linked (pde dir v)) ≡ true
      → is_present (ram (pde dir v)) ≡ true
  old_present v ne p = subst (λ t. is_present t ≡ true) (old_pde v ne) p

  pub linked_present : is_present (linked (pde dir virt)) ≡ true
  linked_present =
      subst (λ t. is_present t ≡ true) (sym (new_pde virt refl)) (eq→== (word % 2) 1 odd)

  -- The directory with its new, empty table.
  pub IsTables-linked : IsTables linked dir
  IsTables-linked = record {
    directory = ok.directory;
    direct = λ v h p. elim (eq-or-ne (dir_index virt) (dir_index v)) [
      | inl e ↦
          subst (λ t. t + 4096 ≤ 2 ^ 30) (sym (ap (λ t. page_base t) (new_pde v e) ∙ base))
            fresh.direct
      | inr ne ↦
          subst (λ t. page_base t + 4096 ≤ 2 ^ 30) (sym (old_pde v ne))
            (ok.direct v h (old_present v ne p))
    ];
    off_directory = λ v w h h' p e. elim (eq-or-ne (dir_index virt) (dir_index v)) [
      | inl s ↦ fresh.off_directory v w h h' (sym (new_pte v s) ∙ e)
      | inr ne ↦ ok.off_directory v w h h' (old_present v ne p) (sym (old_pte v ne) ∙ e)
    ];
    disjoint = λ v w h h' p p' e. elim (eq-or-ne (dir_index virt) (dir_index v)) [
      | inl s ↦ elim (eq-or-ne (dir_index virt) (dir_index w)) [
        | inl s' ↦ omega (arith, e, new_pte v s, new_pte w s')
        | inr ne' ↦ absurd (
            fresh.off_tables v w h h' (old_present w ne' p')
              (sym (new_pte v s) ∙ e ∙ old_pte w ne'))
      ]
      | inr ne ↦ elim (eq-or-ne (dir_index virt) (dir_index w)) [
        | inl s' ↦ absurd (
            fresh.off_tables w v h' h (old_present v ne p)
              (sym (new_pte w s') ∙ sym e ∙ old_pte v ne))
        | inr ne' ↦
            ok.disjoint v w h h' (old_present v ne p) (old_present w ne' p')
              (sym (old_pte v ne) ∙ e ∙ old_pte w ne')
      ]
    ];
  }

  no_walk :
      (ram' : ℕ → ℕ) (v : ℕ) → is_present (ram' (pde dir v)) ≡ false → translate ram' dir v ≡ none
  unfolding translate
  no_walk ram' v p = rw p refl

  no_page : (v : ℕ) → is_present (linked (pte linked dir v)) ≡ false → translate linked dir v ≡ none
  unfolding translate
  no_page v p = elim (Bool-cases (is_present (linked (pde dir v)))) [
    | inl q ↦ rw (q, p) refl
    | inr q ↦ rw q refl
  ]

  -- No page has come or gone.
  pub linked_translate : (v : ℕ) → v < 2 ^ 32 → translate linked dir v ≡ translate ram dir v
  linked_translate v h = elim (eq-or-ne (dir_index virt) (dir_index v)) [
    | inl s ↦
        let empty : linked (pte linked dir v) ≡ ram (table + 4 * table_index v) =
          ap linked (new_pte v s) ∙ ground (arith, fresh.off_directory v virt h user) in
        let off : is_present (ram (pde dir v)) ≡ false =
          subst (λ i. is_present (ram (dir + 4 * i)) ≡ false) s absent in
        no_page v (subst (λ t. is_present t ≡ false) (sym empty) (fresh.clean v h))
        ∙ sym (no_walk ram v off)
    | inr ne ↦
        translate-agree ram linked dir v (old_pde v ne)
          (λ p. ground (arith, ok.off_directory v virt h user p))
  ]

module _ (l : Layout) (m : Machine) (dir virt phys flags k : ℕ) (ok : IsTables m.ram dir)
    (user : virt < 2 ^ 32) (absent : is_present (m.ram (pde dir virt)) ≡ false)
    (not_static : (to_virt dir == l.kernel_page_dir && dir_index virt == 0) ≡ false)
    (claimed : Claimed m.frames k (get_next_free_kernel_frame l.heap_start m.frames))
    (fresh : IsFresh m.ram dir (k * 4096)) where
  -- The machine with the new table in the directory.
  abbrev with_table : Machine
  with_table = record {
    frames = claimed.after;
    ram = update m.ram (pde dir virt) (bit_or (k * 4096) flags);
  }

  -- The frame, the directory's entry and the page's entry.
  map_page_fresh :
      phys < 0xC0000000
      → map_page l (to_virt dir) virt phys flags m
        ≡ store l (u32 (to_virt (k * 4096) + 4 * table_index virt)) (bit_or phys flags) with_table
  unfolding map_page page_table
  map_page_fresh low =
      let inside = ok.directory in
      let high : is_virtual (to_virt dir) ≡ true = ground arith in
      let phys_low : is_physical phys ≡ true = ground arith in
      let entry =
        load_direct l m (to_virt dir + 4 * dir_index virt) (pde dir virt) (omega arith)
          (omega arith) in
      let taken = with_frames-done (get_next_free_kernel_frame l.heap_start) m claimed.returns in
      let set =
        store_direct l (record m { frames = claimed.after }) (to_virt dir + 4 * dir_index virt)
          (pde dir virt) (bit_or (k * 4096) flags) (omega arith) (omega arith) in
      rw (high, phys_low, entry, absent, not_static, taken, set) refl

  -- Where the directory has no table for `virt`, the static table is not the one to use, and the
  -- first free kernel frame lies apart and holds no present entry, `map_page` with a page-aligned
  -- frame below 3 GiB and flags that hold the present bit takes that kernel frame as the table: the
  -- directory's entry for `virt` is that frame with the flags, the frame alone becomes marked in the
  -- bitmap and is counted, the page of `virt` leads to the frame at `phys`, every other page leads
  -- where it did, and the tables are apart.
  pub map_page_fresh-PageMapped :
      phys < 0xC0000000
      → phys % 4096 ≡ 0
      → flags < 4096
      → flags % 2 ≡ 1
      → (mapped : PageMapped m dir virt phys (map_page l (to_virt dir) virt phys flags m))
        × (mapped.after.ram (pde dir virt) ≡ k * 4096 + flags)
        × ((j : ℕ) → mark mapped.after.frames j ≡ (if k == j then 1 else mark m.frames j))
        × (mapped.after.frames.used_frames ≡ u32 (m.frames.used_frames + 1))
  map_page_fresh-PageMapped low aligned small odd =
      let entry = bit_or (k * 4096) flags in
      let sum = entry_sum (k * 4096) flags fresh.aligned small in
      let word = bit_or phys flags in
      let sum' = entry_sum phys flags aligned small in
      let odd' : entry % 2 ≡ 1 = omega (arith, sum) in
      let base : page_base entry ≡ k * 4096 = omega (arith, sum) in
      let ram = with_table.ram in
      let ok' = IsTables-linked m.ram dir virt (k * 4096) entry ok fresh user absent odd' base in
      let here' = linked_present m.ram dir virt (k * 4096) entry ok fresh user absent odd' base in
      let same = linked_translate m.ram dir virt (k * 4096) entry ok fresh user absent odd' base in
      let at_entry : pte ram dir virt ≡ k * 4096 + 4 * table_index virt =
        new_pte m.ram dir virt (k * 4096) entry ok fresh user absent odd' base virt refl in
      let inside = fresh.direct in
      let at_dir : ram (pde dir virt) ≡ k * 4096 + flags =
        rw (eq→== (pde dir virt) (pde dir virt) refl) sum in
      (
        record {
          after = record with_table { ram = update ram (pte ram dir virt) word };
          returns =
              map_page_fresh low
              ∙ store_direct l with_table (to_virt (k * 4096) + 4 * table_index virt)
                  (pte ram dir virt) word (omega (arith, at_entry)) (omega (arith, at_entry));
          here = λ v h e.
              entered_here ram dir virt word ok' user here' v phys h e (omega (arith, sum'))
                (omega (arith, sum'));
          elsewhere =
              λ v h ne. entered_elsewhere ram dir virt word ok' user here' v h ne ∙ same v h;
          tables = IsTables-entered ram dir virt word ok' user here';
        },
        pde_kept ram dir virt word ok' user here' virt user ∙ at_dir,
        claimed.marked,
        claimed.counted,
      )
