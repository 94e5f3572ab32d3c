-- ===== src/Paging/Direct.antt =====
-- `map_kernel_memory` of lib/paging_manager.c: the kernel's direct map of physical memory.
use raxzus_heap_research.Base.{
  ◌==◌, if◌then◌else◌, eq→==, ne→==, lt-or-le, eq-or-ne, Run, u32, update, ℕ, suc, ◌+◌, ◌-◌, ◌*◌,
  ◌/◌, ◌%◌, ◌^◌, ◌≤◌, ◌<◌, bit_or, ◌≡◌, refl, sym, ap, ◌∙◌, subst, ◌≢◌, inl, inr, true, false,
  arith,
}
use raxzus_heap_research.Machine.{Layout, Machine, to_virt, to_phys, dir_index, table_index}
use raxzus_heap_research.Paging.{page_kernel, page_global, map_kernel_loop}
use raxzus_heap_research.Paging.Present.{store_direct, entry_sum}

-- Where linker.ld puts the directory and the 256 tables: page by page, the directory first.
pub record IsPlaced (l : Layout) (dir tables : ℕ) : Type 0 where
  pub directory_at : l.kernel_page_dir ≡ 0xC0000000 + dir
  pub tables_at : l.kernel_page_tables_base ≡ 0xC0000000 + tables
  pub dir_aligned : dir % 4096 ≡ 0
  pub tables_aligned : tables % 4096 ≡ 0
  pub in_order : dir + 4096 ≤ tables
  pub in_memory : tables + 2 ^ 20 ≤ 2 ^ 30

-- The entries of the first `n` pages, and of the tables that they lie in.
pub record Maps (dir tables n : ℕ) (ram : ℕ → ℕ) : Type 0 where
  pub table_entries : (j : ℕ) → j * 1024 < n → ram (dir + 4 * (768 + j)) ≡ tables + j * 4096 + 3
  pub page_entries : (i : ℕ) → i < n → ram (tables + 4 * i) ≡ i * 4096 + 0x103

-- The loop's variables before page `n`.
pub record Before (tables n table last_dir_index : ℕ) : Type 0 where
  pub inside :
      n % 1024 ≢ 0
      → (last_dir_index ≡ 768 + n / 1024) × (table ≡ 0xC0000000 + tables + n / 1024 * 4096)
  pub at_start : n % 1024 ≡ 0 → last_dir_index ≢ 768 + n / 1024

module _ (l : Layout) (dir tables : ℕ) (placed : IsPlaced l dir tables) (n : ℕ)
    (small : n < 2 ^ 18) where
  -- The page's entry, and its table's.
  page_word : bit_or (n * 4096) (bit_or page_kernel page_global) ≡ n * 4096 + 0x103
  page_word = entry_sum (n * 4096) 0x103 (omega arith) (omega arith)

  abbrev slot : ℕ
  slot = tables + n / 1024 * 4096

  table_word :
      bit_or (to_phys (u32 (l.kernel_page_tables_base + n / 1024 * 4096))) page_kernel ≡ slot + 3
  table_word =
      let at_base = placed.tables_at in
      let al = placed.tables_aligned in
      let mem = placed.in_memory in
      let same : slot ≡ to_phys (u32 (l.kernel_page_tables_base + n / 1024 * 4096)) = omega arith in
      subst (λ t. bit_or t page_kernel ≡ slot + 3) same
        (entry_sum slot 3 (omega arith) (omega arith))

  Maps-page :
      (ram : ℕ → ℕ)
      → Maps dir tables n ram
      → ram (dir + 4 * (768 + n / 1024)) ≡ slot + 3
      → Maps dir tables (n + 1) (update ram (tables + 4 * n) (n * 4096 + 0x103))
  Maps-page ram maps table =
      let ord = placed.in_order in
      record {
        table_entries = λ j h.
            ap (λ b. if b then n * 4096 + 0x103 else ram (dir + 4 * (768 + j)))
              (ne→== (tables + 4 * n) (dir + 4 * (768 + j)) (λ e. absurd (omega arith)))
            ∙ elim (lt-or-le (j * 1024) n) [
              | inl below ↦ maps.table_entries j below
              | inr here ↦
                  let e : n / 1024 ≡ j = omega arith in
                  subst (λ t. ram (dir + 4 * (768 + t)) ≡ tables + t * 4096 + 3) e table
            ];
        page_entries = λ i h. elim (eq-or-ne n i) [
          | inl e ↦
              subst
                (λ t.
                  update ram (tables + 4 * n) (n * 4096 + 0x103) (tables + 4 * t)
                  ≡ t * 4096 + 0x103)
                e
                (ap (λ b. if b then n * 4096 + 0x103 else ram (tables + 4 * n))
                  (eq→== (tables + 4 * n) (tables + 4 * n) refl))
          | inr ne ↦
              ap (λ b. if b then n * 4096 + 0x103 else ram (tables + 4 * i))
                (ne→== (tables + 4 * n) (tables + 4 * i) (λ e. ne (omega arith)))
              ∙ maps.page_entries i (omega arith)
        ];
      }

  -- The new table's entry changes nothing that is there.
  Maps-table :
      (ram : ℕ → ℕ)
      → Maps dir tables n ram
      → n % 1024 ≡ 0
      → Maps dir tables n (update ram (dir + 4 * (768 + n / 1024)) (slot + 3))
  Maps-table ram maps start =
      let ord = placed.in_order in
      let at_entry = dir + 4 * (768 + n / 1024) in
      record {
        table_entries = λ j h.
            ap (λ b. if b then slot + 3 else ram (dir + 4 * (768 + j)))
              (ne→== at_entry (dir + 4 * (768 + j)) (λ e. absurd (omega arith)))
            ∙ maps.table_entries j h;
        page_entries = λ i h.
            ap (λ b. if b then slot + 3 else ram (tables + 4 * i))
              (ne→== at_entry (tables + 4 * i) (λ e. absurd (omega arith)))
            ∙ maps.page_entries i h;
      }

  -- The round for page `n`: its outcome, and the variables before the next.
  pub record Round (left : ℕ) (m : Machine) (r : Run Machine (Unit {0})) : Type 0 where
    pub after : Machine
    pub table : ℕ
    pub last : ℕ
    pub steps : r ≡ map_kernel_loop l left (n * 4096 + 4096) table last after
    pub frames : after.frames ≡ m.frames
    pub maps : Maps dir tables (n + 1) after.ram
    pub variables : Before tables (n + 1) table last

  pub same_table :
      (left table last : ℕ) (m : Machine)
      → Maps dir tables n m.ram
      → Before tables n table last
      → n % 1024 ≢ 0
      → Round left m (map_kernel_loop l (suc left) (n * 4096) table last m)
  unfolding map_kernel_loop
  same_table left table last m maps before inner =
      let (at_last, at_table) = before.inside inner in
      let mem = placed.in_memory in
      let virt = to_virt (n * 4096) in
      let word = bit_or (n * 4096) (bit_or page_kernel page_global) in
      let same : (dir_index virt == last) ≡ true = eq→== (dir_index virt) last (omega arith) in
      let set =
        store_direct l m (table + 4 * table_index virt) (tables + 4 * n) word (omega arith)
          (omega arith) in
      record {
        after = record m { ram = update m.ram (tables + 4 * n) word };
        table = table;
        last = last;
        steps = rw (same, set) refl;
        frames = refl;
        maps =
            subst (λ w. Maps dir tables (n + 1) (update m.ram (tables + 4 * n) w)) (sym page_word)
              (Maps-page m.ram maps (maps.table_entries (n / 1024) (omega arith)));
        variables = record {
          inside = λ h. (omega arith, omega arith);
          at_start = λ h e. absurd (omega arith);
        };
      }

  pub new_table :
      (left table last : ℕ) (m : Machine)
      → Maps dir tables n m.ram
      → Before tables n table last
      → n % 1024 ≡ 0
      → Round left m (map_kernel_loop l (suc left) (n * 4096) table last m)
  unfolding map_kernel_loop
  new_table left table last m maps before start =
      let mem = placed.in_memory in
      let ord = placed.in_order in
      let at_base = placed.tables_at in
      let at_dir = placed.directory_at in
      let virt = to_virt (n * 4096) in
      let index : dir_index virt ≡ 768 + n / 1024 = omega arith in
      let word = bit_or (n * 4096) (bit_or page_kernel page_global) in
      let slot_table = u32 (l.kernel_page_tables_base + (dir_index virt - 768) * 4096) in
      let entry = bit_or (to_phys slot_table) page_kernel in
      let entry_sum' : entry ≡ slot + 3 =
        subst
          (λ t.
            bit_or (to_phys (u32 (l.kernel_page_tables_base + t * 4096))) page_kernel ≡ slot + 3)
          (let q : n / 1024 ≡ dir_index virt - 768 = omega arith in q) table_word in
      let other : (dir_index virt == last) ≡ false =
        ne→== (dir_index virt) last (λ e. before.at_start start (sym e ∙ index)) in
      let linked : Machine = record m { ram = update m.ram (dir + 4 * (768 + n / 1024)) entry } in
      let set =
        store_direct l m (l.kernel_page_dir + 4 * dir_index virt) (dir + 4 * (768 + n / 1024)) entry
          (omega arith) (omega arith) in
      let set' =
        store_direct l linked (slot_table + 4 * table_index virt) (tables + 4 * n) word
          (omega arith) (omega arith) in
      let maps' : Maps dir tables n linked.ram =
        subst (λ w. Maps dir tables n (update m.ram (dir + 4 * (768 + n / 1024)) w))
          (sym entry_sum') (Maps-table m.ram maps start) in
      let here : linked.ram (dir + 4 * (768 + n / 1024)) ≡ slot + 3 =
        ap (λ b. if b then entry else m.ram (dir + 4 * (768 + n / 1024)))
          (eq→== (dir + 4 * (768 + n / 1024)) (dir + 4 * (768 + n / 1024)) refl)
        ∙ entry_sum' in
      record {
        after = record linked { ram = update linked.ram (tables + 4 * n) word };
        table = slot_table;
        last = dir_index virt;
        steps = rw (other, set, set') refl;
        frames = refl;
        maps =
            subst (λ w. Maps dir tables (n + 1) (update linked.ram (tables + 4 * n) w))
              (sym page_word) (Maps-page linked.ram maps' here);
        variables = record {
          inside = λ h. (omega arith, omega arith);
          at_start = λ h e. absurd (omega arith);
        };
      }
