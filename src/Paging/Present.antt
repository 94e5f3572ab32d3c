-- ===== src/Paging/Present.antt =====
-- `map_page` of lib/pmm.c where the page's table is there already.
use raxzus_heap_research.Paging.{page_table, map_page}
use raxzus_heap_research.Pmm.{is_physical}
use mathlib.Core.Path.{ap₂}
use raxzus_heap_research.Machine.Access.{translate-agree, load-mapped, store-mapped}
use raxzus_heap_research.Machine.Walk.{Walk-translate}
use raxzus_heap_research.Base.{
  if◌then◌else◌, eq→==, bit_or_shifted, Run, done, u32, page_base, update, ℕ, ◌+◌, ◌*◌, ◌/◌, ◌%◌,
  ◌^◌, ◌≤◌, ◌<◌, bit_or, ◌≡◌, refl, sym, ap, ◌∙◌, subst, ◌≢◌, true, some, arith,
}
use raxzus_heap_research.Machine.{
  Layout, Machine, to_virt, is_virtual, dir_index, table_index, is_present, translate, resolve,
  load, store,
}

-- The words that a walk for `v` from the directory at physical address `dir` reads.
abbrev pub pde : ℕ → ℕ → ℕ
pde dir v = dir + 4 * dir_index v

abbrev pub pte : (ℕ → ℕ) → ℕ → ℕ → ℕ
pte ram dir v = page_base (ram (pde dir v)) + 4 * table_index v

-- The tables of a directory lie in the direct map, apart from the directory and from each other.
pub record IsTables (ram : ℕ → ℕ) (dir : ℕ) : Type 0 where
  pub directory : dir + 4096 ≤ 2 ^ 30
  pub direct :
      (v : ℕ)
      → v < 2 ^ 32
      → is_present (ram (pde dir v)) ≡ true
      → page_base (ram (pde dir v)) + 4096 ≤ 2 ^ 30
  pub off_directory :
      (v w : ℕ)
      → v < 2 ^ 32
      → w < 2 ^ 32
      → is_present (ram (pde dir v)) ≡ true
      → pte ram dir v ≢ pde dir w
  pub disjoint :
      (v w : ℕ)
      → v < 2 ^ 32
      → w < 2 ^ 32
      → is_present (ram (pde dir v)) ≡ true
      → is_present (ram (pde dir w)) ≡ true
      → pte ram dir v ≡ pte ram dir w
      → v / 4096 ≡ w / 4096

-- An access through the direct map.
resolve_direct :
    (l : Layout) (ram : ℕ → ℕ) (pa : ℕ) → pa < 2 ^ 30 → resolve l ram (0xC0000000 + pa) ≡ some pa
unfolding resolve
resolve_direct l ram pa h =
    let high : is_virtual (0xC0000000 + pa) ≡ true = ground arith in rw high (ap some (omega arith))

pub load_direct :
    (l : Layout) (m : Machine) (v pa : ℕ)
    → v ≡ 0xC0000000 + pa
    → pa < 2 ^ 30
    → load l (u32 v) m ≡ done (m.ram pa) m
load_direct l m v pa e h =
    let t : u32 v ≡ 0xC0000000 + pa = omega arith in
    load-mapped l m (u32 v) pa (ap (resolve l m.ram) t ∙ resolve_direct l m.ram pa h)

pub store_direct :
    (l : Layout) (m : Machine) (v pa word : ℕ)
    → v ≡ 0xC0000000 + pa
    → pa < 2 ^ 30
    → store l (u32 v) word m ≡ done tt (record m { ram = update m.ram pa word })
store_direct l m v pa word e h =
    let t : u32 v ≡ 0xC0000000 + pa = omega arith in
    store-mapped l m (u32 v) pa word (ap (resolve l m.ram) t ∙ resolve_direct l m.ram pa h)

-- An entry for a frame: its address above its flags.
pub entry_sum : (phys flags : ℕ) → phys % 4096 ≡ 0 → flags < 4096 → bit_or phys flags ≡ phys + flags
entry_sum phys flags aligned small =
    let e : phys / 4096 * 2 ^ 12 ≡ phys = omega arith in
    subst (λ t. bit_or t flags ≡ t + flags) e (bit_or_shifted 12 (phys / 4096) flags (omega arith))

-- The outcome of entering the frame at `phys` for the page of `virt`: that page leads to the frame,
-- and every other page leads where it did.
pub record PageMapped (m : Machine) (dir virt phys : ℕ) (r : Run Machine (Unit {0})) : Type 0 where
  pub after : Machine
  pub returns : r ≡ done tt after
  pub here :
      (v : ℕ)
      → v < 2 ^ 32
      → v / 4096 ≡ virt / 4096
      → translate after.ram dir v ≡ some (phys + v % 4096)
  pub elsewhere :
      (v : ℕ)
      → v < 2 ^ 32
      → v / 4096 ≢ virt / 4096
      → translate after.ram dir v ≡ translate m.ram dir v
  pub tables : IsTables after.ram dir

module _ (ram : ℕ → ℕ) (dir virt word : ℕ) (ok : IsTables ram dir) (user : virt < 2 ^ 32)
    (present : is_present (ram (pde dir virt)) ≡ true) where
  abbrev entered : ℕ → ℕ
  entered = update ram (pte ram dir virt) word

  -- The directory is as before.
  pub pde_kept : (v : ℕ) → v < 2 ^ 32 → entered (pde dir v) ≡ ram (pde dir v)
  pde_kept v h = ground (arith, ok.off_directory virt v user h present)

  pub pte_kept : (v : ℕ) → v < 2 ^ 32 → pte entered dir v ≡ pte ram dir v
  pte_kept v h = ap (λ t. page_base t + 4 * table_index v) (pde_kept v h)

  pub present_kept :
      (v : ℕ)
      → v < 2 ^ 32
      → is_present (entered (pde dir v)) ≡ true
      → is_present (ram (pde dir v)) ≡ true
  present_kept v h p = subst (λ t. is_present t ≡ true) (pde_kept v h) p

  pub IsTables-entered : IsTables entered dir
  IsTables-entered = record {
    directory = ok.directory;
    direct = λ v h p.
        subst (λ t. page_base t + 4096 ≤ 2 ^ 30) (sym (pde_kept v h))
          (ok.direct v h (present_kept v h p));
    off_directory =
        λ v w h h' p e. ok.off_directory v w h h' (present_kept v h p) (sym (pte_kept v h) ∙ e);
    disjoint = λ v w h h' p p' e.
        ok.disjoint v w h h' (present_kept v h p) (present_kept w h' p')
          (sym (pte_kept v h) ∙ e ∙ pte_kept w h');
  }

  same_pte : (v : ℕ) → v / 4096 ≡ virt / 4096 → pte ram dir v ≡ pte ram dir virt
  same_pte v e =
      let a : dir_index v ≡ dir_index virt = omega arith in
      let b : table_index v ≡ table_index virt = omega arith in
      ap₂ (λ i j. page_base (ram (dir + 4 * i)) + 4 * j) a b

  entered_word : (v : ℕ) → v < 2 ^ 32 → v / 4096 ≡ virt / 4096 → entered (pte entered dir v) ≡ word
  entered_word v h e =
      ap entered (pte_kept v h ∙ same_pte v e)
      ∙ ap (λ b. if b then word else ram (pte ram dir virt))
          (eq→== (pte ram dir virt) (pte ram dir virt) refl)

  pub entered_here :
      (v phys : ℕ)
      → v < 2 ^ 32
      → v / 4096 ≡ virt / 4096
      → word % 2 ≡ 1
      → page_base word ≡ phys
      → translate entered dir v ≡ some (phys + v % 4096)
  entered_here v phys h e odd base =
      let same : dir_index v ≡ dir_index virt = omega arith in
      Walk-translate entered dir v (phys + v % 4096) (record {
        has_table =
            subst (λ t. is_present t ≡ true) (sym (pde_kept v h ∙ ap (λ i. ram (dir + 4 * i)) same))
              present;
        has_page =
            subst (λ t. is_present t ≡ true) (sym (entered_word v h e)) (eq→== (word % 2) 1 odd);
        leads =
            ap (λ (t : ℕ). t + v % 4096)
              (sym base ∙ ap (λ t. page_base t) (sym (entered_word v h e)));
      })

  pub entered_elsewhere :
      (v : ℕ) → v < 2 ^ 32 → v / 4096 ≢ virt / 4096 → translate entered dir v ≡ translate ram dir v
  entered_elsewhere v h ne =
      translate-agree ram entered dir v (pde_kept v h)
        (λ p. ground (arith, ok.disjoint virt v user h present p))

module _ (l : Layout) (m : Machine) (dir virt phys flags : ℕ) (ok : IsTables m.ram dir)
    (user : virt < 2 ^ 32) (present : is_present (m.ram (pde dir virt)) ≡ true) where
  -- The two accesses of the branch.
  pub map_page_present :
      phys < 0xC0000000
      → map_page l (to_virt dir) virt phys flags m
        ≡ done tt (record m { ram = update m.ram (pte m.ram dir virt) (bit_or phys flags) })
  unfolding map_page page_table
  map_page_present low =
      let inside = ok.directory in
      let base = ok.direct virt user present in
      let high : is_virtual (to_virt dir) ≡ true = ground arith in
      let phys_low : is_physical phys ≡ true = ground arith in
      let entry =
        load_direct l m (to_virt dir + 4 * dir_index virt) (pde dir virt) (omega arith)
          (omega arith) in
      let set =
        store_direct l m (to_virt (page_base (m.ram (pde dir virt))) + 4 * table_index virt)
          (pte m.ram dir virt) (bit_or phys flags) (omega arith) (omega arith) in
      rw (high, phys_low, entry, present) set

  -- Where the directory has a table for `virt`, and its tables lie apart, `map_page` with a
  -- page-aligned frame below 3 GiB and flags that hold the present bit makes the page of `virt`
  -- lead to that frame, leaves every other page as it was, and keeps the tables apart.
  pub map_page-PageMapped :
      phys < 0xC0000000
      → phys % 4096 ≡ 0
      → flags < 4096
      → flags % 2 ≡ 1
      → PageMapped m dir virt phys (map_page l (to_virt dir) virt phys flags m)
  map_page-PageMapped low aligned small odd =
      let word = bit_or phys flags in
      let sum = entry_sum phys flags aligned small in
      record {
        after = record m { ram = update m.ram (pte m.ram dir virt) word };
        returns = map_page_present low;
        here = λ v h e.
            entered_here m.ram dir virt word ok user present v phys h e (omega (arith, sum))
              (omega (arith, sum));
        elsewhere = entered_elsewhere m.ram dir virt word ok user present;
        tables = IsTables-entered m.ram dir virt word ok user present;
      }
