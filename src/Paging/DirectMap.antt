-- ===== src/Paging/DirectMap.antt =====
-- All rounds of `map_kernel_memory` of lib/paging_manager.c, and what the processor makes of them.
use raxzus_heap_research.Machine.Walk.{Walk, Walk-translate}
use raxzus_heap_research.Base.{
  eq→==, eq-or-ne, Run, done, page_base, ℕ, zero, suc, ◌+◌, ◌-◌, ◌*◌, ◌/◌, ◌%◌, ◌^◌, ◌≤◌, ◌<◌, ◌≡◌,
  refl, ap, ◌∙◌, subst, inl, inr, some, arith,
}
use raxzus_heap_research.Pmm.{Frames}
use raxzus_heap_research.Machine.{Layout, Machine, dir_index, table_index, translate}
use raxzus_heap_research.Paging.{map_kernel_loop, map_kernel_memory}
use raxzus_heap_research.Paging.Direct.{IsPlaced, Maps, Before, Round, same_table, new_table}

module _ (l : Layout) (dir tables : ℕ) (placed : IsPlaced l dir tables) where
  -- The outcome of the loop.
  pub record Mapped (frames : Frames) (r : Run Machine (Unit {0})) : Type 0 where
    pub after : Machine
    pub returns : r ≡ done tt after
    pub kept : after.frames ≡ frames
    pub maps : Maps dir tables (2 ^ 18) after.ram

  round :
      (n left table last : ℕ) (m : Machine) (h : n < 2 ^ 18)
      → Maps dir tables n m.ram
      → Before tables n table last
      → Round l dir tables placed n h left m (map_kernel_loop l (suc left) (n * 4096) table last m)
  round n left table last m h maps before = elim (eq-or-ne (n % 1024) 0) [
    | inl start ↦ new_table l dir tables placed n h left table last m maps before start
    | inr inner ↦ same_table l dir tables placed n h left table last m maps before inner
  ]

  loop-Mapped :
      (left n table last : ℕ) (m : Machine)
      → n + left ≡ 2 ^ 18
      → Maps dir tables n m.ram
      → Before tables n table last
      → Mapped m.frames (map_kernel_loop l left (n * 4096) table last m)
  unfolding map_kernel_loop
  loop-Mapped zero n table last m e maps before =
      let top : n ≡ 2 ^ 18 = omega arith in
      record {
        after = m;
        returns = refl;
        kept = refl;
        maps = subst (λ t. Maps dir tables t m.ram) top maps;
      }
  loop-Mapped (suc left) n table last m e maps before =
      let r = round n left table last m (omega arith) maps before in
      let at_page : (n + 1) * 4096 ≡ n * 4096 + 4096 = omega arith in
      let rest = loop-Mapped left (n + 1) r.table r.last r.after (omega arith) r.maps r.variables in
      record {
        after = rest.after;
        returns =
            r.steps
            ∙ subst (λ t. map_kernel_loop l left t r.table r.last r.after ≡ done tt rest.after)
                at_page rest.returns;
        kept = rest.kept ∙ r.frames;
        maps = rest.maps;
      }

  map_kernel_memory-Mapped : (m : Machine) → Mapped m.frames (map_kernel_memory l m)
  unfolding map_kernel_memory
  map_kernel_memory-Mapped m =
      loop-Mapped 0x40000 0 0 0xFFFFFFFF m refl
        (record {
          table_entries = λ j h. absurd (omega arith);
          page_entries = λ i h. absurd (omega arith);
        })
        (record { inside = λ h. absurd (omega arith); at_start = λ h e. absurd (omega arith) })

  -- The walk that the entries make.
  direct-Walk :
      (ram : ℕ → ℕ) (v : ℕ)
      → Maps dir tables (2 ^ 18) ram
      → 0xC0000000 ≤ v
      → v < 2 ^ 32
      → Walk ram dir v (v - 0xC0000000)
  direct-Walk ram v maps lo hi =
      let j = dir_index v - 768 in
      let i = v / 4096 - 0xC0000 in
      let al = placed.tables_aligned in
      let pde_sum : dir + 4 * dir_index v ≡ dir + 4 * (768 + j) = omega arith in
      let first : ram (dir + 4 * dir_index v) ≡ tables + j * 4096 + 3 =
        ap ram pde_sum ∙ maps.table_entries j (omega arith) in
      let pte_sum : page_base (ram (dir + 4 * dir_index v)) + 4 * table_index v ≡ tables + 4 * i =
        omega (arith, first) in
      let second : ram (page_base (ram (dir + 4 * dir_index v)) + 4 * table_index v)
          ≡ i * 4096 + 0x103 =
        ap ram pte_sum ∙ maps.page_entries i (omega arith) in
      record {
        has_table = eq→== (ram (dir + 4 * dir_index v) % 2) 1 (omega (arith, first));
        has_page =
            eq→== (ram (page_base (ram (dir + 4 * dir_index v)) + 4 * table_index v) % 2) 1
              (omega (arith, second));
        leads = omega (arith, second);
      }

  -- With the directory and the 256 tables placed as in linker.ld, `map_kernel_memory` returns,
  -- takes no frame, and then the processor's walk from the kernel's directory sends every address
  -- from 0xC0000000 on to the physical address 0xC0000000 below it.
  pub map_kernel_memory_lem :
      (m : Machine)
      → (g : Machine) × (map_kernel_memory l m ≡ done tt g)
        × (g.frames ≡ m.frames)
        × ((v : ℕ) → 0xC0000000 ≤ v → v < 2 ^ 32 → translate g.ram dir v ≡ some (v - 0xC0000000))
  map_kernel_memory_lem m =
      let r = map_kernel_memory-Mapped m in
      (
        r.after,
        r.returns,
        r.kept,
        λ v lo hi.
            Walk-translate r.after.ram dir v (v - 0xC0000000)
              (direct-Walk r.after.ram v r.maps lo hi),
      )
