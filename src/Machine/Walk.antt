-- ===== src/Machine/Walk.antt =====
-- The processor's walk through the page directory and the page table, entry by entry.
use raxzus_heap_research.Base.{
  Bool-cases, page_base, ℕ, ◌+◌, ◌*◌, ◌%◌, ◌≡◌, refl, inl, inr, true, some,
}
use raxzus_heap_research.Machine.{dir_index, table_index, is_present, translate}

-- A walk that leads somewhere has found both entries present.
pub record Walk (ram : ℕ → ℕ) (dir v pa : ℕ) : Type 0 where
  pub has_table : is_present (ram (dir + 4 * dir_index v)) ≡ true
  pub has_page :
      is_present (ram (page_base (ram (dir + 4 * dir_index v)) + 4 * table_index v)) ≡ true
  pub leads :
      pa ≡ page_base (ram (page_base (ram (dir + 4 * dir_index v)) + 4 * table_index v)) + v % 4096

pub translate-Walk :
    (ram : ℕ → ℕ) (dir v pa : ℕ) → translate ram dir v ≡ some pa → Walk ram dir v pa
unfolding translate
translate-Walk ram dir v pa e = elim (Bool-cases (is_present (ram (dir + 4 * dir_index v)))) [
  | inr off ↦ cc
  | inl table ↦
      elim (Bool-cases
        (is_present (ram (page_base (ram (dir + 4 * dir_index v)) + 4 * table_index v)))) [
          | inr off ↦ cc
          | inl page ↦ record { has_table = table; has_page = page; leads = cc }
        ]
]

pub Walk-translate :
    (ram : ℕ → ℕ) (dir v pa : ℕ) → Walk ram dir v pa → translate ram dir v ≡ some pa
unfolding translate
Walk-translate ram dir v pa w = rw (w.has_table, w.has_page, w.leads) refl
