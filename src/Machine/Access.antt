-- ===== src/Machine/Access.antt =====
-- Loads and stores below the kernel's direct map, where the data lies apart from the page tables:
-- memory as a partial map from virtual addresses to words.
use raxzus_heap_research.Pmm.{Frames}
use raxzus_heap_research.Base.{
  ◌==◌, if◌then◌else◌, eq→==, ne→==, Bool-cases, eq-or-ne, Run, done, Cmd, page_base, update, ℕ,
  ◌+◌, ◌*◌, ◌<◌, ◌≡◌, refl, sym, ap, ◌∙◌, subst, ◌≢◌, inl, inr, true, false, Option, none, some,
  arith,
}
use raxzus_heap_research.Machine.{
  Layout, Machine, to_phys, is_virtual, dir_index, table_index, is_present, translate, on_machine,
  with_frames, resolve, load, store,
}

-- Where the user half of the address space ends.
abbrev pub kernel_base : ℕ
kernel_base = 0xC0000000

-- The word behind a pointer, if it is mapped.
abbrev pub word_at : (ℕ → ℕ) → Option ℕ → Option ℕ
word_at ram none = none
word_at ram (some pa) = some (ram pa)

unfoldable pub peek : Layout → (ℕ → ℕ) → ℕ → Option ℕ
peek l ram v = word_at ram (resolve l ram v)

-- The words that the walk for `v` reads.
abbrev pub pde_at : Layout → ℕ → ℕ
pde_at l v = to_phys l.kernel_page_dir + 4 * dir_index v

abbrev pub pte_at : Layout → (ℕ → ℕ) → ℕ → ℕ
pte_at l ram v = page_base (ram (pde_at l v)) + 4 * table_index v

-- No mapped address stands for a word that a walk reads, and no two stand for one word.
pub record IsApart (l : Layout) (ram : ℕ → ℕ) : Type 0 where
  pub off_directory :
      (v w pa : ℕ) → v < kernel_base → w < kernel_base → resolve l ram v ≡ some pa → pa ≢ pde_at l w
  pub off_tables :
      (v w pa : ℕ)
      → v < kernel_base
      → w < kernel_base
      → resolve l ram v ≡ some pa
      → is_present (ram (pde_at l w)) ≡ true
      → pa ≢ pte_at l ram w
  pub injective :
      (v w pa : ℕ)
      → v < kernel_base
      → w < kernel_base
      → resolve l ram v ≡ some pa
      → resolve l ram w ≡ some pa
      → v ≡ w

-- A walk depends on two words only, and on the second only past the first.
pub translate-agree :
    (ram ram' : ℕ → ℕ) (dir w : ℕ)
    → (let pde = ram (dir + 4 * dir_index w) in
        (ram' (dir + 4 * dir_index w) ≡ pde)
        → (is_present pde ≡ true
            → ram' (page_base pde + 4 * table_index w) ≡ ram (page_base pde + 4 * table_index w))
        → translate ram' dir w ≡ translate ram dir w)
unfolding translate
translate-agree ram ram' dir w e h =
    rw e (elim (Bool-cases (is_present (ram (dir + 4 * dir_index w)))) [
      | inl p ↦ rw (h p)
      | inr p ↦ rw p
    ])

pub resolve-user :
    (l : Layout) (ram : ℕ → ℕ) (w : ℕ)
    → w < kernel_base
    → resolve l ram w ≡ translate ram (to_phys l.kernel_page_dir) w
unfolding resolve
resolve-user l ram w h = let low : is_virtual w ≡ false = ground arith in rw low

module _ (l : Layout) {ram : ℕ → ℕ} (apart : IsApart l ram) {v pa : ℕ} (word : ℕ)
    (user : v < kernel_base) (mapped : resolve l ram v ≡ some pa) where
  -- A write to the data leaves every walk as it was.
  pde_kept : (w : ℕ) → w < kernel_base → update ram pa word (pde_at l w) ≡ ram (pde_at l w)
  pde_kept w user' = ground (arith, apart.off_directory v w pa user user' mapped)

  pte_kept :
      (w : ℕ)
      → w < kernel_base
      → is_present (ram (pde_at l w)) ≡ true
      → update ram pa word (pte_at l ram w) ≡ ram (pte_at l ram w)
  pte_kept w user' p = ground (arith, apart.off_tables v w pa user user' mapped p)

  pub resolve-store : (w : ℕ) → w < kernel_base → resolve l (update ram pa word) w ≡ resolve l ram w
  resolve-store w user' =
      rw (resolve-user l ram w user', resolve-user l (update ram pa word) w user')
        (translate-agree ram (update ram pa word) (to_phys l.kernel_page_dir) w (pde_kept w user')
          (pte_kept w user'))

  IsApart-store : IsApart l (update ram pa word)
  IsApart-store = record {
    off_directory = λ x w q p p' e. apart.off_directory x w q p p' (sym (resolve-store x p) ∙ e);
    off_tables = λ x w q p p' e pr r.
        let k = pde_kept w p' in
        apart.off_tables x w q p p' (sym (resolve-store x p) ∙ e)
          (subst (λ t. is_present t ≡ true) k pr)
          (r ∙ ap (λ (t : ℕ). page_base t + 4 * table_index w) k);
    injective = λ x w q p p' e e'.
        apart.injective x w q p p' (sym (resolve-store x p) ∙ e) (sym (resolve-store w p') ∙ e');
  }

  kept_elsewhere :
      (w : ℕ)
      → w < kernel_base
      → v ≢ w
      → (o : Option ℕ) → resolve l ram w ≡ o
      → word_at (update ram pa word) o ≡ word_at ram o
  kept_elsewhere w user' ne none e = refl
  kept_elsewhere w user' ne (some q) e =
      let other : pa ≢ q =
        λ same. ne (apart.injective v w q user user' (mapped ∙ ap some same) e) in
      rw (ne→== pa q other)

  -- The write shows at its own address and nowhere else.
  peek-store :
      (w : ℕ)
      → w < kernel_base
      → peek l (update ram pa word) w ≡ (if v == w then some word else peek l ram w)
  unfolding peek
  peek-store w user' = rw (resolve-store w user') (elim (eq-or-ne v w) [
    | inl same ↦
        let mw : resolve l ram w ≡ some pa = ap (resolve l ram) (sym same) ∙ mapped in
        rw (mw, eq→== v w same, eq→== pa pa refl)
    | inr ne ↦ rw (ne→== v w ne) (kept_elsewhere w user' ne (resolve l ram w) refl)
  ])

-- The outcome of a write of `word` to the mapped address `v`.
pub record Written (l : Layout) (m : Machine) (v word : ℕ) (r : Run Machine (Unit {0}))
    : Type 0 where
  pub after : Machine
  pub returns : r ≡ done tt after
  pub frames : after.frames ≡ m.frames
  pub apart : IsApart l after.ram
  pub view :
      (w : ℕ)
      → w < kernel_base
      → peek l after.ram w ≡ (if v == w then some word else peek l m.ram w)

-- An address with a word behind it is mapped.
pub mapped_of_peek :
    (l : Layout) (ram : ℕ → ℕ) (v : ℕ) {x : ℕ}
    → peek l ram v ≡ some x
    → (pa : ℕ) × (resolve l ram v ≡ some pa) × (ram pa ≡ x)
unfolding peek
mapped_of_peek l ram v {x} h = go (resolve l ram v) refl h
  where
    go :
        (o : Option ℕ)
        → resolve l ram v ≡ o
        → word_at ram o ≡ some x
        → (pa : ℕ) × (resolve l ram v ≡ some pa) × (ram pa ≡ x)
    go none e h = cc
    go (some pa) e h = (pa, e, ground arith)

module _ (l : Layout) (m : Machine) (v : ℕ) where
  pub load-mapped : (pa : ℕ) → resolve l m.ram v ≡ some pa → load l v m ≡ done (m.ram pa) m
  unfolding load
  load-mapped pa e = rw (e, load)

  pub store-mapped :
      (pa word : ℕ)
      → resolve l m.ram v ≡ some pa
      → store l v word m ≡ done tt (record m { ram = update m.ram pa word })
  unfolding store
  store-mapped pa word e = rw (e, store)

  pub load-peek : (x : ℕ) → peek l m.ram v ≡ some x → load l v m ≡ done x m
  load-peek x h =
      let (pa, e, w) = mapped_of_peek l m.ram v h in load-mapped pa e ∙ ap (λ (t : ℕ). done t m) w

  -- A write to an address that holds a word succeeds, and changes the word at that address only.
  pub store-Written :
      (old word : ℕ)
      → IsApart l m.ram
      → v < kernel_base
      → peek l m.ram v ≡ some old
      → Written l m v word (store l v word m)
  store-Written old word apart user h =
      let (pa, e, w) = mapped_of_peek l m.ram v h in
      record {
        after = record m { ram = update m.ram pa word };
        returns = store-mapped pa word e;
        frames = refl;
        apart = IsApart-store l apart word user e;
        view = peek-store l apart word user e;
      }

pub with_frames-done :
    {A : Type 0} (c : Cmd Frames A) (m : Machine) {a : A} {f : Frames}
    → c m.frames ≡ done a f
    → with_frames c m ≡ done a (record m { frames = f })
with_frames-done c m e = ap (λ r. on_machine r m) e
