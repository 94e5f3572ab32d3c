-- ===== src/Paging/Private.antt =====
-- `create_process_page_directory` of lib/paging_manager.c: what a process can reach.
use raxzus_heap_research.Pmm.Alloc.{IsFirstFree, get_next_free_kernel_frame-Claimed}
use raxzus_heap_research.Pmm.Marks.{mark}
use raxzus_heap_research.Machine.Access.{with_frames-done}
use raxzus_heap_research.Pmm.{Frames, get_next_free_kernel_frame}
use raxzus_heap_research.Paging.{create_process_page_directory}
use raxzus_heap_research.Base.{
  ◌==◌, if◌then◌else◌, eq→==, ne→==, eq-or-ne, done, u32, update, ℕ, zero, suc, ◌+◌, ◌-◌, ◌*◌, ◌/◌,
  ◌%◌, ◌^◌, ◌≤◌, ◌<◌, ◌≡◌, refl, sym, ap, ◌∙◌, ◌≢◌, inl, inr, none, arith,
}
use raxzus_heap_research.Machine.{
  Layout, Machine, to_virt, dir_index, translate, with_frames, load, store, fill, copy,
}
use raxzus_heap_research.Paging.Present.{load_direct, store_direct}

-- Words written in the direct map, from `base` on: entry `i` for each index in a range.
record Entered (m : Machine) (base first count : ℕ) (value : ℕ → ℕ) (m' : Machine) : Type 0 where
  written : (i : ℕ) → first ≤ i → i < first + count → m'.ram (base + 4 * i) ≡ value i
  kept : (a : ℕ) → ((i : ℕ) → first ≤ i → i < first + count → a ≢ base + 4 * i) → m'.ram a ≡ m.ram a
  frames : m'.frames ≡ m.frames

fill_one :
    (l : Layout) (count v first value : ℕ) (m m1 : Machine)
    → store l (u32 (v + 4 * first)) value m ≡ done tt m1
    → fill l (suc count) v first value m ≡ fill l count v (first + 1) value m1
unfolding fill
fill_one l count v first value m m1 e = rw e refl

fill-Entered :
    (l : Layout) (count v base first value : ℕ) (m : Machine)
    → v ≡ 0xC0000000 + base
    → base + 4 * (first + count) ≤ 2 ^ 30
    → (m' : Machine) × (fill l count v first value m ≡ done tt m')
      × Entered m base first count (λ _. value) m'
unfolding fill
fill-Entered l zero v base first value m e fits = (
  m,
  refl,
  record { written = λ i lo hi. absurd (omega arith); kept = λ a out. refl; frames = refl },
)
fill-Entered l (suc count) v base first value m e fits =
    let m1 : Machine = record m { ram = update m.ram (base + 4 * first) value } in
    let stored =
      store_direct l m (v + 4 * first) (base + 4 * first) value (omega arith) (omega arith) in
    let (m', returns, rest) = fill-Entered l count v base (first + 1) value m1 e (omega arith) in
    (
      m',
      fill_one l count v first value m m1 stored ∙ returns,
      record {
        written = λ i lo hi. elim (eq-or-ne i first) [
          | inl same ↦
              ap (λ t. m'.ram (base + 4 * t)) same
              ∙ rest.kept (base + 4 * first) (λ j lo' hi'. omega arith)
              ∙ rw (eq→== (base + 4 * first) (base + 4 * first) refl) refl
          | inr other ↦ rest.written i (omega arith) (omega arith)
        ];
        kept = λ a out.
            rest.kept a (λ j lo' hi'. out j (omega arith) (omega arith))
            ∙ rw (ne→== (base + 4 * first) a (λ s. out first (omega arith) (omega arith) (sym s)))
                refl;
        frames = rest.frames;
      },
    )

copy_one :
    (l : Layout) (count target source first word : ℕ) (m m1 : Machine)
    → load l (u32 (source + 4 * first)) m ≡ done word m
    → store l (u32 (target + 4 * first)) word m ≡ done tt m1
    → copy l (suc count) target source first m ≡ copy l count target source (first + 1) m1
unfolding copy
copy_one l count target source first word m m1 e e' = rw (e, e') refl

-- The source's entries do not lie in the target.
abbrev IsAside : (src base : ℕ) → Type 0
IsAside src base = (i j : ℕ) → i < 1024 → j < 1024 → src + 4 * i ≢ base + 4 * j

copy-Entered :
    (l : Layout) (count target source base src first : ℕ) (m : Machine)
    → target ≡ 0xC0000000 + base
    → source ≡ 0xC0000000 + src
    → base + 4096 ≤ 2 ^ 30
    → src + 4096 ≤ 2 ^ 30
    → first + count ≤ 1024
    → IsAside src base
    → (m' : Machine) × (copy l count target source first m ≡ done tt m')
      × Entered m base first count (λ i. m.ram (src + 4 * i)) m'
unfolding copy
copy-Entered l zero target source base src first m e e' fits fits' few aside = (
  m,
  refl,
  record { written = λ i lo hi. absurd (omega arith); kept = λ a out. refl; frames = refl },
)
copy-Entered l (suc count) target source base src first m e e' fits fits' few aside =
    let word = m.ram (src + 4 * first) in
    let m1 : Machine = record m { ram = update m.ram (base + 4 * first) word } in
    let loaded =
      load_direct l m (source + 4 * first) (src + 4 * first) (omega arith) (omega arith) in
    let stored =
      store_direct l m (target + 4 * first) (base + 4 * first) word (omega arith) (omega arith) in
    let (m', returns, rest) =
      copy-Entered l count target source base src (first + 1) m1 e e' fits fits' (omega arith)
        aside in
    (
      m',
      copy_one l count target source first word m m1 loaded stored ∙ returns,
      record {
        written = λ i lo hi. elim (eq-or-ne i first) [
          | inl same ↦
              ap (λ t. m'.ram (base + 4 * t)) same
              ∙ rest.kept (base + 4 * first) (λ j lo' hi'. omega arith)
              ∙ rw (eq→== (base + 4 * first) (base + 4 * first) refl)
                  (ap (λ t. m.ram (src + 4 * t)) (sym same))
          | inr other ↦
              rest.written i (omega arith) (omega arith)
              ∙ rw
                  (ne→== (base + 4 * first) (src + 4 * i)
                    (λ s. aside i first (omega arith) (omega arith) (sym s)))
                  refl
        ];
        kept = λ a out.
            rest.kept a (λ j lo' hi'. out j (omega arith) (omega arith))
            ∙ rw (ne→== (base + 4 * first) a (λ s. out first (omega arith) (omega arith) (sym s)))
                refl;
        frames = rest.frames;
      },
    )

-- A directory in which the lower 768 entries are 0 leads nowhere below the kernel.
lower_nowhere :
    (ram : ℕ → ℕ) (dir v : ℕ)
    → ((i : ℕ) → i < 768 → ram (dir + 4 * i) ≡ 0)
    → v < 0xC0000000
    → translate ram dir v ≡ none
unfolding translate
lower_nowhere ram dir v zero_entries user =
    let e : ram (dir + 4 * dir_index v) ≡ 0 = zero_entries (dir_index v) (omega arith) in rw e refl

directory_steps :
    (l : Layout) (phys : ℕ) (m m0 m1 m2 : Machine)
    → with_frames (get_next_free_kernel_frame l.heap_start) m ≡ done phys m0
    → fill l 1024 (to_virt phys) 0 0 m0 ≡ done tt m1
    → copy l 256 (to_virt phys) l.kernel_page_dir 768 m1 ≡ done tt m2
    → create_process_page_directory l m ≡ done (to_virt phys) m2
unfolding create_process_page_directory
directory_steps l phys m m0 m1 m2 claimed filled copied = rw (claimed, filled, copied) refl

private_directory :
    (l : Layout) (m : Machine) (kdir k : ℕ) (f : Frames)
    → l.kernel_page_dir ≡ 0xC0000000 + kdir
    → kdir + 4096 ≤ 2 ^ 30
    → with_frames (get_next_free_kernel_frame l.heap_start) m
      ≡ done (k * 4096) (record m { frames = f })
    → k * 4096 + 4096 ≤ 2 ^ 30
    → IsAside kdir (k * 4096)
    → (m' : Machine) × (create_process_page_directory l m ≡ done (0xC0000000 + k * 4096) m')
      × ((i : ℕ) → 768 ≤ i → i < 1024 → m'.ram (k * 4096 + 4 * i) ≡ m.ram (kdir + 4 * i))
      × ((v : ℕ) → v < 0xC0000000 → translate m'.ram (k * 4096) v ≡ none)
      × (m'.frames ≡ f)
private_directory l m kdir k f at_dir fits claimed fits' aside =
    let base = k * 4096 in
    let m0 : Machine = record m { frames = f } in
    let high : to_virt base ≡ 0xC0000000 + base = omega arith in
    let (m1, filled, blank) = fill-Entered l 1024 (to_virt base) base 0 0 m0 high (omega arith) in
    let (m2, copied, upper) =
      copy-Entered l 256 (to_virt base) l.kernel_page_dir base kdir 768 m1 high at_dir fits' fits
        (omega arith) aside in
    (
      m2,
      directory_steps l base m m0 m1 m2 claimed filled copied ∙ ap (λ t. done t m2) high,
      (λ i lo hi.
          upper.written i lo (omega arith)
          ∙ blank.kept (kdir + 4 * i) (λ j lo' hi'. aside i j hi (omega arith))),
      (λ v user.
          lower_nowhere m2.ram base v
            (λ i small.
              upper.kept (base + 4 * i) (λ j lo hi. omega arith)
              ∙ blank.written i (omega arith) (omega arith))
            user),
      upper.frames ∙ blank.frames,
    )

-- With a page-aligned kernel end, frame `k` the first free one behind the kernel, in the direct map
-- and not the kernel's own directory, a process gets the kernel's upper 256 entries and nothing
-- else: through its new directory no address below the kernel is mapped, the heap's blocks among
-- them. The frame is marked as used, and no other.
pub create_process_page_directory_lem :
    (l : Layout) (m : Machine) (kdir k : ℕ)
    → 0xC0000000 ≤ l.heap_start
    → l.heap_start < 2 ^ 32
    → l.heap_start % 4096 ≡ 0
    → IsFirstFree m.frames ((l.heap_start - 0xC0000000) / 4096) k
    → l.kernel_page_dir ≡ 0xC0000000 + kdir
    → kdir % 4096 ≡ 0
    → kdir + 4096 ≤ 2 ^ 30
    → k * 4096 + 4096 ≤ 2 ^ 30
    → kdir ≢ k * 4096
    → (m' : Machine) × (create_process_page_directory l m ≡ done (0xC0000000 + k * 4096) m')
      × ((i : ℕ) → 768 ≤ i → i < 1024 → m'.ram (k * 4096 + 4 * i) ≡ m.ram (kdir + 4 * i))
      × ((v : ℕ) → v < 0xC0000000 → translate m'.ram (k * 4096) v ≡ none)
      × ((j : ℕ) → mark m'.frames j ≡ (if k == j then 1 else mark m.frames j))
create_process_page_directory_lem l m kdir k high word aligned first at_dir page fits fits' apart =
    let c =
      get_next_free_kernel_frame-Claimed m.frames k l.heap_start high word aligned first
        (omega arith) in
    let claimed = with_frames-done (get_next_free_kernel_frame l.heap_start) m c.returns in
    let (m', returns, upper, lower, frames) =
      private_directory l m kdir k c.after at_dir fits claimed fits'
        (λ i j hi hj same. apart (omega arith)) in
    (m', returns, upper, lower, λ j. ap (λ t. mark t j) frames ∙ c.marked j)
