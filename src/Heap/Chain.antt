-- ===== src/Heap/Chain.antt =====
-- The free list that the blocks of lib/heap_domain.c form among themselves.
use mathlib.Core.Bool.{false≢true}
use raxzus_heap_research.Base.{
  ◌==◌, if◌then◌else◌, ne→==, eq-or-ne, ℕ, ◌<◌, ◌≡◌, refl, sym, ap, ◌∙◌, ◌≢◌, inl, inr, Bool, true,
  false, ◌||◌, Option, some, List, [], ◌∷◌, ◌++◌, arith,
}
use raxzus_heap_research.Machine.Access.{kernel_base}
use raxzus_heap_research.Heap.Domain.{null}

-- A virtual memory: the word at each mapped address.
abbrev pub View : Type 0
View = ℕ → Option ℕ

abbrev pub has : ℕ → List ℕ → Bool
has a [] = false
has a (x ∷ xs) = (a == x) || has a xs

infix 40 ◌∉◌
abbrev pub ◌∉◌ : ℕ → List ℕ → Type 0
a ∉ xs = has a xs ≡ false

-- From `p` the first words of the blocks lead through the distinct addresses of the list to `stop`.
pub data Segment (view : View) (stop : ℕ) : ℕ → List ℕ → Type 0 where
  nil : Segment view stop stop []
  cons :
      {p q : ℕ} {xs : List ℕ}
      → p ≢ null
      → p < kernel_base
      → view p ≡ some q
      → p ∉ xs
      → Segment view stop q xs
      → Segment view stop p (p ∷ xs)

abbrev pub FreeList : View → ℕ → List ℕ → Type 0
FreeList view p xs = Segment view null p xs

module _ {view : View} {stop : ℕ} where
  -- A list survives a change that spares its blocks.
  pub Segment-frame :
      {view' : View} {p : ℕ} {xs : List ℕ}
      → Segment view stop p xs
      → ((a : ℕ) → a < kernel_base → has a xs ≡ true → view' a ≡ view a)
      → Segment view' stop p xs
  Segment-frame nil same = nil
  Segment-frame (cons {p} ne user e out s) same =
      cons ne user (same p user (ground arith) ∙ e) out
        (Segment-frame s (λ a u i. same a u (ground arith)))

  -- Every block of a list is mapped, is not null, and lies below the kernel.
  pub Segment-mapped :
      {p : ℕ} {xs : List ℕ} (a : ℕ)
      → Segment view stop p xs
      → has a xs ≡ true
      → (q : ℕ) × (view a ≡ some q) × (a ≢ null) × (a < kernel_base)
  Segment-mapped a nil i = cc
  Segment-mapped a (cons {p} {q} {xs} ne user e out s) i = elim (eq-or-ne a p) [
    | inl same ↦ (q, ap view same ∙ e, ground arith, omega arith)
    | inr other ↦ Segment-mapped a s (ground arith)
  ]

pub ne_of_has : {a c : ℕ} (xs : List ℕ) → a ∉ xs → has c xs ≡ true → a ≢ c
ne_of_has xs out i same = false≢true (sym out ∙ ap (λ t. has t xs) same ∙ i)

-- A write to a block outside the list.
pub FreeList-write :
    {view view' : View} {stop p : ℕ} {xs : List ℕ} (v word : ℕ)
    → Segment view stop p xs
    → ((w : ℕ) → w < kernel_base → view' w ≡ (if v == w then some word else view w))
    → v ∉ xs
    → Segment view' stop p xs
FreeList-write {xs} v word s write out =
    Segment-frame s (λ a u i. write a u ∙ rw (ne→== v a (ne_of_has xs out i)))

pub has-append : (a : ℕ) (xs ys : List ℕ) → has a (xs ++ ys) ≡ (has a xs || has a ys)
has-append a [] ys = refl
has-append a (x ∷ xs) ys = ground (arith, has-append a xs ys)

-- Two pieces of a list that share no block.
pub Segment-append :
    {view : View} {mid stop p : ℕ} {xs ys : List ℕ}
    → Segment view mid p xs
    → Segment view stop mid ys
    → ((a : ℕ) → has a xs ≡ true → a ∉ ys)
    → Segment view stop p (xs ++ ys)
Segment-append nil t apart = t
Segment-append {ys} (cons {p} {xs} ne user e out s) t apart =
    cons ne user e (ground (arith, has-append p xs ys, apart p))
      (Segment-append s t (λ a i. apart a (ground arith)))
