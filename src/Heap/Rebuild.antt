-- ===== src/Heap/Rebuild.antt =====
-- What a change of one size class of lib/heap_domain.c leaves of the heap.
use raxzus_heap_research.Base.{ne→==, ℕ, ◌≡◌, sym, ap, subst, ◌≢◌, ◌⊎◌, inl, inr, true, false, List}
use raxzus_heap_research.Machine.{Layout, Machine}
use raxzus_heap_research.Machine.Access.{peek, IsApart}
use raxzus_heap_research.Heap.Domain.{Domain}
use raxzus_heap_research.Heap.Route.{SizeClass, Kernel, get_domain, set_domain}
use raxzus_heap_research.Heap.Chain.{has, FreeList}
use raxzus_heap_research.Heap.Lifo.{HasFree}
use raxzus_heap_research.Heap.RoundTrip.{get-set_self, machine-set}
use raxzus_heap_research.Heap.Live.{Held, taken, IsBlock, IsHeap, get-set_other, same-class}

-- The free lists with another one for a class.
abbrev pub pick : {c c' : SizeClass} → (c ≡ c') ⊎ (c ≢ c') → List ℕ → List ℕ → List ℕ
pick (inl e) xs ys = xs
pick (inr e) xs ys = ys

abbrev pub replaced : SizeClass → List ℕ → (SizeClass → List ℕ) → SizeClass → List ℕ
replaced c xs free c' = pick (same-class c c') xs (free c')

-- What is shown of the new list and of the lists of the other classes holds of all lists.
for_replaced {κ} :
    (P : SizeClass → List ℕ → Type κ) (c : SizeClass) (xs : List ℕ) (free : SizeClass → List ℕ)
    → P c xs
    → ((c' : SizeClass) → c ≢ c' → P c' (free c'))
    → (c' : SizeClass) → P c' (replaced c xs free c')
for_replaced P c xs free here there c' = go (same-class c c')
  where
    go : (s : (c ≡ c') ⊎ (c ≢ c')) → P c' (pick s xs (free c'))
    go (inl e) = subst (λ t. P t xs) e here
    go (inr ne) = there c' ne

pub not_taken : {p : ℕ} (live : Held) (q : ℕ) → q ≢ p → live q ≡ false → taken p live q ≡ false
not_taken {p} live q ne h = rw (ne→== q p ne) h

-- A kernel after a change of one class.
pub rebuild :
    (l : Layout) (k : Kernel) (c : SizeClass) (m : Machine) (d : Domain) (live : Held)
    (free : SizeClass → List ℕ) (xs : List ℕ)
    → HasFree l m d xs
    → ((c' : SizeClass)
        → c ≢ c'
        → FreeList (peek l m.ram) (get_domain c' k).next_free_block (free c'))
    → ((q : ℕ) → has q xs ≡ true → IsBlock l m.ram c q × (live q ≡ false))
    → ((c' : SizeClass)
        → c ≢ c'
        → (q : ℕ) → has q (free c') ≡ true
        → IsBlock l m.ram c' q × (live q ≡ false))
    → ((q : ℕ) → live q ≡ true → (c' : SizeClass) × IsBlock l m.ram c' q)
    → IsHeap l (set_domain c k m d) live (replaced c xs free)
rebuild l k c m d live free xs h chains here there held =
    let k' = set_domain c k m d in
    let ram' : k'.machine.ram ≡ m.ram = ap (λ t. t.ram) (machine-set c k m d) in
    let blocks =
      for_replaced (λ c' ys. (q : ℕ) → has q ys ≡ true → IsBlock l m.ram c' q × (live q ≡ false)) c
        xs free here there in
    record {
      apart = subst (IsApart l) (sym ram') h.apart;
      chain =
          for_replaced
            (λ c' ys. FreeList (peek l k'.machine.ram) (get_domain c' k').next_free_block ys) c xs
            free (rw (get-set_self c k m d, machine-set c k m d) h.chain)
            (λ c' ne. rw (get-set_other c c' k m d ne, machine-set c k m d) (chains c' ne));
      free_block = λ c' q i. subst (λ t. IsBlock l t c' q) (sym ram') (blocks c' q i).0;
      live_block = λ q i. subst (λ t. (c' : SizeClass) × IsBlock l t c' q) (sym ram') (held q i);
      not_held = λ c' q i. (blocks c' q i).1;
    }
