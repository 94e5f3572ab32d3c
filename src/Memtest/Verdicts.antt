-- ===== src/Memtest/Verdicts.antt =====
-- What the checks of lib/memtest.c find.
use raxzus_heap_research.Base.{
  ◌==◌, Bool-cases, done, and_then, ◌>>=◌, codes, ℕ, zero, suc, ◌+◌, ◌≡◌, refl, ap, ◌∙◌, inl, inr,
  Bool, true, ◌&&◌, some, List, [], ◌∷◌, ◌++◌,
}
use raxzus_heap_research.Text.Number.{int_to_hex_string}
use raxzus_heap_research.Machine.{Layout, Machine, load}
use raxzus_heap_research.Machine.Access.{peek, load-peek}
use raxzus_heap_research.Console.Screen.{Screen}
use raxzus_heap_research.Memtest.Bench.{Bench, on_machine_state, with_machine}
use raxzus_heap_research.Memtest.Fragments.{
  Kind, expected, slot, continue_if, check_slots, check_rounds,
}

-- The line with the address of the buffer.
abbrev pub pointer_line : ℕ → List ℕ
pointer_line buf = codes "  Got pointer: 0x" ++ (int_to_hex_string buf ++ codes "\n")

-- The values behind the pointers of round `i`.
abbrev Reads : Layout → (ℕ → ℕ) → ℕ → List Kind → List ℕ → Type 0
Reads l ram i [] [] = Unit {0}
Reads l ram i (kind ∷ kinds) (x ∷ xs) =
    ((p : ℕ) × (peek l ram (slot kind i) ≡ some p) × (peek l ram p ≡ some x))
    × Reads l ram i kinds xs
Reads l ram i _ _ = ⊥

-- Whether all are the values that were written.
abbrev intact : ℕ → List Kind → List ℕ → Bool
intact i (kind ∷ kinds) (x ∷ xs) = (x == expected kind i) && intact i kinds xs
intact i _ _ = true

pub load_on_bench :
    (l : Layout) (b : Bench) (v x : ℕ)
    → peek l b.kernel.machine.ram v ≡ some x
    → with_machine (load l v) b ≡ done x b
load_on_bench l b v x e = ap (λ r. on_machine_state r b) (load-peek l b.kernel.machine v x e)

pub slots_step :
    (l : Layout) (b : Bench) (i : ℕ) (kind : Kind) (kinds : List Kind) (p x : ℕ)
    → peek l b.kernel.machine.ram (slot kind i) ≡ some p
    → peek l b.kernel.machine.ram p ≡ some x
    → check_slots l i (kind ∷ kinds) b
      ≡ continue_if (x == expected kind i) (check_slots l i kinds) b
unfolding check_slots
slots_step l b i kind kinds p x e e' =
    ap
      (λ r. and_then r (λ q. with_machine (load l q) >>= λ y.
        continue_if (y == expected kind i) (check_slots l i kinds)))
      (load_on_bench l b (slot kind i) p e)
    ∙ ap (λ r. and_then r (λ y. continue_if (y == expected kind i) (check_slots l i kinds)))
        (load_on_bench l b p x e')

check_slots-intact :
    (l : Layout) (b : Bench) (i : ℕ) (kinds : List Kind) (xs : List ℕ)
    → Reads l b.kernel.machine.ram i kinds xs
    → check_slots l i kinds b ≡ done (intact i kinds xs) b
unfolding check_slots
check_slots-intact l b i [] [] h = refl
check_slots-intact l b i [] (x ∷ xs) h = absurd h
check_slots-intact l b i (kind ∷ kinds) [] h = absurd h
check_slots-intact l b i (kind ∷ kinds) (x ∷ xs) ((p, e, e'), h) =
    slots_step l b i kind kinds p x e e' ∙ elim (Bool-cases (x == expected kind i)) [
      | inl ok ↦ rw ok (check_slots-intact l b i kinds xs h)
      | inr bad ↦ rw bad refl
    ]

-- The values behind the pointers of the rounds from `i` on.
abbrev AllRead : Layout → (ℕ → ℕ) → (left i : ℕ) → (ℕ → List Kind) → (ℕ → List ℕ) → Type 0
AllRead l ram zero i kinds xs = Unit {0}
AllRead l ram (suc left) i kinds xs =
    Reads l ram i (kinds i) (xs i) × AllRead l ram left (i + 1) kinds xs

abbrev all_intact : (left i : ℕ) → (ℕ → List Kind) → (ℕ → List ℕ) → Bool
all_intact zero i kinds xs = true
all_intact (suc left) i kinds xs = intact i (kinds i) (xs i) && all_intact left (i + 1) kinds xs

-- The check of the blocks gives true exactly if every value that it reads is the one that was
-- written for its block; it changes nothing.
check_rounds-intact :
    (l : Layout) (b : Bench) (left i : ℕ) (kinds : ℕ → List Kind) (xs : ℕ → List ℕ)
    → AllRead l b.kernel.machine.ram left i kinds xs
    → check_rounds l left i kinds b ≡ done (all_intact left i kinds xs) b
unfolding check_rounds
check_rounds-intact l b zero i kinds xs h = refl
check_rounds-intact l b (suc left) i kinds xs (now, later) =
    ap (λ r. and_then r (λ ok. continue_if ok (check_rounds l left (i + 1) kinds)))
      (check_slots-intact l b i (kinds i) (xs i) now)
    ∙ elim (Bool-cases (intact i (kinds i) (xs i))) [
      | inl ok ↦ rw ok (check_rounds-intact l b left (i + 1) kinds xs later)
      | inr bad ↦ rw bad refl
    ]
