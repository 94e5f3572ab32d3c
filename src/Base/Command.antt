-- ===== src/Base/Command.antt =====
-- Runs of kernel code over a state: a normal return, a machine that stops for ever (`while(1)`,
-- `hlt`), or an access that C or the processor does not allow.
use mathlib.Core.Path.{◌≡◌, refl}

pub data Run (S A : Type 0) : Type 0 where
  done : A → S → Run S A
  hang : Run S A
  fault : Run S A

abbrev pub Cmd : Type 0 → Type 0 → Type 0
Cmd S A = S → Run S A

module _ {S : Type 0} where
  abbrev pub and_then : {A B : Type 0} → Run S A → (A → Cmd S B) → Run S B
  and_then (done a s) k = k a s
  and_then hang k = hang
  and_then fault k = fault

  abbrev pub pure : {A : Type 0} → A → Cmd S A
  pure a s = done a s

  infixl 5 ◌>>=◌ ◌>>◌
  abbrev pub ◌>>=◌ : {A B : Type 0} → Cmd S A → (A → Cmd S B) → Cmd S B
  ◌>>=◌ m k s = and_then (m s) k

  abbrev pub ◌>>◌ : {B : Type 0} → Cmd S (Unit {0}) → Cmd S B → Cmd S B
  m >> k = m >>= λ _. k

  -- A bind that returns has a first part that returns.
  pub and_then-eq-done :
      {A B : Type 0} (r : Run S A) (k : A → Cmd S B) {b : B} {t : S}
      → and_then r k ≡ done b t
      → (a : A) × (s : S) × (r ≡ done a s) × (k a s ≡ done b t)
  and_then-eq-done (done a s) k h = (a, s, refl, h)
  and_then-eq-done hang k h = cc
  and_then-eq-done fault k h = cc
