-- ===== src/Machine/Bytes.antt =====
-- C's accesses to single bytes through kernel pointers, in the words that hold them.
use raxzus_heap_research.Machine.Access.{kernel_base, peek, IsApart, load-peek, store-Written}
use raxzus_heap_research.Base.{
  ◌==◌, if◌then◌else◌, eq→==, ne→==, eq-or-ne, Run, done, Cmd, pure, ◌>>=◌, ℕ, zero, suc, ◌+◌, ◌*◌,
  ◌/◌, ◌%◌, ◌^◌, ◌<◌, ◌≡◌, refl, sym, ap, ◌∙◌, ◌≢◌, inl, inr, some, arith,
}
use raxzus_heap_research.Machine.{Layout, Machine, load, store}

-- Byte `i` of a word, and the word with another one.
abbrev pub byte : ℕ → ℕ → ℕ
byte word zero = word % 2 ^ 8
byte word (suc zero) = word / 2 ^ 8 % 2 ^ 8
byte word (suc (suc zero)) = word / 2 ^ 16 % 2 ^ 8
byte word (suc (suc (suc i))) = word / 2 ^ 24 % 2 ^ 8

abbrev pub with_byte : ℕ → ℕ → ℕ → ℕ
with_byte word zero b = word / 2 ^ 8 * 2 ^ 8 + b
with_byte word (suc zero) b = word / 2 ^ 16 * 2 ^ 16 + b * 2 ^ 8 + word % 2 ^ 8
with_byte word (suc (suc zero)) b = word / 2 ^ 24 * 2 ^ 24 + b * 2 ^ 16 + word % 2 ^ 16
with_byte word (suc (suc (suc i))) b = b * 2 ^ 24 + word % 2 ^ 24

abbrev pub word_base : ℕ → ℕ
word_base v = v / 4 * 4

module _ (l : Layout) where
  unfoldable pub load_byte : ℕ → Cmd Machine ℕ
  unfolding load
  load_byte v = do word ← load l (word_base v); pure (byte word (v % 4))

  unfoldable pub store_byte : ℕ → ℕ → Cmd Machine (Unit {0})
  unfolding load store
  store_byte v b = do word ← load l (word_base v); store l (word_base v) (with_byte word (v % 4) b)

pub byte-with_byte :
    (word i j b : ℕ)
    → i < 4
    → j < 4
    → b < 2 ^ 8
    → byte (with_byte word i b) j ≡ (if i == j then b else byte word j)
byte-with_byte word zero zero b h h' hb = omega arith
byte-with_byte word zero (suc zero) b h h' hb = omega arith
byte-with_byte word zero (suc (suc zero)) b h h' hb = omega arith
byte-with_byte word zero (suc (suc (suc j))) b h h' hb = ground arith
byte-with_byte word (suc zero) zero b h h' hb = omega arith
byte-with_byte word (suc zero) (suc zero) b h h' hb = omega arith
byte-with_byte word (suc zero) (suc (suc zero)) b h h' hb = omega arith
byte-with_byte word (suc zero) (suc (suc (suc j))) b h h' hb = ground arith
byte-with_byte word (suc (suc zero)) zero b h h' hb = omega arith
byte-with_byte word (suc (suc zero)) (suc zero) b h h' hb = omega arith
byte-with_byte word (suc (suc zero)) (suc (suc zero)) b h h' hb = omega arith
byte-with_byte word (suc (suc zero)) (suc (suc (suc j))) b h h' hb = ground arith
byte-with_byte word (suc (suc (suc i))) zero b h h' hb = ground arith
byte-with_byte word (suc (suc (suc i))) (suc zero) b h h' hb = ground arith
byte-with_byte word (suc (suc (suc i))) (suc (suc zero)) b h h' hb = ground arith
byte-with_byte word (suc (suc (suc i))) (suc (suc (suc j))) b h h' hb = ground arith

-- A mapped address below the kernel with its byte.
pub record HasByte (l : Layout) (ram : ℕ → ℕ) (v x : ℕ) : Type 0 where
  pub word : ℕ
  pub mapped : peek l ram (word_base v) ≡ some word
  pub value : byte word (v % 4) ≡ x

-- The outcome of a write of one byte.
pub record ByteWritten (l : Layout) (m : Machine) (v b : ℕ) (r : Run Machine (Unit {0}))
    : Type 0 where
  pub after : Machine
  pub returns : r ≡ done tt after
  pub frames : after.frames ≡ m.frames
  pub apart : IsApart l after.ram
  pub here : HasByte l after.ram v b
  pub elsewhere :
      (w x : ℕ) → w < kernel_base → w ≢ v → HasByte l m.ram w x → HasByte l after.ram w x

same_word : {a b : ℕ} → some a ≡ some b → a ≡ b
same_word e = cc

pub load_byte_lem :
    (l : Layout) (m : Machine) (v x : ℕ) → HasByte l m.ram v x → load_byte l v m ≡ done x m
unfolding load_byte
load_byte_lem l m v x h =
    rw (load-peek l m (word_base v) h.word h.mapped) (ap (λ t. done t m) h.value)

pub store_byte-ByteWritten :
    (l : Layout) (m : Machine) (v old b : ℕ)
    → IsApart l m.ram
    → v < kernel_base
    → b < 2 ^ 8
    → HasByte l m.ram v old
    → ByteWritten l m v b (store_byte l v b m)
unfolding store_byte
store_byte-ByteWritten l m v old b apart user small h =
    let base = word_base v in
    let new_word = with_byte h.word (v % 4) b in
    let w = store-Written l m base h.word new_word apart (omega arith) h.mapped in
    let at_base : peek l w.after.ram base ≡ some new_word =
      w.view base (omega arith) ∙ rw (eq→== base base refl) refl in
    record {
      after = w.after;
      returns = rw (load-peek l m base h.word h.mapped) w.returns;
      frames = w.frames;
      apart = w.apart;
      here = record {
        word = new_word;
        mapped = at_base;
        value =
            byte-with_byte h.word (v % 4) (v % 4) b (omega arith) (omega arith) small
            ∙ rw (eq→== (v % 4) (v % 4) refl) refl;
      };
      elsewhere = λ u x below other hu. elim (eq-or-ne base (word_base u)) [
        | inl same ↦ record {
          word = new_word;
          mapped = ap (peek l w.after.ram) (sym same) ∙ at_base;
          value =
              byte-with_byte h.word (v % 4) (u % 4) b (omega arith) (omega arith) small
              ∙ rw (ne→== (v % 4) (u % 4) (omega arith)) (
                  ap (λ t. byte t (u % 4))
                    (same_word (sym h.mapped ∙ ap (peek l m.ram) same ∙ hu.mapped))
                  ∙ hu.value);
        }
        | inr ne ↦ record {
          word = hu.word;
          mapped = w.view (word_base u) (omega arith) ∙ rw (ne→== base (word_base u) ne) hu.mapped;
          value = hu.value;
        }
      ];
    }
