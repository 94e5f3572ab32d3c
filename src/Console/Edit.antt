-- ===== src/Console/Edit.antt =====
-- The command buffer of lib/keyboard.c as a line editor.
use mathlib.Core.Path.{ap₂}
use raxzus_heap_research.Base.{
  ltb, ◌==◌, if◌then◌else◌, eq→==, ne→==, length, ℕ, zero, suc, ◌+◌, ◌≤◌, ◌<◌, ◌≡◌, refl, ap, ◌∙◌,
  ◌≢◌, Bool, true, false, ◌||◌, List, [], ◌∷◌, ◌++◌, arith,
}
use raxzus_heap_research.Text.Words.{HasNoNul}
use raxzus_heap_research.Console.Keyboard.{scancode_to_ascii, Keyboard, buffer_size, c_string}

-- A line editor: the keys that are held and the characters of the line.
pub record Editor : Type 0 where
  pub left_shift : Bool
  pub right_shift : Bool
  pub line : List ℕ

unfoldable pub drop_last : List ℕ → List ℕ
drop_last [] = []
drop_last (x ∷ []) = []
drop_last (x ∷ y ∷ xs) = x ∷ drop_last (y ∷ xs)

-- What a character does to the line; a full line stays as it is.
unfoldable pub edit : ℕ → List ℕ → List ℕ
edit ascii line =
    if ascii == 0
    then line
    else if ascii == 8
    then drop_last line
    else if ltb (length line) buffer_size
    then line ++ ascii ∷ []
    else line

-- What a key does, apart from the one that ends the line.
unfoldable pub editor_step : ℕ → Editor → Editor
editor_step scancode e =
    if scancode == 0x2A
    then record e { left_shift = true }
    else if scancode == 0xAA
    then record e { left_shift = false }
    else if scancode == 0x36
    then record e { right_shift = true }
    else if scancode == 0xB6
    then record e { right_shift = false }
    else if ltb scancode 128
    then record e {
      line = edit (scancode_to_ascii scancode (e.left_shift || e.right_shift)) e.line;
    }
    else e

-- The characters at `count` indices from `i` on.
abbrev pub contents : (ℕ → ℕ) → (i count : ℕ) → List ℕ
contents buffer i zero = []
contents buffer i (suc count) = buffer i ∷ contents buffer (i + 1) count

-- The buffer up to the position holds the line, in which there is no NUL.
pub record Represents (k : Keyboard) (e : Editor) : Type 0 where
  pub left : k.left_shift_pressed ≡ e.left_shift
  pub right : k.right_shift_pressed ≡ e.right_shift
  pub typed : contents k.command_buffer 0 k.buffer_pos ≡ e.line
  pub room : k.buffer_pos ≤ buffer_size
  pub text : HasNoNul e.line

pub length-contents : (buffer : ℕ → ℕ) (i count : ℕ) → length (contents buffer i count) ≡ count
length-contents buffer i zero = refl
length-contents buffer i (suc count) = ground (arith, length-contents buffer (i + 1) count)

pub contents-agree :
    (b b' : ℕ → ℕ) (i count : ℕ)
    → ((j : ℕ) → j < i + count → b' j ≡ b j)
    → contents b' i count ≡ contents b i count
contents-agree b b' i zero same = refl
contents-agree b b' i (suc count) same =
    ap₂ ◌∷◌ (same i (omega arith)) (contents-agree b b' (i + 1) count (λ j h. same j (omega arith)))

pub contents-snoc :
    (b : ℕ → ℕ) (i count : ℕ) → contents b i (suc count) ≡ contents b i count ++ b (i + count) ∷ []
contents-snoc b i zero = ap (λ t. b t ∷ []) (omega arith)
contents-snoc b i (suc count) =
    ap (λ t. b i ∷ t)
      (contents-snoc b (i + 1) count ∙ ap (λ t. contents b (i + 1) count ++ b t ∷ []) (omega arith))

pub drop_last-snoc : (xs : List ℕ) (x : ℕ) → drop_last (xs ++ x ∷ []) ≡ xs
unfolding drop_last
drop_last-snoc [] x = refl
drop_last-snoc (y ∷ []) x = refl
drop_last-snoc (y ∷ z ∷ xs) x = ap (λ t. y ∷ t) (drop_last-snoc (z ∷ xs) x)

pub HasNoNul-snoc : (xs : List ℕ) (x : ℕ) → HasNoNul xs → x ≢ 0 → HasNoNul (xs ++ x ∷ [])
HasNoNul-snoc [] x h ne = (ne, tt)
HasNoNul-snoc (y ∷ xs) x (n, h) ne = (n, HasNoNul-snoc xs x h ne)

pub HasNoNul-drop_last : (xs : List ℕ) → HasNoNul xs → HasNoNul (drop_last xs)
unfolding drop_last
HasNoNul-drop_last [] h = tt
HasNoNul-drop_last (x ∷ []) h = tt
HasNoNul-drop_last (x ∷ y ∷ xs) (n, h) = (n, HasNoNul-drop_last (y ∷ xs) h)

-- The C string of a line that is ended by NUL.
pub c_string-contents :
    (left i count : ℕ) (b : ℕ → ℕ)
    → count < left
    → HasNoNul (contents b i count)
    → b (i + count) ≡ 0
    → c_string left i b ≡ contents b i count
unfolding c_string
c_string-contents zero i count b h text nul = absurd (omega arith)
c_string-contents (suc left) i zero b h text nul =
    let z : b i ≡ 0 = ap b (omega arith) ∙ nul in rw (eq→== (b i) 0 z) refl
c_string-contents (suc left) i (suc count) b h (n, text) nul = rw (ne→== (b i) 0 n) (
    ap (λ t. b i ∷ t)
      (c_string-contents left (i + 1) count b (omega arith) text (ap b (omega arith) ∙ nul)))
