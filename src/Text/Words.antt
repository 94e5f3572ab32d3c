-- ===== src/Text/Words.antt =====
-- `tokinize_words` of lib/kutils.c, and `checkString` and `string_length` of
-- lib/raxzus_shell_ui.c. A C string is the list of its characters up to the NUL.
use mathlib.Core.Path.{ap₂}
use mathlib.Core.Option
use raxzus_heap_research.Base.{
  ltb, ◌==◌, if◌then◌else◌, lt→ltb, le→ltb, ne→==, Bool-cases, lt-or-le, length, length-append, ℕ,
  zero, suc, ◌+◌, ◌/◌, ◌≤◌, ◌<◌, ◌≡◌, refl, ap, ◌∙◌, ◌≢◌, ◌↔◌, ◌⊎◌, inl, inr, Bool, true, false,
  not, ◌&&◌, Option, none, some, List, [], ◌∷◌, ◌++◌, map, arith,
}

-- The quote state after a character.
abbrev pub toggles : Bool → ℕ → Bool
toggles is_string c = if c == b'"' then not is_string else is_string

-- The room in `argv`: 200 bytes are asked for, at 4 bytes an entry.
abbrev pub argv_entries : ℕ
argv_entries = 200 / 4

-- The loop over the line from offset `pos` on, with the next free entry `index` of `argv`: the line
-- as it is left, with the separating spaces overwritten by NUL, and the offsets that are stored in
-- `argv` from that entry on. An entry behind the end of `argv` is not allowed.
unfoldable pub tok_loop : (is_string : Bool) (pos index : ℕ) → List ℕ → Option (List ℕ × List ℕ)
tok_loop is_string pos index [] = some ([], [])
tok_loop is_string pos index (c ∷ input) =
    let quoted = toggles is_string c in
    let next = tok_loop quoted (pos + 1) (index + 1) input in
    let same = tok_loop quoted (pos + 1) index input in
    if c == b' ' && not quoted
    then (if ltb index argv_entries
        then Option.map (λ rest. (0 ∷ rest.0, (pos + 1) ∷ rest.1)) next
        else none)
    else Option.map (λ rest. (c ∷ rest.0, rest.1)) same

-- The line after the call, the offsets in `argv`, and the word count.
pub record Tokens : Type 0 where
  pub line : List ℕ
  pub argv : List ℕ
  pub parser_word_count : ℕ

unfoldable pub tokinize_words : List ℕ → Option Tokens
unfolding tok_loop
tokinize_words input =
    Option.map (λ r. record { line = r.0; argv = 0 ∷ r.1; parser_word_count = length r.1 + 1 })
      (tok_loop false 0 1 input)

-- What the loop makes of a line where `argv` has room for all entries: the line with NUL for each
-- separating space, and the offsets of the words.
unfoldable pub cuts : (is_string : Bool) (pos : ℕ) → List ℕ → List ℕ × List ℕ
cuts is_string pos [] = ([], [])
cuts is_string pos (c ∷ input) =
    let rest = cuts (toggles is_string c) (pos + 1) input in
    if c == b' ' && not (toggles is_string c)
    then (0 ∷ rest.0, (pos + 1) ∷ rest.1)
    else (c ∷ rest.0, rest.1)

-- The C string at an offset of the line.
abbrev until_nul : List ℕ → List ℕ
until_nul [] = []
until_nul (c ∷ cs) = let rest = until_nul cs in if c == 0 then [] else c ∷ rest

abbrev drop : ℕ → List ℕ → List ℕ
drop zero xs = xs
drop (suc n) [] = []
drop (suc n) (x ∷ xs) = drop n xs

unfoldable pub string_at : List ℕ → ℕ → List ℕ
string_at line offset = until_nul (drop offset line)

-- The words of a line: it is cut at each space outside quotes, and the quotes stay in the words.
-- The first word comes apart from the others.
unfoldable pub split_words : (quoted : Bool) → List ℕ → List ℕ × List (List ℕ)
split_words quoted [] = ([], [])
split_words quoted (c ∷ input) =
    let rest = split_words (toggles quoted c) input in
    if c == b' ' && not (toggles quoted c) then ([], rest.0 ∷ rest.1) else (c ∷ rest.0, rest.1)

abbrev pub HasNoNul : List ℕ → Type 0
HasNoNul [] = Unit {0}
HasNoNul (c ∷ cs) = (c ≢ 0) × HasNoNul cs

-- Reading behind a prefix.
drop-append : (xs ys : List ℕ) → drop (length xs) (xs ++ ys) ≡ ys
drop-append [] ys = refl
drop-append (x ∷ xs) ys = drop-append xs ys

append-cons : (xs : List ℕ) (y : ℕ) (ys : List ℕ) → xs ++ (y ∷ ys) ≡ (xs ++ y ∷ []) ++ ys
append-cons [] y ys = refl
append-cons (x ∷ xs) y ys = ap (λ t. x ∷ t) (append-cons xs y ys)

string_at-append : (xs ys : List ℕ) (n : ℕ) → n ≡ length xs → string_at (xs ++ ys) n ≡ until_nul ys
unfolding string_at
string_at-append xs ys n e = rw (e, drop-append xs ys)

-- The rest of a line, read behind one more character.
behind-cons :
    {words : List (List ℕ)} (front : List ℕ) (c : ℕ) (out : List ℕ) (starts : List ℕ)
    → map (string_at ((front ++ c ∷ []) ++ out)) starts ≡ words
    → map (string_at (front ++ c ∷ out)) starts ≡ words
behind-cons front c out starts e = ap (λ l. map (string_at l) starts) (append-cons front c out) ∙ e

abbrev Reads : List ℕ → Bool → ℕ → List ℕ → Type 0
Reads front quoted pos input =
    let out = cuts quoted pos input in
    let words = split_words quoted input in
    (until_nul out.0 ≡ words.0) × (map (string_at (front ++ out.0)) out.1 ≡ words.1)

cuts-Reads :
    (front : List ℕ) (quoted : Bool) (pos : ℕ) (input : List ℕ)
    → pos ≡ length front
    → HasNoNul input
    → Reads front quoted pos input
unfolding cuts split_words
cuts-Reads front quoted pos [] e h = (refl, refl)
cuts-Reads front quoted pos (c ∷ input) e (ne, h) =
    elim (Bool-cases (c == b' ' && not (toggles quoted c))) [
      | inl cut ↦
          let (first, others) =
            cuts-Reads (front ++ 0 ∷ []) (toggles quoted c) (pos + 1) input
              (omega (arith, length-append {0} front (0 ∷ []))) h in
          let out = cuts (toggles quoted c) (pos + 1) input in
          rw (cut) (
            refl,
            behind-cons front 0 out.0 ((pos + 1) ∷ out.1) (
                ap₂ ◌∷◌
                  (string_at-append (front ++ 0 ∷ []) out.0 (pos + 1)
                      (omega (arith, length-append {0} front (0 ∷ [])))
                    ∙ first)
                  others),
          )
      | inr kept ↦
          let (first, others) =
            cuts-Reads (front ++ c ∷ []) (toggles quoted c) (pos + 1) input
              (omega (arith, length-append {0} front (c ∷ []))) h in
          let out = cuts (toggles quoted c) (pos + 1) input in
          rw (kept)
            (rw (ne→== c 0 ne) (ap (λ t. c ∷ t) first), behind-cons front c out.0 out.1 others)
    ]

count-split :
    (quoted : Bool) (pos : ℕ) (input : List ℕ)
    → length (cuts quoted pos input).1 ≡ length (split_words quoted input).1
unfolding cuts split_words
count-split quoted pos [] = refl
count-split quoted pos (c ∷ input) = ground (arith, count-split (toggles quoted c) (pos + 1) input)

-- The loop writes the entries where they have room in `argv`, and otherwise past its end.
tok_loop_room :
    (quoted : Bool) (pos index : ℕ) (input : List ℕ)
    → index + length (cuts quoted pos input).1 ≤ argv_entries
    → tok_loop quoted pos index input ≡ some (cuts quoted pos input)
unfolding tok_loop cuts
tok_loop_room quoted pos index [] room = refl
tok_loop_room quoted pos index (c ∷ input) room =
    elim (Bool-cases (c == b' ' && not (toggles quoted c))) [
      | inl cut ↦
          let rest = cuts (toggles quoted c) (pos + 1) input in
          let some_room : index + (1 + length rest.1) ≤ argv_entries = ground (arith, cut, room) in
          rw
            (
              cut,
              lt→ltb index argv_entries (omega arith),
              tok_loop_room (toggles quoted c) (pos + 1) (index + 1) input (omega arith),
            )
            refl
      | inr kept ↦
          rw
            (
              kept,
              tok_loop_room (toggles quoted c) (pos + 1) index input (ground (arith, kept, room)),
            )
            refl
    ]

tok_loop_overflow :
    (quoted : Bool) (pos index : ℕ) (input : List ℕ)
    → index ≤ argv_entries
    → argv_entries < index + length (cuts quoted pos input).1
    → tok_loop quoted pos index input ≡ none
unfolding tok_loop cuts
tok_loop_overflow quoted pos index [] fits full = absurd (omega arith)
tok_loop_overflow quoted pos index (c ∷ input) fits full =
    elim (Bool-cases (c == b' ' && not (toggles quoted c))) [
      | inl cut ↦
          let rest = cuts (toggles quoted c) (pos + 1) input in
          let over : argv_entries < index + (1 + length rest.1) = ground (arith, cut, full) in
          elim (lt-or-le index argv_entries) [
            | inl room ↦
                rw
                  (
                    cut,
                    lt→ltb index argv_entries room,
                    tok_loop_overflow (toggles quoted c) (pos + 1) (index + 1) input (omega arith)
                        (omega arith),
                  )
                  refl
            | inr no_room ↦ rw (cut, le→ltb index argv_entries no_room) refl
          ]
      | inr kept ↦
          rw
            (
              kept,
              tok_loop_overflow (toggles quoted c) (pos + 1) index input fits
                  (ground (arith, kept, full)),
            )
            refl
    ]

-- Of a line without NUL that has at most 50 words, the strings that `argv` points to are the words
-- of the line, in order, and they are counted. With more words the call writes behind the 200 bytes
-- of `argv`.
pub tokinize_words-split :
    (input : List ℕ)
    → HasNoNul input
    → (let (first, others) = split_words false input in
        ((t : Tokens) × (tokinize_words input ≡ some t)
          × (map (string_at t.line) t.argv ≡ first ∷ others)
          × (t.parser_word_count ≡ length (first ∷ others))
          × (length (first ∷ others) ≤ 50))
        ⊎ ((tokinize_words input ≡ none) × (50 < length (first ∷ others))))
unfolding tokinize_words
tokinize_words-split input h =
    let (first, others) = cuts-Reads [] false 0 input refl h in
    let count = count-split false 0 input in
    elim (lt-or-le 50 (1 + length (cuts false 0 input).1)) [
      | inl full ↦ inr (
        rw (tok_loop_overflow false 0 1 input (omega arith) (omega arith)) refl,
        omega (arith, count),
      )
      | inr room ↦ inl (
        record {
          line = (cuts false 0 input).0;
          argv = 0 ∷ (cuts false 0 input).1;
          parser_word_count = length (cuts false 0 input).1 + 1;
        },
        rw (tok_loop_room false 0 1 input (omega arith)) refl,
        ap₂ ◌∷◌ (string_at-append [] (cuts false 0 input).0 0 refl ∙ first) others,
        omega (arith, count),
        omega (arith, count),
      )
    ]

-- The loop of `checkString`: it compares up to the end of the shorter string, then wants both ended.
unfoldable pub check_string : List ℕ → List ℕ → Bool
check_string [] [] = true
check_string [] (d ∷ compare_string) = false
check_string (c ∷ input) [] = false
check_string (c ∷ input) (d ∷ compare_string) =
    let rest = check_string input compare_string in if c == d then rest else false

-- `checkString` answers 1 exactly on equal strings.
pub check_string_iff : (a b : List ℕ) → (check_string a b ≡ true) ↔ (a ≡ b)
unfolding check_string
check_string_iff [] [] = ((λ h. refl), (λ h. refl))
check_string_iff [] (d ∷ b) = ((λ h. cc), (λ h. cc))
check_string_iff (c ∷ a) [] = ((λ h. cc), (λ h. cc))
check_string_iff (c ∷ a) (d ∷ b) =
    let (to, from) = check_string_iff a b in
    ((λ h. ground (arith, to)), (λ h. ground (arith, from)))
