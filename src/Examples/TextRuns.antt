-- ===== src/Examples/TextRuns.antt =====
-- The text routines on concrete lines.
use raxzus_heap_research.Base.{
  ℕ, ◌≤◌, ◌<◌, ◌≡◌, ◌≢◌, ◌⊎◌, true, none, some, List, [], ◌∷◌, map, arith,
}
use raxzus_heap_research.Text.Number.{
  is_valid_number, string_to_int, int_to_string, string_to_int-int_to_string,
}
use raxzus_heap_research.Text.Words.{
  Tokens, tokinize_words, string_at, split_words, HasNoNul, tokinize_words-split,
}

string_to_int-int_to_string_example :
    (string_to_int (int_to_string 4096) ≡ 4096) × (is_valid_number (int_to_string 4096) ≡ true)
string_to_int-int_to_string_example = string_to_int-int_to_string 4096 (omega arith)

-- `a "b c" d`.
abbrev typed : List ℕ
typed = b'a' ∷ b' ' ∷ b'"' ∷ b'b' ∷ b' ' ∷ b'c' ∷ b'"' ∷ b' ' ∷ b'd' ∷ []

typed-HasNoNul : HasNoNul typed
typed-HasNoNul =
    let n : (c : ℕ) → 0 < c → c ≢ 0 = λ c h e. absurd (omega arith) in
    (
      n _ (omega arith),
      (
        n _ (omega arith),
        (
          n _ (omega arith),
          (
            n _ (omega arith),
            (
              n _ (omega arith),
              (
                n _ (omega arith),
                (n _ (omega arith), (n _ (omega arith), (n _ (omega arith), tt))),
              ),
            ),
          ),
        ),
      ),
    )

abbrev typed_words : List (List ℕ)
typed_words = (b'a' ∷ []) ∷ (b'"' ∷ b'b' ∷ b' ' ∷ b'c' ∷ b'"' ∷ []) ∷ (b'd' ∷ []) ∷ []

tokinize_words-split_example :
    ((t : Tokens) × (tokinize_words typed ≡ some t)
      × (map (string_at t.line) t.argv ≡ typed_words)
      × (t.parser_word_count ≡ 3)
      × (3 ≤ 50))
    ⊎ ((tokinize_words typed ≡ none) × (50 < 3))
unfolding split_words
tokinize_words-split_example = tokinize_words-split typed typed-HasNoNul
