-- ===== src/Console/Shell.antt =====
-- `process_input` of lib/raxzus_shell.c: which command a line calls, with which arguments.
use mathlib.Core.Option
use raxzus_heap_research.Base.{
  ltb, leb, ◌==◌, if◌then◌else◌, u32, ℕ, zero, suc, ◌*◌, ◌^◌, Bool, true, false, not, ◌&&◌, ◌||◌,
  Option, List, [], ◌∷◌, map,
}
use raxzus_heap_research.Text.Words.{tokinize_words, string_at, check_string}
use raxzus_heap_research.Text.Number.{is_valid_number, string_to_int}

-- What the shell calls or prints. A refused disk command prints what it expects. A read asks for a
-- buffer, and then calls the driver with a block and a number of sectors.
pub data Command : Type 0 where
  help neofetch mem time clear : Command
  memtest_usage memtest_v1 memtest_v2 memtest_unknown : Command
  disk_write : (lba sector_count : ℕ) (text : List ℕ) → Command
  disk_read : (buffer_bytes lba sector_count : ℕ) → Command
  refused not_found : Command

-- `argv[n]`, as the string that it points to.
abbrev pub word : ℕ → List (List ℕ) → List ℕ
word n [] = []
word zero (w ∷ argv) = w
word (suc n) (w ∷ argv) = word n argv

-- The four tests of the disk commands that end in a `return`.
unfoldable pub disk_arguments : (expected parser_count : ℕ) → List (List ℕ) → Bool
disk_arguments expected parser_count argv =
    let lba = string_to_int (word 1 argv) in
    let count = string_to_int (word 2 argv) in
    if not (parser_count == expected)
    then false
    else if not (is_valid_number (word 1 argv)) || not (is_valid_number (word 2 argv))
    then false
    else if (ltb 2000 lba && ltb lba (2 ^ 31)) || leb (2 ^ 31) lba
    then false
    else if leb (2 ^ 31) count || (ltb 255 count && ltb count (2 ^ 31))
    then false
    else true

-- The branch of `memtest`.
unfoldable pub memtest : (parser_count : ℕ) → List (List ℕ) → Command
memtest parser_count argv =
    if ltb parser_count 2
    then memtest_usage
    else if check_string (word 1 argv) (b'1' ∷ [])
    then memtest_v1
    else if check_string (word 1 argv) (b'2' ∷ [])
    then memtest_v2
    else memtest_unknown

-- The chain of tests on the first word.
unfoldable pub dispatch : (parser_count : ℕ) → List (List ℕ) → Command
dispatch parser_count argv =
    let name = word 0 argv in
    if check_string name (b'h' ∷ b'e' ∷ b'l' ∷ b'p' ∷ [])
    then help
    else if check_string name (b'n' ∷ b'e' ∷ b'o' ∷ b'f' ∷ b'e' ∷ b't' ∷ b'c' ∷ b'h' ∷ [])
    then neofetch
    else if check_string name (b'm' ∷ b'e' ∷ b'm' ∷ [])
    then mem
    else if check_string name (b'm' ∷ b'e' ∷ b'm' ∷ b't' ∷ b'e' ∷ b's' ∷ b't' ∷ [])
    then memtest parser_count argv
    else if check_string name (b't' ∷ b'i' ∷ b'm' ∷ b'e' ∷ [])
    then time
    else if check_string name (b'c' ∷ b'l' ∷ b'e' ∷ b'a' ∷ b'r' ∷ [])
    then clear
    else if check_string name (b'd' ∷ b'i' ∷ b's' ∷ b'k' ∷ b'W' ∷ [])
    then (if disk_arguments 4 parser_count argv
        then disk_write (string_to_int (word 1 argv)) (string_to_int (word 2 argv)) (word 3 argv)
        else refused)
    else if check_string name (b'd' ∷ b'i' ∷ b's' ∷ b'k' ∷ b'R' ∷ [])
    then (if disk_arguments 3 parser_count argv
        then disk_read (u32 (string_to_int (word 2 argv) * 512)) 49 10
        else refused)
    else not_found

-- None where the words have no room in `argv`.
unfoldable pub process_input : List ℕ → Option Command
process_input input =
    Option.map (λ t. dispatch t.parser_word_count (map (string_at t.line) t.argv))
      (tokinize_words input)

-- `kfree(argv)` at the end of the function is not reached from a `return`.
unfoldable pub frees_argv : Command → Bool
frees_argv refused = false
frees_argv _ = true
