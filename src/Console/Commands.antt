-- ===== src/Console/Commands.antt =====
-- The disk commands of lib/raxzus_shell.c: what reaches the driver.
use mathlib.Core.Path.{ap₂}
use raxzus_heap_research.Text.Words.{check_string}
use raxzus_heap_research.Base.{ℕ, ◌*◌, ◌≤◌, ◌≡◌, true, List, [], ◌∷◌, arith}
use raxzus_heap_research.Text.Number.{string_to_int, int_to_string, string_to_int-int_to_string}
use raxzus_heap_research.Console.Shell.{
  Command, disk_write, disk_read, word, disk_arguments, dispatch,
}

-- The command, if it is a write, has the arguments of the four words, in range; if it is a read, its
-- buffer has the sectors of the third word, in range, and its block and its number of sectors are
-- fixed.
abbrev pub Checked : ℕ → List (List ℕ) → Command → Type 0
Checked n argv (disk_write lba sector_count text) =
    (n ≡ 4)
    × (lba ≡ string_to_int (word 1 argv))
    × (sector_count ≡ string_to_int (word 2 argv))
    × (text ≡ word 3 argv)
    × (lba ≤ 2000)
    × (sector_count ≤ 255)
Checked n argv (disk_read buffer_bytes lba sector_count) =
    (n ≡ 3)
    × (string_to_int (word 1 argv) ≤ 2000)
    × (buffer_bytes ≡ string_to_int (word 2 argv) * 512)
    × (buffer_bytes ≤ 255 * 512)
    × (lba ≡ 49)
    × (sector_count ≡ 10)
Checked n argv _ = Unit {0}

accepts :
    (lba count : ℕ) (name text : List ℕ)
    → lba ≤ 2000
    → count ≤ 255
    → disk_arguments 4 4 (name ∷ int_to_string lba ∷ int_to_string count ∷ text ∷ []) ≡ true
unfolding disk_arguments
accepts lba count name text small few =
    let (a, va) = string_to_int-int_to_string lba (omega arith) in
    let (b, vb) = string_to_int-int_to_string count (omega arith) in ground (arith, a, va, b, vb)

-- The words of a write command with printed numbers in range are read as that write.
pub dispatch-disk_write :
    (lba count : ℕ) (text : List ℕ)
    → lba ≤ 2000
    → count ≤ 255
    → dispatch 4 (
        (b'd' ∷ b'i' ∷ b's' ∷ b'k' ∷ b'W' ∷ [])
        ∷ int_to_string lba
        ∷ int_to_string count
        ∷ text
        ∷ [])
      ≡ disk_write lba count text
unfolding dispatch check_string
dispatch-disk_write lba count text small few =
    let (a, va) = string_to_int-int_to_string lba (omega arith) in
    let (b, vb) = string_to_int-int_to_string count (omega arith) in
    let ok = accepts lba count (b'd' ∷ b'i' ∷ b's' ∷ b'k' ∷ b'W' ∷ []) text small few in
    rw ok (ap₂ (λ x y. disk_write x y text) a b)
