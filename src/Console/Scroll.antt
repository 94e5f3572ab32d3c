-- ===== src/Console/Scroll.antt =====
-- What `print_char` of lib/vga.c does when the cursor has left the last row.
use raxzus_heap_research.Base.{
  ltb, leb, ◌==◌, if◌then◌else◌, lt→ltb, le→ltb, lt→leb, le→leb, lt-or-le, update, ℕ, zero, suc,
  ◌+◌, ◌*◌, ◌%◌, ◌≤◌, ◌<◌, ◌≡◌, refl, ap, ◌∙◌, ◌⊎◌, inl, inr, ◌&&◌, arith,
}
use raxzus_heap_research.Console.Screen.{
  Screen, put, copy_bytes, copy_rows, blank_cells, scroll, clear_cells, clear_rows, clear_screen,
}

copy_bytes_lem :
    (left byte row : ℕ) (vm : ℕ → ℕ) (i : ℕ)
    → byte + left ≤ 160
    → copy_bytes left byte row vm i
      ≡ (if leb (row * 160 + byte) i && ltb i (row * 160 + byte + left) then vm (i + 160) else vm i)
unfolding copy_bytes
copy_bytes_lem zero byte row vm i h = ground arith
copy_bytes_lem (suc left) byte row vm i h =
    let source : (row + 1) * 160 + byte ≡ row * 160 + byte + 160 = omega arith in
    let vm' = update vm (row * 160 + byte) (vm ((row + 1) * 160 + byte)) in
    let rest = copy_bytes_lem left (byte + 1) row vm' i (omega arith) in
    ground (arith, rest, ap vm source)

-- Inside and outside the row.
copy_bytes_in :
    (row : ℕ) (vm : ℕ → ℕ) (i : ℕ)
    → row * 160 ≤ i
    → i < row * 160 + 160
    → copy_bytes 160 0 row vm i ≡ vm (i + 160)
copy_bytes_in row vm i lo hi =
    copy_bytes_lem 160 0 row vm i (omega arith)
    ∙ rw (le→leb (row * 160 + 0) i (omega arith), lt→ltb i (row * 160 + 0 + 160) (omega arith)) refl

copy_bytes_out :
    (row : ℕ) (vm : ℕ → ℕ) (i : ℕ)
    → (i < row * 160) ⊎ (row * 160 + 160 ≤ i)
    → copy_bytes 160 0 row vm i ≡ vm i
copy_bytes_out row vm i (inl below) =
    copy_bytes_lem 160 0 row vm i (omega arith) ∙ rw (lt→leb (row * 160 + 0) i (omega arith)) refl
copy_bytes_out row vm i (inr above) =
    copy_bytes_lem 160 0 row vm i (omega arith)
    ∙ rw (le→leb (row * 160 + 0) i (omega arith), le→ltb i (row * 160 + 0 + 160) (omega arith)) refl

copy_rows_out :
    (left row : ℕ) (vm : ℕ → ℕ) (i : ℕ)
    → (i < row * 160) ⊎ (row * 160 + left * 160 ≤ i)
    → copy_rows left row vm i ≡ vm i
unfolding copy_rows
copy_rows_out zero row vm i out = refl
copy_rows_out (suc left) row vm i (inl below) =
    copy_rows_out left (row + 1) (copy_bytes 160 0 row vm) i (inl (omega arith))
    ∙ copy_bytes_out row vm i (inl below)
copy_rows_out (suc left) row vm i (inr above) =
    copy_rows_out left (row + 1) (copy_bytes 160 0 row vm) i (inr (omega arith))
    ∙ copy_bytes_out row vm i (inr (omega arith))

copy_rows_in :
    (left row : ℕ) (vm : ℕ → ℕ) (i : ℕ)
    → row * 160 ≤ i
    → i < row * 160 + left * 160
    → copy_rows left row vm i ≡ vm (i + 160)
unfolding copy_rows
copy_rows_in zero row vm i lo hi = absurd (omega arith)
copy_rows_in (suc left) row vm i lo hi = elim (lt-or-le i (row * 160 + 160)) [
  | inl here ↦
      copy_rows_out left (row + 1) (copy_bytes 160 0 row vm) i (inl (omega arith))
      ∙ copy_bytes_in row vm i lo here
  | inr there ↦
      copy_rows_in left (row + 1) (copy_bytes 160 0 row vm) i (omega arith) (omega arith)
      ∙ copy_bytes_out row vm (i + 160) (inr (omega arith))
]

-- The bytes of a blank row.
abbrev pub blank : ℕ → ℕ → ℕ
blank color i = if i % 2 == 0 then b' ' else color

blank_cells_lem :
    (left j color : ℕ) (vm : ℕ → ℕ) (i : ℕ)
    → j + left ≤ 80
    → blank_cells left j color vm i
      ≡ (if leb (3840 + j * 2) i && ltb i (3840 + (j + left) * 2) then blank color i else vm i)
unfolding blank_cells
blank_cells_lem zero j color vm i h = ground arith
blank_cells_lem (suc left) j color vm i h =
    let vm' = put ((24 * 80 + j) * 2) b' ' color vm in
    let rest = blank_cells_lem left (j + 1) color vm' i (omega arith) in ground (arith, rest)

-- Scrolling moves rows 1 to 24 up by one, blanks the last row in the current colour, leaves the
-- memory behind the screen, and puts the cursor at the start of the last row.
pub scroll_lem :
    (s : Screen) (i : ℕ)
    → ((scroll s).video_memory i ≡ (
        if ltb i 3840
        then s.video_memory (i + 160)
        else if ltb i 4000
        then blank s.color i
        else s.video_memory i))
      × ((scroll s).cursor_row ≡ 24)
      × ((scroll s).cursor_col ≡ 0)
unfolding scroll
scroll_lem s i =
    let vm' = copy_rows 24 0 s.video_memory in
    let last = blank_cells_lem 80 0 s.color vm' i (omega arith) in
    (
      elim (lt-or-le i 3840) [
        | inl up ↦
            let moved = copy_rows_in 24 0 s.video_memory i (omega arith) (omega arith) in
            last ∙ rw (lt→leb 3840 i up, lt→ltb i 3840 up) moved
        | inr behind ↦
            let kept = copy_rows_out 24 0 s.video_memory i (inr (omega arith)) in
            elim (lt-or-le i 4000) [
              | inl row ↦
                  last ∙ rw (le→leb 3840 i behind, lt→ltb i 4000 row, le→ltb i 3840 behind) refl
              | inr off ↦
                  last ∙ rw (le→leb 3840 i behind, le→ltb i 4000 off, le→ltb i 3840 behind) kept
            ]
      ],
      refl,
      refl,
    )

-- The bytes of a cleared row, from column `col` on.
clear_cells_lem :
    (left row col : ℕ) (vm : ℕ → ℕ) (i : ℕ)
    → col + left ≤ 80
    → row < 25
    → clear_cells left row col vm i ≡ (
        if leb ((row * 80 + col) * 2) i && ltb i ((row * 80 + col + left) * 2)
        then blank 0x07 i
        else vm i)
unfolding clear_cells
clear_cells_lem zero row col vm i h r = ground arith
clear_cells_lem (suc left) row col vm i h r =
    let vm' = put ((row * 80 + col) * 2) b' ' 0x07 vm in
    let rest = clear_cells_lem left row (col + 1) vm' i (omega arith) r in ground (arith, rest)

clear_rows_lem :
    (left row : ℕ) (vm : ℕ → ℕ) (i : ℕ)
    → row + left ≤ 25
    → clear_rows left row vm i
      ≡ (if leb (row * 160) i && ltb i ((row + left) * 160) then blank 0x07 i else vm i)
unfolding clear_rows
clear_rows_lem zero row vm i h = ground arith
clear_rows_lem (suc left) row vm i h =
    let vm' = clear_cells 80 row 0 vm in
    let rest = clear_rows_lem left (row + 1) vm' i (omega arith) in
    let here = clear_cells_lem 80 row 0 vm i (omega arith) (omega arith) in
    ground (arith, rest, here)

-- `clearScreen` blanks the 4000 bytes of the screen in light gray, leaves the memory behind them,
-- and puts the cursor at the top left.
pub clear_screen_lem :
    (s : Screen) (i : ℕ)
    → ((clear_screen s).video_memory i ≡ (if ltb i 4000 then blank 0x07 i else s.video_memory i))
      × ((clear_screen s).cursor_row ≡ 0)
      × ((clear_screen s).cursor_col ≡ 0)
unfolding clear_screen
clear_screen_lem s i =
    (clear_rows_lem 25 0 s.video_memory i (omega arith) ∙ ground arith, refl, refl)
