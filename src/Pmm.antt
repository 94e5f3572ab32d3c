-- ===== src/Pmm.antt =====
-- lib/pmm.c without `map_page`: the bitmap of physical frames, its bit helpers, and the two
-- searches for a free frame. What the kernel prints is left out.
pub mod Marks
pub mod Search
pub mod Alloc
pub mod Init
pub mod High
pub mod Release
use raxzus_heap_research.Base.{
  ltb, ◌==◌, if◌then◌else◌, bit, done, hang, fault, Cmd, pure, ◌>>=◌, ◌>>◌, u32, sub32, int_div,
  int_mod, page_base, update, ℕ, zero, suc, ◌+◌, ◌-◌, ◌*◌, ◌/◌, ◌^◌, bit_and, bit_or, Bool, true,
  false, ◌&&◌,
}

abbrev pub bitmap_size : ℕ
bitmap_size = 32768

-- `ALLOCATE` and `FREE`.
abbrev pub allocate : ℕ
allocate = 1

abbrev pub free : ℕ
free = 0

-- The array `bitmap` by its index, and the counter.
pub record Frames : Type 0 where
  pub bitmap : ℕ → ℕ
  pub used_frames : ℕ

-- `IS_PHYSICAL`.
abbrev pub is_physical : ℕ → Bool
is_physical addr = ltb addr 0xC0000000

calculate_page : ℕ → ℕ
calculate_page frame_addr = int_div frame_addr 4096

find_index : ℕ → ℕ
find_index frame = int_div frame 32

find_bit : ℕ → ℕ
find_bit frame = int_mod frame 32

-- `bitmap[index] = change bitmap[index]`, as the value of the assignment. An index outside the
-- array (a negative `int` is a word from 2 ^ 31 on) and a shift by 32 or more are not allowed.
assign_word : ℕ → ℕ → (ℕ → ℕ) → Cmd Frames ℕ
assign_word index bit change f = elim (ltb index bitmap_size && ltb bit 32) [
  | true ↦
      let word = change (f.bitmap index) in
      done word (record f { bitmap = update f.bitmap index word })
  | false ↦ fault
]

set_bit : ℕ → ℕ → ℕ → Cmd Frames ℕ
unfolding assign_word
set_bit index bit status =
    if status == allocate
    then assign_word index bit (λ word. bit_or word (2 ^ bit))
    else if status == free
    then assign_word index bit (λ word. bit_and word (2 ^ 32 - 1 - 2 ^ bit))
    else pure 0

-- A failed assertion prints a message and returns.
unfoldable pub set_frame : ℕ → Cmd Frames (Unit {0})
unfolding calculate_page find_index find_bit set_bit
set_frame frame_addr =
    if is_physical frame_addr
    then (let frame = calculate_page frame_addr in
        do set_bit (find_index frame) (find_bit frame) allocate >>= λ _. pure tt)
    else pure tt

unfoldable pub clear_frame : ℕ → Cmd Frames ℕ
unfolding calculate_page find_index find_bit set_bit
clear_frame frame_addr =
    if is_physical frame_addr
    then (let frame = calculate_page frame_addr in set_bit (find_index frame) (find_bit frame) free)
    else pure 0

increment_used_frames : Cmd Frames (Unit {0})
increment_used_frames f = done tt (record f { used_frames = u32 (f.used_frames + 1) })

decrement_used_frames : Cmd Frames (Unit {0})
decrement_used_frames f = done tt (record f { used_frames = sub32 f.used_frames 1 })

-- What a loop over frames comes to: a free frame's address, the end of the loop, or `while(1)`.
pub data Scan : Type 0 where
  found : ℕ → Scan
  next : Scan
  stuck : Scan

abbrev pub or_else : Scan → Scan → Scan
or_else (found a) s = found a
or_else next s = s
or_else stuck s = stuck

-- The address of bit `pos` of word `index`.
abbrev pub frame_address : ℕ → ℕ → ℕ
frame_address index pos = u32 ((index * 32 + pos) * 4096)

-- The set bit, the counter and the return that both searches end with.
pub claim : Scan → Cmd Frames ℕ
unfolding set_frame increment_used_frames
claim (found address) = do set_frame address; increment_used_frames; pure address
claim next = pure 0
claim stuck = λ f. hang

-- Rounds `pos` to 31 over one word of the bitmap: `left` are left.
module _ (f : Frames) where
  kernel_bits : ℕ → ℕ → ℕ → ℕ → Scan
  kernel_bits safe_start index zero pos = next
  kernel_bits safe_start index (suc left) pos =
      let rest = kernel_bits safe_start index left (pos + 1) in
      let address = frame_address index pos in
      if bit_and (f.bitmap index) (2 ^ pos) == 0
      then (if ltb address safe_start then rest else found address)
      else rest

  pub kernel_words : ℕ → ℕ → ℕ → Scan
  unfolding kernel_bits
  kernel_words safe_start zero index = next
  kernel_words safe_start (suc left) index =
      let rest = kernel_words safe_start left (index + 1) in
      if f.bitmap index == 0xFFFFFFFF
      then rest
      else or_else (kernel_bits safe_start index 32 0) rest

  process_bits : ℕ → ℕ → ℕ → Scan
  process_bits index zero pos = next
  process_bits index (suc left) pos =
      let rest = process_bits index left (pos + 1) in
      let address = frame_address index pos in
      if address == 0
      then stuck
      else if bit_and (f.bitmap index) (2 ^ pos) == 0
      then found address
      else rest

  pub process_words : ℕ → ℕ → Scan
  unfolding process_bits
  process_words zero index = next
  process_words (suc left) index =
      let rest = process_words left (index + 1) in
      if f.bitmap index == 0xFFFFFFFF then rest else or_else (process_bits index 32 0) rest

-- The first page boundary from the physical end of the kernel on.
pub safe_start : ℕ → ℕ
safe_start heap_start = page_base (u32 (sub32 heap_start 0xC0000000 + 4095))

-- `heap_start` is the address of the linker's symbol `_heap_start`.
unfoldable pub get_next_free_kernel_frame : ℕ → Cmd Frames ℕ
unfolding claim kernel_words safe_start
get_next_free_kernel_frame heap_start f =
    let start = safe_start heap_start in
    let start_index = start / 4096 / 32 in
    claim (kernel_words f start (bitmap_size - start_index) start_index) f

unfoldable pub get_next_free_process_frame : Cmd Frames ℕ
unfolding claim process_words
get_next_free_process_frame f = claim (process_words f bitmap_size 0) f

-- `for (addr = 0; addr < end; addr += 4096)`: `left` rounds are left.
mark_kernel : ℕ → ℕ → Cmd Frames (Unit {0})
unfolding set_frame increment_used_frames
mark_kernel zero addr = pure tt
mark_kernel (suc left) addr = do
  set_frame addr
  increment_used_frames
  mark_kernel left (addr + 4096)

-- The rounds are the pages up to the kernel's physical end, the last one in part.
unfoldable pub init_pmm : ℕ → Cmd Frames (Unit {0})
unfolding mark_kernel
init_pmm heap_start f =
    let physical_kernel_memory_end = sub32 heap_start 0xC0000000 in
    mark_kernel ((physical_kernel_memory_end + 4095) / 4096) 0
      (record f { bitmap = λ i. if ltb i bitmap_size then 0 else f.bitmap i })
