-- ===== src/Console/Faults.antt =====
-- The exception handlers of lib/exceptions.c, and the system calls of lib/forgeproc.c. They run with
-- interrupts off, so a `hlt` stops the machine for good.
use raxzus_heap_research.Base.{
  leb, ◌==◌, if◌then◌else◌, done, Cmd, pure, ◌>>=◌, ◌>>◌, u32, codes, ℕ, ◌*◌, ◌/◌, ◌^◌, bit_and,
  Bool, not, ◌||◌, Option, none, some, List, [], ◌∷◌,
}
use raxzus_heap_research.Console.Screen.{Screen, clear_screen}
use raxzus_heap_research.Console.Print.{make_color, set_color, string, int, kprintf}
use raxzus_heap_research.Console.Banners.{say}

-- Whether the machine still runs; a halted one leaves its screen as it is.
pub data Progress : Type 0 where
  runs halted : Progress

abbrev pub hlt : Cmd Screen Progress
hlt s = done halted s

-- What follows a `hlt` is reached only by a machine that still runs.
abbrev pub if_running : Progress → Cmd Screen Progress → Cmd Screen Progress
if_running runs p = p
if_running halted p = pure halted

unfoldable pub divide_by_zero_handler : Cmd Screen Progress
unfolding kprintf
divide_by_zero_handler = do
  say (codes "%e Divide by zero exception occurred!\n")
  say (
      codes
        "%e ehm..... no? That is not allowed in math or in the kernel. Like do you know how uppset the cpu is? You have him constantly trying to solve this equation.\n")
  say (
      codes
        "%e a/b = c => cb = a => 0 = cb - a (a can not be 0 since 0/0 is a whole other torture.) When in 0 = cb - a where a can't be 0 can it become true?")
  say (
      codes
        "%e Never think about it doing 0 = cb - a would be infinite and the cpu would be stuck in a loop.\n")
  say (codes "%e and you just like... divide by zero? That is not nice.\n")
  hlt

-- What the entry code leaves on the stack.
pub record Registers : Type 0 where
  pub edi : ℕ
  pub esi : ℕ
  pub ebp : ℕ
  pub esp : ℕ
  pub ebx : ℕ
  pub edx : ℕ
  pub ecx : ℕ
  pub eax : ℕ
  pub err_code : ℕ
  pub eip : ℕ
  pub cs : ℕ
  pub eflags : ℕ
  pub user_esp : ℕ
  pub ss : ℕ

-- `if (error_code & mask)`.
abbrev pub has_bit : ℕ → ℕ → Bool
has_bit error_code mask = not (bit_and error_code mask == 0)

abbrev pub when : Bool → Cmd Screen (Unit {0}) → Cmd Screen (Unit {0})
when b p = if b then p else pure tt

-- What `page_fault_handler` prints.
unfoldable pub page_fault_report : (error_code faulting_address : ℕ) → Cmd Screen (Unit {0})
unfolding kprintf
page_fault_report error_code faulting_address = do
  say (codes "%e Page fault exception occurred!\n")
  kprintf (codes "-> Faulting address: 0x%x\n") (int faulting_address ∷ [])
  when (not (has_bit error_code 0x1)) (do
    say (codes "-> Page not present\n")
    say (codes "-> %eYou tried to access memory that doesn't exist\n"))
  when (has_bit error_code 0x2) (do
    say (codes "-> Write violation\n")
    say (codes "-> %eYou tried to write to read-only memory. Naughty.\n"))
  when (has_bit error_code 0x4) (do
    say (codes "-> User mode violation\n")
    say (codes "-> %eUser code tried to access kernel memory. Nice try buddy.\n"))

-- The faulting address is the register `cr2`.
unfoldable pub page_fault_handler : Registers → (cr2 : ℕ) → Cmd Screen Progress
unfolding page_fault_report
page_fault_handler regs cr2 = do page_fault_report regs.err_code cr2; hlt

-- What `general_protection_fault_handler` prints before its first `hlt`; `stack` is the address of
-- the registers.
unfoldable pub protection_report : Registers → (stack : ℕ) → Cmd Screen (Unit {0})
unfolding kprintf
protection_report regs stack = do
  kprintf (codes "\nThe ESP was pointing at: %x\n") (int stack ∷ [])
  kprintf (codes "The EIP was pointing at: %x\n") (int regs.eip ∷ [])
  kprintf (codes "The CS was pointing at: %x\n") (int regs.cs ∷ [])
  kprintf (codes "The EFLAG was pointing at: %x\n") (int regs.eflags ∷ [])
  say (codes "%e General protection fault exception occurred!\n")
  kprintf (codes "The error code was: %d\n") (int regs.err_code ∷ [])

abbrev pub table_name : ℕ → List ℕ
table_name table =
    if table == 0
    then codes "GDT"
    else if table == 1
    then codes "IDT"
    else if table == 2
    then codes "LDT"
    else codes "IDT"

-- The decoding of the error code behind that `hlt`.
unfoldable pub protection_decoding : (error_code : ℕ) → Cmd Screen (Unit {0})
unfolding kprintf
protection_decoding error_code =
    let external = bit_and error_code 0x1 in
    let table = bit_and (error_code / 2 ^ 1) 0x3 in
    let selector_index = bit_and (error_code / 2 ^ 3) 0x1FFF in
    if error_code == 0
    then (do
      say (codes "-> %eBad instruction or memory access\n")
      say (codes "-> %eCheck: Stack pointer, EIP, memory addresses\n")
      say (codes "-> %ePro tip: Pointers should point to ACTUAL mamoery (Chocking I know)\n")
      say (codes "-> %e So can you like not do that? Thanks.\n"))
    else (do
      kprintf (codes "-> Error code: 0x%x\n") (int error_code ∷ [])
      kprintf (codes "-> Selector index: %d\n") (int selector_index ∷ [])
      kprintf (codes "-> Table: %s\n") (string (table_name table) ∷ [])
      kprintf (codes "-> External: %s\n")
          (string (if external == 0 then codes "No" else codes "Yes") ∷ [])
      if table == 0
          then (do
            kprintf (codes "-> %eProblem with GDT entry %d\n") (int selector_index ∷ [])
            say (codes "-> %eYour code/data segment is sus\n"))
          else when (table == 1) (do
            kprintf (codes "-> %eProblem with IDT entry %d\n") (int selector_index ∷ [])
            say (codes "-> %eYour interrupt handler messed up\n"))
      say (codes "-> %e What have I told you about assuming segments? Stop it get some help.\n")
      say (codes "-> %eWeird error code, good luck!\n")
      say (
          codes
            "-> %e Congrats you found a legendary error, but like this is not pokemon... good luck debging you need it.\n"))

unfoldable pub general_protection_fault_handler : Registers → (stack : ℕ) → Cmd Screen Progress
unfolding kprintf protection_report protection_decoding
general_protection_fault_handler regs stack = do
  protection_report regs stack
  state ← hlt
  if_running state
      (do protection_decoding regs.err_code; say (codes "\nHalting the system...\n"); hlt)

unfoldable pub double_fault_report : (error_code : ℕ) → Cmd Screen (Unit {0})
unfolding set_color make_color kprintf
double_fault_report error_code = do
  set_color (make_color 0x0F 0x04)
  λ s. done tt (clear_screen s)
  say (codes "!!!!!!!!!!!!!!!!!!!!!!!!!!!!!!!!!!!!!!!!!!!!!!!!\n")
  say (codes "!!!          CRITICAL: DOUBLE FAULT          !!!\n")
  say (codes "!!!!!!!!!!!!!!!!!!!!!!!!!!!!!!!!!!!!!!!!!!!!!!!!\n")
  kprintf (codes "\nError Code: %x\n") (int error_code ∷ [])
  say (codes "The CPU encountered a fault while trying to\n")
  say (codes "handle a previous fault. Likely causes:\n")
  say (codes "1. Kernel Stack Overflow\n")
  say (codes "2. IDT/GDT pointing to unmapped memory\n")
  say (codes "3. Recursive Page Faults\n")

unfoldable pub double_fault_handler : (error_code : ℕ) → Cmd Screen Progress
unfolding double_fault_report
double_fault_handler error_code = do double_fault_report error_code; hlt

-- `sleep`: the registers of the interrupt 0x81, or none when it only prints. The number is the bit
-- pattern of an `int`.
unfoldable pub sleep : (time : ℕ) → Cmd Screen (Option (ℕ × ℕ))
unfolding kprintf
sleep time =
    if time == 0 || leb (2 ^ 31) time
    then (do
      kprintf (codes "%e you can not make a process sleep: %d ms") (int (u32 (time * 10)) ∷ [])
      pure none)
    else pure (some (1, time))

-- `regs` at the address `stack`. Only the case 3 behind the `hlt` does something.
unfoldable pub system_call_interrupt_handler : Registers → (stack : ℕ) → Cmd Screen Progress
unfolding kprintf
system_call_interrupt_handler regs stack = do
  kprintf (codes "The adress is: %x\n") (int stack ∷ [])
  kprintf (codes "The adress eax is: %x\n") (int regs.eax ∷ [])
  state ← hlt
  if_running state (if regs.eax == 3 then (do say (codes "fgsdffdfsds\n"); hlt) else pure runs)
