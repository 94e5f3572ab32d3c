-- ===== src/Console/Reports.antt =====
-- What the handlers of lib/exceptions.c have printed when they stop the machine.
use raxzus_heap_research.Base.{
  leb, ◌==◌, if◌then◌else◌, done, Cmd, and_then, pure, ◌>>=◌, ◌>>◌, u32, codes, ℕ, ◌*◌, ◌^◌, ◌≤◌,
  ◌<◌, ◌≡◌, refl, ap, ◌∙◌, ◌⊎◌, Bool, true, false, not, ◌||◌, none, some, List, [], ◌∷◌, ◌++◌,
  arith,
}
use raxzus_heap_research.Text.Number.{int_to_string, int_to_hex_string}
use raxzus_heap_research.Console.Screen.{Screen, print}
use raxzus_heap_research.Console.Print.{int, kprintf, formatted, color-print}
use raxzus_heap_research.Console.Draws.{Says, pure-Says, seq-Says, then_format, format-Says}
use raxzus_heap_research.Console.Banners.{say}
use raxzus_heap_research.Console.Faults.{
  Progress, runs, halted, hlt, if_running, Registers, has_bit, when, page_fault_report,
  page_fault_handler, protection_report, protection_decoding, general_protection_fault_handler,
  sleep, system_call_interrupt_handler,
}

when-Says :
    {p : Cmd Screen (Unit {0})} (b : Bool) (text : List ℕ)
    → Says p text
    → Says (when b p) (if b then text else [])
when-Says {p} true text h = h
when-Says {p} false text h = pure-Says

two_lines :
    (a b xs ys : List ℕ)
    → formatted false a [] ≡ some xs
    → formatted false b [] ≡ some ys
    → Says (say a >> say b) (xs ++ ys)
two_lines a b xs ys h h' = then_format a [] xs ys h (format-Says b [] ys h')

abbrev absent_text : List ℕ
absent_text = codes "-> Page not present\n-> You tried to access memory that doesn't exist\n"

abbrev write_text : List ℕ
write_text = codes "-> Write violation\n-> You tried to write to read-only memory. Naughty.\n"

abbrev user_text : List ℕ
user_text =
    codes "-> User mode violation\n-> User code tried to access kernel memory. Nice try buddy.\n"

-- The report of a page fault.
abbrev pub page_fault_text : (error_code faulting_address : ℕ) → List ℕ
page_fault_text error_code faulting_address =
    codes " Page fault exception occurred!\n"
    ++ ((codes "-> Faulting address: 0x" ++ (int_to_hex_string faulting_address ++ codes "\n"))
        ++ ((if not (has_bit error_code 1) then absent_text else [])
            ++ ((if has_bit error_code 2 then write_text else [])
                ++ (if has_bit error_code 4 then user_text else []))))

page_fault_report-Says :
    (error_code faulting_address : ℕ)
    → Says
        (page_fault_report error_code faulting_address)
        (page_fault_text error_code faulting_address)
unfolding page_fault_report formatted
page_fault_report-Says error_code faulting_address =
    then_format (codes "%e Page fault exception occurred!\n") [] _ _ refl (
      then_format (codes "-> Faulting address: 0x%x\n") (int faulting_address ∷ []) _ _ refl (
        seq-Says (if not (has_bit error_code 1) then absent_text else []) _
          (when-Says (not (has_bit error_code 1)) absent_text (
            two_lines (codes "-> Page not present\n")
              (codes "-> %eYou tried to access memory that doesn't exist\n")
              (codes "-> Page not present\n")
              (codes "-> You tried to access memory that doesn't exist\n") refl refl))
          (seq-Says (if has_bit error_code 2 then write_text else []) _
            (when-Says (has_bit error_code 2) write_text (
              two_lines (codes "-> Write violation\n")
                (codes "-> %eYou tried to write to read-only memory. Naughty.\n")
                (codes "-> Write violation\n")
                (codes "-> You tried to write to read-only memory. Naughty.\n") refl refl))
            (when-Says (has_bit error_code 4) user_text (
              two_lines (codes "-> User mode violation\n")
                (codes "-> %eUser code tried to access kernel memory. Nice try buddy.\n")
                (codes "-> User mode violation\n")
                (codes "-> User code tried to access kernel memory. Nice try buddy.\n") refl
                refl)))))

-- In the white colour, the handler of a page fault shows the address and one explanation for each of
-- the three bits of the error code, and with that on the screen it halts the machine.
pub page_fault_lem :
    (regs : Registers) (cr2 : ℕ) (s : Screen)
    → s.color ≡ 0x0F
    → page_fault_handler regs cr2 s ≡ done halted (print (page_fault_text regs.err_code cr2) s)
unfolding page_fault_handler
page_fault_lem regs cr2 s w =
    ap (λ r. and_then r (λ _. hlt)) (page_fault_report-Says regs.err_code cr2 s w)

-- A `hlt` behind a report, whatever follows.
stops :
    (p : Cmd Screen (Unit {0})) (q : Cmd Screen Progress) (s : Screen) {t : Screen}
    → p s ≡ done tt t
    → (p >> (hlt >>= λ state. if_running state q)) s ≡ done halted t
stops p q s e = ap (λ r. and_then r (λ _. hlt >>= λ state. if_running state q)) e

-- A line that ends in a hexadecimal number.
abbrev pub hex_line : List ℕ → ℕ → List ℕ
hex_line front n = front ++ (int_to_hex_string n ++ codes "\n")

esp_line :
    (n : ℕ)
    → formatted false (codes "\nThe ESP was pointing at: %x\n") (int n ∷ [])
      ≡ some (hex_line (codes "\nThe ESP was pointing at: ") n)
unfolding formatted
esp_line n = refl

eip_line :
    (n : ℕ)
    → formatted false (codes "The EIP was pointing at: %x\n") (int n ∷ [])
      ≡ some (hex_line (codes "The EIP was pointing at: ") n)
unfolding formatted
eip_line n = refl

cs_line :
    (n : ℕ)
    → formatted false (codes "The CS was pointing at: %x\n") (int n ∷ [])
      ≡ some (hex_line (codes "The CS was pointing at: ") n)
unfolding formatted
cs_line n = refl

eflags_line :
    (n : ℕ)
    → formatted false (codes "The EFLAG was pointing at: %x\n") (int n ∷ [])
      ≡ some (hex_line (codes "The EFLAG was pointing at: ") n)
unfolding formatted
eflags_line n = refl

abbrev protection_title : List ℕ
protection_title = codes " General protection fault exception occurred!\n"

title_line :
    formatted false (codes "%e General protection fault exception occurred!\n") []
    ≡ some protection_title
unfolding formatted
title_line = refl

abbrev code_line : ℕ → List ℕ
code_line n = codes "The error code was: " ++ (int_to_string n ++ codes "\n")

code_line_lem :
    (n : ℕ) → formatted false (codes "The error code was: %d\n") (int n ∷ []) ≡ some (code_line n)
unfolding formatted
code_line_lem n = refl

-- The registers that a general protection fault shows, then its error code as an `int`.
abbrev pub protection_text : Registers → (stack : ℕ) → List ℕ
protection_text regs stack =
    hex_line (codes "\nThe ESP was pointing at: ") stack
    ++ (hex_line (codes "The EIP was pointing at: ") regs.eip
        ++ (hex_line (codes "The CS was pointing at: ") regs.cs
            ++ (hex_line (codes "The EFLAG was pointing at: ") regs.eflags
                ++ (protection_title ++ code_line regs.err_code))))

protection_report-Says :
    (regs : Registers) (stack : ℕ)
    → Says (protection_report regs stack) (protection_text regs stack)
unfolding protection_report
protection_report-Says regs stack =
    then_format (codes "\nThe ESP was pointing at: %x\n") (int stack ∷ [])
      (hex_line (codes "\nThe ESP was pointing at: ") stack) _ (esp_line stack)
      (then_format (codes "The EIP was pointing at: %x\n") (int regs.eip ∷ [])
        (hex_line (codes "The EIP was pointing at: ") regs.eip) _ (eip_line regs.eip)
        (then_format (codes "The CS was pointing at: %x\n") (int regs.cs ∷ [])
          (hex_line (codes "The CS was pointing at: ") regs.cs) _ (cs_line regs.cs)
          (then_format (codes "The EFLAG was pointing at: %x\n") (int regs.eflags ∷ [])
            (hex_line (codes "The EFLAG was pointing at: ") regs.eflags) _ (eflags_line regs.eflags)
            (then_format (codes "%e General protection fault exception occurred!\n") []
              protection_title _ title_line
              (format-Says (codes "The error code was: %d\n") (int regs.err_code ∷ [])
                (code_line regs.err_code) (code_line_lem regs.err_code))))))

-- In the white colour, the handler of a general protection fault shows four addresses and the error
-- code, and with exactly that on the screen it halts the machine: the decoding of the error code
-- behind the first `hlt` never shows.
pub protection_fault_lem :
    (regs : Registers) (stack : ℕ) (s : Screen)
    → s.color ≡ 0x0F
    → general_protection_fault_handler regs stack s
      ≡ done halted (print (protection_text regs stack) s)
unfolding general_protection_fault_handler
protection_fault_lem regs stack s w =
    stops (protection_report regs stack)
      (protection_decoding regs.err_code >> (say (codes "\nHalting the system...\n") >> hlt)) s
      (protection_report-Says regs stack s w)

abbrev pub refused_sleep : ℕ → List ℕ
refused_sleep time =
    codes " you can not make a process sleep: " ++ (int_to_string (u32 (time * 10)) ++ codes " ms")

refused_line :
    (time : ℕ)
    → formatted false
        (codes "%e you can not make a process sleep: %d ms")
        (int (u32 (time * 10)) ∷ [])
      ≡ some (refused_sleep time)
unfolding formatted
refused_line time = refl

address_line :
    (n : ℕ)
    → formatted false (codes "The adress is: %x\n") (int n ∷ [])
      ≡ some (hex_line (codes "The adress is: ") n)
unfolding formatted
address_line n = refl

eax_line :
    (n : ℕ)
    → formatted false (codes "The adress eax is: %x\n") (int n ∷ [])
      ≡ some (hex_line (codes "The adress eax is: ") n)
unfolding formatted
eax_line n = refl

system_call_stops :
    (regs : Registers) (stack : ℕ) (s : Screen)
    → s.color ≡ 0x0F
    → system_call_interrupt_handler regs stack s
      ≡ done halted (
          print
            (hex_line (codes "The adress eax is: ") regs.eax)
            (print (hex_line (codes "The adress is: ") stack) s))
unfolding system_call_interrupt_handler
system_call_stops regs stack s w =
    let one =
      format-Says (codes "The adress is: %x\n") (int stack ∷ [])
        (hex_line (codes "The adress is: ") stack) (address_line stack) s w in
    let t = print (hex_line (codes "The adress is: ") stack) s in
    let two =
      format-Says (codes "The adress eax is: %x\n") (int regs.eax ∷ [])
        (hex_line (codes "The adress eax is: ") regs.eax) (eax_line regs.eax) t
        (color-print (hex_line (codes "The adress is: ") stack) s ∙ w) in
    let second = kprintf (codes "The adress eax is: %x\n") (int regs.eax ∷ []) in
    let rest = if regs.eax == 3 then (say (codes "fgsdffdfsds\n") >> hlt) else pure runs in
    ap (λ r. and_then r (λ _. second >> (hlt >>= λ state. if_running state rest))) one
    ∙ stops second rest t two

-- `sleep` with a time that is not positive only prints; with any other it asks for the interrupt
-- with number 1 and the time, and that interrupt's handler stops the machine.
pub sleep_lem :
    (time stack : ℕ) (regs : Registers) (s : Screen)
    → s.color ≡ 0x0F
    → ((time ≡ 0) ⊎ (2 ^ 31 ≤ time) → sleep time s ≡ done none (print (refused_sleep time) s))
      × (0 < time → time < 2 ^ 31 → sleep time s ≡ done (some (1, time)) s)
      × (system_call_interrupt_handler regs stack s
          ≡ done halted (
              print
                (hex_line (codes "The adress eax is: ") regs.eax)
                (print (hex_line (codes "The adress is: ") stack) s)))
unfolding sleep
sleep_lem time stack regs s w =
    let shown =
      format-Says (codes "%e you can not make a process sleep: %d ms") (int (u32 (time * 10)) ∷ [])
        (refused_sleep time) (refused_line time) s w in
    (
      (λ h.
          let e : (time == 0 || leb (2 ^ 31) time) ≡ true = ground arith in
          rw e (ap (λ r. and_then r (λ _. pure none)) shown)),
      (λ pos small. let e : (time == 0 || leb (2 ^ 31) time) ≡ false = ground arith in rw e refl),
      system_call_stops regs stack s w,
    )
