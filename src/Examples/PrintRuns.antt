-- ===== src/Examples/PrintRuns.antt =====
-- The printing routines on the white screen that the kernel starts with.
use raxzus_heap_research.Boot.Menu.{boot_menu, menu_cells, boot_menu_lem}
use raxzus_heap_research.Console.Paint.{paint}
use raxzus_heap_research.Console.Boxes.{print_text_align}
use raxzus_heap_research.Console.BoxLines.{aligned, print_text_align_lem}
use raxzus_heap_research.Base.{
  ◌==◌, if◌then◌else◌, length, done, codes, ℕ, ◌≡◌, refl, List, [], ◌∷◌, ◌++◌, arith,
}
use raxzus_heap_research.Text.Number.{digit_loop, int_to_string}
use raxzus_heap_research.Console.Screen.{Screen, print}
use raxzus_heap_research.Console.Print.{
  string, int, kprintf, expansion, formatted, kprintf-formatted,
}
use raxzus_heap_research.Console.Faults.{
  halted, Registers, page_fault_handler, general_protection_fault_handler,
}
use raxzus_heap_research.Console.Reports.{
  page_fault_text, page_fault_lem, protection_text, protection_fault_lem,
}

abbrev pub white_screen : Screen
white_screen = record { video_memory = λ i. 0; cursor_row = 0; cursor_col = 0; color = 0x0F }

kprintf-formatted_example :
    kprintf (codes "%s: %d\n") (string (codes "x") ∷ int 7 ∷ []) white_screen
    ≡ done tt (print (codes "x: 7\n") white_screen)
kprintf-formatted_example =
    kprintf-formatted (codes "%s: %d\n") (string (codes "x") ∷ int 7 ∷ []) (codes "x: 7\n")
      white_screen refl (unfold formatted expansion int_to_string digit_loop in refl)

abbrev fault_registers : Registers
fault_registers = record {
  edi = 0;
  esi = 0;
  ebp = 0;
  esp = 0;
  ebx = 0;
  edx = 0;
  ecx = 0;
  eax = 1;
  err_code = 2;
  eip = 0xC0100000;
  cs = 8;
  eflags = 2;
  user_esp = 0;
  ss = 0;
}

page_fault_lem_example :
    page_fault_handler fault_registers 0x1000 white_screen
    ≡ done halted (print (page_fault_text 2 0x1000) white_screen)
page_fault_lem_example = page_fault_lem fault_registers 0x1000 white_screen refl

protection_fault_lem_example :
    general_protection_fault_handler fault_registers 0xC0200000 white_screen
    ≡ done halted (print (protection_text fault_registers 0xC0200000) white_screen)
protection_fault_lem_example = protection_fault_lem fault_registers 0xC0200000 white_screen refl

abbrev no_time : ℕ
no_time = 0

abbrev chip : ℕ → ℕ
chip r = if r == 0x04 then 0x23 else 0x12

abbrev recovery : List ℕ
recovery = codes "[3] Recovery"

print_text_align_lem_example :
    let line = aligned 2 6 0x0E 0x04 recovery in
    (print_text_align recovery 22 1 0x0E 0x04 0 white_screen
      ≡ done tt (paint (line ++ (b'\n', 0x0F) ∷ []) white_screen))
    × (length line ≡ 22)
print_text_align_lem_example =
    print_text_align_lem recovery 22 1 0x0E 0x04 0 white_screen refl (omega arith) (omega arith)
      (omega arith) (omega arith)

boot_menu_lem_example : boot_menu white_screen ≡ done tt (paint menu_cells white_screen)
boot_menu_lem_example = boot_menu_lem white_screen refl
