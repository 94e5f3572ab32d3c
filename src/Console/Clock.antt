-- ===== src/Console/Clock.antt =====
-- The clock in the corner: `print_rtc_time` of lib/rtc.c on the screen, and
-- `update_print_corner_time` of lib/vga.c.
use raxzus_heap_research.Base.{length, done, Cmd, ◌>>◌, codes, ℕ, ◌≤◌, ◌≢◌, List, [], ◌∷◌, ◌++◌}
use raxzus_heap_research.Text.Number.{int_to_string}
use raxzus_heap_research.Devices.Rtc.{ClockFace, print_rtc_time}
use raxzus_heap_research.Console.Screen.{Screen}
use raxzus_heap_research.Console.Print.{int, kprintf}

unfoldable pub print_clock : ClockFace → Cmd Screen (Unit {0})
unfolding kprintf
print_clock f =
    kprintf (codes "  Current time: %d/%d/%d %d:%d   \n")
      (int f.day ∷ int f.month ∷ int f.year ∷ int f.hours ∷ int f.minutes ∷ [])

unfoldable pub update_print_corner_time : (cmos : ℕ → ℕ) → Cmd Screen (Unit {0})
unfolding print_rtc_time print_clock
update_print_corner_time cmos s =
    (do
      λ t. done tt (record t { cursor_row = 0; cursor_col = 45 })
      print_clock (print_rtc_time cmos)
      λ t. done tt (record t { cursor_row = s.cursor_row; cursor_col = s.cursor_col }))
      s

-- The line, but for its newline.
abbrev pub clock_text : ClockFace → List ℕ
clock_text f =
    codes "  Current time: "
    ++ (int_to_string f.day
        ++ (b'/'
            ∷ (int_to_string f.month
                ++ (b'/'
                    ∷ (int_to_string f.year
                        ++ (b' '
                            ∷ (int_to_string f.hours
                                ++ (b':' ∷ (int_to_string f.minutes ++ codes "   ")))))))))

abbrev pub HasNoNewline : List ℕ → Type 0
HasNoNewline [] = Unit {0}
HasNoNewline (c ∷ text) = (c ≢ b'\n') × HasNoNewline text

-- A text without a newline, of a length at most.
pub record Fits (n : ℕ) (text : List ℕ) : Type 0 where
  pub plain : HasNoNewline text
  pub short : length text ≤ n
