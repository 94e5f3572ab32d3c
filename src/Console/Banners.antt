-- ===== src/Console/Banners.antt =====
-- The fixed texts of lib/raxzus_shell_ui.c, the boot menu of kernel.c, and the clock in the corner
-- of lib/vga.c.
use raxzus_heap_research.Console.Paint.{colored}
use raxzus_heap_research.Console.Draws.{
  Draws, pure-Draws, seq-Draws, text-Draws, newline-Draws, is_plain, plain-Draws, say-Draws,
  then_say, then_in_color,
}
use raxzus_heap_research.Base.{
  ◌==◌, if◌then◌else◌, Bool-cases, Cmd, pure, ◌>>◌, codes, ℕ, ◌+◌, ◌≡◌, refl, inl, inr, true, List,
  [], ◌∷◌, ◌++◌,
}
use raxzus_heap_research.Console.Screen.{Screen}
use raxzus_heap_research.Console.Print.{string, kprintf}
use raxzus_heap_research.Console.Boxes.{in_color}

abbrev pub say : List ℕ → Cmd Screen (Unit {0})
say text = kprintf text []

abbrev pub green : ℕ
green = 0x02

abbrev pub magenta : ℕ
magenta = 0x05

abbrev pub light_gray : ℕ
light_gray = 0x07

-- The three calls for a command: `kprintf(front); kprintf_magenta(text); kprintf(")\n");`
unfoldable pub help_line : (front text : List ℕ) → Cmd Screen (Unit {0})
unfolding kprintf in_color
help_line front text = do say front; in_color magenta text []; say (codes ")\n")

abbrev pub welcome : List ℕ
welcome =
    codes
      "\nWelcome to raxzus shell help screen. The following commands are currently available: \n"

unfoldable pub cmd_help : Cmd Screen (Unit {0})
unfolding kprintf help_line
cmd_help = do
  say welcome
  help_line (codes "1. help (") (codes "Command you called to print this list")
  help_line (codes "2. neofetch (") (codes "used for kernel special ascii art")
  help_line (codes "3. calculate (") (codes "To be implemented so you can do simple calculations")
  help_line (codes "4. time (") (codes "Shows the current time")

abbrev pub raxzus_dragon : List (List ℕ)
raxzus_dragon =
    codes "              /-------\\ "
    ∷ codes " /-\\        /  (*)  \\"
    ∷ codes "| ) )-------- _         \\"
    ∷ codes "|        ____/_/\\_____ /"
    ∷ codes " \\/----/____/         | "
    ∷ codes " /\\/---/           ___|"
    ∷ codes " |          _______/ "
    ∷ codes "  \\_______/"
    ∷ []

abbrev pub os_text : List ℕ
os_text = codes "   OS: RaxzusOS v1.0"

abbrev pub kernel_text : List ℕ
kernel_text = codes "   Kernel: Raxzus_kernel"

abbrev pub shell_text : List ℕ
shell_text = codes "   Shell: RaxShell"

abbrev pub uptime_text : List ℕ
uptime_text = codes "   Uptime: Too powerful to measure"

-- `if (i == n) kprintf_light_gray(text);`
unfoldable pub caption : (i n : ℕ) → List ℕ → Cmd Screen (Unit {0})
unfolding in_color
caption i n text = if i == n then in_color light_gray text [] else pure tt

-- The loop over the lines from `i` on.
unfoldable pub neofetch_loop : (i : ℕ) → List (List ℕ) → Cmd Screen (Unit {0})
unfolding kprintf in_color caption
neofetch_loop i [] = pure tt
neofetch_loop i (line ∷ lines) = do
  in_color green (codes "%s") (string line ∷ [])
  caption i 2 os_text
  caption i 3 kernel_text
  caption i 4 shell_text
  caption i 5 uptime_text
  say (codes "\n")
  neofetch_loop (i + 1) lines

unfoldable pub cmd_neofetch : Cmd Screen (Unit {0})
unfolding kprintf neofetch_loop
cmd_neofetch = do say (codes "\n"); neofetch_loop 0 raxzus_dragon; say (codes "\n")

-- A line of the help: the colours of its parts.
abbrev pub help_cells : (front text : List ℕ) → List (ℕ × ℕ)
help_cells front text = colored 0x0F front ++ (colored magenta text ++ colored 0x0F (codes ")\n"))

help_line-Draws :
    (front text : List ℕ)
    → is_plain front ≡ true
    → is_plain text ≡ true
    → Draws (help_line front text) (help_cells front text)
unfolding help_line
help_line-Draws front text h h' =
    then_say front _ h (then_in_color magenta text _ h' (say-Draws (codes ")\n") refl))

abbrev pub caption_cells : (i n : ℕ) → List ℕ → List (ℕ × ℕ)
caption_cells i n text = if i == n then colored light_gray text else []

caption-Draws :
    (i n : ℕ) (text : List ℕ)
    → is_plain text ≡ true
    → Draws (caption i n text) (caption_cells i n text)
unfolding caption
caption-Draws i n text h = elim (Bool-cases (i == n)) [
  | inl e ↦ rw e (plain-Draws light_gray text h)
  | inr e ↦ rw e pure-Draws
]

-- The captions of line `i` of the dragon, and what comes after the line.
abbrev pub captions : ℕ → List (ℕ × ℕ) → List (ℕ × ℕ)
captions i rest =
    caption_cells i 2 os_text
    ++ (caption_cells i 3 kernel_text
        ++ (caption_cells i 4 shell_text
            ++ (caption_cells i 5 uptime_text ++ (b'\n', 0x0F) ∷ rest)))

abbrev pub dragon_cells : ℕ → List (List ℕ) → List (ℕ × ℕ)
dragon_cells i [] = []
dragon_cells i (line ∷ lines) = colored green line ++ captions i (dragon_cells (i + 1) lines)

loop-Draws : (i : ℕ) (lines : List (List ℕ)) → Draws (neofetch_loop i lines) (dragon_cells i lines)
unfolding neofetch_loop
loop-Draws i [] = pure-Draws
loop-Draws i (line ∷ lines) = seq-Draws (colored green line) _ (text-Draws green line) (
    seq-Draws (caption_cells i 2 os_text) _ (caption-Draws i 2 os_text refl) (
      seq-Draws (caption_cells i 3 kernel_text) _ (caption-Draws i 3 kernel_text refl) (
        seq-Draws (caption_cells i 4 shell_text) _ (caption-Draws i 4 shell_text refl) (
          seq-Draws (caption_cells i 5 uptime_text) _ (caption-Draws i 5 uptime_text refl)
            (seq-Draws ((b'\n', 0x0F) ∷ []) _ newline-Draws (loop-Draws (i + 1) lines))))))

pub cmd_neofetch-Draws :
    Draws cmd_neofetch ((b'\n', 0x0F) ∷ (dragon_cells 0 raxzus_dragon ++ (b'\n', 0x0F) ∷ []))
unfolding cmd_neofetch
cmd_neofetch-Draws =
    seq-Draws ((b'\n', 0x0F) ∷ []) _ newline-Draws
      (seq-Draws (dragon_cells 0 raxzus_dragon) _ (loop-Draws 0 raxzus_dragon) newline-Draws)

-- `help` prints its lines, each with the description in magenta.
pub cmd_help-Draws : Draws cmd_help (
    colored 0x0F welcome
    ++ (help_cells (codes "1. help (") (codes "Command you called to print this list")
        ++ (help_cells (codes "2. neofetch (") (codes "used for kernel special ascii art")
            ++ (help_cells
                  (codes "3. calculate (")
                  (codes "To be implemented so you can do simple calculations")
                ++ help_cells (codes "4. time (") (codes "Shows the current time")))))
unfolding cmd_help
cmd_help-Draws = then_say welcome _ refl (
    seq-Draws (help_cells (codes "1. help (") (codes "Command you called to print this list")) _
      (help_line-Draws (codes "1. help (") (codes "Command you called to print this list") refl
        refl)
      (seq-Draws (help_cells (codes "2. neofetch (") (codes "used for kernel special ascii art")) _
        (help_line-Draws (codes "2. neofetch (") (codes "used for kernel special ascii art") refl
          refl)
        (seq-Draws
          (help_cells (codes "3. calculate (")
            (codes "To be implemented so you can do simple calculations"))
          _
          (help_line-Draws (codes "3. calculate (")
            (codes "To be implemented so you can do simple calculations") refl refl)
          (help_line-Draws (codes "4. time (") (codes "Shows the current time") refl refl))))
