-- ===== src/Examples/ProcessRuns.antt =====
-- The scheduler of lib/process_manager.c with two processes.
use raxzus_heap_research.Base.{◌==◌, if◌then◌else◌, ℕ, refl, List, [], ◌∷◌, arith}
use raxzus_heap_research.Process.Schedule.{Pcb, Scheduler, schedule}
use raxzus_heap_research.Process.Rounds.{Pcbs, end, link}
use raxzus_heap_research.Process.Next.{Switched, schedule-Switched}

-- The process at 0x1000 is awake, and the one at 0x2000 behind it sleeps for `ticks`.
abbrev two_processes : ℕ → ℕ → Pcb
two_processes ticks a =
    if a == 0x1000
    then record { sleep_time = 0; kernel_stack_top = 0x70001000; next_pcb = 0x2000 }
    else record { sleep_time = ticks; kernel_stack_top = 0x70002000; next_pcb = 0 }

abbrev scheduler : ℕ → Scheduler
scheduler ticks = record {
  pcbs = two_processes ticks;
  process_lists = 0x1000;
  current_process = 0x1000;
  next_process = 0x1000;
  esp0 = 0;
  blink_counter = 0;
}

abbrev both_processes : List ℕ
both_processes = 0x1000 ∷ 0x2000 ∷ []

two_processes-Pcbs : (ticks : ℕ) → Pcbs (two_processes ticks) 0x1000 both_processes
two_processes-Pcbs ticks =
    link (λ e. absurd (omega (arith, e))) (link (λ e. absurd (omega (arith, e))) end)

schedule-Switched_example : Switched (scheduler 5) both_processes (schedule 6 (scheduler 5))
schedule-Switched_example =
    schedule-Switched 6 (scheduler 5) both_processes (two_processes-Pcbs 5) refl (omega arith)
