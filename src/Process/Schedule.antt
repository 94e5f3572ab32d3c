-- ===== src/Process/Schedule.antt =====
-- `schedule` and `timer_interrupt_handler` of lib/process_manager.c. A control block is found by its
-- address; the fields that the scheduler does not read are left out.
use raxzus_heap_research.Devices.Ports.{PortWrite}
use raxzus_heap_research.Devices.Pic.{pic_send_eoi}
use raxzus_heap_research.Base.{
  ltb, leb, ◌==◌, if◌then◌else◌, done, hang, fault, Cmd, pure, ◌>>=◌, ◌>>◌, u32, update, ℕ, zero,
  suc, ◌+◌, ◌-◌, ◌^◌, Bool, ◌&&◌, ◌||◌, List,
}

pub record Pcb : Type 0 where
  pub sleep_time : ℕ
  pub kernel_stack_top : ℕ
  pub next_pcb : ℕ

-- The static variables, and the field `esp0` of the task state.
pub record Scheduler : Type 0 where
  pub pcbs : ℕ → Pcb
  pub process_lists : ℕ
  pub current_process : ℕ
  pub next_process : ℕ
  pub esp0 : ℕ
  pub blink_counter : ℕ

-- `sleep_time > 0`, on the bit pattern of an `int`.
abbrev pub sleeps : Pcb → Bool
sleeps p = ltb 0 p.sleep_time && ltb p.sleep_time (2 ^ 31)

abbrev pub tss_set_kernel_stack : ℕ → Scheduler → Scheduler
tss_set_kernel_stack stack s = record s { esp0 = stack }

-- The process that follows in the round.
abbrev pub successor : Scheduler → ℕ → ℕ
successor s sim_current =
    let following = (s.pcbs sim_current).next_pcb in
    if following == 0 then s.process_lists else following

-- A sleeping process that is met sleeps one tick less.
abbrev pub tick : Pcb → Pcb
tick p = if sleeps p then record p { sleep_time = p.sleep_time - 1 } else p

abbrev pub visit : ℕ → Scheduler → Scheduler
visit p s = record s { next_process = p; pcbs = update s.pcbs p (tick (s.pcbs p)) }

-- The `do` loop, for at most as many rounds; a null pointer is a page fault.
unfoldable pub schedule_loop : (rounds sim_current : ℕ) → Cmd Scheduler ℕ
schedule_loop zero sim_current s = hang
schedule_loop (suc rounds) sim_current s =
    let p = successor s sim_current in
    let s' = visit p s in
    let rest = schedule_loop rounds p s' in
    if sim_current == 0 || p == 0 then fault else if sleeps (s'.pcbs p) then rest else done p s'

unfoldable pub schedule : (rounds : ℕ) → Cmd Scheduler (Unit {0})
schedule rounds s =
    (do
      p ← schedule_loop rounds s.current_process
      (λ s'. done tt (tss_set_kernel_stack (s'.pcbs p).kernel_stack_top s')))
      s

-- The timer's tick: whether the cursor is toggled, and the end-of-interrupt signal after the
-- scheduling.
unfoldable pub timer_interrupt_handler : (rounds : ℕ) → Cmd Scheduler (Bool × List PortWrite)
timer_interrupt_handler rounds s =
    let counter = u32 (s.blink_counter + 1) in
    let blink = leb 50 counter in
    (do schedule rounds; pure (blink, pic_send_eoi 0))
      (record s { blink_counter = if blink then 0 else counter })
