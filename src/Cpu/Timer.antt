-- ===== src/Cpu/Timer.antt =====
-- src/cpu/timer.c: the tick counter and the sleep.
pub mod Sleep
use astra_os.Base.{
  ℕ, ◌+◌, ◌*◌, ◌/◌, ◌==◌, ltb, if◌then◌else◌, Bool, true, false, u8, u32, sub32, List, [], ◌∷◌, Run,
  done, fault, out_of_fuel,
}
use astra_os.Cpu.Interrupts.{Effect, outb, Handlers, irq_register_handler}

-- `ticks` and `timer_frequency`
pub record Timer : Type 0 where
  pub ticks : ℕ
  pub frequency : ℕ

unfoldable pub timer_callback : Timer → Timer
timer_callback t = record t { ticks = u32 (t.ticks + 1) }

-- The address of `timer_callback` is `callback`; a frequency of 0 divides by zero.
unfoldable pub timer_init : ℕ → ℕ → Timer → Handlers → Run (Timer × Handlers × List Effect)
unfolding irq_register_handler
timer_init callback frequency t h =
    let divisor = 1193180 / frequency in
    if frequency == 0
    then fault
    else done (
      record t { frequency = frequency },
      irq_register_handler 0 callback h,
      outb 0x43 0x36 ∷ outb 0x40 (u8 divisor) ∷ outb 0x40 (u8 (divisor / 256)) ∷ [],
    )

unfoldable pub timer_get_ticks : Timer → ℕ
timer_get_ticks t = t.ticks

-- The loop of `timer_sleep`. A round ends when an interrupt wakes the processor; the list says of
-- each interrupt to come whether it is the timer's. It comes back with those that are left.
unfoldable pub sleep_loop : ℕ → ℕ → List Bool → Timer → Run (Timer × List Bool)
unfolding timer_callback timer_get_ticks
sleep_loop start target [] t =
    if ltb (sub32 (timer_get_ticks t) start) target then out_of_fuel else done (t, [])
sleep_loop start target (tick ∷ wakes) t =
    let later = sleep_loop start target wakes (if tick then timer_callback t else t) in
    if ltb (sub32 (timer_get_ticks t) start) target then later else done (t, tick ∷ wakes)

unfoldable pub timer_sleep : ℕ → List Bool → Timer → Run (Timer × List Bool)
unfolding sleep_loop timer_get_ticks
timer_sleep seconds wakes t = sleep_loop (timer_get_ticks t) (u32 (seconds * t.frequency)) wakes t
