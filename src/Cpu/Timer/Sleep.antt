-- ===== src/Cpu/Timer/Sleep.antt =====
-- A sleep ends, and how long it takes.
use astra_os.Base.{
  ℕ, suc, ◌+◌, ◌*◌, ◌^◌, ◌≤◌, ◌<◌, ◌≡◌, ◌∙◌, ap, arith, ltb, Bool, true, false, if_ind, ltb→lt,
  ltb→le, u32, sub32, List, [], ◌∷◌, Run, done, out_of_fuel,
}
use astra_os.Cpu.Timer.{Timer, timer_callback, timer_get_ticks, sleep_loop, timer_sleep}

-- how many of the interrupts are the timer's
abbrev pub timer_ticks : List Bool → ℕ
timer_ticks [] = 0
timer_ticks (true ∷ wakes) = suc (timer_ticks wakes)
timer_ticks (false ∷ wakes) = timer_ticks wakes

-- the run ends with the counter at `ticks` and the frequency as before
abbrev pub EndsAt : ℕ → Timer → Run (Timer × List Bool) → Type 0
EndsAt ticks t r =
    (wakes : List Bool) × (r ≡ done (record { ticks = ticks; frequency = t.frequency }, wakes))

-- the ticks that have passed, read off the counter
elapsed :
    (start e ticks : ℕ)
    → start < 2 ^ 32
    → e < 2 ^ 32
    → ticks ≡ u32 (start + e)
    → sub32 ticks start ≡ e
elapsed start e ticks hs he at = omega arith

-- the end of the loop, at its target
stop :
    (start target e : ℕ) (wakes : List Bool) (t : Timer)
    → e ≤ target
    → ltb e target ≡ false
    → t.ticks ≡ u32 (start + e)
    → EndsAt (u32 (start + target)) t (done (t, wakes))
stop start target e wakes t le h at =
    let same : e ≡ target = omega (arith, ltb→le e target h) in
    (
      wakes,
      ap (λ k. done (record { ticks = k; frequency = t.frequency }, wakes))
          (at ∙ ap (λ k. u32 (start + k)) same),
    )

sleep_loop-EndsAt :
    (start target e : ℕ) (wakes : List Bool) (t : Timer)
    → start < 2 ^ 32
    → target < 2 ^ 32
    → e ≤ target
    → target ≤ e + timer_ticks wakes
    → t.ticks ≡ u32 (start + e)
    → EndsAt (u32 (start + target)) t (sleep_loop start target wakes t)
unfolding sleep_loop timer_callback timer_get_ticks
sleep_loop-EndsAt start target e [] t hs ht le enough at =
    rw (elapsed start e t.ticks hs (omega arith) at) (
      if_ind (λ b r. EndsAt (u32 (start + target)) t r) (ltb e target) {x = out_of_fuel}
        {y = done (t, [])} (λ h. absurd (omega (arith, ltb→lt e target h)))
        (λ h. stop start target e [] t le h at))
sleep_loop-EndsAt start target e (true ∷ wakes) t hs ht le enough at =
    rw (elapsed start e t.ticks hs (omega arith) at) (
      if_ind (λ b r. EndsAt (u32 (start + target)) t r) (ltb e target)
        {x = sleep_loop start target wakes (timer_callback t)} {y = done (t, true ∷ wakes)}
        (λ h.
          let lt = ltb→lt e target h in
          sleep_loop-EndsAt start target (e + 1) wakes (timer_callback t) hs ht (omega arith)
            (omega arith) (omega arith))
        (λ h. stop start target e (true ∷ wakes) t le h at))
sleep_loop-EndsAt start target e (false ∷ wakes) t hs ht le enough at =
    rw (elapsed start e t.ticks hs (omega arith) at) (
      if_ind (λ b r. EndsAt (u32 (start + target)) t r) (ltb e target)
        {x = sleep_loop start target wakes t} {y = done (t, false ∷ wakes)}
        (λ h. sleep_loop-EndsAt start target e wakes t hs ht le enough at)
        (λ h. stop start target e (false ∷ wakes) t le h at))

-- A sleep ends, whatever other interrupts wake the processor, once the timer's have come as often
-- as there are ticks in the time asked for; it ends at just that number of ticks. The number is
-- the product of the seconds and the frequency modulo 2^32.
pub timer_sleep-EndsAt :
    (seconds : ℕ) (wakes : List Bool) (t : Timer)
    → t.ticks < 2 ^ 32
    → u32 (seconds * t.frequency) ≤ timer_ticks wakes
    → EndsAt (u32 (t.ticks + u32 (seconds * t.frequency))) t (timer_sleep seconds wakes t)
unfolding timer_sleep timer_get_ticks
timer_sleep-EndsAt seconds wakes t small enough =
    sleep_loop-EndsAt t.ticks (u32 (seconds * t.frequency)) 0 wakes t small (omega arith)
      (omega arith) (omega arith) (omega arith)
