-- ===== src/Events/Timer.antt =====
-- The timer of a connection: the arithmetic of `settimeout` of src/async.c.
use janet_sdbus.Pending.{AsyncError, timerfd_settime_failed}
use janet_sdbus.Base.{
  true, false, ℤ, is_negative, Outcome, ok, panic, ℕ, ◌+◌, ◌*◌, ◌<◌, ◌≡◌, ◌≢◌, refl, arith, ◌==◌,
  Bool-cases, inl, inr,
}
use janet_sdbus.Events.{
  EventLibrary, Conn, arm, settimeout, settimeout_with, process_bus, TimerValue, timer, uint64_max,
  timer_value,
}

-- `v` is the time `usec`, in microseconds, as seconds and nanoseconds; the greatest 64 bit number
-- stands for no time.
pub record Times (usec : ℕ) (v : TimerValue) : Type 0 where
  pub never : usec ≡ uint64_max → v ≡ timer 0 0
  pub exact : usec ≢ uint64_max → v.tv_sec * 1000000000 + v.tv_nsec ≡ usec * 1000
  pub small : v.tv_nsec < 1000000000

timer_value-Times : (usec : ℕ) → Times usec (timer_value usec)
unfolding timer_value
timer_value-Times usec = elim (Bool-cases (usec == uint64_max)) [
  | inl max ↦
      rw max
        (record { never = λ e. refl; exact = λ ne. absurd (ground arith); small = omega arith })
  | inr ne ↦ rw ne (record {
    never = λ e. absurd (ground arith);
    exact = λ ne. omega arith;
    small = omega arith;
  })
]

module _ ⦃w : EventLibrary⦄ where
  open w use {get_timeout, settime_fails}

  -- What `settimeout` does with the time `usec`, on the connection `s`: it processes the bus at once, or
  -- it sets the timer, and nothing else, or the kernel refuses the time.
  pub data Sets (fuel usec : ℕ) (s : Conn) : Outcome AsyncError Conn (Unit {0}) → Type 0 where
    due : usec ≡ 0 → Sets fuel usec s (process_bus fuel s)
    later :
        {v : TimerValue}
        → usec ≢ 0
        → Times usec v
        → settime_fails v ≡ false
        → Sets fuel usec s (ok tt (record s { armed = v }))
    refused :
        {v : TimerValue}
        → usec ≢ 0
        → Times usec v
        → settime_fails v ≡ true
        → Sets fuel usec s (panic timerfd_settime_failed s)

  -- The bus tells a time: `settimeout` processes the bus at once if the time is 0, and otherwise sets
  -- the timer to the same time, with fewer than a thousand million nanoseconds, or to zero for the
  -- greatest 64 bit number; it panics, with nothing set, if the kernel refuses that.
  pub settimeout-Sets :
      (fuel : ℕ) {rv : ℤ} {usec : ℕ} (s : Conn)
      → get_timeout s.bus ≡ (rv, usec)
      → is_negative rv ≡ false
      → Sets fuel usec s (settimeout fuel s)
  unfolding settimeout settimeout_with arm
  settimeout-Sets fuel {rv} {usec} s told fine = elim (Bool-cases (usec == 0)) [
    | inl now ↦ rw (told, fine, now) (due (ground arith))
    | inr not_now ↦ elim (Bool-cases (settime_fails (timer_value usec))) [
      | inl fails ↦
          rw (told, fine, not_now, fails) (refused (ground arith) (timer_value-Times usec) fails)
      | inr sets ↦
          rw (told, fine, not_now, sets) (later (ground arith) (timer_value-Times usec) sets)
    ]
  ]
