-- ===== src/Events/Draining.antt =====
-- `process_bus` of src/async.c: the bus is processed until it has nothing left to do.
use janet_sdbus.Base.{
  ℕ, zero, suc, ◌<◌, ◌≡◌, refl, true, false, ok, panic, arith, ◌==◌, ℤ, pos, is_negative,
}
use janet_sdbus.Pending.{failed_to_call}
use janet_sdbus.Events.{
  EventLibrary, Conn, arm, timer_value, settimeout_with, drain, getevents, setevents, process_bus,
}

module _ ⦃w : EventLibrary⦄ where
  open w use {Bus, bus_process, get_events, has_pollin, has_pollout, get_timeout, settime_fails}

  -- `Runs n b c`: `sd_bus_process` has work `n` times from the bus `b`, and then none, at `c`.
  pub data Runs : ℕ → Bus → Bus → Type 0 where
    idle : {b c : Bus} → bus_process b ≡ ok (pos 0) c → Runs 0 b c
    busy :
        {n k : ℕ} {b c d : Bus} → bus_process b ≡ ok (pos (suc k)) c → Runs n c d → Runs (suc n) b d

  drain-Runs :
      (fuel : ℕ) {n : ℕ} {b c : Bus} (s : Conn)
      → Runs n b c
      → n < fuel
      → drain fuel (record s { bus = b }) ≡ ok tt (record s { bus = c })
  unfolding drain
  drain-Runs zero s r less = absurd (omega arith)
  drain-Runs (suc fuel) s (idle e) less = rw e refl
  drain-Runs (suc fuel) s (busy {n} {k} e r) less = rw e (drain-Runs fuel s r (omega arith))

  -- What is waited for on the bus `c`: the events and the time that the message library tells.
  pub record Waits (c : Bus) (usec : ℕ) : Type 0 where
    pub returned : ℤ
    pub timeout : get_timeout c ≡ (returned, usec)
    pub told : is_negative returned ≡ false
    pub later : (usec == 0) ≡ false
    pub events : is_negative (get_events c) ≡ false
    pub settable : settime_fails (timer_value usec) ≡ false

  -- The connection that waits on the bus `c`.
  abbrev pub waiting : Conn → Bus → ℕ → Conn
  waiting s c usec = record s {
    bus = c;
    stream = record (s.stream) {
      readable = has_pollin (get_events c);
      writable = has_pollout (get_events c);
    };
    armed = timer_value usec;
    triggered = suc s.triggered;
  }

  -- If the bus has work `n` times and none after, and then something is waited for, `process_bus` with
  -- fuel above `n + 1` returns: the bus is where the work ends, and the stream and the timer are set to
  -- what is waited for there.
  pub process_bus-Runs :
      (fuel : ℕ) {n usec : ℕ} {c : Bus} (s : Conn)
      → Runs n s.bus c
      → n < fuel
      → Waits c usec
      → process_bus (suc fuel) s ≡ ok tt (waiting s c usec)
  unfolding process_bus setevents getevents settimeout_with arm
  process_bus-Runs fuel {usec} s r less k =
      rw (drain-Runs fuel s r less, k.events, k.timeout, k.told, k.later, k.settable) refl

  -- A failure of `sd_bus_process` is raised at once, and the stream and the timer are left as they were.
  pub process_bus-fails :
      (fuel : ℕ) {rv : ℤ} {b : Bus} (s : Conn)
      → bus_process s.bus ≡ ok rv b
      → is_negative rv ≡ true
      → process_bus (suc (suc fuel)) s
        ≡ panic (failed_to_call "sd_bus_process" rv) (record s { bus = b })
  unfolding process_bus drain
  process_bus-fails fuel s e negative = rw (e, negative) refl
