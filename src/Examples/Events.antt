-- ===== src/Examples/Events.antt =====
-- Witnesses and runs for the event loop.
use janet_sdbus.Base.{
  ◌==◌, if◌then◌else◌, ℕ, zero, suc, ◌≡◌, refl, true, false, ok, arith, ℤ, pos, negsuc, Outcome,
}
use janet_sdbus.Pending.{AsyncError}
use janet_sdbus.Events.{EventLibrary, Conn, timer, timer_value, process_bus, settimeout}
use janet_sdbus.Events.Timer.{Sets, settimeout-Sets}
use janet_sdbus.Events.Draining.{idle, busy, waiting, process_bus-Runs}

-- The bus is the number of messages that have arrived; processing fails at 7.
abbrev processed : ℕ → Outcome AsyncError ℕ ℤ
processed zero = ok (pos 0) 0
processed (suc n) = if n == 6 then ok (negsuc 4) 7 else ok (pos 1) n

instance abbrev counts : EventLibrary
counts = record {
  Bus = ℕ;
  bus_process = processed;
  get_events = λ b. pos 1;
  has_pollin = λ e. true;
  has_pollout = λ e. false;
  get_timeout = λ b. (pos 0, 2500000);
  settime_fails = λ v. false;
}

abbrev conn : ℕ → Conn
conn b = record {
  bus = b;
  stream = record { readable = false; writable = true; others = 16 };
  armed = timer 0 0;
  triggered = 0;
}

settimeout-Sets_example : Sets 4 2500000 (conn 2) (settimeout 4 (conn 2))
settimeout-Sets_example = settimeout-Sets 4 (conn 2) refl refl

process_bus-Runs_example : process_bus 4 (conn 2) ≡ ok tt (waiting (conn 2) 0 2500000)
process_bus-Runs_example =
    process_bus-Runs 3 (conn 2) (busy refl (busy refl (idle refl))) (omega arith) (record {
      returned = pos 0;
      timeout = refl;
      told = refl;
      later = refl;
      events = refl;
      settable = refl;
    })

timer_value_runs : timer_value 2500000 ≡ timer 2 500000000
unfolding timer_value
timer_value_runs = refl
