-- ===== src/Events.antt =====
-- The event loop's side of a connection in src/async.c: `process_bus`, `getevents`, `setevents` and
-- `settimeout`. `process_bus` and `settimeout` call each other, and `process_bus` loops until the bus
-- has nothing left to do, so both run on fuel: one unit for each call of `sd_bus_process`, and one for
-- each turn from the one function to the other.
pub mod Timer
pub mod Draining
use Prim.Native.String.{String}
use janet_sdbus.Pending.{AsyncError, failed_to_call, timerfd_settime_failed}
use janet_sdbus.Base.{
  ℕ, zero, suc, ◌*◌, ◌/◌, ◌%◌, Bool, true, false, ok, Cmd, pure, raise, no_fuel, ◌>>=◌, ◌>>◌, ◌==◌,
  if◌then◌else◌, ℤ, pos, negsuc, is_negative, is_zero, panic, fault, out_of_fuel, Outcome,
}

-- `it_value` of an `itimerspec`; its interval is always 0.
pub record TimerValue : Type 0 where
  pub tv_sec : ℕ
  pub tv_nsec : ℕ

-- `flags` of a Janet stream: the two bits that the source sets, and all others.
pub record StreamFlags : Type 0 where
  pub readable : Bool
  pub writable : Bool
  pub others : ℕ

-- What this part of src/async.c takes from sd-bus.h, poll.h and timerfd.h.
pub record EventLibrary : Type 1 where
  pub Bus : Type 0
  -- `sd_bus_process`, which runs the callbacks of what has arrived; their panics leave through it
  pub bus_process : Cmd AsyncError Bus ℤ
  pub get_events : Bus → ℤ
  -- the bits POLLIN and POLLOUT of what `sd_bus_get_events` returns
  pub has_pollin : ℤ → Bool
  pub has_pollout : ℤ → Bool
  -- `sd_bus_get_timeout`: the result, and the time in microseconds
  pub get_timeout : Bus → ℤ × ℕ
  -- whether `timerfd_settime` returns -1
  pub settime_fails : TimerValue → Bool

abbrev pub uint64_max : ℕ
uint64_max = 18446744073709551615

abbrev pub timer : ℕ → ℕ → TimerValue
timer sec nsec = record { tv_sec = sec; tv_nsec = nsec }

-- What the timer is set to, for a time in microseconds that is not 0.
unfoldable pub timer_value : ℕ → TimerValue
timer_value usec =
    if usec == uint64_max then timer 0 0 else timer (usec / 1000000) (usec % 1000000 * 1000)

module _ ⦃w : EventLibrary⦄ where
  open w use {Bus, bus_process, get_events, has_pollin, has_pollout, get_timeout, settime_fails}

  -- The connection: the bus, the flags of `bus_stream`, what the timer was last set to, and how often
  -- `janet_stream_edge_triggered` was called.
  pub record Conn : Type 0 where
    pub bus : Bus
    pub stream : StreamFlags
    pub armed : TimerValue
    pub triggered : ℕ

  abbrev pub Event : Type 0 → Type 0
  Event A = Cmd AsyncError Conn A

  abbrev pub moved : {A : Type 0} → Conn → Outcome AsyncError Bus A → Outcome AsyncError Conn A
  moved s (ok a b) = ok a (record s { bus = b })
  moved s (panic e b) = panic e (record s { bus = b })
  moved s fault = fault
  moved s out_of_fuel = out_of_fuel

  abbrev pub on_bus : {A : Type 0} → Cmd AsyncError Bus A → Event A
  on_bus m s = moved s (m s.bus)

  -- CALL_SD_BUS_FUNC
  abbrev pub returned : String → ℤ → Event ℤ
  returned name rv = if is_negative rv then raise (failed_to_call name rv) else pure rv

  -- The new flags, as the bits READABLE and WRITABLE.
  unfoldable pub getevents : Event (Bool × Bool)
  getevents s =
      (do
        events ← returned "sd_bus_get_events" (get_events s.bus)
        pure (has_pollin events, has_pollout events))
        s

  unfoldable pub setevents : Event (Unit {0})
  unfolding getevents
  setevents = do
    newflags ← getevents
    λ s. ok tt (record s {
      stream = record (s.stream) { readable = newflags.0; writable = newflags.1 };
      triggered = suc s.triggered;
    })

  unfoldable pub arm : TimerValue → Event (Unit {0})
  arm new_value s =
      if settime_fails new_value
      then raise timerfd_settime_failed s
      else ok tt (record s { armed = new_value })

  abbrev pub more_work : ℤ → Event (Unit {0}) → Event (Unit {0})
  more_work rv rest =
      if is_negative rv
      then raise (failed_to_call "sd_bus_process" rv)
      else if is_zero rv
      then pure tt
      else rest

  -- The loop of `process_bus`, and its test of the last result.
  unfoldable pub drain : ℕ → Event (Unit {0})
  drain zero = no_fuel
  drain (suc fuel) = let rest = drain fuel in do rv ← on_bus bus_process; more_work rv rest

  -- `settimeout`, with `process_bus` as an argument.
  unfoldable pub settimeout_with : Event (Unit {0}) → Event (Unit {0})
  unfolding arm
  settimeout_with process s =
      let (rv, usec) = get_timeout s.bus in
      (do
        _ ← returned "sd_bus_get_timeout" rv
        if usec == 0 then process else arm (timer_value usec))
        s

  unfoldable pub process_bus : ℕ → Event (Unit {0})
  unfolding drain setevents settimeout_with
  process_bus zero = no_fuel
  process_bus (suc fuel) = do drain fuel; setevents; settimeout_with (process_bus fuel)

  unfoldable pub settimeout : ℕ → Event (Unit {0})
  unfolding settimeout_with process_bus
  settimeout fuel = settimeout_with (process_bus fuel)
