-- ===== src/Listeners.antt =====
-- The callbacks that Janet's event loop calls for a connection: `timer_callback` and `bus_callback` of
-- src/async.c, with END_LISTENER and CANCEL_LISTENER of src/common.h. `process_bus`, which runs the
-- handlers of what has arrived, is an argument.
pub mod Ending
use Prim.Native.String.{String}
use janet_sdbus.Base.{
  ℕ, zero, Bool, true, false, ◌&&◌, List, [], ◌∷◌, ◌++◌, Outcome, ok, panic, fault, out_of_fuel,
  Cmd, pure, raise, ◌>>=◌, ◌>>◌, if◌then◌else◌, ℤ, pos, negsuc,
}
use janet_sdbus.Pending.{AsyncError, timer_closed}
use janet_sdbus.Calls.{
  BusLibrary, Status, error_status, close_status, World, Action, closeall_pending,
}

-- `JanetAsyncEvent`: the events that the source names, and any other.
pub data AsyncEvent : Type 0 where
  read_event write_event hup_event err_event close_event other_event : AsyncEvent

-- What the callbacks do to the fiber that listens.
pub data FiberCall : Type 0 where
  -- `janet_schedule` with nil, and `janet_cancel` with a text
  scheduled : FiberCall
  cancelled : String → FiberCall
  -- `janet_async_end`
  ended : FiberCall

abbrev pub is_minus_one : ℤ → Bool
is_minus_one (negsuc zero) = true
is_minus_one _ = false

module _ ⦃w : BusLibrary⦄ where
  -- The calls and channels of a connection, and what was done to the fibers, the latest last.
  pub record Loop : Type 0 where
    pub world : World
    pub fibers : List FiberCall

  abbrev pub Callback : Type 0 → Type 0
  Callback A = Cmd AsyncError Loop A

  abbrev pub within : {A : Type 0} → Loop → Outcome AsyncError World A → Outcome AsyncError Loop A
  within s (ok a t) = ok a (record s { world = t })
  within s (panic e t) = panic e (record s { world = t })
  within s fault = fault
  within s out_of_fuel = out_of_fuel

  abbrev pub in_world : {A : Type 0} → Action A → Callback A
  in_world m s = within s (m s.world)

  abbrev pub to_fiber : FiberCall → Callback (Unit {0})
  to_fiber c s = ok tt (record s { fibers = s.fibers ++ c ∷ [] })

  unfoldable pub end_listener : Callback (Unit {0})
  end_listener = do to_fiber scheduled; to_fiber ended

  unfoldable pub cancel_listener : String → Callback (Unit {0})
  cancel_listener msg = do to_fiber (cancelled msg); to_fiber ended

  -- `rv` is what `read` on the timer returns, with whether `errno` is EBADF.
  unfoldable pub timer_callback : Action (Unit {0}) → ℤ × Bool → AsyncEvent → Callback (Unit {0})
  unfolding end_listener
  timer_callback process_bus (rv, ebadf) read_event =
      if is_minus_one rv && ebadf then raise timer_closed else in_world process_bus
  timer_callback process_bus _ close_event = end_listener
  timer_callback process_bus _ _ = pure tt

  unfoldable pub bus_callback : ℕ → Action (Unit {0}) → AsyncEvent → Callback (Unit {0})
  unfolding closeall_pending end_listener cancel_listener
  bus_callback fuel process_bus write_event = in_world process_bus
  bus_callback fuel process_bus read_event = in_world process_bus
  bus_callback fuel process_bus hup_event = do
    in_world (closeall_pending fuel error_status "D-Bus connection error")
    cancel_listener "D-Bus connection error"
  bus_callback fuel process_bus err_event = do
    in_world (closeall_pending fuel error_status "D-Bus connection error")
    cancel_listener "D-Bus connection error"
  bus_callback fuel process_bus close_event = do
    in_world (closeall_pending fuel close_status "D-Bus connection closed")
    end_listener
  bus_callback fuel process_bus other_event = pure tt
