-- ===== src/Dispatch.antt =====
-- A connection whose bus runs the handlers of src/call.c: `process_bus` and `settimeout` of
-- src/async.c on the queue and the channels, and `sdbus/call-async`, which calls `settimeout`. Which
-- handler a turn of `sd_bus_process` runs is what has arrived at the bus, and which slots it
-- releases is told by the bus. The handlers of exported interfaces, which run Janet code, and with
-- it the garbage collector, are in Export/Handlers.
pub mod Draining
pub mod Calling
use Prim.Native.String.{String}
use janet_sdbus.Base.{
  ℕ, Bool, List, [], ◌∷◌, Option, none, some, Outcome, ok, panic, fault, out_of_fuel, Cmd, pure,
  ◌>>=◌, ◌>>◌, ℤ,
}
use janet_sdbus.Pending.{Ptr, AsyncPending, AsyncError, call}
use janet_sdbus.Calls.{
  BusLibrary, World, Action, register, message_handler, destroy_call_callback, slot_of,
}
use janet_sdbus.Events.{EventLibrary, TimerValue, Conn, Event, on_bus, settimeout}

-- A bus over messages `M`; `process` is `sd_bus_process` up to the handler that it runs: what it
-- returns, the bus, the node and the message of the handler, if there is one, and the nodes of the
-- slots that it releases then, which no one else holds.
pub record ArrivalLibrary (M : Type 0) : Type 1 where
  pub Bus : Type 0
  pub process : Bus → ℤ × (Bus × (Option (Ptr × M) × List Ptr))
  pub get_events : Bus → ℤ
  pub has_pollin : ℤ → Bool
  pub has_pollout : ℤ → Bool
  pub get_timeout : Bus → ℤ × ℕ
  pub settime_fails : TimerValue → Bool

module _ ⦃w : BusLibrary⦄ ⦃a : ArrivalLibrary (w.Message)⦄ where
  open w use {Message}
  open a use {Bus, process}

  -- The bus, and what its handlers work on.
  pub record Session : Type 0 where
    pub bus : Bus
    pub world : World

  abbrev pub Turn : Type 0 → Type 0
  Turn A = Cmd AsyncError Session A

  abbrev pub in_session :
      {A : Type 0} → Session → Outcome AsyncError World A → Outcome AsyncError Session A
  in_session s (ok x t) = ok x (record s { world = t })
  in_session s (panic e t) = panic e (record s { world = t })
  in_session s fault = fault
  in_session s out_of_fuel = out_of_fuel

  abbrev pub in_world : {A : Type 0} → Action A → Turn A
  in_world m s = in_session s (m s.world)

  -- The handler, whose panic leaves through `sd_bus_process`.
  abbrev pub handler : Option (Ptr × Message) → Turn (Unit {0})
  handler none = pure tt
  handler (some (pending, msg)) = in_world (message_handler pending msg)

  -- The destroy callbacks of the slots that are released.
  unfoldable pub destroy : List Ptr → Turn (Unit {0})
  unfolding destroy_call_callback
  destroy [] = pure tt
  destroy (p ∷ ps) = do in_world (destroy_call_callback p); destroy ps

  -- `sd_bus_process`
  unfoldable pub turn : Turn ℤ
  unfolding message_handler destroy
  turn s =
      let (rv, (bus', (arrival, released))) = process s.bus in
      (do handler arrival; destroy released; pure rv) (record s { bus = bus' })

  instance abbrev pub sessions : EventLibrary
  sessions = record {
    Bus = Session;
    bus_process = turn;
    get_events = λ s. a.get_events s.bus;
    has_pollin = a.has_pollin;
    has_pollout = a.has_pollout;
    get_timeout = λ s. a.get_timeout s.bus;
    settime_fails = a.settime_fails;
  }

  abbrev pub on_world : {A : Type 0} → Action A → Event A
  on_world m = on_bus (in_world m)

  -- `submit` is `sd_bus_call_async` of the message: what it returns, and the bus. The two settings of
  -- the slot change nothing that is modelled. `settimeout` may process the bus.
  unfoldable pub call_async :
      ℕ → (submit : Bus → ℤ × Bus) → Ptr → Ptr → AsyncPending → ℕ → Event Ptr
  unfolding register settimeout
  call_async fuel submit p slot junk chan s =
      let (rv, bus') = submit s.bus.bus in
      (do
        pending ← on_world (register call "sd_bus_call_async" rv p slot junk chan)
        settimeout fuel
        on_world (slot_of pending))
        (record s { bus = record (s.bus) { bus = bus' } })
