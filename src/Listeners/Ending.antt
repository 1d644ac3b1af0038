-- ===== src/Listeners/Ending.antt =====
-- Events that end a connection: `bus_callback` of src/async.c.
use Prim.Native.String.{String}
use janet_sdbus.Base.{ℕ, ◌<◌, ◌≡◌, refl, List, [], ◌∷◌, ◌++◌, ok, length, append_assoc}
use janet_sdbus.Pending.{null}
use janet_sdbus.Pending.Queue.{IsQueue}
use janet_sdbus.Calls.{BusLibrary, Status, error_status, close_status, Action}
use janet_sdbus.Calls.Log.{told, CanTellAll}
use janet_sdbus.Calls.Closing.{closeall_pending-IsQueue}
use janet_sdbus.Listeners.{
  AsyncEvent, hup_event, err_event, close_event, FiberCall, scheduled, cancelled, ended, Loop,
  end_listener, cancel_listener, bus_callback,
}

-- The events that end a connection, and what is said of each of them.
pub data Ends : AsyncEvent → Status → String → List FiberCall → Type 0 where
  hung_up :
      Ends hup_event error_status "D-Bus connection error"
        (cancelled "D-Bus connection error" ∷ ended ∷ [])
  failed :
      Ends err_event error_status "D-Bus connection error"
        (cancelled "D-Bus connection error" ∷ ended ∷ [])
  closed : Ends close_event close_status "D-Bus connection closed" (scheduled ∷ ended ∷ [])

module _ ⦃w : BusLibrary⦄ where
  -- The connection after its end.
  abbrev pub over : Status → String → List FiberCall → List ℕ → Loop → Loop
  over why msg calls xs s = record s {
    world = record (told why msg xs s.world) {
      pendings = record (s.world.pendings) { head = null };
    };
    fibers = s.fibers ++ calls;
  }

  -- An event that ends the connection, whose queue is `xs`, of nodes whose channels are not closed
  -- and whose slots are there, with fuel above its length: each of its nodes is told once, in the
  -- order of the queue, with the status and the text of the event, its slot is released, the queue
  -- is empty, and the listening fiber is scheduled, or cancelled with the same text, and ended.
  pub bus_callback-Ends :
      {why : Status} {msg : String} {calls : List FiberCall} {e : AsyncEvent} (fuel : ℕ)
      (process_bus : Action (Unit {0})) (s : Loop) (xs : List ℕ)
      → Ends e why msg calls
      → IsQueue s.world.pendings xs
      → CanTellAll s.world xs
      → length xs < fuel
      → bus_callback fuel process_bus e s ≡ ok tt (over why msg calls xs s)
  unfolding bus_callback end_listener cancel_listener
  bus_callback-Ends fuel process_bus s xs hung_up q can less =
      rw
        (
          closeall_pending-IsQueue fuel error_status "D-Bus connection error" s.world xs q can less,
          append_assoc s.fibers (cancelled "D-Bus connection error" ∷ []) (ended ∷ []),
        )
        refl
  bus_callback-Ends fuel process_bus s xs failed q can less =
      rw
        (
          closeall_pending-IsQueue fuel error_status "D-Bus connection error" s.world xs q can less,
          append_assoc s.fibers (cancelled "D-Bus connection error" ∷ []) (ended ∷ []),
        )
        refl
  bus_callback-Ends fuel process_bus s xs closed q can less =
      rw
        (
          closeall_pending-IsQueue fuel close_status "D-Bus connection closed" s.world xs q can
              less,
          append_assoc s.fibers (scheduled ∷ []) (ended ∷ []),
        )
        refl
