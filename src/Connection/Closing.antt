-- ===== src/Connection/Closing.antt =====
-- `sdbus/close-bus` of src/bus.c with the callbacks of src/async.c that it runs.
use janet_sdbus.Base.{
  ℕ, ◌<◌, ◌≡◌, refl, none, some, List, [], ◌∷◌, ◌++◌, ok, ◌>>◌, length, append_assoc, append-nil, ℤ,
  Bool,
}
use janet_sdbus.Calls.Log.{CanTellAll}
use janet_sdbus.Pending.Queue.{IsQueue}
use janet_sdbus.Calls.{BusLibrary, close_status, Action}
use janet_sdbus.Listeners.{
  close_event, scheduled, ended, timer_callback, bus_callback, end_listener,
}
use janet_sdbus.Listeners.Ending.{over, closed, bus_callback-Ends}
use janet_sdbus.Connection.{on_timer, on_bus, Stream, OpenLibrary, Connection, Closer, close_bus}

module _ ⦃w : BusLibrary⦄ ⦃o : OpenLibrary⦄ where
  open o use {Bus}

  -- `janet_stream_close` calls the callback that listens on the stream, with JANET_ASYNC_EVENT_CLOSE.
  abbrev pub calls_listener : ℕ → Action (Unit {0}) → ℤ × Bool → Closer
  calls_listener fuel process_bus reads stream = elim stream.listener [
    | on_timer ↦ timer_callback process_bus reads close_event
    | on_bus ↦ bus_callback fuel process_bus close_event
  ]

  -- The connection after it was closed, with the bus `b` and the queue `xs`.
  abbrev pub shut : Bus → List ℕ → Connection → Connection
  shut b xs s = record s {
    loop =
        over close_status "D-Bus connection closed" (scheduled ∷ ended ∷ scheduled ∷ ended ∷ []) xs
          s.loop;
    bus = none;
    bus_stream = none;
    timer = none;
    released = s.released ++ b ∷ [];
  }

  -- An open connection with the queue `xs` is closed, and closed again, where `janet_stream_close`
  -- calls the listening callback, where no channel of the queue is closed and the slots of its nodes
  -- are there, with fuel above the length of `xs`: the first time, each node of the queue is told
  -- `:close` once, in the order of the queue, and its slot is released, the queue is empty, the
  -- fibers of the bus's stream and of the timer are scheduled and ended, the bus is flushed and
  -- released, and the connection's three pointers are NULL; the second time nothing happens.
  pub close_bus-twice :
      {b : Bus} {stream timer : Stream} (fuel : ℕ) (process_bus : Action (Unit {0}))
      (reads : ℤ × Bool) (s : Connection) (xs : List ℕ)
      → s.bus ≡ some b
      → s.bus_stream ≡ some stream
      → s.timer ≡ some timer
      → stream.listener ≡ on_bus
      → timer.listener ≡ on_timer
      → IsQueue s.loop.world.pendings xs
      → CanTellAll s.loop.world xs
      → length xs < fuel
      → (close_bus (calls_listener fuel process_bus reads)
            >> close_bus (calls_listener fuel process_bus reads))
          s
        ≡ ok tt (shut b xs s)
  unfolding close_bus timer_callback end_listener
  close_bus-twice {b} fuel process_bus reads s xs bus stream timer on on' q can less =
      rw
        (
          bus,
          stream,
          on,
          bus_callback-Ends fuel process_bus s.loop xs closed q can less,
          timer,
          on',
          append_assoc (s.loop.fibers ++ scheduled ∷ ended ∷ []) (scheduled ∷ []) (ended ∷ []),
          append_assoc s.loop.fibers (scheduled ∷ ended ∷ []) (scheduled ∷ ended ∷ []),
          append-nil (s.released ++ b ∷ []),
        )
        refl
