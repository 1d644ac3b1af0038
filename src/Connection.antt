-- ===== src/Connection.antt =====
-- Connections: src/bus.c, and `janet_poll` and `init_async` of src/async.c. A connection's `queue` is in
-- the state of its event loop; the streams and the bus are the objects that its pointers hold, and
-- `none` is NULL.
pub mod Closing
pub mod Life
pub mod Names
use Prim.Native.String.{String}
use janet_sdbus.Base.{
  ℕ, Bool, true, false, Option, none, some, List, [], ◌∷◌, ◌++◌, map, Outcome, ok, panic, fault,
  out_of_fuel, Cmd, pure, raise, ◌>>=◌, ◌>>◌, if◌then◌else◌, ℤ, is_negative, is_zero,
}
use janet_sdbus.Signature.{Bytes}
use janet_sdbus.Pending.{AsyncError}
use janet_sdbus.Calls.{BusLibrary}
use janet_sdbus.Listeners.{Loop, Callback}

-- The function that opens the bus, with its argument.
pub data Target : Type 0 where
  user system : Target
  user_machine system_machine system_remote : Bytes → Target

abbrev pub open_name : Target → String
open_name user = "sd_bus_open_user"
open_name system = "sd_bus_open_system"
open_name (user_machine machine) = "sd_bus_open_user_machine"
open_name (system_machine machine) = "sd_bus_open_system_machine"
open_name (system_remote host) = "sd_bus_open_system_remote"

-- The flags that the source gives to a stream, and the callback that listens on it.
pub data Listener : Type 0 where
  on_timer on_bus : Listener

pub record Stream : Type 0 where
  pub handle : ℤ
  pub readable : Bool
  pub writable : Bool
  pub not_closeable : Bool
  pub listener : Listener

-- A string of `sd_bus_list_names`, with the block that it is in.
pub record Name : Type 0 where
  pub block : ℕ
  pub text : Bytes

-- What src/bus.c and `init_async` take from sd-bus.h, poll.h and timerfd.h.
pub record OpenLibrary : Type 1 where
  pub Bus : Type 0
  pub open_with : Target → ℤ × Bus
  -- `none` is -1
  pub timerfd_create : Option ℤ
  pub get_fd : Option Bus → ℤ
  pub get_events : Option Bus → ℤ
  pub has_pollin : ℤ → Bool
  pub has_pollout : ℤ → Bool
  pub is_open : Option Bus → ℤ
  pub unique_name : Option Bus → ℤ × Bytes
  pub set_allow : Option Bus → Bool → ℤ
  -- the strings, and the block of the array
  pub list_names : Option Bus → ℤ × (List Name × ℕ)

pub data ConnectionError : Type 0 where
  failed_to_call : String → ℤ → ConnectionError
  timerfd_create_failed : ConnectionError
  -- a panic in a callback that the closing of a stream has run
  in_callback : AsyncError → ConnectionError

abbrev pub held : {A : Type 0} → Option A → List A
held none = []
held (some a) = a ∷ []

abbrev pub closed_text : Bytes
closed_text = b'c' ∷ b'l' ∷ b'o' ∷ b's' ∷ b'e' ∷ b'd' ∷ []

module _ ⦃w : BusLibrary⦄ ⦃o : OpenLibrary⦄ where
  open o use {
    Bus, open_with, timerfd_create, get_fd, get_events, has_pollin, has_pollout, is_open,
    unique_name, set_allow,
  }

  pub record Connection : Type 0 where
    pub loop : Loop
    pub bus : Option Bus
    pub bus_stream : Option Stream
    pub timer : Option Stream
    -- what `sd_bus_flush_close_unref` was given but NULL, and the blocks that were freed, the latest
    -- last
    pub released : List Bus
    pub freed : List ℕ

  abbrev pub Live : Type 0 → Type 0
  Live A = Cmd ConnectionError Connection A

  -- CALL_SD_BUS_FUNC
  abbrev pub called : String → ℤ → Live ℤ
  called name rv = if is_negative rv then raise (failed_to_call name rv) else pure rv

  abbrev pub or_raise : {A : Type 0} → ConnectionError → Option A → Live A
  or_raise e none = raise e
  or_raise e (some a) = pure a

  -- The stream of `janet_poll`, whose fiber listens to reads and writes.
  abbrev pub janet_poll : ℤ → Bool → Bool → Bool → Listener → Stream
  janet_poll fd readable writable not_closeable listener = record {
    handle = fd;
    readable = readable;
    writable = writable;
    not_closeable = not_closeable;
    listener = listener;
  }

  abbrev pub set_timer : Stream → Live (Unit {0})
  set_timer stream s = ok tt (record s { timer = some stream })

  abbrev pub set_bus_stream : Stream → Live (Unit {0})
  set_bus_stream stream s = ok tt (record s { bus_stream = some stream })

  unfoldable pub init_async : Live (Unit {0})
  init_async = do
    timer_fd ← or_raise timerfd_create_failed timerfd_create
    set_timer (janet_poll timer_fd true false false on_timer)
    bus ← λ s. ok s.bus s
    bus_fd ← called "sd_bus_get_fd" (get_fd bus)
    events ← called "sd_bus_get_events" (get_events bus)
    set_bus_stream (janet_poll bus_fd (has_pollin events) (has_pollout events) true on_bus)

  -- What `sd_bus_open_user` and its like store.
  abbrev pub stored : String → ℤ × Bus → Live (Unit {0})
  stored name (rv, bus) = do called name rv; λ s. ok tt (record s { bus = some bus })

  -- OPEN_BUS_CORE, on a connection of zeros.
  unfoldable pub open_bus : Target → Live (Unit {0})
  unfolding init_async
  open_bus target = do stored (open_name target) (open_with target); init_async

  abbrev pub outside :
      {A : Type 0} → Connection → Outcome AsyncError Loop A → Outcome ConnectionError Connection A
  outside s (ok a t) = ok a (record s { loop = t })
  outside s (panic e t) = panic (in_callback e) (record s { loop = t })
  outside s fault = fault
  outside s out_of_fuel = out_of_fuel

  -- `janet_stream_close` calls the callback that listens on the stream.
  abbrev pub Closer : Type 0
  Closer = Stream → Callback (Unit {0})

  abbrev pub stream_close : Closer → Stream → Live (Unit {0})
  stream_close close stream s = outside s (close stream s.loop)

  abbrev pub close_held : Closer → Live (Unit {0}) → Option Stream → Live (Unit {0})
  close_held close clear none = pure tt
  close_held close clear (some stream) = do stream_close close stream; clear

  abbrev pub clear_bus_stream : Live (Unit {0})
  clear_bus_stream s = ok tt (record s { bus_stream = none })

  abbrev pub clear_timer : Live (Unit {0})
  clear_timer s = ok tt (record s { timer = none })

  abbrev pub close_bus_stream : Closer → Live (Unit {0})
  close_bus_stream close s = close_held close clear_bus_stream s.bus_stream s

  abbrev pub close_timer : Closer → Live (Unit {0})
  close_timer close s = close_held close clear_timer s.timer s

  abbrev pub flush_close_unref : Live (Unit {0})
  flush_close_unref s = ok tt (record s { released = s.released ++ held s.bus })

  unfoldable pub close_bus : Closer → Live (Unit {0})
  close_bus close = do
    close_bus_stream close
    close_timer close
    flush_close_unref
    λ s. ok tt (record s { bus = none })

  unfoldable pub dbus_bus_gc : Live (Unit {0})
  dbus_bus_gc = flush_close_unref

  -- What is marked.
  unfoldable pub dbus_bus_gcmark : Connection → List Stream
  dbus_bus_gcmark s = held s.bus_stream ++ held s.timer

  unfoldable pub bus_is_open : Live Bool
  bus_is_open s =
      (do
        check ← called "sd_bus_is_open" (is_open s.bus)
        pure (if is_zero check then false else true))
        s

  abbrev pub named : ℤ × Bytes → Live Bytes
  named (rv, name) = do called "sd_bus_get_unique_name" rv; pure name

  unfoldable pub get_unique_name : Live Bytes
  get_unique_name s =
      (do
        check ← called "sd_bus_is_open" (is_open s.bus)
        if is_zero check then pure closed_text else named (unique_name s.bus))
        s

  abbrev pub pushed : Bytes → ℤ × Bytes → Live Bytes
  pushed buffer (rv, name) = do called "sd_bus_get_unique_name" rv; pure (buffer ++ name)

  -- What the buffer holds after it.
  unfoldable pub dbus_bus_tostring : Bytes → Live Bytes
  dbus_bus_tostring buffer s =
      (do
        check ← called "sd_bus_is_open" (is_open s.bus)
        if is_zero check then pure (buffer ++ closed_text) else pushed buffer (unique_name s.bus))
        s

  unfoldable pub set_allow_interactive_authorization : Bool → Live (Unit {0})
  set_allow_interactive_authorization allow s =
      (do called "sd_bus_set_allow_interactive_authorization" (set_allow s.bus allow); pure tt) s

  abbrev pub free : ℕ → Live (Unit {0})
  free block s = ok tt (record s { freed = s.freed ++ block ∷ [] })

  -- The loop of `sdbus/list-names`.
  unfoldable pub push_names : List Bytes → List Name → Live (List Bytes)
  push_names list [] = pure list
  push_names list (p ∷ ps) = do free p.block; push_names (list ++ p.text ∷ []) ps

  abbrev pub listed : ℤ × (List Name × ℕ) → Live (List Bytes)
  listed (rv, (acquired, array)) = do
    called "sd_bus_list_names" rv
    list ← push_names [] acquired
    free array
    pure list

  unfoldable pub list_names : Live (List Bytes)
  unfolding push_names
  list_names s = listed (o.list_names s.bus) s
