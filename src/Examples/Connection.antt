-- ===== src/Examples/Connection.antt =====
-- Witnesses and runs for connections.
use janet_sdbus.Base.{
  ◌==◌, and_then, pure, ◌++◌, ◌>>◌, ◌≡◌, refl, ℕ, true, false, Option, none, some, [], ◌∷◌, ok,
  panic, Outcome, ℤ, pos, arith,
}
use janet_sdbus.Calls.{Action, error_status, closeall_pending, close_from, give, unref}
use janet_sdbus.Pending.{null, get_head, set_head, load}
use janet_sdbus.Listeners.{
  Loop, hup_event, cancelled, ended, bus_callback, timer_callback, end_listener,
}
use janet_sdbus.Listeners.Ending.{hung_up, over, bus_callback-Ends}
use janet_sdbus.Connection.{
  user, Name, OpenLibrary, ConnectionError, Connection, Closer, close_bus, open_bus, init_async,
  dbus_bus_gc, get_unique_name, dbus_bus_tostring, list_names, push_names, closed_text,
}
use janet_sdbus.Connection.Closing.{calls_listener, shut, close_bus-twice}
use janet_sdbus.Connection.Life.{
  Reaches, returned, Step, start, step, closing, made, dbus_bus_gc-Steps,
}
use janet_sdbus.Connection.Names.{dbus_bus_tostring-get_unique_name}
use janet_sdbus.Examples.Pending.{two, two-IsQueue}
use janet_sdbus.Examples.Calls.{numbers}

abbrev one_name : Name
one_name = record { block = 31; text = b'a' ∷ [] }

abbrev open_or_closed : Option ℕ → ℤ
open_or_closed none = pos 0
open_or_closed (some bus) = pos 1

-- The bus 7, on the descriptor 4, with a timer on the descriptor 5.
instance abbrev bus_seven : OpenLibrary
bus_seven = record {
  Bus = ℕ;
  open_with = λ target. (pos 0, 7);
  timerfd_create = some (pos 5);
  get_fd = λ bus. pos 4;
  get_events = λ bus. pos 1;
  has_pollin = λ events. true;
  has_pollout = λ events. false;
  is_open = open_or_closed;
  unique_name = λ bus. (pos 0, b':' ∷ b'1' ∷ []);
  set_allow = λ bus allow. pos 0;
  list_names = λ bus. (pos 0, (one_name ∷ [], 32));
}

abbrev nothing_processed : Action (Unit {0})
nothing_processed s = ok tt s

abbrev loop : Loop
loop = record {
  world = record {
    pendings = two;
    given = [];
    unreferenced = [];
    closed = λ c. c == 3;
    lost = λ p. p == null;
  };
  fibers = [];
}

abbrev zeroed : Connection
zeroed = record {
  loop = loop;
  bus = none;
  bus_stream = none;
  timer = none;
  released = [];
  freed = [];
}

abbrev state : {A : Type 0} → Outcome ConnectionError Connection A → Connection
state (ok a s) = s
state (panic e s) = s
state _ = zeroed

abbrev opened : Connection
opened = state (open_bus user zeroed)

abbrev closer : Closer
closer = calls_listener 3 nothing_processed (pos 8, false)

bus_callback-Ends_example :
    bus_callback 3 nothing_processed hup_event loop
    ≡ ok tt (
        over error_status "D-Bus connection error"
          (cancelled "D-Bus connection error" ∷ ended ∷ [])
          (2 ∷ 1 ∷ [])
          loop)
bus_callback-Ends_example =
    bus_callback-Ends 3 nothing_processed loop (2 ∷ 1 ∷ []) hung_up two-IsQueue
      ((refl, refl), ((refl, refl), tt)) (omega arith)

close_bus-twice_example :
    (close_bus closer >> close_bus closer) opened ≡ ok tt (shut 7 (2 ∷ 1 ∷ []) opened)
unfolding open_bus init_async
close_bus-twice_example =
    close_bus-twice 3 nothing_processed (pos 8, false) opened (2 ∷ 1 ∷ []) refl refl refl refl refl
      two-IsQueue ((refl, refl), ((refl, refl), tt)) (omega arith)

abbrev closed : Connection
closed = shut 7 (2 ∷ 1 ∷ []) opened

-- The connection is opened, asked for its name, closed twice, and then collected.
opening : Reaches opened (open_bus user zeroed)
unfolding open_bus init_async
opening = returned

asked : Step opened opened
unfolding open_bus init_async get_unique_name
asked = Step.naming returned

abbrev shut_once : Connection
shut_once = state (close_bus closer opened)

abbrev shut_twice : Connection
shut_twice = state (close_bus closer shut_once)

shutting : Step opened shut_once
unfolding open_bus init_async close_bus bus_callback timer_callback closeall_pending close_from
    get_head set_head load give unref end_listener
shutting = closing closer returned

shutting_again : Step shut_once shut_twice
unfolding open_bus init_async close_bus bus_callback timer_callback closeall_pending close_from
    get_head set_head load give unref end_listener
shutting_again = closing closer returned

dbus_bus_gc-Steps_example :
    dbus_bus_gc shut_twice ≡ ok tt (record shut_twice { released = made user })
dbus_bus_gc-Steps_example =
    dbus_bus_gc-Steps user zeroed refl refl opening
      (step (step (step start asked) shutting) shutting_again)

list_names_runs : list_names zeroed ≡ ok ((b'a' ∷ []) ∷ []) (record zeroed { freed = 31 ∷ 32 ∷ [] })
unfolding list_names push_names
list_names_runs = refl

-- A connection that was closed has no name.
closed_name : get_unique_name zeroed ≡ ok closed_text zeroed
unfolding get_unique_name
closed_name = refl

dbus_bus_tostring-get_unique_name_example :
    dbus_bus_tostring (b'<' ∷ []) opened
    ≡ and_then (get_unique_name opened) (λ name. pure ((b'<' ∷ []) ++ name))
dbus_bus_tostring-get_unique_name_example = dbus_bus_tostring-get_unique_name (b'<' ∷ []) opened
