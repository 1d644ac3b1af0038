-- ===== src/Examples/Dispatch.antt =====
-- Witnesses and runs for a connection whose bus runs the handlers.
use janet_sdbus.Base.{◌==◌, ℕ, refl, true, false, none, some, List, [], ◌∷◌, ℤ, pos, arith, Option}
use janet_sdbus.Pending.{null, Ptr}
use janet_sdbus.Calls.{ok_status, error_status, a_message, an_error, format_error, Given}
use janet_sdbus.Calls.Answering.{returns, fails}
use janet_sdbus.Events.{Conn, timer, process_bus}
use janet_sdbus.Dispatch.{ArrivalLibrary, sessions, call_async}
use janet_sdbus.Dispatch.Draining.{quiet, runs, Serves, served, serves}
use janet_sdbus.Dispatch.Calling.{
  Rests, work, Settles, called, with_call, process_bus-Serves, call_async-Meets,
}
use janet_sdbus.Examples.Pending.{pending, nodes, two, two-IsQueue}
use janet_sdbus.Examples.Calls.{numbers}

-- A bus is the list of what has arrived.
abbrev take_one : List (Ptr × ℕ) → ℤ × (List (Ptr × ℕ) × (Option (Ptr × ℕ) × List Ptr))
take_one [] = (pos 0, ([], (none, [])))
take_one (d ∷ ds) = (pos 1, (ds, (some d, [])))

abbrev waiting_time : List (Ptr × ℕ) → ℤ × ℕ
waiting_time [] = (pos 0, 2500000)
waiting_time (d ∷ ds) = (pos 0, 0)

instance abbrev arrived : ArrivalLibrary ℕ
arrived = record {
  Bus = List (Ptr × ℕ);
  process = take_one;
  get_events = λ b. pos 1;
  has_pollin = λ e. true;
  has_pollout = λ e. false;
  get_timeout = waiting_time;
  settime_fails = λ v. false;
}

-- The reply to 1, and then an error to 2.
abbrev arrivals : List (Ptr × ℕ)
arrivals = (1, 1) ∷ (2, 2) ∷ []

abbrev conn : List (Ptr × ℕ) → Conn
conn b = record {
  bus = record {
    bus = b;
    world = record {
      pendings = two;
      given = [];
      unreferenced = [];
      closed = λ c. c == 3;
      lost = λ p. p == null;
    };
  };
  stream = record { readable = false; writable = true; others = 16 };
  armed = timer 0 0;
  triggered = 0;
}

abbrev returned_one : Given
returned_one = record { chan = 8; status = ok_status; payload = a_message 1 }

abbrev failed_two : Given
failed_two = record {
  chan = 8;
  status = error_status;
  payload = an_error (format_error (record { name = b'E' ∷ []; message = none }));
}

answering : Serves (λ c. c == 3) nodes (2 ∷ 1 ∷ []) arrivals (returned_one ∷ failed_two ∷ []) []
answering =
    serves (2 ∷ []) 1 [] 1 refl refl (returns refl) (serves [] 2 [] 2 refl refl (fails refl) served)

rests : Rests [] 2500000
rests = record {
  timed = record { returned = pos 0; timeout = refl; told = refl };
  later = refl;
  settable = refl;
}

process_bus-Serves_example :
    Settles [] 2500000 []
      (returned_one ∷ failed_two ∷ [])
      (conn arrivals)
      tt
      (process_bus 4 (conn arrivals))
process_bus-Serves_example =
    process_bus-Serves 3 (conn arrivals) (runs refl (runs refl (quiet refl))) answering two-IsQueue
      (omega arith) refl rests

-- A third call, whose reply has arrived before the timer is set, with the reply to 1.
abbrev submitted : List (Ptr × ℕ) → ℤ × List (Ptr × ℕ)
submitted b = (pos 1, (3, 1) ∷ (1, 1) ∷ b)

abbrev returned_three : Given
returned_three = record { chan = 5; status = ok_status; payload = a_message 1 }

meanwhile :
    Serves
      (λ c. c == 3)
      (called nodes 3 9 5 (pending 6 6))
      (3 ∷ 2 ∷ 1 ∷ [])
      ((3, 1) ∷ (1, 1) ∷ [])
      (returned_three ∷ returned_one ∷ [])
      (2 ∷ [])
meanwhile =
    serves [] 3 (2 ∷ 1 ∷ []) 1 refl refl (returns refl)
      (serves (2 ∷ []) 1 [] 1 refl refl (returns refl) served)

call_async-Meets_example :
    Settles [] 2500000
      (2 ∷ [])
      (returned_three ∷ returned_one ∷ [])
      (with_call (conn []) 3 9 5 (pending 6 6))
      9
      (call_async 4 submitted 3 9 (pending 6 6) 5 (conn []))
call_async-Meets_example =
    call_async-Meets 4 submitted 3 9 (pending 6 6) 5 (conn []) refl refl two-IsQueue
      (λ e. ground arith) refl
      (work (record { returned = pos 0; timeout = refl; told = refl })
        (runs refl (runs refl (quiet refl))) refl rests)
      meanwhile (omega arith)
