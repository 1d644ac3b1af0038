-- ===== src/Examples/Calls.antt =====
-- Witnesses and runs for asynchronous calls.
use janet_sdbus.Base.{
  ◌>>◌, ℕ, ◌≡◌, refl, none, some, panic, List, [], ◌∷◌, ok, Outcome, ◌==◌, if◌then◌else◌, arith,
  pos,
}
use janet_sdbus.Pending.Queue.{IsQueue}
use janet_sdbus.Pending.{AsyncPending, channel_closed, AsyncError, null, call, load}
use janet_sdbus.Calls.{
  BusLibrary, method_return, method_error, ok_status, close_status, a_message, World,
  message_handler, closeall_pending, register, destroy_call_callback, Given,
}
use janet_sdbus.Calls.Log.{told, notices}
use janet_sdbus.Calls.Once.{Gives, message_handler-closeall_pending}
use janet_sdbus.Calls.Delivery.{Delivers, message_handler-return}
use janet_sdbus.Calls.Closing.{closeall_pending-IsQueue, closeall_pending-closed}
use janet_sdbus.Calls.Losing.{Loses, message_handler-closed}
use janet_sdbus.Calls.Answering.{returns}
use janet_sdbus.Calls.Registering.{Registers, register-accepted}
use janet_sdbus.Calls.Releasing.{Releases, destroy_call_callback-queued}
use janet_sdbus.Examples.Pending.{nodes, two, two-IsQueue, pending}

-- Messages are numbers: 1 is a reply, and the others are errors.
instance abbrev pub numbers : BusLibrary
numbers = record {
  Message = ℕ;
  get_type = λ m. if m == 1 then method_return else method_error;
  get_error = λ m. record { name = b'E' ∷ []; message = none };
  is_method_error = λ m. m == 2;
  message_new = λ type. (pos 0, 1);
  rewind = λ m. (pos 0, m);
  copy = λ m n. (pos 0, (n, n));
  seal = λ m. (pos 0, m);
}

abbrev world : World
world = record {
  pendings = two;
  given = [];
  unreferenced = [];
  closed = λ c. c == 3;
  lost = λ p. p == null;
}

message_handler-return_example :
    Delivers
      (2 ∷ [])
      (record { chan = 8; status = ok_status; payload = a_message 1 })
      world
      (message_handler 1 1 world)
message_handler-return_example =
    message_handler-return world (2 ∷ []) 1 [] 1 two-IsQueue refl refl refl refl

message_handler-closeall_pending_example :
    Gives
      (record { chan = 8; status = ok_status; payload = a_message 1 }
        ∷ notices close_status "D-Bus connection closed" nodes (2 ∷ []))
      world
      ((message_handler 1 1 >> closeall_pending 2 close_status "D-Bus connection closed") world)
message_handler-closeall_pending_example =
    message_handler-closeall_pending 2 close_status "D-Bus connection closed" world (2 ∷ []) 1 [] 1
      two-IsQueue refl refl refl ((refl, refl), tt) refl (omega arith)

closeall_pending-IsQueue_example :
    closeall_pending 3 close_status "D-Bus connection closed" world
    ≡ ok tt (record (told close_status "D-Bus connection closed" (2 ∷ 1 ∷ []) world) {
      pendings = record two { head = null };
    })
closeall_pending-IsQueue_example =
    closeall_pending-IsQueue 3 close_status "D-Bus connection closed" world (2 ∷ 1 ∷ []) two-IsQueue
      ((refl, refl), ((refl, refl), tt)) (omega arith)

-- The second node of the queue has the channel 9, which is closed.
abbrev second : AsyncPending
second = record (pending 2 null) { chan = 9 }

abbrev ending : World
ending = record world {
  pendings = record two { node = λ a. if a == 1 then some second else nodes a };
  closed = λ c. c == 9;
}

ending-IsQueue : IsQueue ending.pendings (2 ∷ 1 ∷ [])
ending-IsQueue = record {
  head = refl;
  links = (
    omega arith,
    refl,
    record { here = pending null 1; holds = refl; prev = refl; next = refl },
    (omega arith, refl, record { here = second; holds = refl; prev = refl; next = refl }, tt),
  );
}

closeall_pending-closed_example :
    closeall_pending 2 close_status "D-Bus connection closed" ending
    ≡ panic channel_closed (told close_status "D-Bus connection closed" (2 ∷ []) ending)
closeall_pending-closed_example =
    closeall_pending-closed 2 close_status "D-Bus connection closed" ending (2 ∷ []) 1 []
      ending-IsQueue ((refl, refl), tt) refl refl (omega arith)

message_handler-closed_example : Loses (2 ∷ []) ending (message_handler 1 1 ending)
message_handler-closed_example =
    message_handler-closed ending (2 ∷ []) 1 [] 1 ending-IsQueue refl refl (returns refl) refl

register-accepted_example :
    Registers call 3 9 5
      (2 ∷ 1 ∷ [])
      world
      (register call "sd_bus_call_async" (pos 1) 3 9 (pending 6 6) 5 world)
register-accepted_example =
    register-accepted call "sd_bus_call_async" (pos 1) 3 9 (pending 6 6) 5 world (2 ∷ 1 ∷ []) refl
      two-IsQueue (omega arith) refl

destroy_call_callback-queued_example : Releases 1 (2 ∷ []) world (destroy_call_callback 1 world)
destroy_call_callback-queued_example = destroy_call_callback-queued world (2 ∷ []) 1 [] two-IsQueue

abbrev channels : List Given → List ℕ
channels [] = []
channels (g ∷ gs) = g.chan ∷ channels gs

-- Both pending nodes have the channel 8.
abbrev given_by : Outcome AsyncError World (Unit {0}) → List ℕ
given_by (ok _ s) = channels s.given
given_by _ = []

closeall_pending_runs : given_by (closeall_pending 3 close_status "" world) ≡ 8 ∷ 8 ∷ []
unfolding closeall_pending load
closeall_pending_runs = refl
