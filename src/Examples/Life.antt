-- ===== src/Examples/Life.antt =====
-- Witnesses for the life of calls, slots and messages.
use janet_sdbus.Base.{false, ◌>>◌, ℕ, ◌≡◌, refl, none, some, [], ◌∷◌, ◌++◌, ok, Outcome, pos}
use janet_sdbus.Pending.{AsyncError, AsyncPending, null, call, match}
use janet_sdbus.Calls.{
  ok_status, a_message, World, register, message_handler, destroy_call_callback,
}
use janet_sdbus.Calls.Answering.{returns, Answers, destroy_call_callback-Replies}
use janet_sdbus.Handles.{Handle, lost}
use janet_sdbus.Slots.{cancelling, closing, used, dbus_slot_gc}
use janet_sdbus.Slots.Released.{dbus_slot_gc-used}
use janet_sdbus.Examples.Pending.{two, two-IsQueue, pending}
use janet_sdbus.Examples.Calls.{numbers}

abbrev all_open : World
all_open = record {
  pendings = two;
  given = [];
  unreferenced = [];
  closed = λ c. false;
  lost = λ p. false;
}

abbrev after : {A : Type 0} → Outcome AsyncError World A → World
after (ok a s) = s
after _ = all_open

abbrev empty : World
empty = record {
  pendings = record { node = λ a. none; head = null };
  given = [];
  unreferenced = [];
  closed = λ c. false;
  lost = λ p. false;
}

abbrev one_call : World
one_call = after (register call "sd_bus_call_async" (pos 1) 1 9 (pending 6 6) 5 empty)

abbrev and_match : World
and_match = after (register match "sd_bus_add_match_async" (pos 1) 2 10 (pending 6 6) 4 one_call)

abbrev answered : World
answered = after ((message_handler 1 1 >> destroy_call_callback 1) and_match)

abbrev answered_call : AsyncPending
answered_call = record { slot = 9; chan = 5; next = null; prev = 2; kind = call }

destroy_call_callback-Replies_example :
    Answers 1
      (2 ∷ [])
      (record { chan = 8; status = ok_status; payload = a_message 1 })
      (all_open)
      ((message_handler 1 1 >> destroy_call_callback 1) (all_open))
destroy_call_callback-Replies_example =
    destroy_call_callback-Replies (all_open) (2 ∷ []) 1 [] 1 two-IsQueue refl refl refl
      (returns refl)

-- A slot that is cancelled twice, with the end of its connection in between.
abbrev slot : Handle ℕ
slot = record { held = some 7; touches = [] }

dbus_slot_gc-used_example :
    (lost (dbus_slot_gc (used (cancelling ∷ closing ∷ cancelling ∷ []) slot)).touches
      ≡ lost slot.touches ++ 7 ∷ [])
    × ((dbus_slot_gc (used (cancelling ∷ closing ∷ cancelling ∷ []) slot)).held ≡ none)
dbus_slot_gc-used_example = dbus_slot_gc-used (cancelling ∷ closing ∷ cancelling ∷ []) slot refl
