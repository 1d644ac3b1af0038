-- ===== src/Calls.antt =====
-- Asynchronous calls and subscriptions: src/call.c, and `create_async_pending` and `closeall_pending`
-- of src/async.c. A channel is the list of what it was given, all channels in one log. An
-- `AsyncState` is its `pending`, for the one connection.
pub mod Log
pub mod Delivery
pub mod Closing
pub mod Registering
pub mod Releasing
pub mod Once
pub mod Answering
pub mod Losing
pub mod Life
use Prim.Native.String.{String}
use janet_sdbus.Base.{
  ℕ, zero, suc, Bool, true, false, Option, none, some, List, [], ◌∷◌, ◌++◌, Outcome, ok, panic,
  fault, out_of_fuel, Cmd, pure, raise, stuck, no_fuel, ◌>>=◌, ◌>>◌, ◌==◌, if◌then◌else◌, ℤ,
  is_negative,
}
use janet_sdbus.Signature.{Bytes}
use janet_sdbus.Pending.{
  Ptr, null, Kind, call, match, AsyncPending, Heap, Pendings, AsyncError, failed_to_call,
  channel_closed, Queue, load, write, get_head, set_head, queue_pending, dequeue_pending,
}

-- The types of messages in sd-bus-protocol.h, and any other number.
pub data MessageType : Type 0 where
  method_call method_return method_error signal unknown : MessageType

-- `sd_bus_error`; the message is `none` where it is NULL.
pub record BusError : Type 0 where
  pub name : Bytes
  pub message : Option Bytes

-- What src/call.c takes from sd-bus.h. The functions that change a message give the new message with
-- their result, and `copy` gives the target and the source.
pub record BusLibrary : Type 1 where
  pub Message : Type 0
  pub get_type : Message → MessageType
  pub get_error : Message → BusError
  pub is_method_error : Message → Bool
  pub message_new : MessageType → ℤ × Message
  pub rewind : Message → ℤ × Message
  pub copy : Message → Message → ℤ × (Message × Message)
  pub seal : Message → ℤ × Message

pub data Status : Type 0 where
  ok_status error_status close_status : Status

-- The text that `format_error` makes, by its format and arguments.
pub data ErrorText : Type 0 where
  named : Bytes → ErrorText
  with_message : (name message : Bytes) → ErrorText

unfoldable pub format_error : BusError → ErrorText
format_error error = elim (error.message) [
  | none ↦ named error.name
  | some text ↦ with_message error.name text
]

unfoldable pub free : Ptr → Queue (Unit {0})
free p s = ok tt (record s { node = λ a. if a == p then none else s.node a })

abbrev pub to_slot : Ptr → AsyncPending → AsyncPending
to_slot slot n = record n { slot = slot }

abbrev pub to_kind : Kind → AsyncPending → AsyncPending
to_kind kind n = record n { kind = kind }

-- `malloc` gives the address `p`, whose bytes are still those of `junk`, and `slot` is the new
-- abstract; a failed `malloc` ends the process.
unfoldable pub create_async_pending : Ptr → Ptr → AsyncPending → ℕ → Queue Ptr
create_async_pending p slot junk chan s =
    let pending : AsyncPending = record junk { slot = slot; chan = chan } in
    ok p (record s { node = λ a. if a == p then some pending else s.node a })

abbrev pub is_call : Kind → Bool
is_call call = true
is_call match = false

module _ ⦃w : BusLibrary⦄ where
  open w use {Message, get_type, get_error, is_method_error, message_new, rewind, copy, seal}

  pub data Payload : Type 0 where
    a_message : Message → Payload
    an_error : ErrorText → Payload
    a_text : String → Payload

  -- One `janet_channel_give`: the channel and the tuple.
  pub record Given : Type 0 where
    pub chan : ℕ
    pub status : Status
    pub payload : Payload

  pub record World : Type 0 where
    pub pendings : Pendings
    -- what the channels were given, the latest last
    pub given : List Given
    -- the slots passed to `sd_bus_slot_unrefp` by `closeall_pending`, the latest last
    pub unreferenced : List Ptr
    -- the channels that are closed
    pub closed : ℕ → Bool
    -- addresses with no slot behind them: NULL, and slots that the garbage collector has taken
    pub lost : Ptr → Bool

  abbrev pub Action : Type 0 → Type 0
  Action A = Cmd AsyncError World A

  abbrev pub back :
      {A : Type 0} → World → Outcome AsyncError Pendings A → Outcome AsyncError World A
  back s (ok a q) = ok a (record s { pendings = q })
  back s (panic e q) = panic e (record s { pendings = q })
  back s fault = fault
  back s out_of_fuel = out_of_fuel

  abbrev pub on_queue : {A : Type 0} → Queue A → Action A
  on_queue m s = back s (m s.pendings)

  -- CHAN_PUSH; `janet_channel_give` panics on a closed channel.
  unfoldable pub give : ℕ → Status → Payload → Action (Unit {0})
  give chan status payload s =
      if s.closed chan
      then raise channel_closed s
      else ok tt (record s {
        given = s.given ++ record { chan = chan; status = status; payload = payload } ∷ [];
      })

  -- `sd_bus_slot_unrefp(p->slot); *p->slot = NULL;`
  unfoldable pub unref : Ptr → Action (Unit {0})
  unref slot s =
      if s.lost slot then fault else ok tt (record s { unreferenced = s.unreferenced ++ slot ∷ [] })

  -- CALL_SD_BUS_FUNC, with the function's name.
  abbrev pub checked : {A : Type 0} → String → ℤ × A → Action A
  checked name (rv, a) = if is_negative rv then raise (failed_to_call name rv) else pure a

  unfoldable pub message_copy : Message → MessageType → Action Message
  message_copy msg type = do
    new ← checked "sd_bus_message_new" (message_new type)
    msg' ← checked "sd_bus_message_rewind" (rewind msg)
    copied ← checked "sd_bus_message_copy" (copy new msg')
    _ ← checked "sd_bus_message_rewind" (rewind copied.1)
    checked "sd_bus_message_seal" (seal copied.0)

  unfoldable pub init_callback_state : Ptr → Ptr → AsyncPending → ℕ → Action Ptr
  unfolding create_async_pending
  init_callback_state p slot junk chan = on_queue (create_async_pending p slot junk chan)

  unfoldable pub destroy_call_callback : Ptr → Action (Unit {0})
  unfolding write dequeue_pending free
  destroy_call_callback pending = do
    on_queue (write pending (to_slot null))
    on_queue (dequeue_pending pending)
    on_queue (free pending)

  unfoldable pub signal_install_handler : Ptr → Message → Action (Unit {0})
  unfolding load give format_error
  signal_install_handler pending msg =
      if is_method_error msg
      then (do
        n ← on_queue (load pending)
        give n.chan error_status (an_error (format_error (get_error msg))))
      else pure tt

  -- `if (pending->kind == Call) dequeue_pending(&conn->queue, pending);`
  unfoldable pub dequeue_call : Ptr → Action (Unit {0})
  unfolding load dequeue_pending
  dequeue_call pending = do
    n ← on_queue (load pending)
    if is_call n.kind then on_queue (dequeue_pending pending) else pure tt

  -- The case SD_BUS_MESSAGE_METHOD_CALL, into which a method return falls through.
  unfoldable pub give_reply : Ptr → MessageType → Message → Action (Unit {0})
  unfolding load give message_copy
  give_reply pending type reply = do
    n ← on_queue (load pending)
    msg ← (if is_call n.kind then pure reply else message_copy reply type)
    n' ← on_queue (load pending)
    give n'.chan ok_status (a_message msg)

  unfoldable pub handle : Ptr → Message → MessageType → Action (Unit {0})
  unfolding dequeue_call give_reply load give format_error
  handle pending reply method_return = do
    dequeue_call pending
    give_reply pending method_return reply
  handle pending reply method_call = give_reply pending method_call reply
  handle pending reply signal = do
    n ← on_queue (load pending)
    give n.chan ok_status (a_message reply)
  handle pending reply method_error = do
    dequeue_call pending
    n ← on_queue (load pending)
    give n.chan error_status (an_error (format_error (get_error reply)))
  handle pending reply unknown = pure tt

  unfoldable pub message_handler : Ptr → Message → Action (Unit {0})
  unfolding handle
  message_handler pending reply = handle pending reply (get_type reply)

  -- What `sdbus/call-async` and `sdbus/match-async` share: `rv` is what `sd_bus_call_async` or
  -- `sd_bus_add_match_async` returns. The two settings of the slot change nothing that is modelled.
  unfoldable pub register : Kind → String → ℤ → Ptr → Ptr → AsyncPending → ℕ → Action Ptr
  unfolding init_callback_state write free queue_pending
  register kind name rv p slot junk chan = do
    pending ← init_callback_state p slot junk chan
    on_queue (write pending (to_kind kind))
    (if is_negative rv
        then (do on_queue (free pending); raise (failed_to_call name rv))
        else pure tt)
    on_queue (queue_pending pending)
    pure pending

  abbrev pub slot_of : Ptr → Action Ptr
  slot_of pending = do n ← on_queue (load pending); pure n.slot

  unfoldable pub match_async : ℤ → Ptr → Ptr → AsyncPending → ℕ → Action Ptr
  unfolding register load
  match_async rv p slot junk chan = do
    pending ← register match "sd_bus_add_match_async" rv p slot junk chan
    slot_of pending

  -- The loop of `closeall_pending`.
  unfoldable pub close_from : ℕ → Status → String → Ptr → Action (Unit {0})
  unfolding load give unref
  close_from zero why msg p = no_fuel
  close_from (suc fuel) why msg p =
      let rest = close_from fuel why msg in
      if p == null
      then pure tt
      else do n ← on_queue (load p); give n.chan why (a_text msg); unref n.slot; rest n.next

  unfoldable pub closeall_pending : ℕ → Status → String → Action (Unit {0})
  unfolding close_from get_head set_head
  closeall_pending fuel why msg = do
    first ← on_queue get_head
    if first == null then pure tt else do close_from fuel why msg first; on_queue (set_head null)
