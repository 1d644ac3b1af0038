-- ===== src/Calls/Losing.antt =====
-- A reply to a call whose channel has been closed: `message_handler` of src/call.c.
use janet_sdbus.Base.{◌≡◌, refl, true, some, List, ◌∷◌, ◌++◌, Outcome, panic}
use janet_sdbus.Pending.{Ptr, call, channel_closed, AsyncPending, AsyncError}
use janet_sdbus.Pending.Queue.{IsQueue}
use janet_sdbus.Pending.Contents.{contents}
use janet_sdbus.Calls.{BusLibrary, Given, World, give, give_reply, message_handler}
use janet_sdbus.Calls.Delivery.{dequeue_call-Leaves}
use janet_sdbus.Calls.Answering.{Replies, returns, fails}

module _ ⦃w : BusLibrary⦄ where
  open w use {Message}

  -- A run that panics since a channel is closed, and ends with the queue `xs`. It has given and released
  -- nothing, and kept the slot, the channel and the kind of every node.
  pub data Loses (xs : List Ptr) (s : World) : Outcome AsyncError World (Unit {0}) → Type 0 where
    loses :
        {t : World}
        → IsQueue t.pendings xs
        → ((a : Ptr) → contents (t.pendings.node a) ≡ contents (s.pendings.node a))
        → t.given ≡ s.given
        → t.unreferenced ≡ s.unreferenced
        → Loses xs s (panic channel_closed t)

  -- A reply, a return or an error, to a call that is pending, wherever it stands in the queue, and whose
  -- channel is closed: the code panics, when the call has left the queue already; the others stay in
  -- their order, nothing is given, and no slot is released.
  pub message_handler-closed :
      {n : AsyncPending} (s : World) (ys : List Ptr) (p : Ptr) (zs : List Ptr) (reply : Message)
      {g : Given}
      → IsQueue s.pendings (ys ++ p ∷ zs)
      → s.pendings.node p ≡ some n
      → n.kind ≡ call
      → Replies reply n.chan g
      → s.closed n.chan ≡ true
      → Loses (ys ++ zs) s (message_handler p reply s)
  unfolding message_handler give_reply give
  message_handler-closed s ys p zs reply q here kind (returns type) shut = rw type (
      dequeue_call-Leaves (Loses (ys ++ zs) s) _ s ys p zs q here kind
        λ t queue same kept found. rw (found, kind, found, shut) (loses queue kept refl refl))
  message_handler-closed s ys p zs reply q here kind (fails type) shut = rw type (
      dequeue_call-Leaves (Loses (ys ++ zs) s) _ s ys p zs q here kind
        λ t queue same kept found. rw (found, shut) (loses queue kept refl refl))
