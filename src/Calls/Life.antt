-- ===== src/Calls/Life.antt =====
-- The life of a connection's calls and subscriptions: any order of the operations of src/call.c, and
-- then `closeall_pending` of src/async.c. A slot is released while its node is queued, or right
-- after the answer, or stays held; a slot that is released later is in Pending/Stale.
pub mod Balance
pub mod Settling
use Prim.Native.String.{String}
use janet_sdbus.Base.{
  ℕ, Bool, suc, ◌+◌, ◌≡◌, ◌≢◌, refl, sym, ap, subst, ◌∙◌, true, false, Bool-cases, inl, inr, none,
  some, List, [], ◌∷◌, ◌++◌, Outcome, ok, panic, ◌>>◌, arith, ◌==◌, length, length-append, ℤ,
  is_negative,
}
use janet_sdbus.Pending.{Ptr, null, Kind, call, AsyncPending, AsyncError, Heap}
use janet_sdbus.Pending.Links.{has, Links}
use janet_sdbus.Pending.Queue.{IsQueue, load-ok}
use janet_sdbus.Pending.Again.{Links-unique}
use janet_sdbus.Calls.{
  BusLibrary, signal, give, Status, ok_status, a_message, Given, World, register, message_handler,
  destroy_call_callback, closeall_pending,
}
use janet_sdbus.Calls.Log.{notices}
use janet_sdbus.Calls.Closing.{closeall_pending-IsQueue}
use janet_sdbus.Calls.Delivery.{Links-apart}
use janet_sdbus.Calls.Registering.{
  Links-placed, Registered, Registers, registers, register-accepted, register-refused,
}
use janet_sdbus.Calls.Releasing.{Released, Releases, releases, destroy_call_callback-queued}
use janet_sdbus.Calls.Answering.{Replies, Answered, Answers, answers, destroy_call_callback-Replies}

-- What has happened: calls and subscriptions that were made, calls that were answered, slots that were
-- released while their nodes were queued, and signals that were delivered.
pub record Ledger : Type 0 where
  pub made : ℕ
  pub answered : ℕ
  pub cancelled : ℕ
  pub published : ℕ

module _ ⦃w : BusLibrary⦄ where
  open w use {Message, get_type}

  -- A connection from its start.
  pub data Lives : World → Ledger → Type 0 where
    starts :
        {s : World}
        → s.pendings.head ≡ null
        → s.given ≡ []
        → Lives s (record { made = 0; answered = 0; cancelled = 0; published = 0 })
    makes :
        {s t : World} {l : Ledger} (kind : Kind) (name : String) (rv : ℤ) (p slot : Ptr)
        (junk : AsyncPending) (chan : ℕ)
        → Lives s l
        → is_negative rv ≡ false
        → p ≢ null
        → s.pendings.node p ≡ none
        → register kind name rv p slot junk chan s ≡ ok p t
        → Lives t (record l { made = suc l.made })
    refuses :
        {s t : World} {l : Ledger} {e : AsyncError} (kind : Kind) (name : String) (rv : ℤ)
        (p slot : Ptr) (junk : AsyncPending) (chan : ℕ)
        → Lives s l
        → is_negative rv ≡ true
        → p ≢ null
        → s.pendings.node p ≡ none
        → register kind name rv p slot junk chan s ≡ panic e t
        → Lives t l
    replies :
        {s t : World} {l : Ledger} {n : AsyncPending} {g : Given} (ys : List Ptr) (p : Ptr)
        (zs : List Ptr) (reply : Message)
        → Lives s l
        → IsQueue s.pendings (ys ++ p ∷ zs)
        → s.pendings.node p ≡ some n
        → n.kind ≡ call
        → s.closed n.chan ≡ false
        → Replies reply n.chan g
        → (message_handler p reply >> destroy_call_callback p) s ≡ ok tt t
        → Lives t (record l { answered = suc l.answered })
    -- the slot is still held after the answer
    replies_held :
        {s t : World} {l : Ledger} {n : AsyncPending} {g : Given} (ys : List Ptr) (p : Ptr)
        (zs : List Ptr) (reply : Message)
        → Lives s l
        → IsQueue s.pendings (ys ++ p ∷ zs)
        → s.pendings.node p ≡ some n
        → n.kind ≡ call
        → s.closed n.chan ≡ false
        → Replies reply n.chan g
        → message_handler p reply s ≡ ok tt t
        → Lives t (record l { answered = suc l.answered })
    -- channels are closed by others, and the garbage collector takes slots
    loses :
        {s : World} {l : Ledger} (closed : ℕ → Bool) (lost : Ptr → Bool)
        → Lives s l
        → Lives (record s { closed = closed; lost = lost }) l
    publishes :
        {s t : World} {l : Ledger} {n : AsyncPending} (ys : List Ptr) (p : Ptr) (zs : List Ptr)
        (msg : Message)
        → Lives s l
        → IsQueue s.pendings (ys ++ p ∷ zs)
        → s.pendings.node p ≡ some n
        → s.closed n.chan ≡ false
        → get_type msg ≡ signal
        → message_handler p msg s ≡ ok tt t
        → Lives t (record l { published = suc l.published })
    cancels :
        {s t : World} {l : Ledger} (ys : List Ptr) (p : Ptr) (zs : List Ptr)
        → Lives s l
        → IsQueue s.pendings (ys ++ p ∷ zs)
        → destroy_call_callback p s ≡ ok tt t
        → Lives t (record l { cancelled = suc l.cancelled })
