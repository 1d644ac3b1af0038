-- ===== src/Calls/Once.antt =====
-- A call that is answered before the connection ends: one tuple for every pending node.
use Prim.Native.String.{String}
use janet_sdbus.Base.{
  ℕ, ◌<◌, ◌≡◌, refl, false, none, some, List, [], ◌∷◌, ◌++◌, Option, Outcome, ok, and_then, ◌>>◌,
  append_assoc, length,
}
use janet_sdbus.Pending.{Ptr, null, call, AsyncPending, AsyncError, Heap, Kind}
use janet_sdbus.Pending.Queue.{IsQueue}
use janet_sdbus.Pending.Contents.{contents}
use janet_sdbus.Calls.{
  BusLibrary, method_return, Status, ok_status, a_message, a_text, Given, World, message_handler,
  closeall_pending,
}
use janet_sdbus.Calls.Log.{notice, notices, CanTellAll, CanTellAll-contents}
use janet_sdbus.Calls.Closing.{closeall_pending-IsQueue}
use janet_sdbus.Calls.Delivery.{Delivers, delivers, message_handler-return}

module _ ⦃w : BusLibrary⦄ where
  open w use {Message, get_type}

  abbrev notice_of : Status → String → Option (Ptr × (ℕ × Kind)) → List Given
  notice_of why msg none = []
  notice_of why msg (some (slot, (chan, kind))) =
      record { chan = chan; status = why; payload = a_text msg } ∷ []

  -- A notice depends on the contents of the node alone.
  notice-contents :
      (why : Status) (msg : String) (n : Option AsyncPending)
      → notice why msg n ≡ notice_of why msg (contents n)
  notice-contents why msg none = refl
  notice-contents why msg (some n) = refl

  notices-contents :
      (why : Status) (msg : String) (h k : Heap) (xs : List Ptr)
      → ((a : Ptr) → contents (h a) ≡ contents (k a))
      → notices why msg h xs ≡ notices why msg k xs
  notices-contents why msg h k [] same = refl
  notices-contents why msg h k (x ∷ xs) same =
      rw
        (
          notice-contents why msg (h x),
          same x,
          notices-contents why msg h k xs same,
          notice-contents why msg (k x),
        )
        refl

  -- What a run has given the channels, and that it has left the queue empty.
  pub data Gives (gs : List Given) (s : World) : Outcome AsyncError World (Unit {0}) → Type 0 where
    gives : {t : World} → t.given ≡ s.given ++ gs → t.pendings.head ≡ null → Gives gs s (ok tt t)

  -- The end of the connection after a run that has given one tuple.
  closed :
      {xs : List Ptr} {g : Given} {o : Outcome AsyncError World (Unit {0})} (fuel : ℕ)
      (why : Status) (msg : String) (s : World)
      → Delivers xs g s o
      → CanTellAll s xs
      → length xs < fuel
      → Gives
          (g ∷ notices why msg s.pendings.node xs)
          s
          (and_then o (λ _. closeall_pending fuel why msg))
  closed {xs} {g} fuel why msg s (delivers {t} queue same kept given released same_closed same_lost)
        can less =
      rw
        (closeall_pending-IsQueue fuel why msg t xs queue
          (CanTellAll-contents s t xs same_closed same_lost kept can) less)
        (gives
          (rw (given, notices-contents why msg t.pendings.node s.pendings.node xs kept)
            (append_assoc s.given (g ∷ []) (notices why msg s.pendings.node xs)))
          refl)

  -- A pending call is answered by a method return, and then the connection ends, where no channel of the
  -- queue is closed and the slots of the others are there: its channel is given the reply, and each
  -- of the other nodes, in the order of the queue, its notice; nothing else is given, so none of them
  -- is told twice, and the queue is empty.
  pub message_handler-closeall_pending :
      {n : AsyncPending} (fuel : ℕ) (why : Status) (msg : String) (s : World) (ys : List Ptr)
      (p : Ptr) (zs : List Ptr) (reply : Message)
      → IsQueue s.pendings (ys ++ p ∷ zs)
      → s.pendings.node p ≡ some n
      → n.kind ≡ call
      → s.closed n.chan ≡ false
      → CanTellAll s (ys ++ zs)
      → get_type reply ≡ method_return
      → length (ys ++ zs) < fuel
      → Gives
          (record { chan = n.chan; status = ok_status; payload = a_message reply }
            ∷ notices why msg s.pendings.node (ys ++ zs))
          s
          ((message_handler p reply >> closeall_pending fuel why msg) s)
  message_handler-closeall_pending fuel why msg s ys p zs reply q here kind able can type less =
      closed fuel why msg s (message_handler-return s ys p zs reply q here kind able type) can less
