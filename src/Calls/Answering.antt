-- ===== src/Calls/Answering.antt =====
-- A call that is answered, and whose slot is released then: `message_handler` and
-- `destroy_call_callback` of src/call.c. Both dequeue the node; with nothing in between, the second time
-- changes nothing.
use janet_sdbus.Base.{
  ℕ, ◌≡◌, refl, ◌∙◌, false, true, none, some, List, [], ◌∷◌, ◌++◌, Outcome, ok, and_then, ◌>>◌,
  arith, ◌==◌,
}
use janet_sdbus.Pending.{Ptr, null, call, AsyncPending, AsyncError, Pendings, update}
use janet_sdbus.Pending.Links.{first, last, Linked, Links-mid}
use janet_sdbus.Pending.Queue.{IsQueue, write-ok, update_ne}
use janet_sdbus.Pending.Again.{dequeue_pending-again}
use janet_sdbus.Pending.Contents.{contents}
use janet_sdbus.Calls.{
  BusLibrary, method_return, method_error, ok_status, error_status, a_message, an_error,
  format_error, Given, World, message_handler, destroy_call_callback, to_slot, free,
}
use janet_sdbus.Calls.Delivery.{
  Delivers, delivers, Links-apart, message_handler-return, message_handler-error,
}
use janet_sdbus.Calls.Registering.{Links-placed}
use janet_sdbus.Calls.Releasing.{Linked-to_slot, Links-to_slot}

module _ ⦃w : BusLibrary⦄ where
  open w use {Message, get_type, get_error}

  -- What a reply gives the channel `chan` of its call.
  pub data Replies (reply : Message) (chan : ℕ) : Given → Type 0 where
    returns :
        get_type reply ≡ method_return
        → Replies reply chan (record { chan = chan; status = ok_status; payload = a_message reply })
    fails :
        get_type reply ≡ method_error
        → Replies reply chan (record {
          chan = chan;
          status = error_status;
          payload = an_error (format_error (get_error reply));
        })

  -- The call `p` is over: it has given `g`, its node is freed, and the queue is `xs`.
  pub record Answered (p : Ptr) (xs : List Ptr) (g : Given) (s t : World) : Type 0 where
    pub queue : IsQueue t.pendings xs
    pub freed : t.pendings.node p ≡ none
    pub others :
        (a : Ptr) → (a == p) ≡ false → contents (t.pendings.node a) ≡ contents (s.pendings.node a)
    pub given : t.given ≡ s.given ++ g ∷ []
    pub unreferenced : t.unreferenced ≡ s.unreferenced
    pub closed : t.closed ≡ s.closed
    pub lost : t.lost ≡ s.lost

  pub data Answers (p : Ptr) (xs : List Ptr) (g : Given) (s : World)
      : Outcome AsyncError World (Unit {0}) → Type 0 where
    answers : {t : World} → Answered p xs g s t → Answers p xs g s (ok tt t)

  pub message_handler-Replies :
      {n : AsyncPending} (s : World) (ys : List Ptr) (p : Ptr) (zs : List Ptr) (reply : Message)
      {g : Given}
      → IsQueue s.pendings (ys ++ p ∷ zs)
      → s.pendings.node p ≡ some n
      → n.kind ≡ call
      → s.closed n.chan ≡ false
      → Replies reply n.chan g
      → Delivers (ys ++ zs) g s (message_handler p reply s)
  message_handler-Replies s ys p zs reply q here kind able (returns type) =
      message_handler-return s ys p zs reply q here kind able type
  message_handler-Replies s ys p zs reply q here kind able (fails type) =
      message_handler-error s ys p zs reply q here kind able type

  and_released :
      {g : Given} {o : Outcome AsyncError World (Unit {0})} (s : World) (ys : List Ptr) (p : Ptr)
      (zs : List Ptr)
      → IsQueue s.pendings (ys ++ p ∷ zs)
      → Delivers (ys ++ zs) g s o
      → Answers p (ys ++ zs) g s (and_then o (λ _. destroy_call_callback p))
  unfolding destroy_call_callback free
  and_released {g} s ys p zs q (delivers {t} queue same kept given released same_closed same_lost) =
      let (ne, out) = Links-apart s.pendings.node null ys p zs q.links in
      let mid = Links-mid null ys p zs q.links in
      let link : Linked t.pendings.node p (last null ys) (first zs) = record {
        here = mid.here;
        holds = same p out ∙ mid.holds;
        prev = mid.prev;
        next = mid.next;
      } in
      let u : Pendings = record (t.pendings) { node = update t.pendings.node p (to_slot null) } in
      let queue' : IsQueue u (ys ++ zs) = record {
        head = queue.head;
        links = Links-to_slot t.pendings.node null p null (ys ++ zs) queue.links;
      } in
      let here : (p == p) ≡ true = ground arith in
      rw
        (
          write-ok (to_slot null) t.pendings ne link,
          dequeue_pending-again u ys p zs queue' ne (Linked-to_slot p null link),
        )
        (answers (record {
          queue = record {
            head = queue.head;
            links = Links-placed u.node null p none (ys ++ zs) out queue'.links;
          };
          freed = rw here refl;
          others = λ a away. rw (away, update_ne (to_slot null) t.pendings.node p a away) (kept a);
          given = given;
          unreferenced = released;
          closed = same_closed;
          lost = same_lost;
        }))

  -- A call that is pending and whose channel is not closed, wherever it stands in the queue, is
  -- answered by a return or by an error, and its slot is released next: its channel is given the
  -- reply once, its node is freed, the others stay linked in their order with their slot, channel
  -- and kind, and nothing else is given.
  pub destroy_call_callback-Replies :
      {n : AsyncPending} (s : World) (ys : List Ptr) (p : Ptr) (zs : List Ptr) (reply : Message)
      {g : Given}
      → IsQueue s.pendings (ys ++ p ∷ zs)
      → s.pendings.node p ≡ some n
      → n.kind ≡ call
      → s.closed n.chan ≡ false
      → Replies reply n.chan g
      → Answers p (ys ++ zs) g s ((message_handler p reply >> destroy_call_callback p) s)
  destroy_call_callback-Replies s ys p zs reply q here kind able r =
      and_released s ys p zs q (message_handler-Replies s ys p zs reply q here kind able r)
