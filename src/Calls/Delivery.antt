-- ===== src/Calls/Delivery.antt =====
-- Replies: `message_handler` of src/call.c.
use janet_sdbus.Base.{
  ◌≡◌, ◌≢◌, refl, false, some, List, [], ◌∷◌, ◌++◌, Outcome, ok, arith, and_then, ◌∙◌,
}
use janet_sdbus.Pending.{Ptr, null, call, AsyncPending, Heap, Pendings, AsyncError, load}
use janet_sdbus.Pending.Links.{has, Links}
use janet_sdbus.Pending.Queue.{IsQueue, Leaves, leaves, load-ok}
use janet_sdbus.Pending.Relink.{has-drop}
use janet_sdbus.Pending.Dequeue.{dequeue_pending-remove}
use janet_sdbus.Pending.Contents.{contents, Keeps, keeps, dequeue_pending-Keeps}
use janet_sdbus.Calls.{
  BusLibrary, method_return, method_error, ok_status, error_status, a_message, an_error,
  format_error, Given, World, Action, back, give, dequeue_call, give_reply, message_handler,
}

-- A node of a queue is not NULL, and not among the others.
pub Links-apart :
    (h : Heap) (p : Ptr) (ys : List Ptr) (x : Ptr) (zs : List Ptr)
    → Links h p (ys ++ x ∷ zs)
    → (x ≢ null) × (has x (ys ++ zs) ≡ false)
Links-apart h p [] x zs (ne, out, link, rest) = (ne, out)
Links-apart h p (y ∷ ys) x zs (ne, out, link, rest) =
    let (nex, away) = Links-apart h y ys x zs rest in
    (nex, ground (arith, has-drop y ys (x ∷ zs) out, away))

module _ ⦃w : BusLibrary⦄ where
  open w use {Message, get_type, get_error}

  -- A run that ends with the queue `xs`, and has given one channel one tuple. It wrote to no node
  -- outside the queue, and kept the slot, the channel and the kind of every node.
  pub data Delivers (xs : List Ptr) (g : Given) (s : World)
      : Outcome AsyncError World (Unit {0}) → Type 0 where
    delivers :
        {t : World}
        → IsQueue t.pendings xs
        → ((a : Ptr) → has a xs ≡ false → t.pendings.node a ≡ s.pendings.node a)
        → ((a : Ptr) → contents (t.pendings.node a) ≡ contents (s.pendings.node a))
        → t.given ≡ s.given ++ g ∷ []
        → t.unreferenced ≡ s.unreferenced
        → t.closed ≡ s.closed
        → t.lost ≡ s.lost
        → Delivers xs g s (ok tt t)

  -- After a run on the queue alone, for the postcondition `R`.
  back-Leaves :
      {xs : List Ptr} {o : Outcome AsyncError Pendings (Unit {0})}
      (R : Outcome AsyncError World (Unit {0}) → Type 0) (k : Unit {0} → Action (Unit {0}))
      (s : World)
      → Leaves xs xs s.pendings.node o
      → Keeps s.pendings.node o
      → ((q : Pendings)
          → IsQueue q xs
          → ((a : Ptr) → has a xs ≡ false → q.node a ≡ s.pendings.node a)
          → ((a : Ptr) → contents (q.node a) ≡ contents (s.pendings.node a))
          → R (k tt (record s { pendings = q })))
      → R (and_then (back s o) k)
  back-Leaves R k s (leaves {s = q} queue same) (keeps kept) go = go q queue same kept

  -- A call in the queue is taken out of it, and the node is still there.
  pub dequeue_call-Leaves :
      {n : AsyncPending} (R : Outcome AsyncError World (Unit {0}) → Type 0)
      (k : Unit {0} → Action (Unit {0})) (s : World) (ys : List Ptr) (p : Ptr) (zs : List Ptr)
      → IsQueue s.pendings (ys ++ p ∷ zs)
      → s.pendings.node p ≡ some n
      → n.kind ≡ call
      → ((t : Pendings)
          → IsQueue t (ys ++ zs)
          → ((a : Ptr) → has a (ys ++ zs) ≡ false → t.node a ≡ s.pendings.node a)
          → ((a : Ptr) → contents (t.node a) ≡ contents (s.pendings.node a))
          → load p t ≡ ok n t
          → R (k tt (record s { pendings = t })))
      → R (and_then (dequeue_call p s) k)
  unfolding dequeue_call
  dequeue_call-Leaves R k s ys p zs q here kind go =
      let (ne, away) = Links-apart s.pendings.node null ys p zs q.links in
      rw (load-ok s.pendings ne here, kind)
        (back-Leaves R k s (dequeue_pending-remove s.pendings ys p zs q)
          (dequeue_pending-Keeps p s.pendings)
          λ t queue same kept. go t queue same kept (load-ok t ne (same p away ∙ here)))

  -- The reply to a call that is pending and whose channel is not closed, wherever it stands in the
  -- queue: it is taken out of the queue, the others stay linked in their order and keep their slot,
  -- channel and kind, and its channel is given the reply itself, with `:ok`, and nothing else is
  -- given.
  pub message_handler-return :
      {n : AsyncPending} (s : World) (ys : List Ptr) (p : Ptr) (zs : List Ptr) (reply : Message)
      → IsQueue s.pendings (ys ++ p ∷ zs)
      → s.pendings.node p ≡ some n
      → n.kind ≡ call
      → s.closed n.chan ≡ false
      → get_type reply ≡ method_return
      → Delivers
          (ys ++ zs)
          (record { chan = n.chan; status = ok_status; payload = a_message reply })
          s
          (message_handler p reply s)
  unfolding message_handler give_reply give
  message_handler-return s ys p zs reply q here kind able type = rw type (
      dequeue_call-Leaves (Delivers (ys ++ zs) _ s) _ s ys p zs q here kind
        λ t queue same kept loads.
          rw (loads, kind, loads, able) (delivers queue same kept refl refl refl refl))

  -- The same for an error reply, with `:error` and the error's text.
  pub message_handler-error :
      {n : AsyncPending} (s : World) (ys : List Ptr) (p : Ptr) (zs : List Ptr) (reply : Message)
      → IsQueue s.pendings (ys ++ p ∷ zs)
      → s.pendings.node p ≡ some n
      → n.kind ≡ call
      → s.closed n.chan ≡ false
      → get_type reply ≡ method_error
      → Delivers
          (ys ++ zs)
          (record {
            chan = n.chan;
            status = error_status;
            payload = an_error (format_error (get_error reply));
          })
          s
          (message_handler p reply s)
  unfolding message_handler give
  message_handler-error s ys p zs reply q here kind able type = rw type (
      dequeue_call-Leaves (Delivers (ys ++ zs) _ s) _ s ys p zs q here kind
        λ t queue same kept loads. rw (loads, able) (delivers queue same kept refl refl refl refl))
