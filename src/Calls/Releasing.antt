-- ===== src/Calls/Releasing.antt =====
-- The release of a slot: `destroy_call_callback` of src/call.c.
use janet_sdbus.Base.{
  ◌≡◌, refl, none, List, [], ◌∷◌, ◌++◌, Outcome, ok, arith, and_then, ◌∙◌, ◌==◌, true, false,
  Bool-cases, inl, inr,
}
use janet_sdbus.Pending.{Ptr, null, Heap, Pendings, AsyncError, update}
use janet_sdbus.Pending.Links.{has, Linked, Links, Linked-update, Links-mid}
use janet_sdbus.Pending.Queue.{IsQueue, Leaves, leaves, write-ok, update_ne}
use janet_sdbus.Pending.Dequeue.{dequeue_pending-remove}
use janet_sdbus.Calls.{BusLibrary, World, back, free, to_slot, destroy_call_callback}
use janet_sdbus.Calls.Delivery.{Links-apart}
use janet_sdbus.Calls.Registering.{Links-placed}

pub Linked-to_slot :
    {h : Heap} {x p q : Ptr} (a r : Ptr) → Linked h x p q → Linked (update h a (to_slot r)) x p q
unfolding update
Linked-to_slot {x} a r l = elim (Bool-cases (x == a)) [
  | inl here ↦ record {
    here = to_slot r l.here;
    holds = rw (here, l.holds) refl;
    prev = l.prev;
    next = l.next;
  }
  | inr away ↦ Linked-update _ _ a away l
]

pub Links-to_slot :
    (h : Heap) (q a r : Ptr) (xs : List Ptr) → Links h q xs → Links (update h a (to_slot r)) q xs
Links-to_slot h q a r [] l = tt
Links-to_slot h q a r (x ∷ xs) (ne, away, link, rest) =
    (ne, away, Linked-to_slot a r link, Links-to_slot h x a r xs rest)

module _ ⦃w : BusLibrary⦄ where
  -- What is left when the slot of `p` was released.
  pub record Released (p : Ptr) (xs : List Ptr) (s t : World) : Type 0 where
    pub queue : IsQueue t.pendings xs
    pub freed : t.pendings.node p ≡ none
    pub others :
        (a : Ptr) → (a == p) ≡ false → has a xs ≡ false → t.pendings.node a ≡ s.pendings.node a
    pub given : t.given ≡ s.given
    pub unreferenced : t.unreferenced ≡ s.unreferenced

  pub data Releases (p : Ptr) (xs : List Ptr) (s : World)
      : Outcome AsyncError World (Unit {0}) → Type 0 where
    releases : {t : World} → Released p xs s t → Releases p xs s (ok tt t)

  dequeued :
      {p : Ptr} {xs : List Ptr} {o : Outcome AsyncError Pendings (Unit {0})} (s : World)
      (q : Pendings)
      → has p xs ≡ false
      → Leaves xs xs (update s.pendings.node p (to_slot null)) o
      → Releases p xs s
          (and_then (back (record s { pendings = q }) o) (λ _ t. back t (free p t.pendings)))
  unfolding free
  dequeued {p} {xs} s q out (leaves {s = t} queue same) =
      let here : (p == p) ≡ true = ground arith in
      releases (record {
        queue = record {
          head = queue.head;
          links = Links-placed t.node null p none xs out queue.links;
        };
        freed = rw here refl;
        others = λ a away outside.
            rw away (same a outside ∙ update_ne (to_slot null) s.pendings.node p a away);
        given = refl;
        unreferenced = refl;
      })

  -- The release of the slot of a call or subscription that is still in the queue, by cancellation or
  -- by the garbage collector: its node leaves the queue and is freed, the other nodes stay in their
  -- order, and no channel is given anything.
  pub destroy_call_callback-queued :
      (s : World) (ys : List Ptr) (p : Ptr) (zs : List Ptr)
      → IsQueue s.pendings (ys ++ p ∷ zs)
      → Releases p (ys ++ zs) s (destroy_call_callback p s)
  unfolding destroy_call_callback
  destroy_call_callback-queued s ys p zs q =
      let (ne, out) = Links-apart s.pendings.node null ys p zs q.links in
      let t : Pendings = record (s.pendings) { node = update s.pendings.node p (to_slot null) } in
      rw (write-ok (to_slot null) s.pendings ne (Links-mid null ys p zs q.links)) (
        dequeued s t out (
          dequeue_pending-remove t ys p zs (record {
            head = q.head;
            links = Links-to_slot s.pendings.node null p null (ys ++ p ∷ zs) q.links;
          })))
