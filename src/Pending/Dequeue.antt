-- ===== src/Pending/Dequeue.antt =====
-- `dequeue_pending` against a plain list of nodes.
use janet_sdbus.Base.{◌≡◌, ◌≢◌, refl, ◌∙◌, false, List, [], ◌∷◌, ◌++◌, arith, ◌==◌}
use janet_sdbus.Pending.{
  Ptr, null, Heap, Pendings, update, to_next, to_prev, unlink_pending, dequeue_pending, set_head,
}
use janet_sdbus.Pending.Links.{
  first, last, Linked, Links, Links-update, Linked-to_prev, Linked-update,
}
use janet_sdbus.Pending.Queue.{IsQueue, Leaves, leaves, load-ok, write-ok, update_ne}
use janet_sdbus.Pending.Relink.{Links-relinked, Before, Links-Before, Links-from, has-drop, ne-last}

pub dequeue_pending-unlink :
    (s : Pendings) (p : Ptr) → (s.head == null) ≡ false → dequeue_pending p s ≡ unlink_pending p s
unfolding dequeue_pending
dequeue_pending-unlink s p e = rw e

-- The first of the queue is removed: the node after it becomes the head.
unlink_first :
    (s : Pendings) (p : Ptr) (zs : List Ptr)
    → Links s.node null (p ∷ zs)
    → Leaves zs zs s.node (unlink_pending p s)
unfolding unlink_pending set_head
unlink_first s p [] (nep, out, link, rest) =
    rw
      (
        load-ok s nep link.holds,
        link.prev,
        load-ok (record s { head = link.here.next }) nep link.holds,
        link.next,
      )
      (leaves (record { head = refl; links = tt }) (λ a o. refl))
unlink_first s p (z ∷ zs) (nep, out, link, (nez, outz, linkz, rest)) =
    let not_null : (z == null) ≡ false = ground arith in
    rw
      (
        load-ok s nep link.holds,
        link.prev,
        load-ok (record s { head = link.here.next }) nep link.holds,
        link.next,
        not_null,
        link.prev,
        write-ok (to_prev null) (record s { head = z }) nez linkz,
      )
      (leaves
        (record {
          head = refl;
          links = (nez, outz, Linked-to_prev null linkz, Links-update _ _ z z zs outz rest);
        })
        (λ a o. update_ne _ _ z a (ground arith)))

-- A later node is removed: the nodes round it are linked to each other, and the head stays.
unlink_later :
    (s : Pendings) (y : Ptr) (ys : List Ptr) (p : Ptr) (zs : List Ptr)
    → s.head ≡ y
    → Links s.node null (y ∷ (ys ++ p ∷ zs))
    → Leaves (y ∷ (ys ++ zs)) (y ∷ (ys ++ zs)) s.node (unlink_pending p s)
unfolding unlink_pending set_head
unlink_later s y ys p [] head links =
    let l : Ptr = last y ys in
    let before : Before s.node l p [] = Links-Before null y ys p [] links in
    let (nep, out, link, rest) = Links-from s.node null (y ∷ ys) (p ∷ []) links in
    let not_null : (l == null) ≡ false = ground (arith, before.ne_null) in
    let link' : Linked (update s.node l (to_next null)) p l null =
      Linked-update _ _ l before.apart link in
    rw
      (
        load-ok s nep link.holds,
        link.prev,
        link.next,
        not_null,
        write-ok (to_next null) s before.ne_null before.link,
        load-ok (record s { node = update s.node l (to_next null) }) nep link'.holds,
        link'.next,
      )
      (leaves (record { head = head; links = Links-relinked null y ys p [] links })
        (λ a o. update_ne _ _ l a (ne-last a y ys _ o)))
unlink_later s y ys p (z ∷ zs) head links =
    let l : Ptr = last y ys in
    let before : Before s.node l p (z ∷ zs) = Links-Before null y ys p (z ∷ zs) links in
    let (nep, out, link, (nez, outz, linkz, rest)) =
      Links-from s.node null (y ∷ ys) (p ∷ z ∷ zs) links in
    let not_null : (l == null) ≡ false = ground (arith, before.ne_null) in
    let not_null_z : (z == null) ≡ false = ground arith in
    let h : Heap = update s.node l (to_next z) in
    let link' : Linked h p l z = Linked-update _ _ l before.apart link in
    let linkz' : Linked h z p (first zs) =
      Linked-update _ _ l (ground (arith, before.outside)) linkz in
    rw
      (
        load-ok s nep link.holds,
        link.prev,
        link.next,
        not_null,
        write-ok (to_next z) s before.ne_null before.link,
        load-ok (record s { node = h }) nep link'.holds,
        link'.next,
        not_null_z,
        link'.prev,
        write-ok (to_prev l) (record s { node = h }) nez linkz',
      )
      (leaves (record { head = head; links = Links-relinked null y ys p (z ∷ zs) links })
        (λ a o.
          update_ne _ _ z a (ground (arith, has-drop a (y ∷ ys) (z ∷ zs)))
          ∙ update_ne _ _ l a (ne-last a y ys _ o)))

-- A node that is in the queue is taken out of it, wherever it stands, the others stay linked in
-- their order, and no node outside the new queue is written, the removed one included.
pub dequeue_pending-remove :
    (s : Pendings) (ys : List Ptr) (p : Ptr) (zs : List Ptr)
    → IsQueue s (ys ++ p ∷ zs)
    → Leaves (ys ++ zs) (ys ++ zs) s.node (dequeue_pending p s)
dequeue_pending-remove s [] p zs q =
    let ne : p ≢ null = q.links.0 in
    rw (dequeue_pending-unlink s p (ground (arith, q.head))) (unlink_first s p zs q.links)
dequeue_pending-remove s (y ∷ ys) p zs q =
    let ne : y ≢ null = q.links.0 in
    rw (dequeue_pending-unlink s p (ground (arith, q.head)))
      (unlink_later s y ys p zs q.head q.links)
