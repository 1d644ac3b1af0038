-- ===== src/Pending/Stale.antt =====
-- A node that is dequeued twice. `message_handler` dequeues a call when its reply comes, and
-- `destroy_call_callback` dequeues it again when its slot is freed, which may be much later: the
-- node's links then say what its neighbours were at the first time.
use janet_sdbus.Base.{
  ◌≡◌, ◌≢◌, refl, ◌∙◌, true, false, some, List, [], ◌∷◌, ◌++◌, arith, ok, ◌>>◌, ◌==◌,
}
use janet_sdbus.Pending.{
  Ptr, null, AsyncPending, Heap, Pendings, to_prev, unlink_pending, queue_pending, dequeue_pending,
  set_head,
}
use janet_sdbus.Pending.Links.{has, first, Linked, Links-update, Linked-to_prev}
use janet_sdbus.Pending.Queue.{
  IsQueue, Leaves, Leaves-bind, Leaves-mono, leaves, load-ok, write-ok, update_ne,
  queue_pending-cons,
}
use janet_sdbus.Pending.Relink.{Links-from}
use janet_sdbus.Pending.Dequeue.{dequeue_pending-unlink, dequeue_pending-remove}

-- The links of `p` still say that it is the first, before `zs`.
unlink_stale :
    (s : Pendings) (p : Ptr) (rs zs : List Ptr)
    → IsQueue s (rs ++ zs)
    → p ≢ null
    → Linked s.node p null (first zs)
    → Leaves zs zs s.node (unlink_pending p s)
unfolding unlink_pending set_head
unlink_stale s p rs [] q ne link =
    rw
      (
        load-ok s ne link.holds,
        link.prev,
        load-ok (record s { head = link.here.next }) ne link.holds,
        link.next,
      )
      (leaves (record { head = refl; links = tt }) (λ a o. refl))
unlink_stale s p rs (z ∷ zs) q ne link =
    let (nez, outz, linkz, rest) = Links-from s.node null rs (z ∷ zs) q.links in
    let not_null : (z == null) ≡ false = ground arith in
    rw
      (
        load-ok s ne link.holds,
        link.prev,
        load-ok (record s { head = link.here.next }) ne link.holds,
        link.next,
        not_null,
        link.prev,
        write-ok (to_prev null) (record s { head = z }) nez linkz,
      )
      (leaves
        (record {
          head = refl;
          links = (nez, outz, Linked-to_prev null linkz, Links-update _ _ z z zs outz rest);
        })
        (λ a o. update_ne _ _ z a (ground arith)))

dequeue_pending-empty :
    (s : Pendings) (p : Ptr) → (s.head == null) ≡ true → dequeue_pending p s ≡ ok tt s
unfolding dequeue_pending
dequeue_pending-empty s p e = rw e

Linked-same : {g h : Heap} {x p q : Ptr} → g x ≡ h x → Linked h x p q → Linked g x p q
Linked-same e l = record { here = l.here; holds = e ∙ l.holds; prev = l.prev; next = l.next }

-- The node `p` was the first of a queue, before `zs`, when it was dequeued, and the nodes `rs` have
-- been queued since. Dequeuing `p` again drops every one of them from the queue.
pub dequeue_pending-stale :
    (s : Pendings) (p : Ptr) (rs zs : List Ptr)
    → IsQueue s (rs ++ zs)
    → p ≢ null
    → Linked s.node p null (first zs)
    → Leaves zs zs s.node (dequeue_pending p s)
dequeue_pending-stale s p [] [] q ne link =
    let empty : (s.head == null) ≡ true = ground (arith, q.head) in
    rw (dequeue_pending-empty s p empty) (leaves q (λ a o. refl))
dequeue_pending-stale s p [] (z ∷ zs) q ne link =
    let nez : z ≢ null = q.links.0 in
    rw (dequeue_pending-unlink s p (ground (arith, q.head)))
      (unlink_stale s p [] (z ∷ zs) q ne link)
dequeue_pending-stale s p (r ∷ rs) zs q ne link =
    let ner : r ≢ null = q.links.0 in
    rw (dequeue_pending-unlink s p (ground (arith, q.head)))
      (unlink_stale s p (r ∷ rs) zs q ne link)

-- A call that is the first in the queue is answered, another call `r` is made, and then the slot of
-- the first is freed: the call `r` is pending, and the queue has lost it.
pub queue_pending-lost :
    (s : Pendings) {n : AsyncPending} (p r : Ptr) (zs : List Ptr)
    → IsQueue s (p ∷ zs)
    → r ≢ null
    → s.node r ≡ some n
    → has r (p ∷ zs) ≡ false
    → Leaves zs (r ∷ zs) s.node ((dequeue_pending p >> (queue_pending r >> dequeue_pending p)) s)
queue_pending-lost s p r zs q ne e out =
    let (nep, outp, link, rest) = q.links in
    Leaves-bind (dequeue_pending-remove s [] p zs q) λ _ s₁ q₁ same₁.
      Leaves-bind
        (Leaves-mono {touched' = r ∷ zs} {h' = s.node}
          (queue_pending-cons {s = s₁} r q₁ ne (same₁ r (ground arith) ∙ e) (ground arith))
          (λ a o. (o, same₁ a (ground arith))))
        λ _ s₂ q₂ same₂.
          Leaves-mono
            (dequeue_pending-stale s₂ p (r ∷ []) zs q₂ nep
              (Linked-same (same₂ p (ground arith)) link))
            (λ a o. (ground arith, same₂ a o))
