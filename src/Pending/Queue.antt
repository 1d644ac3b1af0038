-- ===== src/Pending/Queue.antt =====
-- `queue_pending` and `dequeue_pending` against a plain list of nodes.
use janet_sdbus.Base.{
  ◌≡◌, ◌≢◌, refl, ◌∙◌, false, some, List, [], ◌∷◌, arith, ok, ◌==◌, Outcome, and_then, pure,
  if◌then◌else◌,
}
use janet_sdbus.Pending.{
  Ptr, null, AsyncPending, AsyncError, Heap, Pendings, Queue, update, to_next, to_prev, load, write,
  queue_pending, set_head,
}
use janet_sdbus.Pending.Links.{
  has, first, Linked, Links, Links-update, Linked-to_next, Linked-to_prev, Linked-update,
}

-- The state holds the queue `xs`.
pub record IsQueue (s : Pendings) (xs : List Ptr) : Type 0 where
  pub head : s.head ≡ first xs
  pub links : Links s.node null xs

-- A run that ends, and leaves the queue `xs`; the nodes outside `touched` are as they were.
pub data Leaves (xs touched : List Ptr) (h : Heap)
    : Outcome AsyncError Pendings (Unit {0}) → Type 0 where
  leaves :
      {s : Pendings}
      → IsQueue s xs
      → ((a : Ptr) → has a touched ≡ false → s.node a ≡ h a)
      → Leaves xs touched h (ok tt s)

pub Leaves-bind :
    {xs ys touched touched' : List Ptr} {h : Heap} {o : Outcome AsyncError Pendings (Unit {0})}
    {k : Unit {0} → Queue (Unit {0})}
    → Leaves xs touched h o
    → ((a : Unit {0}) (s : Pendings)
        → IsQueue s xs
        → ((p : Ptr) → has p touched ≡ false → s.node p ≡ h p)
        → Leaves ys touched' h (k a s))
    → Leaves ys touched' h (and_then o k)
Leaves-bind (leaves {s} q same) k = k tt s q same

-- The frame of a run, seen from an earlier heap.
pub Leaves-mono :
    {xs touched touched' : List Ptr} {h h' : Heap} {o : Outcome AsyncError Pendings (Unit {0})}
    → Leaves xs touched h o
    → ((a : Ptr) → has a touched' ≡ false → (has a touched ≡ false) × (h a ≡ h' a))
    → Leaves xs touched' h' o
Leaves-mono (leaves q same) k = leaves q (λ a o. let (out, e) = k a o in same a out ∙ e)

pub load-ok :
    {p : Ptr} {n : AsyncPending} (s : Pendings) → p ≢ null → s.node p ≡ some n → load p s ≡ ok n s
unfolding load
load-ok {p} s ne e = let not_null : (p == null) ≡ false = ground arith in rw (not_null, e)

-- A write to a node of a list.
pub write-ok :
    {p a b : Ptr} (f : AsyncPending → AsyncPending) (s : Pendings)
    → p ≢ null
    → Linked s.node p a b
    → write p f s ≡ ok tt (record s { node = update s.node p f })
unfolding write
write-ok f s ne l = rw (load-ok s ne l.holds)

pub update_ne :
    (f : AsyncPending → AsyncPending) (h : Heap) (p a : Ptr)
    → (a == p) ≡ false
    → update h p f a ≡ h a
unfolding update
update_ne f h p a ne = rw ne

-- The heap after the first two writes of `queue_pending`, where `x` is the old head.
abbrev entered : Heap → Ptr → Ptr → Heap
entered h p x = update (update h p (to_prev null)) p (to_next x)

module _ (s : Pendings) {n : AsyncPending} (p x : Ptr) (ne : p ≢ null) (e : s.node p ≡ some n) where
  entered-Linked : Linked (entered s.node p x) p null x
  entered-Linked =
      Linked-to_next x
        (Linked-to_prev null (record { here = n; holds = e; prev = refl; next = refl }))

  queue_pending-entered :
      s.head ≡ x
      → queue_pending p s
        ≡ and_then
            ((if x == null then pure tt else write x (to_prev p))
              (record { node = entered s.node p x; head = x }))
            (λ _. set_head p)
  unfolding queue_pending
  queue_pending-entered head =
      let alone : Linked s.node p n.prev n.next = record {
        here = n;
        holds = e;
        prev = refl;
        next = refl;
      } in
      let first_write : Pendings = record s { node = update s.node p (to_prev null) } in
      rw (
        write-ok (to_prev null) s ne alone,
        write-ok (to_next s.head) first_write ne (Linked-to_prev null alone),
        head,
      )

entered_ne : (h : Heap) (p x a : Ptr) → (a == p) ≡ false → entered h p x a ≡ h a
entered_ne h p x a away = update_ne _ _ p a away ∙ update_ne _ h p a away

-- A node that is allocated and not in the queue becomes its first.
pub queue_pending-cons :
    {s : Pendings} {xs : List Ptr} {n : AsyncPending} (p : Ptr)
    → IsQueue s xs
    → p ≢ null
    → s.node p ≡ some n
    → has p xs ≡ false
    → Leaves (p ∷ xs) (p ∷ xs) s.node (queue_pending p s)
unfolding set_head
queue_pending-cons {s} {xs = []} p q ne e out = rw (queue_pending-entered s p null ne e q.head) (
    leaves (record { head = refl; links = (ne, refl, entered-Linked s p null ne e, tt) })
      (λ a o. entered_ne s.node p null a (ground arith)))
queue_pending-cons {s} {xs = x ∷ xs} p q ne e out =
    let (nex, away, link, rest) = q.links in
    let apart : (x == p) ≡ false = ground arith in
    let h : Heap = entered s.node p x in
    let link' : Linked h x null (first xs) =
      Linked-update _ _ p apart (Linked-update _ _ p apart link) in
    let rest' : Links h x xs =
      Links-update _ _ x p xs (ground arith) (Links-update _ _ x p xs (ground arith) rest) in
    let not_null : (x == null) ≡ false = ground arith in
    rw
      (
        queue_pending-entered s p x ne e q.head,
        not_null,
        write-ok (to_prev p) (record { node = h; head = x }) nex link',
      )
      (leaves
        (record {
          head = refl;
          links = (
            ne,
            out,
            Linked-update _ _ x (ground arith) (entered-Linked s p x ne e),
            (nex, away, Linked-to_prev p link', Links-update _ _ x x xs away rest'),
          );
        })
        (λ a o. update_ne _ _ x a (ground arith) ∙ entered_ne s.node p x a (ground arith)))
