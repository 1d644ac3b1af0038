-- ===== src/Pending/Again.antt =====
-- A node that is dequeued a second time before anything else happens to the queue: nothing changes.
use janet_sdbus.Base.{
  ◌≡◌, ◌≢◌, refl, sym, ap, ◌∙◌, false, some, Bool-cases, inl, inr, List, [], ◌∷◌, ◌++◌, arith, ok,
  ◌==◌,
}
use janet_sdbus.Pending.{
  Ptr, null, Heap, Pendings, update, to_next, to_prev, unlink_pending, dequeue_pending, set_head,
}
use janet_sdbus.Pending.Links.{first, last, Linked, Links}
use janet_sdbus.Pending.Queue.{IsQueue, load-ok, write-ok}
use janet_sdbus.Pending.Relink.{Links-from}
use janet_sdbus.Pending.Dequeue.{dequeue_pending-unlink}

-- A write of what a field holds already.
rewritten-next :
    (h : Heap) {x p q : Ptr} (a : Ptr) → Linked h x p q → update h x (to_next q) a ≡ h a
unfolding update
rewritten-next h {x} a l = elim (Bool-cases (a == x)) [
  | inl here ↦ let same : a ≡ x = ground arith in rw (here, same, l.holds, sym l.next) refl
  | inr away ↦ rw away refl
]

rewritten-prev :
    (h : Heap) {x p q : Ptr} (a : Ptr) → Linked h x p q → update h x (to_prev p) a ≡ h a
unfolding update
rewritten-prev h {x} a l = elim (Bool-cases (a == x)) [
  | inl here ↦ let same : a ≡ x = ground arith in rw (here, same, l.holds, sym l.prev) refl
  | inr away ↦ rw away refl
]

-- The last node before `zs`.
Links-last :
    (h : Heap) (q y : Ptr) (ys zs : List Ptr)
    → Links h q (y ∷ (ys ++ zs))
    → (last y ys ≢ null) × ((b : Ptr) × Linked h (last y ys) b (first zs))
Links-last h q y [] zs (ne, away, link, rest) = (ne, (q, link))
Links-last h q y (y' ∷ ys) zs (ne, away, link, rest) = Links-last h y y' ys zs rest

unlinked :
    (s : Pendings) (ys : List Ptr) (p : Ptr) (zs : List Ptr)
    → IsQueue s (ys ++ zs)
    → p ≢ null
    → Linked s.node p (last null ys) (first zs)
    → unlink_pending p s ≡ ok tt s
unfolding unlink_pending set_head
unlinked s [] p [] q ne link =
    let head : record s { head = null } ≡ s = λ i. record s { head = sym q.head i } in
    rw (load-ok s ne link.holds, link.prev, link.next, head, load-ok s ne link.holds, link.next)
      refl
unlinked s [] p (z ∷ zs) q ne link =
    let (nez, outz, linkz, rest) = q.links in
    let not_null : (z == null) ≡ false = ground arith in
    let head : record s { head = z } ≡ s = λ i. record s { head = sym q.head i } in
    let back : record s { node = update s.node z (to_prev null) } ≡ s =
      λ i. record s { node = λ a. rewritten-prev s.node a linkz i } in
    rw
      (
        load-ok s ne link.holds,
        link.prev,
        link.next,
        head,
        load-ok s ne link.holds,
        link.next,
        not_null,
        link.prev,
        write-ok (to_prev null) s nez linkz,
        back,
      )
      refl
unlinked s (y ∷ ys) p [] q ne link =
    let (nel, (b, linkl)) = Links-last s.node null y ys [] q.links in
    let not_null : (last y ys == null) ≡ false = ground arith in
    let on : record s { node = update s.node (last y ys) (to_next null) } ≡ s =
      λ i. record s { node = λ a. rewritten-next s.node a linkl i } in
    rw
      (
        load-ok s ne link.holds,
        link.prev,
        not_null,
        link.next,
        write-ok (to_next null) s nel linkl,
        on,
        load-ok s ne link.holds,
        link.next,
      )
      refl
unlinked s (y ∷ ys) p (z ∷ zs) q ne link =
    let (nel, (b, linkl)) = Links-last s.node null y ys (z ∷ zs) q.links in
    let (nez, outz, linkz, rest) = Links-from s.node null (y ∷ ys) (z ∷ zs) q.links in
    let not_null : (last y ys == null) ≡ false = ground arith in
    let not_null_z : (z == null) ≡ false = ground arith in
    let on : record s { node = update s.node (last y ys) (to_next z) } ≡ s =
      λ i. record s { node = λ a. rewritten-next s.node a linkl i } in
    let back : record s { node = update s.node z (to_prev (last y ys)) } ≡ s =
      λ i. record s { node = λ a. rewritten-prev s.node a linkz i } in
    rw
      (
        load-ok s ne link.holds,
        link.prev,
        not_null,
        link.next,
        write-ok (to_next z) s nel linkl,
        on,
        load-ok s ne link.holds,
        link.next,
        not_null_z,
        link.prev,
        write-ok (to_prev (last y ys)) s nez linkz,
        back,
      )
      refl

-- The links of `p` say that it stands between `ys` and `zs`, which are now next to each other, as when
-- `p` has just been dequeued: to dequeue it again changes nothing.
pub dequeue_pending-again :
    (s : Pendings) (ys : List Ptr) (p : Ptr) (zs : List Ptr)
    → IsQueue s (ys ++ zs)
    → p ≢ null
    → Linked s.node p (last null ys) (first zs)
    → dequeue_pending p s ≡ ok tt s
unfolding dequeue_pending
dequeue_pending-again s ys p zs q ne link = elim (Bool-cases (s.head == null)) [
  | inl empty ↦ rw empty refl
  | inr full ↦ dequeue_pending-unlink s p full ∙ unlinked s ys p zs q ne link
]

-- A heap holds one queue at most from an address on.
pub Links-unique :
    (h : Heap) (p q : Ptr) (xs ys : List Ptr)
    → Links h p xs
    → Links h q ys
    → first xs ≡ first ys
    → xs ≡ ys
Links-unique h p q [] [] l k e = refl
Links-unique h p q [] (y ∷ ys) l k e = absurd (k.0 (sym e))
Links-unique h p q (x ∷ xs) [] l k e = absurd (l.0 e)
Links-unique h p q (x ∷ xs) (y ∷ ys) (nex, outx, linkx, restx) (ney, outy, linky, resty) e =
    let same : some linkx.here ≡ some linky.here = sym linkx.holds ∙ ap h e ∙ linky.holds in
    let heres : linkx.here ≡ linky.here = cc in
    let nexts : first xs ≡ first ys = sym linkx.next ∙ ap (λ n. n.next) heres ∙ linky.next in
    rw (e, Links-unique h x y xs ys restx resty nexts) refl
