-- ===== src/Calls/Closing.antt =====
-- The end of a connection: `closeall_pending` of src/async.c.
use Prim.Native.String.{String}
use janet_sdbus.Base.{
  ℕ, zero, suc, ◌<◌, ◌≡◌, ◌≢◌, refl, true, false, some, panic, List, [], ◌∷◌, ◌++◌, ok, arith,
  length, append_assoc, append-nil, ◌==◌, ap, ◌∙◌, subst,
}
use janet_sdbus.Pending.{Ptr, null, AsyncPending, channel_closed, get_head, set_head}
use janet_sdbus.Pending.Links.{first, Links}
use janet_sdbus.Pending.Queue.{IsQueue, load-ok}
use janet_sdbus.Calls.{BusLibrary, Status, a_text, World, give, unref, close_from, closeall_pending}
use janet_sdbus.Calls.Log.{told, notices, slots, CanTell, CanTellAll, CanTellAll-contents}

module _ ⦃w : BusLibrary⦄ where
  -- The world after the turn of the loop for the node `n`.
  abbrev turned : Status → String → AsyncPending → World → World
  turned why msg n s = record s {
    given = s.given ++ record { chan = n.chan; status = why; payload = a_text msg } ∷ [];
    unreferenced = s.unreferenced ++ n.slot ∷ [];
  }

  close_from-Links :
      (fuel : ℕ) (why : Status) (msg : String) (s : World) (p : Ptr) (xs : List Ptr)
      → Links s.pendings.node p xs
      → CanTellAll s xs
      → length xs < fuel
      → close_from fuel why msg (first xs) s ≡ ok tt (told why msg xs s)
  unfolding close_from give unref
  close_from-Links zero why msg s p xs l can less = absurd (omega arith)
  close_from-Links (suc fuel) why msg s p [] l can less =
      rw (append-nil s.given, append-nil s.unreferenced) refl
  close_from-Links (suc fuel) why msg s p (x ∷ xs) (ne, away, link, rest) can less =
      let not_null : (x == null) ≡ false = ground arith in
      let n : AsyncPending = link.here in
      let able : CanTell s (some n) × CanTellAll s xs =
        subst (λ o. CanTell s o × CanTellAll s xs) link.holds can in
      rw
        (
          not_null,
          load-ok s.pendings ne link.holds,
          link.next,
          link.holds,
          able.0.0,
          able.0.1,
          close_from-Links fuel why msg (turned why msg n s) x xs rest
              (CanTellAll-contents s (turned why msg n s) xs refl refl (λ a. refl) able.1)
              (omega arith),
          append_assoc s.given (record { chan = n.chan; status = why; payload = a_text msg } ∷ [])
              (notices why msg s.pendings.node xs),
          append_assoc s.unreferenced (n.slot ∷ []) (slots s.pendings.node xs),
        )
        refl

  -- The end of a connection whose queue is `xs`, of nodes whose channels are not closed and whose slots
  -- are there, with fuel for one turn more than it has nodes: each
  -- node's channel is given the status and the message, once and in the order of the queue, and each
  -- node's slot is released; the queue is empty, and the nodes themselves are as they were.
  pub closeall_pending-IsQueue :
      (fuel : ℕ) (why : Status) (msg : String) (s : World) (xs : List Ptr)
      → IsQueue s.pendings xs
      → CanTellAll s xs
      → length xs < fuel
      → closeall_pending fuel why msg s
        ≡ ok tt (record (told why msg xs s) { pendings = record (s.pendings) { head = null } })
  unfolding closeall_pending get_head set_head
  closeall_pending-IsQueue fuel why msg s [] q can less =
      rw (q.head, append-nil s.given, append-nil s.unreferenced) refl
  closeall_pending-IsQueue fuel why msg s (x ∷ xs) q can less =
      let ne : x ≢ null = q.links.0 in
      let not_null : (s.pendings.head == null) ≡ false = ground (arith, q.head) in
      let run : close_from fuel why msg s.pendings.head s ≡ ok tt (told why msg (x ∷ xs) s) =
        ap (λ a. close_from fuel why msg a s) q.head
        ∙ close_from-Links fuel why msg s null (x ∷ xs) q.links can less in
      rw (not_null, run) refl

  head_exists :
      (s : World) (ys : List Ptr) (p : Ptr) (zs : List Ptr)
      → IsQueue s.pendings (ys ++ p ∷ zs)
      → (s.pendings.head == null) ≡ false
  head_exists s [] p zs q = let ne : p ≢ null = q.links.0 in ground (arith, q.head)
  head_exists s (y ∷ ys) p zs q = let ne : y ≢ null = q.links.0 in ground (arith, q.head)

  close_from-closed :
      {n : AsyncPending} (fuel : ℕ) (why : Status) (msg : String) (s : World) (q : Ptr)
      (ys : List Ptr) (p : Ptr) (zs : List Ptr)
      → Links s.pendings.node q (ys ++ p ∷ zs)
      → CanTellAll s ys
      → s.pendings.node p ≡ some n
      → s.closed n.chan ≡ true
      → length ys < fuel
      → close_from fuel why msg (first (ys ++ p ∷ zs)) s ≡ panic channel_closed (told why msg ys s)
  unfolding close_from give unref
  close_from-closed zero why msg s q ys p zs l can here shut less = absurd (omega arith)
  close_from-closed (suc fuel) why msg s q [] p zs (ne, away, link, rest) can here shut less =
      let not_null : (p == null) ≡ false = ground arith in
      rw (not_null, load-ok s.pendings ne here, shut, append-nil s.given, append-nil s.unreferenced)
        refl
  close_from-closed (suc fuel) why msg s q (y ∷ ys) p zs (ne, away, link, rest) can here shut less =
      let not_null : (y == null) ≡ false = ground arith in
      let m : AsyncPending = link.here in
      let able : CanTell s (some m) × CanTellAll s ys =
        subst (λ o. CanTell s o × CanTellAll s ys) link.holds can in
      let t = turned why msg m s in
      let run =
        close_from-closed fuel why msg t y ys p zs rest
          (CanTellAll-contents s t ys refl refl (λ a. refl) able.1) here shut (omega arith) in
      rw
        (
          not_null,
          load-ok s.pendings ne link.holds,
          link.next,
          link.holds,
          able.0.0,
          able.0.1,
          run,
          append_assoc s.given (record { chan = m.chan; status = why; payload = a_text msg } ∷ [])
              (notices why msg s.pendings.node ys),
          append_assoc s.unreferenced (m.slot ∷ []) (slots s.pendings.node ys),
        )
        refl

  -- Where the channel of the node `p` is closed, and those of the nodes before it are not: the code
  -- panics at `p`; the nodes before it were told, in order, and their slots released, `p` and those
  -- after it were not, and the queue still has all of its nodes.
  pub closeall_pending-closed :
      {n : AsyncPending} (fuel : ℕ) (why : Status) (msg : String) (s : World) (ys : List Ptr)
      (p : Ptr) (zs : List Ptr)
      → IsQueue s.pendings (ys ++ p ∷ zs)
      → CanTellAll s ys
      → s.pendings.node p ≡ some n
      → s.closed n.chan ≡ true
      → length ys < fuel
      → closeall_pending fuel why msg s ≡ panic channel_closed (told why msg ys s)
  unfolding closeall_pending get_head
  closeall_pending-closed fuel why msg s ys p zs q can here shut less =
      let not_null : (s.pendings.head == null) ≡ false = head_exists s ys p zs q in
      let run : close_from fuel why msg s.pendings.head s
          ≡ panic channel_closed (told why msg ys s) =
        ap (λ a. close_from fuel why msg a s) q.head
        ∙ close_from-closed fuel why msg s null ys p zs q.links can here shut less in
      rw (not_null, run) refl
