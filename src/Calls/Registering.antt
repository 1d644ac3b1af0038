-- ===== src/Calls/Registering.antt =====
-- What `sdbus/call-async` and `sdbus/match-async` of src/call.c do to the queue.
use Prim.Native.String.{String}
use janet_sdbus.Base.{
  Option, ◌≡◌, ◌≢◌, refl, true, false, some, none, List, [], ◌∷◌, Outcome, ok, panic, arith,
  and_then, ◌∙◌, ℤ, Bool-cases, inl, inr, ap, is_negative, ℕ, ◌==◌, if◌then◌else◌,
}
use janet_sdbus.Pending.{
  Ptr, null, Kind, AsyncPending, Heap, Pendings, AsyncError, failed_to_call, update, write,
}
use janet_sdbus.Pending.Links.{has, Links}
use janet_sdbus.Pending.Queue.{IsQueue, Leaves, leaves, load-ok, queue_pending-cons}
use janet_sdbus.Pending.Contents.{contents, Keeps, keeps, queue_pending-Keeps}
use janet_sdbus.Calls.{
  BusLibrary, World, back, free, to_kind, create_async_pending, init_callback_state, register,
}

-- The node that `init_callback_state` and the setting of the kind make.
abbrev pub made : Kind → Ptr → ℕ → AsyncPending → AsyncPending
made kind slot chan junk = record junk { slot = slot; chan = chan; kind = kind }

-- The heap with another content of the address `p`: a new node, or none.
abbrev pub placed : Heap → Ptr → Option AsyncPending → Heap
placed h p o a = if a == p then o else h a

pub Links-placed :
    (h : Heap) (q p : Ptr) (o : Option AsyncPending) (xs : List Ptr)
    → has p xs ≡ false
    → Links h q xs
    → Links (placed h p o) q xs
Links-placed h q p o [] out l = tt
Links-placed h q p o (x ∷ xs) out (ne, away, link, rest) =
    let apart : (x == p) ≡ false = ground arith in
    (
      ne,
      away,
      record {
        here = link.here;
        holds = rw (apart, link.holds) refl;
        prev = link.prev;
        next = link.next;
      },
      Links-placed h x p o xs (ground arith) rest,
    )

abbrev with_node : Heap → Ptr → AsyncPending → Heap
with_node h p n = placed h p (some n)

with_node-at : (h : Heap) (p : Ptr) (n : AsyncPending) → with_node h p n p ≡ some n
with_node-at h p n = let here : (p == p) ≡ true = ground arith in rw here refl

made_at :
    (h : Heap) (p : Ptr) (kind : Kind) (slot : Ptr) (chan : ℕ) (junk : AsyncPending) (a : Ptr)
    → update (with_node h p (record junk { slot = slot; chan = chan })) p (to_kind kind) a
      ≡ with_node h p (made kind slot chan junk) a
unfolding update
made_at h p kind slot chan junk a = elim (Bool-cases (a == p)) [
  | inl here ↦ rw here refl
  | inr away ↦ rw away refl
]

forgotten :
    (h : Heap) (p : Ptr) (n : AsyncPending) (f : AsyncPending → AsyncPending) (a : Ptr)
    → placed (update (with_node h p n) p f) p none a ≡ placed h p none a
unfolding update
forgotten h p n f a = elim (Bool-cases (a == p)) [
  | inl here ↦ rw here refl
  | inr away ↦ rw away refl
]

module _ ⦃w : BusLibrary⦄ where
  -- A registered call or subscription: the queue, and the new node's slot, channel and kind.
  pub record Registered (kind : Kind) (p slot : Ptr) (chan : ℕ) (xs : List Ptr) (s t : World)
      : Type 0 where
    pub queue : IsQueue t.pendings (p ∷ xs)
    pub node : contents (t.pendings.node p) ≡ some (slot, (chan, kind))
    pub others :
        (a : Ptr) → (a == p) ≡ false → contents (t.pendings.node a) ≡ contents (s.pendings.node a)
    pub given : t.given ≡ s.given
    pub unreferenced : t.unreferenced ≡ s.unreferenced
    pub closed : t.closed ≡ s.closed

  pub data Registers (kind : Kind) (p slot : Ptr) (chan : ℕ) (xs : List Ptr) (s : World)
      : Outcome AsyncError World Ptr → Type 0 where
    registers :
        {t : World} → Registered kind p slot chan xs s t → Registers kind p slot chan xs s (ok p t)

  -- The result of queuing the new node.
  queued :
      {kind : Kind} {p slot : Ptr} {chan : ℕ} {xs : List Ptr}
      {o : Outcome AsyncError Pendings (Unit {0})} (junk : AsyncPending) (s : World)
      → Leaves (p ∷ xs) (p ∷ xs) (with_node s.pendings.node p (made kind slot chan junk)) o
      → Keeps (with_node s.pendings.node p (made kind slot chan junk)) o
      → (q : Pendings)
      → Registers kind p slot chan xs s (and_then (back (record s { pendings = q }) o) (λ _. ok p))
  queued {kind} {p} {slot} {chan} junk s (leaves queue same) (keeps kept) q = registers (record {
    queue = queue;
    node = kept p ∙ ap contents (with_node-at s.pendings.node p (made kind slot chan junk));
    others = λ a away. kept a ∙ ap contents (rw away refl);
    given = refl;
    unreferenced = refl;
    closed = refl;
  })

  -- A call or subscription that the message library accepts: its node, at an address that is not in
  -- the queue, becomes the first of the queue, with the slot, the channel and the kind that it was
  -- given; the others keep theirs, and no channel is given anything.
  pub register-accepted :
      (kind : Kind) (name : String) (rv : ℤ) (p slot : Ptr) (junk : AsyncPending) (chan : ℕ)
      (s : World) (xs : List Ptr)
      → is_negative rv ≡ false
      → IsQueue s.pendings xs
      → p ≢ null
      → has p xs ≡ false
      → Registers kind p slot chan xs s (register kind name rv p slot junk chan s)
  unfolding register init_callback_state create_async_pending write
  register-accepted kind name rv p slot junk chan s xs accepted q ne out =
      let blank : Heap = with_node s.pendings.node p (record junk { slot = slot; chan = chan }) in
      let fresh : Pendings = record {
        node = with_node s.pendings.node p (made kind slot chan junk);
        head = s.pendings.head;
      } in
      let same : update blank p (to_kind kind) ≡ fresh.node =
        λ i a. made_at s.pendings.node p kind slot chan junk a i in
      rw
        (
          load-ok (record { node = blank; head = s.pendings.head }) ne
              (with_node-at s.pendings.node p _),
          same,
          accepted,
        )
        (queued junk s
          (queue_pending-cons {s = fresh} p
            (record { head = q.head; links = Links-placed s.pendings.node null p _ xs out q.links })
            ne (with_node-at s.pendings.node p _) out)
          (queue_pending-Keeps p fresh) fresh)

  -- One that the message library refuses: the code panics with its error, the new node is freed, and
  -- nothing else has changed.
  pub register-refused :
      (kind : Kind) (name : String) (rv : ℤ) (p slot : Ptr) (junk : AsyncPending) (chan : ℕ)
      (s : World)
      → is_negative rv ≡ true
      → p ≢ null
      → register kind name rv p slot junk chan s
        ≡ panic
            (failed_to_call name rv)
            (record s { pendings = record (s.pendings) { node = placed s.pendings.node p none } })
  unfolding register init_callback_state create_async_pending write free
  register-refused kind name rv p slot junk chan s refused ne =
      let blank : Heap = with_node s.pendings.node p (record junk { slot = slot; chan = chan }) in
      rw
        (
          load-ok (record { node = blank; head = s.pendings.head }) ne
              (with_node-at s.pendings.node p _),
          refused,
        )
        (ap
          (λ h.
            panic (failed_to_call name rv)
              (record s { pendings = record (s.pendings) { node = h } }))
          (λ i a.
            forgotten s.pendings.node p (record junk { slot = slot; chan = chan }) (to_kind kind) a
              i))
