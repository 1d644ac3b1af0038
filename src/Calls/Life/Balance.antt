-- ===== src/Calls/Life/Balance.antt =====
-- What every operation of src/call.c keeps: the queue is well linked, and the numbers of its nodes
-- and of the tuples are those of what has happened.
use janet_sdbus.Base.{
  ℕ, suc, ◌+◌, ◌≡◌, refl, sym, ap, subst, ◌∙◌, false, Bool-cases, inl, inr, none, some, List, [],
  ◌∷◌, ◌++◌, Outcome, ok, panic, arith, ◌==◌, length, length-append,
}
use janet_sdbus.Pending.{Ptr, null, Kind, AsyncPending, AsyncError, Heap}
use janet_sdbus.Pending.Links.{has, Links}
use janet_sdbus.Pending.Queue.{IsQueue, load-ok}
use janet_sdbus.Pending.Again.{Links-unique}
use janet_sdbus.Calls.{
  BusLibrary, signal, give, ok_status, a_message, Given, World, message_handler,
}
use janet_sdbus.Calls.Delivery.{Links-apart, Delivers, delivers}
use janet_sdbus.Calls.Registering.{
  Links-placed, Registered, Registers, registers, register-accepted, register-refused,
}
use janet_sdbus.Calls.Releasing.{Released, Releases, releases, destroy_call_callback-queued}
use janet_sdbus.Calls.Answering.{
  Answered, Answers, answers, message_handler-Replies, destroy_call_callback-Replies,
}
use janet_sdbus.Calls.Life.{
  Ledger, Lives, starts, makes, refuses, replies, replies_held, loses, publishes, cancels,
}

-- An address that is not allocated is not in a queue.
has-fresh : (h : Heap) (q p : Ptr) (xs : List Ptr) → Links h q xs → h p ≡ none → has p xs ≡ false
has-fresh h q p [] l e = refl
has-fresh h q p (x ∷ xs) (ne, out, link, rest) e = elim (Bool-cases (p == x)) [
  | inl here ↦
      let same : p ≡ x = ground arith in
      let bad : h x ≡ none = subst (λ a. h a ≡ none) same e in absurd (cc (bad, link.holds))
  | inr away ↦ rw (away, has-fresh h x p xs rest e) refl
]

length-remove :
    (ys : List Ptr) (p : Ptr) (zs : List Ptr) → length (ys ++ p ∷ zs) ≡ suc (length (ys ++ zs))
length-remove [] p zs = refl
length-remove (y ∷ ys) p zs = omega (arith, length-remove ys p zs)

module _ ⦃w : BusLibrary⦄ where
  open w use {Message, get_type}

  -- The queue of a connection, and what it has to do with the ledger.
  pub record Balanced (s : World) (l : Ledger) : Type 0 where
    pub waiting : List Ptr
    pub queue : IsQueue s.pendings waiting
    pub nodes : length waiting + l.answered + l.cancelled ≡ l.made
    pub tuples : length s.given ≡ l.answered + l.published

  -- All lists of the queue have one length.
  length-waiting :
      {s : World} {l : Ledger} (b : Balanced s l) (xs : List Ptr)
      → IsQueue s.pendings xs
      → length xs ≡ length b.waiting
  length-waiting {s} b xs q = ap length (
      Links-unique s.pendings.node null null xs b.waiting q.links b.queue.links
        (sym q.head ∙ b.queue.head))

  Registered-of :
      {kind : Kind} {p slot : Ptr} {chan : ℕ} {xs : List Ptr} {s : World}
      {o : Outcome AsyncError World Ptr} (t : World)
      → Registers kind p slot chan xs s o
      → o ≡ ok p t
      → Registered kind p slot chan xs s t
  Registered-of {kind} {p} {slot} {chan} {xs} {s} t (registers {t = u} r) e =
      let same : u ≡ t = cc in subst (Registered kind p slot chan xs s) same r

  Answered-of :
      {p : Ptr} {xs : List Ptr} {g : Given} {s t : World}
      → Answers p xs g s (ok tt t)
      → Answered p xs g s t
  Answered-of (answers a) = a

  Released-of :
      {p : Ptr} {xs : List Ptr} {s t : World} → Releases p xs s (ok tt t) → Released p xs s t
  Released-of (releases r) = r

  Delivers-of :
      {xs : List Ptr} {g : Given} {s t : World}
      → Delivers xs g s (ok tt t)
      → IsQueue t.pendings xs × (t.given ≡ s.given ++ g ∷ [])
  Delivers-of (delivers queue same kept given released closed lost) = (queue, given)

  -- One more tuple.
  given-length :
      {gs : List Given} {n : ℕ} (s : World) (g : Given)
      → length s.given ≡ n
      → gs ≡ s.given ++ g ∷ []
      → length gs ≡ suc n
  given-length s g e same =
      let more = ap length same ∙ length-append s.given (g ∷ []) in omega (arith, more, e)

  panic-state :
      {e f : AsyncError} {s t : World} {o : Outcome AsyncError World Ptr}
      → o ≡ panic e s
      → o ≡ panic f t
      → s ≡ t
  panic-state h k = cc

  ok-state :
      {s t : World} {o : Outcome AsyncError World (Unit {0})} → o ≡ ok tt s → o ≡ ok tt t → s ≡ t
  ok-state h k = cc

  publishing :
      {n : AsyncPending} (s : World) (ys : List Ptr) (p : Ptr) (zs : List Ptr) (msg : Message)
      → IsQueue s.pendings (ys ++ p ∷ zs)
      → s.pendings.node p ≡ some n
      → s.closed n.chan ≡ false
      → get_type msg ≡ signal
      → message_handler p msg s
        ≡ ok tt (record s {
          given =
              s.given ++ record { chan = n.chan; status = ok_status; payload = a_message msg } ∷ [];
        })
  unfolding message_handler give
  publishing s ys p zs msg q here able type =
      let (ne, out) = Links-apart s.pendings.node null ys p zs q.links in
      rw (type, load-ok s.pendings ne here, able) refl

  pub Lives-Balanced : {s : World} {l : Ledger} → Lives s l → Balanced s l
  Lives-Balanced (starts empty nothing) = record {
    waiting = [];
    queue = record { head = empty; links = tt };
    nodes = refl;
    tuples = rw nothing refl;
  }
  Lives-Balanced (makes {s} {t} kind name rv p slot junk chan past accepted ne fresh run) =
      let b = Lives-Balanced past in
      let out = has-fresh s.pendings.node null p b.waiting b.queue.links fresh in
      let r =
        Registered-of t
          (register-accepted kind name rv p slot junk chan s b.waiting accepted b.queue ne out)
          run in
      record {
        waiting = p ∷ b.waiting;
        queue = r.queue;
        nodes = omega (arith, b.nodes);
        tuples = ap length r.given ∙ b.tuples;
      }
  Lives-Balanced (refuses {s} {t} {l} kind name rv p slot junk chan past refused ne fresh run) =
      let b = Lives-Balanced past in
      let out = has-fresh s.pendings.node null p b.waiting b.queue.links fresh in
      let same = panic-state (register-refused kind name rv p slot junk chan s refused ne) run in
      subst (λ u. Balanced u l) same
        (record {
          waiting = b.waiting;
          queue = record {
            head = b.queue.head;
            links = Links-placed s.pendings.node null p none b.waiting out b.queue.links;
          };
          nodes = b.nodes;
          tuples = b.tuples;
        })
  Lives-Balanced (replies {s} {t} {g} ys p zs reply past q here kind able r run) =
      let b = Lives-Balanced past in
      let a = Answered-of (
        subst (Answers p (ys ++ zs) g s) run
          (destroy_call_callback-Replies s ys p zs reply q here kind able r)) in
      let one = length-remove ys p zs in
      let all = length-waiting b (ys ++ p ∷ zs) q in
      let more = given-length s g b.tuples a.given in
      record {
        waiting = ys ++ zs;
        queue = a.queue;
        nodes = omega (arith, b.nodes, one, all);
        tuples = omega (arith, more);
      }
  Lives-Balanced (replies_held {s} {t} {g} ys p zs reply past q here kind able r run) =
      let b = Lives-Balanced past in
      let (queue, given) = Delivers-of (
        subst (Delivers (ys ++ zs) g s) run
          (message_handler-Replies s ys p zs reply q here kind able r)) in
      let one = length-remove ys p zs in
      let all = length-waiting b (ys ++ p ∷ zs) q in
      let more = given-length s g b.tuples given in
      record {
        waiting = ys ++ zs;
        queue = queue;
        nodes = omega (arith, b.nodes, one, all);
        tuples = omega (arith, more);
      }
  Lives-Balanced (loses closed lost past) =
      let b = Lives-Balanced past in
      record { waiting = b.waiting; queue = b.queue; nodes = b.nodes; tuples = b.tuples }
  Lives-Balanced (publishes {s} {t} {l} {n} ys p zs msg past q here able type run) =
      let b = Lives-Balanced past in
      let g : Given = record { chan = n.chan; status = ok_status; payload = a_message msg } in
      let same = ok-state (publishing s ys p zs msg q here able type) run in
      let more = given-length s g b.tuples refl in
      subst (λ u. Balanced u (record l { published = suc l.published })) same
        (record {
          waiting = b.waiting;
          queue = b.queue;
          nodes = b.nodes;
          tuples = omega (arith, more);
        })
  Lives-Balanced (cancels {s} ys p zs past q run) =
      let b = Lives-Balanced past in
      let r =
        Released-of
          (subst (Releases p (ys ++ zs) s) run (destroy_call_callback-queued s ys p zs q)) in
      let one = length-remove ys p zs in
      let all = length-waiting b (ys ++ p ∷ zs) q in
      record {
        waiting = ys ++ zs;
        queue = r.queue;
        nodes = omega (arith, b.nodes, one, all);
        tuples = ap length r.given ∙ b.tuples;
      }
