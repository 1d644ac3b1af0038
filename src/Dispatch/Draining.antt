-- ===== src/Dispatch/Draining.antt =====
-- Replies that arrive in any order, for calls anywhere in the queue.
use janet_sdbus.Base.{
  ℕ, zero, suc, ◌<◌, ◌≡◌, refl, Bool, false, sym, ap, subst, ◌∙◌, Option, none, some, List, [], ◌∷◌,
  ◌++◌, Outcome, ok, and_then, arith, append_assoc, append-nil, pos,
}
use janet_sdbus.Pending.{Ptr, Kind, call, AsyncPending, AsyncError, Heap}
use janet_sdbus.Pending.Queue.{IsQueue}
use janet_sdbus.Pending.Contents.{contents}
use janet_sdbus.Calls.{BusLibrary, Given, World}
use janet_sdbus.Calls.Delivery.{Delivers, delivers}
use janet_sdbus.Calls.Answering.{Replies, message_handler-Replies}
use janet_sdbus.Events.{Conn, Event, drain, more_work, moved}
use janet_sdbus.Dispatch.{ArrivalLibrary, Session, in_session, turn, destroy, sessions}

-- A node that has the contents.
pub record Node (slot : Ptr) (chan : ℕ) (kind : Kind) (o : Option AsyncPending) : Type 0 where
  pub node : AsyncPending
  pub here : o ≡ some node
  pub same_slot : node.slot ≡ slot
  pub same_chan : node.chan ≡ chan
  pub same_kind : node.kind ≡ kind

pub Node-of :
    {slot : Ptr} {chan : ℕ} {kind : Kind} (o : Option AsyncPending)
    → contents o ≡ some (slot, (chan, kind))
    → Node slot chan kind o
Node-of none e = absurd cc
Node-of (some n) e = record {
  node = n;
  here = refl;
  same_slot = cc;
  same_chan = cc;
  same_kind = cc;
}

module _ ⦃w : BusLibrary⦄ ⦃a : ArrivalLibrary (w.Message)⦄ where
  open w use {Message}
  open a use {Bus, process}

  -- `Arrives n b ds c`: in `n` turns that have work and one that has none, the bus `b` runs the handlers
  -- `ds`, in order, releases no slot, and becomes `c`.
  pub data Arrives : ℕ → Bus → List (Ptr × Message) → Bus → Type 0 where
    quiet : {b c : Bus} → process b ≡ (pos 0, (c, (none, []))) → Arrives 0 b [] c
    works :
        {n k : ℕ} {b c d : Bus} {ds : List (Ptr × Message)}
        → process b ≡ (pos (suc k), (c, (none, [])))
        → Arrives n c ds d
        → Arrives (suc n) b ds d
    runs :
        {n k : ℕ} {b c d : Bus} {p : Ptr} {msg : Message} {ds : List (Ptr × Message)}
        → process b ≡ (pos (suc k), (c, (some (p, msg), [])))
        → Arrives n c ds d
        → Arrives (suc n) b ((p, msg) ∷ ds) d

  -- `Serves closed h xs ds gs ys`: the handlers `ds` are those of replies to calls that the queue
  -- `xs` holds, whose channels are not closed, each once and in any order; the replies are the
  -- tuples `gs`, and the queue is `ys` after them.
  pub data Serves (closed : ℕ → Bool) (h : Heap)
      : List Ptr → List (Ptr × Message) → List Given → List Ptr → Type 0 where
    served : {xs : List Ptr} → Serves closed h xs [] [] xs
    serves :
        {slot : Ptr} {chan : ℕ} {ds : List (Ptr × Message)} {gs : List Given} {xs : List Ptr}
        (ys : List Ptr) (p : Ptr) (zs : List Ptr) (reply : Message) {g : Given}
        → contents (h p) ≡ some (slot, (chan, call))
        → closed chan ≡ false
        → Replies reply chan g
        → Serves closed h (ys ++ zs) ds gs xs
        → Serves closed h (ys ++ p ∷ zs) ((p, reply) ∷ ds) (g ∷ gs) xs

  pub Serves-same :
      {closed closed' : ℕ → Bool} {g h : Heap} {xs ys : List Ptr} {ds : List (Ptr × Message)}
      {gs : List Given}
      → closed' ≡ closed
      → ((a : Ptr) → contents (g a) ≡ contents (h a))
      → Serves closed h xs ds gs ys
      → Serves closed' g xs ds gs ys
  Serves-same e same served = served
  Serves-same {closed} {closed'} h same (serves {chan} ys p zs reply e able r rest) =
      let able' : closed' chan ≡ false = rw h able in
      serves ys p zs reply (same p ∙ e) able' r (Serves-same h same rest)

  -- A run that has drained the bus to `b`, with the queue `xs`, and given `gs`. It kept the slot, the
  -- channel and the kind of every node, and set nothing of the event loop.
  pub record Drained (b : Bus) (xs : List Ptr) (gs : List Given) (s t : Conn) : Type 0 where
    pub bus : t.bus.bus ≡ b
    pub queue : IsQueue t.bus.world.pendings xs
    pub given : t.bus.world.given ≡ s.bus.world.given ++ gs
    pub kept :
        (p : Ptr) → contents (t.bus.world.pendings.node p) ≡ contents (s.bus.world.pendings.node p)
    pub stream : t.stream ≡ s.stream
    pub armed : t.armed ≡ s.armed
    pub triggered : t.triggered ≡ s.triggered

  pub data Drains (b : Bus) (xs : List Ptr) (gs : List Given) (s : Conn)
      : Outcome AsyncError Conn (Unit {0}) → Type 0 where
    drains : {t : Conn} → Drained b xs gs s t → Drains b xs gs s (ok tt t)

  abbrev with_session : Conn → Session → Conn
  with_session s t = record s { bus = t }

  -- A turn that gives nothing, before the others.
  later :
      {b : Bus} {xs : List Ptr} {gs : List Given} {s : Conn}
      {o : Outcome AsyncError Conn (Unit {0})} (c : Bus)
      → Drains b xs gs (with_session s (record (s.bus) { bus = c })) o
      → Drains b xs gs s o
  later c (drains d) = drains (record {
    bus = d.bus;
    queue = d.queue;
    given = d.given;
    kept = d.kept;
    stream = d.stream;
    armed = d.armed;
    triggered = d.triggered;
  })

  -- A turn that has given `g`, before the others.
  prepend :
      {b : Bus} {xs : List Ptr} {g : Given} {gs : List Given} {s : Conn}
      {o : Outcome AsyncError Conn (Unit {0})} (t : World)
      → t.given ≡ s.bus.world.given ++ g ∷ []
      → ((p : Ptr) → contents (t.pendings.node p) ≡ contents (s.bus.world.pendings.node p))
      → Drains b xs gs (with_session s (record (s.bus) { world = t })) o
      → Drains b xs (g ∷ gs) s o
  prepend {g} {gs} {s} t one same (drains d) = drains (record {
    bus = d.bus;
    queue = d.queue;
    given = d.given ∙ ap (λ l. l ++ gs) one ∙ append_assoc s.bus.world.given (g ∷ []) gs;
    kept = λ p. d.kept p ∙ same p;
    stream = d.stream;
    armed = d.armed;
    triggered = d.triggered;
  })

  after_reply :
      {b : Bus} {xs ys : List Ptr} {g : Given} {gs : List Given}
      {o : Outcome AsyncError World (Unit {0})} (k : ℕ) (rest : Event (Unit {0})) (s : Conn)
      → Delivers ys g s.bus.world o
      → ((t : World)
          → IsQueue t.pendings ys
          → ((p : Ptr) → contents (t.pendings.node p) ≡ contents (s.bus.world.pendings.node p))
          → t.closed ≡ s.bus.world.closed
          → Drains b xs gs
              (with_session s (record (s.bus) { world = t }))
              (rest (with_session s (record (s.bus) { world = t }))))
      → Drains b xs (g ∷ gs) s (
          and_then
            (moved s (and_then (in_session s.bus o) (λ _. ok (pos (suc k)))))
            (λ rv. more_work rv rest))
  after_reply k rest s (delivers {t} queue same kept given released closed lost) go =
      prepend t given kept (go t queue kept closed)

  -- Replies to pending calls, whose channels are not closed, arrive in any order, no turn releases a
  -- slot, among other work of the bus, which then has none left; with fuel for one turn more than
  -- have work, the loop ends there, each call's channel was given its reply once, in the order of
  -- arrival, and the answered calls have left the queue, which is otherwise in its order.
  pub drain-Serves :
      (fuel : ℕ) {n : ℕ} {b : Bus} {xs ys : List Ptr} {ds : List (Ptr × Message)} {gs : List Given}
      (s : Conn)
      → Arrives n s.bus.bus ds b
      → Serves s.bus.world.closed s.bus.world.pendings.node xs ds gs ys
      → IsQueue s.bus.world.pendings xs
      → n < fuel
      → Drains b ys gs s (drain fuel s)
  unfolding drain turn destroy
  drain-Serves zero s arrives sv q less = absurd (omega arith)
  drain-Serves (suc fuel) s (quiet e) served q less = rw e (
      drains (record {
        bus = refl;
        queue = q;
        given = sym (append-nil s.bus.world.given);
        kept = λ p. refl;
        stream = refl;
        armed = refl;
        triggered = refl;
      }))
  drain-Serves (suc fuel) s (works {c} e arrives) sv q less = rw e (
      later c (
        drain-Serves fuel (with_session s (record (s.bus) { bus = c })) arrives sv q (omega arith)))
  drain-Serves (suc fuel) s (runs {k} {c} e arrives) (serves ys p zs reply {g} here able r sv) q
        less =
      let n = Node-of (s.bus.world.pendings.node p) here in
      let r' = subst (λ chan. Replies reply chan g) (sym n.same_chan) r in
      rw e (
        later c (
          after_reply k (drain fuel) (with_session s (record (s.bus) { bus = c }))
            (message_handler-Replies s.bus.world ys p zs reply q n.here n.same_kind
              (rw n.same_chan able) r')
            λ t queue kept closed.
              drain-Serves fuel (with_session s (record { bus = c; world = t })) arrives
                (Serves-same closed kept sv) queue (omega arith)))
