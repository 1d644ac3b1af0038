-- ===== src/Dispatch/Calling.antt =====
-- `settimeout` and `sdbus/call-async` on a connection: what has arrived while a call is made.
use janet_sdbus.Base.{
  ap, ◌>>◌, ℕ, zero, suc, ◌<◌, ◌≡◌, ◌≢◌, refl, sym, ◌∙◌, false, Bool-cases, inl, inr, some, List,
  [], ◌∷◌, ◌++◌, append-nil, Outcome, ok, and_then, arith, ◌==◌, ℤ, is_negative,
}
use janet_sdbus.Pending.{Ptr, null, call, AsyncPending, AsyncError, Heap}
use janet_sdbus.Pending.Links.{has}
use janet_sdbus.Pending.Queue.{IsQueue, load-ok}
use janet_sdbus.Pending.Contents.{contents}
use janet_sdbus.Calls.{BusLibrary, Given, World, slot_of}
use janet_sdbus.Calls.Registering.{
  made, placed, Registered, Registers, registers, register-accepted,
}
use janet_sdbus.Events.{
  moved, Conn, timer_value, setevents, getevents, settimeout, settimeout_with, process_bus, arm,
}
use janet_sdbus.Dispatch.{ArrivalLibrary, in_session, sessions, on_world, call_async}
use janet_sdbus.Dispatch.Draining.{
  Arrives, Serves, served, Serves-same, Drains, drains, drain-Serves, Node-of,
}

module _ ⦃w : BusLibrary⦄ ⦃a : ArrivalLibrary (w.Message)⦄ where
  open w use {Message}
  open a use {Bus, process, get_events, get_timeout, settime_fails}

  -- The time that the bus `b` waits for, to which the timer can be set.
  pub record Timed (b : Bus) (usec : ℕ) : Type 0 where
    pub returned : ℤ
    pub timeout : get_timeout b ≡ (returned, usec)
    pub told : is_negative returned ≡ false

  -- The bus has no more to do before `usec`.
  pub record Rests (b : Bus) (usec : ℕ) : Type 0 where
    pub timed : Timed b usec
    pub later : (usec == 0) ≡ false
    pub settable : settime_fails (timer_value usec) ≡ false

  -- What `settimeout` meets at the bus `b`: nothing to do until `usec`, or handlers to run at once, and
  -- then nothing to do until `usec`, at the bus `c`.
  pub data Meets : ℕ → Bus → List (Ptr × Message) → Bus → ℕ → Type 0 where
    nothing_yet : {b : Bus} {usec : ℕ} → Rests b usec → Meets 0 b [] b usec
    work :
        {n : ℕ} {b c : Bus} {ds : List (Ptr × Message)} {usec : ℕ}
        → Timed b 0
        → Arrives n b ds c
        → is_negative (get_events c) ≡ false
        → Rests c usec
        → Meets (suc n) b ds c usec

  -- The connection is at the bus `b`, with the queue `xs` and the timer at `usec`; the channels were
  -- given `gs`, and every node has kept its slot, its channel and its kind.
  pub record Settled (b : Bus) (usec : ℕ) (xs : List Ptr) (gs : List Given) (s t : Conn)
      : Type 0 where
    pub bus : t.bus.bus ≡ b
    pub queue : IsQueue t.bus.world.pendings xs
    pub given : t.bus.world.given ≡ s.bus.world.given ++ gs
    pub kept :
        (p : Ptr) → contents (t.bus.world.pendings.node p) ≡ contents (s.bus.world.pendings.node p)
    pub armed : t.armed ≡ timer_value usec

  pub data Settles {A : Type 0} (b : Bus) (usec : ℕ) (xs : List Ptr) (gs : List Given) (s : Conn)
      (r : A) : Outcome AsyncError Conn A → Type 0 where
    settles : {t : Conn} → Settled b usec xs gs s t → Settles b usec xs gs s r (ok r t)

  -- The end of `process_bus`, once the bus is drained.
  after_drain :
      {b : Bus} {usec : ℕ} {xs : List Ptr} {gs : List Given} {s : Conn}
      {o : Outcome AsyncError Conn (Unit {0})} (fuel : ℕ)
      → Drains b xs gs s o
      → is_negative (get_events b) ≡ false
      → Rests b usec
      → Settles b usec xs gs s tt
          (and_then o (λ _ u. and_then (setevents u) (λ _. settimeout_with (process_bus fuel))))
  unfolding setevents getevents settimeout_with arm
  after_drain fuel (drains d) events r =
      rw (d.bus, events, r.timed.timeout, r.timed.told, r.later, r.settable)
        (settles
          (record { bus = refl; queue = d.queue; given = d.given; kept = d.kept; armed = refl }))

  -- `process_bus` with the handlers that it runs: replies to calls whose channels are not closed
  -- arrive in any order, among other work, no turn releases a slot, and then the bus waits; with
  -- fuel for two turns more than have work it returns, each call's channel was given its reply once,
  -- in the order of arrival, the answered calls have left the queue, and the timer is set to the
  -- time that the bus waits for.
  pub process_bus-Serves :
      (fuel : ℕ) {n usec : ℕ} {b : Bus} {xs ys : List Ptr} {ds : List (Ptr × Message)}
      {gs : List Given} (s : Conn)
      → Arrives n s.bus.bus ds b
      → Serves s.bus.world.closed s.bus.world.pendings.node xs ds gs ys
      → IsQueue s.bus.world.pendings xs
      → n < fuel
      → is_negative (get_events b) ≡ false
      → Rests b usec
      → Settles b usec ys gs s tt (process_bus (suc fuel) s)
  unfolding process_bus
  process_bus-Serves fuel s arrives sv q less events r =
      after_drain fuel (drain-Serves fuel s arrives sv q less) events r

  settimeout-Meets :
      (fuel : ℕ) {n usec : ℕ} {b : Bus} {xs ys : List Ptr} {ds : List (Ptr × Message)}
      {gs : List Given} (s : Conn)
      → Meets n s.bus.bus ds b usec
      → Serves s.bus.world.closed s.bus.world.pendings.node xs ds gs ys
      → IsQueue s.bus.world.pendings xs
      → n < fuel
      → Settles b usec ys gs s tt (settimeout fuel s)
  unfolding settimeout settimeout_with arm
  settimeout-Meets fuel s (nothing_yet r) served q less =
      rw (r.timed.timeout, r.timed.told, r.later, r.settable)
        (settles (record {
          bus = refl;
          queue = q;
          given = sym (append-nil s.bus.world.given);
          kept = λ p. refl;
          armed = refl;
        }))
  settimeout-Meets zero s m sv q less = absurd (omega arith)
  settimeout-Meets (suc fuel) s (work t arrives events r) sv q less =
      rw (t.timeout, t.told) (process_bus-Serves fuel s arrives sv q (omega arith) events r)

  -- The heap with the node of a new call.
  abbrev pub called : Heap → Ptr → Ptr → ℕ → AsyncPending → Heap
  called h p slot chan junk = placed h p (some (made call slot chan junk))

  called-Registered :
      {p slot : Ptr} {chan : ℕ} {xs : List Ptr} {s t : World} (junk : AsyncPending)
      → Registered call p slot chan xs s t
      → (q : Ptr)
      → contents (t.pendings.node q) ≡ contents (called s.pendings.node p slot chan junk q)
  called-Registered {p} junk r q = elim (Bool-cases (q == p)) [
    | inl here ↦ let same : q ≡ p = ground arith in rw here (rw same r.node)
    | inr away ↦ rw away (r.others q away)
  ]

  -- The new call's node still has its slot.
  slot_of-Settles :
      {b : Bus} {usec : ℕ} {xs : List Ptr} {gs : List Given} {s : Conn} {p slot : Ptr} {chan : ℕ}
      {o : Outcome AsyncError Conn (Unit {0})}
      → p ≢ null
      → contents (s.bus.world.pendings.node p) ≡ some (slot, (chan, call))
      → Settles b usec xs gs s tt o
      → Settles b usec xs gs s slot (and_then o (λ _. on_world (slot_of p)))
  slot_of-Settles {p} ne here (settles {t} d) =
      let n = Node-of (t.bus.world.pendings.node p) (d.kept p ∙ here) in
      rw (load-ok t.bus.world.pendings ne n.here, n.same_slot) (settles d)

  abbrev pub with_call : Conn → Ptr → Ptr → ℕ → AsyncPending → Conn
  with_call s p slot chan junk =
      let heap = called s.bus.world.pendings.node p slot chan junk in
      let world = record (s.bus.world) {
        pendings = record (s.bus.world.pendings) { node = heap };
      } in
      record s { bus = record (s.bus) { world = world } }

  Settles-from :
      {A : Type 0} {b : Bus} {usec : ℕ} {xs : List Ptr} {gs : List Given} {s s' : Conn} {r : A}
      {o : Outcome AsyncError Conn A}
      → s.bus.world.given ≡ s'.bus.world.given
      → ((p : Ptr)
          → contents (s.bus.world.pendings.node p) ≡ contents (s'.bus.world.pendings.node p))
      → Settles b usec xs gs s r o
      → Settles b usec xs gs s' r o
  Settles-from {gs} given kept (settles d) = settles (record {
    bus = d.bus;
    queue = d.queue;
    given = d.given ∙ ap (λ l. l ++ gs) given;
    kept = λ p. d.kept p ∙ kept p;
    armed = d.armed;
  })

  after_register :
      {n usec : ℕ} {c : Bus} {xs ys : List Ptr} {ds : List (Ptr × Message)} {gs : List Given}
      {p slot : Ptr} {chan : ℕ} {o : Outcome AsyncError World Ptr} (fuel : ℕ) (junk : AsyncPending)
      (s : Conn)
      → p ≢ null
      → Registers call p slot chan xs s.bus.world o
      → Meets n s.bus.bus ds c usec
      → Serves s.bus.world.closed
          (called s.bus.world.pendings.node p slot chan junk)
          (p ∷ xs)
          ds
          gs
          ys
      → n < fuel
      → Settles c usec ys gs (with_call s p slot chan junk) slot (
          and_then
            (moved s (in_session s.bus o))
            (λ pending. settimeout fuel >> on_world (slot_of pending)))
  after_register {p} fuel junk s ne (registers {t} r) m sv less =
      Settles-from r.given (called-Registered junk r) (
        slot_of-Settles ne r.node (
          settimeout-Meets fuel (record s { bus = record (s.bus) { world = t } }) m
            (Serves-same r.closed (called-Registered junk r) sv) r.queue less))

  -- A call that the message library accepts, whose node is at an address that is not in the queue,
  -- before the replies `ds`, in any order, that `settimeout` meets, to calls of the queue or to this
  -- one, whose channels are not closed, where no turn releases a slot: `sdbus/call-async` returns
  -- the call's slot. Its node became the first of the queue, the calls that were answered have left
  -- it, their channels were given their replies, and the timer is set to the time that the bus waits
  -- for.
  pub call_async-Meets :
      (fuel : ℕ) (submit : Bus → ℤ × Bus) {n usec : ℕ} {rv : ℤ} {b c : Bus} {xs ys : List Ptr}
      {ds : List (Ptr × Message)} {gs : List Given} (p slot : Ptr) (junk : AsyncPending) (chan : ℕ)
      (s : Conn)
      → submit s.bus.bus ≡ (rv, b)
      → is_negative rv ≡ false
      → IsQueue s.bus.world.pendings xs
      → p ≢ null
      → has p xs ≡ false
      → Meets n b ds c usec
      → Serves s.bus.world.closed
          (called s.bus.world.pendings.node p slot chan junk)
          (p ∷ xs)
          ds
          gs
          ys
      → n < fuel
      → Settles c usec ys gs
          (with_call s p slot chan junk)
          slot
          (call_async fuel submit p slot junk chan s)
  unfolding call_async
  call_async-Meets fuel submit {rv} {b} {xs} p slot junk chan s e accepted q ne out m sv less =
      rw e (
        Settles-from refl (λ q. refl)
          (after_register fuel junk (record s { bus = record (s.bus) { bus = b } }) ne
            (register-accepted call "sd_bus_call_async" rv p slot junk chan s.bus.world xs accepted
              q ne out)
            m sv less))
