-- ===== src/Append/Sending.antt =====
-- Postconditions for code that writes a message: which calls reached it, and what the code returns.
-- `Sends r P o`: the message after the run `o` is as in `r`; if all calls were accepted then the code
-- returns and `P` holds, and if one was refused then the code panics with that call's error.
use janet_sdbus.Base.{
  ◌≡◌, refl, [], ◌∷◌, ◌++◌, Outcome, ok, panic, and_then, ◌∙◌, is_negative, ℤ, ap, Bool-cases, inl,
  inr,
}
use janet_sdbus.Platform.{Platform, Call}
use janet_sdbus.Unwrap.{State, Panic, sd_bus_failed, Run, call_sd_bus}
use janet_sdbus.Append.Encoding.{Calls, Sent, accepted, refused, send}

module _ ⦃w : Platform⦄ where
  open w use {Janet, Double, Message, perform}

  abbrev pub World : Type 0
  World = State Message

  pub data Sends {A : Type 0} (r : Sent) (P : A → World → Type 0)
      : Outcome (Panic Janet Double) World A → Type 0 where
    sent : {a : A} {s : World} → r ≡ accepted s.msg → P a s → Sends r P (ok a s)
    stopped :
        {c : Call Double} {rv : ℤ} {s : World}
        → r ≡ refused c rv s.msg
        → Sends r P (panic (sd_bus_failed c rv) s)

  -- `Refuses r e o`: as `Sends`, but where all calls were accepted the code panics with `e`.
  pub data Refuses {A : Type 0} (r : Sent) (e : Panic Janet Double)
      : Outcome (Panic Janet Double) World A → Type 0 where
    refuses : {s : World} → r ≡ accepted s.msg → Refuses r e (panic e s)
    stopped :
        {c : Call Double} {rv : ℤ} {s : World}
        → r ≡ refused c rv s.msg
        → Refuses r e (panic (sd_bus_failed c rv) s)

  -- The calls of `ds` after those that led to `r`.
  abbrev pub then_send : Sent → Calls → Sent
  then_send (accepted m) ds = send ds m
  then_send (refused c rv m) ds = refused c rv m

  pub send-append : (cs ds : Calls) (m : Message) → send (cs ++ ds) m ≡ then_send (send cs m) ds
  unfolding send
  send-append [] ds m = refl
  send-append (c ∷ cs) ds m = elim (Bool-cases (is_negative (perform c m).0)) [
    | inl stop ↦ rw stop
    | inr go ↦ rw go (send-append cs ds (perform c m).1)
  ]

  -- What a step of the writer leaves alone of the error context.
  pub record Kept (s t : World) : Type 0 where
    pub depth : t.errctx.depth ≡ s.errctx.depth
    pub argc : t.errctx.argc ≡ s.errctx.argc

  pub Kept-refl : (s : World) → Kept s s
  Kept-refl s = record { depth = refl; argc = refl }

  pub Kept-trans : {s t u : World} → Kept s t → Kept t u → Kept s u
  Kept-trans h k = record { depth = k.depth ∙ h.depth; argc = k.argc ∙ h.argc }

  module _ {A B : Type 0} {P : A → World → Type 0} {Q : B → World → Type 0} where
    bind-Sends :
        {r : Sent} {o : Outcome (Panic Janet Double) World A} {k : A → Run B} (ds : Calls)
        → Sends r P o
        → ((a : A) (t : World) → P a t → Sends (send ds t.msg) Q (k a t))
        → Sends (then_send r ds) Q (and_then o k)
    bind-Sends ds (sent {a} {s} e p) k = rw e (k a s p)
    bind-Sends ds (Sends.stopped e) k = rw e (Sends.stopped refl)

    pub Sends-bind :
        {o : Outcome (Panic Janet Double) World A} {k : A → Run B} (cs ds : Calls) (m : Message)
        → Sends (send cs m) P o
        → ((a : A) (t : World) → P a t → Sends (send ds t.msg) Q (k a t))
        → Sends (send (cs ++ ds) m) Q (and_then o k)
    Sends-bind cs ds m h k = rw (send-append cs ds m) (bind-Sends ds h k)

  pub Sends-mono :
      {A : Type 0} {P P' : A → World → Type 0} {r : Sent} {o : Outcome (Panic Janet Double) World A}
      → Sends r P o
      → ((a : A) (t : World) → P a t → P' a t)
      → Sends r P' o
  Sends-mono (sent e p) k = sent e (k _ _ p)
  Sends-mono (Sends.stopped e) k = Sends.stopped e

  -- The last step calls nothing.
  pub Sends-end :
      {A B : Type 0} {P : A → World → Type 0} {Q : B → World → Type 0} {r : Sent}
      {o : Outcome (Panic Janet Double) World A} {k : A → Run B}
      → Sends r P o
      → ((a : A) (t : World) → P a t → Sends (send [] t.msg) Q (k a t))
      → Sends r Q (and_then o k)
  unfolding send
  Sends-end (sent {a} {s} e p) k = rw e (k a s p)
  Sends-end (Sends.stopped e) k = rw e (Sends.stopped refl)

  -- A run that writes, and then code that refuses.
  module _ {A B : Type 0} {P : A → World → Type 0} {e : Panic Janet Double} where
    bind-Refuses :
        {r : Sent} {o : Outcome (Panic Janet Double) World A} {k : A → Run B} (ds : Calls)
        → Sends r P o
        → ((a : A) (t : World) → P a t → Refuses (send ds t.msg) e (k a t))
        → Refuses (then_send r ds) e (and_then o k)
    bind-Refuses ds (sent {a} {s} e p) k = rw e (k a s p)
    bind-Refuses ds (Sends.stopped e) k = rw e (Refuses.stopped refl)

    pub Refuses-bind :
        {o : Outcome (Panic Janet Double) World A} {k : A → Run B} (cs ds : Calls) (m : Message)
        → Sends (send cs m) P o
        → ((a : A) (t : World) → P a t → Refuses (send ds t.msg) e (k a t))
        → Refuses (send (cs ++ ds) m) e (and_then o k)
    Refuses-bind cs ds m h k = rw (send-append cs ds m) (bind-Refuses ds h k)

  pub Refuses-end :
      {A B : Type 0} {P : A → World → Type 0} {e : Panic Janet Double} {r : Sent}
      {o : Outcome (Panic Janet Double) World A} {k : A → Run B}
      → Sends r P o
      → ((a : A) (t : World) → P a t → Refuses (send [] t.msg) e (k a t))
      → Refuses r e (and_then o k)
  unfolding send
  Refuses-end (sent {a} {s} e p) k = rw e (k a s p)
  Refuses-end (Sends.stopped e) k = rw e (Refuses.stopped refl)

  -- Nothing runs after a panic.
  pub Refuses-then :
      {A B : Type 0} {e : Panic Janet Double} {r : Sent} (k : A → Run B)
      {o : Outcome (Panic Janet Double) World A}
      → Refuses r e o
      → Refuses r e (and_then o k)
  Refuses-then k (refuses e) = refuses e
  Refuses-then k (Refuses.stopped e) = Refuses.stopped e

  -- Code that calls nothing.
  pub Sends-pure :
      {A : Type 0} {P : A → World → Type 0} {a : A} (s t : World)
      → s.msg ≡ t.msg
      → P a t
      → Sends (send [] s.msg) P (ok a t)
  unfolding send
  Sends-pure s t e p = sent (ap accepted e) p

  call-Sends :
      (c : Call Double) (s : World)
      → Sends (send (c ∷ []) s.msg) (λ _ t. Kept s t) (call_sd_bus c s)
  unfolding send call_sd_bus
  call-Sends c s = elim (Bool-cases (is_negative (perform c s.msg).0)) [
    | inl stop ↦ rw stop (Sends.stopped refl)
    | inr go ↦ rw go (sent refl (record { depth = refl; argc = refl }))
  ]

  -- One call, and the code after it.
  pub Sends-call :
      {B : Type 0} {Q : B → World → Type 0} {k : Unit {0} → Run B} (c : Call Double) (ds : Calls)
      (s : World)
      → ((a : Unit {0}) (t : World) → Kept s t → Sends (send ds t.msg) Q (k a t))
      → Sends (send (c ∷ ds) s.msg) Q (and_then (call_sd_bus c s) k)
  Sends-call c ds s k = Sends-bind (c ∷ []) ds s.msg (call-Sends c s) k

  -- One call, and nothing after it.
  pub Sends-last :
      {P : Unit {0} → World → Type 0} (c : Call Double) (s : World)
      → ((t : World) → Kept s t → P tt t)
      → Sends (send (c ∷ []) s.msg) P (call_sd_bus c s)
  Sends-last c s k = Sends-mono (call-Sends c s) (λ a t h. k t h)
