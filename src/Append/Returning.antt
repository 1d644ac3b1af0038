-- ===== src/Append/Returning.antt =====
-- A postcondition for code that writes a message and may panic: what holds when it returns.
-- `Returns m P o`: if the run `o` returns, then the calls that turned the message `m` into the final
-- one were all accepted, and `P` holds of what is returned and of these calls.
use janet_sdbus.Base.{
  ◌≡◌, refl, ◌∙◌, Bool, true, false, not, Option, none, some, [], ◌∷◌, ◌++◌, Outcome, ok, panic,
  fault, out_of_fuel, and_then, ltb, ◌&&◌, is_negative, Bool-cases, inl, inr, ap, if◌then◌else◌,
  pure,
}
use Prim.Native.String.{String}
use janet_sdbus.Signature.{Bytes}
use janet_sdbus.Platform.{Platform, Call, JanetType}
use janet_sdbus.Unwrap.{
  Panic, Run, call_sd_bus, dbus_type_error, type_error, view, cbytes, is_dangling, ErrorContext,
  getindexed, getdictionary, getbytes, gettuple, panic_when,
}
use janet_sdbus.Append.Encoding.{Calls, accepted, send}
use janet_sdbus.Append.Sending.{World, then_send, send-append}

module _ ⦃w : Platform⦄ where
  open w use {
    Janet, Double, Message, perform, checktype, unwrap_tuple, indexed_view, dictionary_view,
    bytes_view,
  }

  pub data Returns {A : Type 0} (m : Message) (P : A → Calls → Type 0)
      : Outcome (Panic Janet Double) World A → Type 0 where
    returned :
        {a : A} {s : World} (cs : Calls)
        → send cs m ≡ accepted s.msg
        → P a cs
        → Returns m P (ok a s)
    panicked : {e : Panic Janet Double} {s : World} → Returns m P (panic e s)
    faulted : Returns m P fault
    ran_out : Returns m P out_of_fuel

  -- Code that makes no call and returns.
  pub Returns-pure :
      {A : Type 0} {P : A → Calls → Type 0} {a : A} (s t : World)
      → s.msg ≡ t.msg
      → P a []
      → Returns s.msg P (ok a t)
  unfolding send
  Returns-pure s t e p = returned [] (ap accepted e) p

  pub Returns-mono :
      {A : Type 0} {P Q : A → Calls → Type 0} {m : Message}
      {o : Outcome (Panic Janet Double) World A}
      → Returns m P o
      → ((a : A) (cs : Calls) → P a cs → Q a cs)
      → Returns m Q o
  Returns-mono (returned cs e p) k = returned cs e (k _ cs p)
  Returns-mono panicked k = panicked
  Returns-mono faulted k = faulted
  Returns-mono ran_out k = ran_out

  after_calls :
      {B : Type 0} {Q : B → Calls → Type 0} {m n : Message}
      {o : Outcome (Panic Janet Double) World B} (cs : Calls)
      → send cs m ≡ accepted n
      → Returns n (λ b ds. Q b (cs ++ ds)) o
      → Returns m Q o
  after_calls {m} cs e (returned ds e' q) =
      returned (cs ++ ds) (send-append cs ds m ∙ ap (λ r. then_send r ds) e ∙ e') q
  after_calls cs e panicked = panicked
  after_calls cs e faulted = faulted
  after_calls cs e ran_out = ran_out

  pub Returns-bind :
      {A B : Type 0} {P : A → Calls → Type 0} {Q : B → Calls → Type 0} {m : Message}
      {o : Outcome (Panic Janet Double) World A} {k : A → Run B}
      → Returns m P o
      → ((a : A) (t : World) (cs : Calls) → P a cs → Returns t.msg (λ b ds. Q b (cs ++ ds)) (k a t))
      → Returns m Q (and_then o k)
  Returns-bind (returned {a} {s} cs e p) k = after_calls cs e (k a s cs p)
  Returns-bind panicked k = panicked
  Returns-bind faulted k = faulted
  Returns-bind ran_out k = ran_out

  -- The one call `c`, which was accepted.
  abbrev Accepts : Call Double → Message → Calls → Type 0
  Accepts c m cs = (cs ≡ c ∷ []) × (is_negative (perform c m).0 ≡ false)

  call-Returns :
      (c : Call Double) (s : World) → Returns s.msg (λ _ cs. Accepts c s.msg cs) (call_sd_bus c s)
  unfolding call_sd_bus send
  call-Returns c s = elim (Bool-cases (is_negative (perform c s.msg).0)) [
    | inl stop ↦ rw stop panicked
    | inr go ↦
        let done : send (c ∷ []) s.msg ≡ accepted (perform c s.msg).1 = rw go in
        Returns-mono {P = λ _ cs. cs ≡ c ∷ []} (rw go (returned (c ∷ []) done refl))
          λ a cs e. (e, go)
  ]

  -- One call, and the code after it, which runs only if the call was accepted.
  pub Returns-call :
      {B : Type 0} {Q : B → Calls → Type 0} {k : Unit {0} → Run B} (c : Call Double) (s : World)
      → ((a : Unit {0}) (t : World)
          → is_negative (perform c s.msg).0 ≡ false
          → Returns t.msg (λ b ds. Q b (c ∷ ds)) (k a t))
      → Returns s.msg Q (and_then (call_sd_bus c s) k)
  Returns-call c s k = Returns-bind (call-Returns c s) λ a t cs (e, go). rw e (k a t go)

  -- One call, and nothing after it.
  pub Returns-last :
      {Q : Unit {0} → Calls → Type 0} (c : Call Double) (s : World)
      → Q tt (c ∷ [])
      → Returns s.msg Q (call_sd_bus c s)
  Returns-last c s q = Returns-mono (call-Returns c s) λ a cs (e, go). rw e q

  -- A conversion that fails does not return.
  type_error-Returns :
      {A : Type 0} {Q : A → Calls → Type 0} {m : Message} (janet_type : String) (x : Janet)
      (ctx : ErrorContext) (sigbuf childbuf : Option Bytes) (s : World)
      → Returns m Q (type_error janet_type x ctx sigbuf childbuf s)
  unfolding type_error
  type_error-Returns janet_type x ctx none childbuf s = panicked
  type_error-Returns janet_type x ctx (some sig) none s = panicked
  type_error-Returns janet_type x ctx (some sig) (some child) s =
      elim (Bool-cases (ltb 1 ctx.depth)) [
        | inl below ↦ rw below panicked
        | inr top ↦ rw top panicked
      ]

  pub dbus_type_error-Returns :
      {A : Type 0} {Q : A → Calls → Type 0} {m : Message} (janet_type : String) (x : Janet)
      (s : World)
      → Returns m Q (dbus_type_error janet_type x s)
  unfolding dbus_type_error
  dbus_type_error-Returns {Q} {m} janet_type x s =
      let ctx = s.errctx in
      elim (Bool-cases (is_dangling ctx.sig_first ctx.len_first s.freed)) [
        | inl lost ↦ rw lost faulted
        | inr kept ↦
            rw kept
              (elim (Bool-cases
                (ltb 1 ctx.depth && is_dangling ctx.sig_child ctx.len_child s.freed)) [
                  | inl lost ↦ rw lost faulted
                  | inr kept ↦ rw kept (type_error-Returns janet_type x ctx _ _ s)
                ])
      ]

  -- A conversion: no call is made, and `P` holds of what it gives.
  abbrev pub Got : {A : Type 0} → (A → Type 0) → A → Calls → Type 0
  Got P a cs = (cs ≡ []) × P a

  pub Returns-get :
      {A B : Type 0} {P : A → Type 0} {Q : B → Calls → Type 0} {m : Message}
      {o : Outcome (Panic Janet Double) World A} {k : A → Run B}
      → Returns m (Got P) o
      → ((a : A) (t : World) → P a → Returns t.msg Q (k a t))
      → Returns m Q (and_then o k)
  Returns-get h k = Returns-bind h λ a t cs (e, p). rw e (k a t p)

  -- A value that is tested before it is converted.
  pub checked-Returns :
      {A : Type 0} (janet_type : String) (x : Janet) (test : Bool) (a : A) (s : World)
      → Returns s.msg
          (Got λ b. (test ≡ true) × (b ≡ a))
          ((if not test then dbus_type_error janet_type x else pure a) s)
  checked-Returns janet_type x true a s = Returns-pure s s refl (refl, (refl, refl))
  checked-Returns janet_type x false a s = dbus_type_error-Returns janet_type x s

  -- A view of a value that may be missing.
  view-Returns :
      {A : Type 0} (janet_type : String) (x : Janet) (o : Option A) (s : World)
      → Returns s.msg (Got λ a. o ≡ some a) (view janet_type x o s)
  unfolding view
  view-Returns janet_type x (some a) s = Returns-pure s s refl (refl, refl)
  view-Returns janet_type x none s = dbus_type_error-Returns janet_type x s

  pub getindexed-Returns :
      (x : Janet) (s : World) → Returns s.msg (Got λ a. indexed_view x ≡ some a) (getindexed x s)
  unfolding getindexed
  getindexed-Returns x s = view-Returns _ x (indexed_view x) s

  pub getdictionary-Returns :
      (x : Janet) (s : World)
      → Returns s.msg (Got λ a. dictionary_view x ≡ some a) (getdictionary x s)
  unfolding getdictionary
  getdictionary-Returns x s = view-Returns _ x (dictionary_view x) s

  pub getbytes-Returns :
      (x : Janet) (s : World) → Returns s.msg (Got λ a. bytes_view x ≡ some a) (getbytes x s)
  unfolding getbytes
  getbytes-Returns x s = view-Returns _ x (bytes_view x) s

  pub gettuple-Returns :
      (x : Janet) (s : World)
      → Returns s.msg
          (Got λ items. (checktype x JanetType.tuple ≡ true) × (items ≡ unwrap_tuple x))
          (gettuple x s)
  unfolding gettuple
  gettuple-Returns x s = checked-Returns _ x _ _ s

  pub cbytes-Returns :
      (x : Janet) (o : Option Bytes) (s : World)
      → Returns s.msg (Got λ bytes. o ≡ some bytes) (cbytes x o s)
  unfolding cbytes
  cbytes-Returns x (some bytes) s = Returns-pure s s refl (refl, refl)
  cbytes-Returns x none s = panicked

  -- A check that panics.
  pub panic_when-Returns :
      {A : Type 0} {Q : A → Calls → Type 0} {k : Unit {0} → Run A} (test : Bool)
      (e : Panic Janet Double) (s : World)
      → ((a : Unit {0}) (t : World) → test ≡ false → Returns t.msg Q (k a t))
      → Returns s.msg Q (and_then (panic_when test e s) k)
  panic_when-Returns false e s h = h tt s refl
  panic_when-Returns true e s h = panicked
