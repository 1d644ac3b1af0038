-- ===== src/Append/Ending.antt =====
-- A postcondition for code that does not run out of fuel: `Ends F P o` holds if the run `o` returns,
-- with `P` of what it returns and the state, or panics, or, where `F` holds, faults.
pub mod Conversions
use Prim.Native.String.{String}
use janet_sdbus.Base.{
  ℕ, ◌+◌, refl, Bool, true, false, Option, none, some, Outcome, ok, panic, fault, and_then, ltb,
  ◌&&◌, Option-cases, arith, Bool-cases, inl, inr, if◌then◌else◌, is_negative, ◌≡◌, not, pure,
}
use janet_sdbus.Signature.{Bytes, Scan, found, failed}
use janet_sdbus.Platform.{Platform, Call, JanetType, AbstractValue, file, stream, other}
use janet_sdbus.Unwrap.{
  not_s64, not_u64, Panic, Run, ErrorContext, Pointer, is_dangling, type_error, dbus_type_error,
  view, cbytes, descriptor, call_sd_bus, panic_when, getboolean, getnumber, getcstring,
  getuinteger8, getinteger16, getuinteger16, getinteger, getuinteger, getinteger64, getuinteger64,
  gettuple, getbytes, getindexed, getdictionary, getfd, dbus_errctx_set, dbus_errctx_exit,
}
use janet_sdbus.Append.{scanned}
use janet_sdbus.Append.Sending.{World}

module _ ⦃w : Platform⦄ where
  open w use {Janet, Double, Message, perform, unwrap_s64, unwrap_u64}

  pub data Ends {A : Type 0} (F : Type 0) (P : A → World → Type 0)
      : Outcome (Panic Janet Double) World A → Type 0 where
    ends : {a : A} {s : World} → P a s → Ends F P (ok a s)
    panicked : {e : Panic Janet Double} {s : World} → Ends F P (panic e s)
    faulted : F → Ends F P fault

  pub Ends-bind :
      {A B F : Type 0} {P : A → World → Type 0} {Q : B → World → Type 0}
      {o : Outcome (Panic Janet Double) World A} {k : A → Run B}
      → Ends F P o
      → ((a : A) (t : World) → P a t → Ends F Q (k a t))
      → Ends F Q (and_then o k)
  Ends-bind (ends {a} {s} p) h = h a s p
  Ends-bind panicked h = panicked
  Ends-bind (faulted f) h = faulted f

  pub Ends-mono :
      {A F : Type 0} {P Q : A → World → Type 0} {o : Outcome (Panic Janet Double) World A}
      → Ends F P o
      → ((a : A) (t : World) → P a t → Q a t)
      → Ends F Q o
  Ends-mono (ends p) h = ends (h _ _ p)
  Ends-mono panicked h = panicked
  Ends-mono (faulted f) h = faulted f

  pub Ends-if :
      {A F : Type 0} {P : A → World → Type 0} (b : Bool) (m n : Run A) (s : World)
      → (b ≡ true → Ends F P (m s))
      → (b ≡ false → Ends F P (n s))
      → Ends F P ((if b then m else n) s)
  Ends-if true m n s h k = h refl
  Ends-if false m n s h k = k refl

  -- What conversions and calls leave alone: all but the message.
  pub record Same (s t : World) : Type 0 where
    pub errctx : t.errctx ≡ s.errctx
    pub allocated : t.allocated ≡ s.allocated
    pub freed : t.freed ≡ s.freed

  pub Same-refl : (s : World) → Same s s
  Same-refl s = record { errctx = refl; allocated = refl; freed = refl }

  -- A fault of a type error in the state `s` is an `F`.
  abbrev pub Dangles : Type 0 → World → Type 0
  Dangles F s =
      (is_dangling s.errctx.sig_first s.errctx.len_first s.freed ≡ true → F)
      × ((ltb 1 s.errctx.depth && is_dangling s.errctx.sig_child s.errctx.len_child s.freed) ≡ true
          → F)

  abbrev pub EndsSame :
      {A : Type 0} → Type 0 → World → Outcome (Panic Janet Double) World A → Type 0
  EndsSame F s o = Ends F (λ _ t. Same s t) o

  type_error-Ends :
      {A F : Type 0} (janet_type : String) (x : Janet) (ctx : ErrorContext)
      (sigbuf childbuf : Option Bytes) (s : World)
      → EndsSame F s (type_error {A = A} janet_type x ctx sigbuf childbuf s)
  unfolding type_error
  type_error-Ends janet_type x ctx none childbuf s = panicked
  type_error-Ends janet_type x ctx (some sig) none s = panicked
  type_error-Ends janet_type x ctx (some sig) (some child) s =
      Ends-if (ltb 1 ctx.depth) _ _ s (λ e. panicked) (λ e. panicked)

  pub dbus_type_error-Ends :
      {A F : Type 0} (janet_type : String) (x : Janet) (s : World)
      → Dangles F s
      → EndsSame F s (dbus_type_error {A = A} janet_type x s)
  unfolding dbus_type_error
  dbus_type_error-Ends janet_type x s (first, child) =
      let ctx = s.errctx in
      elim (Bool-cases (is_dangling ctx.sig_first ctx.len_first s.freed)) [
        | inl lost ↦ rw lost (faulted (first lost))
        | inr kept ↦
            rw kept
              (elim (Bool-cases
                (ltb 1 ctx.depth && is_dangling ctx.sig_child ctx.len_child s.freed)) [
                  | inl lost ↦ rw lost (faulted (child lost))
                  | inr kept' ↦ rw kept' (type_error-Ends janet_type x ctx _ _ s)
                ])
      ]

  -- A value that is tested before it is converted.
  pub tested-Ends :
      {A F : Type 0} (janet_type : String) (x : Janet) (test : Bool) (a : A) (s : World)
      → Dangles F s
      → EndsSame F s ((if not test then dbus_type_error janet_type x else pure a) s)
  tested-Ends janet_type x true a s d = ends (Same-refl s)
  tested-Ends janet_type x false a s d = dbus_type_error-Ends janet_type x s d

  pub view-Ends :
      {A F : Type 0} (janet_type : String) (x : Janet) (o : Option A) (s : World)
      → Dangles F s
      → EndsSame F s (view janet_type x o s)
  unfolding view
  view-Ends janet_type x (some a) s d = ends (Same-refl s)
  view-Ends janet_type x none s d = dbus_type_error-Ends janet_type x s d

  pub cbytes-Ends :
      {F : Type 0} (x : Janet) (o : Option Bytes) (s : World) → EndsSame F s (cbytes x o s)
  unfolding cbytes
  cbytes-Ends x (some bytes) s = ends (Same-refl s)
  cbytes-Ends x none s = panicked

  pub call_sd_bus-Ends : {F : Type 0} (c : Call Double) (s : World) → EndsSame F s (call_sd_bus c s)
  unfolding call_sd_bus
  call_sd_bus-Ends c s = elim (Bool-cases (is_negative (perform c s.msg).0)) [
    | inl stop ↦ rw stop panicked
    | inr go ↦ rw go (ends (record { errctx = refl; allocated = refl; freed = refl }))
  ]

  pub panic_when-Ends :
      {F : Type 0} (test : Bool) (e : Panic Janet Double) (s : World)
      → EndsSame F s (panic_when test e s)
  panic_when-Ends true e s = panicked
  panic_when-Ends false e s = ends (Same-refl s)

  pub scanned-Ends : {F : Type 0} (r : Scan ℕ) (s : World) → EndsSame F s (scanned r s)
  unfolding scanned
  scanned-Ends (found n) s = ends (Same-refl s)
  scanned-Ends (failed e) s = panicked

  pub descriptor-Ends :
      {F : Type 0} (x : Janet) (a : AbstractValue) (s : World)
      → Dangles F s
      → EndsSame F s (descriptor x a s)
  unfolding descriptor
  descriptor-Ends x (file true number) s d = panicked
  descriptor-Ends x (file false number) s d = ends (Same-refl s)
  descriptor-Ends x (stream true number) s d = panicked
  descriptor-Ends x (stream false number) s d = ends (Same-refl s)
  descriptor-Ends x other s d = dbus_type_error-Ends _ x s d
