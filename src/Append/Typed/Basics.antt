-- ===== src/Append/Typed/Basics.antt =====
-- `append_basic_type` returns only for a value that has the basic type at the cursor.
use janet_sdbus.Base.{
  Option-cases, arith, ok, panic, Outcome, and_then, ℕ, ◌≡◌, refl, true, false, some, [], ◌∷◌,
  Bool-cases, inl, inr,
}
use janet_sdbus.Signature.{Bytes}
use janet_sdbus.Signature.Types.{Basic, code, int64, uint64, string, object_path, signature, fd}
use janet_sdbus.Platform.{Platform, Call, JanetType, AbstractValue, file, stream, other}
use janet_sdbus.Unwrap.{
  not_s64, not_u64, Panic, call_sd_bus, getcstring, getfd, descriptor, getboolean, getnumber,
  getuinteger8, getinteger16, getuinteger16, getinteger, getuinteger, getinteger64, getuinteger64,
}
use janet_sdbus.Append.{parser, append_basic_type}
use janet_sdbus.Append.Encoding.{Calls, basic_call, open_descriptor}
use janet_sdbus.Append.Sending.{World}
use janet_sdbus.Append.Returning.{
  Returns, Got, panicked, Returns-pure, Returns-mono, Returns-get, Returns-last, checked-Returns,
  cbytes-Returns, dbus_type_error-Returns,
}

module _ ⦃w : Platform⦄ where
  open w use {Janet, Double, Message, checktype, getcbytes, unwrap_abstract, unwrap_s64, unwrap_u64}

  -- The one call that writes `v` as the basic type `k`.
  abbrev pub Wrote : Basic → Janet → Calls → Type 0
  Wrote k v cs = (c : Call Double) × (cs ≡ c ∷ []) × (basic_call k v ≡ some c)

  -- A conversion, and the call that takes what it gives.
  convert-Wrote :
      {A : Type 0} {P : A → Type 0} {o : Outcome (Panic Janet Double) World A} {m : Message}
      (k : Basic) (v : Janet) (to : A → Call Double)
      → Returns m (Got P) o
      → ((a : A) → P a → basic_call k v ≡ some (to a))
      → Returns m (λ _ cs. Wrote k v cs) (and_then o λ a. call_sd_bus (to a))
  convert-Wrote k v to h e = Returns-get h λ a t p. Returns-last (to a) t (to a, refl, e a p)

  cstring-Returns :
      (v : Janet) (s : World)
      → Returns s.msg
          (Got λ bytes. (checktype v JanetType.string ≡ true) × (getcbytes v ≡ some bytes))
          (getcstring v s)
  unfolding getcstring
  cstring-Returns v s = elim (Bool-cases (checktype v JanetType.string)) [
    | inl right ↦
        rw right (Returns-mono (cbytes-Returns v (getcbytes v) s) λ bytes cs (e, h). (e, (refl, h)))
    | inr wrong ↦ rw wrong (dbus_type_error-Returns _ v s)
  ]

  descriptor-Returns :
      (v : Janet) (a : AbstractValue) (s : World)
      → Returns s.msg (Got λ number. open_descriptor a ≡ some number) (descriptor v a s)
  unfolding descriptor
  descriptor-Returns v (file true number) s = panicked
  descriptor-Returns v (file false number) s = Returns-pure s s refl (refl, refl)
  descriptor-Returns v (stream true number) s = panicked
  descriptor-Returns v (stream false number) s = Returns-pure s s refl (refl, refl)
  descriptor-Returns v other s = dbus_type_error-Returns _ v s

  fd-Returns :
      (v : Janet) (s : World)
      → Returns s.msg
          (Got λ number.
            (checktype v JanetType.abstract ≡ true)
            × (open_descriptor (unwrap_abstract v) ≡ some number))
          (getfd v s)
  unfolding getfd
  fd-Returns v s = elim (Bool-cases (checktype v JanetType.abstract)) [
    | inl right ↦ rw right (
        Returns-mono (descriptor-Returns v (unwrap_abstract v) s)
          λ number cs (e, h). (e, (refl, h)))
    | inr wrong ↦ rw wrong (dbus_type_error-Returns _ v s)
  ]

  s64-Returns :
      (v : Janet) (s : World)
      → Returns s.msg (Got λ number. unwrap_s64 v ≡ some number) (getinteger64 v s)
  unfolding getinteger64
  s64-Returns v s = elim (Option-cases (unwrap_s64 v)) [
    | inl missing ↦
        let run : getinteger64 v s ≡ panic (not_s64 v) s = ground arith in rw run panicked
    | inr (number, given) ↦
        let run : getinteger64 v s ≡ ok number s = ground arith in
        rw run (Returns-pure s s refl (refl, given))
  ]

  u64-Returns :
      (v : Janet) (s : World)
      → Returns s.msg (Got λ number. unwrap_u64 v ≡ some number) (getuinteger64 v s)
  unfolding getuinteger64
  u64-Returns v s = elim (Option-cases (unwrap_u64 v)) [
    | inl missing ↦
        let run : getuinteger64 v s ≡ panic (not_u64 v) s = ground arith in rw run panicked
    | inr (number, given) ↦
        let run : getuinteger64 v s ≡ ok number s = ground arith in
        rw run (Returns-pure s s refl (refl, given))
  ]

  pub append_basic_type-Wrote :
      (k : Basic) (owner : ℕ) (rest : Bytes) (v : Janet) (s : World)
      → Returns s.msg (λ _ cs. Wrote k v cs) (append_basic_type (parser owner (code k ∷ rest)) v s)
  unfolding append_basic_type basic_call getuinteger8 getboolean getinteger16 getuinteger16
      getinteger getuinteger getnumber getinteger64 getuinteger64
  append_basic_type-Wrote int64 owner rest v s =
      convert-Wrote int64 v _ (s64-Returns v s) λ a e. rw e
  append_basic_type-Wrote uint64 owner rest v s =
      convert-Wrote uint64 v _ (u64-Returns v s) λ a e. rw e
  append_basic_type-Wrote string owner rest v s =
      convert-Wrote string v _ (cstring-Returns v s) λ a (e, h). rw (e, h)
  append_basic_type-Wrote object_path owner rest v s =
      convert-Wrote object_path v _ (cstring-Returns v s) λ a (e, h). rw (e, h)
  append_basic_type-Wrote signature owner rest v s =
      convert-Wrote signature v _ (cstring-Returns v s) λ a (e, h). rw (e, h)
  append_basic_type-Wrote fd owner rest v s =
      convert-Wrote fd v _ (fd-Returns v s) λ a (e, h). rw (e, h)
  append_basic_type-Wrote k owner rest v s =
      convert-Wrote k v _ (checked-Returns _ v _ _ s) λ a (e, h). rw (e, h)
