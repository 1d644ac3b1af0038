-- ===== src/Append/Ending/Conversions.antt =====
-- The conversions of src/unwrap.c end, and fault only by a type error.
use janet_sdbus.Base.{ok, panic, Option-cases, arith, Bool-cases, inl, inr, ◌≡◌}
use janet_sdbus.Platform.{Platform, JanetType}
use janet_sdbus.Unwrap.{
  not_s64, not_u64, getboolean, getnumber, getcstring, getuinteger8, getinteger16, getuinteger16,
  getinteger, getuinteger, getinteger64, getuinteger64, gettuple, getbytes, getindexed,
  getdictionary, getfd,
}
use janet_sdbus.Append.Sending.{World}
use janet_sdbus.Append.Ending.{
  ends, panicked, Same-refl, Dangles, EndsSame, dbus_type_error-Ends, tested-Ends, view-Ends,
  cbytes-Ends, descriptor-Ends,
}

module _ ⦃w : Platform⦄ where
  open w use {Janet, unwrap_s64, unwrap_u64}

  pub getboolean-Ends :
      {F : Type 0} (x : Janet) (s : World) → Dangles F s → EndsSame F s (getboolean x s)
  unfolding getboolean
  getboolean-Ends x s d = tested-Ends _ x _ _ s d

  pub getnumber-Ends :
      {F : Type 0} (x : Janet) (s : World) → Dangles F s → EndsSame F s (getnumber x s)
  unfolding getnumber
  getnumber-Ends x s d = tested-Ends _ x _ _ s d

  pub getuinteger8-Ends :
      {F : Type 0} (x : Janet) (s : World) → Dangles F s → EndsSame F s (getuinteger8 x s)
  unfolding getuinteger8
  getuinteger8-Ends x s d = tested-Ends _ x _ _ s d

  pub getinteger16-Ends :
      {F : Type 0} (x : Janet) (s : World) → Dangles F s → EndsSame F s (getinteger16 x s)
  unfolding getinteger16
  getinteger16-Ends x s d = tested-Ends _ x _ _ s d

  pub getuinteger16-Ends :
      {F : Type 0} (x : Janet) (s : World) → Dangles F s → EndsSame F s (getuinteger16 x s)
  unfolding getuinteger16
  getuinteger16-Ends x s d = tested-Ends _ x _ _ s d

  pub getinteger-Ends :
      {F : Type 0} (x : Janet) (s : World) → Dangles F s → EndsSame F s (getinteger x s)
  unfolding getinteger
  getinteger-Ends x s d = tested-Ends _ x _ _ s d

  pub getuinteger-Ends :
      {F : Type 0} (x : Janet) (s : World) → Dangles F s → EndsSame F s (getuinteger x s)
  unfolding getuinteger
  getuinteger-Ends x s d = tested-Ends _ x _ _ s d

  pub gettuple-Ends :
      {F : Type 0} (x : Janet) (s : World) → Dangles F s → EndsSame F s (gettuple x s)
  unfolding gettuple
  gettuple-Ends x s d = tested-Ends _ x _ _ s d

  pub getbytes-Ends :
      {F : Type 0} (x : Janet) (s : World) → Dangles F s → EndsSame F s (getbytes x s)
  unfolding getbytes
  getbytes-Ends x s d = view-Ends _ x _ s d

  pub getindexed-Ends :
      {F : Type 0} (x : Janet) (s : World) → Dangles F s → EndsSame F s (getindexed x s)
  unfolding getindexed
  getindexed-Ends x s d = view-Ends _ x _ s d

  pub getdictionary-Ends :
      {F : Type 0} (x : Janet) (s : World) → Dangles F s → EndsSame F s (getdictionary x s)
  unfolding getdictionary
  getdictionary-Ends x s d = view-Ends _ x _ s d

  pub getcstring-Ends :
      {F : Type 0} (x : Janet) (s : World) → Dangles F s → EndsSame F s (getcstring x s)
  unfolding getcstring
  getcstring-Ends x s d = elim (Bool-cases (w.checktype x JanetType.string)) [
    | inl right ↦ rw right (cbytes-Ends x (w.getcbytes x) s)
    | inr wrong ↦ rw wrong (dbus_type_error-Ends _ x s d)
  ]

  pub getfd-Ends : {F : Type 0} (x : Janet) (s : World) → Dangles F s → EndsSame F s (getfd x s)
  unfolding getfd
  getfd-Ends x s d = elim (Bool-cases (w.checktype x JanetType.abstract)) [
    | inl right ↦ rw right (descriptor-Ends x (w.unwrap_abstract x) s d)
    | inr wrong ↦ rw wrong (dbus_type_error-Ends _ x s d)
  ]

  pub getinteger64-Ends :
      {F : Type 0} (x : Janet) (s : World) → Dangles F s → EndsSame F s (getinteger64 x s)
  unfolding getinteger64
  getinteger64-Ends x s d = elim (Option-cases (unwrap_s64 x)) [
    | inl missing ↦
        let run : getinteger64 x s ≡ panic (not_s64 x) s = ground arith in rw run panicked
    | inr (number, given) ↦
        let run : getinteger64 x s ≡ ok number s = ground arith in rw run (ends (Same-refl s))
  ]

  pub getuinteger64-Ends :
      {F : Type 0} (x : Janet) (s : World) → Dangles F s → EndsSame F s (getuinteger64 x s)
  unfolding getuinteger64
  getuinteger64-Ends x s d = elim (Option-cases (unwrap_u64 x)) [
    | inl missing ↦
        let run : getuinteger64 x s ≡ panic (not_u64 x) s = ground arith in rw run panicked
    | inr (number, given) ↦
        let run : getuinteger64 x s ≡ ok number s = ground arith in rw run (ends (Same-refl s))
  ]
