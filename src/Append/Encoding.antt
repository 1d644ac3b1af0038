-- ===== src/Append/Encoding.antt =====
-- What a Janet value stands for under a D-Bus type, independent of the signature scanner, of cursors
-- and of the error context: the calls that write it to a message. The type is a syntax tree.
use mathlib.Core.Option
use janet_sdbus.Base.{
  ℕ, suc, ◌≡◌, ◌≢◌, Bool, true, false, Option, none, some, List, [], ◌∷◌, ◌++◌, if◌then◌else◌, ℤ,
  is_negative,
}
use janet_sdbus.Signature.{Bytes}
use janet_sdbus.Signature.Types.{
  Basic, Ty, Tys, code, byte, boolean, int16, uint16, int32, uint32, int64, uint64, double, string,
  object_path, signature, fd, end, member, render, render_all,
}
use janet_sdbus.Platform.{
  Platform, JanetType, AbstractValue, file, stream, other, Datum, Call, open_container,
  close_container, append, append_basic, append_array,
}
use janet_sdbus.Unwrap.{checkuint8}

-- The descriptor of an open file or stream.
abbrev pub open_descriptor : AbstractValue → Option ℤ
open_descriptor (file closed handle) = if closed then none else some handle
open_descriptor (stream closed handle) = if closed then none else some handle
open_descriptor other = none

abbrev pub only_if {ℓ} : {A : Type ℓ} → Bool → Option A → Option A
only_if true o = o
only_if false o = none

module _ ⦃w : Platform⦄ where
  open w use {
    Janet, Double, Message, checktype, unwrap_boolean, unwrap_number, getcbytes, checkint16,
    checkuint16, checkint, checkuint, unwrap_s64, unwrap_u64, unwrap_tuple, unwrap_abstract,
    bytes_view, indexed_view, dictionary_view, to_uint8, to_int16, to_uint16, to_int32, to_uint32,
    perform,
  }

  -- The datum of a value whose C type is a number, a Boolean or a descriptor.
  unfoldable pub datum : Basic → Janet → Option (Datum Double)
  datum byte v = only_if (checkuint8 v) (some (Datum.y (to_uint8 (unwrap_number v))))
  datum boolean v = only_if (checktype v JanetType.boolean) (some (Datum.b (unwrap_boolean v)))
  datum int16 v = only_if (checkint16 v) (some (Datum.n (to_int16 (unwrap_number v))))
  datum uint16 v = only_if (checkuint16 v) (some (Datum.q (to_uint16 (unwrap_number v))))
  datum int32 v = only_if (checkint v) (some (Datum.i (to_int32 (unwrap_number v))))
  datum uint32 v = only_if (checkuint v) (some (Datum.u (to_uint32 (unwrap_number v))))
  datum int64 v = Option.map Datum.x (unwrap_s64 v)
  datum uint64 v = Option.map Datum.t (unwrap_u64 v)
  datum double v = only_if (checktype v JanetType.number) (some (Datum.d (unwrap_number v)))
  datum fd v =
      only_if (checktype v JanetType.abstract)
        (Option.map Datum.h (open_descriptor (unwrap_abstract v)))
  datum _ v = none

  -- Strings, object paths and signatures are written as text.
  unfoldable pub basic_call : Basic → Janet → Option (Call Double)
  unfolding datum
  basic_call string v =
      only_if (checktype v JanetType.string) (Option.map (append_basic b's') (getcbytes v))
  basic_call object_path v =
      only_if (checktype v JanetType.string) (Option.map (append_basic b'o') (getcbytes v))
  basic_call signature v =
      only_if (checktype v JanetType.string) (Option.map (append_basic b'g') (getcbytes v))
  basic_call k v = Option.map append (datum k v)

  abbrev pub Calls : Type 0
  Calls = List (Call Double)

  -- `Encodes f t v cs`: the value `v` has the type `t`, the calls `cs` write it, and its types nest
  -- to a depth of at most `f`.
  mutual
    pub data Encodes : ℕ → Ty → Janet → Calls → Type 0 where
      basic :
          {f : ℕ} {k : Basic} {v : Janet} {c : Call Double}
          → basic_call k v ≡ some c
          → Encodes (suc f) (Ty.basic k) v (c ∷ [])
      bytes :
          {f : ℕ} {v : Janet} {bs : Bytes}
          → bytes_view v ≡ some bs
          → Encodes (suc f) (Ty.array (Ty.basic byte)) v (append_array b'y' bs ∷ [])
      array :
          {f : ℕ} {t : Ty} {v : Janet} {vs : List Janet} {cs : Calls}
          → t ≢ Ty.basic byte
          → indexed_view v ≡ some vs
          → EncodesEach f t vs cs
          → Encodes
              (suc f)
              (Ty.array t)
              v
              (open_container b'a' (render t) ∷ (cs ++ close_container ∷ []))
      struct :
          {f : ℕ} {t : Ty} {ts : Tys} {v : Janet} {vs : List Janet} {cs : Calls}
          → indexed_view v ≡ some vs
          → EncodesAll f (member t ts) vs cs
          → Encodes
              (suc f)
              (Ty.struct t ts)
              v
              (open_container b'r' (render_all (member t ts)) ∷ (cs ++ close_container ∷ []))
      dict :
          {f : ℕ} {k : Basic} {t : Ty} {v : Janet} {kvs : List (Janet × Janet)} {cs : Calls}
          → dictionary_view v ≡ some kvs
          → EncodesEntries f k t kvs cs
          → Encodes (suc f) (Ty.dict k t) v (
              open_container b'a' (b'{' ∷ ((code k ∷ render t) ++ b'}' ∷ []))
              ∷ (cs ++ close_container ∷ []))
      variant :
          {f : ℕ} {t : Ty} {v sig value : Janet} {cs : Calls}
          → checktype v JanetType.tuple ≡ true
          → unwrap_tuple v ≡ sig ∷ value ∷ []
          → checktype sig JanetType.string ≡ true
          → getcbytes sig ≡ some (render t)
          → Encodes f t value cs
          → Encodes
              (suc f)
              Ty.variant
              v
              (open_container b'v' (render t) ∷ (cs ++ close_container ∷ []))

    -- All values have the one type.
    pub data EncodesEach : ℕ → Ty → List Janet → Calls → Type 0 where
      each_none : {f : ℕ} {t : Ty} → EncodesEach f t [] []
      each_more :
          {f : ℕ} {t : Ty} {v : Janet} {vs : List Janet} {cs ds : Calls}
          → Encodes f t v cs
          → EncodesEach f t vs ds
          → EncodesEach f t (v ∷ vs) (cs ++ ds)

    -- A value for each type.
    pub data EncodesAll : ℕ → Tys → List Janet → Calls → Type 0 where
      all_none : {f : ℕ} → EncodesAll f end [] []
      all_more :
          {f : ℕ} {t : Ty} {ts : Tys} {v : Janet} {vs : List Janet} {cs ds : Calls}
          → Encodes f t v cs
          → EncodesAll f ts vs ds
          → EncodesAll f (member t ts) (v ∷ vs) (cs ++ ds)

    pub data EncodesEntries : ℕ → Basic → Ty → List (Janet × Janet) → Calls → Type 0 where
      entries_none : {f : ℕ} {k : Basic} {t : Ty} → EncodesEntries f k t [] []
      entries_more :
          {f : ℕ} {k : Basic} {t : Ty} {key value : Janet} {kvs : List (Janet × Janet)}
          {c : Call Double} {cs ds : Calls}
          → basic_call k key ≡ some c
          → Encodes f t value cs
          → EncodesEntries f k t kvs ds
          → EncodesEntries f k t
              ((key, value) ∷ kvs)
              ((open_container b'e' (code k ∷ render t) ∷ c ∷ (cs ++ close_container ∷ [])) ++ ds)

  -- What the message library makes of calls in order, up to the first that it refuses.
  pub data Sent : Type 0 where
    accepted : Message → Sent
    refused : Call Double → ℤ → Message → Sent

  abbrev pub after : Call Double → ℤ × Message → (Message → Sent) → Sent
  after c (rv, m) k = if is_negative rv then refused c rv m else k m

  unfoldable pub send : Calls → Message → Sent
  send [] m = accepted m
  send (c ∷ cs) m = after c (perform c m) (λ m'. send cs m')
