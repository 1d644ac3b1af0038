-- ===== src/Unwrap.antt =====
-- src/unwrap.c: the error context and the conversions of Janet values to C values. The state that
-- the code keeps besides: the message that is written, and which blocks of `janet_scalloc` have been
-- freed, since the error context keeps pointers into them.
pub mod Context
pub mod Bounds
unfoldable pub use Context.*
use Prim.Native.String.{String}
use janet_sdbus.Base.{
  ℕ, ◌+◌, ◌-◌, Bool, false, not, ◌&&◌, ◌||◌, Option, none, some, List, [], ◌∷◌, ◌++◌, ok, panic,
  fault, Cmd, pure, raise, ltb, ◌==◌, if◌then◌else◌, take, ℤ, is_negative,
}
use janet_sdbus.Signature.{Bytes, SignatureError}
use janet_sdbus.Platform.{Platform, JanetType, Call, AbstractValue, file, stream, other}

module _ ⦃w : Platform⦄ where
  open w use {
    Janet, Double, Message, checktype, unwrap_boolean, unwrap_number, getcbytes, checkint16,
    checkuint16, checkint, checkuint, unwrap_s64, unwrap_u64, unwrap_tuple, unwrap_abstract,
    bytes_view, indexed_view, dictionary_view, double_le, double_eq, of_nat, to_uint8, to_int16,
    to_uint16, to_int32, to_uint32, perform,
  }

  abbrev pub Run : Type 0 → Type 0
  Run A = Cmd (Panic Janet Double) (State Message) A

  -- `if (test) janet_panicf(...);`
  abbrev pub panic_when : Bool → Panic Janet Double → Run (Unit {0})
  panic_when test e = if test then raise e else pure tt

  unfoldable pub type_error :
      {A : Type 0} → String → Janet → ErrorContext → Option Bytes → Option Bytes → Run A
  type_error janet_type x ctx none child = raise (bad_argument_untyped ctx.argc janet_type x)
  type_error janet_type x ctx (some sigbuf) none = raise (bad_argument ctx.argc sigbuf janet_type x)
  type_error janet_type x ctx (some sigbuf) (some childbuf) =
      if ltb 1 ctx.depth
      then raise (bad_argument_within ctx.argc childbuf sigbuf janet_type x)
      else raise (bad_argument ctx.argc sigbuf janet_type x)

  -- The child's text is read only below the first level.
  unfoldable pub dbus_type_error : {A : Type 0} → String → Janet → Run A
  unfolding format_errctx type_error
  dbus_type_error janet_type x s =
      let ctx = s.errctx in
      let sigbuf = format_errctx ctx.sig_first ctx.len_first in
      let childbuf = format_errctx ctx.sig_child ctx.len_child in
      if is_dangling ctx.sig_first ctx.len_first s.freed
      then fault
      else if ltb 1 ctx.depth && is_dangling ctx.sig_child ctx.len_child s.freed
      then fault
      else type_error janet_type x ctx sigbuf childbuf s

  unfoldable pub getboolean : Janet → Run Bool
  unfolding dbus_type_error
  getboolean x =
      if not (checktype x JanetType.boolean)
      then dbus_type_error "boolean" x
      else pure (unwrap_boolean x)

  unfoldable pub getnumber : Janet → Run Double
  unfolding dbus_type_error
  getnumber x =
      if not (checktype x JanetType.number)
      then dbus_type_error "number" x
      else pure (unwrap_number x)

  unfoldable pub cbytes : Janet → Option Bytes → Run Bytes
  cbytes x none = raise (embedded_nul x)
  cbytes x (some bytes) = pure bytes

  unfoldable pub getcstring : Janet → Run Bytes
  unfolding dbus_type_error cbytes
  getcstring x =
      if not (checktype x JanetType.string)
      then dbus_type_error "string" x
      else cbytes x (getcbytes x)

  unfoldable pub checkuint8 : Janet → Bool
  checkuint8 x =
      let n = unwrap_number x in
      if not (checktype x JanetType.number)
      then false
      else double_le (of_nat 0) n && double_le n (of_nat 255) && double_eq n (of_nat (to_uint8 n))

  unfoldable pub getuinteger8 : Janet → Run ℕ
  unfolding dbus_type_error checkuint8
  getuinteger8 x =
      if not (checkuint8 x)
      then dbus_type_error "8 bit unsigned integer" x
      else pure (to_uint8 (unwrap_number x))

  unfoldable pub getinteger16 : Janet → Run ℤ
  unfolding dbus_type_error
  getinteger16 x =
      if not (checkint16 x)
      then dbus_type_error "16 bit signed integer" x
      else pure (to_int16 (unwrap_number x))

  unfoldable pub getuinteger16 : Janet → Run ℕ
  unfolding dbus_type_error
  getuinteger16 x =
      if not (checkuint16 x)
      then dbus_type_error "16 bit unsigned integer" x
      else pure (to_uint16 (unwrap_number x))

  unfoldable pub getinteger : Janet → Run ℤ
  unfolding dbus_type_error
  getinteger x =
      if not (checkint x)
      then dbus_type_error "32 bit signed integer" x
      else pure (to_int32 (unwrap_number x))

  unfoldable pub getuinteger : Janet → Run ℕ
  unfolding dbus_type_error
  getuinteger x =
      if not (checkuint x)
      then dbus_type_error "32 bit unsigned integer" x
      else pure (to_uint32 (unwrap_number x))

  -- The two 64 bit conversions of a Janet that is built with JANET_INT_TYPES.
  unfoldable pub getinteger64 : Janet → Run ℤ
  getinteger64 x = elim (unwrap_s64 x) [ none ↦ raise (not_s64 x) | some k ↦ pure k ]

  unfoldable pub getuinteger64 : Janet → Run ℕ
  getuinteger64 x = elim (unwrap_u64 x) [ none ↦ raise (not_u64 x) | some k ↦ pure k ]

  unfoldable pub gettuple : Janet → Run (List Janet)
  unfolding dbus_type_error
  gettuple x =
      if not (checktype x JanetType.tuple) then dbus_type_error "tuple" x else pure (unwrap_tuple x)

  unfoldable pub view : {A : Type 0} → String → Janet → Option A → Run A
  unfolding dbus_type_error
  view janet_type x none = dbus_type_error janet_type x
  view janet_type x (some items) = pure items

  unfoldable pub getbytes : Janet → Run Bytes
  unfolding view
  getbytes x = view "bytes" x (bytes_view x)

  unfoldable pub getindexed : Janet → Run (List Janet)
  unfolding view
  getindexed x = view "indexed" x (indexed_view x)

  unfoldable pub getdictionary : Janet → Run (List (Janet × Janet))
  unfolding view
  getdictionary x = view "dictionary" x (dictionary_view x)

  unfoldable pub descriptor : Janet → AbstractValue → Run ℤ
  unfolding dbus_type_error
  descriptor x (file closed fd) = if closed then raise file_closed else pure fd
  descriptor x (stream closed fd) = if closed then raise stream_closed else pure fd
  descriptor x other = dbus_type_error ":core/file or :core/stream" x

  unfoldable pub getfd : Janet → Run ℤ
  unfolding dbus_type_error descriptor
  getfd x =
      if not (checktype x JanetType.abstract)
      then dbus_type_error ":core/file or :core/stream" x
      else descriptor x (unwrap_abstract x)

  -- CALL_SD_BUS_FUNC on a call that writes to the message: `check_sd_bus_return` of src/main.c.
  unfoldable pub call_sd_bus : Call Double → Run (Unit {0})
  call_sd_bus c s =
      let (rv, msg') = perform c s.msg in
      if is_negative rv
      then panic (sd_bus_failed c rv) (record s { msg = msg' })
      else ok tt (record s { msg = msg' })
