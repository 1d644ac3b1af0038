-- ===== src/Unwrap/Context.antt =====
-- The error context of src/unwrap.c, its panics, and the state that the conversions run on.
use Prim.Native.String.{String}
use janet_sdbus.Base.{
  ℕ, ◌+◌, ◌-◌, Bool, false, not, ◌&&◌, ◌||◌, Option, none, some, List, [], ◌∷◌, ◌++◌, ok, Cmd, ltb,
  ◌==◌, if◌then◌else◌, take, ℤ,
}
use janet_sdbus.Signature.{Bytes, SignatureError}
use janet_sdbus.Platform.{Call}

-- A `char *` into the block `owner`: the caller's signature is block 0, and blocks of
-- `janet_scalloc` are numbered from 1.
pub record Pointer : Type 0 where
  pub owner : ℕ
  pub text : Bytes

-- `ErrorContext`, with the two elements of each array as two fields; `none` is NULL.
pub record ErrorContext : Type 0 where
  pub sig_first : Option Pointer
  pub sig_child : Option Pointer
  pub len_first : ℕ
  pub len_child : ℕ
  pub depth : ℕ
  pub argc : ℕ

pub record State (Message : Type 0) : Type 0 where
  pub msg : Message
  pub errctx : ErrorContext
  -- the number of the last block that `janet_scalloc` gave, and the blocks freed since
  pub allocated : ℕ
  pub freed : List ℕ

-- The panics of the append path, one constructor for each format string, with its arguments.
pub data Panic (Janet Double : Type 0) : Type 0 where
  sd_bus_failed : Call Double → ℤ → Panic Janet Double
  bad_signature : SignatureError → Panic Janet Double
  bad_argument_untyped : (argc : ℕ) → String → Janet → Panic Janet Double
  bad_argument_within : (argc : ℕ) → (child sig : Bytes) → String → Janet → Panic Janet Double
  bad_argument : (argc : ℕ) → (sig : Bytes) → String → Janet → Panic Janet Double
  embedded_nul : Janet → Panic Janet Double
  not_s64 : Janet → Panic Janet Double
  not_u64 : Janet → Panic Janet Double
  file_closed : Panic Janet Double
  stream_closed : Panic Janet Double
  excessive_arguments : Bytes → Panic Janet Double
  arguments_missing : Bytes → Panic Janet Double
  incomplete_dictionary : Bytes → Panic Janet Double
  dictionary_key : Bytes → Panic Janet Double
  missing_struct_contents : Bytes → Panic Janet Double
  empty_struct : Panic Janet Double
  excessive_struct_arguments : Bytes → Panic Janet Double
  struct_arguments_missing : Bytes → Panic Janet Double
  variant_arity : Panic Janet Double
  variant_signature : Janet → Panic Janet Double

abbrev pub no_context : ErrorContext
no_context = record {
  sig_first = none;
  sig_child = none;
  len_first = 0;
  len_child = 0;
  depth = 0;
  argc = 0;
}

module _ {E M : Type 0} where
  unfoldable pub dbus_errctx_reset : Cmd E (State M) (Unit {0})
  dbus_errctx_reset s = ok tt (record s { errctx = no_context })

  unfoldable pub dbus_errctx_inc : Cmd E (State M) (Unit {0})
  dbus_errctx_inc s = ok tt (record s { errctx = record (s.errctx) { argc = s.errctx.argc + 1 } })

  -- `idx = ++depth > 1` selects the element that is set.
  unfoldable pub dbus_errctx_set : Pointer → ℕ → Cmd E (State M) (Unit {0})
  dbus_errctx_set sig len s =
      let deeper = s.errctx.depth + 1 in
      if ltb 1 deeper
      then ok tt (record s {
        errctx = record (s.errctx) { sig_child = some sig; len_child = len; depth = deeper };
      })
      else ok tt (record s {
        errctx = record (s.errctx) { sig_first = some sig; len_first = len; depth = deeper };
      })

  unfoldable pub dbus_errctx_exit : Cmd E (State M) (Unit {0})
  dbus_errctx_exit s =
      if ltb 0 s.errctx.depth
      then ok tt (record s { errctx = record (s.errctx) { depth = s.errctx.depth - 1 } })
      else ok tt s

abbrev pub errctx_max_sig_len : ℕ
errctx_max_sig_len = 16

-- What `format_errctx` leaves in the buffer; `none` is NULL.
unfoldable pub format_errctx : Option Pointer → ℕ → Option Bytes
format_errctx none len = none
format_errctx (some sig) len =
    let room = errctx_max_sig_len - 4 in
    let n = if ltb room len then room else len in
    let dots : Bytes = b'.' ∷ b'.' ∷ b'.' ∷ [] in
    if len == 0 then none else some (take n sig.text ++ (if ltb n len then dots else []))

abbrev pub is_freed : ℕ → List ℕ → Bool
is_freed owner [] = false
is_freed owner (block ∷ blocks) = (owner == block) || is_freed owner blocks

-- `memcpy` from a block that has been freed is undefined.
abbrev pub is_dangling : Option Pointer → ℕ → List ℕ → Bool
is_dangling none len freed = false
is_dangling (some sig) len freed = not (len == 0) && is_freed sig.owner freed
