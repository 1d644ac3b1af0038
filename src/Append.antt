-- ===== src/Append.antt =====
-- The writer of src/message.c: `append_data` and the functions for each D-Bus type below it, the
-- body of `sdbus/message-append`. A `Parser` is a cursor into the signature. The C functions are
-- mutually recursive through `append_complete_type`; here each takes that function as an argument,
-- and `append_complete_type` ties the knot with one unit of fuel for each level of nesting.
pub mod Encoding
pub mod Sending
pub mod Returning
pub mod Typed
pub mod Exact
pub mod Ending
pub mod Finishing
pub mod Fuel
pub mod Numbers
pub mod Basics
pub mod Containers
pub mod Refines
pub mod Arguments
use janet_sdbus.Base.{
  ℕ, zero, suc, ◌+◌, ◌-◌, not, ◌||◌, List, [], ◌∷◌, ok, Cmd, pure, raise, no_fuel, ◌>>=◌, ◌>>◌, ltb,
  ◌==◌, if◌then◌else◌, take, drop, length,
}
use janet_sdbus.Signature.{
  Bytes, deref, Scan, found, failed, unsupported_argument, is_basic_type, match, find_subtype,
  span_next_type,
}
use janet_sdbus.Platform.{
  Platform, JanetType, Datum, open_container, close_container, append, append_basic, append_array,
}
use janet_sdbus.Unwrap.{
  State, dbus_errctx_reset, dbus_errctx_inc, dbus_errctx_set, dbus_errctx_exit, Run, getboolean,
  getnumber, getcstring, getuinteger8, getinteger16, getuinteger16, getinteger, getuinteger,
  getinteger64, getuinteger64, gettuple, getbytes, getindexed, getdictionary, getfd, cbytes,
  panic_when, call_sd_bus, bad_signature, excessive_arguments, arguments_missing,
  incomplete_dictionary, dictionary_key, missing_struct_contents, empty_struct,
  excessive_struct_arguments, struct_arguments_missing, variant_arity, variant_signature,
}

-- `owner` is the block that the cursor points into.
pub record Parser : Type 0 where
  pub owner : ℕ
  pub cursor : Bytes

abbrev pub parser : ℕ → Bytes → Parser
parser owner cursor = record { owner = owner; cursor = cursor }

abbrev pub cursor_char : Parser → ℕ
cursor_char p = deref p.cursor

abbrev pub skip : Parser → ℕ → Parser
skip p n = record p { cursor = drop n p.cursor }

abbrev pub next : Parser → Parser
next p = skip p 1

abbrev pub peek : Parser → ℕ
peek p = deref (drop 1 p.cursor)

module _ {E M : Type 0} where
  -- `janet_scalloc` and `janet_sfree`, as far as the ownership of the blocks goes.
  unfoldable pub scalloc : Cmd E (State M) ℕ
  scalloc s = ok (s.allocated + 1) (record s { allocated = s.allocated + 1 })

  unfoldable pub sfree : ℕ → Cmd E (State M) (Unit {0})
  sfree block s = ok tt (record s { freed = block ∷ s.freed })

module _ ⦃w : Platform⦄ where
  open w use {Janet, Double, checktype, getcbytes}

  unfoldable pub scanned : Scan ℕ → Run ℕ
  scanned (found n) = pure n
  scanned (failed e) = raise (bad_signature e)

  unfoldable pub append_basic_type : Parser → Janet → Run (Unit {0})
  unfolding getboolean getnumber getcstring getuinteger8 getinteger16 getuinteger16 getinteger
      getuinteger getinteger64 getuinteger64 getfd call_sd_bus
  append_basic_type p arg =
      let ch = cursor_char p in
      if ch == b'y'
      then (do v ← getuinteger8 arg; call_sd_bus (append (Datum.y v)))
      else if ch == b'b'
      then (do v ← getboolean arg; call_sd_bus (append (Datum.b v)))
      else if ch == b'n'
      then (do v ← getinteger16 arg; call_sd_bus (append (Datum.n v)))
      else if ch == b'q'
      then (do v ← getuinteger16 arg; call_sd_bus (append (Datum.q v)))
      else if ch == b'i'
      then (do v ← getinteger arg; call_sd_bus (append (Datum.i v)))
      else if ch == b'u'
      then (do v ← getuinteger arg; call_sd_bus (append (Datum.u v)))
      else if ch == b'x'
      then (do v ← getinteger64 arg; call_sd_bus (append (Datum.x v)))
      else if ch == b't'
      then (do v ← getuinteger64 arg; call_sd_bus (append (Datum.t v)))
      else if ch == b'd'
      then (do v ← getnumber arg; call_sd_bus (append (Datum.d v)))
      else if (ch == b's') || (ch == b'o') || (ch == b'g')
      then (do v ← getcstring arg; call_sd_bus (append_basic ch v))
      else if ch == b'h'
      then (do v ← getfd arg; call_sd_bus (append (Datum.h v)))
      else pure tt

  abbrev pub Complete : Type 0
  Complete = Parser → Janet → Run Parser

  -- The loop over the members of a struct.
  unfoldable pub append_members : Complete → Bytes → Parser → List Janet → Run Parser
  append_members complete struct_sig p [] = pure p
  append_members complete struct_sig p (item ∷ items) =
      if cursor_char p == 0
      then raise (excessive_struct_arguments struct_sig)
      else do p' ← complete p item; append_members complete struct_sig (next p') items

  unfoldable pub append_struct_type : Complete → Complete
  unfolding append_members scanned scalloc sfree getindexed call_sd_bus
  append_struct_type complete p arg = do
    end ← scanned (match p.cursor b'(' b')')
    panic_when (ltb end 2) (missing_struct_contents p.cursor)
    block ← scalloc
    let struct_sig = take (end - 1) (drop 1 p.cursor)
    let p' = skip p end
    call_sd_bus (open_container b'r' struct_sig)
    array ← getindexed arg
    panic_when (length array == 0) empty_struct
    last ← append_members complete struct_sig (parser block struct_sig) array
    panic_when (not (cursor_char last == 0)) (struct_arguments_missing struct_sig)
    call_sd_bus close_container
    sfree block
    pure p'

  -- The loop over the elements: each starts at the beginning of the element's signature.
  unfoldable pub append_elements : Complete → Parser → List Janet → Run (Unit {0})
  append_elements complete p [] = pure tt
  append_elements complete p (item ∷ items) = do
    _ ← complete p item
    append_elements complete p items

  unfoldable pub append_entries : Complete → Parser → List (Janet × Janet) → Run (Unit {0})
  unfolding append_basic_type call_sd_bus
  append_entries complete p [] = pure tt
  append_entries complete p ((key, value) ∷ kvs) = do
    call_sd_bus (open_container b'e' p.cursor)
    append_basic_type p key
    _ ← complete (next p) value
    call_sd_bus close_container
    append_entries complete p kvs

  -- The cursor is at the opening brace.
  unfoldable pub append_dict_type : Complete → Complete
  unfolding append_entries scanned scalloc sfree getdictionary call_sd_bus
  append_dict_type complete p arg = do
    end ← scanned (match p.cursor b'{' b'}')
    panic_when (ltb end 3) (incomplete_dictionary p.cursor)
    block ← scalloc
    let dict_sig = take (end + 1) p.cursor
    let p' = skip p end
    panic_when (not (is_basic_type (deref (drop 1 dict_sig)))) (dictionary_key dict_sig)
    call_sd_bus (open_container b'a' dict_sig)
    let entry_sig = take (end - 1) (drop 1 dict_sig)
    dict ← getdictionary arg
    append_entries complete (parser block entry_sig) dict
    call_sd_bus close_container
    sfree block
    pure p'

  unfoldable pub append_plain_array : Complete → Complete
  unfolding append_elements scanned scalloc sfree getindexed call_sd_bus
  append_plain_array complete p arg = do
    end ← scanned (find_subtype p.cursor)
    block ← scalloc
    let array_sig = take end (drop 1 p.cursor)
    let p' = skip p end
    call_sd_bus (open_container b'a' array_sig)
    array ← getindexed arg
    append_elements complete (parser block array_sig) array
    call_sd_bus close_container
    sfree block
    pure p'

  -- Dictionaries, byte arrays, and all other arrays.
  unfoldable pub append_array_type : Complete → Complete
  unfolding append_dict_type append_plain_array getbytes call_sd_bus
  append_array_type complete p arg =
      if peek p == b'{'
      then append_dict_type complete (next p) arg
      else if peek p == b'y'
      then (do view ← getbytes arg; call_sd_bus (append_array b'y' view); pure (next p))
      else append_plain_array complete p arg

  -- A tuple of any other length than 2 is refused.
  unfoldable pub append_variant_pair : Complete → List Janet → Run (Unit {0})
  unfolding cbytes call_sd_bus
  append_variant_pair complete (sig ∷ value ∷ []) = do
    panic_when (not (checktype sig JanetType.string)) (variant_signature sig)
    variant_sig ← cbytes sig (getcbytes sig)
    call_sd_bus (open_container b'v' variant_sig)
    _ ← complete (parser 0 variant_sig) value
    call_sd_bus close_container
  append_variant_pair complete _ = raise variant_arity

  unfoldable pub append_variant_type : Complete → Complete
  unfolding append_variant_pair gettuple
  append_variant_type complete p arg = do
    tuple ← gettuple arg
    append_variant_pair complete tuple
    pure p

  -- The dispatch of `append_complete_type`.
  unfoldable pub append_by_code : Complete → Complete
  unfolding append_basic_type append_variant_type append_struct_type append_array_type is_basic_type
  append_by_code complete p arg =
      let ch = cursor_char p in
      if is_basic_type ch
      then (do append_basic_type p arg; pure p)
      else if ch == b'v'
      then append_variant_type complete p arg
      else if ch == b'('
      then append_struct_type complete p arg
      else if ch == b'a'
      then append_array_type complete p arg
      else raise (bad_signature (unsupported_argument ch))

  unfoldable pub append_complete_type : ℕ → Complete
  unfolding append_by_code scanned span_next_type
  append_complete_type zero p arg = no_fuel
  append_complete_type (suc f) p arg = do
    len ← scanned (span_next_type p.cursor)
    dbus_errctx_set (record { owner = p.owner; text = p.cursor }) len
    p' ← append_by_code (append_complete_type f) p arg
    dbus_errctx_exit
    pure p'

  -- The loop of `append_data`.
  unfoldable pub append_arguments : ℕ → Bytes → Parser → List Janet → Run Parser
  unfolding append_complete_type
  append_arguments f signature p [] = pure p
  append_arguments f signature p (arg ∷ args) =
      if cursor_char p == 0 then raise (excessive_arguments signature) else do
        dbus_errctx_inc
        p' ← append_complete_type f p arg
        append_arguments f signature (next p') args

  unfoldable pub append_data : ℕ → Bytes → List Janet → Run (Unit {0})
  unfolding append_arguments
  append_data f signature args = do
    dbus_errctx_reset
    last ← append_arguments f signature (parser 0 signature) args
    panic_when (not (cursor_char last == 0)) (arguments_missing signature)
