-- ===== src/Reader.antt =====
-- The reader of src/message.c: `read_complete_type` and the functions for each D-Bus type below it, and
-- the body of `sdbus/message-read`. Like the writer's, the functions take `read_complete_type` as an
-- argument, and it recurses on fuel: one unit for each level of nesting and for each turn of a loop.
pub mod Library
unfoldable pub use Library.*
pub mod Wires
pub mod Cursor
pub mod Basics
pub mod Items
pub mod Complete
pub mod Whole
use Prim.Native.String.{String}
use janet_sdbus.Base.{
  ℕ, zero, suc, Bool, true, false, not, ◌&&◌, Option, none, some, List, [], ◌∷◌, Outcome, ok, panic,
  out_of_fuel, Cmd, pure, raise, no_fuel, ◌>>=◌, ◌>>◌, ◌==◌, if◌then◌else◌, ℤ, pos, negsuc,
  is_negative, is_zero,
}
use janet_sdbus.Signature.{Bytes, deref, is_basic_type}

module _ ⦃r : ReadLibrary⦄ where
  open r use {
    Janet, Message, Value, peek_type, enter_container, exit_container, read_basic, rewind, wrap,
    wrap_nil, wrap_string, wrap_tuple, wrap_array, wrap_table, descriptor, dup_cloexec, access_mode,
    socket_type, wrap_stream,
  }

  abbrev pub Reading : Type 0 → Type 0
  Reading A = Cmd ReadError Message A

  -- CALL_SD_BUS_FUNC on a call that moves in the message.
  abbrev pub moved : String → ℤ × Message → Outcome ReadError Message (Unit {0})
  moved name (rv, msg) = if is_negative rv then panic (sd_bus_failed name rv) msg else ok tt msg

  unfoldable pub enter : ℕ → Bytes → Reading (Unit {0})
  enter type contents msg =
      moved "sd_bus_message_enter_container" (enter_container type contents msg)

  unfoldable pub exit : Reading (Unit {0})
  exit msg = moved "sd_bus_message_exit_container" (exit_container msg)

  -- MESSAGE_PEEK: whether something is left, and then its type and its contents.
  abbrev pub peeked : Message → ℤ × (ℕ × Bytes) → Outcome ReadError Message (Bool × (ℕ × Bytes))
  peeked msg (rv, next) =
      if is_negative rv
      then panic (sd_bus_failed "sd_bus_message_peek_type" rv) msg
      else ok (not (is_zero rv), next) msg

  unfoldable pub message_peek : Reading (Bool × (ℕ × Bytes))
  message_peek msg = peeked msg (peek_type msg)

  abbrev pub stored : ℤ × (Value × Message) → Outcome ReadError Message Value
  stored (rv, (x, msg)) =
      if is_negative rv then panic (sd_bus_failed "sd_bus_message_read_basic" rv) msg else ok x msg

  unfoldable pub read_value : ℕ → CType → Reading Value
  read_value type c msg = stored (read_basic type c msg)

  -- DBUS_TO_JANET_NUM and DBUS_TO_JANET_STR
  unfoldable pub dbus_to_janet : Wrapper → CType → ℕ → Reading Janet
  unfolding read_value
  dbus_to_janet wrapper c type = do x ← read_value type c; pure (wrap wrapper x)

  abbrev pub or_panic : {A : Type 0} → ReadError → Option A → Reading A
  or_panic e none = raise e
  or_panic e (some a) = pure a

  unfoldable pub read_fd_type : Reading Janet
  unfolding read_value
  read_fd_type = do
    x ← read_value b'h' c_int
    let fd = descriptor x
    copy ← or_panic (dup_failed fd) (dup_cloexec fd)
    mode ← or_panic (getfl_failed copy) (access_mode copy)
    pure (wrap_stream copy (stream_flags mode (socket_type copy)))

  unfoldable pub read_basic_type : ℕ → Reading Janet
  unfolding dbus_to_janet read_fd_type
  read_basic_type type =
      if type == b'b'
      then dbus_to_janet wrap_boolean c_int b'b'
      else if type == b'y'
      then dbus_to_janet wrap_number c_uint8 b'y'
      else if type == b'n'
      then dbus_to_janet wrap_number c_int16 b'n'
      else if type == b'q'
      then dbus_to_janet wrap_number c_uint16 b'q'
      else if type == b'i'
      then dbus_to_janet wrap_number c_int32 b'i'
      else if type == b'u'
      then dbus_to_janet wrap_number c_uint32 b'u'
      else if type == b'x'
      then dbus_to_janet wrap_s64 c_int64 b'x'
      else if type == b't'
      then dbus_to_janet wrap_u64 c_uint64 b't'
      else if type == b'd'
      then dbus_to_janet wrap_number c_double b'd'
      else if type == b's'
      then dbus_to_janet cstringv c_string b's'
      else if type == b'o'
      then dbus_to_janet cstringv c_string b'o'
      else if type == b'g'
      then dbus_to_janet cstringv c_string b'g'
      else if type == b'h'
      then read_fd_type
      else raise (unsupported_basic_type type)

  -- `none` is the result 0, the end of the container or of the message.
  abbrev pub Reader : Type 0
  Reader = Reading (Option Janet)

  unfoldable pub read_variant_type : Reader → Bytes → Reading Janet
  unfolding enter exit
  read_variant_type complete signature = do
    enter b'v' signature
    read ← complete
    obj ← or_panic end_of_variant read
    exit
    pure (wrap_tuple (wrap_string signature ∷ obj ∷ []))

  abbrev pub push_rest : Reading (List Janet) → Option Janet → Reading (List Janet)
  push_rest rest none = pure []
  push_rest rest (some item) = do items ← rest; pure (item ∷ items)

  -- `while (read_complete_type(msg, &obj) > 0) janet_array_push(array, obj);`
  unfoldable pub read_items : ℕ → Reader → Reading (List Janet)
  read_items zero complete = no_fuel
  read_items (suc fuel) complete = do read ← complete; push_rest (read_items fuel complete) read

  unfoldable pub read_struct_type : ℕ → Reader → Bytes → Reading Janet
  unfolding enter exit read_items
  read_struct_type fuel complete signature = do
    enter b'r' signature
    items ← read_items fuel complete
    exit
    pure (wrap_tuple items)

  unfoldable pub read_array_type : ℕ → Reader → Bytes → Reading Janet
  unfolding enter exit read_items
  read_array_type fuel complete signature = do
    enter b'a' signature
    items ← read_items fuel complete
    exit
    pure (wrap_array items)

  -- One turn of the loop over a dictionary.
  unfoldable pub read_entry : Reader → Bytes → Reading (Janet × Janet)
  unfolding enter exit read_basic_type
  read_entry complete dict_sig = do
    enter b'e' dict_sig
    key ← read_basic_type (deref dict_sig)
    read ← complete
    value ← or_panic end_of_dictionary read
    exit
    pure (key, value)

  unfoldable pub read_entries : ℕ → Reader → Reading (List (Janet × Janet))
  unfolding message_peek read_entry
  read_entries zero complete = no_fuel
  read_entries (suc fuel) complete = do
    (left, (type, dict_sig)) ← message_peek
    let rest = read_entries fuel complete
    (if left then (do kv ← read_entry complete dict_sig; kvs ← rest; pure (kv ∷ kvs)) else pure [])

  unfoldable pub read_dict_type : ℕ → Reader → Bytes → Reading Janet
  unfolding enter exit read_entries
  read_dict_type fuel complete signature = do
    enter b'a' signature
    kvs ← read_entries fuel complete
    exit
    pure (wrap_table kvs)

  -- The dispatch of `read_complete_type`; 'r' is SD_BUS_TYPE_STRUCT.
  unfoldable pub read_by_type : ℕ → Reader → ℕ → Bytes → Reading Janet
  unfolding read_basic_type read_variant_type read_struct_type read_dict_type read_array_type
      is_basic_type
  read_by_type fuel complete type signature =
      if is_basic_type type
      then read_basic_type type
      else if type == b'v'
      then read_variant_type complete signature
      else if type == b'r'
      then read_struct_type fuel complete signature
      else if (type == b'a') && (deref signature == b'{')
      then read_dict_type fuel complete signature
      else if type == b'a'
      then read_array_type fuel complete signature
      else raise (unsupported_message_type type)

  unfoldable pub read_complete_type : ℕ → Reader
  unfolding message_peek read_by_type
  read_complete_type zero = no_fuel
  read_complete_type (suc fuel) = do
    (left, (type, signature)) ← message_peek
    let complete = read_complete_type fuel
    (if left
        then (do obj ← read_by_type fuel complete type signature; pure (some obj))
        else pure none)

  -- The argument `what` of `sdbus/message-read`; no argument is `count (pos 1)`.
  pub data What : Type 0 where
    keyword : Bytes → What
    count : ℤ → What

  -- `sd_bus_message_rewind(*msg_ptr, true)`
  unfoldable pub message_rewind : Reading (Unit {0})
  message_rewind msg = moved "sd_bus_message_rewind" (rewind msg)

  -- Up to `n` items.
  unfoldable pub read_up_to : ℕ → Reader → Reading (List Janet)
  read_up_to zero complete = pure []
  read_up_to (suc n) complete = do read ← complete; push_rest (read_up_to n complete) read

  -- `(array->count < 2) ? janet_array_pop(array) : janet_wrap_array(array)`
  abbrev pub popped : List Janet → Janet
  popped [] = wrap_nil
  popped (item ∷ []) = item
  popped (item ∷ item' ∷ items) = wrap_array (item ∷ item' ∷ items)

  abbrev pub is_word : Bytes → Bytes → Bool
  is_word [] [] = true
  is_word (c ∷ cs) (k ∷ ks) = (c == k) && is_word cs ks
  is_word _ _ = false

  abbrev pub all : Bytes
  all = b'a' ∷ b'l' ∷ b'l' ∷ []

  abbrev pub rest : Bytes
  rest = b'r' ∷ b'e' ∷ b's' ∷ b't' ∷ []

  unfoldable pub message_read : ℕ → What → Reading Janet
  unfolding message_rewind read_items read_up_to read_complete_type
  message_read fuel (keyword sym) = do
    (if is_word sym all
        then message_rewind
        else if is_word sym rest
        then pure tt
        else raise (invalid_keyword sym))
    array ← read_items fuel (read_complete_type fuel)
    pure (popped array)
  message_read fuel (count (negsuc n)) = raise expected_positive
  message_read fuel (count (pos n)) = do
    array ← read_up_to n (read_complete_type fuel)
    pure (popped array)
