-- ===== src/Export.antt =====
-- The vtable of an exported interface in src/export.c: the flags of a member, its entry, and the
-- array that `create_vtable` hands to sd-bus. `uint64_t mask` is the set of its flags: sd-bus gives
-- each flag a bit of its own.
pub mod Flags
pub mod Described
pub mod Vtable
pub mod Giving
pub mod Checked
pub mod Handlers
pub mod Handling
pub mod Registration
use janet_sdbus.Base.{
  ℕ, zero, suc, ◌-◌, Bool, false, not, ◌&&◌, ◌||◌, Option, none, some, List, [], ◌∷◌, ok, stuck,
  Cmd, fault, pure, raise, leb, ◌==◌, if◌then◌else◌, ◌>>=◌, ◌>>◌, ℤ,
}
use janet_sdbus.Signature.{Bytes}
use janet_sdbus.Platform.{JanetType}

-- The flags of sd-bus-vtable.h that the source sets.
pub data Flag : Type 0 where
  deprecated hidden sensitive no_reply const emits_change emits_invalidation explicit : Flag

abbrev pub rank : Flag → ℕ
rank deprecated = 0
rank hidden = 1
rank sensitive = 2
rank no_reply = 3
rank const = 4
rank emits_change = 5
rank emits_invalidation = 6
rank explicit = 7

abbrev pub Mask : Type 0
Mask = Flag → Bool

abbrev pub no_flags : Mask
no_flags f = false

-- `mask |= g`
abbrev pub with_flag : Flag → Mask → Mask
with_flag g mask f = mask f || (rank f == rank g)

-- The fields of a member that the source asks for, by their keywords.
pub data Key : Type 0 where
  type sig_in sig_out function flags sig writable getter setter : Key

pub data ExportError : Type 0 where
  missing_field : Key → ExportError
  unknown_flag : ℕ → ExportError
  expected_function : Bytes → ExportError
  too_many_members : ℕ → ExportError
  invalid_member_name : Bytes → ExportError
  unknown_member_type : Bytes → ExportError
  emit_failed : ℤ → ExportError
  invalid_object_path : Bytes → ExportError
  invalid_interface_name : Bytes → ExportError
  no_members : Bytes → ExportError
  failed_to_register : ℤ → ExportError

pub data Setter : Type 0 where
  property_setter property_setter_with_signal : Setter

-- An element of the vtable; `unset` is one that has not been written. The handler of a method and
-- the getter of a property are always `method_handler` and `property_getter`.
pub data Entry : Type 0 where
  unset start finish : Entry
  method : (name sig_in sig_out : Bytes) → Mask → Entry
  property : (name sig : Bytes) → Mask → Entry
  writable_property : (name sig : Bytes) → Setter → Mask → Entry
  signal : (name sig : Bytes) → Mask → Entry

-- The types of members that `create_vtable` tests for.
pub data MemberType : Type 0 where
  method_type property_type signal_type : MemberType

-- What the source takes from janet.h and sd-bus.h here.
pub record Members : Type 1 where
  pub Janet : Type 0
  -- `janet_dictionary_view` and then `janet_dictionary_get` of a keyword; `none` where the value is
  -- no dictionary, and the view is left uninitialised.
  pub fields : Janet → Option (Key → Janet)
  pub checktype : Janet → JanetType → Bool
  -- whether the value is a string, a symbol or a keyword; of any other value, the two functions below
  -- make a pointer that does not point to a text
  pub is_text : Janet → Bool
  pub unwrap_string : Janet → Bytes
  pub unwrap_keyword : Janet → Bytes
  pub unwrap_boolean : Janet → Bool
  pub symeq : Janet → MemberType → Bool
  pub member_name_is_valid : Bytes → Bool

-- The state is the array `vtable` on the stack.
abbrev pub Building : Type 0 → Type 0
Building A = Cmd ExportError (List Entry) A

-- One turn of the loop.
unfoldable pub add_flag : ℕ → Mask → Building Mask
add_flag ch mask =
    if ch == b'd'
    then pure (with_flag deprecated mask)
    else if ch == b'h'
    then pure (with_flag hidden mask)
    else if ch == b's'
    then pure (with_flag sensitive mask)
    else if ch == b'n'
    then pure (with_flag no_reply mask)
    else if ch == b'r'
    then pure (with_flag const mask)
    else if ch == b'e'
    then pure (with_flag emits_change mask)
    else if ch == b'i'
    then pure (with_flag emits_invalidation mask)
    else if ch == b'x'
    then pure (with_flag explicit mask)
    else if ch == b'w'
    then pure mask
    else raise (unknown_flag ch)

unfoldable pub add_flags : Bytes → Mask → Building Mask
unfolding add_flag
add_flags [] mask = pure mask
add_flags (ch ∷ keys) mask = do mask' ← add_flag ch mask; add_flags keys mask'

unfoldable pub sd_bus_flags : Bytes → Building Mask
unfolding add_flags
sd_bus_flags keys = add_flags keys no_flags

abbrev pub put : ℕ → Entry → List Entry → Option (List Entry)
put i e [] = none
put zero e (x ∷ xs) = some (e ∷ xs)
put (suc i) e (x ∷ xs) = elim (put i e xs) [ none ↦ none | some ys ↦ some (x ∷ ys) ]

-- `vtable[i] = e;` outside the array is undefined.
abbrev pub stored : Option (List Entry) → Building (Unit {0})
stored none s = fault
stored (some vtable) s = ok tt vtable

unfoldable pub store : ℕ → Entry → Building (Unit {0})
store i e vtable = stored (put i e vtable) vtable

abbrev pub unset_entries : ℕ → List Entry
unset_entries zero = []
unset_entries (suc n) = unset ∷ unset_entries n

abbrev pub panic_if : Bool → ExportError → Building (Unit {0})
panic_if test e = if test then raise e else pure tt

module _ ⦃w : Members⦄ where
  open w use {
    Janet, fields, checktype, is_text, unwrap_string, unwrap_keyword, unwrap_boolean, symeq,
    member_name_is_valid,
  }

  module _ {S : Type 0} where
    -- A value that is nil counts as missing.
    abbrev pub required : Key → Janet → Cmd ExportError S Janet
    required key value =
        if checktype value JanetType.nil then raise (missing_field key) else pure value

    abbrev pub field_of : Key → Option (Key → Janet) → Cmd ExportError S Janet
    field_of key none = stuck
    field_of key (some get) = required key (get key)

    unfoldable pub dict_symget : Janet → Key → Cmd ExportError S Janet
    dict_symget dict key = field_of key (fields dict)

  module _ {S : Type 0} where
    -- Code that reads the text of the value.
    abbrev pub reads : {A : Type 0} → Janet → Cmd ExportError S A → Cmd ExportError S A
    reads x m = if is_text x then m else stuck

  unfoldable pub member_flags : Janet → Building Mask
  unfolding dict_symget sd_bus_flags
  member_flags entry = do
    keys ← dict_symget entry flags
    reads keys (sd_bus_flags (unwrap_keyword keys))

  -- A signature is read where its entry is built; in the source it is read by sd-bus, to which the entry
  -- goes.
  unfoldable pub create_vtable_method : Bytes → Janet → Building Entry
  unfolding dict_symget member_flags
  create_vtable_method name entry = do
    in_sig ← dict_symget entry sig_in
    out_sig ← dict_symget entry sig_out
    fun ← dict_symget entry function
    panic_if (not (checktype fun JanetType.function)) (expected_function name)
    mask ← member_flags entry
    reads in_sig
        (reads out_sig (pure (method name (unwrap_string in_sig) (unwrap_string out_sig) mask)))

  unfoldable pub create_vtable_property : Bytes → Janet → Building Entry
  unfolding dict_symget member_flags
  create_vtable_property name entry = do
    text ← dict_symget entry sig
    mask ← member_flags entry
    can_write ← dict_symget entry writable
    let signature = unwrap_string text
    reads text (
        if unwrap_boolean can_write && (mask emits_change || mask emits_invalidation)
        then pure (writable_property name signature property_setter_with_signal mask)
        else if unwrap_boolean can_write
        then pure (writable_property name signature property_setter mask)
        else pure (property name signature mask))

  unfoldable pub create_vtable_signal : Bytes → Janet → Building Entry
  unfolding dict_symget member_flags
  create_vtable_signal name entry = do
    text ← dict_symget entry sig
    mask ← member_flags entry
    reads text (pure (signal name (unwrap_string text) mask))

  unfoldable pub create_vtable_entry : Bytes → Janet → Building Entry
  unfolding create_vtable_method create_vtable_property create_vtable_signal dict_symget
  create_vtable_entry member value = do
    kind ← dict_symget value type
    (if symeq kind method_type
        then create_vtable_method member value
        else if symeq kind property_type
        then create_vtable_property member value
        else if symeq kind signal_type
        then create_vtable_signal member value
        else reads kind (raise (unknown_member_type (unwrap_string kind))))

  -- The loop over the pairs of the dictionary.
  unfoldable pub create_vtable_entries : ℕ → ℕ → List (Janet × Janet) → Building (Unit {0})
  unfolding create_vtable_entry store
  create_vtable_entries len i [] = pure tt
  create_vtable_entries len i ((key, value) ∷ kvs) = do
    panic_if (leb (len - 1) i) (too_many_members len)
    let member = unwrap_string key
    reads key (panic_if (not (member_name_is_valid member)) (invalid_member_name member))
    entry ← create_vtable_entry member value
    store (suc i) entry
    create_vtable_entries len (suc i) kvs

  -- The result is the copy of the array, made by `memcpy`.
  unfoldable pub create_vtable : ℕ → List (Janet × Janet) → Building (List Entry)
  unfolding create_vtable_entries store
  create_vtable len dict _ =
      (do
        store 0 start
        create_vtable_entries len 0 dict
        store (len - 1) finish
        λ vtable. ok vtable vtable)
        (unset_entries len)
