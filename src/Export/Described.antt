-- ===== src/Export/Described.antt =====
-- What a member of an exported interface is: its description in Janet, and the vtable entry that sd-bus
-- should be given for it.
use janet_sdbus.Base.{◌≡◌, true, false, ◌||◌, some, List, [], ◌∷◌, if◌then◌else◌}
use janet_sdbus.Signature.{Bytes}
use janet_sdbus.Platform.{JanetType}
use janet_sdbus.Export.{
  Key, type, sig_in, sig_out, function, flags, sig, writable, Setter, property_setter,
  property_setter_with_signal, Entry, method, property, writable_property, signal, method_type,
  property_type, signal_type, Members,
}
use janet_sdbus.Export.Flags.{AllKnown, flags_of, mentions}

-- The setter of a writable property: it emits PropertiesChanged where one of the letters `e` and `i`
-- asks for it.
abbrev pub setter_for : Bytes → Setter
setter_for keys =
    if mentions b'e' keys || mentions b'i' keys
    then property_setter_with_signal
    else property_setter

module _ ⦃w : Members⦄ where
  open w use {
    Janet, fields, checktype, is_text, unwrap_string, unwrap_keyword, unwrap_boolean, symeq,
    member_name_is_valid,
  }

  -- The dictionary `v` has the field `key`, and it is `x`.
  pub record Field (v : Janet) (key : Key) (x : Janet) : Type 0 where
    pub get : Key → Janet
    pub is_dictionary : fields v ≡ some get
    pub value : get key ≡ x
    pub set : checktype x JanetType.nil ≡ false

  -- `Describes name v e`: the member `name` with the description `v` has the vtable entry `e`.
  pub data Describes (name : Bytes) (v : Janet) : Entry → Type 0 where
    describes_method :
        {t a b f k : Janet}
        → Field v type t
        → symeq t method_type ≡ true
        → Field v sig_in a
        → is_text a ≡ true
        → Field v sig_out b
        → is_text b ≡ true
        → Field v function f
        → checktype f JanetType.function ≡ true
        → Field v flags k
        → is_text k ≡ true
        → AllKnown (unwrap_keyword k)
        → Describes name v
            (method name (unwrap_string a) (unwrap_string b) (flags_of (unwrap_keyword k)))
    describes_property :
        {t a k c : Janet}
        → Field v type t
        → symeq t method_type ≡ false
        → symeq t property_type ≡ true
        → Field v sig a
        → is_text a ≡ true
        → Field v flags k
        → is_text k ≡ true
        → AllKnown (unwrap_keyword k)
        → Field v writable c
        → unwrap_boolean c ≡ false
        → Describes name v (property name (unwrap_string a) (flags_of (unwrap_keyword k)))
    describes_writable :
        {t a k c : Janet}
        → Field v type t
        → symeq t method_type ≡ false
        → symeq t property_type ≡ true
        → Field v sig a
        → is_text a ≡ true
        → Field v flags k
        → is_text k ≡ true
        → AllKnown (unwrap_keyword k)
        → Field v writable c
        → unwrap_boolean c ≡ true
        → Describes name v (
            writable_property name
              (unwrap_string a)
              (setter_for (unwrap_keyword k))
              (flags_of (unwrap_keyword k)))
    describes_signal :
        {t a k : Janet}
        → Field v type t
        → symeq t method_type ≡ false
        → symeq t property_type ≡ false
        → symeq t signal_type ≡ true
        → Field v sig a
        → is_text a ≡ true
        → Field v flags k
        → is_text k ≡ true
        → AllKnown (unwrap_keyword k)
        → Describes name v (signal name (unwrap_string a) (flags_of (unwrap_keyword k)))

  -- The members of an interface, with valid names, and their entries in order.
  pub data DescribesAll : List (Janet × Janet) → List Entry → Type 0 where
    no_member : DescribesAll [] []
    and_member :
        {key v : Janet} {kvs : List (Janet × Janet)} {e : Entry} {es : List Entry}
        → is_text key ≡ true
        → member_name_is_valid (unwrap_string key) ≡ true
        → Describes (unwrap_string key) v e
        → DescribesAll kvs es
        → DescribesAll ((key, v) ∷ kvs) (e ∷ es)
