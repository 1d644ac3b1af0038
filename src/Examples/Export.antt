-- ===== src/Examples/Export.antt =====
-- Witnesses and runs for the vtable of an exported interface.
use janet_sdbus.Base.{
  ◌↔◌, ◌≡◌, refl, Bool, true, false, Option, none, some, List, [], ◌∷◌, ◌++◌, ok,
}
use janet_sdbus.Signature.{Bytes}
use janet_sdbus.Platform.{JanetType}
use janet_sdbus.Export.{
  Key, type, sig_in, sig_out, function, flags, sig, writable, Entry, start, finish, method,
  writable_property, property_setter_with_signal, MemberType, method_type, property_type,
  signal_type, Members, create_vtable, emits_change, explicit, deprecated,
}
use janet_sdbus.Export.Flags.{AllKnown, none_left, flag, flags_of}
use janet_sdbus.Export.Described.{
  Field, describes_method, describes_writable, DescribesAll, no_member, and_member,
}
use janet_sdbus.Export.Checked.{create_vtable_iff}

pub data Item : Type 0 where
  nothing a_function : Item
  truth : Bool → Item
  text : Bytes → Item
  kind : MemberType → Item
  description : (Key → Item) → Item

abbrev pub fields_of : Item → Option (Key → Item)
fields_of (description get) = some get
fields_of _ = none

abbrev pub is_item : Item → JanetType → Bool
is_item Item.nothing JanetType.nil = true
is_item a_function JanetType.function = true
is_item _ _ = false

abbrev pub has_text : Item → Bool
has_text (text bs) = true
has_text _ = false

abbrev pub text_of : Item → Bytes
text_of (text bs) = bs
text_of _ = []

abbrev pub truth_of : Item → Bool
truth_of (truth b) = b
truth_of _ = false

abbrev pub is_kind : Item → MemberType → Bool
is_kind (kind method_type) method_type = true
is_kind (kind property_type) property_type = true
is_kind (kind signal_type) signal_type = true
is_kind _ _ = false

instance abbrev pub items : Members
items = record {
  Janet = Item;
  fields = fields_of;
  checktype = is_item;
  is_text = has_text;
  unwrap_string = text_of;
  unwrap_keyword = text_of;
  unwrap_boolean = truth_of;
  symeq = is_kind;
  member_name_is_valid = λ name. elim name [ [] ↦ false | _ ∷ _ ↦ true ];
}

-- A method from "s" to "i", and a writable property "u" with the flags of `:dew`.
abbrev pub run_field : Key → Item
run_field type = kind method_type
run_field sig_in = text (b's' ∷ [])
run_field sig_out = text (b'i' ∷ [])
run_field function = a_function
run_field flags = text (b'x' ∷ [])
run_field _ = nothing

abbrev pub size_field : Key → Item
size_field type = kind property_type
size_field sig = text (b'u' ∷ [])
size_field flags = text (b'd' ∷ b'e' ∷ b'w' ∷ [])
size_field writable = truth true
size_field _ = nothing

abbrev pub members : List (Item × Item)
members =
    (text (b'R' ∷ []), description run_field) ∷ (text (b'S' ∷ []), description size_field) ∷ []

abbrev pub entries : List Entry
entries =
    method (b'R' ∷ []) (b's' ∷ []) (b'i' ∷ []) (flags_of (b'x' ∷ []))
    ∷ writable_property (b'S' ∷ []) (b'u' ∷ []) property_setter_with_signal
        (flags_of (b'd' ∷ b'e' ∷ b'w' ∷ []))
    ∷ []

run_has :
    (k : Key)
    → is_item (run_field k) JanetType.nil ≡ false
    → Field (description run_field) k (run_field k)
run_has k set = record { get = run_field; is_dictionary = refl; value = refl; set = set }

size_has :
    (k : Key)
    → is_item (size_field k) JanetType.nil ≡ false
    → Field (description size_field) k (size_field k)
size_has k set = record { get = size_field; is_dictionary = refl; value = refl; set = set }

pub described : DescribesAll members entries
described =
    and_member refl refl
      (describes_method (run_has type refl) refl (run_has sig_in refl) refl (run_has sig_out refl)
        refl (run_has function refl) refl (run_has flags refl) refl (flag explicit none_left))
      (and_member refl refl
        (describes_writable (size_has type refl) refl refl (size_has sig refl) refl
          (size_has flags refl) refl
          (flag deprecated (flag emits_change (AllKnown.writable none_left)))
          (size_has writable refl) refl)
        no_member)

create_vtable_iff_example :
    (create_vtable 4 members []
      ≡ ok (start ∷ (entries ++ finish ∷ [])) (start ∷ (entries ++ finish ∷ [])))
    ↔ ((es : List Entry) × DescribesAll members es
        × (start ∷ (entries ++ finish ∷ []) ≡ start ∷ (es ++ finish ∷ [])))
create_vtable_iff_example = create_vtable_iff members [] (start ∷ (entries ++ finish ∷ []))
