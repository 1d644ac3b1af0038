-- ===== src/Examples/Handlers.antt =====
-- Witnesses for the handlers of an exported interface.
use janet_sdbus.Base.{ℕ, ◌≡◌, refl, true, [], ◌∷◌, ok, panic, pos, negsuc}
use janet_sdbus.Export.{Key, setter, function, missing_field}
use janet_sdbus.Export.Handlers.{
  Runtime, World, signal_other, property_setter_with_signal, method_handler,
}
use janet_sdbus.Export.Handling.{
  was_set, property_setter_with_signal-Field, property_setter_with_signal-missing,
  method_handler-Field,
}
use janet_sdbus.Examples.Export.{Item, nothing, a_function, truth, text, description, items}

-- The member "P" has a setter and a function, and the others have no field.
abbrev live : Key → Item
live setter = a_function
live function = a_function
live _ = nothing

abbrev bare : Key → Item
bare k = nothing

instance abbrev calls : Runtime Item
calls = record {
  Message = ℕ;
  wrap_message = λ m. text (m ∷ []);
  member = λ table name. elim name [ [] ↦ description bare | _ ∷ _ ↦ description live ];
  pcall = λ f args. (signal_other, truth true);
  error_setf = λ out. negsuc 0;
  emit_properties_changed = λ property. pos 1;
}

abbrev before : World
before = record { rooted = 3; errors = []; emitted = [] }

property_setter_with_signal-Field_example :
    property_setter_with_signal nothing (b'P' ∷ []) 9 before
    ≡ ok (pos 0) (was_set (b'P' ∷ []) (signal_other, truth true) before)
property_setter_with_signal-Field_example =
    property_setter_with_signal-Field nothing (b'P' ∷ []) 9 before
      (record { get = live; is_dictionary = refl; value = refl; set = refl }) refl (λ out. refl)
      refl

property_setter_with_signal-missing_example :
    property_setter_with_signal nothing [] 9 before
    ≡ panic (missing_field setter) (record before { rooted = 4 })
property_setter_with_signal-missing_example =
    property_setter_with_signal-missing nothing [] 9 before bare refl refl

method_handler-Field_example :
    method_handler nothing nothing (b'P' ∷ []) 9 before ≡ ok (pos 1) before
method_handler-Field_example =
    method_handler-Field nothing nothing (b'P' ∷ []) 9 before
      (record { get = live; is_dictionary = refl; value = refl; set = refl }) refl
