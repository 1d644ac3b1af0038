-- ===== src/Examples/Registration.antt =====
-- Witnesses for the registration of an interface: a library that accepts one path.
use janet_sdbus.Base.{◌≡◌, refl, true, false, [], ◌∷◌, ◌++◌, ok, panic, ◌>>◌, pos, negsuc, arith}
use janet_sdbus.Export.{start, finish, failed_to_register}
use janet_sdbus.Export.Registration.{
  ObjectLibrary, Held, members_root, vtable_block, state_block, release_slot, holding, export,
  export-DescribesAll, export-refused,
}
use janet_sdbus.Examples.Export.{items, members, entries, described}

instance abbrev objects : ObjectLibrary
objects = record {
  object_path_is_valid = λ path. true;
  interface_name_is_valid = λ interface. true;
  add_object_vtable = λ path interface vtable. elim path [ [] ↦ negsuc 16 | _ ∷ _ ↦ pos 0 ];
}

abbrev before : Held
before = record {
  roots = members_root ∷ [];
  blocks = vtable_block ∷ state_block ∷ [];
  callback = false;
}

export-DescribesAll_example :
    (export (b'/' ∷ []) (b'I' ∷ []) members before
      ≡ ok (start ∷ (entries ++ finish ∷ [])) (holding before))
    × ((export (b'/' ∷ []) (b'I' ∷ []) members >> release_slot) before
        ≡ ok tt (record before { callback = true }))
export-DescribesAll_example =
    export-DescribesAll (b'/' ∷ []) (b'I' ∷ []) before described (omega arith) refl refl refl

export-refused_example :
    export [] (b'I' ∷ []) members before ≡ panic (failed_to_register (negsuc 16)) before
export-refused_example = export-refused [] (b'I' ∷ []) before described (omega arith) refl refl refl
