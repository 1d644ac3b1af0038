-- ===== src/Export/Registration.antt =====
-- `sdbus/export` of src/export.c, from the conversion of its arguments on, and the callback that sd-bus
-- runs when the slot is released.
use janet_sdbus.Base.{
  ◌+◌, ◌≡◌, ◌≢◌, Bool, true, false, not, Option, none, some, List, [], ◌∷◌, ◌++◌, Outcome, ok,
  panic, fault, out_of_fuel, Cmd, pure, raise, ◌>>=◌, ◌>>◌, if◌then◌else◌, ◌==◌, ℤ, is_negative,
  length, refl, arith,
}
use janet_sdbus.Signature.{Bytes}
use janet_sdbus.Export.{
  Entry, start, finish, ExportError, invalid_object_path, invalid_interface_name, no_members,
  failed_to_register, Members, create_vtable,
}
use janet_sdbus.Export.Described.{DescribesAll}
use janet_sdbus.Export.Vtable.{create_vtable-DescribesAll}

-- What `sdbus/export` takes from sd-bus.h.
pub record ObjectLibrary : Type 0 where
  pub object_path_is_valid : Bytes → Bool
  pub interface_name_is_valid : Bytes → Bool
  -- what `sd_bus_add_object_vtable` returns for a path, an interface and a vtable
  pub add_object_vtable : Bytes → Bytes → List Entry → ℤ

-- The Janet values that src/export.c holds as roots, and its blocks of `malloc`.
pub data Root : Type 0 where
  bus_root members_root : Root

pub data Block : Type 0 where
  vtable_block state_block : Block

abbrev same_root : Root → Root → Bool
same_root bus_root bus_root = true
same_root members_root members_root = true
same_root _ _ = false

abbrev same_block : Block → Block → Bool
same_block vtable_block vtable_block = true
same_block state_block state_block = true
same_block _ _ = false

-- What is held, the latest first, and whether the slot has a destroy callback.
pub record Held : Type 0 where
  pub roots : List Root
  pub blocks : List Block
  pub callback : Bool

abbrev pub Exporting : Type 0 → Type 0
Exporting A = Cmd ExportError Held A

abbrev without_root : Root → List Root → List Root
without_root r [] = []
without_root r (x ∷ xs) = if same_root r x then xs else x ∷ without_root r xs

abbrev without_block : Block → List Block → Option (List Block)
without_block b [] = none
without_block b (x ∷ xs) =
    if same_block b x
    then some xs
    else elim (without_block b xs) [ none ↦ none | some ys ↦ some (x ∷ ys) ]

-- `janet_gcroot`, and `janet_gcunroot`, which takes one of the roots that are the value.
abbrev gcroot : Root → Exporting (Unit {0})
gcroot r s = ok tt (record s { roots = r ∷ s.roots })

abbrev gcunroot : Root → Exporting (Unit {0})
gcunroot r s = ok tt (record s { roots = without_root r s.roots })

abbrev malloc : Block → Exporting (Unit {0})
malloc b s = ok tt (record s { blocks = b ∷ s.blocks })

abbrev freed : Option (List Block) → Exporting (Unit {0})
freed none s = fault
freed (some blocks) s = ok tt (record s { blocks = blocks })

-- `janet_free` of a block that is not held is undefined.
abbrev free : Block → Exporting (Unit {0})
free b s = freed (without_block b s.blocks) s

-- The result of `create_vtable`, whose array is on the stack.
abbrev pub on_stack : Outcome ExportError (List Entry) (List Entry) → Exporting (List Entry)
on_stack (ok vtable _) s = ok vtable s
on_stack (panic e _) s = panic e s
on_stack fault s = fault
on_stack out_of_fuel s = out_of_fuel

-- Allocates the state, and roots the bus and the table of members.
unfoldable pub init_export_state : Exporting (Unit {0})
init_export_state = do malloc state_block; gcroot bus_root; gcroot members_root

-- FREE_EXPORT_STATE
unfoldable pub destroy_export_callback : Exporting (Unit {0})
destroy_export_callback = do
  gcunroot bus_root
  gcunroot members_root
  free vtable_block
  free state_block

abbrev set_destroy_callback : Exporting (Unit {0})
set_destroy_callback s = ok tt (record s { callback = true })

-- The release of the slot runs its destroy callback, if it has one.
unfoldable pub release_slot : Exporting (Unit {0})
unfolding destroy_export_callback
release_slot s = (if s.callback then destroy_export_callback else pure tt) s

abbrev pub panic_export : Bool → ExportError → Exporting (Unit {0})
panic_export test e = if test then raise e else pure tt

-- What a registered interface holds beside what was held.
abbrev pub holding : Held → Held
holding s = record {
  roots = members_root ∷ bus_root ∷ s.roots;
  blocks = state_block ∷ vtable_block ∷ s.blocks;
  callback = true;
}

module _ ⦃w : Members⦄ ⦃o : ObjectLibrary⦄ where
  open w use {Janet}
  open o use {object_path_is_valid, interface_name_is_valid, add_object_vtable}

  -- The result is the vtable that was registered.
  unfoldable pub export : Bytes → Bytes → List (Janet × Janet) → Exporting (List Entry)
  unfolding init_export_state destroy_export_callback
  export path interface env = do
    panic_export (not (object_path_is_valid path)) (invalid_object_path path)
    panic_export (not (interface_name_is_valid interface)) (invalid_interface_name interface)
    panic_export (length env == 0) (no_members interface)
    built ← on_stack (create_vtable (length env + 2) env [])
    malloc vtable_block
    init_export_state
    let rv = add_object_vtable path interface built
    (if is_negative rv
        then (do destroy_export_callback; raise (failed_to_register rv))
        else pure tt)
    set_destroy_callback
    pure built

  -- An interface of described members that sd-bus accepts: its vtable is registered, the bus and the
  -- table of members are rooted, the vtable and the state are allocated, and the slot has its destroy
  -- callback; its release leaves the roots and the blocks that were held before.
  pub export-DescribesAll :
      {env : List (Janet × Janet)} {es : List Entry} (path interface : Bytes) (s : Held)
      → DescribesAll env es
      → length env ≢ 0
      → object_path_is_valid path ≡ true
      → interface_name_is_valid interface ≡ true
      → is_negative (add_object_vtable path interface (start ∷ (es ++ finish ∷ []))) ≡ false
      → (export path interface env s ≡ ok (start ∷ (es ++ finish ∷ [])) (holding s))
        × ((export path interface env >> release_slot) s ≡ ok tt (record s { callback = true }))
  unfolding export init_export_state destroy_export_callback release_slot
  export-DescribesAll {env} {es} path interface s d some_member valid valid' accepted =
      let not_empty : (length env == 0) ≡ false = ground arith in
      (
        rw (valid, valid', not_empty, create_vtable-DescribesAll [] d, accepted) refl,
        rw (valid, valid', not_empty, create_vtable-DescribesAll [] d, accepted) refl,
      )

  -- One that sd-bus refuses: the error is raised, and the roots and blocks are those that were held
  -- before.
  pub export-refused :
      {env : List (Janet × Janet)} {es : List Entry} (path interface : Bytes) (s : Held)
      → DescribesAll env es
      → length env ≢ 0
      → object_path_is_valid path ≡ true
      → interface_name_is_valid interface ≡ true
      → is_negative (add_object_vtable path interface (start ∷ (es ++ finish ∷ []))) ≡ true
      → export path interface env s
        ≡ panic
            (failed_to_register (add_object_vtable path interface (start ∷ (es ++ finish ∷ []))))
            s
  unfolding export init_export_state destroy_export_callback
  export-refused {env} {es} path interface s d some_member valid valid' refused =
      let not_empty : (length env == 0) ≡ false = ground arith in
      rw (valid, valid', not_empty, create_vtable-DescribesAll [] d, refused) refl
