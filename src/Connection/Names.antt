-- ===== src/Connection/Names.antt =====
-- What a connection tells of itself: `sdbus/get-unique-name`, its text, and `sdbus/list-names` of
-- src/bus.c.
use janet_sdbus.Base.{
  ℕ, ◌≡◌, refl, false, List, [], ◌∷◌, ◌++◌, map, append_assoc, append-nil, ok, and_then, ℤ,
  is_negative, is_zero, Bool-cases, inl, inr, pure,
}
use janet_sdbus.Signature.{Bytes}
use janet_sdbus.Calls.{BusLibrary}
use janet_sdbus.Connection.{
  Name, OpenLibrary, Connection, get_unique_name, dbus_bus_tostring, push_names, list_names,
}

-- The strings, and the blocks that they are in.
abbrev pub text_of : Name → Bytes
text_of name = name.text

abbrev pub block_of : Name → ℕ
block_of name = name.block

module _ ⦃w : BusLibrary⦄ ⦃o : OpenLibrary⦄ where
  open o use {is_open, unique_name}

  -- The text of a connection is pushed to the buffer where its unique name is returned; both panic in
  -- the same way, and leave the connection in the same state.
  pub dbus_bus_tostring-get_unique_name :
      (buffer : Bytes) (s : Connection)
      → dbus_bus_tostring buffer s ≡ and_then (get_unique_name s) (λ name. pure (buffer ++ name))
  unfolding dbus_bus_tostring get_unique_name
  dbus_bus_tostring-get_unique_name buffer s = elim (Bool-cases (is_negative (is_open s.bus))) [
    | inl failed ↦ rw failed refl
    | inr told ↦ elim (Bool-cases (is_zero (is_open s.bus))) [
      | inl closed ↦ rw (told, closed) refl
      | inr opened ↦ elim (Bool-cases (is_negative (unique_name s.bus).0)) [
        | inl bad ↦ rw (told, opened, bad) refl
        | inr good ↦ rw (told, opened, good) refl
      ]
    ]
  ]

  push_names-all :
      (list : List Bytes) (ps : List Name) (s : Connection)
      → push_names list ps s
        ≡ ok (list ++ map text_of ps) (record s { freed = s.freed ++ map block_of ps })
  unfolding push_names
  push_names-all list [] s = rw (append-nil list, append-nil s.freed) refl
  push_names-all list (p ∷ ps) s =
      rw
        (
          push_names-all (list ++ p.text ∷ []) ps (record s { freed = s.freed ++ p.block ∷ [] }),
          append_assoc list (p.text ∷ []) (map text_of ps),
          append_assoc s.freed (p.block ∷ []) (map block_of ps),
        )
        refl

  -- The names that sd-bus lists are returned in their order, the block of each is freed once, in the
  -- same order, and then that of the array, and nothing else of the connection changes.
  pub list_names-all :
      {names : List Name} {array : ℕ} {rv : ℤ} (s : Connection)
      → o.list_names s.bus ≡ (rv, (names, array))
      → is_negative rv ≡ false
      → list_names s
        ≡ ok
            (map text_of names)
            (record s { freed = s.freed ++ (map block_of names ++ array ∷ []) })
  unfolding list_names
  list_names-all {names} {array} s e good =
      rw
        (e, good, push_names-all [] names s, append_assoc s.freed (map block_of names) (array ∷ []))
        refl
