-- ===== src/Export/Vtable.antt =====
-- `create_vtable` of src/export.c against the description of the members of an interface.
use janet_sdbus.Base.{
  ℕ, suc, ◌+◌, ◌-◌, ◌≡◌, refl, true, false, ◌||◌, some, List, [], ◌∷◌, ◌++◌, ok, ◌∙◌, ap, sym,
  subst, append_assoc, length-append, leb, arith, length, Bool-cases, inl, inr,
}
use janet_sdbus.Signature.{Bytes}
use janet_sdbus.Export.{
  Key, flags, Entry, unset, start, finish, Members, put, store, unset_entries, dict_symget,
  member_flags, create_vtable_method, create_vtable_property, create_vtable_signal,
  create_vtable_entry, create_vtable_entries, create_vtable,
}
use janet_sdbus.Export.Flags.{AllKnown, flags_of, mentions, sd_bus_flags-AllKnown}
use janet_sdbus.Export.Described.{
  Field, Describes, describes_method, describes_property, describes_writable, describes_signal,
  DescribesAll, no_member, and_member,
}

module _ ⦃w : Members⦄ where
  open w use {
    Janet, fields, checktype, is_text, unwrap_string, unwrap_keyword, unwrap_boolean, symeq,
    member_name_is_valid,
  }

  dict_symget-Field :
      {v x : Janet} {key : Key} (s : List Entry) → Field v key x → dict_symget v key s ≡ ok x s
  unfolding dict_symget
  dict_symget-Field s h = rw (h.is_dictionary, h.value, h.set) refl

  member_flags-AllKnown :
      {v k : Janet} (s : List Entry)
      → Field v flags k
      → is_text k ≡ true
      → AllKnown (unwrap_keyword k)
      → member_flags v s ≡ ok (flags_of (unwrap_keyword k)) s
  unfolding member_flags
  member_flags-AllKnown s h text known =
      rw (dict_symget-Field s h, text) (sd_bus_flags-AllKnown s known)

  create_vtable_entry-Describes :
      {name : Bytes} {v : Janet} {e : Entry} (s : List Entry)
      → Describes name v e
      → create_vtable_entry name v s ≡ ok e s
  unfolding create_vtable_entry create_vtable_method create_vtable_property create_vtable_signal
  create_vtable_entry-Describes s (describes_method t m a text_a b text_b f fun k text_k known) =
      rw
        (
          dict_symget-Field s t,
          m,
          dict_symget-Field s a,
          dict_symget-Field s b,
          dict_symget-Field s f,
          fun,
          member_flags-AllKnown s k text_k known,
          text_a,
          text_b,
        )
        refl
  create_vtable_entry-Describes s (describes_property t m p a text_a k text_k known c fixed) =
      rw
        (
          dict_symget-Field s t,
          m,
          p,
          dict_symget-Field s a,
          member_flags-AllKnown s k text_k known,
          dict_symget-Field s c,
          text_a,
          fixed,
        )
        refl
  create_vtable_entry-Describes s (describes_writable {k} t m p a text_a k' text_k known c fixed) =
      rw
        (
          dict_symget-Field s t,
          m,
          p,
          dict_symget-Field s a,
          member_flags-AllKnown s k' text_k known,
          dict_symget-Field s c,
          text_a,
          fixed,
        )
        (elim (Bool-cases (mentions b'e' (unwrap_keyword k) || mentions b'i' (unwrap_keyword k))) [
          | inl with_signal ↦ rw with_signal refl
          | inr without ↦ rw without refl
        ])
  create_vtable_entry-Describes s (describes_signal t m p g a text_a k text_k known) =
      rw
        (
          dict_symget-Field s t,
          m,
          p,
          g,
          dict_symget-Field s a,
          member_flags-AllKnown s k text_k known,
          text_a,
        )
        refl

  put-length :
      (xs : List Entry) (e x : Entry) (ys : List Entry)
      → put (length xs) e (xs ++ x ∷ ys) ≡ some (xs ++ e ∷ ys)
  put-length [] e x ys = refl
  put-length (a ∷ xs) e x ys = rw (put-length xs e x ys) refl

  store-length :
      (n : ℕ) (xs : List Entry) (e x : Entry) (ys : List Entry)
      → n ≡ length xs
      → store n e (xs ++ x ∷ ys) ≡ ok tt (xs ++ e ∷ ys)
  unfolding store
  store-length n xs e x ys h = rw (h, put-length xs e x ys) refl

  -- The loop after the elements `xs`, with the others unset, fills all but the last of these.
  create_vtable_entries-DescribesAll :
      {kvs : List (Janet × Janet)} {es : List Entry} (len i : ℕ) (xs : List Entry)
      → length xs ≡ suc i
      → len ≡ suc (suc i) + length kvs
      → DescribesAll kvs es
      → create_vtable_entries len i kvs (xs ++ unset_entries (suc (length kvs)))
        ≡ ok tt (xs ++ (es ++ unset ∷ []))
  unfolding create_vtable_entries
  create_vtable_entries-DescribesAll len i xs at_i room no_member = refl
  create_vtable_entries-DescribesAll len i xs at_i room
        (and_member {kvs} {e} {es} text valid d ds) =
      let fits : leb (len - 1) i ≡ false = ground arith in
      rw
        (
          fits,
          text,
          valid,
          create_vtable_entry-Describes _ d,
          store-length (suc i) xs e unset (unset_entries (suc (length kvs))) (sym at_i),
        )
        (subst
          (λ ys. create_vtable_entries len (suc i) kvs ys ≡ ok tt (xs ++ (e ∷ (es ++ unset ∷ []))))
          (append_assoc xs (e ∷ []) (unset_entries (suc (length kvs))))
          (create_vtable_entries-DescribesAll len (suc i) (xs ++ e ∷ [])
              (omega (arith, length-append xs (e ∷ []))) (omega arith) ds
            ∙ ap (ok tt) (append_assoc xs (e ∷ []) (es ++ unset ∷ []))))

  length-DescribesAll :
      {kvs : List (Janet × Janet)} {es : List Entry} → DescribesAll kvs es → length kvs ≡ length es
  length-DescribesAll no_member = refl
  length-DescribesAll (and_member text valid d ds) = ap suc (length-DescribesAll ds)

  -- For a table of described members with valid names and the length that `sdbus/export` gives,
  -- `create_vtable` returns the start element, the members' entries in the table's order, and the end
  -- element; no write is outside the array, and no element is left unset.
  pub create_vtable-DescribesAll :
      {kvs : List (Janet × Janet)} {es : List Entry} (s : List Entry)
      → DescribesAll kvs es
      → create_vtable (length kvs + 2) kvs s
        ≡ ok (start ∷ (es ++ finish ∷ [])) (start ∷ (es ++ finish ∷ []))
  unfolding create_vtable
  create_vtable-DescribesAll {kvs} {es} s ds =
      let two : length kvs + 2 ≡ suc (suc (length kvs)) = omega arith in
      let last_place : suc (suc (length kvs)) - 1 ≡ suc (length kvs) = omega arith in
      rw
        (
          two,
          create_vtable_entries-DescribesAll (suc (suc (length kvs))) 0 (start ∷ []) refl
              (omega arith) ds,
          last_place,
          store-length (suc (length kvs)) (start ∷ es) finish unset []
              (ap suc (length-DescribesAll ds)),
        )
        refl
