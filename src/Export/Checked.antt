-- ===== src/Export/Checked.antt =====
-- The converse of Export/Vtable: `create_vtable` of src/export.c returns only for described members.
use janet_sdbus.Base.{
  subst, pure, ℕ, ◌+◌, ◌≡◌, refl, sym, ◌↔◌, Bool, true, false, not, ◌||◌, List, [], ◌∷◌, ◌++◌, ok,
  leb, if◌then◌else◌, arith, length, Bool-cases, Option-cases, inl, inr, ◌-◌, suc,
}
use janet_sdbus.Signature.{Bytes}
use janet_sdbus.Platform.{JanetType}
use janet_sdbus.Export.{
  reads, panic_if, invalid_member_name, Key, type, sig_in, sig_out, function, flags, sig, writable,
  Mask, Entry, start, finish, Members, dict_symget, method_type, property_type, signal_type,
  member_flags, create_vtable_method, create_vtable_property, create_vtable_signal,
  create_vtable_entry, create_vtable_entries, create_vtable, unset_entries, writable_property,
  property_setter, property_setter_with_signal,
}
use janet_sdbus.Export.Flags.{AllKnown, flags_of, mentions}
use janet_sdbus.Export.Described.{
  setter_for, Field, Describes, describes_method, describes_property, describes_writable,
  describes_signal, DescribesAll, no_member, and_member,
}
use janet_sdbus.Export.Vtable.{create_vtable-DescribesAll}
use janet_sdbus.Export.Giving.{
  Gives, gives, panicked, faulted, Gives-bind, Gives-mono, Gives-if, panic_if-Gives, store-Gives,
  sd_bus_flags-Gives, reads-Gives,
}

module _ ⦃w : Members⦄ where
  open w use {
    Janet, fields, checktype, is_text, unwrap_string, unwrap_keyword, unwrap_boolean, symeq,
    member_name_is_valid,
  }

  dict_symget-Gives :
      (v : Janet) (key : Key) (s : List Entry) → Gives (λ x. Field v key x) (dict_symget v key s)
  unfolding dict_symget
  dict_symget-Gives v key s = elim (Option-cases (fields v)) [
    | inl missing ↦ rw missing faulted
    | inr (get, found) ↦ rw found (
        Gives-if (checktype (get key) JanetType.nil) _ _ s (λ e. panicked)
          λ e. gives (record { get = get; is_dictionary = found; value = refl; set = e }))
  ]

  -- The flags of a member, which has them all known.
  abbrev Flags : Janet → Mask → Type 0
  Flags v mask =
      (k : Janet) × Field v flags k
      × (is_text k ≡ true)
      × AllKnown (unwrap_keyword k)
      × (mask ≡ flags_of (unwrap_keyword k))

  member_flags-Gives : (v : Janet) (s : List Entry) → Gives (Flags v) (member_flags v s)
  unfolding member_flags
  member_flags-Gives v s = Gives-bind (dict_symget-Gives v flags s) λ k t field.
      reads-Gives k _ t λ text.
        Gives-mono (sd_bus_flags-Gives (unwrap_keyword k) t)
          λ mask (all, same). (k, field, text, all, same)

  create_vtable_method-Gives :
      (name : Bytes) (v t : Janet) (s : List Entry)
      → Field v type t
      → symeq t method_type ≡ true
      → Gives (λ e. Describes name v e) (create_vtable_method name v s)
  unfolding create_vtable_method
  create_vtable_method-Gives name v t s is_type m =
      Gives-bind (dict_symget-Gives v sig_in s) λ a s₁ is_in.
        Gives-bind (dict_symget-Gives v sig_out s₁) λ b s₂ is_out.
          Gives-bind (dict_symget-Gives v function s₂) λ f s₃ is_fun.
            Gives-bind (panic_if-Gives (not (checktype f JanetType.function)) _ s₃) λ _ s₄ fun.
              Gives-bind (member_flags-Gives v s₄) λ mask s₅ (k, is_flags, text_k, all, same).
                rw same (
                  reads-Gives a _ s₅ λ text_a. reads-Gives b _ s₅ λ text_b. gives (
                    describes_method is_type m is_in text_a is_out text_b is_fun (ground arith)
                      is_flags text_k all))

  abbrev writing : Bytes → Janet → Janet → Entry
  writing name a k =
      writable_property name (unwrap_string a) (setter_for (unwrap_keyword k))
        (flags_of (unwrap_keyword k))

  -- Which of its two setters a writable property has.
  setter-Gives :
      (name : Bytes) (v t a k c : Janet) (s : List Entry)
      → Field v type t
      → symeq t method_type ≡ false
      → symeq t property_type ≡ true
      → Field v sig a
      → is_text a ≡ true
      → Field v flags k
      → is_text k ≡ true
      → AllKnown (unwrap_keyword k)
      → Field v writable c
      → unwrap_boolean c ≡ true
      → (b : Bool) → b ≡ (mentions b'e' (unwrap_keyword k) || mentions b'i' (unwrap_keyword k))
      → Gives
          (λ e. Describes name v e)
          ((if b
              then pure (
                  writable_property name
                    (unwrap_string a)
                    property_setter_with_signal
                    (flags_of (unwrap_keyword k)))
              else pure (
                  writable_property name
                    (unwrap_string a)
                    property_setter
                    (flags_of (unwrap_keyword k))))
            s)
  setter-Gives name v t a k c s is_type m p is_sig text_a is_flags text_k all is_writable can true
        e =
      let described : Describes name v (writing name a k) =
        describes_writable is_type m p is_sig text_a is_flags text_k all is_writable can in
      gives (rw (sym e) at described)
  setter-Gives name v t a k c s is_type m p is_sig text_a is_flags text_k all is_writable can false
        e =
      let described : Describes name v (writing name a k) =
        describes_writable is_type m p is_sig text_a is_flags text_k all is_writable can in
      gives (rw (sym e) at described)

  create_vtable_property-Gives :
      (name : Bytes) (v t : Janet) (s : List Entry)
      → Field v type t
      → symeq t method_type ≡ false
      → symeq t property_type ≡ true
      → Gives (λ e. Describes name v e) (create_vtable_property name v s)
  unfolding create_vtable_property
  create_vtable_property-Gives name v t s is_type m p =
      Gives-bind (dict_symget-Gives v sig s) λ a s₁ is_sig.
        Gives-bind (member_flags-Gives v s₁) λ mask s₂ (k, is_flags, text_k, all, same). rw same (
          Gives-bind (dict_symget-Gives v writable s₂) λ c s₃ is_writable.
            reads-Gives a _ s₃ λ text_a. elim (Bool-cases (unwrap_boolean c)) [
              | inl can ↦ rw can (
                  setter-Gives name v t a k c s₃ is_type m p is_sig text_a is_flags text_k all
                    is_writable can _ refl)
              | inr cannot ↦ rw cannot (
                  gives (
                    describes_property is_type m p is_sig text_a is_flags text_k all is_writable
                      cannot))
            ])

  create_vtable_signal-Gives :
      (name : Bytes) (v t : Janet) (s : List Entry)
      → Field v type t
      → symeq t method_type ≡ false
      → symeq t property_type ≡ false
      → symeq t signal_type ≡ true
      → Gives (λ e. Describes name v e) (create_vtable_signal name v s)
  unfolding create_vtable_signal
  create_vtable_signal-Gives name v t s is_type m p g =
      Gives-bind (dict_symget-Gives v sig s) λ a s₁ is_sig.
        Gives-bind (member_flags-Gives v s₁) λ mask s₂ (k, is_flags, text_k, all, same). rw same (
          reads-Gives a _ s₂
            λ text_a. gives (describes_signal is_type m p g is_sig text_a is_flags text_k all))

  create_vtable_entry-Gives :
      (name : Bytes) (v : Janet) (s : List Entry)
      → Gives (λ e. Describes name v e) (create_vtable_entry name v s)
  unfolding create_vtable_entry
  create_vtable_entry-Gives name v s = Gives-bind (dict_symget-Gives v type s) λ t s₁ is_type.
      Gives-if (symeq t method_type) _ _ s₁ (λ m. create_vtable_method-Gives name v t s₁ is_type m)
        λ m.
          Gives-if (symeq t property_type) _ _ s₁
            (λ p. create_vtable_property-Gives name v t s₁ is_type m p)
            λ p.
              Gives-if (symeq t signal_type) _ _ s₁
                (λ g. create_vtable_signal-Gives name v t s₁ is_type m p g)
                λ g. reads-Gives t _ s₁ λ text. panicked

  -- The entries of described members.
  abbrev pub Described : List (Janet × Janet) → Type 0
  Described kvs = (es : List Entry) × DescribesAll kvs es

  valid_name-Gives :
      (key : Janet) (s : List Entry)
      → Gives
          (λ _. (is_text key ≡ true) × (not (member_name_is_valid (unwrap_string key)) ≡ false))
          (reads key
            (panic_if
              (not (member_name_is_valid (unwrap_string key)))
              (invalid_member_name (unwrap_string key)))
            s)
  valid_name-Gives key s = reads-Gives key _ s λ text.
      Gives-mono (panic_if-Gives (not (member_name_is_valid (unwrap_string key))) _ s)
        λ _ valid. (text, valid)

  create_vtable_entries-Gives :
      (len i : ℕ) (kvs : List (Janet × Janet)) (s : List Entry)
      → Gives (λ _. Described kvs) (create_vtable_entries len i kvs s)
  unfolding create_vtable_entries
  create_vtable_entries-Gives len i [] s = gives ([], no_member)
  create_vtable_entries-Gives len i ((key, value) ∷ kvs) s =
      let member = unwrap_string key in
      Gives-bind (panic_if-Gives (leb (len - 1) i) _ s) λ _ s₁ _.
        Gives-bind (valid_name-Gives key s₁) λ _ s₂ (text, valid).
          Gives-bind (create_vtable_entry-Gives member value s₂) λ e s₃ d.
            Gives-bind (store-Gives (suc i) e s₃) λ _ s₄ _.
              Gives-mono (create_vtable_entries-Gives len (suc i) kvs s₄)
                λ _ (es, ds). (e ∷ es, and_member text (ground arith) d ds)

  create_vtable-Gives :
      (len : ℕ) (kvs : List (Janet × Janet)) (s : List Entry)
      → Gives (λ _. Described kvs) (create_vtable len kvs s)
  unfolding create_vtable
  create_vtable-Gives len kvs s = Gives-bind (store-Gives 0 start (unset_entries len)) λ _ s₁ _.
      Gives-bind (create_vtable_entries-Gives len 0 kvs s₁)
        λ _ s₂ d. Gives-bind (store-Gives (len - 1) finish s₂) λ _ s₃ _. gives d

  of_ok : {A K : Type 0} {a : A} {s : List Entry} → Gives (λ _. K) (ok a s) → K
  of_ok (gives k) = k

  -- With the length that `sdbus/export` gives, `create_vtable` returns the array `vtable` exactly if all
  -- members of the table have valid names and are described, and `vtable` is the start element, their
  -- entries in the table's order, and the end element.
  pub create_vtable_iff :
      (kvs : List (Janet × Janet)) (s vtable : List Entry)
      → (create_vtable (length kvs + 2) kvs s ≡ ok vtable vtable)
        ↔ ((es : List Entry) × DescribesAll kvs es × (vtable ≡ start ∷ (es ++ finish ∷ [])))
  create_vtable_iff kvs s vtable = (
    λ e.
        let (es, ds) = of_ok (
          subst (λ o. Gives (λ _. Described kvs) o) e
            (create_vtable-Gives (length kvs + 2) kvs s)) in
        let run = create_vtable-DescribesAll s ds in (es, ds, cc),
    λ (es, ds, same). rw same (create_vtable-DescribesAll s ds),
  )
