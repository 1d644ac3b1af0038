-- ===== src/Export/Handling.antt =====
-- What the handlers of src/export.c do for a member that is well described.
use janet_sdbus.Base.{
  ℕ, ◌+◌, ◌-◌, ◌≡◌, refl, true, false, [], ◌∷◌, ◌++◌, ok, panic, some, arith, ℤ, pos, negsuc,
  is_negative, is_zero, and_then, ◌>>◌, pure, Bool-cases, inl, inr, if◌then◌else◌,
}
use janet_sdbus.Signature.{Bytes}
use janet_sdbus.Platform.{JanetType}
use janet_sdbus.Export.{Key, setter, function, missing_field, Members, dict_symget}
use janet_sdbus.Export.Described.{Field}
use janet_sdbus.Export.Handlers.{
  Signal, signal_error, signal_other, Runtime, World, finished, emit, replied,
  property_handler_core, property_setter_with_signal, method_handler,
}

negative-is_zero : (k : ℤ) → is_negative k ≡ true → is_zero k ≡ false
negative-is_zero (pos n) e = cc
negative-is_zero (negsuc n) e = refl

module _ ⦃w : Members⦄ ⦃r : Runtime (w.Janet)⦄ where
  open w use {Janet, checktype, fields}
  open r use {Message, wrap_message, member, pcall, error_setf, emit_properties_changed}

  symget-Field :
      {S : Type 0} {v x : Janet} {key : Key} (s : S) → Field v key x → dict_symget v key s ≡ ok x s
  unfolding dict_symget
  symget-Field s h = rw (h.is_dictionary, h.value, h.set) refl

  balanced : (n : ℕ) → n + 1 - 1 ≡ n
  balanced n = omega arith

  -- What a setter's end leaves: an error is set in the reply, and where there is none and the value is
  -- not nil, the change of the property is signalled.
  abbrev pub was_set : Bytes → Signal × Janet → World → World
  was_set property (signal_error, out) s = record s { errors = s.errors ++ out ∷ [] }
  was_set property (signal_other, out) s =
      if checktype out JanetType.nil then s else record s { emitted = s.emitted ++ property ∷ [] }

  ended :
      (property : Bytes) (result : Signal × Janet) (s : World)
      → ((out : Janet) → is_negative (error_setf out) ≡ true)
      → is_negative (emit_properties_changed property) ≡ false
      → and_then
          (finished result s)
          (λ rv. (if is_zero rv then emit property else pure tt) >> pure (pos 0))
        ≡ ok (pos 0) (was_set property result s)
  ended property (signal_error, out) s negative sends =
      rw (negative-is_zero (error_setf out) (negative out)) refl
  ended property (signal_other, out) s negative sends =
      elim (Bool-cases (checktype out JanetType.nil)) [
        | inl nothing ↦ rw nothing refl
        | inr something ↦ rw (something, sends) refl
      ]

  -- The setter of a property that has one, which is a function: the handler returns 0; an error of
  -- the setter is set in the reply, and otherwise the change is signalled exactly where the setter's
  -- value is not nil; the message is no root any more. Of sd-bus, an error code that
  -- `sd_bus_error_setf` returns is negative, and the signal can be sent.
  pub property_setter_with_signal-Field :
      {f : Janet} (members : Janet) (property : Bytes) (msg : Message) (s : World)
      → Field (member members property) setter f
      → checktype f JanetType.function ≡ true
      → ((out : Janet) → is_negative (error_setf out) ≡ true)
      → is_negative (emit_properties_changed property) ≡ false
      → property_setter_with_signal members property msg s
        ≡ ok
            (pos 0)
            (was_set property (pcall f (member members property ∷ wrap_message msg ∷ [])) s)
  unfolding property_setter_with_signal property_handler_core
  property_setter_with_signal-Field {f} members property msg s h callable negative sends =
      rw (symget-Field (record s { rooted = s.rooted + 1 }) h, callable, balanced s.rooted)
        (ended property (pcall f (member members property ∷ wrap_message msg ∷ [])) s negative
          sends)

  -- A property without a setter: the handler panics, and the message stays a root.
  pub property_setter_with_signal-missing :
      (members : Janet) (property : Bytes) (msg : Message) (s : World) (get : Key → Janet)
      → fields (member members property) ≡ some get
      → checktype (get setter) JanetType.nil ≡ true
      → property_setter_with_signal members property msg s
        ≡ panic (missing_field setter) (record s { rooted = s.rooted + 1 })
  unfolding property_setter_with_signal property_handler_core dict_symget
  property_setter_with_signal-missing members property msg s get e gone = rw (e, gone) refl

  -- What a method's end leaves, and the result that the handler gives to sd-bus.
  abbrev pub answer : Signal × Janet → World → ℤ × World
  answer (signal_error, out) s = (error_setf out, record s { errors = s.errors ++ out ∷ [] })
  answer (signal_other, out) s = (pos 1, s)

  answered :
      (result : Signal × Janet) (s : World)
      → replied result s ≡ ok (answer result s).0 (answer result s).1
  answered (signal_error, out) s = refl
  answered (signal_other, out) s = refl

  -- The handler of a method that has a function: the function is called with the connection and the
  -- message, an error is set in the reply and returned, and the handler otherwise returns 1, also where
  -- the function has not ended; the message is no root any more.
  pub method_handler-Field :
      {f : Janet} (bus members : Janet) (name : Bytes) (msg : Message) (s : World)
      → Field (member members name) function f
      → checktype f JanetType.function ≡ true
      → method_handler bus members name msg s
        ≡ ok
            (answer (pcall f (bus ∷ wrap_message msg ∷ [])) s).0
            (answer (pcall f (bus ∷ wrap_message msg ∷ [])) s).1
  unfolding method_handler
  method_handler-Field {f} bus members name msg s h callable =
      rw (symget-Field (record s { rooted = s.rooted + 1 }) h, callable, balanced s.rooted)
        (answered (pcall f (bus ∷ wrap_message msg ∷ [])) s)
