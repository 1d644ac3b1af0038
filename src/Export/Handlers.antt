-- ===== src/Export/Handlers.antt =====
-- The handlers of methods and properties in src/export.c, which sd-bus calls for an exported interface.
use janet_sdbus.Base.{
  ℕ, ◌+◌, ◌-◌, List, [], ◌∷◌, ◌++◌, ok, panic, stuck, Cmd, pure, ◌>>=◌, ◌>>◌, if◌then◌else◌, ℤ, pos,
  is_negative, is_zero,
}
use janet_sdbus.Signature.{Bytes}
use janet_sdbus.Platform.{JanetType}
use janet_sdbus.Export.{
  Key, getter, setter, function, ExportError, emit_failed, Members, dict_symget,
}

-- What a protected call of a Janet function ends with, as far as the source tells it apart.
pub data Signal : Type 0 where
  signal_error signal_other : Signal

-- What the handlers take from janet.h and sd-bus.h, over the type of Janet values.
pub record Runtime (Janet : Type 0) : Type 1 where
  pub Message : Type 0
  pub wrap_message : Message → Janet
  -- the value of a keyword in the table of members, nil where there is none
  pub member : Janet → Bytes → Janet
  pub pcall : Janet → List Janet → Signal × Janet
  -- what `sd_bus_error_setf` returns, and `sd_bus_emit_properties_changed` of a property
  pub error_setf : Janet → ℤ
  pub emit_properties_changed : Bytes → ℤ

module _ ⦃w : Members⦄ ⦃r : Runtime (w.Janet)⦄ where
  open w use {Janet, checktype}
  open r use {Message, wrap_message, member, pcall, error_setf, emit_properties_changed}

  -- How many messages the handlers hold as roots, the errors set in replies, and the properties whose
  -- change was signalled, the latest last.
  pub record World : Type 0 where
    pub rooted : ℕ
    pub errors : List Janet
    pub emitted : List Bytes

  abbrev pub Handler : Type 0 → Type 0
  Handler A = Cmd ExportError World A

  abbrev pub gcroot : Handler (Unit {0})
  gcroot s = ok tt (record s { rooted = s.rooted + 1 })

  abbrev pub gcunroot : Handler (Unit {0})
  gcunroot s = ok tt (record s { rooted = s.rooted - 1 })

  abbrev pub set_error : Janet → Handler ℤ
  set_error out s = ok (error_setf out) (record s { errors = s.errors ++ out ∷ [] })

  abbrev pub finished : Signal × Janet → Handler ℤ
  finished (signal_error, out) = set_error out
  finished (signal_other, out) = pure (if checktype out JanetType.nil then pos 1 else pos 0)

  -- `janet_pcall` of what `janet_unwrap_function` gives, which is no function if the value is none.
  abbrev pub call_function : Janet → List Janet → Handler (Signal × Janet)
  call_function f args = if checktype f JanetType.function then pure (pcall f args) else stuck

  -- `members` is the table of the exported interface.
  unfoldable pub property_handler_core : Janet → Bytes → Key → Message → Handler ℤ
  unfolding dict_symget
  property_handler_core members property method msg = do
    let prop = member members property
    gcroot
    f ← dict_symget prop method
    result ← call_function f (prop ∷ wrap_message msg ∷ [])
    gcunroot
    finished result

  unfoldable pub property_getter : Janet → Bytes → Message → Handler ℤ
  unfolding property_handler_core
  property_getter members property msg = do
    _ ← property_handler_core members property getter msg
    pure (pos 0)

  unfoldable pub property_setter : Janet → Bytes → Message → Handler ℤ
  unfolding property_handler_core
  property_setter members property msg = do
    _ ← property_handler_core members property setter msg
    pure (pos 0)

  -- CALL_SD_BUS_FUNC(sd_bus_emit_properties_changed, ...); a call that fails has signalled nothing.
  abbrev pub emit : Bytes → Handler (Unit {0})
  emit property s =
      if is_negative (emit_properties_changed property)
      then panic (emit_failed (emit_properties_changed property)) s
      else ok tt (record s { emitted = s.emitted ++ property ∷ [] })

  unfoldable pub property_setter_with_signal : Janet → Bytes → Message → Handler ℤ
  unfolding property_handler_core
  property_setter_with_signal members property msg = do
    rv ← property_handler_core members property setter msg
    (if is_zero rv then emit property else pure tt)
    pure (pos 0)

  abbrev pub replied : Signal × Janet → Handler ℤ
  replied (signal_error, out) = set_error out
  replied (signal_other, out) = pure (pos 1)

  -- `name` is the member that the message calls, and `bus` the connection.
  unfoldable pub method_handler : Janet → Janet → Bytes → Message → Handler ℤ
  unfolding dict_symget
  method_handler bus members name msg = do
    gcroot
    let method = member members name
    f ← dict_symget method function
    result ← call_function f (bus ∷ wrap_message msg ∷ [])
    gcunroot
    replied result
