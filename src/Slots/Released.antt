-- ===== src/Slots/Released.antt =====
-- How often the slots of src/slot.c are released.
use janet_sdbus.Base.{◌≡◌, refl, false, none, some, List, [], ◌∷◌, ◌++◌, ◌∙◌}
use janet_sdbus.Handles.{
  Handle, touch, lost, account, set_floating, touch-floating, unref-account, unref-lost,
}
use janet_sdbus.Slots.{
  dbus_slot_gc, cancel_slot, close_slot, Use, cancelling, closing, use_once, used,
}

module _ {Slot : Type 0} where
  use_once-account : (u : Use) (s : Handle Slot) → account (use_once u s) ≡ account s
  unfolding cancel_slot close_slot
  use_once-account cancelling s =
      unref-account (touch (set_floating s.held false) s) ∙ touch-floating false s
  use_once-account closing s = unref-account s

  used-account : (us : List Use) (s : Handle Slot) → account (used us s) ≡ account s
  used-account [] s = refl
  used-account (u ∷ us) s = used-account us (use_once u s) ∙ use_once-account u s

  -- A slot is cancelled and its connection ends, any number of times in any order, and then the garbage
  -- collector takes it: it is released exactly once, and its pointer is NULL.
  pub dbus_slot_gc-used :
      {slot : Slot} (us : List Use) (s : Handle Slot)
      → s.held ≡ some slot
      → (lost (dbus_slot_gc (used us s)).touches ≡ lost s.touches ++ slot ∷ [])
        × ((dbus_slot_gc (used us s)).held ≡ none)
  unfolding dbus_slot_gc
  dbus_slot_gc-used us s here = (unref-lost (used us s) ∙ used-account us s ∙ rw here refl, refl)
