-- ===== src/Slots.antt =====
-- Slots: src/slot.c, and what `closeall_pending` of src/async.c does to one.
pub mod Released
use janet_sdbus.Base.{false, List, [], ◌∷◌}
use janet_sdbus.Handles.{set_floating, Handle, touch, unref}

-- What can happen to a slot before the garbage collector takes it.
pub data Use : Type 0 where
  cancelling closing : Use

module _ {Slot : Type 0} where
  unfoldable pub dbus_slot_gc : Handle Slot → Handle Slot
  unfolding unref
  dbus_slot_gc = unref

  -- `sd_bus_slot_set_floating`, whose result is not looked at.
  unfoldable pub cancel_slot : Handle Slot → Handle Slot
  unfolding unref
  cancel_slot s = unref (touch (set_floating s.held false) s)

  -- The end of the connection, while the slot's node is queued.
  unfoldable pub close_slot : Handle Slot → Handle Slot
  unfolding unref
  close_slot = unref

  abbrev pub use_once : Use → Handle Slot → Handle Slot
  use_once cancelling = cancel_slot
  use_once closing = close_slot

  abbrev pub used : List Use → Handle Slot → Handle Slot
  used [] s = s
  used (u ∷ us) s = used us (use_once u s)
