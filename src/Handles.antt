-- ===== src/Handles.antt =====
-- A pointer of an abstract value to an object of libsystemd, and what was done through it: shared by
-- src/slot.c and the messages of src/message.c.
use janet_sdbus.Base.{◌≡◌, refl, Bool, Option, none, some, List, [], ◌∷◌, ◌++◌, append-nil}

-- The calls that a pointer is given to, with what it points to; `none` is NULL.
pub data Touch (H : Type 0) : Type 0 where
  set_floating : Option H → Bool → Touch H
  unreferenced : Option H → Touch H

pub record Handle (H : Type 0) : Type 0 where
  pub held : Option H
  -- the latest last
  pub touches : List (Touch H)

module _ {H : Type 0} where
  abbrev pub touch : Touch H → Handle H → Handle H
  touch t s = record s { touches = s.touches ++ t ∷ [] }

  -- `sd_bus_..._unrefp` on the pointer, which is then NULL.
  unfoldable pub unref : Handle H → Handle H
  unref s = record (touch (unreferenced s.held) s) { held = none }

  abbrev pub object : Option H → List H
  object none = []
  object (some h) = h ∷ []

  -- The objects that have lost a reference, in order: NULL is none.
  abbrev pub lost : List (Touch H) → List H
  lost [] = []
  lost (set_floating o b ∷ ts) = lost ts
  lost (unreferenced o ∷ ts) = object o ++ lost ts

  pub lost-append : (ts us : List (Touch H)) → lost (ts ++ us) ≡ lost ts ++ lost us
  lost-append [] us = refl
  lost-append (set_floating o b ∷ ts) us = lost-append ts us
  lost-append (unreferenced none ∷ ts) us = lost-append ts us
  lost-append (unreferenced (some h) ∷ ts) us = rw (lost-append ts us) refl

  -- What has lost its reference, and what has it still.
  abbrev pub account : Handle H → List H
  account s = lost s.touches ++ object s.held

  pub touch-floating :
      (b : Bool) (s : Handle H) → account (touch (set_floating s.held b) s) ≡ account s
  touch-floating b s =
      rw (lost-append s.touches (set_floating s.held b ∷ []), append-nil (lost s.touches)) refl

  pub unref-account : (s : Handle H) → account (unref s) ≡ account s
  unfolding unref
  unref-account s =
      rw
        (
          lost-append s.touches (unreferenced s.held ∷ []),
          append-nil (object s.held),
          append-nil (lost s.touches ++ object s.held),
        )
        refl

  pub unref-lost : (s : Handle H) → lost (unref s).touches ≡ account s
  unfolding unref
  unref-lost s =
      rw (lost-append s.touches (unreferenced s.held ∷ []), append-nil (object s.held)) refl
