-- ===== src/Reader/Items.antt =====
-- The loops of the reader in src/message.c: the members of a container, and the entries of a
-- dictionary. What they need of `read_complete_type` is `Understands`.
use janet_sdbus.Base.{ℕ, zero, suc, ◌≤◌, refl, none, some, List, ◌∷◌, arith}
use janet_sdbus.Signature.Types.{Basic, code}
use janet_sdbus.Reader.{ReadLibrary, Reader, read_items, read_entry, read_entries}
use janet_sdbus.Reader.Wires.{
  Wire, Wires, nothing, more, size, sizes, MeansBasic, Means, MeansAll, none_left, and_then,
  MeansEntries, no_entry, and_entry,
}
use janet_sdbus.Reader.Cursor.{
  Cursor, Gives, gives, Gives-bind, enter-Gives, exit-Gives, message_peek-end, message_peek-more,
}
use janet_sdbus.Reader.Basics.{read_basic_type-MeansBasic}

module _ ⦃r : ReadLibrary⦄ (C : Cursor) where
  open r use {Janet, Message, Value}
  open C use {Holds}

  -- A reader that reads every value of at most the size `n`, and tells the end of a container.
  pub record Understands (complete : Reader) (n : ℕ) : Type 0 where
    pub item :
        (m : Message) {w : Wire Value} {v : Janet} (ws : Wires Value) (outer : List (Wires Value))
        → Means w v
        → size w ≤ n
        → Holds m (more w ws) outer
        → Gives C (some v) ws outer (complete m)
    pub ends :
        (m : Message) (outer : List (Wires Value))
        → 1 ≤ n
        → Holds m nothing outer
        → Gives C none nothing outer (complete m)

  module _ {complete : Reader} {n : ℕ} (U : Understands complete n) where
    pub read_items-MeansAll :
        (fuel : ℕ) {ws : Wires Value} {vs : List Janet} (m : Message) (outer : List (Wires Value))
        → MeansAll ws vs
        → sizes ws ≤ fuel
        → sizes ws ≤ n
        → Holds m ws outer
        → Gives C vs nothing outer (read_items fuel complete m)
    unfolding read_items sizes
    read_items-MeansAll zero m outer none_left few small h = absurd (omega arith)
    read_items-MeansAll zero m outer (and_then d ds) few small h = absurd (omega arith)
    read_items-MeansAll (suc fuel) m outer none_left few small h =
        Gives-bind C _ (U.ends m outer (omega arith) h) λ m' h'. gives h'
    read_items-MeansAll (suc fuel) m outer (and_then {w} {ws} d ds) few small h =
        Gives-bind C _ (U.item m ws outer d (omega arith) h) λ m' h'.
          Gives-bind C _ (read_items-MeansAll fuel m' outer ds (omega arith) (omega arith) h')
            λ m'' h''. gives h''

    read_entry-Means :
        {k : Basic} {x : Value} {key v : Janet} {w : Wire Value} (s : _) (m : Message)
        (ws : Wires Value) (outer : List (Wires Value))
        → MeansBasic k x key
        → Means w v
        → size w ≤ n
        → Holds m (more (Wire.entry k x s w) ws) outer
        → Gives C (key, v) ws outer (read_entry complete (code k ∷ s) m)
    unfolding read_entry
    read_entry-Means {k} {x} {w} s m ws outer b d small h =
        Gives-bind C _ (enter-Gives C m (Wire.entry k x s w) ws outer refl h) λ m₁ h₁.
          Gives-bind C _ (read_basic_type-MeansBasic C m₁ (more w nothing) (ws ∷ outer) b h₁)
            λ m₂ h₂.
              Gives-bind C _ (U.item m₂ nothing (ws ∷ outer) d small h₂)
                λ m₃ h₃. Gives-bind C _ (exit-Gives C m₃ ws outer h₃) λ m₄ h₄. gives h₄

    pub read_entries-MeansEntries :
        (fuel : ℕ) {ws : Wires Value} {kvs : List (Janet × Janet)} (m : Message)
        (outer : List (Wires Value))
        → MeansEntries ws kvs
        → sizes ws ≤ fuel
        → sizes ws ≤ n
        → Holds m ws outer
        → Gives C kvs nothing outer (read_entries fuel complete m)
    unfolding read_entries sizes size
    read_entries-MeansEntries zero m outer no_entry few small h = absurd (omega arith)
    read_entries-MeansEntries zero m outer (and_entry b d ds) few small h = absurd (omega arith)
    read_entries-MeansEntries (suc fuel) m outer no_entry few small h =
        rw (message_peek-end C m outer h) (gives h)
    read_entries-MeansEntries (suc fuel) m outer (and_entry {k} {x} {s} {w} {ws} b d ds) few small
          h =
        rw (message_peek-more C m (Wire.entry k x s w) ws outer h) (
          Gives-bind C _ (read_entry-Means s m ws outer b d (omega arith) h) λ m₁ h₁.
            Gives-bind C _
              (read_entries-MeansEntries fuel m₁ outer ds (omega arith) (omega arith) h₁)
              λ m₂ h₂. gives h₂)
