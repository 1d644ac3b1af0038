-- ===== src/Reader/Complete.antt =====
-- `read_complete_type` of src/message.c, on every D-Bus value.
use janet_sdbus.Base.{ℕ, zero, suc, ◌≤◌, ◌≡◌, refl, none, some, List, [], ◌∷◌, arith}
use janet_sdbus.Signature.Types.{Basic, code}
use janet_sdbus.Reader.{
  ReadLibrary, Reader, read_basic_type, read_variant_type, read_struct_type, read_array_type,
  read_dict_type, read_by_type, read_complete_type,
}
use janet_sdbus.Reader.Wires.{
  Wire, Wires, nothing, more, size, type_code, contents, Means, basic, variant, struct, array, dict,
}
use janet_sdbus.Reader.Cursor.{
  Cursor, Gives, gives, Gives-bind, enter-Gives, exit-Gives, message_peek-end, message_peek-more,
}
use janet_sdbus.Reader.Basics.{read_basic_type-MeansBasic}
use janet_sdbus.Reader.Items.{Understands, read_items-MeansAll, read_entries-MeansEntries}

module _ ⦃r : ReadLibrary⦄ (C : Cursor) where
  open r use {Janet, Message, Value}
  open C use {Holds}

  by_basic :
      (k : Basic) (fuel : ℕ) (complete : Reader) (m : Message)
      → read_by_type fuel complete (code k) [] m ≡ read_basic_type (code k) m
  unfolding read_by_type
  by_basic Basic.byte fuel complete m = refl
  by_basic _ fuel complete m = refl

  read_by_type-Means :
      {complete : Reader} {w : Wire Value} {v : Janet} (fuel : ℕ) (m : Message) (ws : Wires Value)
      (outer : List (Wires Value))
      → Understands C complete fuel
      → Means w v
      → size w ≤ suc fuel
      → Holds m (more w ws) outer
      → Gives C v ws outer (read_by_type fuel complete (type_code w) (contents w) m)
  unfolding read_by_type read_variant_type read_struct_type read_dict_type read_array_type size
  read_by_type-Means {complete} fuel m ws outer U (basic {k} b) small h =
      rw (by_basic k fuel complete m) (read_basic_type-MeansBasic C m ws outer b h)
  read_by_type-Means fuel m ws outer U (variant {s} {w} d) small h =
      Gives-bind C _ (enter-Gives C m (Wire.variant s w) ws outer refl h) λ m₁ h₁.
        Gives-bind C _ (U.item m₁ nothing (ws ∷ outer) d (omega arith) h₁)
          λ m₂ h₂. Gives-bind C _ (exit-Gives C m₂ ws outer h₂) λ m₃ h₃. gives h₃
  read_by_type-Means fuel m ws outer U (struct {s} {ws = items} ds) small h =
      Gives-bind C _ (enter-Gives C m (Wire.struct s items) ws outer refl h) λ m₁ h₁.
        Gives-bind C _
          (read_items-MeansAll C U fuel m₁ (ws ∷ outer) ds (omega arith) (omega arith) h₁)
          λ m₂ h₂. Gives-bind C _ (exit-Gives C m₂ ws outer h₂) λ m₃ h₃. gives h₃
  read_by_type-Means fuel m ws outer U (array {s} {ws = items} no_dict ds) small h = rw no_dict (
      Gives-bind C _ (enter-Gives C m (Wire.array s items) ws outer refl h) λ m₁ h₁.
        Gives-bind C _
          (read_items-MeansAll C U fuel m₁ (ws ∷ outer) ds (omega arith) (omega arith) h₁)
          λ m₂ h₂. Gives-bind C _ (exit-Gives C m₂ ws outer h₂) λ m₃ h₃. gives h₃)
  read_by_type-Means fuel m ws outer U (dict {s} {ws = entries} is_dict ds) small h = rw is_dict (
      Gives-bind C _ (enter-Gives C m (Wire.dict s entries) ws outer refl h) λ m₁ h₁.
        Gives-bind C _
          (read_entries-MeansEntries C U fuel m₁ (ws ∷ outer) ds (omega arith) (omega arith) h₁)
          λ m₂ h₂. Gives-bind C _ (exit-Gives C m₂ ws outer h₂) λ m₃ h₃. gives h₃)

  size_pos : {V : Type 0} (w : Wire V) → 1 ≤ size w
  unfolding size
  size_pos (Wire.basic k x) = omega arith
  size_pos _ = omega arith

  pub read_complete_type-Understands : (fuel : ℕ) → Understands C (read_complete_type fuel) fuel
  unfolding read_complete_type
  read_complete_type-Understands zero = record {
    item = λ m {w} ws outer d small h. absurd (omega (arith, size_pos w));
    ends = λ m outer some_fuel h. absurd (omega arith);
  }
  read_complete_type-Understands (suc fuel) = record {
    item = λ m {w} ws outer d small h. rw (message_peek-more C m w ws outer h) (
        Gives-bind C _
          (read_by_type-Means fuel m ws outer (read_complete_type-Understands fuel) d small h)
          λ m' h'. gives h');
    ends = λ m outer some_fuel h. rw (message_peek-end C m outer h) (gives h);
  }

  -- Where sd-bus's cursor keeps its laws, and with fuel of at least its size, `read_complete_type`
  -- reads a value as what it means, whatever its type and nesting, and leaves the cursor behind it;
  -- at the end of a container it returns 0 in place of a value, and the cursor stays.
  pub read_complete_type-Means :
      {x : Wire Value} {v : Janet} (fuel : ℕ) (m m' : Message) (ws : Wires Value)
      (outer : List (Wires Value))
      → Means x v
      → size x ≤ fuel
      → Holds m (more x ws) outer
      → Holds m' nothing outer
      → Gives C (some v) ws outer (read_complete_type fuel m)
        × Gives C none nothing outer (read_complete_type fuel m')
  read_complete_type-Means {x} fuel m m' ws outer d small h h' =
      let U = read_complete_type-Understands fuel in
      (U.item m ws outer d small h, U.ends m' outer (omega (arith, small, size_pos x)) h')
