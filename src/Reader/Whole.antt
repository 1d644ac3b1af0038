-- ===== src/Reader/Whole.antt =====
-- `sdbus/message-read` of src/message.c: all items, the rest, or up to a number of them.
use janet_sdbus.Base.{
  ℕ, zero, suc, ◌≤◌, ◌≡◌, refl, false, List, [], panic, arith, pos, negsuc, take,
}
use janet_sdbus.Signature.{Bytes}
use janet_sdbus.Reader.{
  ReadLibrary, invalid_keyword, expected_positive, read_up_to, read_complete_type, keyword, count,
  message_rewind, popped, is_word, all, rest, message_read,
}
use janet_sdbus.Reader.Wires.{Wires, nothing, more, sizes, MeansAll, none_left, and_then}
use janet_sdbus.Reader.Cursor.{Cursor, Moves, Gives, gives, Gives-bind}
use janet_sdbus.Reader.Items.{read_items-MeansAll}
use janet_sdbus.Reader.Complete.{read_complete_type-Understands}

-- The values after the first `n`.
abbrev pub drop_wires : {V : Type 0} → ℕ → Wires V → Wires V
drop_wires zero ws = ws
drop_wires (suc n) nothing = nothing
drop_wires (suc n) (more w ws) = drop_wires n ws

module _ ⦃r : ReadLibrary⦄ where
  open r use {Janet, Message, Value, rewind}

  module _ (C : Cursor) where
    open C use {Holds}

    rewind-Gives :
        (m : Message) (ws : Wires Value)
        → Moves Holds ws [] (rewind m)
        → Gives C tt ws [] (message_rewind m)
    unfolding message_rewind
    rewind-Gives m ws moves = rw moves.told (gives moves.holds)

    read_rest :
        {ws : Wires Value} {vs : List Janet} (fuel : ℕ) (m : Message) (outer : List (Wires Value))
        → MeansAll ws vs
        → sizes ws ≤ fuel
        → Holds m ws outer
        → Gives C (popped vs) nothing outer (message_read fuel (keyword rest) m)
    unfolding message_read
    read_rest fuel m outer ds enough h =
        Gives-bind C _
          (read_items-MeansAll C (read_complete_type-Understands C fuel) fuel m outer ds enough
            enough h)
          λ m' h'. gives h'

    pub message_read-all :
        {ws : Wires Value} {vs : List Janet} (fuel : ℕ) (m : Message)
        → MeansAll ws vs
        → sizes ws ≤ fuel
        → Moves Holds ws [] (rewind m)
        → Gives C (popped vs) nothing [] (message_read fuel (keyword all) m)
    unfolding message_read
    message_read-all {ws} fuel m ds enough start = Gives-bind C _ (rewind-Gives m ws start) λ m₁ h₁.
        Gives-bind C _
          (read_items-MeansAll C (read_complete_type-Understands C fuel) fuel m₁ [] ds enough enough
            h₁)
          λ m₂ h₂. gives h₂

    -- Of a message that holds the values `ws`, of which `ws'` are left in the container of its cursor:
    -- with `:all`, `ws` are read from the message's start, with `:rest`, `ws'` from where the cursor is.
    -- The result is nil for no value, the value for one, and an array of them for more, and the cursor
    -- is left behind what was read. The fuel is at least the size of what is read, and sd-bus's cursor
    -- keeps its laws.
    pub message_read-keyword :
        {ws ws' : Wires Value} {vs vs' : List Janet} (fuel : ℕ) (m : Message)
        (outer : List (Wires Value))
        → MeansAll ws vs
        → MeansAll ws' vs'
        → sizes ws ≤ fuel
        → sizes ws' ≤ fuel
        → Moves Holds ws [] (rewind m)
        → Holds m ws' outer
        → Gives C (popped vs) nothing [] (message_read fuel (keyword all) m)
          × Gives C (popped vs') nothing outer (message_read fuel (keyword rest) m)
    message_read-keyword fuel m outer ds ds' enough enough' start h =
        (message_read-all fuel m ds enough start, read_rest fuel m outer ds' enough' h)

    read_up_to-MeansAll :
        (n : ℕ) {ws : Wires Value} {vs : List Janet} (fuel : ℕ) (m : Message)
        (outer : List (Wires Value))
        → MeansAll ws vs
        → sizes ws ≤ fuel
        → Holds m ws outer
        → Gives C (take n vs) (drop_wires n ws) outer (read_up_to n (read_complete_type fuel) m)
    unfolding read_up_to sizes
    read_up_to-MeansAll zero fuel m outer ds enough h = gives h
    read_up_to-MeansAll (suc n) fuel m outer none_left enough h =
        Gives-bind C _ ((read_complete_type-Understands C fuel).ends m outer (omega arith) h)
          λ m' h'. gives h'
    read_up_to-MeansAll (suc n) fuel m outer (and_then {w} {ws} d ds) enough h =
        Gives-bind C _ ((read_complete_type-Understands C fuel).item m ws outer d (omega arith) h)
          λ m₁ h₁.
            Gives-bind C _ (read_up_to-MeansAll n fuel m₁ outer ds (omega arith) h₁)
              λ m₂ h₂. gives h₂

    -- With a number, that many values are read from where the cursor is, or as many as are left in
    -- its container, and the cursor is left behind them, where it keeps its laws and the fuel is at
    -- least the size of what is left.
    pub message_read-count :
        (n : ℕ) {ws : Wires Value} {vs : List Janet} (fuel : ℕ) (m : Message)
        (outer : List (Wires Value))
        → MeansAll ws vs
        → sizes ws ≤ fuel
        → Holds m ws outer
        → Gives C (popped (take n vs)) (drop_wires n ws) outer (message_read fuel (count (pos n)) m)
    unfolding message_read
    message_read-count n fuel m outer ds enough h =
        Gives-bind C _ (read_up_to-MeansAll n fuel m outer ds enough h) λ m' h'. gives h'

  -- Any other keyword, and a negative number, panic, and the message is not touched.
  pub message_read-refused :
      (fuel : ℕ) (m : Message) (sym : Bytes) (n : ℕ)
      → is_word sym all ≡ false
      → is_word sym rest ≡ false
      → (message_read fuel (keyword sym) m ≡ panic (invalid_keyword sym) m)
        × (message_read fuel (count (negsuc n)) m ≡ panic expected_positive m)
  unfolding message_read
  message_read-refused fuel m sym n no_all no_rest = (rw (no_all, no_rest) refl, refl)
