-- ===== src/Reader/Cursor.antt =====
-- What sd-bus promises of a message that is read: a cursor over the values of the container that was
-- entered last, and of those around it. And the rules for runs that move it.
use janet_sdbus.Base.{◌≡◌, refl, true, false, List, ◌∷◌, Outcome, ok, and_then, ℤ, pos, is_negative}
use janet_sdbus.Signature.Types.{Basic, code}
use janet_sdbus.Reader.{ReadLibrary, ReadError, Reading, enter, exit, message_peek, read_value}
use janet_sdbus.Reader.Wires.{
  Wire, Wires, nothing, more, type_code, contents, inside, is_container, c_type,
}

module _ ⦃r : ReadLibrary⦄ where
  open r use {Message, Value, peek_type, enter_container, exit_container, read_basic}

  -- A call that succeeds, and where the cursor is after it.
  pub record Moves (Holds : Message → Wires Value → List (Wires Value) → Type 0) (ws : Wires Value)
      (outer : List (Wires Value)) (result : ℤ × Message) : Type 0 where
    pub told : is_negative (result.0) ≡ false
    pub holds : Holds (result.1) ws outer

  pub record Cursor : Type 1 where
    -- `Holds m ws outer`: the values `ws` are left in the container that the cursor is in, and after it
    -- those of `outer`, the innermost first.
    pub Holds : Message → Wires Value → List (Wires Value) → Type 0
    pub peek_end :
        (m : Message) (outer : List (Wires Value)) → Holds m nothing outer → (peek_type m).0 ≡ pos 0
    pub peek_more :
        (m : Message) (w : Wire Value) (ws : Wires Value) (outer : List (Wires Value))
        → Holds m (more w ws) outer
        → peek_type m ≡ (pos 1, (type_code w, contents w))
    pub enter_more :
        (m : Message) (w : Wire Value) (ws : Wires Value) (outer : List (Wires Value))
        → is_container w ≡ true
        → Holds m (more w ws) outer
        → Moves Holds (inside w) (ws ∷ outer) (enter_container (type_code w) (contents w) m)
    pub exit_end :
        (m : Message) (ws : Wires Value) (outer : List (Wires Value))
        → Holds m nothing (ws ∷ outer)
        → Moves Holds ws outer (exit_container m)
    pub read_more :
        (m : Message) (k : Basic) (x : Value) (ws : Wires Value) (outer : List (Wires Value))
        → Holds m (more (Wire.basic k x) ws) outer
        → ((read_basic (code k) (c_type k) m).1.0 ≡ x)
          × Moves Holds ws outer
              ((read_basic (code k) (c_type k) m).0, (read_basic (code k) (c_type k) m).1.1)

  module _ (C : Cursor) where
    open C use {Holds, peek_end, peek_more, enter_more, exit_end, read_more}

    -- A run that returns `a` and leaves the cursor before `ws`.
    pub data Gives {A : Type 0} (a : A) (ws : Wires Value) (outer : List (Wires Value))
        : Outcome ReadError Message A → Type 0 where
      gives : {m : Message} → Holds m ws outer → Gives a ws outer (ok a m)

    pub Gives-bind :
        {A B : Type 0} {a : A} {b : B} {ws ws' : Wires Value} {outer outer' : List (Wires Value)}
        {o : Outcome ReadError Message A} (k : A → Reading B)
        → Gives a ws outer o
        → ((m : Message) → Holds m ws outer → Gives b ws' outer' (k a m))
        → Gives b ws' outer' (and_then o k)
    Gives-bind k (gives {m} h) go = go m h

    pub enter-Gives :
        (m : Message) (w : Wire Value) (ws : Wires Value) (outer : List (Wires Value))
        → is_container w ≡ true
        → Holds m (more w ws) outer
        → Gives tt (inside w) (ws ∷ outer) (enter (type_code w) (contents w) m)
    unfolding enter
    enter-Gives m w ws outer c h =
        let moves = enter_more m w ws outer c h in rw moves.told (gives moves.holds)

    pub exit-Gives :
        (m : Message) (ws : Wires Value) (outer : List (Wires Value))
        → Holds m nothing (ws ∷ outer)
        → Gives tt ws outer (exit m)
    unfolding exit
    exit-Gives m ws outer h = let moves = exit_end m ws outer h in rw moves.told (gives moves.holds)

    pub message_peek-end :
        (m : Message) (outer : List (Wires Value))
        → Holds m nothing outer
        → message_peek m ≡ ok (false, (peek_type m).1) m
    unfolding message_peek
    message_peek-end m outer h = rw (peek_end m outer h) refl

    pub message_peek-more :
        (m : Message) (w : Wire Value) (ws : Wires Value) (outer : List (Wires Value))
        → Holds m (more w ws) outer
        → message_peek m ≡ ok (true, (type_code w, contents w)) m
    unfolding message_peek
    message_peek-more m w ws outer h = rw (peek_more m w ws outer h) refl

    pub read_value-Gives :
        (m : Message) (k : Basic) (x : Value) (ws : Wires Value) (outer : List (Wires Value))
        → Holds m (more (Wire.basic k x) ws) outer
        → Gives x ws outer (read_value (code k) (c_type k) m)
    unfolding read_value
    read_value-Gives m k x ws outer h =
        let (same, moves) = read_more m k x ws outer h in rw (moves.told, same) (gives moves.holds)
