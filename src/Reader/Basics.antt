-- ===== src/Reader/Basics.antt =====
-- Basic values: `read_basic_type` of src/message.c.
use janet_sdbus.Base.{◌≡◌, false, List, ◌==◌}
use janet_sdbus.Signature.Types.{Basic, code, fd}
use janet_sdbus.Reader.{ReadLibrary, dbus_to_janet, read_fd_type, read_basic_type}
use janet_sdbus.Reader.Wires.{Wire, Wires, more, wrapper, c_type, MeansBasic, plain, copied}
use janet_sdbus.Reader.Cursor.{Cursor, Gives, gives, Gives-bind, read_value-Gives}

module _ ⦃r : ReadLibrary⦄ (C : Cursor) where
  open r use {Janet, Message, Value, wrap}
  open C use {Holds}

  dbus_to_janet-Gives :
      (m : Message) (k : Basic) (x : Value) (ws : Wires Value) (outer : List (Wires Value))
      → Holds m (more (Wire.basic k x) ws) outer
      → Gives C (wrap (wrapper k) x) ws outer (dbus_to_janet (wrapper k) (c_type k) (code k) m)
  unfolding dbus_to_janet
  dbus_to_janet-Gives m k x ws outer h =
      Gives-bind C _ (read_value-Gives C m k x ws outer h) λ m' h'. gives h'

  read_plain :
      (m : Message) (k : Basic) (x : Value) (ws : Wires Value) (outer : List (Wires Value))
      → (code k == b'h') ≡ false
      → Holds m (more (Wire.basic k x) ws) outer
      → Gives C (wrap (wrapper k) x) ws outer (read_basic_type (code k) m)
  unfolding read_basic_type
  read_plain m Basic.byte x ws outer e h = dbus_to_janet-Gives m Basic.byte x ws outer h
  read_plain m Basic.fd x ws outer e h = cc
  read_plain m k x ws outer e h = dbus_to_janet-Gives m _ x ws outer h

  pub read_basic_type-MeansBasic :
      {k : Basic} {x : Value} {v : Janet} (m : Message) (ws : Wires Value)
      (outer : List (Wires Value))
      → MeansBasic k x v
      → Holds m (more (Wire.basic k x) ws) outer
      → Gives C v ws outer (read_basic_type (code k) m)
  unfolding read_basic_type read_fd_type
  read_basic_type-MeansBasic m ws outer (plain {k} {x} e) h = read_plain m k x ws outer e h
  read_basic_type-MeansBasic m ws outer (copied {x} duplicated mode) h =
      Gives-bind C _ (read_value-Gives C m fd x ws outer h)
        λ m' h'. rw (duplicated, mode) (gives h')
