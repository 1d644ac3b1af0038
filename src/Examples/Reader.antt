-- ===== src/Examples/Reader.antt =====
-- Witnesses and runs for the reader.
use janet_sdbus.Base.{arith, refl, none, some, [], ◌∷◌, pos}
use janet_sdbus.Signature.Types.{Basic}
use janet_sdbus.Reader.{read_complete_type, keyword, count, all, rest, message_read}
use janet_sdbus.Reader.Wires.{
  Wire, Wires, nothing, more, size, sizes, plain, Means, MeansAll, none_left, and_then, no_entry,
  and_entry,
}
use janet_sdbus.Reader.Cursor.{Gives}
use janet_sdbus.Reader.Complete.{read_complete_type-Means}
use janet_sdbus.Reader.Whole.{message_read-keyword, message_read-count}
use janet_sdbus.Examples.Stand.{Value, Values, Pairs}
use janet_sdbus.Examples.Cursor.{Reading, at_start, reading, cursor}

-- A string, and a struct of a byte, a variant with a number, and a dictionary.
abbrev text : Value
text = Value.string (b'a' ∷ [])

abbrev seven : Value
seven = Value.number (pos 7)

abbrev table : Wire Value
table =
    Wire.dict (b'{' ∷ b's' ∷ b'u' ∷ b'}' ∷ [])
      (more (Wire.entry Basic.string text (b'u' ∷ []) (Wire.basic Basic.uint32 seven)) nothing)

abbrev choice : Wire Value
choice = Wire.variant (b'i' ∷ []) (Wire.basic Basic.int32 seven)

abbrev struct : Wire Value
struct =
    Wire.struct (b'v' ∷ b'a' ∷ b'{' ∷ b's' ∷ b'u' ∷ b'}' ∷ []) (more choice (more table nothing))

abbrev wires : Wires Value
wires = more (Wire.basic Basic.string text) (more struct nothing)

abbrev shown : Value
shown = Value.tuple (
    Values.more
      (Value.tuple (Values.more (Value.string (b'i' ∷ [])) (Values.more seven Values.nothing)))
      (Values.more (Value.table (Pairs.pair text seven Pairs.end)) Values.nothing))

struct-Means : Means struct shown
struct-Means = Means.struct (
    and_then (Means.variant (Means.basic (plain refl))) (
      and_then (Means.dict refl (and_entry (plain refl) (Means.basic (plain refl)) no_entry))
        none_left))

wires-MeansAll : MeansAll wires (text ∷ shown ∷ [])
wires-MeansAll = and_then (Means.basic (plain refl)) (and_then struct-Means none_left)

-- Behind the first value, and at the end of the struct.
abbrev second : Reading
second = record { left = more struct nothing; around = []; whole = wires }

abbrev ended : Reading
ended = record { left = nothing; around = nothing ∷ []; whole = wires }

read_complete_type-Means_example :
    Gives cursor (some shown) nothing (nothing ∷ []) (
      read_complete_type 11
        (record { left = more struct nothing; around = nothing ∷ []; whole = wires }))
    × Gives cursor none nothing (nothing ∷ []) (read_complete_type 11 ended)
unfolding size
read_complete_type-Means_example =
    read_complete_type-Means cursor 11
      (record { left = more struct nothing; around = nothing ∷ []; whole = wires }) ended nothing
      (nothing ∷ []) struct-Means (omega arith) (refl, refl) (refl, refl)

abbrev in_struct : Wires Value
in_struct = more choice (more table nothing)

abbrev inner : Reading
inner = record { left = in_struct; around = nothing ∷ []; whole = wires }

in_struct-MeansAll : MeansAll in_struct (
    Value.tuple (Values.more (Value.string (b'i' ∷ [])) (Values.more seven Values.nothing))
    ∷ Value.table (Pairs.pair text seven Pairs.end)
    ∷ [])
in_struct-MeansAll = and_then (Means.variant (Means.basic (plain refl))) (
    and_then (Means.dict refl (and_entry (plain refl) (Means.basic (plain refl)) no_entry))
      none_left)

message_read-keyword_example :
    Gives cursor
      (Value.tuple (Values.more text (Values.more shown Values.nothing)))
      nothing
      []
      (message_read 16 (keyword all) inner)
    × Gives cursor
        (Value.tuple (
          Values.more
            (Value.tuple
              (Values.more (Value.string (b'i' ∷ [])) (Values.more seven Values.nothing)))
            (Values.more (Value.table (Pairs.pair text seven Pairs.end)) Values.nothing)))
        nothing
        (nothing ∷ [])
        (message_read 16 (keyword rest) inner)
unfolding size sizes
message_read-keyword_example =
    message_read-keyword cursor 16 inner (nothing ∷ []) wires-MeansAll in_struct-MeansAll
      (omega arith) (omega arith) (record { told = refl; holds = (refl, refl) }) (refl, refl)

message_read-count_example :
    Gives cursor text (more struct nothing) [] (message_read 16 (count (pos 1)) (at_start wires))
unfolding size sizes
message_read-count_example =
    message_read-count cursor 1 16 (at_start wires) [] wires-MeansAll (omega arith) (refl, refl)
