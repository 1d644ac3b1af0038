-- ===== src/Examples/Cursor.antt =====
-- A stand-in for the messages that sd-bus reads: a cursor over a tree of values, which keeps the laws of
-- its interface. Janet values are those of the writer's stand-in.
use janet_sdbus.Base.{ℕ, ◌≡◌, refl, none, some, List, [], ◌∷◌, ℤ, pos, negsuc}
use janet_sdbus.Signature.{Bytes}
use janet_sdbus.Reader.{ReadLibrary, AccessMode}
use janet_sdbus.Reader.Wires.{Wire, Wires, nothing, more, type_code, contents, inside}
use janet_sdbus.Reader.Cursor.{Cursor}
use janet_sdbus.Examples.Stand.{Value, Values, Pairs, to_number}

-- The values that are left, those around them, and all values.
pub record Reading : Type 0 where
  pub left : Wires Value
  pub around : List (Wires Value)
  pub whole : Wires Value

abbrev pub at_start : Wires Value → Reading
at_start ws = record { left = ws; around = []; whole = ws }

abbrev values : List Value → Values
values [] = Values.nothing
values (v ∷ vs) = Values.more v (values vs)

abbrev entries : List (Value × Value) → Pairs
entries [] = Pairs.end
entries ((k, v) ∷ kvs) = Pairs.pair k v (entries kvs)

abbrev seen : Wires Value → ℤ × (ℕ × Bytes)
seen nothing = (pos 0, (0, []))
seen (more w ws) = (pos 1, (type_code w, contents w))

abbrev entered : Reading → Wires Value → ℤ × Reading
entered m nothing = (negsuc 5, m)
entered m (more w ws) = (pos 1, record { left = inside w; around = ws ∷ m.around; whole = m.whole })

abbrev left_behind : Reading → Wires Value → List (Wires Value) → ℤ × Reading
left_behind m nothing (ws ∷ outer) = (pos 1, record { left = ws; around = outer; whole = m.whole })
left_behind m _ _ = (negsuc 15, m)

abbrev taken : Reading → Wires Value → ℤ × (Value × Reading)
taken m (more (Wire.basic k x) ws) =
    (pos 1, (x, record { left = ws; around = m.around; whole = m.whole }))
taken m _ = (negsuc 5, (Value.nil, m))

instance abbrev pub reading : ReadLibrary
reading = record {
  Janet = Value;
  Message = Reading;
  Value = Value;
  peek_type = λ m. seen m.left;
  enter_container = λ type s m. entered m m.left;
  exit_container = λ m. left_behind m m.left m.around;
  read_basic = λ type c m. taken m m.left;
  rewind = λ m. (pos 1, at_start m.whole);
  wrap = λ wrapper v. v;
  wrap_nil = Value.nil;
  wrap_string = Value.string;
  wrap_tuple = λ vs. Value.tuple (values vs);
  wrap_array = λ vs. Value.tuple (values vs);
  wrap_table = λ kvs. Value.table (entries kvs);
  descriptor = to_number;
  dup_cloexec = some;
  access_mode = λ n. some AccessMode.read_only;
  socket_type = λ n. none;
  wrap_stream = λ n flags. Value.number n;
}

abbrev pub At : Reading → Wires Value → List (Wires Value) → Type 0
At m ws outer = (m.left ≡ ws) × (m.around ≡ outer)

abbrev pub cursor : Cursor
cursor = record {
  Holds = At;
  peek_end = λ m outer (e, e'). rw e refl;
  peek_more = λ m w ws outer (e, e'). rw e refl;
  enter_more = λ m w ws outer c (e, e'). rw (e, e') (record { told = refl; holds = (refl, refl) });
  exit_end = λ m ws outer (e, e'). rw (e, e') (record { told = refl; holds = (refl, refl) });
  read_more =
      λ m k x ws outer (e, e'). rw (e, e') (refl, record { told = refl; holds = (refl, refl) });
}
