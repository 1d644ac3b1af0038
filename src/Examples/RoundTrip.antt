-- ===== src/Examples/RoundTrip.antt =====
-- A witness for the round trip: a message is sealed by putting its calls together to a tree of values.
use janet_sdbus.RoundTrip.{has_fd}
use janet_sdbus.Base.{
  subst, false, Bool-cases, ok, ℕ, ◌≡◌, refl, ◌∙◌, ap, true, inl, inr, Option, none, some, List, [],
  ◌∷◌, ◌++◌, append_assoc, append-nil, ◌==◌, if◌then◌else◌, ℤ, pos, is_negative, ◌⊎◌,
}
use janet_sdbus.Signature.{Bytes, deref}
use janet_sdbus.Signature.Types.{Basic, render, render_all}
use janet_sdbus.Platform.{
  Datum, Call, open_container, close_container, append, append_basic, append_array,
}
use janet_sdbus.Unwrap.{
  State, dbus_errctx_reset, dbus_errctx_inc, dbus_errctx_set, dbus_errctx_exit,
}
use janet_sdbus.Append.{append_data}
use janet_sdbus.Append.Encoding.{accepted, send}
use janet_sdbus.Reader.Wires.{Wire, Wires, nothing, more, type_code, contents, inside, is_container}
use janet_sdbus.RoundTrip.{
  Link, datum_basic, call_basic, text_basic, IsPlaced, stored, byte_wires, Puts, put_nothing,
  put_basic, put_bytes, put_container,
}
use janet_sdbus.RoundTrip.Law.{Carries, ReadsBack, message_read-returned, message_read-append_data}
use janet_sdbus.Examples.Append.{types, both, five, calls, encodes}
use janet_sdbus.Examples.Stand.{Value, refuses, answer, opens_one_type, stand, fresh}
use janet_sdbus.Examples.Cursor.{reading, cursor, at_start}

-- What is known of the calls behind a point: the values up to the end of the container, and those behind
-- the ends that follow.
abbrev Parsed : Type 0
Parsed = Wires Value × List (Wires Value)

abbrev basic_value : Datum ℤ → Value
basic_value (Datum.y n) = Value.number (pos n)
basic_value (Datum.b v) = Value.boolean v
basic_value (Datum.n z) = Value.number z
basic_value (Datum.q n) = Value.number (pos n)
basic_value (Datum.i z) = Value.number z
basic_value (Datum.u n) = Value.number (pos n)
basic_value (Datum.x z) = Value.number z
basic_value (Datum.t n) = Value.number (pos n)
basic_value (Datum.d z) = Value.number z
basic_value (Datum.h z) = Value.number z

abbrev wire_bytes : Bytes → Wires Value
wire_bytes [] = nothing
wire_bytes (n ∷ ns) = more (Wire.basic Basic.byte (Value.number (pos n))) (wire_bytes ns)

abbrev entry_of : Bytes → Wires Value → Wire Value
entry_of (c ∷ s) (more (Wire.basic k x) (more w nothing)) = Wire.entry k x s w
entry_of s ws = Wire.struct s ws

abbrev variant_of : Bytes → Wires Value → Wire Value
variant_of s (more w nothing) = Wire.variant s w
variant_of s ws = Wire.struct s ws

abbrev container : ℕ → Bytes → Wires Value → Wire Value
container type s ws =
    if type == b'v'
    then variant_of s ws
    else if type == b'r'
    then Wire.struct s ws
    else if type == b'a'
    then (if deref s == b'{' then Wire.dict s ws else Wire.array s ws)
    else entry_of s ws

abbrev text_wires : Option Basic → Bytes → Wires Value → Wires Value
text_wires none bs ws = ws
text_wires (some k) bs ws = more (Wire.basic k (Value.string bs)) ws

abbrev place : Call ℤ → Parsed → Parsed
place (open_container type s) (ws, []) = (more (container type s ws) nothing, [])
place (open_container type s) (ws, behind ∷ outer) = (more (container type s ws) behind, outer)
place close_container (ws, outer) = (nothing, ws ∷ outer)
place (append datum) (ws, outer) =
    (more (Wire.basic (datum_basic datum) (basic_value datum)) ws, outer)
place (append_basic type bs) (ws, outer) = (text_wires (text_basic type) bs ws, outer)
place (append_array type bs) (ws, outer) = (more (Wire.array (type ∷ []) (wire_bytes bs)) ws, outer)

abbrev parse : List (Call ℤ) → Parsed
parse [] = (nothing, [])
parse (c ∷ cs) = place c (parse cs)

abbrev join : Wires Value → Wires Value → Wires Value
join nothing vs = vs
join (more w ws) vs = more w (join ws vs)

abbrev link : Link stand reading
link = record { datum = basic_value; text = Value.string; seal = λ cs. at_start ((parse cs).0) }

byte_wires_lem : (bs : Bytes) → byte_wires link bs ≡ wire_bytes bs
byte_wires_lem [] = refl
byte_wires_lem (n ∷ ns) = rw (byte_wires_lem ns) refl

join-nothing : (ws : Wires Value) → join ws nothing ≡ ws
join-nothing nothing = refl
join-nothing (more w ws) = ap (more w) (join-nothing ws)

container_lem :
    (v : Wire Value)
    → is_container v ≡ true
    → IsPlaced v
    → container (type_code v) (contents v) (inside v) ≡ v
container_lem (Wire.basic k x) c p = absurd cc
container_lem (Wire.variant s w) c p = refl
container_lem (Wire.struct s ws) c p = refl
container_lem (Wire.array s ws) c p = rw p refl
container_lem (Wire.dict s ws) c p = rw p refl
container_lem (Wire.entry k x s w) c p = refl

place_basic :
    (c : Call ℤ) (k : Basic) (p : Parsed)
    → call_basic c ≡ some k
    → place c p ≡ (more (Wire.basic k (stored link c)) (p.0), p.1)
place_basic (append datum) k p e = cc
place_basic (append_basic type bs) k p e = rw e refl
place_basic (open_container type s) k p e = absurd cc
place_basic close_container k p e = absurd cc
place_basic (append_array type s) k p e = absurd cc

parse-Puts :
    {cs : List (Call ℤ)} {ws : Wires Value} (ds : List (Call ℤ))
    → Puts link cs ws
    → parse (cs ++ ds) ≡ (join ws ((parse ds).0), (parse ds).1)
parse-Puts ds put_nothing = refl
parse-Puts ds (put_basic {c} {k} {cs} e p) =
    place_basic c k (parse (cs ++ ds)) e ∙ rw (parse-Puts ds p) refl
parse-Puts ds (put_bytes {bs} p) = rw (parse-Puts ds p, byte_wires_lem bs) refl
parse-Puts ds (put_container {body} {cs} v c placed p q) =
    rw
      (
        append_assoc body (close_container ∷ cs) ds,
        parse-Puts (close_container ∷ (cs ++ ds)) p,
        parse-Puts ds q,
        join-nothing (inside v),
        container_lem v c placed,
      )
      refl

answer-cases :
    (c : Call ℤ) (m : List (Call ℤ))
    → (is_negative (answer c m).0 ≡ true) ⊎ (answer c m ≡ (pos 0, m ++ c ∷ []))
answer-cases c m = elim (Bool-cases (refuses c)) [
  | inl stop ↦ inl (rw stop refl)
  | inr go ↦ inr (rw go refl)
]

-- A message that accepts the calls is the list of them.
send-accepted : (cs ms ns : List (Call ℤ)) → send cs ms ≡ accepted ns → ns ≡ ms ++ cs
unfolding send
send-accepted [] ms ns e = rw (append-nil ms) cc
send-accepted (c ∷ cs) ms ns e = elim (answer-cases c ms) [
  | inl stop ↦ let bad = rw stop at e in absurd cc
  | inr go ↦ send-accepted cs (ms ++ c ∷ []) ns (rw go at e) ∙ append_assoc ms (c ∷ []) cs
]

parse_all : (cs : List (Call ℤ)) (ws : Wires Value) → Puts link cs ws → (parse cs).0 ≡ ws
parse_all cs ws p = ap (λ q. q.0) (rw (append-nil cs) at (parse-Puts [] p)) ∙ join-nothing ws

carries : Carries link cursor []
carries cs ws m no_fd p e =
    rw (send-accepted cs [] m e, parse_all cs ws p) (record { told = refl; holds = (refl, refl) })

accepts : send calls fresh.msg ≡ accepted calls
unfolding send
accepts = refl

message_read-append_data_example :
    ReadsBack link cursor types
      (both ∷ five ∷ [])
      (append_data 3 (render_all types) (both ∷ five ∷ []) fresh)
message_read-append_data_example =
    message_read-append_data link cursor fresh carries encodes refl accepts

-- The state after the run.
abbrev written : State (List (Call ℤ))
written = record {
  msg = calls;
  errctx = record {
    sig_first = some (record { owner = 0; text = b'u' ∷ [] });
    sig_child = some (record { owner = 0; text = b'i' ∷ [] });
    len_first = 1;
    len_child = 1;
    depth = 0;
    argc = 2;
  };
  allocated = 1;
  freed = 1 ∷ [];
}

append_data_returns : append_data 3 (render_all types) (both ∷ five ∷ []) fresh ≡ ok tt written
unfolding append_data render dbus_errctx_reset dbus_errctx_inc dbus_errctx_set dbus_errctx_exit
append_data_returns = refl

message_read-returned_example :
    ReadsBack link cursor types
      (both ∷ five ∷ [])
      (append_data 3 (render_all types) (both ∷ five ∷ []) fresh)
message_read-returned_example =
    message_read-returned link cursor opens_one_type 3 types (both ∷ five ∷ []) fresh written
      (λ cs es accepted. subst (λ ds. has_fd ds ≡ false) (send-accepted cs [] calls accepted) refl)
      carries append_data_returns
