-- ===== src/Examples/Append.antt =====
-- Witnesses and runs for the writer.
use janet_sdbus.Base.{
  ◌<◌, ap, ℕ, negsuc, true, arith, ◌↔◌, ◌≡◌, refl, [], ◌∷◌, ◌++◌, List, Outcome, ok, panic, fault,
  ℤ, pos,
}
use janet_sdbus.Signature.Types.{Basic, Ty, Tys, member, end, render, render_all}
use janet_sdbus.Platform.{Call, Datum}
use janet_sdbus.Unwrap.{
  State, Panic, getuinteger8, checkuint8, excessive_arguments, arguments_missing, dbus_errctx_reset,
  dbus_errctx_inc, dbus_errctx_set, dbus_errctx_exit,
}
use janet_sdbus.Append.{append_data}
use janet_sdbus.Append.Ending.{Ends}
use janet_sdbus.Append.Finishing.Texts.{has}
use janet_sdbus.Append.Fuel.{append_data-ends}
use janet_sdbus.Append.Numbers.{ByteLaws, IsByte, getuinteger8_iff}
use janet_sdbus.Append.Exact.{Leaves, Leads, append_data_iff}
use janet_sdbus.Append.Encoding.{Encodes, EncodesAll, all_none, all_more, send, basic_call}
use janet_sdbus.Append.Sending.{Sends, Refuses}
use janet_sdbus.Append.Arguments.{
  append_data-EncodesAll, append_data-excessive, append_data-missing,
}
use janet_sdbus.Examples.Stand.{Value, Values, Pairs, stand, opens_one_type, fresh}

-- "(sv)u" and the values ["ab" ["i" 7]] and 5
abbrev pub types : Tys
types =
    member (Ty.struct (Ty.basic Basic.string) (member Ty.variant end))
      (member (Ty.basic Basic.uint32) end)

abbrev text : Value
text = Value.string (b'a' ∷ b'b' ∷ [])

abbrev choice : Value
choice =
    Value.tuple
      (Values.more (Value.string (b'i' ∷ [])) (Values.more (Value.number (pos 7)) Values.nothing))

abbrev pub five : Value
five = Value.number (pos 5)

abbrev pub both : Value
both = Value.tuple (Values.more text (Values.more choice Values.nothing))

-- The calls that write them, in order.
abbrev pub calls : List (Call ℤ)
calls =
    Call.open_container b'r' (b's' ∷ b'v' ∷ [])
    ∷ Call.append_basic b's' (b'a' ∷ b'b' ∷ [])
    ∷ Call.open_container b'v' (b'i' ∷ [])
    ∷ Call.append (Datum.i (pos 7))
    ∷ Call.close_container
    ∷ Call.close_container
    ∷ Call.append (Datum.u 5)
    ∷ []

pub encodes : EncodesAll 3 types (both ∷ five ∷ []) calls
unfolding basic_call render checkuint8
encodes =
    all_more
      (Encodes.struct refl (
        all_more (Encodes.basic refl) (
          all_more (Encodes.variant refl refl refl refl (Encodes.basic {k = Basic.int32} refl))
            all_none)))
      (all_more (Encodes.basic refl) all_none)

append_data-EncodesAll_example :
    Sends
      (send calls [])
      (λ _ t. (t.errctx.depth ≡ 0) × (t.errctx.argc ≡ 2))
      (append_data 3 (render_all types) (both ∷ five ∷ []) fresh)
append_data-EncodesAll_example = append_data-EncodesAll fresh encodes

append_data-excessive_example :
    Refuses
      (send calls [])
      (excessive_arguments (render_all types))
      (append_data 3 (render_all types) (both ∷ five ∷ five ∷ []) fresh)
append_data-excessive_example = append_data-excessive five [] fresh encodes

append_data-missing_example :
    Refuses
      (send calls [])
      (arguments_missing (render_all types ++ render_all (member Ty.variant end)))
      (append_data 3
        (render_all types ++ render_all (member Ty.variant end))
        (both ∷ five ∷ [])
        fresh)
append_data-missing_example = append_data-missing Ty.variant end fresh encodes

append_data_iff_example :
    Leaves calls (append_data 3 (render_all types) (both ∷ five ∷ []) fresh)
    ↔ Leads 3 types (both ∷ five ∷ []) [] calls
append_data_iff_example = append_data_iff opens_one_type 3 types (both ∷ five ∷ []) fresh calls

-- "(sau)x" and a value of "(sv)".
append_data-ends_example :
    Ends
      (has b'{' (b'(' ∷ b's' ∷ b'a' ∷ b'u' ∷ b')' ∷ b'x' ∷ []) ≡ true)
      (λ _ _. Unit {0})
      (append_data 8 (b'(' ∷ b's' ∷ b'a' ∷ b'u' ∷ b')' ∷ b'x' ∷ []) (both ∷ five ∷ []) fresh)
    × (append_data 8 (b'(' ∷ b's' ∷ b'a' ∷ b'u' ∷ b')' ∷ b'x' ∷ []) (both ∷ five ∷ []) fresh
        ≡ append_data 20 (b'(' ∷ b's' ∷ b'a' ∷ b'u' ∷ b')' ∷ b'x' ∷ []) (both ∷ five ∷ []) fresh)
append_data-ends_example =
    append_data-ends 8 20 (b'(' ∷ b's' ∷ b'a' ∷ b'u' ∷ b')' ∷ b'x' ∷ []) (both ∷ five ∷ []) fresh
      refl (λ b less. refl) refl (omega arith) (omega arith)

-- A number of the stand-in that equals a natural number is it.
equal_pos : (d : ℤ) (n : ℕ) → stand.double_eq d (pos n) ≡ true → d ≡ pos n
equal_pos (pos k) n e = ap pos (ground arith)
equal_pos (negsuc k) n e = absurd cc

in_range : (d : ℤ) → stand.to_uint8 d < 256
in_range (pos n) = omega arith
in_range (negsuc n) = omega arith

byte_laws : ByteLaws
byte_laws = record {
  range = in_range;
  least = λ d n e small. rw (equal_pos d n e) (ground arith);
  most = λ d n e small. rw (equal_pos d n e) (ground arith);
  cast = λ d n e small. rw (equal_pos d n e) (omega arith);
}

getuinteger8_iff_example :
    ((t : State (List (Call ℤ))) × (getuinteger8 five fresh ≡ ok 5 t)) ↔ IsByte five 5
getuinteger8_iff_example = getuinteger8_iff byte_laws five 5 fresh

-- What a run of `append_data` leaves in the message.
abbrev sent_calls : Outcome (Panic Value ℤ) (State (List (Call ℤ))) (Unit {0}) → List (Call ℤ)
sent_calls (ok _ s) = s.msg
sent_calls (panic _ s) = s.msg
sent_calls _ = []

append_data_runs : sent_calls (append_data 3 (render_all types) (both ∷ five ∷ []) fresh) ≡ calls
unfolding append_data render dbus_errctx_reset dbus_errctx_inc dbus_errctx_set dbus_errctx_exit
append_data_runs = refl

-- (a{sai}) with a table whose second key is a number: the error message is put together from a
-- signature that has been freed.
use_after_free :
    append_data 9
      (b'(' ∷ b'a' ∷ b'{' ∷ b's' ∷ b'a' ∷ b'i' ∷ b'}' ∷ b')' ∷ [])
      (Value.tuple (
          Values.more
            (Value.table (
              Pairs.pair text
                (Value.tuple (Values.more five Values.nothing))
                (Pairs.pair five five Pairs.end)))
            Values.nothing)
        ∷ [])
      fresh
    ≡ fault
unfolding append_data dbus_errctx_reset dbus_errctx_inc dbus_errctx_set dbus_errctx_exit
use_after_free = refl
