-- ===== src/Examples/Stand.antt =====
-- A stand-in for janet.h and sd-bus.h: finite values, whole numbers for doubles, and a message that
-- lists the calls made. It refuses an empty container signature, and a variant of any type but a 32 bit
-- integer.
use Prim.Native.Nat.{ℕ}
use janet_sdbus.Base.{
  ◌%◌, ◌≡◌, ◌==◌, not, if◌then◌else◌, is_negative, Bool-cases, inl, inr, ap, arith, Bool, true,
  false, ◌&&◌, Option, none, some, List, [], ◌∷◌, ◌++◌, leb, ℤ, pos, negsuc,
}
use janet_sdbus.Signature.{Bytes}
use janet_sdbus.Signature.Types.{Basic, Ty, render}
use janet_sdbus.Platform.{Platform, JanetType, other, Call, open_container}
use janet_sdbus.Unwrap.{State, no_context}

mutual
  pub data Value : Type 0 where
    nil : Value
    boolean : Bool → Value
    number : ℤ → Value
    string : Bytes → Value
    tuple : Values → Value
    table : Pairs → Value

  pub data Values : Type 0 where
    nothing : Values
    more : Value → Values → Values

  pub data Pairs : Type 0 where
    end : Pairs
    pair : Value → Value → Pairs → Pairs

abbrev list : Values → List Value
list nothing = []
list (more v vs) = v ∷ list vs

abbrev pairs : Pairs → List (Value × Value)
pairs end = []
pairs (pair k v kvs) = (k, v) ∷ pairs kvs

abbrev is_type : Value → JanetType → Bool
is_type nil JanetType.nil = true
is_type (boolean _) JanetType.boolean = true
is_type (number _) JanetType.number = true
is_type (string _) JanetType.string = true
is_type (tuple _) JanetType.tuple = true
is_type _ _ = false

abbrev pub to_number : Value → ℤ
to_number (number n) = n
to_number _ = pos 0

abbrev magnitude : ℤ → ℕ
magnitude (pos n) = n
magnitude (negsuc n) = 0

abbrev int_le : ℤ → ℤ → Bool
int_le (pos m) (pos n) = leb m n
int_le (pos m) (negsuc n) = false
int_le (negsuc m) (pos n) = true
int_le (negsuc m) (negsuc n) = leb n m

abbrev within : ℤ → ℤ → Value → Bool
within lo hi (number n) = int_le lo n && int_le n hi
within lo hi _ = false

abbrev bytes_of : Value → Option Bytes
bytes_of (string s) = some s
bytes_of _ = none

abbrev items_of : Value → Option (List Value)
items_of (tuple vs) = some (list vs)
items_of _ = none

abbrev pairs_of : Value → Option (List (Value × Value))
pairs_of (table kvs) = some (pairs kvs)
pairs_of _ = none

abbrev members : Value → List Value
members (tuple vs) = list vs
members _ = []

abbrev boolean_of : Value → Bool
boolean_of (boolean b) = b
boolean_of _ = false

abbrev is_int32 : Bytes → Bool
is_int32 (c ∷ []) = c == b'i'
is_int32 _ = false

abbrev pub refuses : Call ℤ → Bool
refuses (open_container c []) = true
refuses (open_container c s) = (c == b'v') && not (is_int32 s)
refuses _ = false

abbrev pub answer : Call ℤ → List (Call ℤ) → ℤ × List (Call ℤ)
answer c m = if refuses c then (negsuc 21, m) else (pos 0, m ++ c ∷ [])

pub opens_one_type :
    (sig : Bytes) (m : List (Call ℤ))
    → is_negative (answer (open_container b'v' sig) m).0 ≡ false
    → (t : Ty) × (sig ≡ render t)
unfolding render
opens_one_type [] m e = absurd cc
opens_one_type (c ∷ []) m e = elim (Bool-cases (c == b'i')) [
  | inl one ↦ (Ty.basic Basic.int32, ap (λ x. x ∷ []) (ground arith))
  | inr other_code ↦ let bad = rw other_code at e in absurd cc
]
opens_one_type (c ∷ d ∷ s) m e = absurd cc

instance abbrev pub stand : Platform
stand = record {
  Janet = Value;
  Double = ℤ;
  checktype = is_type;
  unwrap_boolean = boolean_of;
  unwrap_number = to_number;
  getcbytes = bytes_of;
  checkint16 = within (negsuc 32767) (pos 32767);
  checkuint16 = within (pos 0) (pos 65535);
  checkint = within (negsuc 2147483647) (pos 2147483647);
  checkuint = within (pos 0) (pos 4294967295);
  unwrap_s64 = λ v. some (to_number v);
  unwrap_u64 = λ v. some (magnitude (to_number v));
  unwrap_tuple = members;
  unwrap_abstract = λ v. other;
  bytes_view = bytes_of;
  indexed_view = items_of;
  dictionary_view = pairs_of;
  double_le = int_le;
  double_eq = λ m n. int_le m n && int_le n m;
  of_nat = pos;
  to_uint8 = λ n. magnitude n % 256;
  to_int16 = λ n. n;
  to_uint16 = magnitude;
  to_int32 = λ n. n;
  to_uint32 = magnitude;
  Message = List (Call ℤ);
  perform = answer;
}

-- Before any call.
abbrev pub fresh : State (List (Call ℤ))
fresh = record { msg = []; errctx = no_context; allocated = 0; freed = [] }
