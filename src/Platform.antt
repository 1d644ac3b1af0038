-- ===== src/Platform.antt =====
-- What the C code takes from janet.h, systemd/sd-bus.h and the C library, as one interface: nothing
-- of it is implemented in the repository. Doubles are abstract, with the comparisons and the casts
-- that src/unwrap.c makes. Laws that a theorem needs are hypotheses of that theorem.
use janet_sdbus.Base.{ℕ, Bool, Option, List, ℤ}
use janet_sdbus.Signature.{Bytes}

-- The members of `enum JanetType` that the source tests for.
pub data JanetType : Type 0 where
  nil boolean number string keyword tuple abstract function : JanetType

-- What `janet_abstract_type` and the flags of a `JanetFile` or `JanetStream` tell `getfd`, with the
-- descriptor of `fileno` or `handle`.
pub data AbstractValue : Type 0 where
  file : (closed : Bool) → (fileno : ℤ) → AbstractValue
  stream : (closed : Bool) → (handle : ℤ) → AbstractValue
  other : AbstractValue

-- A value of the C type that `sd_bus_message_append` is given for a one-letter signature.
pub data Datum (Double : Type 0) : Type 0 where
  y : ℕ → Datum Double
  b : Bool → Datum Double
  n : ℤ → Datum Double
  q : ℕ → Datum Double
  i : ℤ → Datum Double
  u : ℕ → Datum Double
  x : ℤ → Datum Double
  t : ℕ → Datum Double
  d : Double → Datum Double
  h : ℤ → Datum Double

-- The calls of libsystemd that write to a message, with their arguments.
pub data Call (Double : Type 0) : Type 0 where
  open_container : (type : ℕ) → (contents : Bytes) → Call Double
  close_container : Call Double
  append : Datum Double → Call Double
  append_basic : (type : ℕ) → Bytes → Call Double
  append_array : (type : ℕ) → Bytes → Call Double

pub record Platform : Type 1 where
  pub Janet : Type 0
  pub Double : Type 0
  pub checktype : Janet → JanetType → Bool
  pub unwrap_boolean : Janet → Bool
  pub unwrap_number : Janet → Double
  -- `janet_getcbytes`: `none` is its own panic, on a string that holds a NUL.
  pub getcbytes : Janet → Option Bytes
  pub checkint16 : Janet → Bool
  pub checkuint16 : Janet → Bool
  pub checkint : Janet → Bool
  pub checkuint : Janet → Bool
  -- `janet_unwrap_s64` and `janet_unwrap_u64`: `none` is their own panic, on a value that is no
  -- 64 bit integer.
  pub unwrap_s64 : Janet → Option ℤ
  pub unwrap_u64 : Janet → Option ℕ
  pub unwrap_tuple : Janet → List Janet
  pub unwrap_abstract : Janet → AbstractValue
  -- The views are `none` where the C function returns false.
  pub bytes_view : Janet → Option Bytes
  pub indexed_view : Janet → Option (List Janet)
  -- the pairs in the order of `janet_dictionary_next`
  pub dictionary_view : Janet → Option (List (Janet × Janet))
  -- comparisons and casts of the C compiler
  pub double_le : Double → Double → Bool
  pub double_eq : Double → Double → Bool
  pub of_nat : ℕ → Double
  pub to_uint8 : Double → ℕ
  pub to_int16 : Double → ℤ
  pub to_uint16 : Double → ℕ
  pub to_int32 : Double → ℤ
  pub to_uint32 : Double → ℕ
  -- a message under construction, and what each call returns
  pub Message : Type 0
  pub perform : Call Double → Message → ℤ × Message
