-- ===== src/Append/Basics.antt =====
-- `append_basic_type` writes what `basic_call` says.
use janet_sdbus.Base.{ℕ, ◌≡◌, some, ◌∷◌, arith}
use janet_sdbus.Signature.{Bytes}
use janet_sdbus.Signature.Types.{
  Basic, code, byte, boolean, int16, uint16, int32, uint32, int64, uint64, double, string,
  object_path, signature, fd,
}
use janet_sdbus.Platform.{Platform, Call}
use janet_sdbus.Unwrap.{State, call_sd_bus}
use janet_sdbus.Append.{parser, append_basic_type}
use janet_sdbus.Append.Encoding.{basic_call}

module _ ⦃w : Platform⦄ where
  open w use {Janet, Double, Message}

  -- A value that has the basic type at the cursor is written by one call, in any error context.
  pub append_basic_type-basic_call :
      (k : Basic) (owner : ℕ) (rest : Bytes) (v : Janet) (c : Call Double) (s : State Message)
      → basic_call k v ≡ some c
      → append_basic_type (parser owner (code k ∷ rest)) v s ≡ call_sd_bus c s
  unfolding append_basic_type basic_call
  append_basic_type-basic_call byte owner rest v c s e = ground arith
  append_basic_type-basic_call boolean owner rest v c s e = ground arith
  append_basic_type-basic_call int16 owner rest v c s e = ground arith
  append_basic_type-basic_call uint16 owner rest v c s e = ground arith
  append_basic_type-basic_call int32 owner rest v c s e = ground arith
  append_basic_type-basic_call uint32 owner rest v c s e = ground arith
  append_basic_type-basic_call int64 owner rest v c s e = ground arith
  append_basic_type-basic_call uint64 owner rest v c s e = ground arith
  append_basic_type-basic_call double owner rest v c s e = ground arith
  append_basic_type-basic_call string owner rest v c s e = ground arith
  append_basic_type-basic_call object_path owner rest v c s e = ground arith
  append_basic_type-basic_call signature owner rest v c s e = ground arith
  append_basic_type-basic_call fd owner rest v c s e = ground arith
