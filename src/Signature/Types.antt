-- ===== src/Signature/Types.antt =====
-- The grammar of complete D-Bus types, independent of the scanner: a syntax tree and its text.
use janet_sdbus.Base.{ℕ, ◌<◌, [], ◌∷◌, ◌++◌, arith, length}
use janet_sdbus.Signature.{Bytes}

pub data Basic : Type 0 where
  byte boolean int16 uint16 int32 uint32 int64 uint64 double string object_path signature fd : Basic

-- The type code of a basic type, as in the D-Bus specification.
abbrev pub code : Basic → ℕ
code byte = b'y'
code boolean = b'b'
code int16 = b'n'
code uint16 = b'q'
code int32 = b'i'
code uint32 = b'u'
code int64 = b'x'
code uint64 = b't'
code double = b'd'
code string = b's'
code object_path = b'o'
code signature = b'g'
code fd = b'h'

mutual
  -- A struct has one member at least, and the key of a dictionary is a basic type.
  pub data Ty : Type 0 where
    basic : Basic → Ty
    variant : Ty
    struct : Ty → Tys → Ty
    array : Ty → Ty
    dict : Basic → Ty → Ty

  pub data Tys : Type 0 where
    end : Tys
    member : Ty → Tys → Tys

unfoldable mutual
  pub render : Ty → Bytes
  render (basic b) = code b ∷ []
  render variant = b'v' ∷ []
  render (struct t ts) = b'(' ∷ (render t ++ (render_all ts ++ b')' ∷ []))
  render (array t) = b'a' ∷ render t
  render (dict k t) = b'a' ∷ b'{' ∷ code k ∷ (render t ++ b'}' ∷ [])

  pub render_all : Tys → Bytes
  render_all end = []
  render_all (member t ts) = render t ++ render_all ts

pub length-render_pos : (t : Ty) → 0 < length (render t)
unfolding render
length-render_pos (basic b) = omega arith
length-render_pos _ = omega arith
