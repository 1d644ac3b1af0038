-- ===== src/Examples/Signature.antt =====
-- Witnesses and runs for the signature scanner.
use janet_sdbus.Base.{suc, ◌≡◌, refl, [], ◌∷◌, ◌++◌, length}
use janet_sdbus.Signature.{scan_map, found, find_subtype, span_next_type}
use janet_sdbus.Signature.Types.{Basic, Ty, member, end, render}
use janet_sdbus.Signature.Spans.{find_subtype-render, span_next_type-render, span}

-- a(ib)
abbrev points : Ty
points = Ty.array (Ty.struct (Ty.basic Basic.int32) (member (Ty.basic Basic.boolean) end))

find_subtype-render_example :
    scan_map suc (find_subtype (render points ++ b's' ∷ [])) ≡ found (length (render points))
find_subtype-render_example = find_subtype-render points (b's' ∷ [])

span_next_type-render_example : span_next_type (render points ++ b's' ∷ []) ≡ found (span points)
span_next_type-render_example = span_next_type-render points (b's' ∷ [])

-- `span_next_type` at "a(ib)s" and at "(ib)s"
span_array : span_next_type (b'a' ∷ b'(' ∷ b'i' ∷ b'b' ∷ b')' ∷ b's' ∷ []) ≡ found 5
unfolding span_next_type
span_array = refl

span_struct : span_next_type (b'(' ∷ b'i' ∷ b'b' ∷ b')' ∷ b's' ∷ []) ≡ found 3
unfolding span_next_type
span_struct = refl
