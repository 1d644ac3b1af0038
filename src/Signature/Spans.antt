-- ===== src/Signature/Spans.antt =====
-- `find_subtype` and `span_next_type` of src/message.c against the grammar.
use janet_sdbus.Base.{
  ℕ, suc, ◌+◌, ◌-◌, ◌≡◌, refl, [], ◌∷◌, ◌++◌, ◌∙◌, ap, arith, length, length-append,
}
use janet_sdbus.Signature.{Bytes, found, scan_map, match, find_subtype, span_next_type}
use janet_sdbus.Signature.Types.{
  Basic, Ty, Tys, code, basic, variant, struct, array, dict, member, render, render_all,
}
use janet_sdbus.Signature.Brackets.{match-struct, match-dict, render-struct, render-dict}

find_subtype-basic : (k : Basic) (rest : Bytes) → find_subtype (code k ∷ rest) ≡ found 0
unfolding find_subtype
find_subtype-basic Basic.byte rest = refl
find_subtype-basic _ rest = refl

pub find_subtype-array : (s : Bytes) → find_subtype (b'a' ∷ s) ≡ scan_map suc (find_subtype s)
unfolding find_subtype
find_subtype-array s = refl

find_subtype-brace : (s : Bytes) → find_subtype (b'{' ∷ s) ≡ match (b'{' ∷ s) b'{' b'}'
unfolding find_subtype
find_subtype-brace s = refl

find_subtype-paren : (s : Bytes) → find_subtype (b'(' ∷ s) ≡ match (b'(' ∷ s) b'(' b')'
unfolding find_subtype
find_subtype-paren s = refl

length-struct :
    (t : Ty) (ts : Tys) → length (render (struct t ts)) ≡ length (render_all (member t ts)) + 2
unfolding render
length-struct t ts = omega (
  arith,
  length-append (render t) (render_all ts ++ b')' ∷ []),
  length-append (render_all ts) (b')' ∷ []),
  length-append (render t) (render_all ts),
)

length-dict : (k : Basic) (t : Ty) → length (render (dict k t)) ≡ length (render t) + 4
unfolding render
length-dict k t = omega (arith, length-append (render t) (b'}' ∷ []))

find_subtype-struct :
    (t : Ty) (ts : Tys) (rest : Bytes)
    → find_subtype (render (struct t ts) ++ rest) ≡ found (length (render_all (member t ts)) + 1)
find_subtype-struct t ts rest =
    rw (render-struct t ts rest) (find_subtype-paren _ ∙ match-struct t ts rest)

find_subtype-dict :
    (k : Basic) (t : Ty) (rest : Bytes)
    → find_subtype (render (dict k t) ++ rest) ≡ found (length (render t) + 3)
find_subtype-dict k t rest = rw (render-dict k t rest) (
    find_subtype-array _
    ∙ ap (scan_map suc) (find_subtype-brace _ ∙ match-dict k t rest)
    ∙ ap found (omega arith))

-- `find_subtype` gives the offset of the last byte of the first complete type, whatever follows.
pub find_subtype-render :
    (t : Ty) (rest : Bytes)
    → scan_map suc (find_subtype (render t ++ rest)) ≡ found (length (render t))
unfolding render
find_subtype-render (basic k) rest = ap (scan_map suc) (find_subtype-basic k rest)
find_subtype-render variant rest = unfold render find_subtype in refl
find_subtype-render (struct t ts) rest =
    ap (scan_map suc) (find_subtype-struct t ts rest) ∙ ap found (omega (arith, length-struct t ts))
find_subtype-render (array t) rest =
    ap (scan_map suc) (find_subtype-array (render t ++ rest) ∙ find_subtype-render t rest)
find_subtype-render (dict k t) rest =
    ap (scan_map suc) (find_subtype-dict k t rest) ∙ ap found (omega (arith, length-dict k t))

-- What `span_next_type` gives: the length of the complete type, but one less for a struct.
abbrev pub span : Ty → ℕ
span (struct t ts) = length (render (struct t ts)) - 1
span t = length (render t)

span_next_type-basic : (k : Basic) (rest : Bytes) → span_next_type (code k ∷ rest) ≡ found 1
unfolding span_next_type
span_next_type-basic Basic.byte rest = refl
span_next_type-basic _ rest = refl

span_next_type-a : (s : Bytes) → span_next_type (b'a' ∷ s) ≡ scan_map suc (find_subtype (b'a' ∷ s))
unfolding span_next_type
span_next_type-a s = refl

span_next_type-paren : (s : Bytes) → span_next_type (b'(' ∷ s) ≡ match (b'(' ∷ s) b'(' b')'
unfolding span_next_type
span_next_type-paren s = refl

-- At the start of a complete type, `span_next_type` gives the length of its text, whatever follows,
-- except at a struct, where it leaves out the closing parenthesis.
pub span_next_type-render :
    (t : Ty) (rest : Bytes) → span_next_type (render t ++ rest) ≡ found (span t)
span_next_type-render (basic k) rest = unfold render in span_next_type-basic k rest
span_next_type-render variant rest = unfold render span_next_type in refl
span_next_type-render (struct t ts) rest =
    rw (render-struct t ts rest) (
      span_next_type-paren _
      ∙ match-struct t ts rest
      ∙ ap found (omega (arith, length-struct t ts)))
span_next_type-render (array t) rest =
    unfold render in (span_next_type-a (render t ++ rest) ∙ find_subtype-render (array t) rest)
span_next_type-render (dict k t) rest =
    rw (render-dict k t rest)
      (span_next_type-a _ ∙ rw (← render-dict k t rest) (find_subtype-render (dict k t) rest))
