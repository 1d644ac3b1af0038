-- ===== src/Signature/Brackets.antt =====
-- `match` of src/message.c on the text of a type: brackets balance.
use janet_sdbus.Base.{
  ℕ, suc, ◌+◌, ◌-◌, ◌≡◌, refl, false, [], ◌∷◌, ◌++◌, ◌∙◌, ap, append_assoc, arith, ◌==◌, length,
  length-append,
}
use janet_sdbus.Signature.{Bytes, found, match_loop, match}
use janet_sdbus.Signature.Types.{
  Basic, Ty, Tys, code, basic, variant, struct, array, dict, end, member, render, render_all,
}

-- The two pairs that the scanner matches.
pub data Bracket : Type 0 where
  paren brace : Bracket

abbrev pub opening : Bracket → ℕ
opening paren = b'('
opening brace = b'{'

abbrev pub closing : Bracket → ℕ
closing paren = b')'
closing brace = b'}'

-- Bytes that a bracket pair does not count.
abbrev IsPlain : Bracket → ℕ → Type 0
IsPlain b ch = ((ch == opening b) ≡ false) × ((ch == closing b) ≡ false)

code-IsPlain : (b : Bracket) (k : Basic) → IsPlain b (code k)
code-IsPlain paren Basic.byte = (refl, refl)
code-IsPlain paren _ = (refl, refl)
code-IsPlain brace Basic.byte = (refl, refl)
code-IsPlain brace _ = (refl, refl)

-- Inside brackets, `match` passes over the text and counts its bytes.
pub record Skips (b : Bracket) (s : Bytes) : Type 0 where
  pub skip :
      (d n m : ℕ) (rest : Bytes)
      → m ≡ n + length s
      → match_loop (opening b) (closing b) (suc d) n (s ++ rest)
        ≡ match_loop (opening b) (closing b) (suc d) m rest

module _ {b : Bracket} where
  pub Skips-nil : Skips b []
  Skips-nil = record { skip = λ d n m rest e. let same : n ≡ m = omega arith in rw same }

  pub Skips-append : {s t : Bytes} → Skips b s → Skips b t → Skips b (s ++ t)
  Skips-append {s} {t} h k = record {
    skip = λ d n m rest e. rw append_assoc (
        h.skip d n (n + length s) (t ++ rest) refl
        ∙ k.skip d (n + length s) m rest (omega (arith, length-append s t)));
  }

suc-ne-zero : (d : ℕ) → (suc d == 0) ≡ false
suc-ne-zero d = ground arith

Skips-plain : {b : Bracket} (ch : ℕ) → IsPlain b ch → Skips b (ch ∷ [])
unfolding match_loop
Skips-plain {b} ch (p, q) = record {
  skip = λ d n m rest e. let same : n + 1 ≡ m = omega arith in rw (p, q, suc-ne-zero d, same);
}

Skips-cons : {b : Bracket} {s : Bytes} (ch : ℕ) → IsPlain b ch → Skips b s → Skips b (ch ∷ s)
Skips-cons ch p h = Skips-append (Skips-plain ch p) h

match_loop-opening :
    (b : Bracket) (d n : ℕ) (rest : Bytes)
    → match_loop (opening b) (closing b) (suc d) n (opening b ∷ rest)
      ≡ match_loop (opening b) (closing b) (suc (suc d)) (n + 1) rest
unfolding match_loop
match_loop-opening paren d n rest =
    let deeper : suc d + 1 ≡ suc (suc d) = omega arith in rw (deeper, suc-ne-zero (suc d))
match_loop-opening brace d n rest =
    let deeper : suc d + 1 ≡ suc (suc d) = omega arith in rw (deeper, suc-ne-zero (suc d))

match_loop-closing :
    (b : Bracket) (d n : ℕ) (rest : Bytes)
    → match_loop (opening b) (closing b) (suc (suc d)) n (closing b ∷ rest)
      ≡ match_loop (opening b) (closing b) (suc d) (n + 1) rest
unfolding match_loop
match_loop-closing paren d n rest =
    let back : suc (suc d) - 1 ≡ suc d = omega arith in rw (back, suc-ne-zero d)
match_loop-closing brace d n rest =
    let back : suc (suc d) - 1 ≡ suc d = omega arith in rw (back, suc-ne-zero d)

match_loop-end :
    (b : Bracket) (n : ℕ) (rest : Bytes)
    → match_loop (opening b) (closing b) 1 n (closing b ∷ rest) ≡ found (n + 1)
unfolding match_loop
match_loop-end paren n rest = refl
match_loop-end brace n rest = refl

-- The pair that is matched changes the depth and back.
Skips-matched : {b : Bracket} {s : Bytes} → Skips b s → Skips b (opening b ∷ (s ++ closing b ∷ []))
Skips-matched {b} {s} h = record {
  skip = λ d n m rest e.
      let same : n + 1 + length s + 1 ≡ m = omega (arith, length-append s (closing b ∷ [])) in
      match_loop-opening b d n _
      ∙ rw append_assoc (h.skip (suc d) (n + 1) (n + 1 + length s) (closing b ∷ rest) refl)
      ∙ match_loop-closing b d (n + 1 + length s) rest
      ∙ ap (λ k. match_loop (opening b) (closing b) (suc d) k rest) same;
}

-- A bracketed text.
Skips-bracketed :
    {b : Bracket} (c : Bracket) {s : Bytes}
    → Skips b s
    → Skips b (opening c ∷ (s ++ closing c ∷ []))
Skips-bracketed {b = paren} brace h =
    Skips-cons b'{' (refl, refl) (Skips-append h (Skips-plain b'}' (refl, refl)))
Skips-bracketed {b = brace} paren h =
    Skips-cons b'(' (refl, refl) (Skips-append h (Skips-plain b')' (refl, refl)))
Skips-bracketed {b = paren} paren h = Skips-matched h
Skips-bracketed {b = brace} brace h = Skips-matched h

letter-IsPlain : (b : Bracket) → IsPlain b b'v' × IsPlain b b'a'
letter-IsPlain paren = ((refl, refl), (refl, refl))
letter-IsPlain brace = ((refl, refl), (refl, refl))

-- A complete type is balanced.
mutual
  unfolding render

  pub render-Skips : (b : Bracket) (t : Ty) → Skips b (render t)
  render-Skips b (basic k) = Skips-plain _ (code-IsPlain b k)
  render-Skips b variant = Skips-plain _ (letter-IsPlain b).0
  render-Skips b (struct t ts) =
      let inside = Skips-append (render-Skips b t) (render_all-Skips b ts) in
      let whole = Skips-bracketed paren inside in rw append_assoc at whole
  render-Skips b (array t) = Skips-cons _ (letter-IsPlain b).1 (render-Skips b t)
  render-Skips b (dict k t) =
      let inside = Skips-cons _ (code-IsPlain b k) (render-Skips b t) in
      Skips-cons _ (letter-IsPlain b).1 (Skips-bracketed brace inside)

  pub render_all-Skips : (b : Bracket) (ts : Tys) → Skips b (render_all ts)
  render_all-Skips b end = Skips-nil
  render_all-Skips b (member t ts) = Skips-append (render-Skips b t) (render_all-Skips b ts)

-- `match` finds the bracket that closes a balanced text, and its offset.
pub match_lem :
    (b : Bracket) (s rest : Bytes)
    → Skips b s
    → match (opening b ∷ (s ++ closing b ∷ rest)) (opening b) (closing b) ≡ found (length s + 1)
unfolding match
match_lem b s rest h =
    h.skip 0 0 (length s) (closing b ∷ rest) (omega arith) ∙ match_loop-end b (length s) rest

-- The text of a struct and of a dictionary, cut at the brackets.
pub render-struct :
    (t : Ty) (ts : Tys) (rest : Bytes)
    → render (struct t ts) ++ rest ≡ b'(' ∷ (render_all (member t ts) ++ b')' ∷ rest)
unfolding render
render-struct t ts rest = simp append_assoc

pub render-dict :
    (k : Basic) (t : Ty) (rest : Bytes)
    → render (dict k t) ++ rest ≡ b'a' ∷ b'{' ∷ ((code k ∷ render t) ++ b'}' ∷ rest)
unfolding render
render-dict k t rest = simp append_assoc

pub match-struct :
    (t : Ty) (ts : Tys) (rest : Bytes)
    → match (b'(' ∷ (render_all (member t ts) ++ b')' ∷ rest)) b'(' b')'
      ≡ found (length (render_all (member t ts)) + 1)
match-struct t ts rest = match_lem paren _ rest (render_all-Skips paren (member t ts))

pub match-dict :
    (k : Basic) (t : Ty) (rest : Bytes)
    → match (b'{' ∷ ((code k ∷ render t) ++ b'}' ∷ rest)) b'{' b'}' ≡ found (length (render t) + 2)
match-dict k t rest =
    match_lem brace (code k ∷ render t) rest
      (Skips-cons _ (code-IsPlain brace k) (render-Skips brace t))
    ∙ ap found (omega arith)
