-- ===== src/Append/Finishing/Texts.antt =====
-- Texts of signatures by length, without the code of a variant, and what cutting them leaves.
use janet_sdbus.Base.{
  ℕ, zero, suc, ◌≤◌, ◌<◌, ◌≡◌, refl, Bool, true, false, ◌||◌, [], ◌∷◌, arith, ◌==◌, length, take,
  drop, Bool-cases, inl, inr,
}
use janet_sdbus.Signature.{Bytes, deref}

abbrev pub has : ℕ → Bytes → Bool
has ch [] = false
has ch (c ∷ s) = (c == ch) || has ch s

has-take : (ch n : ℕ) (s : Bytes) → has ch s ≡ false → has ch (take n s) ≡ false
has-take ch zero s h = refl
has-take ch (suc n) [] h = refl
has-take ch (suc n) (c ∷ s) h = ground (arith, has-take ch n s (ground arith))

has-drop : (ch n : ℕ) (s : Bytes) → has ch s ≡ false → has ch (drop n s) ≡ false
has-drop ch zero s h = h
has-drop ch (suc n) [] h = h
has-drop ch (suc n) (c ∷ s) h = has-drop ch n s (ground arith)

-- What a part of a text has, the text has.
has-part :
    {F : Type 0} (ch : ℕ) (s t : Bytes)
    → (has ch s ≡ false → has ch t ≡ false)
    → (has ch s ≡ true → F)
    → has ch t ≡ true
    → F
has-part ch s t part h e = elim (Bool-cases (has ch s)) [
  | inl there ↦ h there
  | inr away ↦ absurd (let bad = part away in cc)
]

length-drop_short : (n : ℕ) (s : Bytes) → length (drop n s) ≤ length s
length-drop_short zero s = omega arith
length-drop_short (suc n) [] = omega arith
length-drop_short (suc n) (c ∷ s) = omega (arith, length-drop_short n s)

length-take_short : (n : ℕ) (s : Bytes) → length (take n s) ≤ length s
length-take_short zero s = omega arith
length-take_short (suc n) [] = omega arith
length-take_short (suc n) (c ∷ s) = omega (arith, length-take_short n s)

-- A text of fewer than `f` bytes, without the code of a variant; `F` holds if it has a dictionary.
pub record Plain (F : Type 0) (f : ℕ) (s : Bytes) : Type 0 where
  pub short : length s < f
  pub invariant : has b'v' s ≡ false
  pub dictionary : has b'{' s ≡ true → F

module _ {F : Type 0} {f : ℕ} where
  pub Plain-mono : {s : Bytes} → Plain F f s → Plain F (suc f) s
  Plain-mono h = record { short = omega arith; invariant = h.invariant; dictionary = h.dictionary }

  pub Plain-drop : {s : Bytes} (n : ℕ) → Plain F f s → Plain F f (drop n s)
  Plain-drop {s} n h = record {
    short = omega (arith, length-drop_short n s);
    invariant = has-drop b'v' n s h.invariant;
    dictionary = has-part b'{' s (drop n s) (has-drop b'{' n s) h.dictionary;
  }

  pub Plain-take : {s : Bytes} (n : ℕ) → Plain F f s → Plain F f (take n s)
  Plain-take {s} n h = record {
    short = omega (arith, length-take_short n s);
    invariant = has-take b'v' n s h.invariant;
    dictionary = has-part b'{' s (take n s) (has-take b'{' n s) h.dictionary;
  }

  -- What follows the first byte, which is not the end of the text.
  pub Plain-tail :
      (s : Bytes) (c : ℕ) → (deref s == suc c) ≡ true → Plain F (suc f) s → Plain F f (drop 1 s)
  Plain-tail [] c e h = ground arith
  Plain-tail (x ∷ s) c e h = record {
    short = omega arith;
    invariant = ground arith;
    dictionary = λ e'. h.dictionary (ground arith);
  }

  pub no_variant : (s : Bytes) → Plain F f s → (deref s == b'v') ≡ false
  no_variant [] h = refl
  no_variant (c ∷ s) h = ground arith

  -- The text of a dictionary, after the code of its array.
  pub at_brace : (s : Bytes) → Plain F f s → (deref s == b'{') ≡ true → F
  at_brace [] h e = absurd (ground arith)
  at_brace (c ∷ s) h e = h.dictionary (ground arith)
