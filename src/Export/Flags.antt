-- ===== src/Export/Flags.antt =====
-- `sd_bus_flags` of src/export.c against the letters of the flags.
use janet_sdbus.Base.{
  ℕ, ◌≡◌, refl, Bool, true, false, ◌||◌, List, [], ◌∷◌, ◌++◌, ok, panic, ◌==◌, ◌∙◌, ap, arith,
}
use janet_sdbus.Signature.{Bytes}
use janet_sdbus.Export.{
  Flag, deprecated, hidden, sensitive, no_reply, const, emits_change, emits_invalidation, explicit,
  rank, Mask, no_flags, with_flag, Entry, unknown_flag, add_flag, add_flags, sd_bus_flags,
}

-- The letters of the flags; `w` marks a writable property, and sets no flag.
abbrev pub letter : Flag → ℕ
letter deprecated = b'd'
letter hidden = b'h'
letter sensitive = b's'
letter no_reply = b'n'
letter const = b'r'
letter emits_change = b'e'
letter emits_invalidation = b'i'
letter explicit = b'x'

abbrev pub mentions : ℕ → Bytes → Bool
mentions c [] = false
mentions c (k ∷ keys) = (k == c) || mentions c keys

abbrev pub is_known : ℕ → Bool
is_known k = mentions k (b'd' ∷ b'h' ∷ b's' ∷ b'n' ∷ b'r' ∷ b'e' ∷ b'i' ∷ b'x' ∷ b'w' ∷ [])

pub data AllKnown : Bytes → Type 0 where
  none_left : AllKnown []
  flag : {keys : Bytes} (f : Flag) → AllKnown keys → AllKnown (letter f ∷ keys)
  writable : {keys : Bytes} → AllKnown keys → AllKnown (b'w' ∷ keys)

-- The flags whose letters are among the keys, and those of `mask`.
abbrev flags_among : Bytes → Mask → Mask
flags_among keys mask f = mask f || mentions (letter f) keys

abbrev pub flags_of : Bytes → Mask
flags_of keys f = mentions (letter f) keys

same_letter : (f g : Flag) → (rank f == rank g) ≡ (letter g == letter f)
same_letter deprecated Flag.deprecated = refl
same_letter deprecated _ = refl
same_letter hidden Flag.deprecated = refl
same_letter hidden _ = refl
same_letter sensitive Flag.deprecated = refl
same_letter sensitive _ = refl
same_letter no_reply Flag.deprecated = refl
same_letter no_reply _ = refl
same_letter const Flag.deprecated = refl
same_letter const _ = refl
same_letter emits_change Flag.deprecated = refl
same_letter emits_change _ = refl
same_letter emits_invalidation Flag.deprecated = refl
same_letter emits_invalidation _ = refl
same_letter explicit Flag.deprecated = refl
same_letter explicit _ = refl

w_letter : (f : Flag) → (b'w' == letter f) ≡ false
w_letter Flag.deprecated = refl
w_letter _ = refl

add_flag-letter :
    (g : Flag) (mask : Mask) (s : List Entry) → add_flag (letter g) mask s ≡ ok (with_flag g mask) s
unfolding add_flag
add_flag-letter Flag.deprecated mask s = refl
add_flag-letter _ mask s = refl

or_assoc : (a b c : Bool) → ((a || b) || c) ≡ (a || (b || c))
or_assoc true b c = refl
or_assoc false b c = refl

or_false : (a : Bool) → a ≡ (a || false)
or_false true = refl
or_false false = refl

joined :
    (g f : Flag) (keys : Bytes) (mask : Mask)
    → flags_among keys (with_flag g mask) f ≡ flags_among (letter g ∷ keys) mask f
joined g f keys mask = rw (same_letter f g) (or_assoc (mask f) _ _)

passed :
    (f : Flag) (keys : Bytes) (mask : Mask)
    → flags_among keys mask f ≡ flags_among (b'w' ∷ keys) mask f
passed f keys mask = rw (w_letter f) refl

add_flags-AllKnown :
    {keys : Bytes} (mask : Mask) (s : List Entry)
    → AllKnown keys
    → add_flags keys mask s ≡ ok (flags_among keys mask) s
unfolding add_flags add_flag
add_flags-AllKnown mask s none_left = λ i. ok (λ f. or_false (mask f) i) s
add_flags-AllKnown mask s (flag {keys} g k) =
    rw (add_flag-letter g mask s)
      (add_flags-AllKnown (with_flag g mask) s k ∙ ap (λ m. ok m s) (λ i f. joined g f keys mask i))
add_flags-AllKnown mask s (writable {keys} k) =
    add_flags-AllKnown mask s k ∙ ap (λ m. ok m s) (λ i f. passed f keys mask i)

add_flags-unknown :
    {keys : Bytes} (ch : ℕ) (rest : Bytes) (mask : Mask) (s : List Entry)
    → AllKnown keys
    → is_known ch ≡ false
    → add_flags (keys ++ ch ∷ rest) mask s ≡ panic (unknown_flag ch) s
unfolding add_flags add_flag
add_flags-unknown ch rest mask s none_left out = ground arith
add_flags-unknown ch rest mask s (flag {keys} g k) out =
    rw (add_flag-letter g mask s) (add_flags-unknown ch rest (with_flag g mask) s k out)
add_flags-unknown ch rest mask s (writable k) out = add_flags-unknown ch rest mask s k out

-- Where all letters are known, `sd_bus_flags` returns, and a flag is set exactly where its letter is
-- among the keys.
pub sd_bus_flags-AllKnown :
    {keys : Bytes} (s : List Entry) → AllKnown keys → sd_bus_flags keys s ≡ ok (flags_of keys) s
unfolding sd_bus_flags
sd_bus_flags-AllKnown s k = add_flags-AllKnown no_flags s k

-- At the first unknown letter it panics, and names the letter.
pub sd_bus_flags-unknown :
    {keys : Bytes} (ch : ℕ) (rest : Bytes) (s : List Entry)
    → AllKnown keys
    → is_known ch ≡ false
    → sd_bus_flags (keys ++ ch ∷ rest) s ≡ panic (unknown_flag ch) s
unfolding sd_bus_flags
sd_bus_flags-unknown ch rest s k out = add_flags-unknown ch rest no_flags s k out
