-- ===== src/Append/Numbers.antt =====
-- `dbus_getuinteger8` of src/unwrap.c, whose test is written out in the source: which numbers are bytes.
use janet_sdbus.Base.{subst, ℕ, ◌<◌, ◌≡◌, refl, ◌↔◌, true, ok, arith}
use janet_sdbus.Platform.{Platform, JanetType}
use janet_sdbus.Unwrap.{checkuint8, getuinteger8}
use janet_sdbus.Append.Encoding.{Calls}
use janet_sdbus.Append.Sending.{World}
use janet_sdbus.Append.Returning.{Returns, returned, Got, checked-Returns}

-- What C says of a double that equals a number from 0 to 255, all of which are doubles: it is not less
-- than 0, nor more than 255, and its cast to `uint8_t` is the number. A `uint8_t` is less than 256.
pub record ByteLaws ⦃w : Platform⦄ : Type 0 where
  pub range : (d : w.Double) → w.to_uint8 d < 256
  pub least :
      (d : w.Double) (n : ℕ)
      → w.double_eq d (w.of_nat n) ≡ true
      → n < 256
      → w.double_le (w.of_nat 0) d ≡ true
  pub most :
      (d : w.Double) (n : ℕ)
      → w.double_eq d (w.of_nat n) ≡ true
      → n < 256
      → w.double_le d (w.of_nat 255) ≡ true
  pub cast : (d : w.Double) (n : ℕ) → w.double_eq d (w.of_nat n) ≡ true → n < 256 → w.to_uint8 d ≡ n

module _ ⦃w : Platform⦄ where
  open w use {
    Janet, Double, Message, checktype, unwrap_number, double_eq, double_le, of_nat, to_uint8,
  }

  -- The value is a number that equals `n`, and `n` is a byte.
  pub record IsByte (x : Janet) (n : ℕ) : Type 0 where
    pub number : checktype x JanetType.number ≡ true
    pub equal : double_eq (unwrap_number x) (of_nat n) ≡ true
    pub small : n < 256

  -- What `dbus_getuinteger8` gives, by its test.
  abbrev Gets : Janet → ℕ → Calls → Type 0
  Gets x = Got λ n. (checkuint8 x ≡ true) × (n ≡ to_uint8 (unwrap_number x))

  got : {P : ℕ → Type 0} {m : Message} {n : ℕ} {t : World} → Returns m (Got P) (ok n t) → P n
  got (returned cs e (empty, p)) = p

  module _ (laws : ByteLaws) where
    checkuint8-IsByte : (x : Janet) → checkuint8 x ≡ true → IsByte x (to_uint8 (unwrap_number x))
    unfolding checkuint8
    checkuint8-IsByte x h =
        let d = unwrap_number x in
        record { number = ground arith; equal = ground arith; small = laws.range d }

    IsByte-checkuint8 : (x : Janet) (n : ℕ) → IsByte x n → checkuint8 x ≡ true
    unfolding checkuint8
    IsByte-checkuint8 x n b =
        let d = unwrap_number x in
        let same = laws.cast d n b.equal b.small in
        let low = laws.least d n b.equal b.small in
        let high = laws.most d n b.equal b.small in rw (same, b.number, low, high, b.equal) refl

    -- Where C treats the doubles from 0 to 255 in the way that it should, `dbus_getuinteger8` gives `n`,
    -- in any state, exactly if the value is a number that equals `n`, and `n` is less than 256.
    pub getuinteger8_iff :
        (x : Janet) (n : ℕ) (s : World) → ((t : World) × (getuinteger8 x s ≡ ok n t)) ↔ IsByte x n
    unfolding getuinteger8
    getuinteger8_iff x n s = (
      λ (t, e).
          let (check, value) =
            got (subst (λ o. Returns s.msg (Gets x) o) e (checked-Returns _ x _ _ s)) in
          rw value (checkuint8-IsByte x check),
      λ b. (s, rw (IsByte-checkuint8 x n b, laws.cast _ n b.equal b.small) refl),
    )
