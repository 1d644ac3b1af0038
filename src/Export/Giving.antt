-- ===== src/Export/Giving.antt =====
-- A postcondition for the code of src/export.c that builds a vtable: `Gives P o` holds if the run `o`
-- does not return, or `P` holds of what it returns.
use janet_sdbus.Base.{
  Bool-cases, ℕ, ◌≡◌, refl, Bool, true, false, List, [], ◌∷◌, Outcome, ok, panic, fault,
  out_of_fuel, and_then, ◌==◌, if◌then◌else◌, arith, Option-cases, inl, inr,
}
use janet_sdbus.Signature.{Bytes}
use janet_sdbus.Export.{
  Members, reads, Flag, deprecated, hidden, sensitive, no_reply, const, emits_change,
  emits_invalidation, explicit, Mask, Entry, ExportError, Building, add_flag, add_flags,
  sd_bus_flags, panic_if, store, put,
}
use janet_sdbus.Export.Flags.{letter, AllKnown, flag, none_left, flags_of, sd_bus_flags-AllKnown}

pub data Gives {A : Type 0} (P : A → Type 0) : Outcome ExportError (List Entry) A → Type 0 where
  gives : {a : A} {s : List Entry} → P a → Gives P (ok a s)
  panicked : {e : ExportError} {s : List Entry} → Gives P (panic e s)
  faulted : Gives P fault
  ran_out : Gives P out_of_fuel

pub Gives-bind :
    {A B : Type 0} {P : A → Type 0} {Q : B → Type 0} {o : Outcome ExportError (List Entry) A}
    {k : A → Building B}
    → Gives P o
    → ((a : A) (t : List Entry) → P a → Gives Q (k a t))
    → Gives Q (and_then o k)
Gives-bind (gives {a} {s} p) h = h a s p
Gives-bind panicked h = panicked
Gives-bind faulted h = faulted
Gives-bind ran_out h = ran_out

pub Gives-mono :
    {A : Type 0} {P Q : A → Type 0} {o : Outcome ExportError (List Entry) A}
    → Gives P o
    → ((a : A) → P a → Q a)
    → Gives Q o
Gives-mono (gives p) h = gives (h _ p)
Gives-mono panicked h = panicked
Gives-mono faulted h = faulted
Gives-mono ran_out h = ran_out

pub Gives-if :
    {A : Type 0} {P : A → Type 0} (b : Bool) (m n : Building A) (s : List Entry)
    → (b ≡ true → Gives P (m s))
    → (b ≡ false → Gives P (n s))
    → Gives P ((if b then m else n) s)
Gives-if true m n s h k = h refl
Gives-if false m n s h k = k refl

-- What is known of the result of a run that returns it where `K` holds.
pub Gives-result :
    {A K : Type 0} {o : Outcome ExportError (List Entry) A} {a : A} {s : List Entry}
    → Gives (λ _. K) o
    → (K → o ≡ ok a s)
    → Gives (λ x. K × (x ≡ a)) o
Gives-result (gives k) h = let same = h k in gives (k, cc)
Gives-result panicked h = panicked
Gives-result faulted h = faulted
Gives-result ran_out h = ran_out

pub panic_if-Gives :
    (test : Bool) (e : ExportError) (s : List Entry) → Gives (λ _. test ≡ false) (panic_if test e s)
panic_if-Gives true e s = panicked
panic_if-Gives false e s = gives refl

-- Code that reads the text of a value.
pub reads-Gives :
    ⦃w : Members⦄ {A : Type 0} {P : A → Type 0} (x : w.Janet) (m : Building A) (s : List Entry)
    → (w.is_text x ≡ true → Gives P (m s))
    → Gives P (reads x m s)
reads-Gives ⦃w⦄ x m s h = elim (Bool-cases (w.is_text x)) [
  | inl text ↦ rw text (h text)
  | inr none ↦ rw none faulted
]

pub store-Gives : (i : ℕ) (e : Entry) (s : List Entry) → Gives (λ _. Unit {0}) (store i e s)
unfolding store
store-Gives i e s = elim (Option-cases (put i e s)) [
  | inl out ↦ rw out faulted
  | inr (vtable, inside) ↦ rw inside (gives tt)
]

-- The letter may stand before other known letters.
abbrev Joins : ℕ → Type 0
Joins ch = (keys : Bytes) → AllKnown keys → AllKnown (ch ∷ keys)

Joins-letter : (ch : ℕ) (g : Flag) → (ch == letter g) ≡ true → Joins ch
Joins-letter ch g e keys k = let same : ch ≡ letter g = ground arith in rw same (flag g k)

Joins-writable : (ch : ℕ) → (ch == b'w') ≡ true → Joins ch
Joins-writable ch e keys k = let same : ch ≡ b'w' = ground arith in rw same (AllKnown.writable k)

add_flag-Gives :
    (ch : ℕ) (mask : Mask) (s : List Entry) → Gives (λ _. Joins ch) (add_flag ch mask s)
unfolding add_flag
add_flag-Gives ch mask s =
    Gives-if (ch == b'd') _ _ s (λ e. gives (Joins-letter ch deprecated e))
      λ _.
        Gives-if (ch == b'h') _ _ s (λ e. gives (Joins-letter ch hidden e))
          λ _.
            Gives-if (ch == b's') _ _ s (λ e. gives (Joins-letter ch sensitive e))
              λ _.
                Gives-if (ch == b'n') _ _ s (λ e. gives (Joins-letter ch no_reply e))
                  λ _.
                    Gives-if (ch == b'r') _ _ s (λ e. gives (Joins-letter ch const e))
                      λ _.
                        Gives-if (ch == b'e') _ _ s (λ e. gives (Joins-letter ch emits_change e))
                          λ _.
                            Gives-if (ch == b'i') _ _ s
                              (λ e. gives (Joins-letter ch emits_invalidation e))
                              λ _.
                                Gives-if (ch == b'x') _ _ s
                                  (λ e. gives (Joins-letter ch explicit e))
                                  λ _.
                                    Gives-if (ch == b'w') _ _ s (λ e. gives (Joins-writable ch e))
                                      λ _. panicked

add_flags-Gives :
    (keys : Bytes) (mask : Mask) (s : List Entry)
    → Gives (λ _. AllKnown keys) (add_flags keys mask s)
unfolding add_flags
add_flags-Gives [] mask s = gives none_left
add_flags-Gives (ch ∷ keys) mask s =
    Gives-bind (add_flag-Gives ch mask s)
      λ mask' t joins. Gives-mono (add_flags-Gives keys mask' t) λ _ k. joins keys k

pub sd_bus_flags-Gives :
    (keys : Bytes) (s : List Entry)
    → Gives (λ mask. AllKnown keys × (mask ≡ flags_of keys)) (sd_bus_flags keys s)
sd_bus_flags-Gives keys s =
    Gives-result (unfold sd_bus_flags in add_flags-Gives keys _ s) λ k. sd_bus_flags-AllKnown s k
