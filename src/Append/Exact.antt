-- ===== src/Append/Exact.antt =====
-- `append_data` returns exactly for values that have the types of its signature.
use janet_sdbus.Base.{subst, ℕ, ◌≡◌, refl, ◌↔◌, false, List, is_negative, Outcome, ok, arith}
use janet_sdbus.Signature.{Bytes}
use janet_sdbus.Signature.Types.{Ty, Tys, render, render_all}
use janet_sdbus.Platform.{Platform, open_container}
use janet_sdbus.Unwrap.{Panic}
use janet_sdbus.Append.{append_data}
use janet_sdbus.Append.Encoding.{Calls, EncodesAll, Sent, accepted, send}
use janet_sdbus.Append.Sending.{World, Sends, sent}
use janet_sdbus.Append.Arguments.{append_data-EncodesAll}
use janet_sdbus.Append.Returning.{Returns, returned}
use janet_sdbus.Append.Typed.{append_data-Checks}

module _ ⦃w : Platform⦄ where
  open w use {Janet, Double, Message, perform}

  -- The run `o` returns, and leaves the message `m`.
  abbrev pub Leaves : Message → Outcome (Panic Janet Double) World (Unit {0}) → Type 0
  Leaves m o = (t : World) × (o ≡ ok tt t) × (t.msg ≡ m)

  -- The calls of an encoding of the values lead from one message to the other.
  abbrev pub Leads : ℕ → Tys → List Janet → Message → Message → Type 0
  Leads f ts vs m m' = (cs : Calls) × EncodesAll f ts vs cs × (send cs m ≡ accepted m')

  pub accepted-Sends :
      {P : Unit {0} → World → Type 0} {r : Sent} {o : Outcome (Panic Janet Double) World (Unit {0})}
      {m : Message}
      → Sends r P o
      → r ≡ accepted m
      → Leaves m o
  accepted-Sends (sent {s} e p) h = (s, refl, ground arith)
  accepted-Sends (Sends.stopped e) h = ground arith

  ok-Returns :
      {P : Unit {0} → Calls → Type 0} {m : Message} {t : World}
      → Returns m P (ok tt t)
      → (cs : Calls) × (send cs m ≡ accepted t.msg) × P tt cs
  ok-Returns (returned cs e p) = (cs, e, p)

  -- If the message library opens a variant only for a single complete type, then `append_data`
  -- returns, leaving the message `m`, exactly if the values have the types of the signature, and the
  -- calls of their encoding are all accepted and lead to `m`.
  pub append_data_iff :
      ((sig : Bytes) (m : Message)
        → is_negative (perform (open_container b'v' sig) m).0 ≡ false
        → (t : Ty) × (sig ≡ render t))
      → (f : ℕ) (ts : Tys) (vs : List Janet) (s : World) (m : Message)
      → Leaves m (append_data f (render_all ts) vs s) ↔ Leads f ts vs s.msg m
  append_data_iff single f ts vs s m = (
    λ (t, e, same).
        let (cs, sends, es) = ok-Returns (
          subst (λ o. Returns s.msg (λ _ cs. EncodesAll f ts vs cs) o) e
            (append_data-Checks single f ts vs s)) in
        (cs, es, rw same at sends),
    λ (cs, es, sends). accepted-Sends (append_data-EncodesAll s es) sends,
  )
