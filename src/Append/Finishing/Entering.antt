-- ===== src/Append/Finishing/Entering.antt =====
-- The error context when `append_complete_type` enters a type and leaves it.
use janet_sdbus.Base.{ℕ, ◌∙◌, ◌+◌, ◌≤◌, ◌≡◌, refl, true, arith, ltb, Bool-cases, inl, inr}
use janet_sdbus.Platform.{Platform}
use janet_sdbus.Unwrap.{dbus_errctx_set, dbus_errctx_exit}
use janet_sdbus.Append.{Parser}
use janet_sdbus.Append.Sending.{World}
use janet_sdbus.Append.Ending.{Ends, ends}
use janet_sdbus.Append.Finishing.States.{Ready, Fit}
use janet_sdbus.Append.Finishing.Containers.{Done}

module _ ⦃w : Platform⦄ where
  -- The error context is one deeper, and no block is allocated or freed.
  pub record Entered (s t : World) : Type 0 where
    pub ready : Ready t
    pub depth : t.errctx.depth ≡ s.errctx.depth + 1
    pub freed : t.freed ≡ s.freed
    pub grew : s.allocated ≤ t.allocated

  pub Fit-Entered :
      {F : Type 0} {f : ℕ} {p : Parser} {s t : World} → Fit F f p s → Entered s t → Fit F f p t
  Fit-Entered {p} h k = record {
    plain = h.plain;
    live = k.ready.live;
    old = omega (arith, h.old, k.grew);
    there = rw k.freed h.there;
    top = λ e. absurd (let deeper = k.depth in omega arith);
  }

  -- The outermost type is in the caller's signature, the type inside a container is in a block that
  -- is there.
  pub dbus_errctx_set-Ends :
      {F : Type 0} {f : ℕ} (p : Parser) (len : ℕ) (s : World)
      → Fit F f p s
      → Ends F
          (λ _ t. Entered s t)
          (dbus_errctx_set (record { owner = p.owner; text = p.cursor }) len s)
  unfolding dbus_errctx_set
  dbus_errctx_set-Ends p len s h = elim (Bool-cases (ltb 1 (s.errctx.depth + 1))) [
    | inl deeper ↦ rw deeper (
        ends (record {
          ready = record {
            live = record {
              caller = h.live.caller;
              fresh = h.live.fresh;
              outermost = h.live.outermost;
            };
            inside = omega arith;
            child = λ e. rw h.there (ground arith);
          };
          depth = refl;
          freed = refl;
          grew = omega arith;
        }))
    | inr outer ↦ rw outer (
        ends (record {
          ready = record {
            live = record {
              caller = h.live.caller;
              fresh = h.live.fresh;
              outermost = h.top (ground arith);
            };
            inside = omega arith;
            child = λ e. absurd (ground arith);
          };
          depth = refl;
          freed = refl;
          grew = omega arith;
        }))
  ]

  pub dbus_errctx_exit-Ends :
      {F : Type 0} {f : ℕ} {s t u : World} {p q : Parser}
      → Fit F f p s
      → Entered s t
      → Done F f p.owner t q u
      → Ends F (λ _ v. Done F f p.owner s q v) (dbus_errctx_exit u)
  unfolding dbus_errctx_exit
  dbus_errctx_exit-Ends {s} {u} h k (h', later, own) =
      let inner : ltb 0 u.errctx.depth ≡ true =
        let a = later.depth in let b = k.depth in ground arith in
      rw inner (
        ends (
          record {
            plain = h'.plain;
            live = record {
              caller = h'.live.caller;
              fresh = h'.live.fresh;
              outermost = h'.live.outermost;
            };
            old = h'.old;
            there = h'.there;
            top = λ e. own ∙ h.top (let a = later.depth in let b = k.depth in omega arith);
          },
          record {
            grew = let a = later.grew in let b = k.grew in omega arith;
            kept = λ b le e. later.kept b (let c = k.grew in omega arith) (rw k.freed e);
            depth = let a = later.depth in let b = k.depth in omega arith;
          },
          own,
        ))
