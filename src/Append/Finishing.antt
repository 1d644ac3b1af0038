-- ===== src/Append/Finishing.antt =====
-- `append_data` ends, whatever the text of its signature and the values are, if the text has no variant:
-- each level of nesting works on a shorter part of the signature. It faults only if the text has a
-- dictionary.
pub mod Texts
pub mod States
pub mod Entering
pub mod Basics
pub mod Containers
use janet_sdbus.Base.{
  ℕ, zero, suc, ◌∙◌, ◌+◌, ◌-◌, ◌≤◌, ◌<◌, ◌≡◌, refl, Bool, true, false, ◌||◌, List, [], ◌∷◌, ok,
  arith, ltb, ◌==◌, ◌>>◌, pure, length, take, drop, not, Bool-cases, inl, inr, some,
}
use janet_sdbus.Signature.{Bytes, deref, is_basic_type, match, find_subtype, span_next_type}
use janet_sdbus.Platform.{Platform, close_container}
use janet_sdbus.Unwrap.{
  Pointer, is_freed, call_sd_bus, dbus_errctx_inc, dbus_errctx_reset, dbus_errctx_set,
  dbus_errctx_exit,
}
use janet_sdbus.Append.{
  Parser, parser, Complete, cursor_char, next, peek, append_basic_type, append_array_type,
  append_by_code, append_complete_type, append_arguments, append_data,
}
use janet_sdbus.Append.Sending.{World}
use janet_sdbus.Append.Ending.{
  Ends, ends, panicked, Ends-bind, Ends-mono, Ends-if, call_sd_bus-Ends, panic_when-Ends,
  scanned-Ends,
}
use janet_sdbus.Append.Ending.Conversions.{getbytes-Ends}
use janet_sdbus.Append.Finishing.Texts.{
  has, Plain, Plain-mono, Plain-drop, Plain-tail, no_variant, at_brace,
}
use janet_sdbus.Append.Finishing.States.{
  Live, Later, Later-refl, Later-trans, Still, Still-refl, Still-Same, Later-Still, Live-Still,
  Ready, Ready-Dangles, Fit, Fit-Later, Fit-skip,
}
use janet_sdbus.Append.Finishing.Containers.{
  Done, Finishes, append_struct_type-Ends, append_dict_type-Ends, append_plain_array-Ends,
}
use janet_sdbus.Append.Finishing.Entering.{Fit-Entered, dbus_errctx_set-Ends, dbus_errctx_exit-Ends}
use janet_sdbus.Append.Finishing.Basics.{append_basic_type-Ends}

module _ ⦃w : Platform⦄ where
  open w use {Janet}

  Fit-text :
      {F : Type 0} {f g : ℕ} {p : Parser} {s : World}
      → Fit F f p s
      → Plain F g p.cursor
      → Fit F g p s
  Fit-text h plain = record {
    plain = plain;
    live = h.live;
    old = h.old;
    there = h.there;
    top = h.top;
  }

  module _ {F : Type 0} {complete : Complete} {f : ℕ} (ih : Finishes F complete f) where
    append_array_type-Ends :
        (p : Parser) (arg : Janet) (s : World)
        → Ready s
        → Fit F (suc f) p s
        → Plain F f (drop 1 p.cursor)
        → Ends F (Done F (suc f) p.owner s) (append_array_type complete p arg s)
    unfolding append_array_type
    append_array_type-Ends p arg s r h inside =
        Ends-if (peek p == b'{') _ _ s
          (λ e.
            let fault = at_brace (drop 1 p.cursor) inside e in
            Ends-mono
              (append_dict_type-Ends ih (next p) arg s fault r (Fit-text (Fit-skip h 1) inside))
              λ q t (h', k, own). (Fit-text h' (Plain-mono h'.plain), k, own))
          λ e.
            Ends-if (peek p == b'y') _ _ s
              (λ e'. Ends-bind (getbytes-Ends arg s (Ready-Dangles r)) λ view s₁ k₁.
                Ends-bind (call_sd_bus-Ends _ s₁) λ _ s₂ k₂.
                  let still = Still-Same (Still-Same (Still-refl s) k₁) k₂ in
                  let later = Later-Still still in
                  ends (Fit-Later (Fit-skip h 1) later (Live-Still h.live still), later, refl))
              λ e'. append_plain_array-Ends ih p arg s r h inside

    append_by_code-Ends :
        (p : Parser) (arg : Janet) (s : World)
        → Ready s
        → Fit F (suc f) p s
        → Ends F (Done F (suc f) p.owner s) (append_by_code complete p arg s)
    unfolding append_by_code
    append_by_code-Ends p arg s r h =
        let ch = cursor_char p in
        Ends-if (is_basic_type ch) _ _ s
          (λ e. Ends-bind (append_basic_type-Ends p arg s (Ready-Dangles r)) λ _ t still.
            let later = Later-Still still in
            ends (Fit-Later h later (Live-Still h.live still), later, refl))
          λ _.
            Ends-if (ch == b'v') _ _ s (λ e. absurd (let bad = no_variant p.cursor h.plain in cc))
              λ _.
                Ends-if (ch == b'(') _ _ s
                  (λ e. append_struct_type-Ends ih p arg s r h (Plain-tail p.cursor _ e h.plain))
                  λ _.
                    Ends-if (ch == b'a') _ _ s
                      (λ e. append_array_type-Ends p arg s r h (Plain-tail p.cursor _ e h.plain))
                      λ _. panicked

  append_complete_type-Finishes : {F : Type 0} (f : ℕ) → Finishes F (append_complete_type f) f
  unfolding append_complete_type
  append_complete_type-Finishes zero = record {
    finish = λ p arg s h. absurd (let short = h.plain.short in omega arith);
  }
  append_complete_type-Finishes (suc f) = record {
    finish = λ p arg s h. Ends-bind (scanned-Ends (span_next_type p.cursor) s) λ len s₁ same.
        let still = Still-Same (Still-refl s) same in
        let before = Later-Still still in
        let h₁ = Fit-Later h before (Live-Still h.live still) in
        Ends-bind (dbus_errctx_set-Ends p len s₁ h₁) λ _ s₂ k.
          Ends-bind
            (append_by_code-Ends (append_complete_type-Finishes f) p arg s₂ k.ready
              (Fit-Entered h₁ k))
            λ q s₃ done.
              Ends-bind (dbus_errctx_exit-Ends h₁ k done)
                λ _ s₄ (h₄, later, own). ends (h₄, Later-trans before later, own);
  }

  append_arguments-Ends :
      {F : Type 0} (f : ℕ) (sig : Bytes) (p : Parser) (args : List Janet) (s : World)
      → Fit F f p s
      → Ends F (λ _ _. Unit {0}) (append_arguments f sig p args s)
  unfolding append_arguments dbus_errctx_inc
  append_arguments-Ends f sig p [] s h = ends tt
  append_arguments-Ends f sig p (arg ∷ args) s h =
      let t = record s { errctx = record (s.errctx) { argc = s.errctx.argc + 1 } } in
      let same : Later s t = record { grew = omega arith; kept = λ b le e. e; depth = refl } in
      let live : Live t = record {
        caller = h.live.caller;
        fresh = h.live.fresh;
        outermost = h.live.outermost;
      } in
      Ends-if (cursor_char p == 0) _ _ s (λ e. panicked)
        λ e.
          Ends-bind ((append_complete_type-Finishes f).finish p arg t (Fit-Later h same live))
            λ q u (h', _, _). append_arguments-Ends f sig (next q) args u (Fit-skip h' 1)

  -- Whatever the text of the signature, a type or not, and whatever the values: if the text holds no
  -- variant, the caller's signature is not freed, nor is any block that is not allocated yet, then
  -- `append_data` returns or panics with any fuel above the length of the text, or faults, and then the
  -- text holds a dictionary.
  pub append_data-Ends :
      (f : ℕ) (sig : Bytes) (args : List Janet) (s : World)
      → is_freed 0 s.freed ≡ false
      → ((b : ℕ) → s.allocated < b → is_freed b s.freed ≡ false)
      → length sig < f
      → has b'v' sig ≡ false
      → Ends (has b'{' sig ≡ true) (λ _ _. Unit {0}) (append_data f sig args s)
  unfolding append_data dbus_errctx_reset
  append_data-Ends f sig args s caller fresh short plain =
      Ends-bind
        (append_arguments-Ends f sig (parser 0 sig) args _ (record {
          plain = record { short = short; invariant = plain; dictionary = λ e. e };
          live = record { caller = caller; fresh = fresh; outermost = tt };
          old = omega arith;
          there = caller;
          top = λ e. refl;
        }))
        λ last t _. Ends-mono (panic_when-Ends (not (cursor_char last == 0)) _ t) λ _ _ _. tt
