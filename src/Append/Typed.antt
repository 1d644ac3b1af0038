-- ===== src/Append/Typed.antt =====
-- The converse of Append/Refines: what `append_data` accepts has the types of the signature. The
-- types inside variants are named by the values, so that it is the message library that checks them.
mod Basics
mod Containers
use janet_sdbus.Base.{
  ◌+◌, ◌⊎◌, sym, ap, ◌∙◌, ℕ, zero, suc, ◌≡◌, ◌≢◌, refl, true, false, List, [], ◌∷◌, ◌++◌,
  append_assoc, append-nil, arith, ltb, ◌==◌, is_negative, Bool-cases, inl, inr, not, ok, Option,
  some, none,
}
use janet_sdbus.Signature.{Bytes}
use janet_sdbus.Signature.Types.{
  Basic, Ty, Tys, basic, variant, struct, array, dict, member, end, render, render_all,
}
use janet_sdbus.Signature.Spans.{span_next_type-render}
use janet_sdbus.Platform.{Platform, JanetType, open_container, close_container}
use janet_sdbus.Unwrap.{
  Pointer, dbus_errctx_set, dbus_errctx_exit, dbus_errctx_reset, dbus_errctx_inc,
}
use janet_sdbus.Append.{
  parser, Complete, append_array_type, append_variant_pair, append_variant_type, cursor_char,
  append_by_code, append_complete_type, append_arguments, append_data,
}
use janet_sdbus.Append.Encoding.{Encodes, EncodesAll, all_none, all_more, send, accepted}
use janet_sdbus.Append.Sending.{World}
use janet_sdbus.Append.Containers.{is_basic_type-code, deref-render}
use janet_sdbus.Append.Refines.{append_array_type-plain, deref-render_brace, deref-render_y}
use janet_sdbus.Append.Arguments.{counted, reset}
use janet_sdbus.Append.Returning.{
  Returns, returned, panicked, ran_out, Got, Returns-pure, Returns-mono, Returns-bind, Returns-call,
  Returns-get, Returns-last, getbytes-Returns, gettuple-Returns, panic_when-Returns, cbytes-Returns,
}
use janet_sdbus.Append.Typed.Basics.{append_basic_type-Wrote}
use janet_sdbus.Append.Typed.Containers.{
  Written, Checks, append_struct_type-Checks, append_dict_type-Checks, append_plain_array-Checks,
}

-- Arrays of bytes are written in another way than all other arrays.
byte_or_other : (t : Ty) → (t ≡ basic Basic.byte) ⊎ (t ≢ basic Basic.byte)
byte_or_other (basic Basic.byte) = inl refl
byte_or_other (basic k) = inr (ground arith)
byte_or_other _ = inr (ground arith)

module _ ⦃w : Platform⦄ where
  open w use {Janet, Double, Message, perform, checktype, unwrap_tuple}

  set-Returns :
      (sig : Pointer) (len : ℕ) (s : World)
      → Returns s.msg (Got λ _. Unit {0}) (dbus_errctx_set sig len s)
  unfolding dbus_errctx_set
  set-Returns sig len s = elim (Bool-cases (ltb 1 (s.errctx.depth + 1))) [
    | inl below ↦ rw below (Returns-pure s _ refl (refl, tt))
    | inr top ↦ rw top (Returns-pure s _ refl (refl, tt))
  ]

  exit-Returns : (s : World) → Returns s.msg (Got λ _. Unit {0}) (dbus_errctx_exit s)
  unfolding dbus_errctx_exit
  exit-Returns s = elim (Bool-cases (ltb 0 s.errctx.depth)) [
    | inl inside ↦ rw inside (Returns-pure s _ refl (refl, tt))
    | inr outside ↦ rw outside (Returns-pure s _ refl (refl, tt))
  ]

  -- The message library opens a variant only for a single complete type.
  module _
      (single : (sig : Bytes) (m : Message)
        → is_negative (perform (open_container b'v' sig) m).0 ≡ false
        → (t : Ty) × (sig ≡ render t)) where
    module _ {complete : Complete} {f : ℕ} (ih : Checks complete f) where
      append_variant_pair-Checks :
          (v : Janet) (items : List Janet) (s : World)
          → checktype v JanetType.tuple ≡ true
          → unwrap_tuple v ≡ items
          → Returns s.msg
              (λ _ cs. Encodes (suc f) variant v cs)
              (append_variant_pair complete items s)
      unfolding append_variant_pair
      append_variant_pair-Checks v (sig ∷ value ∷ []) s e₁ e₂ =
          panic_when-Returns (not (checktype sig JanetType.string)) _ s λ _ s₁ string.
            Returns-get (cbytes-Returns sig (w.getcbytes sig) s₁) λ text s₂ given.
              Returns-call _ s₂ λ _ s₃ go.
                let (t, e) = single text s₂.msg go in
                let is_text : checktype sig JanetType.string ≡ true = ground arith in
                let inside = rw (append-nil, sym e) at (ih.check t value 0 [] s₃) in
                Returns-bind inside λ p s₄ cs (_, es).
                  Returns-last close_container s₄
                    (rw e (Encodes.variant e₁ e₂ is_text (given ∙ ap some e) es))
      append_variant_pair-Checks v _ s e₁ e₂ = panicked

      append_variant_type-Checks :
          (v : Janet) (owner : ℕ) (rest : Bytes) (s : World)
          → Returns s.msg
              (Written (suc f) variant rest v)
              (append_variant_type complete (parser owner (b'v' ∷ rest)) v s)
      unfolding append_variant_type
      append_variant_type-Checks v owner rest s =
          Returns-get (gettuple-Returns v s) λ items s₁ (is_tuple, given).
            Returns-bind (append_variant_pair-Checks v items s₁ is_tuple (sym given))
              λ _ s₂ cs es. Returns-pure s₂ s₂ refl (refl, rw append-nil es)

      append_bytes-Checks :
          (v : Janet) (owner : ℕ) (rest : Bytes) (s : World)
          → Returns s.msg
              (Written (suc f) (array (basic Basic.byte)) rest v)
              (append_array_type complete (parser owner (b'a' ∷ b'y' ∷ rest)) v s)
      unfolding append_array_type
      append_bytes-Checks v owner rest s = Returns-get (getbytes-Returns v s) λ bytes s₁ given.
          Returns-call _ s₁ λ _ s₂ _. Returns-pure s₂ s₂ refl (refl, Encodes.bytes given)

      append_plain-Checks :
          (t : Ty) (v : Janet) (owner : ℕ) (rest : Bytes) (s : World)
          → t ≢ basic Basic.byte
          → Returns s.msg
              (Written (suc f) (array t) rest v)
              (append_array_type complete (parser owner (render (array t) ++ rest)) v s)
      append_plain-Checks t v owner rest s ne =
          rw (append_array_type-plain complete v owner rest s ne)
            (append_plain_array-Checks ih t v owner rest s ne)

      -- The dispatch on the character at the cursor.
      append_by_code-Checks :
          (t : Ty) (v : Janet) (owner : ℕ) (rest : Bytes) (s : World)
          → Returns s.msg
              (Written (suc f) t rest v)
              (append_by_code complete (parser owner (render t ++ rest)) v s)
      unfolding append_by_code render
      append_by_code-Checks (basic k) v owner rest s = rw (is_basic_type-code k) (
          Returns-bind (append_basic_type-Wrote k owner rest v s)
            λ _ s₁ cs (c, one, e). rw one (Returns-pure s₁ s₁ refl (refl, Encodes.basic e)))
      append_by_code-Checks variant v owner rest s = append_variant_type-Checks v owner rest s
      append_by_code-Checks (struct t ts) v owner rest s =
          append_struct_type-Checks ih t ts v owner rest s
      append_by_code-Checks (dict k t) v owner rest s =
          rw append_assoc (append_dict_type-Checks ih k t v owner rest s)
      append_by_code-Checks (array t) v owner rest s = elim (byte_or_other t) [
        | inl is_byte ↦ rw is_byte (append_bytes-Checks v owner rest s)
        | inr ne ↦ append_plain-Checks t v owner rest s ne
      ]

    append_complete_type-Checks : (f : ℕ) → Checks (append_complete_type f) f
    unfolding append_complete_type
    append_complete_type-Checks zero = record { check = λ t v owner rest s. ran_out }
    append_complete_type-Checks (suc f) = record {
      check = λ t v owner rest s. rw (span_next_type-render t rest) (
          Returns-get (set-Returns _ _ s) λ _ s₁ _.
            Returns-bind (append_by_code-Checks (append_complete_type-Checks f) t v owner rest s₁)
              λ p s₂ cs (past, e).
                Returns-get (exit-Returns s₂)
                  λ _ s₃ _. Returns-pure s₃ s₃ refl (past, rw append-nil e));
    }

    append_arguments-Checks :
        (f : ℕ) (ts : Tys) (vs : List Janet) (sig : Bytes) (owner : ℕ) (s : World)
        → Returns s.msg
            (λ p cs. (cursor_char p == 0) ≡ true → EncodesAll f ts vs cs)
            (append_arguments f sig (parser owner (render_all ts)) vs s)
    unfolding append_arguments render dbus_errctx_inc
    append_arguments-Checks f end [] sig owner s = Returns-pure s s refl λ e. all_none
    append_arguments-Checks f (member t ts) [] sig owner s =
        Returns-pure s s refl λ e. ground (arith, deref-render t (render_all ts))
    append_arguments-Checks f end (v ∷ vs) sig owner s = panicked
    append_arguments-Checks f (member t ts) (v ∷ vs) sig owner s =
        rw (deref-render t (render_all ts)) (
          Returns-bind ((append_complete_type-Checks f).check t v owner (render_all ts) (counted s))
            λ p u cs (past, e). rw past (
              Returns-mono (append_arguments-Checks f ts vs sig p.owner u)
                λ q ds done over. all_more e (done over)))

    -- What `append_data` accepts has the types of the signature.
    pub append_data-Checks :
        (f : ℕ) (ts : Tys) (vs : List Janet) (s : World)
        → Returns s.msg (λ _ cs. EncodesAll f ts vs cs) (append_data f (render_all ts) vs s)
    unfolding append_data dbus_errctx_reset
    append_data-Checks f ts vs s =
        Returns-bind (append_arguments-Checks f ts vs (render_all ts) 0 (reset s)) λ p s₁ cs done.
          elim (Bool-cases (cursor_char p == 0)) [
            | inl over ↦ rw over (Returns-pure s₁ s₁ refl (rw append-nil (done over)))
            | inr left ↦ rw left panicked
          ]
