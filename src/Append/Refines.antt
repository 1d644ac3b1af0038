-- ===== src/Append/Refines.antt =====
-- The writer refines the encoding: on a signature that is the text of types, and values that have
-- these types, `append_data` makes the calls of the encoding, in order, and no other.
use janet_sdbus.Base.{
  ℕ, zero, suc, ◌+◌, ◌≡◌, ◌≢◌, refl, true, false, some, [], ◌∷◌, ◌++◌, append_assoc, append-nil,
  arith, ltb, ◌==◌, Bool-cases, inl, inr,
}
use janet_sdbus.Signature.{Bytes, deref}
use janet_sdbus.Signature.Types.{Basic, Ty, basic, variant, array, render}
use janet_sdbus.Signature.Spans.{span_next_type-render}
use janet_sdbus.Platform.{Platform, JanetType, open_container, close_container, append_array}
use janet_sdbus.Unwrap.{Pointer, dbus_errctx_set, dbus_errctx_exit, getbytes, gettuple}
use janet_sdbus.Append.{
  parser, Complete, append_plain_array, append_array_type, append_variant_pair, append_variant_type,
  append_by_code, append_complete_type,
}
use janet_sdbus.Append.Encoding.{Calls, Encodes, send}
use janet_sdbus.Append.Basics.{append_basic_type-basic_call}
use janet_sdbus.Append.Sending.{
  World, Sends, Kept, Kept-trans, Sends-bind, Sends-end, Sends-pure, Sends-call, Sends-last,
}
use janet_sdbus.Append.Containers.{
  Past, Writes, is_basic_type-code, append_struct_type-Sends, append_dict_type-Sends,
  append_plain_array-Sends,
}

-- The character that `append_array_type` looks ahead to.
pub deref-render_brace : (t : Ty) (rest : Bytes) → (deref (render t ++ rest) == b'{') ≡ false
unfolding render
deref-render_brace (basic k) rest = ground arith
deref-render_brace variant rest = refl
deref-render_brace _ rest = refl

pub deref-render_y :
    (t : Ty) (rest : Bytes) → t ≢ basic Basic.byte → (deref (render t ++ rest) == b'y') ≡ false
unfolding render
deref-render_y (basic Basic.byte) rest ne = absurd (ne refl)
deref-render_y _ rest ne = refl

module _ ⦃w : Platform⦄ where
  open w use {Janet, Double, Message}

  pub append_array_type-plain :
      (complete : Complete) {t : Ty} (v : Janet) (owner : ℕ) (rest : Bytes) (s : World)
      → t ≢ basic Basic.byte
      → append_array_type complete (parser owner (render (array t) ++ rest)) v s
        ≡ append_plain_array complete (parser owner (render (array t) ++ rest)) v s
  unfolding append_array_type render
  append_array_type-plain complete {t} v owner rest s ne =
      rw (deref-render_brace t rest, deref-render_y t rest ne)

  module _ {complete : Complete} {f : ℕ} (ih : Writes complete f) where
    append_bytes-Sends :
        {v : Janet} {bs : Bytes} (owner : ℕ) (rest : Bytes) (s : World)
        → w.bytes_view v ≡ some bs
        → Sends
            (send (append_array b'y' bs ∷ []) s.msg)
            (Past rest s)
            (append_array_type complete (parser owner (b'a' ∷ b'y' ∷ rest)) v s)
    unfolding append_array_type getbytes
    append_bytes-Sends owner rest s e = rw e (
        Sends-end (Sends-last {P = λ _ u. Kept s u} _ s (λ t k. k))
          λ _ t k. Sends-pure t t refl (refl, k))

    append_variant_type-Sends :
        {t : Ty} {v sig value : Janet} {cs : Calls} (owner : ℕ) (rest : Bytes) (s : World)
        → w.checktype v JanetType.tuple ≡ true
        → w.unwrap_tuple v ≡ sig ∷ value ∷ []
        → w.checktype sig JanetType.string ≡ true
        → w.getcbytes sig ≡ some (render t)
        → Encodes f t value cs
        → Sends
            (send (open_container b'v' (render t) ∷ (cs ++ close_container ∷ [])) s.msg)
            (Past rest s)
            (append_variant_type complete (parser owner (b'v' ∷ rest)) v s)
    unfolding append_variant_type append_variant_pair gettuple
    append_variant_type-Sends {t} {cs} owner rest s e₁ e₂ e₃ e₄ es =
        rw (e₁, e₂, e₃, e₄)
          (Sends-end
            (Sends-call _ _ s λ _ s₁ k₁.
              Sends-bind cs _ s₁.msg (rw append-nil at (ih.write 0 [] s₁ es)) λ p s₂ (_, k₂).
                Sends-last {P = λ _ u. Kept s u} close_container s₂
                  λ s₃ k₃. Kept-trans k₁ (Kept-trans k₂ k₃))
            λ _ u k. Sends-pure u u refl (refl, k))

    -- The dispatch on the character at the cursor.
    append_by_code-Sends :
        {t : Ty} {v : Janet} {cs : Calls} (owner : ℕ) (rest : Bytes) (s : World)
        → Encodes (suc f) t v cs
        → Sends
            (send cs s.msg)
            (Past rest s)
            (append_by_code complete (parser owner (render t ++ rest)) v s)
    unfolding append_by_code render
    append_by_code-Sends owner rest s (Encodes.basic {k} {v} {c} e) =
        rw (is_basic_type-code k, append_basic_type-basic_call k owner rest v c s e)
          (Sends-end (Sends-last {P = λ _ u. Kept s u} c s (λ t k. k))
            λ _ t k. Sends-pure t t refl (refl, k))
    append_by_code-Sends owner rest s (Encodes.bytes e) = append_bytes-Sends owner rest s e
    append_by_code-Sends owner rest s (Encodes.array {v} ne e es) =
        rw (append_array_type-plain complete v owner rest s ne)
          (append_plain_array-Sends ih owner rest s e es)
    append_by_code-Sends owner rest s (Encodes.struct e es) =
        append_struct_type-Sends ih owner rest s e es
    append_by_code-Sends owner rest s (Encodes.dict {k} {t} e es) =
        rw append_assoc (append_dict_type-Sends ih owner rest s e es)
    append_by_code-Sends owner rest s (Encodes.variant e₁ e₂ e₃ e₄ es) =
        append_variant_type-Sends owner rest s e₁ e₂ e₃ e₄ es

  no_levels : {t : Ty} {v : Janet} {cs : Calls} → ¬ Encodes 0 t v cs
  no_levels e = elim e [ ]

  -- One level deeper in the error context, and back.
  record Deeper (s t : World) : Type 0 where
    depth : t.errctx.depth ≡ s.errctx.depth + 1
    argc : t.errctx.argc ≡ s.errctx.argc

  set-Sends :
      (sig : Pointer) (len : ℕ) (s : World)
      → Sends (send [] s.msg) (λ _ t. Deeper s t) (dbus_errctx_set sig len s)
  unfolding dbus_errctx_set
  set-Sends sig len s = elim (Bool-cases (ltb 1 (s.errctx.depth + 1))) [
    | inl below ↦ rw below (Sends-pure s _ refl (record { depth = refl; argc = refl }))
    | inr top ↦ rw top (Sends-pure s _ refl (record { depth = refl; argc = refl }))
  ]

  exit-Sends :
      (s t : World) → Deeper s t → Sends (send [] t.msg) (λ _ u. Kept s u) (dbus_errctx_exit t)
  unfolding dbus_errctx_exit
  exit-Sends s t d =
      let inside : ltb 0 t.errctx.depth ≡ true = ground arith in
      rw inside (Sends-pure t _ refl (omega arith))

  -- `append_complete_type` sets the error context, and leaves its depth as it was.
  pub append_complete_type-Writes : (f : ℕ) → Writes (append_complete_type f) f
  unfolding append_complete_type
  append_complete_type-Writes zero = record { write = λ owner rest s e. absurd (no_levels e) }
  append_complete_type-Writes (suc f) = record {
    write = λ {t} {v} {cs} owner rest s e. rw (span_next_type-render t rest) (
        Sends-bind [] cs s.msg (set-Sends _ _ s) λ _ s₁ d.
          Sends-end (append_by_code-Sends (append_complete_type-Writes f) owner rest s₁ e)
            λ p s₂ (past, k).
              Sends-end (exit-Sends s s₂ (omega arith))
                λ _ s₃ k₃. Sends-pure s₃ s₃ refl (past, k₃));
  }
