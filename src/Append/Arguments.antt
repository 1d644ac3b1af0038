-- ===== src/Append/Arguments.antt =====
-- `append_data`, the body of `sdbus/message-append`: all arguments at once, and a count of arguments
-- that does not fit the signature.
use janet_sdbus.Base.{
  ℕ, ◌+◌, ◌≡◌, refl, List, [], ◌∷◌, ◌++◌, append_assoc, append-nil, arith, length,
}
use janet_sdbus.Signature.{Bytes}
use janet_sdbus.Signature.Types.{Ty, Tys, member, render, render_all}
use janet_sdbus.Platform.{Platform}
use janet_sdbus.Unwrap.{
  no_context, dbus_errctx_reset, dbus_errctx_inc, excessive_arguments, arguments_missing,
}
use janet_sdbus.Append.{Parser, parser, append_arguments, append_data}
use janet_sdbus.Append.Encoding.{Calls, EncodesAll, all_none, all_more, send}
use janet_sdbus.Append.Sending.{
  World, Sends, Refuses, refuses, Sends-bind, Sends-mono, Sends-end, Sends-pure, Refuses-bind,
  Refuses-end, Refuses-then,
}
use janet_sdbus.Append.Containers.{deref-render}
use janet_sdbus.Append.Refines.{append_complete_type-Writes}

module _ ⦃w : Platform⦄ where
  open w use {Janet}

  -- The state after `dbus_errctx_inc`, and after `dbus_errctx_reset`.
  abbrev pub counted : World → World
  counted s = record s { errctx = record (s.errctx) { argc = s.errctx.argc + 1 } }

  abbrev pub reset : World → World
  reset s = record s { errctx = no_context }

  -- The loop's result on arguments that fit: the cursor is at what follows their types.
  abbrev Through : Bytes → ℕ → World → Parser → World → Type 0
  Through rest n s p t =
      (p.cursor ≡ rest) × (t.errctx.depth ≡ s.errctx.depth) × (t.errctx.argc ≡ s.errctx.argc + n)

  append_arguments-Sends :
      {f : ℕ} {ts : Tys} {vs : List Janet} {cs : Calls} (sig : Bytes) (owner : ℕ) (rest : Bytes)
      (s : World)
      → EncodesAll f ts vs cs
      → Sends
          (send cs s.msg)
          (Through rest (length vs) s)
          (append_arguments f sig (parser owner (render_all ts ++ rest)) vs s)
  unfolding append_arguments render dbus_errctx_inc
  append_arguments-Sends sig owner rest s all_none = Sends-pure s s refl (refl, refl, omega arith)
  append_arguments-Sends {f} sig owner rest s (all_more {t} {ts} {v} {vs} {cs} {ds} e es) =
      rw (append_assoc, deref-render t (render_all ts ++ rest))
        (Sends-bind cs ds s.msg
          ((append_complete_type-Writes f).write owner (render_all ts ++ rest) (counted s) e)
          λ p s₁ (past, k). rw past (
            Sends-mono (append_arguments-Sends sig p.owner rest s₁ es)
              λ q s₂ (through, d, c). (through, omega arith, omega arith)))

  -- One argument more than the types.
  append_arguments-Refuses :
      {f : ℕ} {ts : Tys} {vs : List Janet} {cs : Calls} (sig : Bytes) (owner : ℕ) (u : Janet)
      (us : List Janet) (s : World)
      → EncodesAll f ts vs cs
      → Refuses
          (send cs s.msg)
          (excessive_arguments sig)
          (append_arguments f sig (parser owner (render_all ts)) (vs ++ u ∷ us) s)
  unfolding append_arguments render dbus_errctx_inc send
  append_arguments-Refuses sig owner u us s all_none = refuses refl
  append_arguments-Refuses {f} sig owner u us s (all_more {t} {ts} {v} {vs} {cs} {ds} e es) =
      rw (deref-render t (render_all ts)) (
        Refuses-bind cs ds s.msg
          ((append_complete_type-Writes f).write owner (render_all ts) (counted s) e)
          λ p s₁ (past, k). rw past (append_arguments-Refuses sig p.owner u us s₁ es))

  -- Values that have the types of the signature: `append_data` makes the calls of the encoding in
  -- order, up to the first that the message library refuses, whose error it then raises. If none is
  -- refused it returns, the error context is closed, and its count is the number of values.
  pub append_data-EncodesAll :
      {f : ℕ} {ts : Tys} {vs : List Janet} {cs : Calls} (s : World)
      → EncodesAll f ts vs cs
      → Sends
          (send cs s.msg)
          (λ _ t. (t.errctx.depth ≡ 0) × (t.errctx.argc ≡ length vs))
          (append_data f (render_all ts) vs s)
  unfolding append_data dbus_errctx_reset
  append_data-EncodesAll {ts} s es =
      Sends-end (rw append-nil at (append_arguments-Sends (render_all ts) 0 [] (reset s) es))
        λ p t (done, d, c). rw done (Sends-pure t t refl (omega arith))

  -- More values than types: the calls of the values that fit are made, and if none is refused then
  -- `append_data` panics, naming the signature.
  pub append_data-excessive :
      {f : ℕ} {ts : Tys} {vs : List Janet} {cs : Calls} (u : Janet) (us : List Janet) (s : World)
      → EncodesAll f ts vs cs
      → Refuses
          (send cs s.msg)
          (excessive_arguments (render_all ts))
          (append_data f (render_all ts) (vs ++ u ∷ us) s)
  unfolding append_data dbus_errctx_reset
  append_data-excessive {ts} u us s es =
      Refuses-then _ (append_arguments-Refuses (render_all ts) 0 u us (reset s) es)

  -- Fewer values than types: likewise.
  pub append_data-missing :
      {f : ℕ} {ts : Tys} {vs : List Janet} {cs : Calls} (t : Ty) (us : Tys) (s : World)
      → EncodesAll f ts vs cs
      → Refuses
          (send cs s.msg)
          (arguments_missing (render_all ts ++ render_all (member t us)))
          (append_data f (render_all ts ++ render_all (member t us)) vs s)
  unfolding append_data dbus_errctx_reset render send
  append_data-missing {ts} t us s es =
      Refuses-end
        (append_arguments-Sends (render_all ts ++ render_all (member t us)) 0 _ (reset s) es)
        λ p u (left, d, c). rw (left, deref-render t (render_all us)) (refuses refl)
