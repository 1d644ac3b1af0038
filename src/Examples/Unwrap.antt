-- ===== src/Examples/Unwrap.antt =====
-- A witness and a run for the text of the error context.
use janet_sdbus.Base.{◌≡◌, refl, some, [], ◌∷◌}
use janet_sdbus.Unwrap.{Pointer, format_errctx}
use janet_sdbus.Unwrap.Bounds.{Fits, format_errctx-Fits}

-- "(sssssssssssss)"
abbrev long : Pointer
long = record {
  owner = 0;
  text =
      b'(' ∷ b's' ∷ b's' ∷ b's' ∷ b's' ∷ b's' ∷ b's' ∷ b's' ∷ b's' ∷ b's' ∷ b's' ∷ b's' ∷ b's'
      ∷ b's' ∷ b')' ∷ [];
}

format_errctx-Fits_example : Fits (format_errctx (some long) 14)
format_errctx-Fits_example = format_errctx-Fits (some long) 14

format_errctx_runs : format_errctx (some long) 3 ≡ some (b'(' ∷ b's' ∷ b's' ∷ [])
unfolding format_errctx
format_errctx_runs = refl
