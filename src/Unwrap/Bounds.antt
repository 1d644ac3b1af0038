-- ===== src/Unwrap/Bounds.antt =====
-- The buffer of `format_errctx` in src/unwrap.c has ERRCTX_MAX_SIG_LEN bytes.
use janet_sdbus.Base.{
  ℕ, ◌≤◌, Bool, true, false, ◌-◌, ◌<◌, Bool-cases, inl, inr, Option, none, some, [], ◌∷◌, ◌++◌,
  arith, length, length-append, length-take_le, ltb, take, if◌then◌else◌, ◌==◌,
}
use janet_sdbus.Signature.{Bytes}
use janet_sdbus.Unwrap.Context.{Pointer, errctx_max_sig_len, format_errctx}

-- Nothing, or a text that leaves room for the terminating NUL.
abbrev pub Fits : Option Bytes → Type 0
Fits none = Unit
Fits (some text) = length text < errctx_max_sig_len

abbrev cut : ℕ → ℕ
cut len = if ltb (errctx_max_sig_len - 4) len then errctx_max_sig_len - 4 else len

cut_le : (len : ℕ) → cut len ≤ 12
cut_le len = elim (Bool-cases (ltb 12 len)) [
  | inl long ↦ rw long (omega arith)
  | inr short ↦ rw short (ground arith)
]

length-dotted :
    (b : Bool) (n : ℕ) (text : Bytes)
    → n ≤ 12
    → length (take n text ++ (if b then b'.' ∷ b'.' ∷ b'.' ∷ [] else [])) < errctx_max_sig_len
length-dotted true n text h =
    omega (arith, length-append (take n text) (b'.' ∷ b'.' ∷ b'.' ∷ []), length-take_le n text)
length-dotted false n text h = omega (arith, length-append (take n text) [], length-take_le n text)

-- Whatever the signature and its length, the text that `format_errctx` writes and its NUL fit the
-- buffer.
pub format_errctx-Fits : (sig : Option Pointer) (len : ℕ) → Fits (format_errctx sig len)
unfolding format_errctx
format_errctx-Fits none len = tt
format_errctx-Fits (some sig) len = elim (Bool-cases (len == 0)) [
  | inl empty ↦ rw empty tt
  | inr ne ↦ rw ne (length-dotted (ltb (cut len) len) (cut len) sig.text (cut_le len))
]
