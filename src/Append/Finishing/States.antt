-- ===== src/Append/Finishing/States.antt =====
-- The blocks that the error context points into, while `append_data` runs.
use janet_sdbus.Base.{
  ℕ, ◌+◌, ◌≤◌, ◌<◌, ◌≡◌, refl, ◌∙◌, true, false, Option, none, some, ltb, arith, ◌∷◌,
}
use janet_sdbus.Platform.{Platform}
use janet_sdbus.Unwrap.{Pointer, is_freed, is_dangling}
use janet_sdbus.Append.{Parser, skip}
use janet_sdbus.Append.Sending.{World}
use janet_sdbus.Append.Ending.{Same, Dangles}
use janet_sdbus.Append.Finishing.Texts.{Plain, Plain-drop}

-- NULL, or a pointer into the caller's signature.
abbrev pub FromCaller : Option Pointer → Type 0
FromCaller none = Unit
FromCaller (some sig) = sig.owner ≡ 0

module _ ⦃w : Platform⦄ where
  -- Blocks that are not allocated yet are not freed, nor is the caller's signature, and the outermost
  -- element of the error context is a part of it.
  pub record Live (s : World) : Type 0 where
    pub caller : is_freed 0 s.freed ≡ false
    pub fresh : (b : ℕ) → s.allocated < b → is_freed b s.freed ≡ false
    pub outermost : FromCaller s.errctx.sig_first

  -- Later blocks may be allocated and freed, and the depth of the error context is the same.
  pub record Later (s t : World) : Type 0 where
    pub grew : s.allocated ≤ t.allocated
    pub kept : (b : ℕ) → b ≤ s.allocated → is_freed b s.freed ≡ false → is_freed b t.freed ≡ false
    pub depth : t.errctx.depth ≡ s.errctx.depth

  pub Later-refl : (s : World) → Later s s
  Later-refl s = record { grew = omega arith; kept = λ b le h. h; depth = refl }

  pub Later-trans : {s t u : World} → Later s t → Later t u → Later s u
  Later-trans h k = record {
    grew = omega arith;
    kept = λ b le e. k.kept b (omega arith) (h.kept b le e);
    depth = omega arith;
  }

  -- Nothing is freed, and the error context is as it was.
  pub record Still (s t : World) : Type 0 where
    pub errctx : t.errctx ≡ s.errctx
    pub freed : t.freed ≡ s.freed
    pub grew : s.allocated ≤ t.allocated

  pub Still-refl : (s : World) → Still s s
  Still-refl s = record { errctx = refl; freed = refl; grew = omega arith }

  pub Still-Same : {s t u : World} → Still s t → Same t u → Still s u
  Still-Same h k = record {
    errctx = k.errctx ∙ h.errctx;
    freed = k.freed ∙ h.freed;
    grew = omega arith;
  }

  pub Live-Still : {s t : World} → Live s → Still s t → Live t
  Live-Still h k = record {
    caller = rw k.freed h.caller;
    fresh = λ b less. rw k.freed (h.fresh b (omega arith));
    outermost = rw k.errctx h.outermost;
  }

  pub Later-Still : {s t : World} → Still s t → Later s t
  Later-Still k = record { grew = k.grew; kept = λ b le e. rw k.freed e; depth = rw k.errctx refl }

  -- A type error can be told: the error context points into blocks that are there.
  pub record Ready (s : World) : Type 0 where
    pub live : Live s
    pub inside : 0 < s.errctx.depth
    pub child :
        ltb 1 s.errctx.depth ≡ true
        → is_dangling s.errctx.sig_child s.errctx.len_child s.freed ≡ false

  pub Ready-Still : {s t : World} → Ready s → Still s t → Ready t
  Ready-Still h k = record {
    live = Live-Still h.live k;
    inside = rw k.errctx h.inside;
    child = rw (k.errctx, k.freed) h.child;
  }

  from_caller :
      (sig : Option Pointer) (len : ℕ) (s : World)
      → FromCaller sig
      → is_freed 0 s.freed ≡ false
      → is_dangling sig len s.freed ≡ false
  from_caller none len s h e = refl
  from_caller (some sig) len s h e = rw (h, e) (ground arith)

  pub Ready-Dangles : {F : Type 0} {s : World} → Ready s → Dangles F s
  Ready-Dangles {s} h =
      let outer =
        from_caller s.errctx.sig_first s.errctx.len_first s h.live.outermost h.live.caller in
      (
        λ e. absurd (ground arith),
        λ e.
            let deeper : ltb 1 s.errctx.depth ≡ true = ground arith in
            let inner = h.child deeper in absurd (ground arith),
      )

  -- The cursor `p` is in a plain text, in a block that is there; at the outermost level it is in the
  -- caller's signature.
  pub record Fit (F : Type 0) (f : ℕ) (p : Parser) (s : World) : Type 0 where
    pub plain : Plain F f p.cursor
    pub live : Live s
    pub old : p.owner ≤ s.allocated
    pub there : is_freed p.owner s.freed ≡ false
    pub top : s.errctx.depth ≡ 0 → p.owner ≡ 0

  module _ {F : Type 0} {f : ℕ} {p : Parser} {s : World} (h : Fit F f p s) where
    pub Fit-Later : {t : World} → Later s t → Live t → Fit F f p t
    Fit-Later k live = record {
      plain = h.plain;
      live = live;
      old = omega arith;
      there = k.kept p.owner h.old h.there;
      top = λ e. h.top (omega arith);
    }

    pub Fit-skip : (n : ℕ) → Fit F f (skip p n) s
    Fit-skip n = record {
      plain = Plain-drop n h.plain;
      live = h.live;
      old = h.old;
      there = h.there;
      top = h.top;
    }

  -- The block that `scalloc` gives, and the state after it.
  abbrev pub with_block : World → World
  with_block s = record s { allocated = s.allocated + 1 }

  pub Still-block : {s t : World} → Still s t → Still s (with_block t)
  Still-block h = record { errctx = h.errctx; freed = h.freed; grew = omega arith }

  Still-from : {s t : World} → Still (with_block s) t → Still s t
  Still-from k = record { errctx = k.errctx; freed = k.freed; grew = omega arith }

  -- A cursor into a new block.
  pub Fit-block :
      {F : Type 0} {f : ℕ} {s t : World} (p : Parser)
      → Plain F f p.cursor
      → Ready s
      → p.owner ≡ s.allocated + 1
      → Still (with_block s) t
      → Fit F f p t
  Fit-block {s} {t} p plain h e k = record {
    plain = plain;
    live = Live-Still h.live (Still-from k);
    old = omega arith;
    there = rw (k.freed, e) (h.live.fresh (s.allocated + 1) (omega arith));
    top = λ zero.
        absurd (let same : t.errctx.depth ≡ s.errctx.depth = rw k.errctx refl in omega arith);
  }

  -- The block is freed.
  abbrev pub without : ℕ → World → World
  without block s = record s { freed = block ∷ s.freed }

  pub Live-free :
      {t : World} (block : ℕ) → 0 < block → block ≤ t.allocated → Live t → Live (without block t)
  Live-free {t} block new le h = record {
    caller = ground (arith, h.caller);
    fresh = λ b less. ground (arith, h.fresh b less);
    outermost = h.outermost;
  }

  pub Later-free :
      {s t : World} (block : ℕ) → s.allocated < block → Later s t → Later s (without block t)
  Later-free block new h = record {
    grew = h.grew;
    kept = λ b le e. ground (arith, h.kept b le e);
    depth = h.depth;
  }
