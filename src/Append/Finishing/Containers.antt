-- ===== src/Append/Finishing/Containers.antt =====
-- The container functions end, given that the function for the types inside does, and fault only where
-- the signature has a dictionary.
use janet_sdbus.Base.{
  ℕ, suc, ◌+◌, ◌-◌, ◌≡◌, refl, List, [], ◌∷◌, arith, ltb, ◌==◌, ◌>>◌, pure, length, take, drop, not,
}
use janet_sdbus.Signature.{Bytes, deref, is_basic_type, match, find_subtype}
use janet_sdbus.Platform.{Platform, open_container, close_container}
use janet_sdbus.Unwrap.{call_sd_bus}
use janet_sdbus.Append.{
  Parser, skip, Complete, cursor_char, next, append_members, append_struct_type, append_elements,
  append_entries, append_dict_type, append_plain_array, sfree,
}
use janet_sdbus.Append.Sending.{World}
use janet_sdbus.Append.Ending.{
  Ends, ends, panicked, Ends-bind, Ends-mono, Ends-if, call_sd_bus-Ends, panic_when-Ends,
  scanned-Ends,
}
use janet_sdbus.Append.Ending.Conversions.{getindexed-Ends, getdictionary-Ends}
use janet_sdbus.Append.Finishing.Texts.{Plain, Plain-drop, Plain-take}
use janet_sdbus.Append.Finishing.States.{
  Live, Later, Later-refl, Later-trans, Still, Still-refl, Still-Same, Later-Still, Live-Still,
  Ready, Ready-Still, Ready-Dangles, Fit, Fit-Later, Fit-skip, with_block, Still-block, Fit-block,
  Live-free, Later-free,
}
use janet_sdbus.Append.Finishing.Basics.{append_basic_type-Ends}

module _ ⦃w : Platform⦄ where
  open w use {Janet, Double, Message}

  -- The cursor fits and is in the same block, and what was there is there.
  abbrev pub Done : Type 0 → ℕ → ℕ → World → Parser → World → Type 0
  Done F f block s q t = Fit F f q t × Later s t × (q.owner ≡ block)

  -- What is shown of `append_complete_type` at fuel `f`.
  pub record Finishes (F : Type 0) (complete : Complete) (f : ℕ) : Type 0 where
    pub finish :
        (p : Parser) (arg : Janet) (s : World)
        → Fit F f p s
        → Ends F (Done F f p.owner s) (complete p arg s)

  -- The end of each container function, which got its block in the state `b`.
  close-Ends :
      {F : Type 0} {f : ℕ} {s b t : World} (p : Parser)
      → Fit F f p s
      → Still s b
      → Later (with_block b) t
      → Live t
      → Ends F
          (Done F f p.owner s)
          ((call_sd_bus close_container >> (sfree (b.allocated + 1) >> pure p)) t)
  unfolding sfree
  close-Ends {b} {t} p h before k live = Ends-bind (call_sd_bus-Ends close_container t) λ _ u same.
      let still = Still-Same (Still-refl t) same in
      let whole =
        Later-trans (Later-Still (Still-block before)) (Later-trans k (Later-Still still)) in
      let later = Later-free (b.allocated + 1) (omega arith) whole in
      let live' = Live-free (b.allocated + 1) (omega arith) (omega arith) (Live-Still live still) in
      ends (Fit-Later h later live', later, refl)

  module _ {F : Type 0} {complete : Complete} {f : ℕ} (ih : Finishes F complete f) where
    open ih use {finish}

    append_members-Ends :
        (sig : Bytes) (p : Parser) (items : List Janet) (s : World)
        → Fit F f p s
        → Ends F (λ _ t. Live t × Later s t) (append_members complete sig p items s)
    unfolding append_members
    append_members-Ends sig p [] s h = ends (h.live, Later-refl s)
    append_members-Ends sig p (item ∷ items) s h =
        Ends-if (cursor_char p == 0) _ _ s (λ e. panicked)
          λ e. Ends-bind (finish p item s h) λ q t (h', k, _).
            Ends-mono (append_members-Ends sig (next q) items t (Fit-skip h' 1))
              λ _ u (live, k'). (live, Later-trans k k')

    append_elements-Ends :
        (p : Parser) (items : List Janet) (s : World)
        → Fit F f p s
        → Ends F (λ _ t. Live t × Later s t) (append_elements complete p items s)
    unfolding append_elements
    append_elements-Ends p [] s h = ends (h.live, Later-refl s)
    append_elements-Ends p (item ∷ items) s h = Ends-bind (finish p item s h) λ q t (h', k, _).
        Ends-mono (append_elements-Ends p items t (Fit-Later h k h'.live))
          λ _ u (live, k'). (live, Later-trans k k')

    -- A key is converted after the last value, whose block has been freed.
    append_entries-Ends :
        (p : Parser) (kvs : List (Janet × Janet)) (s : World)
        → F
        → Fit F f p s
        → Ends F (λ _ t. Live t × Later s t) (append_entries complete p kvs s)
    unfolding append_entries
    append_entries-Ends p [] s fault h = ends (h.live, Later-refl s)
    append_entries-Ends p ((key, value) ∷ kvs) s fault h =
        Ends-bind (call_sd_bus-Ends (open_container b'e' p.cursor) s) λ _ s₁ k₁.
          Ends-bind (append_basic_type-Ends p key s₁ (λ e. fault, λ e. fault)) λ _ s₂ k₂.
            let l₂ = Later-trans (Later-Still (Still-Same (Still-refl s) k₁)) (Later-Still k₂) in
            let live₂ = Live-Still (Live-Still h.live (Still-Same (Still-refl s) k₁)) k₂ in
            Ends-bind (finish (next p) value s₂ (Fit-skip (Fit-Later h l₂ live₂) 1))
              λ q s₃ (h₃, k₃, _). Ends-bind (call_sd_bus-Ends close_container s₃) λ _ s₄ k₄.
                let still = Still-Same (Still-refl s₃) k₄ in
                let l₄ = Later-trans l₂ (Later-trans k₃ (Later-Still still)) in
                Ends-mono
                  (append_entries-Ends p kvs s₄ fault (Fit-Later h l₄ (Live-Still h₃.live still)))
                  λ _ u (live, k). (live, Later-trans l₄ k)

    pub append_struct_type-Ends :
        (p : Parser) (arg : Janet) (s : World)
        → Ready s
        → Fit F (suc f) p s
        → Plain F f (drop 1 p.cursor)
        → Ends F (Done F (suc f) p.owner s) (append_struct_type complete p arg s)
    unfolding append_struct_type
    append_struct_type-Ends p arg s r h inside =
        Ends-bind (scanned-Ends (match p.cursor b'(' b')') s) λ end s₁ k₁.
          Ends-bind (panic_when-Ends (ltb end 2) _ s₁) λ _ s₂ k₂.
            let still₂ = Still-Same (Still-Same (Still-refl s) k₁) k₂ in
            Ends-bind (call_sd_bus-Ends _ (with_block s₂)) λ _ s₃ k₃.
              let still₃ = Still-Same (Still-block still₂) k₃ in
              Ends-bind (getindexed-Ends arg s₃ (Ready-Dangles (Ready-Still r still₃)))
                λ items s₄ k₄. Ends-bind (panic_when-Ends (length items == 0) _ s₄) λ _ s₅ k₅.
                  let inner =
                    Still-Same (Still-Same (Still-Same (Still-refl (with_block s₂)) k₃) k₄) k₅ in
                  Ends-bind
                    (append_members-Ends _ _ items s₅
                      (Fit-block _ (Plain-take (end - 1) inside) (Ready-Still r still₂) refl inner))
                    λ last s₆ (live, k₆).
                      Ends-bind (panic_when-Ends (not (cursor_char last == 0)) _ s₆) λ _ s₇ k₇.
                        let same = Still-Same (Still-refl s₆) k₇ in
                        close-Ends (skip p end) (Fit-skip h end) still₂
                          (Later-trans (Later-Still inner) (Later-trans k₆ (Later-Still same)))
                          (Live-Still live same)

    pub append_dict_type-Ends :
        (p : Parser) (arg : Janet) (s : World)
        → F
        → Ready s
        → Fit F f p s
        → Ends F (Done F f p.owner s) (append_dict_type complete p arg s)
    unfolding append_dict_type
    append_dict_type-Ends p arg s fault r h =
        Ends-bind (scanned-Ends (match p.cursor b'{' b'}') s) λ end s₁ k₁.
          Ends-bind (panic_when-Ends (ltb end 3) _ s₁) λ _ s₂ k₂.
            let still₂ = Still-Same (Still-Same (Still-refl s) k₁) k₂ in
            Ends-bind
              (panic_when-Ends (not (is_basic_type (deref (drop 1 (take (end + 1) p.cursor))))) _
                (with_block s₂))
              λ _ s₃ k₃. Ends-bind (call_sd_bus-Ends _ s₃) λ _ s₄ k₄.
                Ends-bind (getdictionary-Ends arg s₄ (λ e. fault, λ e. fault)) λ kvs s₅ k₅.
                  let inner =
                    Still-Same (Still-Same (Still-Same (Still-refl (with_block s₂)) k₃) k₄) k₅ in
                  let text = Plain-take (end - 1) (Plain-drop 1 (Plain-take (end + 1) h.plain)) in
                  Ends-bind
                    (append_entries-Ends _ kvs s₅ fault
                      (Fit-block _ text (Ready-Still r still₂) refl inner))
                    λ _ s₆ (live, k₆).
                      close-Ends (skip p end) (Fit-skip h end) still₂
                        (Later-trans (Later-Still inner) k₆) live

    pub append_plain_array-Ends :
        (p : Parser) (arg : Janet) (s : World)
        → Ready s
        → Fit F (suc f) p s
        → Plain F f (drop 1 p.cursor)
        → Ends F (Done F (suc f) p.owner s) (append_plain_array complete p arg s)
    unfolding append_plain_array
    append_plain_array-Ends p arg s r h inside =
        Ends-bind (scanned-Ends (find_subtype p.cursor) s) λ end s₁ k₁.
          let still₁ = Still-Same (Still-refl s) k₁ in
          Ends-bind (call_sd_bus-Ends _ (with_block s₁)) λ _ s₂ k₂.
            let still₂ = Still-Same (Still-block still₁) k₂ in
            Ends-bind (getindexed-Ends arg s₂ (Ready-Dangles (Ready-Still r still₂))) λ items s₃ k₃.
              let inner = Still-Same (Still-Same (Still-refl (with_block s₁)) k₂) k₃ in
              Ends-bind
                (append_elements-Ends _ items s₃
                  (Fit-block _ (Plain-take end inside) (Ready-Still r still₁) refl inner))
                λ _ s₄ (live, k₄).
                  close-Ends (skip p end) (Fit-skip h end) still₁
                    (Later-trans (Later-Still inner) k₄) live
