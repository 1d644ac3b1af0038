-- ===== src/Append/Typed/Containers.antt =====
-- The container functions return only for values of the container's type, given that the function
-- for the types inside does.
use janet_sdbus.Base.{
  ℕ, suc, ◌≡◌, ◌≢◌, refl, ◌∙◌, true, List, [], ◌∷◌, ◌++◌, append_assoc, append-nil, arith, pure,
  ◌>>◌, ◌==◌, length, drop, take-append_length, drop-append_length, take_between, drop_between,
  drop_one-drop, Bool-cases, inl, inr,
}
use janet_sdbus.Signature.{Bytes}
use janet_sdbus.Signature.Types.{
  Basic, Ty, Tys, code, basic, struct, array, member, end, render, render_all,
}
use janet_sdbus.Signature.Brackets.{render-struct, match-struct, match-dict}
use janet_sdbus.Signature.Spans.{find_subtype-array, find_subtype-render}
use janet_sdbus.Platform.{Platform, close_container}
use janet_sdbus.Unwrap.{call_sd_bus}
use janet_sdbus.Append.{
  Parser, parser, Complete, append_members, append_struct_type, append_elements, append_entries,
  append_dict_type, append_plain_array, sfree, cursor_char,
}
use janet_sdbus.Append.Encoding.{
  Calls, Encodes, EncodesEach, EncodesAll, EncodesEntries, each_none, each_more, all_none, all_more,
  entries_none, entries_more,
}
use janet_sdbus.Append.Sending.{World}
use janet_sdbus.Append.Containers.{
  deref-render, is_basic_type-code, entry_cut, entry_inside, entry_rest, long_enough, length-code,
}
use janet_sdbus.Append.Returning.{
  Returns, panicked, Returns-pure, Returns-mono, Returns-bind, Returns-call, Returns-get,
  getindexed-Returns, getdictionary-Returns, panic_when-Returns,
}
use janet_sdbus.Append.Typed.Basics.{append_basic_type-Wrote}

module _ ⦃w : Platform⦄ where
  open w use {Janet, Double, Message}

  -- The cursor is at the last byte of the type, and the calls encode the value.
  abbrev pub Written : ℕ → Ty → Bytes → Janet → Parser → Calls → Type 0
  Written f t rest v p cs = (drop 1 p.cursor ≡ rest) × Encodes f t v cs

  -- What is shown of `append_complete_type` at fuel `f`.
  pub record Checks (complete : Complete) (f : ℕ) : Type 0 where
    pub check :
        (t : Ty) (v : Janet) (owner : ℕ) (rest : Bytes) (s : World)
        → Returns s.msg (Written f t rest v) (complete (parser owner (render t ++ rest)) v s)

  module _ {complete : Complete} {f : ℕ} (ih : Checks complete f) where
    open ih use {check}

    -- If the loop over the members ends at the end of the signature.
    append_members-Checks :
        (ts : Tys) (vs : List Janet) (sig : Bytes) (owner : ℕ) (s : World)
        → Returns s.msg
            (λ p cs. (cursor_char p == 0) ≡ true → (p.cursor ≡ []) × EncodesAll f ts vs cs)
            (append_members complete sig (parser owner (render_all ts)) vs s)
    unfolding append_members render
    append_members-Checks end [] sig owner s = Returns-pure s s refl λ e. (refl, all_none)
    append_members-Checks (member t ts) [] sig owner s =
        Returns-pure s s refl λ e. ground (arith, deref-render t (render_all ts))
    append_members-Checks end (v ∷ vs) sig owner s = panicked
    append_members-Checks (member t ts) (v ∷ vs) sig owner s = rw (deref-render t (render_all ts)) (
        Returns-bind (check t v owner (render_all ts) s) λ p u cs (past, e). rw past (
          Returns-mono (append_members-Checks ts vs sig p.owner u)
            λ q ds rest done. let (past', es) = rest done in (past', all_more e es)))

    append_elements-Checks :
        (t : Ty) (vs : List Janet) (owner : ℕ) (s : World)
        → Returns s.msg
            (λ _ cs. EncodesEach f t vs cs)
            (append_elements complete (parser owner (render t)) vs s)
    unfolding append_elements
    append_elements-Checks t [] owner s = Returns-pure s s refl each_none
    append_elements-Checks t (v ∷ vs) owner s =
        Returns-bind (rw append-nil at (check t v owner [] s)) λ p u cs (past, e).
          Returns-mono (append_elements-Checks t vs owner u) λ _ ds es. each_more e es

    append_entries-Checks :
        (k : Basic) (t : Ty) (kvs : List (Janet × Janet)) (owner : ℕ) (s : World)
        → Returns s.msg
            (λ _ cs. EncodesEntries f k t kvs cs)
            (append_entries complete (parser owner (code k ∷ render t)) kvs s)
    unfolding append_entries
    append_entries-Checks k t [] owner s = Returns-pure s s refl entries_none
    append_entries-Checks k t ((key, value) ∷ kvs) owner s = Returns-call _ s λ _ s₁ _.
        Returns-bind (append_basic_type-Wrote k owner (render t) key s₁) λ _ s₂ cs (c, one, e).
          rw one (
            Returns-bind (rw append-nil at (check t value owner [] s₂)) λ p s₃ ds (past, es).
              Returns-call close_container s₃ λ _ s₄ _.
                Returns-mono (append_entries-Checks k t kvs owner s₄)
                  λ _ us rest. rw append_assoc at (entries_more e es rest))

    -- The end of each container function.
    close-Returns :
        {P : Parser → Calls → Type 0} (block : ℕ) (p : Parser) (s : World)
        → P p (close_container ∷ [])
        → Returns s.msg P ((call_sd_bus close_container >> (sfree block >> pure p)) s)
    unfolding sfree
    close-Returns block p s done =
        Returns-call close_container s λ _ t _. Returns-pure t _ refl done

    -- `scalloc`, `getindexed` and `getdictionary` make no call.
    pub append_struct_type-Checks :
        (t : Ty) (ts : Tys) (v : Janet) (owner : ℕ) (rest : Bytes) (s : World)
        → Returns s.msg
            (Written (suc f) (struct t ts) rest v)
            (append_struct_type complete (parser owner (render (struct t ts) ++ rest)) v s)
    unfolding append_struct_type
    append_struct_type-Checks t ts v owner rest s =
        let body : Bytes = render_all (member t ts) in
        rw
          (
            render-struct t ts rest,
            match-struct t ts rest,
            long_enough t ts,
            take_between body (b')' ∷ rest),
            drop_between b'(' body (b')' ∷ rest),
          )
          (Returns-call _ _ λ _ s₁ _. Returns-get (getindexed-Returns v s₁) λ vs s₂ given.
            panic_when-Returns (length vs == 0) _ s₂ λ _ s₃ _.
              Returns-bind (append_members-Checks (member t ts) vs body _ s₃) λ p s₄ cs done.
                elim (Bool-cases (cursor_char p == 0)) [
                  | inl over ↦
                      rw over (close-Returns _ _ s₄ (refl, Encodes.struct given (done over).1))
                  | inr left ↦ rw left panicked
                ])

    pub append_dict_type-Checks :
        (k : Basic) (t : Ty) (v : Janet) (owner : ℕ) (rest : Bytes) (s : World)
        → Returns s.msg (Written (suc f) (Ty.dict k t) rest v) (
            append_dict_type complete
              (parser owner (b'{' ∷ ((code k ∷ render t) ++ b'}' ∷ rest)))
              v
              s)
    unfolding append_dict_type
    append_dict_type-Checks k t v owner rest s =
        rw
          (
            match-dict k t rest,
            length-code t,
            entry_cut k t rest,
            is_basic_type-code k,
            entry_inside k t,
            entry_rest k t rest,
          )
          (Returns-call _ _ λ _ s₁ _. Returns-get (getdictionary-Returns v s₁) λ kvs s₂ given.
            Returns-bind (append_entries-Checks k t kvs _ s₂)
              λ _ s₃ cs es. close-Returns _ _ s₃ (refl, Encodes.dict given es))

    pub append_plain_array-Checks :
        (t : Ty) (v : Janet) (owner : ℕ) (rest : Bytes) (s : World)
        → t ≢ basic Basic.byte
        → Returns s.msg
            (Written (suc f) (array t) rest v)
            (append_plain_array complete (parser owner (render (array t) ++ rest)) v s)
    unfolding append_plain_array render
    append_plain_array-Checks t v owner rest s ne =
        rw
          (
            find_subtype-array (render t ++ rest) ∙ find_subtype-render t rest,
            take-append_length (render t) rest,
          )
          (Returns-call _ _ λ _ s₁ _. Returns-get (getindexed-Returns v s₁) λ vs s₂ given.
            Returns-bind (append_elements-Checks t vs _ s₂) λ _ s₃ cs es. close-Returns _ _ s₃ (
              drop_one-drop (length (render t)) _ ∙ drop-append_length (render t) rest,
              Encodes.array ne given es,
            ))
