-- ===== src/Append/Containers.antt =====
-- The container functions of src/message.c make the calls of the encoding, given that the function
-- for the types inside does. The loops and the cuts of the signature are treated first.
use janet_sdbus.Base.{
  ℕ, suc, ◌+◌, ◌-◌, ◌≡◌, refl, ◌∙◌, true, false, some, List, [], ◌∷◌, ◌++◌, append_assoc,
  append-nil, arith, pure, ◌>>◌, ltb, ◌==◌, length, take, drop, length-append, take-append_length,
  drop-append_length, take_between, drop_between, take_snoc, drop_one-drop,
}
use janet_sdbus.Signature.{Bytes, deref, is_basic_type}
use janet_sdbus.Signature.Types.{
  Basic, Ty, Tys, code, basic, variant, struct, array, member, render, render_all,
  length-render_pos,
}
use janet_sdbus.Signature.Brackets.{render-struct, match-struct, match-dict}
use janet_sdbus.Signature.Spans.{find_subtype-array, find_subtype-render}
use janet_sdbus.Platform.{Platform, open_container, close_container}
use janet_sdbus.Unwrap.{getindexed, getdictionary, call_sd_bus}
use janet_sdbus.Append.{
  Parser, parser, Complete, append_members, append_struct_type, append_elements, append_entries,
  append_dict_type, append_plain_array, sfree,
}
use janet_sdbus.Append.Encoding.{
  Calls, Encodes, EncodesEach, EncodesAll, EncodesEntries, each_none, each_more, all_none, all_more,
  entries_none, entries_more, send,
}
use janet_sdbus.Append.Basics.{append_basic_type-basic_call}
use janet_sdbus.Append.Sending.{
  World, Sends, Kept, Kept-refl, Kept-trans, Sends-bind, Sends-mono, Sends-end, Sends-pure,
  Sends-call, Sends-last,
}

-- A complete type does not begin with a NUL.
pub deref-render : (t : Ty) (rest : Bytes) → (deref (render t ++ rest) == 0) ≡ false
unfolding render
deref-render (basic k) rest = ground arith
deref-render variant rest = refl
deref-render _ rest = refl

pub is_basic_type-code : (k : Basic) → is_basic_type (code k) ≡ true
unfolding is_basic_type
is_basic_type-code Basic.byte = refl
is_basic_type-code _ = refl

-- The signature of a dictionary, cut out with its braces, without them, and what follows it.
module _ (k : Basic) (t : Ty) where
  pub entry_cut :
      (rest : Bytes)
      → take (length (render t) + 2 + 1) (b'{' ∷ code k ∷ (render t ++ b'}' ∷ rest))
        ≡ b'{' ∷ code k ∷ (render t ++ b'}' ∷ [])
  entry_cut rest =
      let same : length (render t) + 2 + 1 ≡ suc (suc (suc (length (render t)))) = omega arith in
      rw (same, take_snoc (render t) b'}' rest)

  pub entry_inside :
      take (length (render t) + 2 - 1) (code k ∷ (render t ++ b'}' ∷ [])) ≡ code k ∷ render t
  entry_inside =
      let same : length (render t) + 2 - 1 ≡ suc (length (render t)) = omega arith in
      rw (same, take-append_length (render t) (b'}' ∷ []))

  pub entry_rest :
      (rest : Bytes)
      → drop (length (render t) + 2) (b'{' ∷ code k ∷ (render t ++ b'}' ∷ rest)) ≡ b'}' ∷ rest
  entry_rest rest =
      let same : length (render t) + 2 ≡ suc (suc (length (render t))) = omega arith in
      rw (same, drop-append_length (render t) (b'}' ∷ rest))

-- The tests of the length of a struct and of a dictionary.
pub long_enough : (t : Ty) (ts : Tys) → ltb (length (render_all (member t ts)) + 1) 2 ≡ false
unfolding render
long_enough t ts = ground (arith, length-append (render t) (render_all ts), length-render_pos t)

pub length-code : (t : Ty) → ltb (length (render t) + 2) 3 ≡ false
length-code t = ground (arith, length-render_pos t)

module _ ⦃w : Platform⦄ where
  open w use {Janet, Double, Message}

  -- After a complete type the cursor is at its last byte.
  abbrev pub Past : Bytes → World → Parser → World → Type 0
  Past rest s p t = (drop 1 p.cursor ≡ rest) × Kept s t

  -- What is shown of `append_complete_type` at fuel `f`.
  pub record Writes (complete : Complete) (f : ℕ) : Type 0 where
    pub write :
        {t : Ty} {v : Janet} {cs : Calls} (owner : ℕ) (rest : Bytes) (s : World)
        → Encodes f t v cs
        → Sends (send cs s.msg) (Past rest s) (complete (parser owner (render t ++ rest)) v s)

  module _ {complete : Complete} {f : ℕ} (ih : Writes complete f) where
    open ih use {write}

    -- The end of each container function: `close_container`, `sfree`, and the cursor.
    close-Sends :
        {rest : Bytes} {s t : World} (block : ℕ) (p : Parser)
        → drop 1 p.cursor ≡ rest
        → Kept s t
        → Sends
            (send (close_container ∷ []) t.msg)
            (Past rest s)
            ((call_sd_bus close_container >> (sfree block >> pure p)) t)
    unfolding sfree
    close-Sends {t} block p past kept =
        Sends-end (Sends-last {P = λ _ u. Kept t u} close_container t (λ u k. k))
          λ _ u k. Sends-pure u _ refl (past, omega arith)

    append_members-Sends :
        {ts : Tys} {vs : List Janet} {cs : Calls} (sig : Bytes) (owner : ℕ) (s : World)
        → EncodesAll f ts vs cs
        → Sends
            (send cs s.msg)
            (λ p t. (p.cursor ≡ []) × Kept s t)
            (append_members complete sig (parser owner (render_all ts)) vs s)
    unfolding append_members render
    append_members-Sends sig owner s all_none = Sends-pure s s refl (refl, Kept-refl s)
    append_members-Sends sig owner s (all_more {t} {ts} {cs} {ds} e es) =
        rw (deref-render t (render_all ts)) (
          Sends-bind cs ds s.msg (write owner (render_all ts) s e) λ p u (past, kept). rw past (
            Sends-mono (append_members-Sends sig p.owner u es)
              λ q t (done, kept'). (done, Kept-trans kept kept')))

    append_elements-Sends :
        {t : Ty} {vs : List Janet} {cs : Calls} (owner : ℕ) (s : World)
        → EncodesEach f t vs cs
        → Sends
            (send cs s.msg)
            (λ _ u. Kept s u)
            (append_elements complete (parser owner (render t)) vs s)
    unfolding append_elements
    append_elements-Sends owner s each_none = Sends-pure s s refl (Kept-refl s)
    append_elements-Sends owner s (each_more {t} {cs} {ds} e es) =
        Sends-bind cs ds s.msg (rw append-nil at (write owner [] s e)) λ p u (past, kept).
          Sends-mono (append_elements-Sends owner u es) λ q t kept'. Kept-trans kept kept'

    append_entries-Sends :
        {k : Basic} {t : Ty} {kvs : List (Janet × Janet)} {cs : Calls} (owner : ℕ) (s : World)
        → EncodesEntries f k t kvs cs
        → Sends
            (send cs s.msg)
            (λ _ u. Kept s u)
            (append_entries complete (parser owner (code k ∷ render t)) kvs s)
    unfolding append_entries
    append_entries-Sends owner s entries_none = Sends-pure s s refl (Kept-refl s)
    append_entries-Sends owner s (entries_more {k} {t} {key} {c} {cs} {ds} eq e es) =
        rw append_assoc (
          Sends-call _ _ s λ _ s₁ k₁.
            rw (append_basic_type-basic_call k owner (render t) key c s₁ eq) (
              Sends-call c _ s₁ λ _ s₂ k₂.
                Sends-bind cs (close_container ∷ ds) s₂.msg (rw append-nil at (write owner [] s₂ e))
                  λ p s₃ (_, k₃). Sends-call close_container ds s₃ λ _ s₄ k₄.
                    Sends-mono (append_entries-Sends owner s₄ es)
                      λ _ u k₅. Kept-trans k₁ (Kept-trans k₂ (Kept-trans k₃ (Kept-trans k₄ k₅)))))

    not_empty :
        {t : Ty} {ts : Tys} {vs : List Janet} {cs : Calls}
        → EncodesAll f (member t ts) vs cs
        → (length vs == 0) ≡ false
    not_empty (all_more e es) = ground arith

    pub append_struct_type-Sends :
        {t : Ty} {ts : Tys} {v : Janet} {vs : List Janet} {cs : Calls} (owner : ℕ) (rest : Bytes)
        (s : World)
        → w.indexed_view v ≡ some vs
        → EncodesAll f (member t ts) vs cs
        → Sends
            (send
              (open_container b'r' (render_all (member t ts)) ∷ (cs ++ close_container ∷ []))
              s.msg)
            (Past rest s)
            (append_struct_type complete (parser owner (render (struct t ts) ++ rest)) v s)
    unfolding append_struct_type getindexed
    append_struct_type-Sends {t} {ts} {v} {cs} owner rest s found_view es =
        let body : Bytes = render_all (member t ts) in
        rw
          (
            render-struct t ts rest,
            match-struct t ts rest,
            long_enough t ts,
            take_between body (b')' ∷ rest),
            drop_between b'(' body (b')' ∷ rest),
          )
          (Sends-call _ _ _ λ _ s₁ k₁.
            rw (found_view, not_empty es)
              (Sends-bind cs _ s₁.msg (append_members-Sends body _ s₁ es)
                λ last s₂ (past, k₂). rw past (close-Sends _ _ refl (omega arith))))

    pub append_dict_type-Sends :
        {k : Basic} {t : Ty} {v : Janet} {kvs : List (Janet × Janet)} {cs : Calls} (owner : ℕ)
        (rest : Bytes) (s : World)
        → w.dictionary_view v ≡ some kvs
        → EncodesEntries f k t kvs cs
        → Sends
            (send
              (open_container b'a' (b'{' ∷ ((code k ∷ render t) ++ b'}' ∷ []))
                ∷ (cs ++ close_container ∷ []))
              s.msg)
            (Past rest s)
            (append_dict_type complete
              (parser owner (b'{' ∷ ((code k ∷ render t) ++ b'}' ∷ rest)))
              v
              s)
    unfolding append_dict_type getdictionary
    append_dict_type-Sends {k} {t} {v} {cs} owner rest s found_view es =
        rw
          (
            match-dict k t rest,
            length-code t,
            entry_cut k t rest,
            is_basic_type-code k,
            entry_inside k t,
            entry_rest k t rest,
          )
          (Sends-call _ _ _ λ _ s₁ k₁. rw found_view (
            Sends-bind cs _ s₁.msg (append_entries-Sends _ s₁ es)
              λ _ s₂ k₂. close-Sends _ _ refl (omega arith)))

    pub append_plain_array-Sends :
        {t : Ty} {v : Janet} {vs : List Janet} {cs : Calls} (owner : ℕ) (rest : Bytes) (s : World)
        → w.indexed_view v ≡ some vs
        → EncodesEach f t vs cs
        → Sends
            (send (open_container b'a' (render t) ∷ (cs ++ close_container ∷ [])) s.msg)
            (Past rest s)
            (append_plain_array complete (parser owner (render (array t) ++ rest)) v s)
    unfolding append_plain_array getindexed render
    append_plain_array-Sends {t} {v} {cs} owner rest s found_view es =
        rw
          (
            find_subtype-array (render t ++ rest) ∙ find_subtype-render t rest,
            take-append_length (render t) rest,
          )
          (Sends-call _ _ _ λ _ s₁ k₁. rw found_view (
            Sends-bind cs _ s₁.msg (append_elements-Sends _ s₁ es) λ _ s₂ k₂.
              close-Sends _ _
                (drop_one-drop (length (render t)) _ ∙ drop-append_length (render t) rest)
                (omega arith)))
