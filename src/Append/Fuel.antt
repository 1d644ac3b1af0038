-- ===== src/Append/Fuel.antt =====
-- More fuel changes nothing: a run of `append_data` that does not run out of fuel has the same outcome
-- with more.
pub mod Steps
use janet_sdbus.Base.{
  ℕ, ◌≤◌, ◌<◌, arith, zero, suc, ◌+◌, ◌-◌, ◌≡◌, refl, Bool, true, false, List, [], ◌∷◌, Outcome,
  out_of_fuel, and_then, ltb, ◌==◌, length, take, drop, if◌then◌else◌, not,
}
use janet_sdbus.Signature.{Bytes, deref, is_basic_type, match, find_subtype, span_next_type}
use janet_sdbus.Platform.{Platform, JanetType, open_container, close_container}
use janet_sdbus.Unwrap.{
  is_freed, Panic, Run, call_sd_bus, panic_when, missing_struct_contents, empty_struct,
  incomplete_dictionary, dictionary_key, variant_signature, getindexed, getdictionary, gettuple,
  cbytes, dbus_errctx_set, dbus_errctx_inc, dbus_errctx_reset,
}
use janet_sdbus.Append.{
  scanned, Parser, parser, Complete, cursor_char, next, peek, append_basic_type, append_members,
  append_struct_type, append_elements, append_entries, append_dict_type, append_plain_array,
  append_array_type, append_variant_pair, append_variant_type, append_by_code, append_complete_type,
  append_arguments, append_data,
}
use janet_sdbus.Append.Sending.{World}
use janet_sdbus.Append.Ending.{Ends}
use janet_sdbus.Append.Finishing.{append_data-Ends}
use janet_sdbus.Append.Finishing.Texts.{has}
use janet_sdbus.Append.Fuel.Steps.{More, same, ran_out, More-bind, More-after, More-if}

module _ ⦃w : Platform⦄ where
  open w use {Janet, Double}

  -- The state after `scalloc`.
  abbrev allocated : World → World
  allocated s = record s { allocated = s.allocated + 1 }

  -- What is shown of `append_complete_type` at two fuels.
  record Extends (complete complete' : Complete) : Type 0 where
    extend : (p : Parser) (arg : Janet) (s : World) → More (complete p arg s) (complete' p arg s)

  module _ {complete complete' : Complete} (ih : Extends complete complete') where
    open ih use {extend}

    append_members-More :
        (sig : Bytes) (p : Parser) (items : List Janet) (s : World)
        → More (append_members complete sig p items s) (append_members complete' sig p items s)
    unfolding append_members
    append_members-More sig p [] s = same
    append_members-More sig p (item ∷ items) s =
        More-if (cursor_char p == 0) _ _ _ _ s same
          (More-bind (extend p item s) λ q t. append_members-More sig (next q) items t)

    append_elements-More :
        (p : Parser) (items : List Janet) (s : World)
        → More (append_elements complete p items s) (append_elements complete' p items s)
    unfolding append_elements
    append_elements-More p [] s = same
    append_elements-More p (item ∷ items) s =
        More-bind (extend p item s) λ q t. append_elements-More p items t

    append_entries-More :
        (p : Parser) (kvs : List (Janet × Janet)) (s : World)
        → More (append_entries complete p kvs s) (append_entries complete' p kvs s)
    unfolding append_entries
    append_entries-More p [] s = same
    append_entries-More p ((key, value) ∷ kvs) s =
        More-after (call_sd_bus (open_container b'e' p.cursor) s) λ _ s₁.
          More-after (append_basic_type p key s₁) λ _ s₂.
            More-bind (extend (next p) value s₂) λ q s₃.
              More-after (call_sd_bus close_container s₃) λ _ s₄. append_entries-More p kvs s₄

    append_struct_type-More :
        (p : Parser) (arg : Janet) (s : World)
        → More (append_struct_type complete p arg s) (append_struct_type complete' p arg s)
    unfolding append_struct_type
    append_struct_type-More p arg s = More-after (scanned (match p.cursor b'(' b')') s) λ end s₁.
        More-after (panic_when (ltb end 2) (missing_struct_contents p.cursor) s₁) λ _ s₂.
          let sig : Bytes = take (end - 1) (drop 1 p.cursor) in
          More-after (call_sd_bus (open_container b'r' sig) (allocated s₂)) λ _ s₃.
            More-after (getindexed arg s₃) λ items s₄.
              More-after (panic_when (length items == 0) empty_struct s₄)
                λ _ s₅. More-bind (append_members-More sig _ items s₅) λ last s₆. same

    append_dict_type-More :
        (p : Parser) (arg : Janet) (s : World)
        → More (append_dict_type complete p arg s) (append_dict_type complete' p arg s)
    unfolding append_dict_type
    append_dict_type-More p arg s = More-after (scanned (match p.cursor b'{' b'}') s) λ end s₁.
        More-after (panic_when (ltb end 3) (incomplete_dictionary p.cursor) s₁) λ _ s₂.
          let sig : Bytes = take (end + 1) p.cursor in
          More-after
            (panic_when (not (is_basic_type (deref (drop 1 sig)))) (dictionary_key sig)
              (allocated s₂))
            λ _ s₃. More-after (call_sd_bus (open_container b'a' sig) s₃) λ _ s₄.
              More-after (getdictionary arg s₄)
                λ kvs s₅. More-bind (append_entries-More _ kvs s₅) λ _ s₆. same

    append_plain_array-More :
        (p : Parser) (arg : Janet) (s : World)
        → More (append_plain_array complete p arg s) (append_plain_array complete' p arg s)
    unfolding append_plain_array
    append_plain_array-More p arg s = More-after (scanned (find_subtype p.cursor) s) λ end s₁.
        More-after (call_sd_bus (open_container b'a' (take end (drop 1 p.cursor))) (allocated s₁))
          λ _ s₂.
            More-after (getindexed arg s₂)
              λ items s₃. More-bind (append_elements-More _ items s₃) λ _ s₄. same

    append_array_type-More :
        (p : Parser) (arg : Janet) (s : World)
        → More (append_array_type complete p arg s) (append_array_type complete' p arg s)
    unfolding append_array_type
    append_array_type-More p arg s =
        More-if (peek p == b'{') _ _ _ _ s (append_dict_type-More (next p) arg s)
          (More-if (peek p == b'y') _ _ _ _ s same (append_plain_array-More p arg s))

    append_variant_pair-More :
        (items : List Janet) (s : World)
        → More (append_variant_pair complete items s) (append_variant_pair complete' items s)
    unfolding append_variant_pair
    append_variant_pair-More (sig ∷ value ∷ []) s =
        More-after (panic_when (not (w.checktype sig JanetType.string)) (variant_signature sig) s)
          λ _ s₁. More-after (cbytes sig (w.getcbytes sig) s₁) λ text s₂.
            More-after (call_sd_bus (open_container b'v' text) s₂)
              λ _ s₃. More-bind (extend (parser 0 text) value s₃) λ _ s₄. same
    append_variant_pair-More _ s = same

    append_variant_type-More :
        (p : Parser) (arg : Janet) (s : World)
        → More (append_variant_type complete p arg s) (append_variant_type complete' p arg s)
    unfolding append_variant_type
    append_variant_type-More p arg s =
        More-after (gettuple arg s)
          λ items s₁. More-bind (append_variant_pair-More items s₁) λ _ s₂. same

    append_by_code-More :
        (p : Parser) (arg : Janet) (s : World)
        → More (append_by_code complete p arg s) (append_by_code complete' p arg s)
    unfolding append_by_code
    append_by_code-More p arg s =
        let ch = cursor_char p in
        More-if (is_basic_type ch) _ _ _ _ s same (
          More-if (ch == b'v') _ _ _ _ s (append_variant_type-More p arg s) (
            More-if (ch == b'(') _ _ _ _ s (append_struct_type-More p arg s)
              (More-if (ch == b'a') _ _ _ _ s (append_array_type-More p arg s) same)))

  append_complete_type-Extends :
      (f g : ℕ) → f ≤ g → Extends (append_complete_type f) (append_complete_type g)
  unfolding append_complete_type
  append_complete_type-Extends zero g le = record { extend = λ p arg s. ran_out }
  append_complete_type-Extends (suc f) zero le = absurd (omega arith)
  append_complete_type-Extends (suc f) (suc g) le = record {
    extend = λ p arg s. More-after (scanned (span_next_type p.cursor) s) λ len s₁.
        More-after (dbus_errctx_set (record { owner = p.owner; text = p.cursor }) len s₁) λ _ s₂.
          More-bind (append_by_code-More (append_complete_type-Extends f g (omega arith)) p arg s₂)
            λ q s₃. same;
  }

  append_arguments-More :
      (f g : ℕ) (sig : Bytes) (p : Parser) (args : List Janet) (s : World)
      → f ≤ g
      → More (append_arguments f sig p args s) (append_arguments g sig p args s)
  unfolding append_arguments dbus_errctx_inc
  append_arguments-More f g sig p [] s le = same
  append_arguments-More f g sig p (arg ∷ args) s le = More-if (cursor_char p == 0) _ _ _ _ s same (
      More-bind ((append_complete_type-Extends f g le).extend p arg _)
        λ q t. append_arguments-More f g sig (next q) args t le)

  -- A run of `append_data` runs out of fuel, or has the same outcome with more.
  pub append_data-More :
      (f g : ℕ) (sig : Bytes) (args : List Janet) (s : World)
      → f ≤ g
      → More (append_data f sig args s) (append_data g sig args s)
  unfolding append_data dbus_errctx_reset
  append_data-More f g sig args s le =
      More-bind (append_arguments-More f g sig (parser 0 sig) args _ le) λ last t. same

  Ends-More :
      {A F : Type 0} {P : A → World → Type 0} {o o' : Outcome (Panic Janet Double) World A}
      → Ends F P o
      → More o o'
      → o ≡ o'
  Ends-More h same = refl
  Ends-More h ran_out = elim h [ ]

  -- For any signature text that holds no variant, a type or not, any values, and any state in which
  -- neither the caller's signature nor a block that is not allocated yet is freed: with any fuel above
  -- the length of the text `append_data` returns, panics, or faults, which it does only if the text
  -- holds a dictionary, and all such fuels have one outcome.
  pub append_data-ends :
      (f g : ℕ) (sig : Bytes) (args : List Janet) (s : World)
      → is_freed 0 s.freed ≡ false
      → ((b : ℕ) → s.allocated < b → is_freed b s.freed ≡ false)
      → has b'v' sig ≡ false
      → length sig < f
      → f ≤ g
      → Ends (has b'{' sig ≡ true) (λ _ _. Unit {0}) (append_data f sig args s)
        × (append_data f sig args s ≡ append_data g sig args s)
  append_data-ends f g sig args s caller fresh plain short le =
      let halts = append_data-Ends f sig args s caller fresh short plain in
      (halts, Ends-More halts (append_data-More f g sig args s le))
