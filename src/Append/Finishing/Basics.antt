-- ===== src/Append/Finishing/Basics.antt =====
-- `append_basic_type` ends: each basic type is a conversion and a call.
use janet_sdbus.Base.{Outcome, and_then, ◌||◌, ◌==◌}
use janet_sdbus.Platform.{Platform, Call}
use janet_sdbus.Unwrap.{Panic, call_sd_bus}
use janet_sdbus.Append.{Parser, cursor_char, append_basic_type}
use janet_sdbus.Append.Sending.{World}
use janet_sdbus.Append.Ending.{
  Ends, ends, Ends-bind, Ends-mono, Ends-if, Same, Dangles, call_sd_bus-Ends,
}
use janet_sdbus.Append.Ending.Conversions.{
  getboolean-Ends, getnumber-Ends, getuinteger8-Ends, getinteger16-Ends, getuinteger16-Ends,
  getinteger-Ends, getuinteger-Ends, getinteger64-Ends, getuinteger64-Ends, getcstring-Ends,
  getfd-Ends,
}
use janet_sdbus.Append.Finishing.States.{Still, Still-refl, Still-Same}

module _ ⦃w : Platform⦄ where
  open w use {Janet, Double}

  convert-Ends :
      {A F : Type 0} {s : World} {o : Outcome (Panic Janet Double) World A} (to : A → Call Double)
      → Ends F (λ _ t. Same s t) o
      → Ends F (λ _ t. Still s t) (and_then o λ a. call_sd_bus (to a))
  convert-Ends {s} to h = Ends-bind h λ a t k.
      Ends-mono (call_sd_bus-Ends (to a) t) λ _ u k'. Still-Same (Still-Same (Still-refl s) k) k'

  pub append_basic_type-Ends :
      {F : Type 0} (p : Parser) (arg : Janet) (s : World)
      → Dangles F s
      → Ends F (λ _ t. Still s t) (append_basic_type p arg s)
  unfolding append_basic_type
  append_basic_type-Ends p arg s d =
      let ch = cursor_char p in
      Ends-if (ch == b'y') _ _ s (λ e. convert-Ends _ (getuinteger8-Ends arg s d))
        λ e.
          Ends-if (ch == b'b') _ _ s (λ e. convert-Ends _ (getboolean-Ends arg s d))
            λ e.
              Ends-if (ch == b'n') _ _ s (λ e. convert-Ends _ (getinteger16-Ends arg s d))
                λ e.
                  Ends-if (ch == b'q') _ _ s (λ e. convert-Ends _ (getuinteger16-Ends arg s d))
                    λ e.
                      Ends-if (ch == b'i') _ _ s (λ e. convert-Ends _ (getinteger-Ends arg s d))
                        λ e.
                          Ends-if (ch == b'u') _ _ s
                            (λ e. convert-Ends _ (getuinteger-Ends arg s d))
                            λ e.
                              Ends-if (ch == b'x') _ _ s
                                (λ e. convert-Ends _ (getinteger64-Ends arg s d))
                                λ e.
                                  Ends-if (ch == b't') _ _ s
                                    (λ e. convert-Ends _ (getuinteger64-Ends arg s d))
                                    λ e.
                                      Ends-if (ch == b'd') _ _ s
                                        (λ e. convert-Ends _ (getnumber-Ends arg s d))
                                        λ e.
                                          Ends-if ((ch == b's') || (ch == b'o') || (ch == b'g')) _ _
                                            s (λ e. convert-Ends _ (getcstring-Ends arg s d))
                                            λ e.
                                              Ends-if (ch == b'h') _ _ s
                                                (λ e. convert-Ends _ (getfd-Ends arg s d))
                                                λ e. ends (Still-refl s)
