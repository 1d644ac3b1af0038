-- ===== src/Messages/Released.antt =====
-- How often the messages of src/message.c are released.
use Prim.Native.String.{String}
use janet_sdbus.Base.{
  ◌≡◌, refl, ap, ◌∙◌, none, Option, [], ◌∷◌, ok, ℕ, zero, suc, ℤ, is_negative, Bool-cases, inl, inr,
}
use janet_sdbus.Signature.{Bytes}
use janet_sdbus.Handles.{Handle, lost, account, unref-account, unref-lost}
use janet_sdbus.Messages.{
  MessageLibrary, made, message_new_method_call, message_new_method_return, message_new_signal,
  message_new_method_error, message_unref, gc_sdbus_message,
}

module _ ⦃l : MessageLibrary⦄ where
  open l use {Bus, Message, Store, new_method_call, new_method_return, new_signal, new_method_error}

  -- `Makes m o`: the run `o` is that of a constructor, which returned a pointer to the message `m`.
  pub data Makes (m : Message) (msg : Handle Message) (s t : Store) : Type 0 where
    call :
        (bus : Option Bus) (destination path interface member : Bytes)
        → message_new_method_call bus destination path interface member s ≡ ok msg t
        → (new_method_call bus destination path interface member s).1.0 ≡ m
        → Makes m msg s t
    return :
        (of : Handle Message)
        → message_new_method_return of s ≡ ok msg t
        → (new_method_return of.held s).1.0 ≡ m
        → Makes m msg s t
    signal :
        (bus : Option Bus) (path interface member : Bytes)
        → message_new_signal bus path interface member s ≡ ok msg t
        → (new_signal bus path interface member s).1.0 ≡ m
        → Makes m msg s t
    error :
        (of : Handle Message) (name message : Bytes)
        → message_new_method_error of name message s ≡ ok msg t
        → (new_method_error of.held name message s).1.0 ≡ m
        → Makes m msg s t

  made-account :
      (name : String) (res : ℤ × (Message × Store)) (msg : Handle Message) (t : Store)
      → made name res ≡ ok msg t
      → account msg ≡ res.1.0 ∷ []
  made-account name (rv, (m, s)) msg t e = elim (Bool-cases (is_negative rv)) [
    | inl failed ↦ let bad = rw failed at e in absurd cc
    | inr good ↦ let same = rw good at e in cc
  ]

  Makes-account :
      {m : Message} {msg : Handle Message} {s t : Store} → Makes m msg s t → account msg ≡ m ∷ []
  unfolding message_new_method_call message_new_method_return message_new_signal
      message_new_method_error
  Makes-account (call bus destination path interface member e h) =
      made-account _ _ _ _ e ∙ ap (λ x. x ∷ []) h
  Makes-account (return of e h) = made-account _ _ _ _ e ∙ ap (λ x. x ∷ []) h
  Makes-account (signal bus path interface member e h) = made-account _ _ _ _ e ∙ ap (λ x. x ∷ []) h
  Makes-account (error of name message e h) = made-account _ _ _ _ e ∙ ap (λ x. x ∷ []) h

  abbrev pub unref_times : ℕ → Handle Message → Handle Message
  unref_times zero msg = msg
  unref_times (suc n) msg = unref_times n (message_unref msg)

  unref_times-account : (n : ℕ) (msg : Handle Message) → account (unref_times n msg) ≡ account msg
  unfolding message_unref
  unref_times-account zero msg = refl
  unref_times-account (suc n) msg = unref_times-account n (message_unref msg) ∙ unref-account msg

  -- A message that any of the four constructors has made, that `sdbus/message-unref` is called on any
  -- number of times, and that the garbage collector then takes, has lost its reference exactly once, and
  -- its pointer is NULL.
  pub gc_sdbus_message-Makes :
      {m : Message} {msg : Handle Message} {s t : Store} (n : ℕ)
      → Makes m msg s t
      → (lost (gc_sdbus_message (unref_times n msg)).touches ≡ m ∷ [])
        × ((gc_sdbus_message (unref_times n msg)).held ≡ none)
  unfolding gc_sdbus_message
  gc_sdbus_message-Makes {msg} n h =
      (unref-lost (unref_times n msg) ∙ unref_times-account n msg ∙ Makes-account h, refl)
