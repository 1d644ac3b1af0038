-- ===== src/Messages/Dumped.antt =====
-- `sdbus/message-dump` of src/message.c.
use janet_sdbus.Base.{◌≡◌, refl, true, false, none, some, panic, Bool-cases, inl, inr}
use janet_sdbus.Handles.{Handle}
use janet_sdbus.Messages.{
  MessageLibrary, DumpFile, dump_to_closed, is_some, message_dump, rewind_message,
}

module _ ⦃l : MessageLibrary⦄ where
  open l use {Message, Store, rewind, dump}

  -- On a file that is closed, `sdbus/message-dump` panics and touches nothing; on one that is open, and
  -- with no file, it dumps the message and then does what `sdbus/message-rewind` does, with its panics.
  pub message_dump-rewind_message :
      (msg : Handle Message) (n : _) (f : DumpFile) (s : Store)
      → f.closed ≡ false
      → (message_dump msg (record { file = some n; closed = true }) s ≡ panic dump_to_closed s)
        × (message_dump msg f s ≡ rewind_message msg (dump msg.held f.file s))
        × (message_dump msg (record { file = none; closed = true }) s
            ≡ rewind_message msg (dump msg.held none s))
  unfolding message_dump
  message_dump-rewind_message msg n f s opened = elim (Bool-cases (is_some f.file)) [
    | inl given ↦ (refl, rw (given, opened) refl, refl)
    | inr no_file ↦ (refl, rw (no_file) refl, refl)
  ]
