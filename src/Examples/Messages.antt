-- ===== src/Examples/Messages.antt =====
-- Witnesses and runs for messages. A message is a number, and the store is the last message that was
-- made.
use janet_sdbus.Base.{◌≡◌, refl, Option, none, some, [], ◌∷◌, ok, fault, ℤ, pos, negsuc, suc, ℕ}
use janet_sdbus.Signature.{Bytes}
use janet_sdbus.Handles.{Handle, lost}
use janet_sdbus.Messages.{
  Field, get_destination, MessageLibrary, message_new_method_call, gc_sdbus_message, message_get,
}
use janet_sdbus.Messages.Released.{Makes, call, unref_times, gc_sdbus_message-Makes}

abbrev next : ℕ → ℤ × (ℕ × ℕ)
next s = (pos 0, (suc s, suc s))

abbrev on_message : Option ℕ → ℕ → ℤ × ℕ
on_message none s = (negsuc 21, s)
on_message (some m) s = (pos 0, s)

-- The destination alone is set.
abbrev field : Field → Option ℕ → Option Bytes
field get_destination (some m) = some (b'd' ∷ [])
field _ _ = none

instance abbrev counted : MessageLibrary
counted = record {
  Bus = ℕ;
  Message = ℕ;
  Store = ℕ;
  new_method_call = λ bus d p i m s. next s;
  new_method_return = λ of s. next s;
  new_signal = λ bus p i m s. next s;
  new_method_error = λ of n m s. next s;
  send = on_message;
  seal = on_message;
  rewind = on_message;
  dump = λ m f s. s;
  get = λ f m s. field f m;
}

abbrev first_message : Handle ℕ
first_message = record { held = some 1; touches = [] }

made : Makes 1 first_message 0 1
unfolding message_new_method_call
made = call (some 5) (b'd' ∷ []) (b'/' ∷ []) (b'i' ∷ []) (b'm' ∷ []) refl refl

gc_sdbus_message-Makes_example :
    (lost (gc_sdbus_message (unref_times 2 first_message)).touches ≡ 1 ∷ [])
    × ((gc_sdbus_message (unref_times 2 first_message)).held ≡ none)
gc_sdbus_message-Makes_example = gc_sdbus_message-Makes 2 made

-- A header field that is absent is NULL, and `janet_cstringv` reads it; so does any getter of a message
-- that was released.
absent_field : message_get Field.get_path first_message 1 ≡ fault
unfolding message_get
absent_field = refl

present_field : message_get get_destination first_message 1 ≡ ok (b'd' ∷ []) 1
unfolding message_get
present_field = refl
