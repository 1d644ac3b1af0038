-- ===== src/Messages.antt =====
-- Messages as Janet holds them: the constructors, the getters, and the functions that send, seal, dump
-- and release a message, of src/message.c. A message is known by its address; what it contains is in a
-- store that the message library keeps.
pub mod Released
pub mod Dumped
use Prim.Native.String.{String}
use janet_sdbus.Base.{
  ℕ, Bool, true, false, ◌&&◌, not, Option, none, some, List, [], Outcome, ok, panic, fault, Cmd,
  pure, raise, stuck, ◌>>=◌, ◌>>◌, if◌then◌else◌, ℤ, is_negative,
}
use janet_sdbus.Signature.{Bytes}
use janet_sdbus.Handles.{Handle, unref}

-- The functions of sd-bus that MESSAGE_GET calls.
pub data Field : Type 0 where
  get_destination get_path get_interface get_member get_sender : Field

-- The argument of `sdbus/message-dump`: a file, or none.
pub record DumpFile : Type 0 where
  -- `f->file`, NULL where no file is given
  pub file : Option ℕ
  pub closed : Bool

pub record MessageLibrary : Type 1 where
  pub Bus : Type 0
  pub Message : Type 0
  pub Store : Type 0
  pub new_method_call : Option Bus → Bytes → Bytes → Bytes → Bytes → Store → ℤ × (Message × Store)
  pub new_method_return : Option Message → Store → ℤ × (Message × Store)
  pub new_signal : Option Bus → Bytes → Bytes → Bytes → Store → ℤ × (Message × Store)
  pub new_method_error : Option Message → Bytes → Bytes → Store → ℤ × (Message × Store)
  pub send : Option Message → Store → ℤ × Store
  pub seal : Option Message → Store → ℤ × Store
  pub rewind : Option Message → Store → ℤ × Store
  -- `sd_bus_message_dump`, whose result is not looked at
  pub dump : Option Message → Option ℕ → Store → Store
  -- `none` is NULL
  pub get : Field → Option Message → Store → Option Bytes

pub data MessageError : Type 0 where
  failed_to_call : String → ℤ → MessageError
  dump_to_closed : MessageError

module _ ⦃l : MessageLibrary⦄ where
  open l use {
    Bus, Message, Store, new_method_call, new_method_return, new_signal, new_method_error, send,
    seal, rewind, dump, get,
  }

  abbrev pub Action : Type 0 → Type 0
  Action A = Cmd MessageError Store A

  -- CALL_SD_BUS_FUNC on a call that makes a message; the pointer of the new abstract holds it.
  abbrev pub made : String → ℤ × (Message × Store) → Outcome MessageError Store (Handle Message)
  made name (rv, (msg, s)) =
      if is_negative rv
      then panic (failed_to_call name rv) s
      else ok (record { held = some msg; touches = [] }) s

  -- The same on a call that returns a number alone.
  abbrev pub called : String → ℤ × Store → Outcome MessageError Store (Unit {0})
  called name (rv, s) = if is_negative rv then panic (failed_to_call name rv) s else ok tt s

  unfoldable pub message_new_method_call :
      Option Bus → Bytes → Bytes → Bytes → Bytes → Action (Handle Message)
  message_new_method_call bus destination path interface member s =
      made "sd_bus_message_new_method_call"
        (new_method_call bus destination path interface member s)

  unfoldable pub message_new_method_return : Handle Message → Action (Handle Message)
  message_new_method_return call s =
      made "sd_bus_message_new_method_return" (new_method_return call.held s)

  unfoldable pub message_new_signal : Option Bus → Bytes → Bytes → Bytes → Action (Handle Message)
  message_new_signal bus path interface member s =
      made "sd_bus_message_new_signal" (new_signal bus path interface member s)

  unfoldable pub message_new_method_error : Handle Message → Bytes → Bytes → Action (Handle Message)
  message_new_method_error call name message s =
      made "sd_bus_message_new_method_error" (new_method_error call.held name message s)

  unfoldable pub message_send : Handle Message → Action (Unit {0})
  message_send msg s = called "sd_bus_message_send" (send msg.held s)

  -- `janet_cstringv`, which takes the length of the string.
  abbrev pub cstringv : Option Bytes → Action Bytes
  cstringv none = stuck
  cstringv (some text) = pure text

  -- MESSAGE_GET
  unfoldable pub message_get : Field → Handle Message → Action Bytes
  message_get target msg s = cstringv (get target msg.held s) s

  unfoldable pub message_unref : Handle Message → Handle Message
  unfolding unref
  message_unref = unref

  unfoldable pub gc_sdbus_message : Handle Message → Handle Message
  unfolding unref
  gc_sdbus_message = unref

  unfoldable pub rewind_message : Handle Message → Action (Unit {0})
  rewind_message msg s = called "sd_bus_message_rewind" (rewind msg.held s)

  unfoldable pub message_seal : Handle Message → Action (Unit {0})
  message_seal msg s = called "sd_bus_message_seal" (seal msg.held s)

  abbrev pub is_some : {A : Type 0} → Option A → Bool
  is_some none = false
  is_some (some a) = true

  unfoldable pub message_dump : Handle Message → DumpFile → Action (Unit {0})
  unfolding rewind_message
  message_dump msg f =
      if is_some f.file && f.closed
      then raise dump_to_closed
      else do (λ s. ok tt (dump msg.held f.file s)); rewind_message msg
