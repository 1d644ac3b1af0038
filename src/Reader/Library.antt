-- ===== src/Reader/Library.antt =====
-- What the reader of src/message.c takes from outside the repository, its panics, and the flags of a
-- stream that it makes of a descriptor.
use Prim.Native.String.{String}
use janet_sdbus.Base.{ℕ, Bool, true, false, Option, some, List, ℤ}
use janet_sdbus.Signature.{Bytes}

-- The C type of the variable that a basic value is read into, and the function that wraps it.
pub data CType : Type 0 where
  c_int c_uint8 c_int16 c_uint16 c_int32 c_uint32 c_int64 c_uint64 c_double c_string : CType

pub data Wrapper : Type 0 where
  wrap_boolean wrap_number wrap_s64 wrap_u64 cstringv : Wrapper

-- The modes of O_ACCMODE, and the types of a socket that the source tests for.
pub data AccessMode : Type 0 where
  read_only write_only read_write other_mode : AccessMode

pub data SocketType : Type 0 where
  sock_stream sock_dgram other_socket : SocketType

pub record StreamFlags : Type 0 where
  pub readable : Bool
  pub writable : Bool
  pub socket : Bool
  pub udpserver : Bool

-- What the reader takes from janet.h, sd-bus.h and the kernel. Each call gives what it returns, what
-- it stores, and the message after it.
pub record ReadLibrary : Type 1 where
  pub Janet : Type 0
  pub Message : Type 0
  -- a value of a C type, as `sd_bus_message_read_basic` stores it
  pub Value : Type 0
  pub peek_type : Message → ℤ × (ℕ × Bytes)
  pub enter_container : ℕ → Bytes → Message → ℤ × Message
  pub exit_container : Message → ℤ × Message
  pub read_basic : ℕ → CType → Message → ℤ × (Value × Message)
  pub rewind : Message → ℤ × Message
  pub wrap : Wrapper → Value → Janet
  pub wrap_nil : Janet
  pub wrap_string : Bytes → Janet
  pub wrap_tuple : List Janet → Janet
  pub wrap_array : List Janet → Janet
  -- a table after `janet_table_put` of the pairs, in order
  pub wrap_table : List (Janet × Janet) → Janet
  -- the descriptor that was read, its copy by F_DUPFD_CLOEXEC, the copy's mode by F_GETFL and its
  -- socket type; `none` is a call that returns -1
  pub descriptor : Value → ℤ
  pub dup_cloexec : ℤ → Option ℤ
  pub access_mode : ℤ → Option AccessMode
  pub socket_type : ℤ → Option SocketType
  pub wrap_stream : ℤ → StreamFlags → Janet

pub data ReadError : Type 0 where
  sd_bus_failed : String → ℤ → ReadError
  unsupported_message_type : ℕ → ReadError
  unsupported_basic_type : ℕ → ReadError
  end_of_variant : ReadError
  end_of_dictionary : ReadError
  dup_failed : ℤ → ReadError
  getfl_failed : ℤ → ReadError
  invalid_keyword : Bytes → ReadError
  expected_positive : ReadError

-- The flags of the stream for a mode and a socket type.
abbrev pub mode_readable : AccessMode → Bool
mode_readable read_only = true
mode_readable read_write = true
mode_readable _ = false

abbrev pub mode_writable : AccessMode → Bool
mode_writable write_only = true
mode_writable read_write = true
mode_writable _ = false

abbrev pub is_stream_socket : Option SocketType → Bool
is_stream_socket (some sock_stream) = true
is_stream_socket _ = false

abbrev pub is_dgram_socket : Option SocketType → Bool
is_dgram_socket (some sock_dgram) = true
is_dgram_socket _ = false

abbrev pub stream_flags : AccessMode → Option SocketType → StreamFlags
stream_flags mode type = record {
  readable = mode_readable mode;
  writable = mode_writable mode;
  socket = is_stream_socket type;
  udpserver = is_dgram_socket type;
}
