-- ===== src/Reader/Wires.antt =====
-- What a message holds, as a tree of D-Bus values, and the Janet value that the reader should make of
-- it, independent of cursors and of loops.
use janet_sdbus.Base.{ℕ, suc, Bool, ◌+◌, ◌≡◌, true, false, some, List, [], ◌∷◌, ◌==◌}
use janet_sdbus.Signature.{Bytes, deref}
use janet_sdbus.Signature.Types.{
  Basic, code, byte, boolean, int16, uint16, int32, uint32, int64, uint64, double, string,
  object_path, signature, fd,
}
use janet_sdbus.Reader.{
  CType, c_int, c_uint8, c_int16, c_uint16, c_int32, c_uint32, c_int64, c_uint64, c_double,
  c_string, Wrapper, wrap_boolean, wrap_number, wrap_s64, wrap_u64, cstringv, ReadLibrary,
  AccessMode, stream_flags,
}

mutual
  -- A container carries the signature of its contents.
  pub data Wire (V : Type 0) : Type 0 where
    basic : Basic → V → Wire V
    variant : Bytes → Wire V → Wire V
    struct : Bytes → Wires V → Wire V
    array : Bytes → Wires V → Wire V
    dict : Bytes → Wires V → Wire V
    -- the key, the value's signature and the value
    entry : Basic → V → Bytes → Wire V → Wire V

  pub data Wires (V : Type 0) : Type 0 where
    nothing : Wires V
    more : Wire V → Wires V → Wires V

module _ {V : Type 0} where
  -- What a cursor sees at a value: its type code, and its contents' signature and values.
  abbrev pub type_code : Wire V → ℕ
  type_code (basic k x) = code k
  type_code (variant s w) = b'v'
  type_code (struct s ws) = b'r'
  type_code (array s ws) = b'a'
  type_code (dict s ws) = b'a'
  type_code (entry k x s w) = b'e'

  abbrev pub contents : Wire V → Bytes
  contents (basic k x) = []
  contents (variant s w) = s
  contents (struct s ws) = s
  contents (array s ws) = s
  contents (dict s ws) = s
  contents (entry k x s w) = code k ∷ s

  abbrev pub inside : Wire V → Wires V
  inside (basic k x) = nothing
  inside (variant s w) = more w nothing
  inside (struct s ws) = ws
  inside (array s ws) = ws
  inside (dict s ws) = ws
  inside (entry k x s w) = more (basic k x) (more w nothing)

  abbrev pub is_container : Wire V → Bool
  is_container (basic k x) = false
  is_container _ = true

  unfoldable mutual
    -- How many turns and levels the reader takes at most.
    pub size : Wire V → ℕ
    size (basic k x) = 1
    size (variant s w) = suc (size w)
    size (struct s ws) = suc (sizes ws)
    size (array s ws) = suc (sizes ws)
    size (dict s ws) = suc (sizes ws)
    size (entry k x s w) = suc (size w)

    pub sizes : Wires V → ℕ
    sizes nothing = 1
    sizes (more w ws) = suc (size w + sizes ws)

-- The C type and the wrapper of a basic type that is no descriptor; a descriptor has none.
abbrev pub c_type : Basic → CType
c_type byte = c_uint8
c_type boolean = c_int
c_type int16 = c_int16
c_type uint16 = c_uint16
c_type int32 = c_int32
c_type uint32 = c_uint32
c_type int64 = c_int64
c_type uint64 = c_uint64
c_type double = c_double
c_type fd = c_int
c_type _ = c_string

abbrev pub wrapper : Basic → Wrapper
wrapper boolean = wrap_boolean
wrapper int64 = wrap_s64
wrapper uint64 = wrap_u64
wrapper string = cstringv
wrapper object_path = cstringv
wrapper signature = cstringv
wrapper _ = wrap_number

module _ ⦃r : ReadLibrary⦄ where
  open r use {
    Janet, Value, wrap, wrap_string, wrap_tuple, wrap_array, wrap_table, descriptor, dup_cloexec,
    access_mode, socket_type, wrap_stream,
  }

  -- `MeansBasic k x v`: the basic value `x` of the type `k` is read as `v`; a descriptor is duplicated,
  -- and its copy becomes a stream.
  pub data MeansBasic : Basic → Value → Janet → Type 0 where
    plain : {k : Basic} {x : Value} → (code k == b'h') ≡ false → MeansBasic k x (wrap (wrapper k) x)
    copied :
        {x : Value} {copy : _} {mode : AccessMode}
        → dup_cloexec (descriptor x) ≡ some copy
        → access_mode copy ≡ some mode
        → MeansBasic fd x (wrap_stream copy (stream_flags mode (socket_type copy)))

  mutual
    -- `Means w v`: the value `w` is read as `v`.
    pub data Means : Wire Value → Janet → Type 0 where
      basic : {k : Basic} {x : Value} {v : Janet} → MeansBasic k x v → Means (Wire.basic k x) v
      variant :
          {s : Bytes} {w : Wire Value} {v : Janet}
          → Means w v
          → Means (Wire.variant s w) (wrap_tuple (wrap_string s ∷ v ∷ []))
      struct :
          {s : Bytes} {ws : Wires Value} {vs : List Janet}
          → MeansAll ws vs
          → Means (Wire.struct s ws) (wrap_tuple vs)
      array :
          {s : Bytes} {ws : Wires Value} {vs : List Janet}
          → (deref s == b'{') ≡ false
          → MeansAll ws vs
          → Means (Wire.array s ws) (wrap_array vs)
      dict :
          {s : Bytes} {ws : Wires Value} {kvs : List (Janet × Janet)}
          → (deref s == b'{') ≡ true
          → MeansEntries ws kvs
          → Means (Wire.dict s ws) (wrap_table kvs)

    pub data MeansAll : Wires Value → List Janet → Type 0 where
      none_left : MeansAll nothing []
      and_then :
          {w : Wire Value} {ws : Wires Value} {v : Janet} {vs : List Janet}
          → Means w v
          → MeansAll ws vs
          → MeansAll (more w ws) (v ∷ vs)

    pub data MeansEntries : Wires Value → List (Janet × Janet) → Type 0 where
      no_entry : MeansEntries nothing []
      and_entry :
          {k : Basic} {x : Value} {s : Bytes} {w : Wire Value} {ws : Wires Value} {key v : Janet}
          {kvs : List (Janet × Janet)}
          → MeansBasic k x key
          → Means w v
          → MeansEntries ws kvs
          → MeansEntries (more (Wire.entry k x s w) ws) ((key, v) ∷ kvs)
