-- ===== src/RoundTrip.antt =====
-- The writer and the reader of src/message.c together: what calls put into a message, and what
-- `sdbus/message-read` shows of values that `sdbus/message-append` wrote.
pub mod Back
pub mod Law
use janet_sdbus.Base.{
  ℕ, ◌≡◌, ◌≢◌, true, false, ◌||◌, Bool, if◌then◌else◌, Option, none, some, List, [], ◌∷◌, ◌++◌, map,
  ◌==◌, ℤ,
}
use janet_sdbus.Signature.{Bytes, deref}
use janet_sdbus.Signature.Types.{
  Basic, Ty, Tys, code, byte, boolean, int16, uint16, int32, uint32, int64, uint64, double, string,
  object_path, signature, fd, end, member, render,
}
use janet_sdbus.Platform.{
  Platform, JanetType, Datum, Call, open_container, close_container, append, append_basic,
  append_array,
}
use janet_sdbus.Append.Encoding.{basic_call}
use janet_sdbus.Reader.{ReadLibrary, wrap_number, AccessMode, stream_flags}
use janet_sdbus.Reader.Wires.{
  Wire, Wires, nothing, more, type_code, contents, inside, is_container, wrapper,
}

-- The type of the basic value that a call appends.
abbrev pub datum_basic : {D : Type 0} → Datum D → Basic
datum_basic (Datum.y _) = byte
datum_basic (Datum.b _) = boolean
datum_basic (Datum.n _) = int16
datum_basic (Datum.q _) = uint16
datum_basic (Datum.i _) = int32
datum_basic (Datum.u _) = uint32
datum_basic (Datum.x _) = int64
datum_basic (Datum.t _) = uint64
datum_basic (Datum.d _) = double
datum_basic (Datum.h _) = fd

abbrev pub text_basic : ℕ → Option Basic
text_basic type =
    if type == b's'
    then some string
    else if type == b'o'
    then some object_path
    else if type == b'g'
    then some signature
    else none

abbrev pub call_basic : {D : Type 0} → Call D → Option Basic
call_basic (append datum) = some (datum_basic datum)
call_basic (append_basic type _) = text_basic type
call_basic _ = none

-- Calls that append a file descriptor.
abbrev pub is_fd : {D : Type 0} → Call D → Bool
is_fd (append (Datum.h _)) = true
is_fd _ = false

abbrev pub has_fd : {D : Type 0} → List (Call D) → Bool
has_fd [] = false
has_fd (c ∷ cs) = is_fd c || has_fd cs

-- The signature of a container tells dictionaries from other arrays.
abbrev pub IsPlaced : {V : Type 0} → Wire V → Type 0
IsPlaced (Wire.array s _) = (deref s == b'{') ≡ false
IsPlaced (Wire.dict s _) = (deref s == b'{') ≡ true
IsPlaced _ = Unit

-- The values of the writer's interface as those of the reader's.
pub record Link (W : Platform) (R : ReadLibrary) : Type 0 where
  -- what `sd_bus_message_read_basic` stores of what was appended
  pub datum : Datum (W.Double) → R.Value
  pub text : Bytes → R.Value
  -- `sd_bus_message_seal`
  pub seal : W.Message → R.Message

module _ ⦃w : Platform⦄ ⦃r : ReadLibrary⦄ (L : Link w r) where
  open w use {Double, checktype, getcbytes, unwrap_tuple, bytes_view, indexed_view, dictionary_view}
  open r use {Value, wrap, wrap_string, wrap_tuple, wrap_array, wrap_table}

  abbrev pub Calls : Type 0
  Calls = List (Call Double)

  abbrev pub stored : Call Double → Value
  stored (append datum) = L.datum datum
  stored (append_basic _ bs) = L.text bs
  stored _ = L.text []

  abbrev pub byte_wires : Bytes → Wires Value
  byte_wires [] = nothing
  byte_wires (n ∷ ns) = more (Wire.basic byte (L.datum (Datum.y n))) (byte_wires ns)

  -- `Puts cs ws`: the calls `cs` put the values `ws` into the container that is open.
  pub data Puts : Calls → Wires Value → Type 0 where
    put_nothing : Puts [] nothing
    put_basic :
        {c : Call Double} {k : Basic} {cs : Calls} {ws : Wires Value}
        → call_basic c ≡ some k
        → Puts cs ws
        → Puts (c ∷ cs) (more (Wire.basic k (stored c)) ws)
    put_bytes :
        {bs : Bytes} {cs : Calls} {ws : Wires Value}
        → Puts cs ws
        → Puts (append_array b'y' bs ∷ cs) (more (Wire.array (b'y' ∷ []) (byte_wires bs)) ws)
    put_container :
        {body cs : Calls} {ws : Wires Value} (v : Wire Value)
        → is_container v ≡ true
        → IsPlaced v
        → Puts body (inside v)
        → Puts cs ws
        → Puts
            (open_container (type_code v) (contents v) ∷ (body ++ close_container ∷ cs))
            (more v ws)

  abbrev pub byte_values : Bytes → List (r.Janet)
  byte_values [] = []
  byte_values (n ∷ ns) = wrap wrap_number (L.datum (Datum.y n)) ∷ byte_values ns

  mutual
    -- `Shows t v u`: the value `v`, which has the type `t`, is shown as `u` when it is read back.
    -- Numbers come back as the numbers that were sent, byte arrays as arrays of numbers, structs as
    -- tuples, other arrays as arrays, dictionaries as tables, and variants as tuples of the
    -- signature and the value. Descriptors, which the message library duplicates, are left out.
    pub data Shows : Ty → w.Janet → r.Janet → Type 0 where
      basic :
          {k : Basic} {v : w.Janet} {c : Call Double}
          → (code k == b'h') ≡ false
          → basic_call k v ≡ some c
          → Shows (Ty.basic k) v (wrap (wrapper k) (stored c))
      bytes :
          {v : w.Janet} {bs : Bytes}
          → bytes_view v ≡ some bs
          → Shows (Ty.array (Ty.basic byte)) v (wrap_array (byte_values bs))
      array :
          {t : Ty} {v : w.Janet} {vs : List (w.Janet)} {us : List (r.Janet)}
          → t ≢ Ty.basic byte
          → indexed_view v ≡ some vs
          → ShowsEach t vs us
          → Shows (Ty.array t) v (wrap_array us)
      struct :
          {t : Ty} {ts : Tys} {v : w.Janet} {vs : List (w.Janet)} {us : List (r.Janet)}
          → indexed_view v ≡ some vs
          → ShowsAll (member t ts) vs us
          → Shows (Ty.struct t ts) v (wrap_tuple us)
      dict :
          {k : Basic} {t : Ty} {v : w.Janet} {kvs : List (w.Janet × w.Janet)}
          {us : List (r.Janet × r.Janet)}
          → dictionary_view v ≡ some kvs
          → ShowsEntries k t kvs us
          → Shows (Ty.dict k t) v (wrap_table us)
      variant :
          {t : Ty} {v sig value : w.Janet} {u : r.Janet}
          → unwrap_tuple v ≡ sig ∷ value ∷ []
          → getcbytes sig ≡ some (render t)
          → Shows t value u
          → Shows Ty.variant v (wrap_tuple (wrap_string (render t) ∷ u ∷ []))

    pub data ShowsEach : Ty → List (w.Janet) → List (r.Janet) → Type 0 where
      each_none : {t : Ty} → ShowsEach t [] []
      each_more :
          {t : Ty} {v : w.Janet} {vs : List (w.Janet)} {u : r.Janet} {us : List (r.Janet)}
          → Shows t v u
          → ShowsEach t vs us
          → ShowsEach t (v ∷ vs) (u ∷ us)

    pub data ShowsAll : Tys → List (w.Janet) → List (r.Janet) → Type 0 where
      all_none : ShowsAll end [] []
      all_more :
          {t : Ty} {ts : Tys} {v : w.Janet} {vs : List (w.Janet)} {u : r.Janet}
          {us : List (r.Janet)}
          → Shows t v u
          → ShowsAll ts vs us
          → ShowsAll (member t ts) (v ∷ vs) (u ∷ us)

    pub data ShowsEntries
        : Basic → Ty → List (w.Janet × w.Janet) → List (r.Janet × r.Janet) → Type 0 where
      entries_none : {k : Basic} {t : Ty} → ShowsEntries k t [] []
      entries_more :
          {k : Basic} {t : Ty} {key value : w.Janet} {kvs : List (w.Janet × w.Janet)}
          {shown u : r.Janet} {us : List (r.Janet × r.Janet)}
          → Shows (Ty.basic k) key shown
          → Shows t value u
          → ShowsEntries k t kvs us
          → ShowsEntries k t ((key, value) ∷ kvs) ((shown, u) ∷ us)
