-- ===== src/RoundTrip/Back.antt =====
-- Every encoding puts values into the message that the reader shows.
pub mod Values
use janet_sdbus.Base.{
  ℕ, zero, suc, ◌≡◌, sym, refl, true, false, ◌||◌, some, List, [], ◌∷◌, ◌++◌, append_assoc,
  append-nil, arith, ◌==◌, ℤ,
}
use janet_sdbus.Signature.{Bytes, deref}
use janet_sdbus.Signature.Types.{Basic, Ty, Tys, code, member, render, render_all}
use janet_sdbus.Platform.{
  Platform, Call, Datum, append, append_basic, open_container, close_container,
}
use janet_sdbus.Append.Encoding.{
  basic_call, basic, bytes, array, struct, dict, variant, each_none, each_more, all_none, all_more,
  entries_none, entries_more, Encodes, EncodesEach, EncodesAll, EncodesEntries,
}
use janet_sdbus.Reader.{ReadLibrary, AccessMode}
use janet_sdbus.Reader.Wires.{
  Wire, Wires, nothing, more, type_code, contents, inside, is_container, wrapper, MeansBasic, plain,
  copied, Means, MeansAll, none_left, and_then, MeansEntries, no_entry, and_entry,
}
use janet_sdbus.RoundTrip.{
  is_fd, has_fd, Link, call_basic, IsPlaced, Calls, stored, byte_wires, Puts, put_nothing,
  put_basic, put_bytes, put_container, byte_values, Shows, ShowsEach, ShowsAll, ShowsEntries,
}

pub not_brace : (t : Ty) → (deref (render t) == b'{') ≡ false
unfolding render
not_brace (Ty.basic Basic.byte) = refl
not_brace (Ty.basic _) = refl
not_brace _ = refl

pub has_fd-left :
    {D : Type 0} (cs ds : List (Call D)) → has_fd (cs ++ ds) ≡ false → has_fd cs ≡ false
has_fd-left [] ds h = refl
has_fd-left (c ∷ cs) ds h = ground (arith, has_fd-left cs ds (ground arith))

pub has_fd-right :
    {D : Type 0} (cs ds : List (Call D)) → has_fd (cs ++ ds) ≡ false → has_fd ds ≡ false
has_fd-right [] ds h = h
has_fd-right (c ∷ cs) ds h = has_fd-right cs ds (ground arith)

module _ ⦃w : Platform⦄ ⦃r : ReadLibrary⦄ (L : Link w r) where
  open w use {Double}
  open r use {Value, wrap}

  pub call_basic_lem :
      (k : Basic) (v : w.Janet) (c : Call Double) → basic_call k v ≡ some c → call_basic c ≡ some k
  unfolding basic_call
  call_basic_lem Basic.byte v c e = ground arith
  call_basic_lem _ v c e = ground arith

  pub container-Puts :
      (v : Wire Value) {body : Calls L}
      → is_container v ≡ true
      → IsPlaced v
      → Puts L body (inside v)
      → (ds : Calls L) (ws : Wires Value) → Puts L ds ws
      → Puts L
          ((open_container (type_code v) (contents v) ∷ (body ++ close_container ∷ [])) ++ ds)
          (more v ws)
  container-Puts v {body} c placed p ds ws q =
      rw (append_assoc body (close_container ∷ []) ds) (put_container v c placed p q)

  pub record BackBasic (k : Basic) (v : w.Janet) (c : Call Double) : Type 0 where
    pub shown : r.Janet
    pub shows : Shows L (Ty.basic k) v shown
    pub means : MeansBasic k (stored L c) shown

  no_stream :
      (k : Basic) (v : w.Janet) (c : Call Double)
      → basic_call k v ≡ some c
      → (code k == b'h') ≡ false
      → BackBasic k v c
  no_stream k v c e kind = record {
    shown = wrap (wrapper k) (stored L c);
    shows = Shows.basic kind e;
    means = plain kind;
  }

  -- A call that appends a value of type fd.
  fd_call : (c : Call Double) → call_basic c ≡ some Basic.fd → is_fd c ≡ true
  fd_call (append (Datum.h n)) e = refl
  fd_call (append datum) e = absurd cc
  fd_call (append_basic type bs) e = absurd (ground arith)
  fd_call c e = absurd cc

  pub back_basic :
      (k : Basic) (v : w.Janet) (c : Call Double)
      → is_fd c ≡ false
      → basic_call k v ≡ some c
      → BackBasic k v c
  back_basic Basic.byte v c no_fd e = no_stream Basic.byte v c e refl
  back_basic Basic.fd v c no_fd e = let bad = fd_call c (call_basic_lem Basic.fd v c e) in absurd cc
  back_basic k v c no_fd e = no_stream _ v c e refl

  -- The value that the calls `cs` put, and what it is shown as.
  pub record Back (t : Ty) (v : w.Janet) (cs : Calls L) : Type 0 where
    pub wire : Wire Value
    pub shown : r.Janet
    pub shows : Shows L t v shown
    pub means : Means wire shown
    pub puts : (ds : Calls L) (ws : Wires Value) → Puts L ds ws → Puts L (cs ++ ds) (more wire ws)

  pub record BackAll (S : List (r.Janet) → Type 0) (cs : Calls L) : Type 0 where
    pub wires : Wires Value
    pub shown : List (r.Janet)
    pub shows : S shown
    pub means : MeansAll wires shown
    pub puts : Puts L cs wires

  pub record BackEntries (k : Basic) (t : Ty) (kvs : List (w.Janet × w.Janet)) (cs : Calls L)
      : Type 0 where
    pub wires : Wires Value
    pub shown : List (r.Janet × r.Janet)
    pub shows : ShowsEntries L k t kvs shown
    pub means : MeansEntries wires shown
    pub puts : Puts L cs wires

  pub byte_wires-means : (bs : Bytes) → MeansAll (byte_wires L bs) (byte_values L bs)
  byte_wires-means [] = none_left
  byte_wires-means (n ∷ ns) = and_then (Means.basic (plain refl)) (byte_wires-means ns)
