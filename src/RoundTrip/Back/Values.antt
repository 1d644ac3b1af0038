-- ===== src/RoundTrip/Back/Values.antt =====
-- Values of every type, by the depth to which their types nest.
use janet_sdbus.Base.{
  ℕ, zero, suc, ◌≡◌, sym, refl, false, ◌||◌, arith, some, List, [], ◌∷◌, ◌++◌, append-nil,
}
use janet_sdbus.Signature.Types.{Basic, Ty, Tys, code, member, render, render_all}
use janet_sdbus.Platform.{Platform, Call, close_container}
use janet_sdbus.Append.Encoding.{
  basic, bytes, array, struct, dict, variant, each_none, each_more, all_none, all_more,
  entries_none, entries_more, Encodes, EncodesEach, EncodesAll, EncodesEntries,
}
use janet_sdbus.Reader.{ReadLibrary}
use janet_sdbus.Reader.Wires.{
  Wire, Wires, nothing, more, Means, none_left, and_then, no_entry, and_entry,
}
use janet_sdbus.RoundTrip.{
  is_fd, has_fd, Link, call_basic, Calls, stored, byte_wires, Puts, put_nothing, put_basic,
  put_bytes, Shows, ShowsEach, ShowsAll, ShowsEntries,
}
use janet_sdbus.RoundTrip.Back.{
  has_fd-left, has_fd-right, call_basic_lem, not_brace, container-Puts, back_basic, Back, BackAll,
  BackEntries, byte_wires-means,
}

module _ ⦃w : Platform⦄ ⦃r : ReadLibrary⦄ (L : Link w r) where
  open w use {Double}
  open r use {Value, wrap}

  module _ where
    -- Encodings whose types nest to the depth `f`, when those of the values inside are known.
    module _ {f : ℕ}
        (inner : (t : Ty) (v : w.Janet) (cs : Calls L)
          → has_fd cs ≡ false
          → Encodes f t v cs
          → Back L t v cs) where
      back_each :
          {t : Ty} {vs : List (w.Janet)} {cs : Calls L}
          → has_fd cs ≡ false
          → EncodesEach f t vs cs
          → BackAll L (ShowsEach L t vs) cs
      back_each no_fd each_none = record {
        wires = nothing;
        shown = [];
        shows = ShowsEach.each_none;
        means = none_left;
        puts = put_nothing;
      }
      back_each no_fd (each_more {cs} {ds} e es) =
          let b = inner _ _ _ (has_fd-left cs ds no_fd) e in
          let bs = back_each (has_fd-right cs ds no_fd) es in
          record {
            wires = more b.wire bs.wires;
            shown = b.shown ∷ bs.shown;
            shows = ShowsEach.each_more b.shows bs.shows;
            means = and_then b.means bs.means;
            puts = b.puts _ _ bs.puts;
          }

      pub back_all :
          {ts : Tys} {vs : List (w.Janet)} {cs : Calls L}
          → has_fd cs ≡ false
          → EncodesAll f ts vs cs
          → BackAll L (ShowsAll L ts vs) cs
      back_all no_fd all_none = record {
        wires = nothing;
        shown = [];
        shows = ShowsAll.all_none;
        means = none_left;
        puts = put_nothing;
      }
      back_all no_fd (all_more {cs} {ds} e es) =
          let b = inner _ _ _ (has_fd-left cs ds no_fd) e in
          let bs = back_all (has_fd-right cs ds no_fd) es in
          record {
            wires = more b.wire bs.wires;
            shown = b.shown ∷ bs.shown;
            shows = ShowsAll.all_more b.shows bs.shows;
            means = and_then b.means bs.means;
            puts = b.puts _ _ bs.puts;
          }

      Puts-alone :
          {v : Wire Value} {cs : Calls L}
          → ((ds : Calls L) (ws : Wires Value) → Puts L ds ws → Puts L (cs ++ ds) (more v ws))
          → Puts L cs (more v nothing)
      Puts-alone {cs} p = rw (sym (append-nil cs)) (p [] nothing put_nothing)

      entry-Puts :
          {k : Basic} {c : Call Double} {v : Wire Value} {cs : Calls L}
          → call_basic c ≡ some k
          → ((ds : Calls L) (ws : Wires Value) → Puts L ds ws → Puts L (cs ++ ds) (more v ws))
          → Puts L (c ∷ cs) (more (Wire.basic k (stored L c)) (more v nothing))
      entry-Puts e p = put_basic e (Puts-alone p)

      back_entries :
          {k : Basic} {t : Ty} {kvs : List (w.Janet × w.Janet)} {cs : Calls L}
          → has_fd cs ≡ false
          → EncodesEntries f k t kvs cs
          → BackEntries L k t kvs cs
      back_entries no_fd entries_none = record {
        wires = nothing;
        shown = [];
        shows = ShowsEntries.entries_none;
        means = no_entry;
        puts = put_nothing;
      }
      back_entries no_fd (entries_more {k} {t} {key} {c} {cs} {ds} e e' es) =
          let body : Calls L = cs ++ close_container ∷ [] in
          let first : (is_fd c || has_fd body) ≡ false = has_fd-left (c ∷ body) ds no_fd in
          let rest = has_fd-left cs (close_container ∷ []) (ground arith) in
          let a = back_basic L k key c (ground arith) e in
          let b = inner _ _ _ rest e' in
          let bs = back_entries (has_fd-right (c ∷ body) ds no_fd) es in
          record {
            wires = more (Wire.entry k (stored L c) (render t) b.wire) bs.wires;
            shown = (a.shown, b.shown) ∷ bs.shown;
            shows = ShowsEntries.entries_more a.shows b.shows bs.shows;
            means = and_entry a.means b.means bs.means;
            puts =
                container-Puts L (Wire.entry k (stored L c) (render t) b.wire) refl tt
                  (entry-Puts (call_basic_lem L k key c e) b.puts) _ _ bs.puts;
          }

      back_more :
          {t : Ty} {v : w.Janet} {cs : Calls L}
          → has_fd cs ≡ false
          → Encodes (suc f) t v cs
          → Back L t v cs
      back_more no_fd (basic {k} {v} {c} e) =
          let b = back_basic L k v c (ground arith) e in
          record {
            wire = Wire.basic k (stored L c);
            shown = b.shown;
            shows = b.shows;
            means = Means.basic b.means;
            puts = λ ds ws p. put_basic (call_basic_lem L k v c e) p;
          }
      back_more no_fd (bytes {bs} e) = record {
        wire = Wire.array (b'y' ∷ []) (byte_wires L bs);
        shown = _;
        shows = Shows.bytes e;
        means = Means.array refl (byte_wires-means L bs);
        puts = λ ds ws p. put_bytes p;
      }
      back_more no_fd (array {t} {cs} plain_type e es) =
          let b = back_each (has_fd-left cs (close_container ∷ []) no_fd) es in
          record {
            wire = Wire.array (render t) b.wires;
            shown = _;
            shows = Shows.array plain_type e b.shows;
            means = Means.array (not_brace t) b.means;
            puts = container-Puts L (Wire.array (render t) b.wires) refl (not_brace t) b.puts;
          }
      back_more no_fd (struct {t} {ts} {cs} e es) =
          let b = back_all (has_fd-left cs (close_container ∷ []) no_fd) es in
          record {
            wire = Wire.struct (render_all (member t ts)) b.wires;
            shown = _;
            shows = Shows.struct e b.shows;
            means = Means.struct b.means;
            puts = container-Puts L (Wire.struct (render_all (member t ts)) b.wires) refl tt b.puts;
          }
      back_more no_fd (dict {k} {t} {cs} e es) =
          let b = back_entries (has_fd-left cs (close_container ∷ []) no_fd) es in
          let s = b'{' ∷ ((code k ∷ render t) ++ b'}' ∷ []) in
          record {
            wire = Wire.dict s b.wires;
            shown = _;
            shows = Shows.dict e b.shows;
            means = Means.dict refl b.means;
            puts = container-Puts L (Wire.dict s b.wires) refl refl b.puts;
          }
      back_more no_fd (variant {t} {cs} pair e text e' es) =
          let b = inner _ _ _ (has_fd-left cs (close_container ∷ []) no_fd) es in
          record {
            wire = Wire.variant (render t) b.wire;
            shown = _;
            shows = Shows.variant e e' b.shows;
            means = Means.variant b.means;
            puts = container-Puts L (Wire.variant (render t) b.wire) refl tt (Puts-alone b.puts);
          }

    pub back :
        (f : ℕ) (t : Ty) (v : w.Janet) (cs : Calls L)
        → has_fd cs ≡ false
        → Encodes f t v cs
        → Back L t v cs
    back zero t v cs no_fd e = elim e [ ]
    back (suc f) t v cs no_fd e = back_more (back f) no_fd e
