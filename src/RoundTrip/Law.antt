-- ===== src/RoundTrip/Law.antt =====
-- `append_data` and then `message_read`, both of src/message.c: values that are written, sealed and
-- read.
use janet_sdbus.Base.{false, is_negative, ℕ, ◌≡◌, refl, List, [], Outcome, ok, arith}
use janet_sdbus.Signature.Types.{Ty, Tys, render, render_all}
use janet_sdbus.Signature.{Bytes}
use janet_sdbus.Platform.{Platform, open_container}
use janet_sdbus.Unwrap.{Panic}
use janet_sdbus.Append.{append_data}
use janet_sdbus.Append.Encoding.{Calls, EncodesAll, accepted, send}
use janet_sdbus.Append.Sending.{World}
use janet_sdbus.Append.Exact.{accepted-Sends, append_data_iff}
use janet_sdbus.Append.Arguments.{append_data-EncodesAll}
use janet_sdbus.Reader.{ReadLibrary, keyword, all, popped, message_read}
use janet_sdbus.Reader.Wires.{Wires, nothing, sizes}
use janet_sdbus.Reader.Cursor.{Cursor, Moves, Gives}
use janet_sdbus.Reader.Whole.{message_read-all}
use janet_sdbus.RoundTrip.{Link, has_fd, Puts, ShowsAll}
use janet_sdbus.RoundTrip.Back.Values.{back, back_all}

module _ ⦃w : Platform⦄ ⦃r : ReadLibrary⦄ (L : Link w r) (C : Cursor) where
  open w use {Janet, Double}
  open r use {Value, rewind}
  open C use {Holds}

  -- The values that the calls, none of which appends a descriptor, put into an empty message, where
  -- it accepts them, are what its cursor is over once it is sealed and rewound.
  abbrev pub Carries : w.Message → Type 0
  Carries empty =
      (cs : Calls) (ws : Wires Value) (m : w.Message)
      → has_fd cs ≡ false
      → Puts L cs ws
      → send cs empty ≡ accepted m
      → Moves Holds ws [] (rewind (L.seal m))

  -- The run `o` returns, and the message that it leaves is read back as the values are shown.
  pub record ReadsBack (ts : Tys) (vs : List Janet)
      (o : Outcome (Panic Janet Double) World (Unit {0})) : Type 0 where
    pub written : World
    pub returns : o ≡ ok tt written
    pub shown : List (r.Janet)
    pub shows : ShowsAll L ts vs shown
    pub fuel : ℕ
    pub reads :
        Gives C (popped shown) nothing [] (message_read fuel (keyword all) (L.seal (written.msg)))

  -- Values that have the types of the signature, with no file descriptor among them, are appended to
  -- an empty message that accepts the calls of their encoding: `append_data` returns, and
  -- `sdbus/message-read` with `:all` on the sealed message then returns the values as they are
  -- shown, and is left at the message's end; given that sd-bus's cursor keeps its laws, and that a
  -- sealed and rewound message holds the values that were put.
  pub message_read-append_data :
      {f : ℕ} {ts : Tys} {vs : List Janet} {cs : Calls} {m : w.Message} (s : World)
      → Carries (s.msg)
      → EncodesAll f ts vs cs
      → has_fd cs ≡ false
      → send cs s.msg ≡ accepted m
      → ReadsBack ts vs (append_data f (render_all ts) vs s)
  message_read-append_data {f} {cs} {m} s carries es no_fd accepts =
      let (t, returns, same) = accepted-Sends (append_data-EncodesAll s es) accepts in
      let b = back_all L (back L f) no_fd es in
      record {
        written = t;
        returns = returns;
        shown = b.shown;
        shows = b.shows;
        fuel = sizes b.wires;
        reads =
            message_read-all C (sizes b.wires) _ b.means (omega arith)
              (carries cs b.wires _ no_fd b.puts (rw same accepts));
      }

  -- Whatever `append_data` accepts is read back, if it has no file descriptor. If it returns on an
  -- empty message, then `sdbus/message-read` with `:all` on the sealed message returns the values as
  -- they are shown, and is left at the message's end; given what the round trip above asks of
  -- sd-bus, and that sd-bus opens a variant only for a single complete type.
  pub message_read-returned :
      ((sig : Bytes) (m : w.Message)
        → is_negative (w.perform (open_container b'v' sig) m).0 ≡ false
        → (t : Ty) × (sig ≡ render t))
      → (f : ℕ) (ts : Tys) (vs : List Janet) (s t : World)
      → ((cs : Calls) → EncodesAll f ts vs cs → send cs s.msg ≡ accepted t.msg → has_fd cs ≡ false)
      → Carries (s.msg)
      → append_data f (render_all ts) vs s ≡ ok tt t
      → ReadsBack ts vs (append_data f (render_all ts) vs s)
  message_read-returned single f ts vs s t no_fd carries returns =
      let (cs, es, accepts) = (append_data_iff single f ts vs s t.msg).0 (t, returns, refl) in
      message_read-append_data s carries es (no_fd cs es accepts) accepts
