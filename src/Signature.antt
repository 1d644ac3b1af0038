-- ===== src/Signature.antt =====
-- The scanner of D-Bus signatures in src/message.c: `is_basic_type`, `match`, `find_subtype` and
-- `span_next_type`. A C string is the list of its bytes before the terminating NUL, and a pointer
-- into it is the list of the bytes from there on, so `*p` is 0 at the empty list.
pub mod Types
pub mod Brackets
pub mod Spans
use janet_sdbus.Base.{
  ℕ, suc, ◌+◌, ◌-◌, Bool, true, false, ◌||◌, List, [], ◌∷◌, ◌==◌, if◌then◌else◌, drop,
}

abbrev pub Bytes : Type 0
Bytes = List ℕ

-- `*p`
abbrev pub deref : Bytes → ℕ
deref [] = 0
deref (c ∷ _) = c

-- What the scanner panics with.
pub data SignatureError : Type 0 where
  unmatched : (opener : ℕ) → SignatureError
  missing_array_signature : SignatureError
  unsupported_argument : (ch : ℕ) → SignatureError

pub data Scan (A : Type 0) : Type 0 where
  found : A → Scan A
  failed : SignatureError → Scan A

abbrev pub scan_map : {A B : Type 0} → (A → B) → Scan A → Scan B
scan_map f (found a) = found (f a)
scan_map f (failed e) = failed e

-- `strchr` finds the terminating NUL too.
strchr : Bytes → ℕ → Bool
strchr [] ch = ch == 0
strchr (c ∷ cs) ch = (c == ch) || strchr cs ch

abbrev basic_codes : Bytes
basic_codes =
    b'y' ∷ b'b' ∷ b'n' ∷ b'q' ∷ b'i' ∷ b'u' ∷ b'x' ∷ b't' ∷ b'd' ∷ b's' ∷ b'o' ∷ b'g' ∷ b'h' ∷ []

unfoldable pub is_basic_type : ℕ → Bool
unfolding strchr
is_basic_type ch = strchr basic_codes ch

abbrev next_depth : ℕ → ℕ → ℕ → ℕ → ℕ
next_depth opener closer depth ch =
    if ch == opener then depth + 1 else if ch == closer then depth - 1 else depth

-- The loop of `match`: `length` counts the bytes read, and the loop ends where `depth` is 0.
unfoldable pub match_loop : ℕ → ℕ → ℕ → ℕ → Bytes → Scan ℕ
match_loop opener closer depth length [] = failed (unmatched opener)
match_loop opener closer depth length (ch ∷ str) =
    let depth' = next_depth opener closer depth ch in
    let rest = match_loop opener closer depth' (length + 1) str in
    if depth' == 0 then found (length + 1) else rest

-- `str` points at the opening character, which the loop skips.
unfoldable pub match : Bytes → ℕ → ℕ → Scan ℕ
unfolding match_loop
match str opener closer = match_loop opener closer 1 0 (drop 1 str)

unfoldable pub find_subtype : Bytes → Scan ℕ
unfolding match
find_subtype [] = failed missing_array_signature
find_subtype (ch ∷ signature) =
    let deeper = scan_map suc (find_subtype signature) in
    if ch == b'a'
    then deeper
    else if ch == b'{'
    then match (ch ∷ signature) b'{' b'}'
    else if ch == b'('
    then match (ch ∷ signature) b'(' b')'
    else found 0

-- A `Parser`'s cursor is never NULL: the first test of the C function never holds.
unfoldable pub span_next_type : Bytes → Scan ℕ
unfolding is_basic_type find_subtype match
span_next_type cursor =
    let ch = deref cursor in
    if is_basic_type ch || (ch == b'v')
    then found 1
    else if ch == b'a'
    then scan_map suc (find_subtype cursor)
    else if ch == b'('
    then match cursor b'(' b')'
    else failed (unsupported_argument ch)
