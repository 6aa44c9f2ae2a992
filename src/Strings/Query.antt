-- ===== src/Strings/Query.antt =====
-- Queries of URLs, as package net/url escapes and reads them (QueryEscape, QueryUnescape and
-- the values of a query), and `strings.Cut` at one character.
pub mod RoundTrip
use shield_core.Prelude.{
  ℕ, ◌+◌, ◌-◌, ◌*◌, ◌/◌, ◌%◌, Bool, true, false, ◌&&◌, ◌||◌, Option, none, some, List, [], ◌∷◌,
  ◌++◌, Text, bytes, text_eq, contains, ltb, leb, ◌==◌, if◌then◌else◌,
}
use shield_core.Strings.{split}

-- The text before the first separator and the text behind it, which is empty without one.
unfoldable pub cut : ℕ → Text → Text × Text
cut sep [] = ([], [])
cut sep (c ∷ t) =
    let (before, after) = cut sep t in if c == sep then ([], t) else (c ∷ before, after)

-- The characters that need no escape.
unfoldable pub is_unreserved : ℕ → Bool
is_unreserved c =
    (leb b'a' c && leb c b'z')
    || (leb b'A' c && leb c b'Z')
    || (leb b'0' c && leb c b'9')
    || c == b'-'
    || c == b'_'
    || c == b'.'
    || c == b'~'

unfoldable pub hex_digit : ℕ → ℕ
hex_digit n = if ltb n 10 then n + 48 else n + 55

unfoldable pub escape_byte : ℕ → Text
unfolding is_unreserved hex_digit
escape_byte c =
    if is_unreserved c
    then c ∷ []
    else if c == 32
    then b'+' ∷ []
    else b'%' ∷ hex_digit (c / 16) ∷ hex_digit (c % 16) ∷ []

unfoldable pub query_escape : Text → Text
unfolding escape_byte
query_escape [] = []
query_escape (c ∷ t) = escape_byte c ++ query_escape t

-- The value of a hexadecimal digit.
unfoldable pub unhex : ℕ → Option ℕ
unhex c =
    if leb b'0' c && leb c b'9'
    then some (c - 48)
    else if leb b'a' c && leb c b'f'
    then some (c - 87)
    else if leb b'A' c && leb c b'F'
    then some (c - 55)
    else none

-- What has been read of an escape: nothing, the percent sign, or a digit behind it.
pub data Pending : Type 0 where
  plain percent : Pending
  digit : ℕ → Pending

unfoldable pub push : ℕ → Option Text → Option Text
push c none = none
push c (some t) = some (c ∷ t)

unfoldable pub unescape_from : Pending → Text → Option Text
unfolding unhex push
unescape_from plain [] = some []
unescape_from percent [] = none
unescape_from (digit d) [] = none
unescape_from plain (c ∷ t) =
    let opened = unescape_from percent t in
    let rest = unescape_from plain t in
    if c == b'%' then opened else push (if c == b'+' then 32 else c) rest
unescape_from percent (c ∷ t) = elim (unhex c) [ none ↦ none | some d ↦ unescape_from (digit d) t ]
unescape_from (digit d) (c ∷ t) =
    let rest = unescape_from plain t in
    elim (unhex c) [ none ↦ none | some e ↦ push (d * 16 + e) rest ]

unfoldable pub query_unescape : Text → Option Text
unfolding unescape_from
query_unescape t = unescape_from plain t

-- One piece of a query before its `=` and behind it; a piece with an escape that cannot be read
-- is left out.
unfoldable pub pair_of : Option Text → Option Text → List (Text × Text) → List (Text × Text)
pair_of none value rest = rest
pair_of (some key) none rest = rest
pair_of (some key) (some value) rest = (key, value) ∷ rest

unfoldable pub values_of : List Text → List (Text × Text)
unfolding cut query_unescape pair_of
values_of [] = []
values_of (p ∷ ps) =
    let rest = values_of ps in
    let (key, value) = cut b'=' p in
    if contains p (bytes ";") || text_eq p []
    then rest
    else pair_of (query_unescape key) (query_unescape value) rest

-- `url.Query()`, of the text of a URL.
unfoldable pub query : Text → List (Text × Text)
unfolding values_of
query url = values_of (split b'&' (cut b'?' (cut b'#' url).0).1)

-- `Get`: the first value of a key, or the empty text.
unfoldable pub get : Text → List (Text × Text) → Text
get key [] = []
get key (p ∷ ps) = if text_eq p.0 key then p.1 else get key ps
