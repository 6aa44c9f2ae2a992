-- ===== src/Strings/Query/RoundTrip.antt =====
-- A query that is built of escaped values reads back as these values.
use shield_core.Prelude.{
  ℕ, ◌/◌, ◌%◌, ◌<◌, ◌≡◌, refl, true, false, some, [], ◌∷◌, ◌++◌, Text, text_eq, All, All-append,
  ◌||◌, List, ◌==◌, arith,
}
use shield_core.Strings.{split}
use shield_core.Strings.Split.{contains_lacking, split_line, split_single}
use shield_core.Strings.Query.{
  cut, is_unreserved, hex_digit, escape_byte, query_escape, unhex, plain, push, unescape_from,
  query_unescape, pair_of, values_of, query,
}

abbrev pub IsBytes : Text → Type 0
IsBytes = All (λ c. c < 256)

unhex-hex_digit : (n : ℕ) → n < 16 → unhex (hex_digit n) ≡ some n
unfolding unhex hex_digit
unhex-hex_digit n h = ground arith

unescape-escape_byte :
    (c : ℕ) (t : Text)
    → c < 256
    → unescape_from plain (escape_byte c ++ t) ≡ push c (unescape_from plain t)
unfolding unescape_from escape_byte is_unreserved
unescape-escape_byte c t h =
    ground
      (arith, unhex-hex_digit (c / 16) (omega (arith, h)), unhex-hex_digit (c % 16) (omega arith))

-- QueryUnescape undoes QueryEscape.
pub query_unescape-query_escape : (t : Text) → IsBytes t → query_unescape (query_escape t) ≡ some t
unfolding query_unescape query_escape push
query_unescape-query_escape [] h = unfold unescape_from in refl
query_unescape-query_escape (c ∷ t) (h, hs) =
    rw (unescape-escape_byte c (query_escape t) h) (rw (query_unescape-query_escape t hs) refl)

abbrev pub Lacks : ℕ → Text → Type 0
Lacks k = All (λ c. (c == k) ≡ false)

-- The characters that a query gives a meaning to.
abbrev IsReserved : ℕ → Type 0
IsReserved k = (k == b'&' || k == b'=' || k == b';' || k == b'#' || k == b'?') ≡ true

escape_byte-Lacks : (k c : ℕ) → IsReserved k → c < 256 → Lacks k (escape_byte c)
unfolding escape_byte is_unreserved hex_digit
escape_byte-Lacks k c h g = ground arith

query_escape-Lacks : (k : ℕ) (t : Text) → IsReserved k → IsBytes t → Lacks k (query_escape t)
unfolding query_escape
query_escape-Lacks k [] h g = tt
query_escape-Lacks k (c ∷ t) h (g, gs) =
    All-append _ (escape_byte c) (query_escape t) (escape_byte-Lacks k c h g)
      (query_escape-Lacks k t h gs)

-- Keys: texts that need no escape.
abbrev pub IsKey : Text → Type 0
IsKey = All (λ c. is_unreserved c ≡ true)

query_unescape-key : (k : Text) → IsKey k → query_unescape k ≡ some k
unfolding query_unescape unescape_from is_unreserved push
query_unescape-key [] h = refl
query_unescape-key (c ∷ k) (h, hs) = ground (arith, query_unescape-key k hs)

key-Lacks : (k : ℕ) (t : Text) → IsReserved k → IsKey t → Lacks k t
unfolding is_unreserved
key-Lacks k [] h g = tt
key-Lacks k (c ∷ t) h (g, gs) = (ground arith, key-Lacks k t h gs)

pub cut_at : (sep : ℕ) (s t : Text) → Lacks sep s → cut sep (s ++ sep ∷ t) ≡ (s, t)
unfolding cut
cut_at sep [] t h = ground arith
cut_at sep (c ∷ s) t (h, hs) = ground (arith, cut_at sep s t hs, h)

cut_none : (sep : ℕ) (s : Text) → Lacks sep s → cut sep s ≡ (s, [])
unfolding cut
cut_none sep [] h = refl
cut_none sep (c ∷ s) (h, hs) = ground (arith, cut_none sep s hs, h)

-- One piece of a query, and a query of such pieces.
abbrev pub piece : Text × Text → Text
piece p = p.0 ++ b'=' ∷ query_escape p.1

abbrev pub pieces : List (Text × Text) → Text
pieces [] = []
pieces (p ∷ []) = piece p
pieces (p ∷ q ∷ ps) = piece p ++ b'&' ∷ pieces (q ∷ ps)

abbrev pub IsPair : Text × Text → Type 0
IsPair p = IsKey p.0 × IsBytes p.1

piece-Lacks :
    (k : ℕ) (p : Text × Text) → IsReserved k → (k == b'=') ≡ false → IsPair p → Lacks k (piece p)
piece-Lacks k p h e (g, f) =
    All-append (λ c. (c == k) ≡ false) p.0 (b'=' ∷ query_escape p.1) (key-Lacks k p.0 h g)
      (ground (arith, e), query_escape-Lacks k p.1 h f)

text_eq_behind : (k t : Text) (c : ℕ) → text_eq (k ++ c ∷ t) [] ≡ false
unfolding text_eq
text_eq_behind [] t c = refl
text_eq_behind (d ∷ k) t c = refl

values_of-piece :
    (p : Text × Text) (ps : List Text) → IsPair p → values_of (piece p ∷ ps) ≡ p ∷ values_of ps
unfolding values_of pair_of
values_of-piece p ps (h, g) = ground (
  arith,
  cut_at b'=' p.0 (query_escape p.1) (key-Lacks b'=' p.0 refl h),
  contains_lacking b';' (piece p) (piece-Lacks b';' p refl refl (h, g)),
  text_eq_behind p.0 (query_escape p.1) b'=',
  query_unescape-key p.0 h,
  query_unescape-query_escape p.1 g,
)

values_of-pieces :
    (p : Text × Text) (ps : List (Text × Text))
    → All IsPair (p ∷ ps)
    → values_of (split b'&' (pieces (p ∷ ps))) ≡ p ∷ ps
values_of-pieces p [] (h, hs) =
    let one = contains_lacking b'&' (piece p) (piece-Lacks b'&' p refl refl h) in
    rw (split_single b'&' (piece p) one, values_of-piece p [] h) (unfold values_of in refl)
values_of-pieces p (q ∷ ps) (h, hs) =
    let one = contains_lacking b'&' (piece p) (piece-Lacks b'&' p refl refl h) in
    rw
      (
        split_line b'&' (piece p) (pieces (q ∷ ps)) one,
        values_of-piece p (split b'&' (pieces (q ∷ ps))) h,
        values_of-pieces q ps hs,
      )
      refl

pieces-Lacks :
    (k : ℕ) (ps : List (Text × Text))
    → IsReserved k
    → (k == b'=') ≡ false
    → (k == b'&') ≡ false
    → All IsPair ps
    → Lacks k (pieces ps)
pieces-Lacks k [] h e f g = tt
pieces-Lacks k (p ∷ []) h e f (g, gs) = piece-Lacks k p h e g
pieces-Lacks k (p ∷ q ∷ ps) h e f (g, gs) =
    All-append (λ c. (c == k) ≡ false) (piece p) (b'&' ∷ pieces (q ∷ ps)) (piece-Lacks k p h e g)
      (ground (arith, f), pieces-Lacks k (q ∷ ps) h e f gs)

-- The values of a URL's query are the pairs that it was built of, where the text before the
-- query holds neither `?` nor `#`, the keys need no escape and the values are bytes.
pub query-pieces :
    (base : Text) (p : Text × Text) (ps : List (Text × Text))
    → Lacks b'?' base
    → Lacks b'#' base
    → All IsPair (p ∷ ps)
    → query (base ++ b'?' ∷ pieces (p ∷ ps)) ≡ p ∷ ps
unfolding query
query-pieces base p ps h g f =
    let url = base ++ b'?' ∷ pieces (p ∷ ps) in
    let whole =
      All-append (λ c. (c == b'#') ≡ false) base (b'?' ∷ pieces (p ∷ ps)) g
        (refl, pieces-Lacks b'#' (p ∷ ps) refl refl refl f) in
    rw (cut_none b'#' url whole, cut_at b'?' base (pieces (p ∷ ps)) h) (values_of-pieces p ps f)

-- What needs no escape is written as it is.
pub query_escape_key : (t : Text) → IsKey t → query_escape t ≡ t
unfolding query_escape escape_byte
query_escape_key [] h = refl
query_escape_key (c ∷ t) (h, hs) = rw (h, query_escape_key t hs) refl
