-- ===== src/Strings/Split.antt =====
-- What `split` and `join` have to do with each other and with `contains`.
use shield_core.Prelude.{
  ℕ, ◌≡◌, refl, inl, inr, true, false, ◌||◌, List, [], ◌∷◌, ◌++◌, Text, has_prefix, contains, ◌==◌,
  All, arith, Bool-cases,
}
use mathlib.Core.Path.{subst}
use shield_core.Strings.{split, join, onto_first}

-- `split` gives at least one piece.
pub split-cons : (sep : ℕ) (t : Text) → (p : Text) × ((ps : List Text) × (split sep t ≡ p ∷ ps))
unfolding split onto_first
split-cons sep [] = ([], ([], refl))
split-cons sep (c ∷ t) =
    let (p, (ps, e)) = split-cons sep t in
    elim (Bool-cases (c == sep)) [
      | inl h ↦ ([], (p ∷ ps, ground (arith, e)))
      | inr h ↦ (c ∷ p, (ps, ground (arith, e)))
    ]

-- The pieces of a text before a separator and behind it.
pub split-append : (sep : ℕ) (s t : Text) → split sep (s ++ sep ∷ t) ≡ split sep s ++ split sep t
unfolding split onto_first
split-append sep [] t = ground arith
split-append sep (c ∷ s) t =
    let (p, (ps, e)) = split-cons sep s in ground (arith, e, split-append sep s t)

pub join-cons :
    (sep c : ℕ) (p : Text) (ps : List Text) → join sep ((c ∷ p) ∷ ps) ≡ c ∷ join sep (p ∷ ps)
unfolding join
join-cons sep c p [] = refl
join-cons sep c p (q ∷ qs) = refl

pub join-split : (sep : ℕ) (t : Text) → join sep (split sep t) ≡ t
unfolding split onto_first join
join-split sep [] = refl
join-split sep (c ∷ t) =
    let (p, (ps, e)) = split-cons sep t in ground (arith, e, join-split sep t, join-cons sep c p ps)

pub has_prefix_append : (s t p : Text) → has_prefix s p ≡ true → has_prefix (s ++ t) p ≡ true
unfolding has_prefix
has_prefix_append s t [] h = refl
has_prefix_append [] t (d ∷ p) h = ground arith
has_prefix_append (c ∷ s) t (d ∷ p) h = ground (arith, has_prefix_append s t p)

pub contains_append : (s t p : Text) → contains s p ≡ true → contains (s ++ t) p ≡ true
unfolding contains has_prefix
contains_append [] [] p h = h
contains_append [] (d ∷ t) [] h = refl
contains_append [] (d ∷ t) (c ∷ p) h = ground arith
contains_append (c ∷ s) t p h = elim (Bool-cases (has_prefix (c ∷ s) p)) [
  | inl e ↦ ground (arith, has_prefix_append (c ∷ s) t p e)
  | inr e ↦ ground (arith, contains_append s t p)
]

pub contains_behind : (s t p : Text) → contains t p ≡ true → contains (s ++ t) p ≡ true
unfolding contains
contains_behind [] t p h = h
contains_behind (c ∷ s) t p h = ground (arith, contains_behind s t p h)

pub has_prefix_refl : (s : Text) → has_prefix s s ≡ true
unfolding has_prefix
has_prefix_refl [] = refl
has_prefix_refl (c ∷ s) = ground (arith, has_prefix_refl s)

pub contains_refl : (s : Text) → contains s s ≡ true
unfolding contains
contains_refl [] = refl
contains_refl (c ∷ s) = ground (arith, has_prefix_refl (c ∷ s))

-- The first piece is where the text begins.
first_piece :
    (sep : ℕ) (t p : Text) (ps : List Text) (k : Text)
    → split sep t ≡ p ∷ ps
    → has_prefix p k ≡ true
    → has_prefix t k ≡ true
unfolding split onto_first has_prefix
first_piece sep t p ps [] e h = refl
first_piece sep [] p ps (d ∷ k) e h = ground arith
first_piece sep (c ∷ t) p ps (d ∷ k) e h =
    let (q, (qs, f)) = split-cons sep t in ground (arith, f, first_piece sep t q qs k f)

nil_lacks : (t k : Text) → contains t k ≡ false → contains [] k ≡ false
unfolding contains has_prefix
nil_lacks [] k h = h
nil_lacks (c ∷ t) [] h = ground arith
nil_lacks (c ∷ t) (d ∷ k) h = refl

-- The first piece, one character longer, lacks what the text lacks.
piece_lacks :
    (sep c : ℕ) (t p : Text) (ps : List Text) (k : Text)
    → contains (c ∷ t) k ≡ false
    → (c == sep) ≡ false
    → split sep t ≡ p ∷ ps
    → contains p k ≡ false
    → contains (c ∷ p) k ≡ false
unfolding split onto_first contains
piece_lacks sep c t p ps k h f e g =
    ground (arith, first_piece sep (c ∷ t) (c ∷ p) ps k (ground (arith, f, e)), g)

-- No piece holds a text that the whole does not hold.
pub contains-split :
    (sep : ℕ) (t k : Text) → contains t k ≡ false → All (λ p. contains p k ≡ false) (split sep t)
unfolding split onto_first contains
contains-split sep [] k h = (h, tt)
contains-split sep (c ∷ t) k h =
    let (p, (ps, e)) = split-cons sep t in
    let rest = contains-split sep t k (ground (arith, h)) in
    elim (Bool-cases (c == sep)) [
      | inl f ↦ rw f (nil_lacks (c ∷ t) k h, rest)
      | inr f ↦
          let (first, others) = subst (All (λ q. contains q k ≡ false)) e rest in
          rw (f, e) (piece_lacks sep c t p ps k h f e first, others)
    ]

-- A text without the separator is one piece.
pub split_single : (sep : ℕ) (t : Text) → contains t (sep ∷ []) ≡ false → split sep t ≡ t ∷ []
unfolding split onto_first contains has_prefix
split_single sep [] h = refl
split_single sep (c ∷ t) h = ground (arith, split_single sep t)

pub contains_char :
    (s t : Text) (c : ℕ) → contains (s ++ t) (c ∷ []) ≡ (contains s (c ∷ []) || contains t (c ∷ []))
unfolding contains has_prefix
contains_char [] t c = refl
contains_char (d ∷ s) t c = ground (arith, contains_char s t c)

pub split_line :
    (sep : ℕ) (s t : Text)
    → contains s (sep ∷ []) ≡ false
    → split sep (s ++ sep ∷ t) ≡ s ∷ split sep t
split_line sep s t h = rw (split-append sep s t, split_single sep s h) refl

pub contains_lacking :
    (k : ℕ) (t : Text) → All (λ c. (c == k) ≡ false) t → contains t (k ∷ []) ≡ false
unfolding contains has_prefix
contains_lacking k [] h = refl
contains_lacking k (c ∷ t) (h, hs) = ground (arith, contains_lacking k t hs, h)

pub lacking_contains :
    (k : ℕ) (t : Text) → contains t (k ∷ []) ≡ false → All (λ c. (c == k) ≡ false) t
unfolding contains has_prefix
lacking_contains k [] h = tt
lacking_contains k (c ∷ t) h = (ground arith, lacking_contains k t (ground arith))
