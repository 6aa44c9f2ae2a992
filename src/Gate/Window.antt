-- ===== src/Gate/Window.antt =====
-- How many requests of an address pass in a minute, and which keys are accepted
-- (src/control_plane/main.go, main).
use shield_core.Prelude.{
  ℕ, ◌+◌, ◌≤◌, ◌≡◌, refl, ap, Bool, true, Option, none, some, List, [], ◌∷◌, Text, text_eq,
  text_eq_iff, ltb, leb, if◌then◌else◌, All, arith, Bool-cases, inl, inr,
}
use shield_core.Gate.{minute, RateLimitEntry, RateLimitMap, entry_of, count_request, rate_limit}

-- A request: its address and its time.
abbrev pub Arrival : Type 0
Arrival = Text × ℕ

-- How many requests of an address there are, and how many are let through.
abbrev pub asked : Text → List Arrival → ℕ
asked a [] = 0
asked a (r ∷ rs) = let rest = asked a rs in if text_eq r.0 a then rest + 1 else rest

abbrev pub passed : Text → RateLimitMap → List Arrival → ℕ
passed a l [] = 0
passed a l (r ∷ rs) =
    let (l', ok) = rate_limit l r.0 r.1 in
    let rest = passed a l' rs in if text_eq r.0 a then (if ok then rest + 1 else rest) else rest

abbrev pub at_most : ℕ → ℕ → ℕ
at_most n m = if ltb n m then n else m

abbrev count_of : Option RateLimitEntry → ℕ
count_of none = 0
count_of (some e) = e.count

-- The entry, where there is one, lasts to the end of the time at hand.
abbrev lasts : ℕ → Option RateLimitEntry → Bool
lasts until none = true
lasts until (some e) = leb until e.reset_at

count_request-lasts :
    (t0 now : ℕ) (e : Option RateLimitEntry)
    → t0 ≤ now
    → now ≤ t0 + minute
    → lasts (t0 + minute) e ≡ true
    → (count_of (some (count_request now e)) ≡ count_of e + 1)
      × (lasts (t0 + minute) (some (count_request now e)) ≡ true)
unfolding count_request
count_request-lasts t0 now none h g l = (refl, ground arith)
count_request-lasts t0 now (some e) h g l = (ground arith, ground arith)

abbrev pub Within : ℕ → Arrival → Type 0
Within t0 r = (t0 ≤ r.1) × (r.1 ≤ t0 + minute)

entry_lasts :
    (t0 : ℕ) (l : RateLimitMap) (r : Arrival)
    → Within t0 r
    → ((b : Text) → lasts (t0 + minute) (entry_of b l) ≡ true)
    → (b : Text) → lasts (t0 + minute) (entry_of b (rate_limit l r.0 r.1).0) ≡ true
unfolding rate_limit entry_of
entry_lasts t0 l r (h, g) w b =
    let one = (count_request-lasts t0 r.1 (entry_of r.0 l) h g (w r.0)).1 in
    elim (Bool-cases (text_eq r.0 b)) [ inl e ↦ rw e one | inr e ↦ rw e (w b) ]

-- Within a minute the requests of an address that pass, with those counted before, are as many
-- as were made, up to 60.
passed_from :
    (t0 : ℕ) (a : Text) (l : RateLimitMap) (rs : List Arrival)
    → ((b : Text) → lasts (t0 + minute) (entry_of b l) ≡ true)
    → All (Within t0) rs
    → at_most 60 (count_of (entry_of a l)) + passed a l rs
      ≡ at_most 60 (count_of (entry_of a l) + asked a rs)
unfolding rate_limit entry_of
passed_from t0 a l [] h w = ground arith
passed_from t0 a l (r ∷ rs) h (w, ws) =
    let rest = passed_from t0 a (rate_limit l r.0 r.1).0 rs (entry_lasts t0 l r w h) ws in
    let one = (count_request-lasts t0 r.1 (entry_of r.0 l) w.0 w.1 (h r.0)).0 in
    elim (Bool-cases (text_eq r.0 a)) [
      | inl e ↦ ground (arith, e, rest, one, ap (λ b. entry_of b l) ((text_eq_iff r.0 a).0 e))
      | inr e ↦ ground (arith, e, rest)
    ]

-- Of the requests of a minute that starts with no entries and in which the requests come one after
-- another, those of each RemoteAddr (an address with its port) pass up to 60 and no more, whatever
-- the others ask.
pub rate_limit_window :
    (t0 : ℕ) (a : Text) (rs : List Arrival)
    → All (Within t0) rs
    → passed a [] rs ≡ at_most 60 (asked a rs)
unfolding entry_of
rate_limit_window t0 a rs w = ground (arith, passed_from t0 a [] rs (λ b. refl) w)
