-- ===== src/Net/Decimal/Print.antt =====
-- What `%d` prints of a uint64, and that `strconv.ParseUint` reads it back.
use shield_core.Prelude.{
  ℕ, zero, suc, ◌+◌, ◌/◌, ◌%◌, ◌^◌, ◌<◌, ◌≡◌, ◌≢◌, refl, true, some, [], ◌∷◌, ◌++◌, Text,
  append_assoc, append-nil, All, All-append, ltb, arith, Bool-cases, inl, inr,
}
use shield_core.Net.Decimal.{is_digit, decimal, print_u64, digits_from, parse_uint}

-- Reading the digits of n and then more is reading the rest from n on.
digits_from-decimal :
    (fuel n : ℕ) (t : Text) → n < 10 ^ fuel → digits_from 0 (decimal fuel n ++ t) ≡ digits_from n t
unfolding decimal digits_from is_digit
digits_from-decimal zero n t h = let e : n ≡ 0 = omega (arith, h) in rw e refl
digits_from-decimal (suc fuel) n t h = elim (Bool-cases (ltb n 10)) [
  | inl e ↦ ground (arith, e)
  | inr e ↦
      let ih = digits_from-decimal fuel (n / 10) ((n % 10 + 48) ∷ t) (omega (arith, h)) in
      let last : digits_from (n / 10) ((n % 10 + 48) ∷ t) ≡ digits_from n t = ground arith in
      rw (e, append_assoc) (ground (arith, ih, last))
]

decimal-ne-nil : (fuel n : ℕ) → decimal (suc fuel) n ≢ []
unfolding decimal
decimal-ne-nil zero n = ground arith
decimal-ne-nil (suc fuel) n = ground (arith, decimal-ne-nil fuel (n / 10))

parse_uint-cons :
    (w n : ℕ) (t : Text) → t ≢ [] → digits_from 0 t ≡ some n → n < 2 ^ w → parse_uint w t ≡ some n
unfolding parse_uint
parse_uint-cons w n [] h e f = absurd (h refl)
parse_uint-cons w n (c ∷ t) h e f = ground (arith, e, f)

-- A number of w bits, and of 20 digits at most, is read back from its print.
pub parse_uint-print : (w n : ℕ) → n < 2 ^ w → n < 10 ^ 20 → parse_uint w (print_u64 n) ≡ some n
unfolding print_u64 digits_from
parse_uint-print w n h g =
    let read = digits_from-decimal 20 n [] g in
    parse_uint-cons w n (decimal 20 n) (decimal-ne-nil 19 n) (rw (← append-nil (decimal 20 n)) read)
      h

-- Every uint64 is read back from its print.
pub parse_uint-print_u64 : (n : ℕ) → n < 2 ^ 64 → parse_uint 64 (print_u64 n) ≡ some n
parse_uint-print_u64 n h = parse_uint-print 64 n h (omega (arith, h))

abbrev pub IsNumber : Text → Type 0
IsNumber = All (λ c. is_digit c ≡ true)

decimal-IsNumber : (fuel n : ℕ) → IsNumber (decimal fuel n)
unfolding decimal is_digit
decimal-IsNumber zero n = tt
decimal-IsNumber (suc fuel) n = elim (Bool-cases (ltb n 10)) [
  | inl e ↦ rw e (ground (arith, e), tt)
  | inr e ↦ rw e (
      All-append (λ c. is_digit c ≡ true) (decimal fuel (n / 10)) ((n % 10 + 48) ∷ [])
        (decimal-IsNumber fuel (n / 10)) (ground arith, tt))
]

pub print_u64-IsNumber : (n : ℕ) → IsNumber (print_u64 n)
unfolding print_u64
print_u64-IsNumber n = decimal-IsNumber 20 n

pub print_u64-ne-nil : (n : ℕ) → print_u64 n ≢ []
unfolding print_u64
print_u64-ne-nil n = decimal-ne-nil 19 n

-- A text of digits has no character that is no digit.
pub IsNumber-lacks :
    (P : ℕ → Type 0) → ((c : ℕ) → is_digit c ≡ true → P c) → (t : Text) → IsNumber t → All P t
IsNumber-lacks P f [] h = tt
IsNumber-lacks P f (c ∷ t) (h, hs) = (f c h, IsNumber-lacks P f t hs)
