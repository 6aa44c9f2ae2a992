-- ===== src/Net/Decimal.antt =====
-- Decimal digits in byte texts, as Go prints and reads small numbers.
pub mod Print
use shield_core.Prelude.{
  ℕ, zero, suc, ◌+◌, ◌-◌, ◌*◌, ◌/◌, ◌%◌, ◌^◌, ◌<◌, ◌≡◌, Bool, ◌&&◌, Option, none, some, [], ◌∷◌,
  ◌++◌, Text, ltb, leb, if◌then◌else◌, arith,
}

unfoldable pub is_digit : ℕ → Bool
is_digit c = leb b'0' c && leb c b'9'

-- Numbers below 1000, without leading zeros.
unfoldable pub print_small : ℕ → Text
print_small n =
    if ltb n 10
    then (n + 48) ∷ []
    else if ltb n 100
    then (n / 10 + 48) ∷ (n % 10 + 48) ∷ []
    else (n / 100 + 48) ∷ (n / 10 % 10 + 48) ∷ (n % 10 + 48) ∷ []

-- `%d`: the digits of n, at most `fuel` of them.
unfoldable pub decimal : ℕ → ℕ → Text
decimal zero n = []
decimal (suc fuel) n =
    let high = decimal fuel (n / 10) in
    if ltb n 10 then (n + 48) ∷ [] else high ++ (n % 10 + 48) ∷ []

-- A uint64 has 20 digits at most.
unfoldable pub print_u64 : ℕ → Text
unfolding decimal
print_u64 n = decimal 20 n

pub print_u64_small : (n : ℕ) → n < 100 → print_u64 n ≡ print_small n
unfolding print_u64 print_small
print_u64_small n h = ground arith

-- `net.dtoi` where it must use up its text: digits only, and the value below 0xffffff throughout.
unfoldable pub dtoi_from : ℕ → Text → Option ℕ
unfolding is_digit
dtoi_from n [] = some n
dtoi_from n (c ∷ cs) =
    let rest = dtoi_from (n * 10 + (c - 48)) cs in
    if is_digit c && ltb (n * 10 + (c - 48)) 0xffffff then rest else none

unfoldable pub dtoi : Text → Option ℕ
unfolding dtoi_from
dtoi [] = none
dtoi (c ∷ cs) = dtoi_from 0 (c ∷ cs)

-- The value of a text of digits, going on from n.
unfoldable pub digits_from : ℕ → Text → Option ℕ
unfolding is_digit
digits_from n [] = some n
digits_from n (c ∷ cs) =
    let rest = digits_from (n * 10 + (c - 48)) cs in if is_digit c then rest else none

-- `strconv.ParseUint(s, 10, w)`: digits only, and a value of w bits.
unfoldable pub parse_uint : ℕ → Text → Option ℕ
unfolding digits_from
parse_uint w [] = none
parse_uint w (c ∷ cs) = elim (digits_from 0 (c ∷ cs)) [
  | none ↦ none
  | some n ↦ if ltb n (2 ^ w) then some n else none
]

pub dtoi-print_small : (n : ℕ) → n < 100 → dtoi (print_small n) ≡ some n
unfolding dtoi print_small
dtoi-print_small n h = ground arith
