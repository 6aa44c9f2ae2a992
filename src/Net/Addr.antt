-- ===== src/Net/Addr.antt =====
-- The textual forms of IPv4 addresses: `net.IP.String`, and the reader behind `net.ParseIP` and
-- `net.ParseCIDR`. An address is the number of its bytes, the first the highest.
pub mod RoundTrip
use shield_core.Prelude.{
  ℕ, zero, suc, ◌+◌, ◌-◌, ◌*◌, ◌/◌, ◌%◌, ◌^◌, ◌≤◌, ◌<◌, ◌≡◌, ◌⊎◌, inl, inr, refl, Bool, true, false,
  ◌&&◌, ◌||◌, Option, none, some, List, [], ◌∷◌, ◌++◌, Text, ltb, leb, ◌==◌, if◌then◌else◌, arith,
}
use shield_core.Net.Decimal.{is_digit, print_small}

abbrev pub octet : ℕ → ℕ → ℕ
octet a k = a / 256 ^ k % 256

-- `net.IP(b).String()` of four bytes.
unfoldable pub print_ipv4 : ℕ → Text
unfolding print_small
print_ipv4 a =
    print_small (octet a 3)
    ++ (b'.'
        ∷ (print_small (octet a 2)
            ++ (b'.' ∷ (print_small (octet a 1) ++ (b'.' ∷ print_small (octet a 0))))))

-- What the reader keeps between two bytes: the octets closed so far, as one number, how many
-- they are, the octet that is being read, and how many digits it has.
pub record Scan : Type 0 where
  pub closed : ℕ
  pub pos : ℕ
  pub val : ℕ
  pub digits : ℕ

unfoldable pub scan_end : Scan → Option ℕ
scan_end s = if s.pos == 3 && ltb 0 s.digits then some (s.closed * 256 + s.val) else none

-- One byte: a digit must not follow a leading zero nor pass 255; a dot must close an octet that
-- has a digit, and a fourth dot is too many.
unfoldable pub scan_byte : Scan → ℕ → Option Scan
unfolding is_digit
scan_byte s c =
    if is_digit c
    then (if s.digits == 1 && s.val == 0
        then none
        else if ltb 255 (s.val * 10 + (c - 48))
        then none
        else some (record s { val = s.val * 10 + (c - 48); digits = s.digits + 1 }))
    else if c == b'.'
    then (if s.digits == 0 || s.pos == 3
        then none
        else some
            (record { closed = s.closed * 256 + s.val; pos = s.pos + 1; val = 0; digits = 0 }))
    else none

unfoldable pub scan_ipv4 : Scan → Text → Option ℕ
scan_ipv4 s [] = scan_end s
scan_ipv4 s (c ∷ cs) = elim (scan_byte s c) [ none ↦ none | some t ↦ scan_ipv4 t cs ]

abbrev pub scan_start : Scan
scan_start = record { closed = 0; pos = 0; val = 0; digits = 0 }

-- `netip.parseIPv4`
unfoldable pub parse_ipv4 : Text → Option ℕ
unfolding scan_ipv4 scan_byte scan_end
parse_ipv4 t = scan_ipv4 scan_start t
