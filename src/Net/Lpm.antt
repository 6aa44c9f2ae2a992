-- ===== src/Net/Lpm.antt =====
-- Keys of the LPM tries and their text (src/control_plane/map_manager.go: ipToUint32,
-- formatLpmKey, LpmTrieKey, parseCIDR, htons, ntohs), over the readers of package net.
pub mod RoundTrip
use shield_core.Prelude.{
  ℕ, ◌+◌, ◌-◌, ◌*◌, ◌/◌, ◌%◌, ◌^◌, ◌≡◌, refl, ◌⊎◌, inl, inr, Bool, ◌||◌, Option, none, some, [],
  ◌∷◌, ◌++◌, Text, ltb, ◌==◌, if◌then◌else◌,
}
use mathlib.Core.Option
use shield_core.Net.Decimal.{print_u64, dtoi}
use shield_core.Net.Addr.{octet, print_ipv4, parse_ipv4}

-- An address as package netip reads it: 4 bytes or 16, as one number.
pub data Ip : Type 0 where
  v4 : ℕ → Ip
  v6 : ℕ → Ip

-- `To4`: an IPv4 address, also one mapped into IPv6.
unfoldable pub to4 : Ip → Option ℕ
to4 (v4 a) = some a
to4 (v6 a) = if a / 2 ^ 32 == 0xffff then some (a % 2 ^ 32) else none

-- The first of '.', ':' and '%' says which reader is meant.
unfoldable pub first_mark : Text → Option ℕ
first_mark [] = none
first_mark (c ∷ cs) = if c == b'.' || (c == b':' || c == b'%') then some c else first_mark cs

-- The text before the first '/', and the text behind it.
unfoldable pub split_slash : Text → Option (Text × Text)
split_slash [] = none
split_slash (c ∷ cs) =
    if c == b'/' then some ([], cs) else Option.map (λ p. (c ∷ p.0, p.1)) (split_slash cs)

-- The address with the bits behind the prefix cleared, of a width in bits.
abbrev pub mask_to : ℕ → ℕ → ℕ → ℕ
mask_to width ones a = a / 2 ^ (width - ones) * 2 ^ (width - ones)

-- `binary.LittleEndian.Uint32` of the four bytes, and `PutUint32` the other way.
unfoldable pub swap32 : ℕ → ℕ
swap32 a = octet a 3 + octet a 2 * 2 ^ 8 + octet a 1 * 2 ^ 16 + octet a 0 * 2 ^ 24

pub record LpmTrieKey : Type 0 where
  pub prefix_len : ℕ  -- uint32
  pub bits : ℕ  -- uint32, the bytes of the address read as little endian

pub data AddrError : Type 0 where
  invalid ipv4_only : AddrError

pub data Parsed {ℓ} (A : Type ℓ) : Type ℓ where
  ok : A → Parsed A
  err : AddrError → Parsed A

pub Parsed-cases {ℓ} :
    {A : Type ℓ} (r : Parsed A) → ((e : AddrError) × (r ≡ err e)) ⊎ ((a : A) × (r ≡ ok a))
Parsed-cases (ok a) = inr (a, refl)
Parsed-cases (err e) = inl (e, refl)

unfoldable pub htons : ℕ → ℕ
htons val = val * 2 ^ 8 % 2 ^ 16 + val / 2 ^ 8

unfoldable pub ntohs : ℕ → ℕ
ntohs val = val * 2 ^ 8 % 2 ^ 16 + val / 2 ^ 8

unfoldable pub format_lpm_key : LpmTrieKey → Text
format_lpm_key key =
    let ip = print_ipv4 (swap32 key.bits) in
    if key.prefix_len == 32 then ip else ip ++ (b'/' ∷ print_u64 key.prefix_len)

-- The reader of IPv6 text is a parameter: the program only tells its results apart by `To4`.
module _ (parse_ipv6 : Text → Option ℕ) where
  -- `net.ParseIP`, and `netip.ParseAddr` of an address without a zone
  unfoldable pub parse_ip : Text → Option Ip
  parse_ip t = elim (first_mark t) [
    | none ↦ none
    | some c ↦
        if c == b'.'
        then Option.map v4 (parse_ipv4 t)
        else if c == b':'
        then Option.map v6 (parse_ipv6 t)
        else none
  ]

  -- `net.ParseCIDR`: the network's masked address, and its number of ones.
  masked : Ip → ℕ → Option (Ip × ℕ)
  masked (v4 a) ones = if ltb 32 ones then none else some (v4 (mask_to 32 ones a), ones)
  masked (v6 a) ones = if ltb 128 ones then none else some (v6 (mask_to 128 ones a), ones)

  unfoldable pub parse_net : Text → Option (Ip × ℕ)
  unfolding parse_ip masked
  parse_net t = elim (split_slash t) [
    | none ↦ none
    | some (addr, mask) ↦ elim (parse_ip addr) [
      | none ↦ none
      | some ip ↦ elim (dtoi mask) [ none ↦ none | some ones ↦ masked ip ones ]
    ]
  ]

  unfoldable pub ip_to_uint32 : Text → Parsed ℕ
  unfolding parse_ip
  ip_to_uint32 ip_str = elim (parse_ip ip_str) [
    | none ↦ err invalid
    | some ip ↦ elim (to4 ip) [ none ↦ err ipv4_only | some a ↦ ok (swap32 a) ]
  ]

  unfoldable pub parse_cidr : Text → Parsed LpmTrieKey
  unfolding parse_ip parse_net
  parse_cidr cidr_str = elim (parse_net cidr_str) [
    | none ↦ elim (parse_ip cidr_str) [
      | none ↦ err invalid
      | some ip ↦ elim (to4 ip) [
        | none ↦ err ipv4_only
        | some a ↦ ok (record { prefix_len = 32; bits = swap32 a })
      ]
    ]
    | some (net, ones) ↦ elim (to4 net) [
      | none ↦ err ipv4_only
      | some a ↦ ok (record { prefix_len = ones; bits = swap32 a })
    ]
  ]
