-- ===== src/Net/Lpm/RoundTrip.antt =====
-- A formatted key reads back as itself (src/control_plane/map_manager.go: formatLpmKey,
-- parseCIDR).
use shield_core.Prelude.{
  ℕ, ◌^◌, ◌≤◌, ◌<◌, ◌≡◌, ◌≢◌, refl, ap, sym, ◌∙◌, false, Option, none, some, [], ◌∷◌, ◌++◌, Text,
  append_assoc, append-nil, All, ltb, ◌==◌, arith, Bool-cases, inl, inr,
}
use shield_core.Net.Decimal.{print_small, print_u64_small, dtoi-print_small}
use shield_core.Net.Addr.{octet, print_ipv4}
use shield_core.Net.Addr.RoundTrip.{parse_ipv4-print_ipv4}
use shield_core.Net.Lpm.{
  v4, to4, first_mark, split_slash, mask_to, swap32, LpmTrieKey, ok, htons, ntohs, format_lpm_key,
  parse_ip, parse_net, parse_cidr,
}

pub ntohs-htons : (val : ℕ) → val < 2 ^ 16 → ntohs (htons val) ≡ val
unfolding ntohs htons
ntohs-htons val h = omega arith

pub swap32_involutive : (a : ℕ) → a < 2 ^ 32 → swap32 (swap32 a) ≡ a
unfolding swap32
swap32_involutive a h = omega arith

pub swap32-lt : (a : ℕ) → swap32 a < 2 ^ 32
unfolding swap32
swap32-lt a = omega arith

-- What a printed address consists of.
abbrev IsPlain : ℕ → Type 0
IsPlain c = (c ≢ b'/') × (c ≢ b':') × (c ≢ b'%')

All-append : (xs ys : Text) → All IsPlain xs → All IsPlain ys → All IsPlain (xs ++ ys)
All-append [] ys hx hy = hy
All-append (x ∷ xs) ys hx hy = (hx.0, All-append xs ys hx.1 hy)

print_small-IsPlain : (n : ℕ) → n < 1000 → All IsPlain (print_small n)
unfolding print_small
print_small-IsPlain n h = elim (Bool-cases (ltb n 10)) [
  | inl e ↦ rw e (ground arith)
  | inr e ↦ elim (Bool-cases (ltb n 100)) [
    | inl f ↦ rw (e, f) (ground arith)
    | inr f ↦ rw (e, f) (ground arith)
  ]
]

dot-IsPlain : IsPlain b'.'
dot-IsPlain = omega arith

print_ipv4-IsPlain : (a : ℕ) → All IsPlain (print_ipv4 a)
unfolding print_ipv4
print_ipv4-IsPlain a =
    let o = λ (k : ℕ). print_small-IsPlain (octet a k) (omega arith) in
    All-append _ _ (o 3)
      (dot-IsPlain, All-append _ _ (o 2) (dot-IsPlain, All-append _ _ (o 1) (dot-IsPlain, o 0)))

split_slash-append : (t m : Text) → All IsPlain t → split_slash (t ++ (b'/' ∷ m)) ≡ some (t, m)
unfolding split_slash
split_slash-append [] m h = refl
split_slash-append (c ∷ cs) m h = ground (arith, split_slash-append cs m h.1)

split_slash-none : (t : Text) → All IsPlain t → split_slash t ≡ none
unfolding split_slash
split_slash-none [] h = refl
split_slash-none (c ∷ cs) h = ground (arith, split_slash-none cs h.1)

first_mark-append : (t m : Text) → All IsPlain t → first_mark (t ++ (b'.' ∷ m)) ≡ some b'.'
unfolding first_mark
first_mark-append [] m h = refl
first_mark-append (c ∷ cs) m h = ground (arith, first_mark-append cs m h.1)

-- Its first mark is a dot, so a printed address goes to the IPv4 reader, whatever follows it.
print_ipv4_mark : (a : ℕ) (m : Text) → first_mark (print_ipv4 a ++ m) ≡ some b'.'
unfolding print_ipv4
print_ipv4_mark a m =
    rw (append_assoc (print_small (octet a 3))) (
      first_mark-append (print_small (octet a 3)) _ (print_small-IsPlain (octet a 3) (omega arith)))

module _ (parse_ipv6 : Text → Option ℕ) where
  parse_ip-print_ipv4 : (a : ℕ) → a < 2 ^ 32 → parse_ip parse_ipv6 (print_ipv4 a) ≡ some (v4 a)
  unfolding parse_ip
  parse_ip-print_ipv4 a h =
      let mark : first_mark (print_ipv4 a) ≡ some b'.' =
        ap first_mark (sym (append-nil (print_ipv4 a))) ∙ print_ipv4_mark a [] in
      rw (parse_ip, mark, parse_ipv4-print_ipv4 a h)

  -- A block in text gives its address and length back.
  parse_net_block :
      (a n : ℕ)
      → a < 2 ^ 32
      → n ≤ 32
      → parse_net parse_ipv6 (print_ipv4 a ++ (b'/' ∷ print_small n))
        ≡ some (v4 (mask_to 32 n a), n)
  unfolding parse_net
  parse_net_block a n h k =
      let lt : ltb 32 n ≡ false = ground arith in
      rw (
        parse_net,
        split_slash-append (print_ipv4 a) (print_small n) (print_ipv4-IsPlain a),
        parse_ip-print_ipv4 a h,
        dtoi-print_small n (omega arith),
        lt,
      )

  parse_cidr_block :
      (a n : ℕ)
      → a < 2 ^ 32
      → n ≤ 32
      → parse_cidr parse_ipv6 (print_ipv4 a ++ (b'/' ∷ print_small n))
        ≡ ok (record { prefix_len = n; bits = swap32 (mask_to 32 n a) })
  unfolding parse_cidr to4
  parse_cidr_block a n h k = rw (parse_cidr, parse_net_block a n h k)

  -- A bare address is no block, and becomes a host key.
  pub parse_cidr_host :
      (a : ℕ)
      → a < 2 ^ 32
      → parse_cidr parse_ipv6 (print_ipv4 a) ≡ ok (record { prefix_len = 32; bits = swap32 a })
  unfolding parse_cidr to4
  parse_cidr_host a h =
      let bare : parse_net parse_ipv6 (print_ipv4 a) ≡ none =
        unfold parse_net in
        rw (parse_net, split_slash-none (print_ipv4 a) (print_ipv4-IsPlain a)) in
      rw (parse_cidr, bare, parse_ip-print_ipv4 a h)

  -- A key whose bits behind the prefix are clear is what its own text parses to.
  pub parse_cidr-format_lpm_key :
      (key : LpmTrieKey)
      → key.prefix_len ≤ 32
      → key.bits < 2 ^ 32
      → mask_to 32 key.prefix_len (swap32 key.bits) ≡ swap32 key.bits
      → parse_cidr parse_ipv6 (format_lpm_key key) ≡ ok key
  unfolding format_lpm_key
  parse_cidr-format_lpm_key key p b m = elim (Bool-cases (key.prefix_len == 32)) [
    | inl e ↦ rw e (
        parse_cidr_host (swap32 key.bits) (swap32-lt key.bits)
        ∙ ground (arith, swap32_involutive key.bits b))
    | inr e ↦
        rw (e, print_u64_small key.prefix_len (omega arith))
          (parse_cidr_block (swap32 key.bits) key.prefix_len (swap32-lt key.bits) p
            ∙ ground (arith, swap32_involutive key.bits b))
  ]
