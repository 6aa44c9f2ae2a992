-- ===== src/Tests/Address.antt =====
-- Addresses and keys in text (src/control_plane/map_manager.go).
use shield_core.Prelude.{ℕ, ◌≡◌, refl, Option, none, some, Text, bytes, arith}
use shield_core.Net.Addr.{print_ipv4, parse_ipv4}
use shield_core.Net.Addr.RoundTrip.{parse_ipv4-print_ipv4}
use shield_core.Net.Lpm.{
  LpmTrieKey, ok, err, invalid, format_lpm_key, parse_cidr, swap32, first_mark, split_slash,
  parse_net, to4,
}
use shield_core.Net.Lpm.RoundTrip.{parse_cidr-format_lpm_key}
use shield_core.Net.Decimal.{dtoi, print_u64}

-- No IPv6 text is read.
abbrev no_ipv6 : Text → Option ℕ
no_ipv6 t = none

-- 10.1.2.0/24, its bytes read as little endian
abbrev ten : LpmTrieKey
ten = record { prefix_len = 24; bits = 0x0002010a }

ten_text : format_lpm_key ten ≡ bytes "10.1.2.0/24"
unfolding format_lpm_key print_ipv4 swap32 print_u64
ten_text = refl

host_bits_cleared : parse_cidr no_ipv6 (bytes "10.1.2.77/24") ≡ ok ten
unfolding parse_cidr parse_net split_slash first_mark parse_ipv4 dtoi to4 swap32
host_bits_cleared = refl

leading_zero_refused : parse_cidr no_ipv6 (bytes "10.01.2.0/24") ≡ err invalid
unfolding parse_cidr parse_net split_slash first_mark parse_ipv4 dtoi to4 swap32
leading_zero_refused = refl

long_prefix_refused : parse_cidr no_ipv6 (bytes "10.1.2.0/33") ≡ err invalid
unfolding parse_cidr parse_net split_slash first_mark parse_ipv4 dtoi to4 swap32
long_prefix_refused = refl

parse_cidr-format_lpm_key_example : parse_cidr no_ipv6 (format_lpm_key ten) ≡ ok ten
unfolding swap32
parse_cidr-format_lpm_key_example =
    parse_cidr-format_lpm_key no_ipv6 ten (omega arith) (omega arith) refl

parse_ipv4-print_ipv4_example : parse_ipv4 (print_ipv4 0x7f000001) ≡ some 0x7f000001
parse_ipv4-print_ipv4_example = parse_ipv4-print_ipv4 0x7f000001 (omega arith)
