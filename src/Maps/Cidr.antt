-- ===== src/Maps/Cidr.antt =====
-- The two CIDR tries (src/control_plane/map_manager.go: BlockCIDR, AllowCIDR,
-- AddWhitelistCIDR, RemoveWhitelistCIDR, GetWhitelistCIDRs, GetBlacklistCIDRs, GetBlacklistCount).
pub mod Laws
use shield_core.Prelude.{ℕ, Bool, true, false, Option, none, some, List, [], ◌∷◌, Text, map, length}
use shield_core.Net.Lpm.{LpmTrieKey, Parsed, AddrError, format_lpm_key, parse_cidr}
use shield_core.Net.Lpm
use shield_core.Kernel.{Kernel}
use shield_core.Maps.{MapManager, MapError, put_failed, delete_failed, iterate_failed, bad_address}

module _ (K : Kernel) (parse_ipv6 : Text → Option ℕ) where
  -- `Put` of a value under the key that the text stands for.
  unfoldable pub put_cidr : K.lpm.Store → Text → ℕ → K.lpm.Store × Option MapError
  put_cidr s cidr_str val = elim (parse_cidr parse_ipv6 cidr_str) [
    | Parsed.err e ↦ (s, some (bad_address e))
    | Parsed.ok key ↦ elim (K.lpm.put key val s) [
      | none ↦ (s, some put_failed)
      | some t ↦ (t, none)
    ]
  ]

  unfoldable pub delete_cidr : K.lpm.Store → Text → K.lpm.Store × Option MapError
  delete_cidr s cidr_str = elim (parse_cidr parse_ipv6 cidr_str) [
    | Parsed.err e ↦ (s, some (bad_address e))
    | Parsed.ok key ↦ elim (K.lpm.delete key s) [
      | none ↦ (s, some delete_failed)
      | some t ↦ (t, none)
    ]
  ]

  -- The value is the time of the block, in seconds.
  unfoldable pub block_cidr : ℕ → MapManager K → Text → MapManager K × Option MapError
  block_cidr now m cidr_str =
      let (t, e) = put_cidr m.cidr_blacklist cidr_str now in (record m { cidr_blacklist = t }, e)

  unfoldable pub allow_cidr : MapManager K → Text → MapManager K × Option MapError
  allow_cidr m cidr_str =
      let (t, e) = delete_cidr m.cidr_blacklist cidr_str in (record m { cidr_blacklist = t }, e)

  unfoldable pub add_whitelist_cidr : MapManager K → Text → MapManager K × Option MapError
  add_whitelist_cidr m cidr_str =
      let (t, e) = put_cidr m.cidr_whitelist cidr_str 1 in (record m { cidr_whitelist = t }, e)

  unfoldable pub remove_whitelist_cidr : MapManager K → Text → MapManager K × Option MapError
  remove_whitelist_cidr m cidr_str =
      let (t, e) = delete_cidr m.cidr_whitelist cidr_str in (record m { cidr_whitelist = t }, e)

module _ (K : Kernel) where
  unfoldable pub iterate_error : Bool → Option MapError
  iterate_error true = none
  iterate_error false = some iterate_failed

  format_all : List (LpmTrieKey × ℕ) → List Text
  format_all [] = []
  format_all (p ∷ l) = format_lpm_key p.0 ∷ format_all l

  -- The texts come back beside the error of the iteration.
  unfoldable pub get_whitelist_cidrs : MapManager K → List Text × Option MapError
  unfolding format_all iterate_error
  get_whitelist_cidrs m =
      let (l, done) = K.lpm.iterate m.cidr_whitelist in (format_all l, iterate_error done)

  unfoldable pub get_blacklist_cidrs : MapManager K → List Text × Option MapError
  unfolding format_all iterate_error
  get_blacklist_cidrs m =
      let (l, done) = K.lpm.iterate m.cidr_blacklist in (format_all l, iterate_error done)

  unfoldable pub get_blacklist_count : MapManager K → ℕ
  get_blacklist_count m = length (K.lpm.iterate m.cidr_blacklist).0
