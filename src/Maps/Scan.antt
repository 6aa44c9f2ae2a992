-- ===== src/Maps/Scan.antt =====
-- The two sweeps of the mitigation loop (src/control_plane/map_manager.go: ScanAndMitigate and
-- CleanExpiredBlacklist).
pub mod Expiry
pub mod Offenders
use shield_core.Prelude.{
  ℕ, zero, suc, ◌+◌, ◌-◌, ◌%◌, ◌^◌, Bool, true, false, ◌&&◌, ◌||◌, Option, none, some, List, [],
  ◌∷◌, ◌++◌, Text, ltb, leb, if◌then◌else◌, length,
}
use shield_core.Net.Addr.{print_ipv4}
use shield_core.Net.Lpm.{LpmTrieKey, swap32, format_lpm_key}
use shield_core.Kernel.{Kernel, StatVal, delete_or_keep}
use shield_core.Maps.{MapManager, MapError, iterate_failed}
use shield_core.Maps.Cidr.{block_cidr, iterate_error}

abbrev pub u64 : ℕ → ℕ
u64 n = n % 2 ^ 64

-- uint64 `now - val`
unfoldable pub age : ℕ → ℕ → ℕ
age now val = (now + 2 ^ 64 - val) % 2 ^ 64

-- The test of one entry: values 0 and 1 are marks from before blocks had a time.
unfoldable pub is_expired : ℕ → ℕ → ℕ → Bool
unfolding age
is_expired now ttl val = if leb val 1 then false else ltb ttl (age now val)

-- The sums over the processors' records, which wrap.
unfoldable pub total_pps : ℕ → List StatVal → ℕ
total_pps acc [] = acc
total_pps acc (v ∷ vals) = total_pps (u64 (acc + v.pps)) vals

unfoldable pub total_bps : ℕ → List StatVal → ℕ
total_bps acc [] = acc
total_bps acc (v ∷ vals) = total_bps (u64 (acc + v.bps)) vals

-- The test of one source.
unfoldable pub is_offender : ℕ → ℕ → List StatVal → Bool
unfolding total_pps total_bps
is_offender pps_threshold bps_threshold vals =
    ltb pps_threshold (total_pps 0 vals) || ltb bps_threshold (total_bps 0 vals)

module _ (K : Kernel) where
  -- One pass over the entries that the iteration yields. The error of `Delete` is dropped.
  unfoldable pub clean_loop :
      ℕ → ℕ → List (LpmTrieKey × ℕ) → MapManager K → MapManager K × List Text
  unfolding delete_or_keep is_expired
  clean_loop now ttl [] m = (m, [])
  clean_loop now ttl (p ∷ l) m =
      let m' =
        if is_expired now ttl p.1
        then record m { cidr_blacklist = delete_or_keep K.lpm p.0 m.cidr_blacklist }
        else m in
      let (m'', out) = clean_loop now ttl l m' in
      (m'', if is_expired now ttl p.1 then format_lpm_key p.0 ∷ out else out)

  unfoldable pub clean_expired_blacklist :
      ℕ → ℕ → MapManager K → MapManager K × List Text × Option MapError
  unfolding clean_loop iterate_error
  clean_expired_blacklist now ttl m =
      let (l, done) = K.lpm.iterate m.cidr_blacklist in
      let (m', out) = clean_loop now ttl l m in (m', out, iterate_error K done)

  -- A source over a threshold is blocked as a host; where that succeeds its record goes, and it
  -- is reported.
  unfoldable pub mitigate_blocked : ℕ → MapManager K × Option MapError → MapManager K × Option Text
  unfolding delete_or_keep
  mitigate_blocked key (m, some e) = (m, none)
  mitigate_blocked key (m, none) = (
    record m { ip_stats_map = delete_or_keep K.ip_stats key m.ip_stats_map },
    some (print_ipv4 (swap32 key)),
  )

module _ (K : Kernel) (parse_ipv6 : Text → Option ℕ) (now pps_threshold bps_threshold : ℕ) where
  unfoldable pub mitigate_one : ℕ → List StatVal → MapManager K → MapManager K × Option Text
  unfolding mitigate_blocked
  mitigate_one key vals m =
      if is_offender pps_threshold bps_threshold vals
      then mitigate_blocked K key (block_cidr K parse_ipv6 now m (print_ipv4 (swap32 key)))
      else (m, none)

  -- `count++; if scanLimit > 0 && count > scanLimit { break }`, and the body.
  unfoldable pub mitigate_loop :
      ℕ → ℕ → List (ℕ × List StatVal) → MapManager K → MapManager K × List Text
  mitigate_loop limit count [] m = (m, [])
  mitigate_loop limit count (p ∷ l) m =
      let (m', hit) = mitigate_one p.0 p.1 m in
      let (m'', out) = mitigate_loop limit (count + 1) l m' in
      if ltb 0 limit && ltb limit (count + 1)
      then (m, [])
      else (m'', elim hit [ none ↦ out | some ip ↦ ip ∷ out ])

  -- `Err` is nil where the loop left the iteration early.
  unfoldable pub scan_and_mitigate : ℕ → MapManager K → MapManager K × List Text × Option MapError
  unfolding mitigate_loop iterate_error
  scan_and_mitigate limit m =
      let (l, done) = K.ip_stats.iterate m.ip_stats_map in
      let (m', out) = mitigate_loop limit 0 l m in
      (m', out, if ltb 0 limit && ltb limit (length l) then none else iterate_error K done)
