-- ===== src/Maps/Health.antt =====
-- Map health, ring pressure and packet totals (src/control_plane/map_manager.go: GetMapHealth,
-- GetRingStats, GetVipStats, GetStats; src/control_plane/main.go, startAutoMitigation, "Map Health Awareness"
-- and "Ring Pressure Awareness").
pub mod Usage
use shield_core.Prelude.{
  ℕ, ◌+◌, Bool, true, false, ◌&&◌, ◌||◌, Option, none, some, List, [], ◌∷◌, Text, bytes, text_eq,
  length, ltb, if◌then◌else◌,
}
use shield_core.Float.{Float64}
use shield_core.Net.Addr.{print_ipv4}
use shield_core.Net.Lpm.{swap32}
use shield_core.Kernel.{Kernel, RingStatsVal, VipStatsVal}
use shield_core.Maps.{MapManager, MapError, not_loaded, lookup_failed, Outcome, ok, err}
use shield_core.Maps.Cidr.{iterate_error}
use shield_core.Maps.Scan.{u64}

module _ (F : Float64) where
  -- `entries` is `none` where the source has -1, for a map that is not counted.
  pub record MapHealthInfo : Type 0 where
    pub name : Text
    pub entries : Option ℕ
    pub max_entries : ℕ
    pub usage_pct : F.Carrier

  unfoldable pub usage : Option ℕ → ℕ → F.Carrier
  usage none max_entries = F.lit 0 1
  usage (some count) max_entries =
      if ltb 0 max_entries
      then F.mul (F.div (F.of_u64 count) (F.of_u64 max_entries)) (F.lit 100 1)
      else F.lit 0 1

-- The maps that are asked, in order.
abbrev pub health_names : List Text
health_names =
    bytes "cidr_blacklist_map"
    ∷ bytes "cidr_whitelist_map"
    ∷ bytes "ip_stats_map"
    ∷ bytes "backend_map"
    ∷ bytes "stats_map"
    ∷ bytes "a2s_info"
    ∷ bytes "vip_stats_map"
    ∷ []

-- `info` is what `Info` says of a map's capacity, `none` where there is no map or an error.
module _ (F : Float64) (K : Kernel) (info : Text → Option ℕ) where
  -- Two maps are counted by iterating over them.
  unfoldable pub health_count : MapManager K → Text → Option ℕ
  health_count m name =
      if text_eq name (bytes "cidr_blacklist_map")
      then some (length (K.lpm.iterate m.cidr_blacklist).0)
      else if text_eq name (bytes "backend_map")
      then some (length (K.backend.iterate m.backend_map).0)
      else none

  unfoldable pub health_of : MapManager K → List Text → List (MapHealthInfo F)
  unfolding health_count usage
  health_of m [] = []
  health_of m (name ∷ names) =
      let rest = health_of m names in
      elim (info name) [
        | none ↦ rest
        | some max_entries ↦
            record {
              name = name;
              entries = health_count m name;
              max_entries = max_entries;
              usage_pct = usage F (health_count m name) max_entries;
            }
            ∷ rest
      ]

  unfoldable pub get_map_health : MapManager K → List (MapHealthInfo F)
  unfolding health_of
  get_map_health m = health_of m health_names

module _ (F : Float64) where
  -- The highest usage among the maps that the loop looks at, from 0.0 up.
  unfoldable pub max_usage_from : F.Carrier → List (MapHealthInfo F) → F.Carrier
  max_usage_from acc [] = acc
  max_usage_from acc (h ∷ healths) =
      max_usage_from
        (if (text_eq h.name (bytes "ip_stats_map") || text_eq h.name (bytes "ip_blacklist_map"))
            && F.flt acc h.usage_pct
          then h.usage_pct
          else acc)
        healths

  unfoldable pub max_map_usage_of : List (MapHealthInfo F) → F.Carrier
  unfolding max_usage_from
  max_map_usage_of healths = max_usage_from (F.lit 0 1) healths

module _ (K : Kernel) where
  unfoldable pub get_ring_stats : MapManager K → Outcome RingStatsVal
  get_ring_stats m = elim m.ring_stats_map [
    | none ↦ err not_loaded
    | some s ↦ elim (K.ring_stats.lookup 0 s) [ none ↦ err lookup_failed | some val ↦ ok val ]
  ]

  -- A Go map from the texts of addresses, the newest value first.
  vip_entries : List (ℕ × VipStatsVal) → List (Text × VipStatsVal) → List (Text × VipStatsVal)
  vip_entries [] res = res
  vip_entries (p ∷ l) res = vip_entries l ((print_ipv4 (swap32 p.0), p.1) ∷ res)

  unfoldable pub get_vip_stats : MapManager K → List (Text × VipStatsVal) × Option MapError
  unfolding vip_entries iterate_error
  get_vip_stats m = elim m.vip_stats [
    | none ↦ ([], none)
    | some s ↦ let (l, done) = K.vip_stats.iterate s in (vip_entries l [], iterate_error K done)
  ]

  -- Sums over the processors, which wrap.
  sum_u64 : ℕ → List ℕ → ℕ
  sum_u64 acc [] = acc
  sum_u64 acc (v ∷ vals) = sum_u64 (u64 (acc + v)) vals

  unfoldable pub get_stats : MapManager K → Outcome (ℕ × ℕ)
  unfolding sum_u64
  get_stats m = elim (K.stats.lookup 0 m.stats_map) [
    | none ↦ err lookup_failed
    | some pass_values ↦ elim (K.stats.lookup 1 m.stats_map) [
      | none ↦ err lookup_failed
      | some drop_values ↦ ok (sum_u64 0 pass_values, sum_u64 0 drop_values)
    ]
  ]

-- `if pct > max { max = pct }`
abbrev pub max_u32 : ℕ → ℕ → ℕ
max_u32 max pct = if ltb max pct then pct else max

-- The fullest of the four rings, and 0 where they cannot be read.
unfoldable pub max_ring_pct_of : Outcome RingStatsVal → ℕ
max_ring_pct_of (err e) = 0
max_ring_pct_of (ok r) =
    max_u32 (max_u32 (max_u32 (max_u32 0 r.rx_fill_pct) r.tx_fill_pct) r.fill_ring_pct)
      r.completion_ring_pct
