-- ===== src/Routes/Metrics.antt =====
-- The text of /metrics (src/control_plane/main.go: handlePrometheusMetrics), as its lines, before
-- what the Prometheus client adds.
pub mod Gauges
pub mod Blocks
pub mod Exposition
use shield_core.Prelude.{
  ℕ, ◌+◌, Bool, true, false, Option, none, some, List, [], ◌∷◌, ◌++◌, Text, bytes, length,
  if◌then◌else◌,
}
use shield_core.Net.Decimal.{print_u64}
use shield_core.Float.{Float64}
use shield_core.Kernel.{Kernel, VipStatsVal}
use shield_core.Maps.{MapManager, MapError, Outcome, ok, err}
use shield_core.Maps.Cidr.{get_blacklist_count}
use shield_core.Maps.Health.{MapHealthInfo, get_map_health, get_stats, get_vip_stats}
use shield_core.Geoip.{GeoIpManager}
use shield_core.Server.{Server}

-- A line: what a metric is for (the text is left out), its kind, or a sample with its labels.
pub data Line : Type 0 where
  help : Text → Line
  kind : Text → Text → Line
  sample : Text → List (Text × Text) → Text → Line

unfoldable pub heading : Text → Text → List Line
heading name of_kind = help name ∷ kind name of_kind ∷ []

-- A metric with one sample.
unfoldable pub single : Text → Text → ℕ → List Line
unfolding heading
single name of_kind value = heading name of_kind ++ sample name [] (print_u64 value) ∷ []

unfoldable pub packet_lines : Outcome (ℕ × ℕ) → List Line
unfolding single
packet_lines (err e) = []
packet_lines (ok (pass, drop)) =
    single (bytes "shield_core_packets_passed_total") (bytes "counter") pass
    ++ single (bytes "shield_core_packets_dropped_total") (bytes "counter") drop

unfoldable pub vip_samples : List (Text × VipStatsVal) → List Line
vip_samples [] = []
vip_samples ((vip, s) ∷ l) =
    let name = bytes "shield_core_vip_packets_total" in
    let label : Text × Text = (bytes "vip", vip) in
    sample name (label ∷ (bytes "action", bytes "pass") ∷ []) (print_u64 s.passed)
    ∷ sample name (label ∷ (bytes "action", bytes "drop") ∷ []) (print_u64 s.dropped)
    ∷ vip_samples l

unfoldable pub vip_lines : List (Text × VipStatsVal) × Option MapError → List Line
unfolding vip_samples heading
vip_lines (l, some e) = []
vip_lines (l, none) =
    heading (bytes "shield_core_vip_packets_total") (bytes "counter") ++ vip_samples l

abbrev pub cache_size : {Key : Type 0} → Option (List (Key × List Text)) → ℕ
cache_size none = 0
cache_size (some l) = length l

unfoldable pub geoip_lines : GeoIpManager → List Line
unfolding single
geoip_lines g =
    let gauge = bytes "gauge" in
    let counter = bytes "counter" in
    single (bytes "shield_core_geoip_asn_loaded") gauge (if g.asn.loaded then 1 else 0)
    ++ (single (bytes "shield_core_geoip_country_loaded") gauge (if g.country.loaded then 1 else 0)
        ++ (single (bytes "shield_core_geoip_asn_size_bytes") gauge g.asn.size
            ++ (single (bytes "shield_core_geoip_country_size_bytes") gauge g.country.size
                ++ (single (bytes "shield_core_geoip_cache_entries_total") gauge
                      (cache_size g.asn.cache + cache_size g.country.cache)
                    ++ (single (bytes "shield_core_geoip_cache_hits_total") counter g.cache_hits
                        ++ single (bytes "shield_core_geoip_cache_misses_total") counter
                            g.cache_misses)))))

unfoldable pub database_lines : Option GeoIpManager → List Line
unfolding geoip_lines
database_lines none = []
database_lines (some g) = geoip_lines g

unfoldable pub traffic_lines : (K : Kernel) → Option (MapManager K) → List Line
unfolding packet_lines vip_lines
traffic_lines K none = []
traffic_lines K (some m) = packet_lines (get_stats K m) ++ vip_lines (get_vip_stats K m)

-- `print_pct` is the format `%.2f`.
module _ (F : Float64) (print_pct : F.Carrier → Text) where
  -- A map that is not counted has no usage.
  unfoldable pub usage_samples : List (MapHealthInfo F) → List Line
  usage_samples [] = []
  usage_samples (h ∷ hs) =
      let rest = usage_samples hs in
      elim h.entries [
        | none ↦ rest
        | some n ↦
            sample (bytes "shield_core_map_usage_percent") ((bytes "map", h.name) ∷ [])
              (print_pct h.usage_pct)
            ∷ rest
      ]

  unfoldable pub capacity_samples : List (MapHealthInfo F) → List Line
  capacity_samples [] = []
  capacity_samples (h ∷ hs) =
      sample (bytes "shield_core_map_max_entries") ((bytes "map", h.name) ∷ [])
        (print_u64 h.max_entries)
      ∷ capacity_samples hs

  unfoldable pub map_lines : ℕ → List (MapHealthInfo F) → List Line
  unfolding single heading usage_samples capacity_samples
  map_lines blacklist_count healths =
      let gauge = bytes "gauge" in
      single (bytes "shield_core_blacklist_entries") gauge blacklist_count
      ++ (heading (bytes "shield_core_map_usage_percent") gauge
          ++ (usage_samples healths
              ++ (heading (bytes "shield_core_map_max_entries") gauge ++ capacity_samples healths)))

  module _ (K : Kernel) (info : Text → Option ℕ) where
    unfoldable pub health_lines : Option (MapManager K) → List Line
    unfolding map_lines
    health_lines none = []
    health_lines (some m) = map_lines (get_blacklist_count K m) (get_map_health F K info m)

    unfoldable pub handle_prometheus_metrics : Server K → List Line
    unfolding traffic_lines database_lines health_lines
    handle_prometheus_metrics s =
        traffic_lines K s.map_mgr ++ (database_lines s.geoip_mgr ++ health_lines s.map_mgr)
