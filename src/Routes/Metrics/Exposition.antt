-- ===== src/Routes/Metrics/Exposition.antt =====
-- The text of /metrics keeps to the exposition format (src/control_plane/main.go:
-- handlePrometheusMetrics; src/control_plane/metrics.go).
use shield_core.Prelude.{
  ℕ, ◌≡◌, refl, true, Option, none, some, List, [], ◌∷◌, ◌++◌, Text, bytes, text_eq, arith,
  Option-cases, inl, inr,
}
use shield_core.Float.{Float64}
use shield_core.Kernel.{Kernel, VipStatsVal}
use shield_core.Maps.{MapManager, MapError, Outcome, ok, err}
use shield_core.Maps.Cidr.{get_blacklist_count}
use shield_core.Maps.Health.{MapHealthInfo, get_map_health, get_stats, get_vip_stats}
use shield_core.Geoip.{GeoIpManager}
use shield_core.Server.{Server}
use shield_core.Routes.Metrics.Gauges.{Gauges, gauge, gauge_lines, metrics_page}
use shield_core.Routes.Metrics.{
  Line, heading, single, packet_lines, vip_lines, geoip_lines, usage_samples, capacity_samples,
  map_lines, traffic_lines, database_lines, health_lines, handle_prometheus_metrics,
}
use shield_core.Routes.Metrics.Blocks.{
  kinds, are_distinct, is_grouped, gauge_kinds, IsBlock, kinds-append, grouped-append,
  append-IsBlock, packet_lines-IsBlock, vip_lines-IsBlock, geoip_lines-IsBlock, vip_samples-kinds,
}

module _ (F : Float64) (print_pct : F.Carrier → Text) where
  usage_samples-grouped :
      (hs : List (MapHealthInfo F))
      → (is_grouped (some (bytes "shield_core_map_usage_percent")) (usage_samples F print_pct hs)
          ≡ true)
        × (kinds (usage_samples F print_pct hs) ≡ [])
  unfolding usage_samples text_eq
  usage_samples-grouped [] = (refl, refl)
  usage_samples-grouped (h ∷ hs) = elim (Option-cases h.entries) [
    | inl e ↦ rw e (usage_samples-grouped hs)
    | inr (n, e) ↦ rw e (usage_samples-grouped hs)
  ]

  capacity_samples-grouped :
      (hs : List (MapHealthInfo F))
      → (is_grouped (some (bytes "shield_core_map_max_entries")) (capacity_samples F print_pct hs)
          ≡ true)
        × (kinds (capacity_samples F print_pct hs) ≡ [])
  unfolding capacity_samples text_eq
  capacity_samples-grouped [] = (refl, refl)
  capacity_samples-grouped (h ∷ hs) = capacity_samples-grouped hs

  map_lines-IsBlock : (n : ℕ) (hs : List (MapHealthInfo F)) → IsBlock (map_lines F print_pct n hs)
  unfolding map_lines heading single text_eq
  map_lines-IsBlock n hs current =
      grouped-append (usage_samples F print_pct hs) _ (some (bytes "shield_core_map_usage_percent"))
        (usage_samples-grouped hs).0 (λ other. (capacity_samples-grouped hs).0)

  map_lines-kinds :
      (n : ℕ) (hs : List (MapHealthInfo F))
      → kinds (map_lines F print_pct n hs)
        ≡ bytes "shield_core_blacklist_entries"
          ∷ bytes "shield_core_map_usage_percent"
          ∷ bytes "shield_core_map_max_entries"
          ∷ []
  unfolding map_lines heading single
  map_lines-kinds n hs = ground (
    arith,
    kinds-append (usage_samples F print_pct hs) (
        heading (bytes "shield_core_map_max_entries") (bytes "gauge")
        ++ capacity_samples F print_pct hs),
    (usage_samples-grouped hs).1,
    (capacity_samples-grouped hs).1,
  )

  kinds_four :
      (a b c d : List Line)
      → kinds ((a ++ b) ++ (c ++ d)) ≡ (kinds a ++ kinds b) ++ (kinds c ++ kinds d)
  kinds_four a b c d = rw (kinds-append (a ++ b) (c ++ d), kinds-append a b, kinds-append c d) refl

  vip_lines-kinds :
      (l : List (Text × VipStatsVal))
      → kinds (vip_lines (l, none)) ≡ bytes "shield_core_vip_packets_total" ∷ []
  unfolding vip_lines heading
  vip_lines-kinds l = rw (vip_samples-kinds l) refl

  module _ (K : Kernel) (info : Text → Option ℕ) where
    traffic_lines-IsBlock : (m : Option (MapManager K)) → IsBlock (traffic_lines K m)
    unfolding traffic_lines
    traffic_lines-IsBlock none current = refl
    traffic_lines-IsBlock (some m) current =
        append-IsBlock (packet_lines (get_stats K m)) (vip_lines (get_vip_stats K m))
          (packet_lines-IsBlock (get_stats K m)) (vip_lines-IsBlock (get_vip_stats K m)) current

    database_lines-IsBlock : (g : Option GeoIpManager) → IsBlock (database_lines g)
    unfolding database_lines
    database_lines-IsBlock none current = refl
    database_lines-IsBlock (some g) current = geoip_lines-IsBlock g current

    health_lines-IsBlock : (m : Option (MapManager K)) → IsBlock (health_lines F print_pct K info m)
    unfolding health_lines
    health_lines-IsBlock none current = refl
    health_lines-IsBlock (some m) current =
        map_lines-IsBlock (get_blacklist_count K m) (get_map_health F K info m) current

    distinct_kinds :
        (o : Outcome (ℕ × ℕ)) (v : List (Text × VipStatsVal) × Option MapError)
        (g : Option GeoIpManager)
        → are_distinct (
            ((kinds (packet_lines o) ++ kinds (vip_lines v))
              ++ (kinds (database_lines g)
                  ++ bytes "shield_core_blacklist_entries"
                    ∷ bytes "shield_core_map_usage_percent"
                    ∷ bytes "shield_core_map_max_entries"
                    ∷ []))
            ++ gauge_kinds)
          ≡ true
    unfolding packet_lines vip_lines database_lines geoip_lines single heading text_eq
    distinct_kinds (err x) (l, some e) none = refl
    distinct_kinds (err x) (l, some e) (some g) = refl
    distinct_kinds (err x) (l, none) none = rw (vip_samples-kinds l) refl
    distinct_kinds (err x) (l, none) (some g) = rw (vip_samples-kinds l) refl
    distinct_kinds (ok (p, d)) (l, some e) none = refl
    distinct_kinds (ok (p, d)) (l, some e) (some g) = refl
    distinct_kinds (ok (p, d)) (l, none) none = rw (vip_samples-kinds l) refl
    distinct_kinds (ok (p, d)) (l, none) (some g) = rw (vip_samples-kinds l) refl

    lines-distinct :
        (m : Option (MapManager K)) (g : Option GeoIpManager)
        → are_distinct (
            kinds (traffic_lines K m ++ (database_lines g ++ health_lines F print_pct K info m))
            ++ gauge_kinds)
          ≡ true
    unfolding traffic_lines health_lines
    lines-distinct none none = unfold database_lines text_eq in refl
    lines-distinct none (some g) = unfold database_lines geoip_lines single heading text_eq in refl
    lines-distinct (some m) g =
        rw
          (
            kinds_four (packet_lines (get_stats K m)) (vip_lines (get_vip_stats K m))
                (database_lines g)
                (map_lines F print_pct (get_blacklist_count K m) (get_map_health F K info m)),
            map_lines-kinds (get_blacklist_count K m) (get_map_health F K info m),
          )
          (distinct_kinds (get_stats K m) (get_vip_stats K m) g)

    server_lines-IsBlock : (s : Server K) → IsBlock (handle_prometheus_metrics F print_pct K info s)
    unfolding handle_prometheus_metrics
    server_lines-IsBlock s =
        let databases = database_lines s.geoip_mgr in
        let maps = health_lines F print_pct K info s.map_mgr in
        append-IsBlock (traffic_lines K s.map_mgr) (databases ++ maps)
          (traffic_lines-IsBlock s.map_mgr)
          (append-IsBlock databases maps (database_lines-IsBlock s.geoip_mgr)
            (health_lines-IsBlock s.map_mgr))

    gauge_lines-IsBlock :
        (print : F.Carrier → Text) (g : Gauges F) → IsBlock (gauge_lines F print g)
    unfolding gauge_lines gauge single heading text_eq
    gauge_lines-IsBlock print g current = refl

    gauge_lines-kinds :
        (print : F.Carrier → Text) (g : Gauges F) → kinds (gauge_lines F print g) ≡ gauge_kinds
    unfolding gauge_lines gauge single heading
    gauge_lines-kinds print g = refl

    -- The lines of the program's own metrics on /metrics, as a client reads them that does not
    -- accept gzip, keep to the exposition format, whatever the state of the server and the gauges:
    -- no metric is given its kind twice, and every sample is one of the metric whose kind was given
    -- last.
    pub metrics_page-format :
        (print : F.Carrier → Text) (s : Server K) (g : Gauges F)
        → let lines = metrics_page F print_pct print K info s g in
          (are_distinct (kinds lines) ≡ true) × (is_grouped none lines ≡ true)
    unfolding metrics_page handle_prometheus_metrics
    metrics_page-format print s g =
        let served = handle_prometheus_metrics F print_pct K info s in
        let gauges = gauge_lines F print g in
        (
          rw (kinds-append served gauges, gauge_lines-kinds print g)
              (lines-distinct s.map_mgr s.geoip_mgr),
          append-IsBlock served gauges (server_lines-IsBlock s) (gauge_lines-IsBlock print g) none,
        )
