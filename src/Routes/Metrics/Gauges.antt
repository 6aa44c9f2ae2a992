-- ===== src/Routes/Metrics/Gauges.antt =====
-- The gauges of the engine (src/control_plane/metrics.go; src/control_plane/main.go,
-- startAutoMitigation: where they are set), and the whole page of /metrics.
use shield_core.Prelude.{ℕ, Option, List, [], ◌∷◌, ◌++◌, Text, bytes}
use shield_core.Float.{Float64}
use shield_core.Kernel.{Kernel, RingStatsVal}
use shield_core.Maps.{MapManager, Outcome, ok, err}
use shield_core.Maps.Health.{get_ring_stats}
use shield_core.Mitigation.Levels.{assess}
use shield_core.Mitigation.Policy.{scan_budget}
use shield_core.Server.{Server}
use shield_core.Engine.{Machine, Engine, readings_of, advance}
use shield_core.Routes.Metrics.{Line, sample, heading, single, handle_prometheus_metrics}

module _ (F : Float64) where
  pub record Gauges : Type 0 where
    pub mitigation_level : F.Carrier
    pub cpu_usage : F.Carrier
    pub ram_usage : F.Carrier
    pub map_usage : F.Carrier
    pub queue_drop_ratio : F.Carrier
    pub rx_ring_pressure : F.Carrier
    pub tx_ring_pressure : F.Carrier
    pub fill_ring_pressure : F.Carrier
    pub completion_ring_pressure : F.Carrier
    pub scan_budget : F.Carrier
    pub survival_activations : ℕ

  -- The pressures of the rings, where they can be read.
  unfoldable pub set_rings : Outcome RingStatsVal → Gauges → Gauges
  set_rings (err e) g = g
  set_rings (ok r) g = record g {
    rx_ring_pressure = F.of_u64 r.rx_fill_pct;
    tx_ring_pressure = F.of_u64 r.tx_fill_pct;
    fill_ring_pressure = F.of_u64 r.fill_ring_pct;
    completion_ring_pressure = F.of_u64 r.completion_ring_pct;
  }

  -- The gauges behind a whole cycle of the engine, which starts with the variables s.
  unfoldable pub set_gauges :
      (K : Kernel) → (Text → Option ℕ) → Engine → Machine F → MapManager K → Gauges → Gauges
  unfolding set_rings
  set_gauges K info s machine m g =
      let r = readings_of F K info s machine m in
      let s' = advance machine.cpu machine.queue (assess F r) s in
      record (set_rings (get_ring_stats K m) g) {
        mitigation_level = F.of_u64 s'.fsm.current_level;
        cpu_usage = r.cpu_percent;
        ram_usage = r.ram_percent;
        map_usage = r.max_map_usage;
        queue_drop_ratio = r.queue_drop_ratio;
        scan_budget = F.of_u64 (scan_budget F s'.fsm.current_level r.cpu_percent);
        survival_activations = s'.fsm.survival_activations;
      }

  -- What the Prometheus client prints of them, with its text of a number.
  unfoldable pub gauge : (F.Carrier → Text) → Text → F.Carrier → List Line
  unfolding heading
  gauge print name value = heading name (bytes "gauge") ++ sample name [] (print value) ∷ []

  unfoldable pub gauge_lines : (F.Carrier → Text) → Gauges → List Line
  unfolding gauge single
  gauge_lines print g =
      gauge print (bytes "shield_mitigation_level") g.mitigation_level
      ++ (gauge print (bytes "shield_cpu_usage") g.cpu_usage
          ++ (gauge print (bytes "shield_ram_usage") g.ram_usage
              ++ (gauge print (bytes "shield_map_usage") g.map_usage
                  ++ (gauge print (bytes "shield_queue_drop_ratio") g.queue_drop_ratio
                      ++ (gauge print (bytes "shield_rx_ring_pressure") g.rx_ring_pressure
                          ++ (gauge print (bytes "shield_tx_ring_pressure") g.tx_ring_pressure
                              ++ (gauge print (bytes "shield_fill_ring_pressure")
                                    g.fill_ring_pressure
                                  ++ (gauge print (bytes "shield_completion_ring_pressure")
                                        g.completion_ring_pressure
                                      ++ (gauge print (bytes "shield_scan_budget") g.scan_budget
                                          ++ single (bytes "shield_survival_activations")
                                              (bytes "counter") g.survival_activations)))))))))

  -- The program's own metrics as a client reads them that does not accept gzip: those of
  -- handlePrometheusMetrics and, from promhttp.Handler, those of metrics.go.
  unfoldable pub metrics_page :
      (F.Carrier → Text)
      → (F.Carrier → Text)
      → (K : Kernel) → (Text → Option ℕ)
      → Server K
      → Gauges
      → List Line
  unfolding gauge_lines
  metrics_page print_pct print K info s g =
      handle_prometheus_metrics F print_pct K info s ++ gauge_lines print g
