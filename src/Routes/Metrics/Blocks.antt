-- ===== src/Routes/Metrics/Blocks.antt =====
-- When lines keep to the exposition format, and those that do not depend on the health of the
-- maps (src/control_plane/main.go: handlePrometheusMetrics).
use shield_core.Prelude.{
  ℕ, ◌≡◌, refl, Bool, true, false, ◌&&◌, ◌||◌, not, Option, none, some, List, [], ◌∷◌, ◌++◌, Text,
  bytes, text_eq, arith,
}
use shield_core.Kernel.{VipStatsVal}
use shield_core.Maps.{MapError, Outcome, ok, err}
use shield_core.Geoip.{GeoIpManager}
use shield_core.Routes.Metrics.{
  Line, help, kind, sample, heading, single, packet_lines, vip_samples, vip_lines, geoip_lines,
}

-- The metrics that are given a kind, in order.
abbrev pub kinds : List Line → List Text
kinds [] = []
kinds (help name ∷ ls) = kinds ls
kinds (kind name of_kind ∷ ls) = name ∷ kinds ls
kinds (sample name labels value ∷ ls) = kinds ls

abbrev pub has_text : Text → List Text → Bool
has_text t [] = false
has_text t (u ∷ us) = text_eq u t || has_text t us

abbrev pub are_distinct : List Text → Bool
are_distinct [] = true
are_distinct (t ∷ ts) = not (has_text t ts) && are_distinct ts

abbrev pub is_of : Option Text → Text → Bool
is_of none name = false
is_of (some current) name = text_eq current name

-- Every sample is one of the metric whose kind was given last.
abbrev pub is_grouped : Option Text → List Line → Bool
is_grouped current [] = true
is_grouped current (help name ∷ ls) = is_grouped current ls
is_grouped current (kind name of_kind ∷ ls) = is_grouped (some name) ls
is_grouped current (sample name labels value ∷ ls) = is_of current name && is_grouped current ls

pub kinds-append : (xs ys : List Line) → kinds (xs ++ ys) ≡ kinds xs ++ kinds ys
kinds-append [] ys = refl
kinds-append (help name ∷ xs) ys = kinds-append xs ys
kinds-append (kind name of_kind ∷ xs) ys = rw (kinds-append xs ys) refl
kinds-append (sample name labels value ∷ xs) ys = kinds-append xs ys

-- The gauges and the counter of metrics.go.
abbrev pub gauge_kinds : List Text
gauge_kinds =
    bytes "shield_mitigation_level"
    ∷ bytes "shield_cpu_usage"
    ∷ bytes "shield_ram_usage"
    ∷ bytes "shield_map_usage"
    ∷ bytes "shield_queue_drop_ratio"
    ∷ bytes "shield_rx_ring_pressure"
    ∷ bytes "shield_tx_ring_pressure"
    ∷ bytes "shield_fill_ring_pressure"
    ∷ bytes "shield_completion_ring_pressure"
    ∷ bytes "shield_scan_budget"
    ∷ bytes "shield_survival_activations"
    ∷ []

-- Lines that are grouped whatever was before them.
abbrev pub IsBlock : List Line → Type 0
IsBlock ls = (current : Option Text) → is_grouped current ls ≡ true

pub grouped-append :
    (xs ys : List Line) (current : Option Text)
    → is_grouped current xs ≡ true
    → IsBlock ys
    → is_grouped current (xs ++ ys) ≡ true
grouped-append [] ys current h g = g current
grouped-append (help name ∷ xs) ys current h g = grouped-append xs ys current h g
grouped-append (kind name of_kind ∷ xs) ys current h g = grouped-append xs ys (some name) h g
grouped-append (sample name labels value ∷ xs) ys current h g =
    ground (arith, grouped-append xs ys current (ground arith) g)

pub append-IsBlock : (xs ys : List Line) → IsBlock xs → IsBlock ys → IsBlock (xs ++ ys)
append-IsBlock xs ys h g current = grouped-append xs ys current (h current) g

pub vip_samples-grouped :
    (l : List (Text × VipStatsVal))
    → is_grouped (some (bytes "shield_core_vip_packets_total")) (vip_samples l) ≡ true
unfolding vip_samples text_eq
vip_samples-grouped [] = refl
vip_samples-grouped ((vip, s) ∷ l) = vip_samples-grouped l

pub vip_samples-kinds : (l : List (Text × VipStatsVal)) → kinds (vip_samples l) ≡ []
unfolding vip_samples
vip_samples-kinds [] = refl
vip_samples-kinds ((vip, s) ∷ l) = vip_samples-kinds l

pub packet_lines-IsBlock : (o : Outcome (ℕ × ℕ)) → IsBlock (packet_lines o)
unfolding packet_lines single heading text_eq
packet_lines-IsBlock (err e) current = refl
packet_lines-IsBlock (ok (pass, drop)) current = refl

pub vip_lines-IsBlock : (l : List (Text × VipStatsVal) × Option MapError) → IsBlock (vip_lines l)
unfolding vip_lines heading
vip_lines-IsBlock (l, some e) current = refl
vip_lines-IsBlock (l, none) current = vip_samples-grouped l

pub geoip_lines-IsBlock : (g : GeoIpManager) → IsBlock (geoip_lines g)
unfolding geoip_lines single heading text_eq
geoip_lines-IsBlock g current = refl
