-- ===== src/Tests/Startup.antt =====
-- Starts of the daemon and what it exports (src/control_plane/main.go, loader.go).
use shield_core.Prelude.{
  map, ℕ, ◌≡◌, ◌≢◌, ◌⊎◌, refl, Bool, true, false, none, some, [], ◌∷◌, Text, bytes, ◌==◌,
  if◌then◌else◌,
}
use shield_core.Float.Fraction.{fraction}
use shield_core.Kernel.Table.{table-KeepsPut, nat_IsEq, small_kernel}
use shield_core.Wireguard.{Host}
use shield_core.Maps.{MapManager, Outcome}
use shield_core.Maps.Targets.{member}
use shield_core.Maps.Config.{get_geoip_policy, set_geoip_policy}
use shield_core.Strings.Utf8.{json_text}
use shield_core.Gate.{Config}
use shield_core.Server.{saved, json_state, rules_state_of, policy_or_zero}
use shield_core.Routes.Metrics.Gauges.{Gauges, metrics_page}
use shield_core.Routes.Metrics.Blocks.{kinds, are_distinct, is_grouped}
use shield_core.Routes.Metrics.Exposition.{metrics_page-format}
use shield_core.Startup.{Found, first_manager, start}
use shield_core.Startup.Loader.{
  Mode, driver, generic, LoadError, attach_failed, attached_in, failed, other, shield, Datapath,
  Machinery, load_xdp_program,
}
use shield_core.Startup.Attach.{IsAttached, Stops, load_xdp_program_lem}
use shield_core.Startup.Certificate.{CertFiles, Generation}
use shield_core.Startup.Privileges.{Process, lifetime, drop_privileges, finish}
use shield_core.Startup.Restored.{start_restores}
use shield_core.Tests.Sweeps.{no_ipv6, capacities}
use shield_core.Tests.Rules.{loaded, with_targets, running}
use shield_core.Tests.Cluster.{cluster, disk}

abbrev only_generic : Mode → Bool
only_generic driver = false
only_generic generic = true

abbrev pub machinery : Machinery
machinery = record {
  finds_link = true;
  reads_object = true;
  loads = true;
  detaches = true;
  attaches = only_generic;
  pins = λ path. true;
  removes = true;
}

abbrev pub occupied : Datapath
occupied = record { attached = some other; pinned = [] }

load_xdp_program_example :
    let (d', r) = load_xdp_program machinery occupied in
    ((mode : Mode) × (r ≡ attached_in mode) × IsAttached machinery d' mode)
    ⊎ ((why : LoadError) × (r ≡ failed why) × Stops machinery why × (d' ≡ occupied))
    ⊎ ((r ≡ failed attach_failed)
        × (machinery.attaches driver ≡ false)
        × (machinery.attaches generic ≡ false)
        × (d'.attached ≡ (if machinery.detaches then none else occupied.attached)))
load_xdp_program_example = load_xdp_program_lem machinery occupied

falls_back : (load_xdp_program machinery occupied).1 ≡ attached_in generic
unfolding load_xdp_program
falls_back = refl

abbrev pub full_disk : Generation
full_disk = record {
  pair = 1;
  makes_key = true;
  makes_serial = true;
  makes_cert = true;
  opens_cert = true;
  writes_cert = true;
  opens_key = true;
  marshals_key = true;
  writes_key = false;
}

abbrev no_files : CertFiles
no_files = record { cert = none; key = none }

abbrev pub config : Config
config = record {
  asn_db_path = bytes "asn.mmdb";
  country_db_path = bytes "country.mmdb";
  key = bytes "k";
  listen = bytes ":9090";
}

abbrev found_files : Found small_kernel
found_files = record {
  maps = loaded;
  reputation = some (record { cidr = bytes "7.7.7.0/24"; score = 90; description = [] } ∷ []);
  nodes = none;
  state_file = saved (json_state (rules_state_of small_kernel with_targets));
  can_save = true;
  disk = disk;
}

start_restores_example :
    let s = (start small_kernel no_ipv6 7000 config (attached_in driver) found_files cluster).0 in
    (m' : MapManager small_kernel) × (s.map_mgr ≡ some m')
    × ((t : Text)
        → member t m'.blacklist_targets ≡ member t (map json_text with_targets.blacklist_targets))
    × ((t : Text)
        → member t m'.whitelist_targets ≡ member t (map json_text with_targets.whitelist_targets))
    × ((get_geoip_policy small_kernel m'
          ≡ Outcome.ok (policy_or_zero small_kernel (get_geoip_policy small_kernel with_targets)))
        ⊎ ((set_geoip_policy small_kernel
              (first_manager small_kernel no_ipv6 7000 found_files)
              (policy_or_zero small_kernel (get_geoip_policy small_kernel with_targets))).1
            ≢ none))
start_restores_example =
    start_restores small_kernel (table-KeepsPut ◌==◌ nat_IsEq 8) no_ipv6 7000 config driver
      found_files cluster with_targets refl

abbrev bare_host : Host
bare_host = record { commands = []; wg_conf = none; can_write = true }

abbrev zero : fraction.Carrier
zero = fraction.lit 0 1

abbrev gauges : Gauges fraction
gauges = record {
  mitigation_level = zero;
  cpu_usage = zero;
  ram_usage = zero;
  map_usage = zero;
  queue_drop_ratio = zero;
  rx_ring_pressure = zero;
  tx_ring_pressure = zero;
  fill_ring_pressure = zero;
  completion_ring_pressure = zero;
  scan_budget = zero;
  survival_activations = 0;
}

abbrev print_zero : fraction.Carrier → Text
print_zero x = bytes "0.00"

metrics_page-format_example :
    let lines =
      metrics_page fraction print_zero print_zero small_kernel capacities running gauges in
    (are_distinct (kinds lines) ≡ true) × (is_grouped none lines ≡ true)
metrics_page-format_example =
    metrics_page-format fraction print_zero small_kernel capacities print_zero running gauges

abbrev pub by_user : ℕ → Machinery
by_user uid = record machinery { detaches = uid == 0 }

abbrev pub root : Process
root = record { uid = 0; gid = 0 }

stays_attached : (lifetime by_user true true root occupied).attached ≡ some (shield generic)
unfolding lifetime load_xdp_program drop_privileges finish
stays_attached = refl

abbrev fast_path_blacklist : Text
fast_path_blacklist = bytes "/sys/fs/bpf/shield_core/ip_blacklist_map"
