-- ===== src/Engine.antt =====
-- One cycle of the auto-mitigation engine (src/control_plane/main.go: cpuStats,
-- calculateCPUUsage, startAutoMitigation), which joins the readings, the state machine, the
-- limits, the two sweeps and what is told of them.
pub mod Usage
pub mod Cycles
pub mod Blocks
pub mod Rules
pub mod Saved
pub mod Limits
pub mod Released
use shield_core.Prelude.{
  ℕ, zero, suc, ◌+◌, ◌-◌, ◌^◌, Bool, true, false, Option, none, some, List, [], ◌∷◌, ◌++◌, Text,
  bytes, text_eq, ltb, leb, ◌==◌, if◌then◌else◌,
}
use shield_core.Float.{Float64}
use shield_core.Kernel.{Kernel}
use shield_core.Maps.{MapManager, MapError}
use shield_core.Maps.Targets.{remove_blacklist_target}
use shield_core.Maps.Config.{update_rate_limits}
use shield_core.Maps.Cidr.{get_blacklist_count}
use shield_core.Maps.Scan.{u64, age, scan_and_mitigate, clean_expired_blacklist}
use shield_core.Maps.Health.{get_map_health, max_map_usage_of, get_ring_stats, max_ring_pct_of}
use shield_core.Mitigation.Levels.{Readings, Assessment, assess}
use shield_core.Mitigation.Hysteresis.{Fsm, initial, fsm_step}
use shield_core.Mitigation.Policy.{limits, scan_budget, expiry_ttl}
use shield_core.Server.{Server, Event, mitigation, sync_ip, write_event, save_rules_state}

-- The counters of all processors, each uint64; the guest times are part of the others.
pub record CpuStats : Type 0 where
  pub user : ℕ
  pub nice : ℕ
  pub system : ℕ
  pub idle : ℕ
  pub iowait : ℕ
  pub irq : ℕ
  pub softirq : ℕ
  pub steal : ℕ
  pub guest : ℕ
  pub guestnice : ℕ

unfoldable pub idle_of : CpuStats → ℕ
idle_of c = u64 (c.idle + c.iowait)

unfoldable pub non_idle_of : CpuStats → ℕ
non_idle_of c = u64 (c.user + c.nice + c.system + c.irq + c.softirq + c.steal)

-- The busy time and the whole time between two readings; differences wrap.
unfoldable pub cpu_diffs : CpuStats → CpuStats → ℕ × ℕ
unfolding idle_of non_idle_of age
cpu_diffs prev curr =
    let prev_total = u64 (idle_of prev + non_idle_of prev) in
    let curr_total = u64 (idle_of curr + non_idle_of curr) in
    let total_diff = age curr_total prev_total in
    let idle_diff = age (idle_of curr) (idle_of prev) in (age total_diff idle_diff, total_diff)

module _ (F : Float64) where
  unfoldable pub calculate_cpu_usage : CpuStats → CpuStats → F.Carrier
  unfolding cpu_diffs
  calculate_cpu_usage prev curr =
      let (busy, total) = cpu_diffs prev curr in
      if total == 0 then F.lit 0 1 else F.mul (F.div (F.of_u64 busy) (F.of_u64 total)) (F.lit 100 1)

  -- The share of the packets that were dropped, of 100 packets or more.
  unfoldable pub drop_ratio : ℕ × ℕ → ℕ × ℕ → F.Carrier
  unfolding age
  drop_ratio prev curr =
      let delta_drops = age curr.0 prev.0 in
      let delta_pkts = age curr.1 prev.1 in
      let both = u64 (delta_drops + delta_pkts) in
      if leb 100 both then F.div (F.of_u64 delta_drops) (F.of_u64 both) else F.lit 0 1

  -- What the machine's files say in a cycle: none where they cannot be read. The queue counts
  -- dropped packets and packets.
  pub record Machine : Type 0 where
    pub cpu : Option CpuStats
    pub ram : Option F.Carrier
    pub queue : Option (ℕ × ℕ)

-- The variables of the loop.
pub record Engine : Type 0 where
  pub prev_cpu : CpuStats
  pub prev_queue : ℕ × ℕ  -- prevDrops and prevPkts
  pub warmup_cycles : ℕ
  pub fsm : Fsm

unfoldable pub or_else : {A : Type 0} → A → Option A → A
or_else a none = a
or_else a (some b) = b

unfoldable pub zero_cpu : CpuStats
zero_cpu = record {
  user = 0;
  nice = 0;
  system = 0;
  idle = 0;
  iowait = 0;
  irq = 0;
  softirq = 0;
  steal = 0;
  guest = 0;
  guestnice = 0;
}

-- The variables before the loop.
unfoldable pub start_engine : Option CpuStats → Option (ℕ × ℕ) → Engine
unfolding or_else zero_cpu initial
start_engine cpu queue = record {
  prev_cpu = or_else zero_cpu cpu;
  prev_queue = or_else (0, 0) queue;
  warmup_cycles = 3;
  fsm = initial;
}

module _ (F : Float64) (K : Kernel) (info : Text → Option ℕ) where
  unfoldable pub readings_of : Engine → Machine F → MapManager K → Readings F
  readings_of s machine m = record {
    cpu_percent = elim machine.cpu [
      | none ↦ F.lit 0 1
      | some c ↦ calculate_cpu_usage F s.prev_cpu c
    ];
    ram_percent = or_else (F.lit 0 1) machine.ram;
    queue_drop_ratio = elim machine.queue [
      | none ↦ F.lit 0 1
      | some q ↦ drop_ratio F s.prev_queue q
    ];
    max_map_usage = max_map_usage_of F (get_map_health F K info m);
    max_ring_pct = max_ring_pct_of (get_ring_stats K m);
  }

-- The variables after the readings and the state machine.
unfoldable pub advance : Option CpuStats → Option (ℕ × ℕ) → Assessment → Engine → Engine
advance cpu queue a s = record s {
  prev_cpu = or_else s.prev_cpu cpu;
  prev_queue = or_else s.prev_queue queue;
  fsm = fsm_step s.fsm a;
}

-- `strings.HasSuffix(ip, "/32")` and `TrimSuffix`: the text before the suffix.
unfoldable pub before_32 : Text → Option Text
before_32 [] = none
before_32 (c ∷ t) =
    let rest = before_32 t in
    if text_eq (c ∷ t) (bytes "/32")
    then some []
    else elim rest [ none ↦ none | some u ↦ some (c ∷ u) ]

module _ (K : Kernel) where
  unfoldable pub tell_blocked : ℕ → List Text → Server K → Server K
  tell_blocked pps [] w = w
  tell_blocked pps (ip ∷ ips) w =
      let told = write_event K (sync_ip (bytes "blacklist") (bytes "POST") ip) w in
      let line =
        mitigation (bytes "mitigation_block") ip (bytes "Traffic threshold exceeded") pps in
      tell_blocked pps ips (write_event K line told)

  unfoldable pub drop_target : Text → MapManager K → MapManager K
  drop_target ip m =
      let once = remove_blacklist_target K m ip in
      elim (before_32 ip) [ none ↦ once | some host ↦ remove_blacklist_target K once host ]

  unfoldable pub tell_expired : List Text → MapManager K → Server K → MapManager K × Server K
  tell_expired [] m w = (m, w)
  tell_expired (ip ∷ ips) m w =
      let line = mitigation (bytes "auto_unblock") ip (bytes "Blacklist TTL expired") 0 in
      let told = write_event K line w in
      tell_expired ips (drop_target ip m)
        (write_event K (sync_ip (bytes "blacklist") (bytes "DELETE") ip) told)

  -- What follows the clean-up: nothing on an error or where nothing expired.
  unfoldable pub after_clean : MapManager K → List Text → Option MapError → Server K → Server K
  after_clean m out (some e) w = record w { map_mgr = some m }
  after_clean m [] none w = record w { map_mgr = some m }
  after_clean m (ip ∷ ips) none w =
      let (m', w') = tell_expired (ip ∷ ips) m w in
      save_rules_state K (record w' { map_mgr = some m' })

  -- What follows the scan: an error ends the cycle.
  unfoldable pub after_scan :
      ℕ → ℕ → ℕ → MapManager K → List Text → Option MapError → Server K → Server K
  after_scan now level pps m out (some e) w = record w { map_mgr = some m }
  after_scan now level pps m out none w =
      let ttl = expiry_ttl level (get_blacklist_count K m) in
      let (m', expired, e) = clean_expired_blacklist K now ttl m in
      after_clean m' expired e (tell_blocked pps out w)

module _ (F : Float64) (K : Kernel) (info : Text → Option ℕ) (parse_ipv6 : Text → Option ℕ) where
  -- The part of a cycle that acts on the maps, at the level that the state machine has set.
  unfoldable pub enforce : ℕ → ℕ → F.Carrier → MapManager K → Server K → Server K
  enforce now level cpu_percent m w =
      let l = limits level in
      let m1 = (update_rate_limits K m l.pps_threshold l.bps_threshold).0 in
      let (m2, blocked, e) =
        scan_and_mitigate K parse_ipv6 now l.pps_threshold l.bps_threshold
          (scan_budget F level cpu_percent) m1 in
      after_scan K now level l.pps_threshold m2 blocked e w

  unfoldable pub cycle : ℕ → Machine F → Engine → MapManager K → Server K → Engine × Server K
  cycle now machine s m w =
      let r = readings_of F K info s machine m in
      let s' = advance machine.cpu machine.queue (assess F r) s in
      (s', enforce now s'.fsm.current_level r.cpu_percent m w)

  -- A tick: without a manager nothing, then the cycles of the warm-up, then whole cycles.
  unfoldable pub tick : ℕ → Machine F → Engine × Server K → Engine × Server K
  tick now machine (s, w) = elim w.map_mgr [
    | none ↦ (s, w)
    | some m ↦
        if ltb 0 s.warmup_cycles
        then (
          record s {
            warmup_cycles = s.warmup_cycles - 1;
            prev_queue = or_else s.prev_queue machine.queue;
          },
          w,
        )
        else cycle now machine s m w
  ]

  unfoldable pub run_ticks : List (ℕ × Machine F) → Engine × Server K → Engine × Server K
  run_ticks [] s = s
  run_ticks (t ∷ ts) s = run_ticks ts (tick t.0 t.1 s)
