-- ===== src/Engine/Usage.antt =====
-- What the processor figure counts (src/control_plane/main.go, calculateCPUUsage).
use shield_core.Prelude.{ℕ, ◌+◌, ◌-◌, ◌^◌, ◌≤◌, ◌<◌, ◌≡◌, ◌∙◌, arith}
use shield_core.Maps.Scan.{age, u64}
use shield_core.Engine.{CpuStats, idle_of, non_idle_of, cpu_diffs}

-- No counter that is used goes back, and their sum fits a uint64.
pub record IsLater (prev curr : CpuStats) : Type 0 where
  pub user_up : prev.user ≤ curr.user
  pub nice_up : prev.nice ≤ curr.nice
  pub system_up : prev.system ≤ curr.system
  pub idle_up : prev.idle ≤ curr.idle
  pub iowait_up : prev.iowait ≤ curr.iowait
  pub irq_up : prev.irq ≤ curr.irq
  pub softirq_up : prev.softirq ≤ curr.softirq
  pub steal_up : prev.steal ≤ curr.steal
  pub fits :
      curr.user + curr.nice + curr.system + curr.irq + curr.softirq + curr.steal + curr.idle
        + curr.iowait
      < 2 ^ 64

-- The differences of the sums, as they wrap.
diffs_exact :
    (idle0 busy0 idle1 busy1 : ℕ)
    → idle0 ≤ idle1
    → busy0 ≤ busy1
    → busy1 + idle1 < 2 ^ 64
    → let total = age (u64 (u64 idle1 + u64 busy1)) (u64 (u64 idle0 + u64 busy0)) in
      (age total (age (u64 idle1) (u64 idle0)) ≡ busy1 - busy0)
      × (total ≡ (busy1 - busy0) + (idle1 - idle0))
unfolding age
diffs_exact idle0 busy0 idle1 busy1 h g f = (omega arith, omega arith)

-- Between two readings of counters that did not go back, the busy time is what the six busy
-- counters have gained, the whole time that and what the two idle ones have gained.
pub cpu_diffs_exact :
    (prev curr : CpuStats)
    → IsLater prev curr
    → let (busy, total) = cpu_diffs prev curr in
      (busy
        ≡ (curr.user - prev.user)
          + (curr.nice - prev.nice)
          + (curr.system - prev.system)
          + (curr.irq - prev.irq)
          + (curr.softirq - prev.softirq)
          + (curr.steal - prev.steal))
      × (total ≡ busy + (curr.idle - prev.idle) + (curr.iowait - prev.iowait))
unfolding cpu_diffs idle_of non_idle_of
cpu_diffs_exact prev curr h =
    let idle0 = prev.idle + prev.iowait in
    let idle1 = curr.idle + curr.iowait in
    let busy0 = prev.user + prev.nice + prev.system + prev.irq + prev.softirq + prev.steal in
    let busy1 = curr.user + curr.nice + curr.system + curr.irq + curr.softirq + curr.steal in
    let (busy, total) =
      diffs_exact idle0 busy0 idle1 busy1 (omega arith) (omega arith) (omega arith) in
    (busy ∙ omega arith, total ∙ omega (arith, busy))
