-- ===== src/Proc/Figures.antt =====
-- The memory and process figures of /health (src/control_plane/main.go, main).
use shield_core.Prelude.{
  ℕ, ◌+◌, ◌*◌, Bool, false, ◌&&◌, Option, none, some, List, [], ◌∷◌, Text, bytes, ◌==◌,
  if◌then◌else◌,
}
use shield_core.Net.Decimal.{is_digit}
use shield_core.Maps.Scan.{u64, age}
use shield_core.Proc.{Files, mem_info, used_kb}

-- What the call `sysinfo` reports.
pub record SysInfo : Type 0 where
  pub totalram : ℕ
  pub freeram : ℕ
  pub unit : ℕ
  pub procs : ℕ
  pub load : ℕ  -- Loads[0], of 65536

-- The memory figures of /health, in bytes.
pub record RamFigures : Type 0 where
  pub ram_total : ℕ
  pub ram_used : ℕ
  pub ram_free : ℕ

unfoldable pub ram_figures : Files → SysInfo → RamFigures
unfolding mem_info used_kb age
ram_figures files info = elim (files (bytes "/proc/meminfo")) [
  | some content ↦
      let m = mem_info content in
      record {
        ram_total = u64 (m.mem_total * 1024);
        ram_used = u64 (used_kb m * 1024);
        ram_free = u64 (m.mem_free * 1024);
      }
  | none ↦
      let unit = if info.unit == 0 then 1 else info.unit in
      let total = u64 (info.totalram * unit) in
      let free = u64 (info.freeram * unit) in
      record { ram_total = total; ram_used = age total free; ram_free = free }
]

-- The directories of /proc, each with its name, that are named by a number.
unfoldable pub starts_with_digit : Text → Bool
unfolding is_digit
starts_with_digit [] = false
starts_with_digit (c ∷ name) = is_digit c

unfoldable pub count_procs : List (Text × Bool) → ℕ
unfolding starts_with_digit
count_procs [] = 0
count_procs (e ∷ es) =
    let rest = count_procs es in if e.1 && starts_with_digit e.0 then rest + 1 else rest

unfoldable pub procs_of : Option (List (Text × Bool)) → SysInfo → ℕ
unfolding count_procs
procs_of none info = info.procs
procs_of (some entries) info = count_procs entries
