-- ===== src/Tests/Machine.antt =====
-- The files of a machine (src/control_plane/main.go, getCPUStats, getMemoryStats).
use shield_core.Prelude.{
  true, ℕ, ◌-◌, ◌+◌, ◌*◌, ◌≤◌, ◌≡◌, refl, false, none, some, List, [], ◌∷◌, ◌++◌, Text, bytes,
  text_eq, arith, ◌^◌, ◌<◌, contains, has_prefix, All, if◌then◌else◌,
}
use shield_core.Float.Fraction.{fraction}
use shield_core.Strings.{is_space}
use shield_core.Strings.Split.{lacking_contains}
use shield_core.Engine.{CpuStats}
use shield_core.Proc.{Files, read, get_cpu_stats, get_memory_stats, fields, words_from, close_word}
use shield_core.Kernel.Table.{small_kernel}
use shield_core.Routes.Health.{handle_health, handle_health-ram}
use shield_core.Tests.Rules.{running}
use shield_core.Proc.Cpu.{cpu_line, get_cpu_stats-cpu_line}
use shield_core.Proc.Figures.{SysInfo}
use shield_core.Proc.Entries.{Entry, IsEntry, print_entries}
use shield_core.Proc.Memory.{total_of, unused_of, get_memory_stats-entries}

abbrev counters : CpuStats
counters = record {
  user = 1200;
  nice = 3;
  system = 440;
  idle = 90000;
  iowait = 12;
  irq = 0;
  softirq = 7;
  steal = 0;
  guest = 0;
  guestnice = 0;
}

abbrev entry : Text → ℕ → Entry
entry key value = record { key = key; padding = 3; value = value; in_kb = true }

abbrev entries : List Entry
entries =
    entry (bytes "MemTotal") 1000
    ∷ entry (bytes "MemFree") 300
    ∷ entry (bytes "MemAvailable") 700
    ∷ entry (bytes "Buffers") 50
    ∷ entry (bytes "Cached") 150
    ∷ entry (bytes "SwapCached") 999
    ∷ entry (bytes "SReclaimable") 20
    ∷ record { key = bytes "HugePages_Total"; padding = 7; value = 4; in_kb = false }
    ∷ []

abbrev proc_files : Files
proc_files path =
    if text_eq path (bytes "/proc/stat")
    then some (cpu_line counters ++ 10 ∷ bytes "cpu0 1 2 3")
    else if text_eq path (bytes "/proc/meminfo")
    then some (print_entries entries)
    else none

get_cpu_stats-cpu_line_example : get_cpu_stats proc_files ≡ read counters
unfolding text_eq
get_cpu_stats-cpu_line_example =
    get_cpu_stats-cpu_line proc_files counters (bytes "cpu0 1 2 3") (omega arith) refl

counters_read : fields (bytes " cpu\t1  2 ") ≡ bytes "cpu" ∷ bytes "1" ∷ bytes "2" ∷ []
unfolding fields words_from close_word is_space
counters_read = refl

entry-IsEntry :
    (key : Text) (value : ℕ)
    → contains key (bytes ":") ≡ false
    → contains key (10 ∷ []) ≡ false
    → value < 2 ^ 64
    → IsEntry (entry key value)
entry-IsEntry key value h g f = ((lacking_contains 58 key h, lacking_contains 10 key g), f)

entries-IsEntry : All IsEntry entries
unfolding contains has_prefix
entries-IsEntry = (
  entry-IsEntry (bytes "MemTotal") 1000 refl refl (omega arith),
  (
    entry-IsEntry (bytes "MemFree") 300 refl refl (omega arith),
    (
      entry-IsEntry (bytes "MemAvailable") 700 refl refl (omega arith),
      (
        entry-IsEntry (bytes "Buffers") 50 refl refl (omega arith),
        (
          entry-IsEntry (bytes "Cached") 150 refl refl (omega arith),
          (
            entry-IsEntry (bytes "SwapCached") 999 refl refl (omega arith),
            (
              entry-IsEntry (bytes "SReclaimable") 20 refl refl (omega arith),
              (
                (
                  (
                    lacking_contains 58 (bytes "HugePages_Total") refl,
                    lacking_contains 10 (bytes "HugePages_Total") refl,
                  ),
                  omega arith,
                ),
                tt,
              ),
            ),
          ),
        ),
      ),
    ),
  ),
)

get_memory_stats-entries_example :
    get_memory_stats fraction proc_files
    ≡ some (
        fraction.mul
          (fraction.div
            (fraction.of_u64 (total_of entries - unused_of entries))
            (fraction.of_u64 (total_of entries)))
          (fraction.lit 100 1))
unfolding text_eq
get_memory_stats-entries_example =
    get_memory_stats-entries fraction proc_files entries entries-IsEntry refl (omega arith)
      (omega arith)

abbrev info : SysInfo
info = record { totalram = 0; freeram = 0; unit = 1; procs = 9; load = 65536 }

handle_health-ram_example :
    let ram = (handle_health fraction small_kernel proc_files none info 5 running).ram in
    (ram.ram_total ≡ 1024 * total_of entries)
    × (ram.ram_used ≡ 1024 * (total_of entries - unused_of entries))
    × (ram.ram_used + ram.ram_free ≤ ram.ram_total)
unfolding text_eq
handle_health-ram_example =
    handle_health-ram fraction small_kernel proc_files none info 5 running entries entries-IsEntry
      refl (omega arith) (omega arith)
