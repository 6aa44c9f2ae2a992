-- ===== src/Proc.antt =====
-- What the machine's files say (src/control_plane/main.go: getMemoryStats, getCPUStats,
-- getQueueStats).
pub mod Cpu
pub mod Entries
pub mod Memory
pub mod Figures
use shield_core.Prelude.{
  ℕ, zero, suc, ◌+◌, ◌*◌, ◌%◌, ◌^◌, Bool, true, false, ◌&&◌, Option, none, some, List, [], ◌∷◌,
  ◌++◌, Text, bytes, text_eq, has_prefix, length, replicate, ltb, leb, ◌==◌, if◌then◌else◌,
}
use shield_core.Strings.{split, is_space, trim_left, trim_space}
use shield_core.Float.{Float64}
use shield_core.Net.Decimal.{is_digit, parse_uint}
use shield_core.Maps.Scan.{u64, age}
use shield_core.Engine.{CpuStats, Machine}

-- The files that can be read, by their path.
abbrev pub Files : Type 0
Files = Text → Option Text

-- `strings.Fields`: the words between spaces, from the right, with the word that is open.
unfoldable pub close_word : Text → List Text → List Text
close_word [] words = words
close_word (c ∷ w) words = (c ∷ w) ∷ words

unfoldable pub words_from : Text → Text × List Text
unfolding close_word is_space
words_from [] = ([], [])
words_from (c ∷ t) =
    let (w, words) = words_from t in if is_space c then ([], close_word w words) else (c ∷ w, words)

unfoldable pub fields : Text → List Text
unfolding words_from close_word
fields t = let (w, words) = words_from t in close_word w words

-- Why there are no processor counters.
pub data CpuError : Type 0 where
  no_file short_line bad_number no_line : CpuError

pub data CpuResult : Type 0 where
  read : CpuStats → CpuResult
  failed : CpuError → CpuResult

-- `vals`: up to n numbers, 0 where there is none, or none on a field that is no uint64.
unfoldable pub read_vals : ℕ → List Text → Option (List ℕ)
read_vals zero words = some []
read_vals (suc n) [] = some (replicate (suc n) 0)
read_vals (suc n) (w ∷ words) =
    let rest = read_vals n words in
    elim (parse_uint 64 w) [
      | none ↦ none
      | some v ↦ elim rest [ none ↦ none | some vals ↦ some (v ∷ vals) ]
    ]

unfoldable pub val_at : ℕ → List ℕ → ℕ
val_at i [] = 0
val_at zero (v ∷ vals) = v
val_at (suc i) (v ∷ vals) = val_at i vals

unfoldable pub cpu_stats_of : List ℕ → CpuStats
unfolding val_at
cpu_stats_of vals = record {
  user = val_at 0 vals;
  nice = val_at 1 vals;
  system = val_at 2 vals;
  idle = val_at 3 vals;
  iowait = val_at 4 vals;
  irq = val_at 5 vals;
  softirq = val_at 6 vals;
  steal = val_at 7 vals;
  guest = val_at 8 vals;
  guestnice = val_at 9 vals;
}

-- The words behind "cpu", of which there must be seven.
unfoldable pub cpu_words : List Text → CpuResult
unfolding cpu_stats_of
cpu_words words =
    if ltb (length words + 1) 8 then failed short_line else elim (read_vals 10 words) [
      | none ↦ failed bad_number
      | some vals ↦ read (cpu_stats_of vals)
    ]

-- A line by its words, and what the lines behind it give.
unfoldable pub cpu_line_or : List Text → CpuResult → CpuResult
unfolding cpu_words
cpu_line_or [] rest = rest
cpu_line_or (w ∷ words) rest = if text_eq w (bytes "cpu") then cpu_words words else rest

unfoldable pub cpu_lines : List Text → CpuResult
unfolding cpu_line_or
cpu_lines [] = failed no_line
cpu_lines (l ∷ ls) = let rest = cpu_lines ls in cpu_line_or (fields l) rest

unfoldable pub get_cpu_stats : Files → CpuResult
unfolding cpu_lines
get_cpu_stats files = elim (files (bytes "/proc/stat")) [
  | none ↦ failed no_file
  | some content ↦ cpu_lines (split 10 content)
]

-- The variables that a pass over /proc/meminfo sets, in KB, each uint64.
pub record MemInfo : Type 0 where
  pub mem_total : ℕ
  pub mem_free : ℕ
  pub buffers : ℕ
  pub cached : ℕ
  pub s_reclaimable : ℕ

unfoldable pub no_mem_info : MemInfo
no_mem_info = record { mem_total = 0; mem_free = 0; buffers = 0; cached = 0; s_reclaimable = 0 }

unfoldable pub digits_of : Text → Text
unfolding is_digit
digits_of [] = []
digits_of (c ∷ t) = let rest = digits_of t in if is_digit c then c ∷ rest else []

-- `%d` for a uint64: what stands in the variable after it, as an error leaves it unchanged.
unfoldable pub scan_uint : Text → ℕ → ℕ
unfolding digits_of trim_left
scan_uint t old = elim (parse_uint 64 (digits_of (trim_left t))) [ none ↦ old | some v ↦ v ]

-- The space of a format, and `%d`: the text goes on with a space, or there is an error.
unfoldable pub scan_spaced : Text → ℕ → ℕ
unfolding is_space
scan_spaced [] old = old
scan_spaced (c ∷ t) old = let value = scan_uint t old in if is_space c then value else old

unfoldable pub behind : Text → Text → Text
behind [] t = t
behind (d ∷ key) [] = []
behind (d ∷ key) (c ∷ t) = behind key t

unfoldable pub read_mem_line : Text → MemInfo → MemInfo
unfolding behind scan_spaced
read_mem_line line m =
    let scan : Text → ℕ → ℕ = λ key old. scan_spaced (behind key line) old in
    if has_prefix line (bytes "MemTotal:")
    then record m { mem_total = scan (bytes "MemTotal:") m.mem_total }
    else if has_prefix line (bytes "MemFree:")
    then record m { mem_free = scan (bytes "MemFree:") m.mem_free }
    else if has_prefix line (bytes "Buffers:")
    then record m { buffers = scan (bytes "Buffers:") m.buffers }
    else if has_prefix line (bytes "Cached:")
    then record m { cached = scan (bytes "Cached:") m.cached }
    else if has_prefix line (bytes "SReclaimable:")
    then record m { s_reclaimable = scan (bytes "SReclaimable:") m.s_reclaimable }
    else m

unfoldable pub read_mem_lines : List Text → MemInfo → MemInfo
unfolding read_mem_line
read_mem_lines [] m = m
read_mem_lines (l ∷ ls) m = read_mem_lines ls (read_mem_line l m)

unfoldable pub mem_info : Text → MemInfo
unfolding read_mem_lines no_mem_info
mem_info content = read_mem_lines (split 10 content) no_mem_info

-- The differences wrap.
unfoldable pub used_kb : MemInfo → ℕ
unfolding age
used_kb m = age (age (age (age m.mem_total m.mem_free) m.buffers) m.cached) m.s_reclaimable

-- Dropped packets and packets; what cannot be scanned is 0.
unfoldable pub get_queue_stats : Files → Text → Option (ℕ × ℕ)
unfolding trim_space scan_uint
get_queue_stats files iface =
    let of_iface : Text → Text =
      λ name. bytes "/sys/class/net/" ++ (iface ++ (bytes "/statistics/" ++ name)) in
    elim (files (of_iface (bytes "rx_dropped"))) [
      | none ↦ none
      | some drops ↦ elim (files (of_iface (bytes "rx_packets"))) [
        | none ↦ none
        | some packets ↦ some (scan_uint (trim_space drops) 0, scan_uint (trim_space packets) 0)
      ]
    ]

module _ (F : Float64) where
  unfoldable pub ram_percent_of : MemInfo → Option F.Carrier
  unfolding used_kb
  ram_percent_of m =
      if m.mem_total == 0
      then none
      else some (F.mul (F.div (F.of_u64 (used_kb m)) (F.of_u64 m.mem_total)) (F.lit 100 1))

  -- None for either error.
  unfoldable pub get_memory_stats : Files → Option F.Carrier
  unfolding mem_info ram_percent_of
  get_memory_stats files = elim (files (bytes "/proc/meminfo")) [
    | none ↦ none
    | some content ↦ ram_percent_of (mem_info content)
  ]

  unfoldable pub cpu_or_none : CpuResult → Option CpuStats
  cpu_or_none (read c) = some c
  cpu_or_none (failed e) = none

  -- What a cycle of the engine reads.
  unfoldable pub machine_of : Files → Text → Machine F
  unfolding cpu_or_none get_cpu_stats get_memory_stats get_queue_stats
  machine_of files iface = record {
    cpu = cpu_or_none (get_cpu_stats files);
    ram = get_memory_stats files;
    queue = get_queue_stats files iface;
  }
