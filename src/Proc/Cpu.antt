-- ===== src/Proc/Cpu.antt =====
-- The processor counters are those that the kernel prints (src/control_plane/main.go,
-- getCPUStats).
use shield_core.Prelude.{
  ℕ, ◌^◌, ◌<◌, ◌≡◌, ◌≢◌, refl, false, some, List, [], ◌∷◌, ◌++◌, map, Text, bytes, append-nil, All,
  All-append, contains, text_eq, length, ◌==◌, arith,
}
use shield_core.Strings.{split, is_space}
use shield_core.Strings.Split.{contains_lacking, split_line}
use shield_core.Net.Decimal.{is_digit, print_u64}
use shield_core.Net.Decimal.Print.{
  IsNumber-lacks, parse_uint-print_u64, print_u64-IsNumber, print_u64-ne-nil,
}
use shield_core.Engine.{CpuStats}
use shield_core.Proc.{
  Files, close_word, words_from, fields, read, read_vals, cpu_stats_of, cpu_words, cpu_line_or,
  cpu_lines, get_cpu_stats,
}

-- A word that has a character and no space.
abbrev IsWord : Text → Type 0
IsWord w = (w ≢ []) × All (λ c. is_space c ≡ false) w

-- Words, each behind a space.
abbrev pub spaced : List Text → Text
spaced [] = []
spaced (w ∷ ws) = 32 ∷ (w ++ spaced ws)

words_from-append :
    (w t : Text)
    → All (λ c. is_space c ≡ false) w
    → words_from (w ++ t) ≡ (w ++ (words_from t).0, (words_from t).1)
unfolding words_from
words_from-append [] t h = refl
words_from-append (c ∷ w) t (h, hs) = ground (arith, h, words_from-append w t hs)

close_word-cons : (w : Text) (ws : List Text) → w ≢ [] → close_word w ws ≡ w ∷ ws
unfolding close_word
close_word-cons [] ws h = absurd (h refl)
close_word-cons (c ∷ w) ws h = refl

words_from-spaced : (ws : List Text) → All IsWord ws → words_from (spaced ws) ≡ ([], ws)
unfolding words_from is_space
words_from-spaced [] h = refl
words_from-spaced (w ∷ ws) ((h, g), hs) = ground (
  arith,
  words_from-append w (spaced ws) g,
  words_from-spaced ws hs,
  append-nil w,
  close_word-cons w ws h,
)

number-IsWord : (n : ℕ) → IsWord (print_u64 n)
unfolding is_digit is_space
number-IsWord n = (
  print_u64-ne-nil n,
  IsNumber-lacks _ (λ c h. ground arith) (print_u64 n) (print_u64-IsNumber n),
)

numbers-IsWord : (vals : List ℕ) → All IsWord (map print_u64 vals)
numbers-IsWord [] = tt
numbers-IsWord (v ∷ vals) = (number-IsWord v, numbers-IsWord vals)

read_vals-print :
    (vals : List ℕ)
    → All (λ v. v < 2 ^ 64) vals
    → read_vals (length vals) (map print_u64 vals) ≡ some vals
unfolding read_vals
read_vals-print [] h = refl
read_vals-print (v ∷ vals) (h, hs) =
    ground (arith, parse_uint-print_u64 v h, read_vals-print vals hs)

-- The counters in the order of the line.
abbrev pub vals_of : CpuStats → List ℕ
vals_of c =
    c.user ∷ c.nice ∷ c.system ∷ c.idle ∷ c.iowait ∷ c.irq ∷ c.softirq ∷ c.steal ∷ c.guest
    ∷ c.guestnice ∷ []

-- The line of all processors, as the kernel prints it in /proc/stat: "cpu", two spaces, and the
-- counters.
abbrev pub cpu_line : CpuStats → Text
cpu_line c = bytes "cpu " ++ spaced (map print_u64 (vals_of c))

fields-cpu :
    (ws : List Text) → All IsWord ws → fields (bytes "cpu " ++ spaced ws) ≡ bytes "cpu" ∷ ws
unfolding fields words_from close_word is_space
fields-cpu ws h = ground (arith, words_from-spaced ws h)

spaced-lacks : (vals : List ℕ) → All (λ c. (c == 10) ≡ false) (spaced (map print_u64 vals))
unfolding is_digit
spaced-lacks [] = tt
spaced-lacks (v ∷ vals) = (
  refl,
  All-append _ (print_u64 v) (spaced (map print_u64 vals))
      (IsNumber-lacks (λ c. (c == 10) ≡ false) (λ c h. ground arith) (print_u64 v)
        (print_u64-IsNumber v))
      (spaced-lacks vals),
)

cpu_line-one : (c : CpuStats) → contains (cpu_line c) (10 ∷ []) ≡ false
cpu_line-one c =
    contains_lacking 10 (cpu_line c) (refl, (refl, (refl, (refl, spaced-lacks (vals_of c)))))

cpu_lines-cpu_line :
    (c : CpuStats) (rest : Text)
    → All (λ v. v < 2 ^ 64) (vals_of c)
    → cpu_lines (split 10 (cpu_line c ++ 10 ∷ rest)) ≡ read c
unfolding cpu_lines cpu_line_or cpu_words cpu_stats_of text_eq
cpu_lines-cpu_line c rest h =
    let ws = map print_u64 (vals_of c) in
    let words = fields-cpu ws (numbers-IsWord (vals_of c)) in
    let vals = read_vals-print (vals_of c) h in
    rw (split_line 10 (cpu_line c) rest (cpu_line-one c)) (ground (arith, words, vals))

-- Where /proc/stat begins with the line of all processors, getCPUStats returns the ten counters
-- of that line, if they are 64-bit, whatever follows it.
pub get_cpu_stats-cpu_line :
    (files : Files) (c : CpuStats) (rest : Text)
    → All (λ v. v < 2 ^ 64) (vals_of c)
    → files (bytes "/proc/stat") ≡ some (cpu_line c ++ 10 ∷ rest)
    → get_cpu_stats files ≡ read c
unfolding get_cpu_stats
get_cpu_stats-cpu_line files c rest h e = ground (arith, e, cpu_lines-cpu_line c rest h)
