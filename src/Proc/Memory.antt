-- ===== src/Proc/Memory.antt =====
-- The memory figures are those that the kernel prints (src/control_plane/main.go,
-- getMemoryStats).
use shield_core.Prelude.{
  ℕ, inl, inr, Bool-cases, ◌+◌, ◌-◌, ◌^◌, ◌≤◌, ◌<◌, ◌≡◌, ◌∙◌, refl, true, false, some, List, [],
  ◌∷◌, ◌++◌, Text, bytes, text_eq, text_eq_sound, has_prefix, contains, All, All-append,
  All-replicate, replicate, ◌==◌, if◌then◌else◌, arith,
}
use shield_core.Strings.{split}
use shield_core.Strings.Split.{contains_lacking, lacking_contains, split_line}
use shield_core.Float.{Float64}
use shield_core.Maps.Scan.{age}
use shield_core.Net.Decimal.{is_digit, print_u64}
use shield_core.Net.Decimal.Print.{IsNumber-lacks, print_u64-IsNumber}
use shield_core.Proc.{
  Files, MemInfo, used_kb, no_mem_info, ram_percent_of, get_memory_stats, read_mem_line,
  read_mem_lines, mem_info,
}
use shield_core.Proc.Entries.{
  Entry, IsEntry, unit_of, amount, line_of, print_entries, last_of, has_prefix-key, scan_key,
}

-- The keys that are looked for.
abbrev keys : List Text
keys =
    bytes "MemTotal"
    ∷ bytes "MemFree"
    ∷ bytes "Buffers"
    ∷ bytes "Cached"
    ∷ bytes "SReclaimable"
    ∷ []

abbrev put_entry : Entry → MemInfo → MemInfo
put_entry e m = record {
  mem_total = if text_eq e.key (bytes "MemTotal") then e.value else m.mem_total;
  mem_free = if text_eq e.key (bytes "MemFree") then e.value else m.mem_free;
  buffers = if text_eq e.key (bytes "Buffers") then e.value else m.buffers;
  cached = if text_eq e.key (bytes "Cached") then e.value else m.cached;
  s_reclaimable = if text_eq e.key (bytes "SReclaimable") then e.value else m.s_reclaimable;
}

other : (k a b : Text) → text_eq a b ≡ false → text_eq k a ≡ true → text_eq k b ≡ false
other k a b h g = rw (text_eq_sound k a g) h

prefix_test :
    (e : Entry) (key : Text)
    → IsEntry e
    → All (λ c. (c == 58) ≡ false) key
    → has_prefix (line_of e) (key ++ 58 ∷ []) ≡ text_eq e.key key
prefix_test e key ((h, g), f) k = has_prefix-key e.key key (amount e) h k

read_mem_line-line_of :
    (e : Entry) (m : MemInfo) → IsEntry e → read_mem_line (line_of e) m ≡ put_entry e m
unfolding read_mem_line text_eq contains has_prefix
read_mem_line-line_of e m h =
    let (k, f) = h in
    let k1 = bytes "MemTotal" in
    let k2 = bytes "MemFree" in
    let k3 = bytes "Buffers" in
    let k4 = bytes "Cached" in
    let k5 = bytes "SReclaimable" in
    ground (
      arith,
      prefix_test e k1 h (lacking_contains 58 k1 refl),
      prefix_test e k2 h (lacking_contains 58 k2 refl),
      prefix_test e k3 h (lacking_contains 58 k3 refl),
      prefix_test e k4 h (lacking_contains 58 k4 refl),
      prefix_test e k5 h (lacking_contains 58 k5 refl),
      scan_key e k1 m.mem_total,
      scan_key e k2 m.mem_free,
      scan_key e k3 m.buffers,
      scan_key e k4 m.cached,
      scan_key e k5 m.s_reclaimable,
      other e.key k1 k2 refl,
      other e.key k1 k3 refl,
      other e.key k1 k4 refl,
      other e.key k1 k5 refl,
      other e.key k2 k3 refl,
      other e.key k2 k4 refl,
      other e.key k2 k5 refl,
      other e.key k3 k4 refl,
      other e.key k3 k5 refl,
      other e.key k4 k5 refl,
    )

-- What the entries leave in the variables.
abbrev put_entries : List Entry → MemInfo → MemInfo
put_entries [] m = m
put_entries (e ∷ es) m = put_entries es (put_entry e m)

unit-lacks : (e : Entry) → All (λ c. (c == 10) ≡ false) (unit_of e)
unit-lacks e = elim (Bool-cases e.in_kb) [
  | inl y ↦ rw y (refl, (refl, (refl, tt)))
  | inr n ↦ rw n tt
]

line_of-one : (e : Entry) → IsEntry e → contains (line_of e) (10 ∷ []) ≡ false
unfolding is_digit
line_of-one e ((h, g), f) =
    let digits =
      IsNumber-lacks (λ c. (c == 10) ≡ false) (λ c d. ground arith) (print_u64 e.value)
        (print_u64-IsNumber e.value) in
    let spaces = All-replicate (λ c. (c == 10) ≡ false) e.padding 32 refl in
    let behind_spaces = All-append _ (print_u64 e.value) (unit_of e) digits (unit-lacks e) in
    let text = All-append _ (replicate e.padding 32) _ spaces behind_spaces in
    contains_lacking 10 (line_of e)
      (All-append (λ c. (c == 10) ≡ false) e.key (58 ∷ amount e) g (refl, (refl, text)))

read_mem_lines-entries :
    (es : List Entry) (m : MemInfo)
    → All IsEntry es
    → read_mem_lines (split 10 (print_entries es)) m ≡ put_entries es m
unfolding read_mem_lines split read_mem_line has_prefix
read_mem_lines-entries [] m h = refl
read_mem_lines-entries (e ∷ es) m (h, hs) = ground (
  arith,
  split_line 10 (line_of e) (print_entries es) (line_of-one e h),
  read_mem_line-line_of e m h,
  read_mem_lines-entries es (put_entry e m) hs,
)

put_entries_lem :
    (es : List Entry) (m : MemInfo)
    → put_entries es m ≡ record {
      mem_total = last_of (bytes "MemTotal") es m.mem_total;
      mem_free = last_of (bytes "MemFree") es m.mem_free;
      buffers = last_of (bytes "Buffers") es m.buffers;
      cached = last_of (bytes "Cached") es m.cached;
      s_reclaimable = last_of (bytes "SReclaimable") es m.s_reclaimable;
    }
put_entries_lem [] m = refl
put_entries_lem (e ∷ es) m = put_entries_lem es (put_entry e m)

pub last_of_bound :
    (key : Text) (es : List Entry) (old : ℕ)
    → All IsEntry es
    → old < 2 ^ 64
    → last_of key es old < 2 ^ 64
last_of_bound key [] old h g = g
last_of_bound key (e ∷ es) old ((k, f), hs) g = last_of_bound key es _ hs (ground (arith, f, g))

abbrev pub total_of : List Entry → ℕ
total_of es = last_of (bytes "MemTotal") es 0

-- What is not used: free memory, buffers and caches.
abbrev pub unused_of : List Entry → ℕ
unused_of es =
    last_of (bytes "MemFree") es 0
    + last_of (bytes "Buffers") es 0
    + last_of (bytes "Cached") es 0
    + last_of (bytes "SReclaimable") es 0

pub mem_info-entries :
    (es : List Entry)
    → All IsEntry es
    → mem_info (print_entries es) ≡ record {
      mem_total = total_of es;
      mem_free = last_of (bytes "MemFree") es 0;
      buffers = last_of (bytes "Buffers") es 0;
      cached = last_of (bytes "Cached") es 0;
      s_reclaimable = last_of (bytes "SReclaimable") es 0;
    }
unfolding mem_info no_mem_info
mem_info-entries es h = read_mem_lines-entries es no_mem_info h ∙ put_entries_lem es no_mem_info

-- The differences do not wrap where the parts are no more than the whole.
pub used_kb_exact :
    (m : MemInfo)
    → m.mem_total < 2 ^ 64
    → m.mem_free + m.buffers + m.cached + m.s_reclaimable ≤ m.mem_total
    → used_kb m ≡ m.mem_total - (m.mem_free + m.buffers + m.cached + m.s_reclaimable)
unfolding used_kb age
used_kb_exact m h g = omega (arith, h, g)

module _ (F : Float64) where
  -- Where /proc/meminfo is lines of a key, spaces and a 64-bit number, with the unit kB or without
  -- one, and the total is above 0 and no less than free memory, buffers and caches together,
  -- getMemoryStats returns the share of the total that is none of these, in per cent, whatever
  -- other keys there are.
  pub get_memory_stats-entries :
      (files : Files) (es : List Entry)
      → All IsEntry es
      → files (bytes "/proc/meminfo") ≡ some (print_entries es)
      → 0 < total_of es
      → unused_of es ≤ total_of es
      → get_memory_stats F files
        ≡ some (
            F.mul
              (F.div (F.of_u64 (total_of es - unused_of es)) (F.of_u64 (total_of es)))
              (F.lit 100 1))
  unfolding get_memory_stats ram_percent_of
  get_memory_stats-entries files es h e p g =
      let bound = last_of_bound (bytes "MemTotal") es 0 h (omega arith) in
      let used = used_kb_exact (mem_info (print_entries es)) in
      ground (arith, e, mem_info-entries es h, used, bound, p, g)
