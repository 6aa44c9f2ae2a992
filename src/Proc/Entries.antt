-- ===== src/Proc/Entries.antt =====
-- The lines of /proc/meminfo, as the kernel prints them and as getMemoryStats reads one of them
-- (src/control_plane/main.go).
use shield_core.Prelude.{
  ℕ, zero, suc, ◌^◌, ◌<◌, ◌≡◌, ◌≢◌, refl, Bool, true, false, inl, inr, Bool-cases, append-nil, List,
  [], ◌∷◌, ◌++◌, Text, bytes, text_eq, text_eq_sound, has_prefix, All, replicate, ◌==◌,
  if◌then◌else◌, arith,
}
use shield_core.Strings.{is_space, trim_left}
use shield_core.Net.Decimal.{is_digit, print_u64}
use shield_core.Net.Decimal.Print.{
  IsNumber, parse_uint-print_u64, print_u64-IsNumber, print_u64-ne-nil,
}
use shield_core.Proc.{digits_of, scan_uint, scan_spaced, behind}

-- A line of /proc/meminfo: a key, a number of spaces more than one, a number, and KB or, as for
-- HugePages_Total and the like, no unit.
pub record Entry : Type 0 where
  pub key : Text
  pub padding : ℕ
  pub value : ℕ
  pub in_kb : Bool

-- What a key lacks.
abbrev IsKey : Text → Type 0
IsKey k = All (λ c. (c == 58) ≡ false) k × All (λ c. (c == 10) ≡ false) k

abbrev pub IsEntry : Entry → Type 0
IsEntry e = IsKey e.key × (e.value < 2 ^ 64)

abbrev pub unit_of : Entry → Text
unit_of e = if e.in_kb then bytes " kB" else []

abbrev pub amount : Entry → Text
amount e = 32 ∷ (replicate e.padding 32 ++ (print_u64 e.value ++ unit_of e))

abbrev pub line_of : Entry → Text
line_of e = e.key ++ 58 ∷ amount e

-- The file, as the kernel prints it.
abbrev pub print_entries : List Entry → Text
print_entries [] = []
print_entries (e ∷ es) = line_of e ++ 10 ∷ print_entries es

-- The last value under a key, and what was there before.
abbrev pub last_of : Text → List Entry → ℕ → ℕ
last_of key [] old = old
last_of key (e ∷ es) old = last_of key es (if text_eq e.key key then e.value else old)

digits_of-append : (t u : Text) → IsNumber t → digits_of (t ++ 32 ∷ u) ≡ t
unfolding digits_of is_digit
digits_of-append [] u h = refl
digits_of-append (c ∷ t) u (h, hs) = ground (arith, h, digits_of-append t u hs)

digits_of-number : (t : Text) → IsNumber t → digits_of t ≡ t
unfolding digits_of is_digit
digits_of-number [] h = refl
digits_of-number (c ∷ t) (h, hs) = ground (arith, h, digits_of-number t hs)

digits_of-unit : (e : Entry) (t : Text) → IsNumber t → digits_of (t ++ unit_of e) ≡ t
digits_of-unit e t h = elim (Bool-cases e.in_kb) [
  | inl y ↦ rw y (digits_of-append t (bytes "kB") h)
  | inr n ↦ rw (n, append-nil t) (digits_of-number t h)
]

trim_left-number : (t u : Text) → t ≢ [] → IsNumber t → trim_left (t ++ u) ≡ t ++ u
unfolding trim_left is_digit is_space
trim_left-number [] u h g = absurd (h refl)
trim_left-number (c ∷ t) u h (g, gs) = ground arith

trim_left-spaces : (n : ℕ) (t : Text) → trim_left (replicate n 32 ++ t) ≡ trim_left t
unfolding trim_left is_space
trim_left-spaces zero t = refl
trim_left-spaces (suc n) t = trim_left-spaces n t

scan_spaced-amount : (e : Entry) (old : ℕ) → e.value < 2 ^ 64 → scan_spaced (amount e) old ≡ e.value
unfolding scan_spaced scan_uint is_space
scan_spaced-amount e old h =
    let number = print_u64 e.value in
    let digits = print_u64-IsNumber e.value in
    let trimmed = trim_left-number number (unit_of e) (print_u64-ne-nil e.value) digits in
    ground (
      arith,
      trim_left-spaces e.padding (number ++ unit_of e),
      trimmed,
      digits_of-unit e number digits,
      parse_uint-print_u64 e.value h,
    )

pub has_prefix-key :
    (k key t : Text)
    → All (λ c. (c == 58) ≡ false) k
    → All (λ c. (c == 58) ≡ false) key
    → has_prefix (k ++ 58 ∷ t) (key ++ 58 ∷ []) ≡ text_eq k key
unfolding has_prefix text_eq
has_prefix-key [] [] t h g = refl
has_prefix-key [] (d ∷ key) t h (g, gs) = ground (arith, g)
has_prefix-key (c ∷ k) [] t (h, hs) g = ground (arith, h)
has_prefix-key (c ∷ k) (d ∷ key) t (h, hs) (g, gs) = ground (arith, has_prefix-key k key t hs gs)

behind_self : (k t : Text) → behind (k ++ 58 ∷ []) (k ++ 58 ∷ t) ≡ t
unfolding behind
behind_self [] t = refl
behind_self (c ∷ k) t = behind_self k t

-- What a line is read as under a key that it has.
pub scan_key :
    (e : Entry) (key : Text) (old : ℕ)
    → text_eq e.key key ≡ true
    → e.value < 2 ^ 64
    → scan_spaced (behind (key ++ 58 ∷ []) (line_of e)) old ≡ e.value
scan_key e key old h f =
    rw (← text_eq_sound e.key key h, behind_self e.key (amount e)) (scan_spaced-amount e old f)
