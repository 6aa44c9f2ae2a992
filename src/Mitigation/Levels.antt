-- ===== src/Mitigation/Levels.antt =====
-- The grading of one cycle's readings (src/control_plane/main.go, startAutoMitigation, from
-- "Tính toán Level" to the emergency trigger).
pub mod Order
pub mod Emergency
use shield_core.Prelude.{ℕ, Bool, true, false, ◌||◌, ltb, if◌then◌else◌}
use shield_core.Float.{Float64}

-- A grade from the four tests of a ladder, the highest threshold first.
abbrev pub grade : Bool → Bool → Bool → Bool → ℕ
grade over4 over3 over2 over1 =
    if over4 then 4 else if over3 then 3 else if over2 then 2 else if over1 then 1 else 0

module _ (F : Float64) where
  -- The five figures that a cycle has collected before it grades them.
  pub record Readings : Type 0 where
    pub cpu_percent : F.Carrier
    pub ram_percent : F.Carrier
    pub queue_drop_ratio : F.Carrier
    pub max_map_usage : F.Carrier
    pub max_ring_pct : ℕ  -- uint32

  -- x > n, and x > n / 100
  abbrev pub over : F.Carrier → ℕ → Bool
  over x n = F.flt (F.lit n 1) x

  abbrev pub over_pct : F.Carrier → ℕ → Bool
  over_pct x n = F.flt (F.lit n 100) x

  unfoldable pub level_cpu : F.Carrier → ℕ
  level_cpu x = grade (over x 95) (over x 90) (over x 80) (over x 60)

  unfoldable pub level_ram : F.Carrier → ℕ
  level_ram x = grade (over x 95) (over x 92) (over x 85) (over x 70)

  unfoldable pub level_queue : F.Carrier → ℕ
  level_queue x = grade (over_pct x 10) (over_pct x 5) (over_pct x 3) (over_pct x 1)

  unfoldable pub level_map : F.Carrier → ℕ
  level_map x = grade (over x 95) (over x 90) (over x 80) (over x 60)

unfoldable pub level_ring : ℕ → ℕ
level_ring x = grade (ltb 95 x) (ltb 90 x) (ltb 80 x) (ltb 60 x)

-- `if level > target { target = level }`
unfoldable pub raise_to : ℕ → ℕ → ℕ
raise_to target level = if ltb target level then level else target

unfoldable pub max_level : ℕ → ℕ → ℕ → ℕ → ℕ → ℕ
unfolding raise_to
max_level cpu ram queue map ring = raise_to (raise_to (raise_to (raise_to cpu ram) queue) map) ring

-- What the state machine is fed: the target level and the emergency flag.
pub record Assessment : Type 0 where
  pub target_level : ℕ
  pub emergency : Bool

module _ (F : Float64) where
  unfoldable pub graded : Readings F → ℕ
  graded r =
      max_level (level_cpu F r.cpu_percent) (level_ram F r.ram_percent)
        (level_queue F r.queue_drop_ratio) (level_map F r.max_map_usage) (level_ring r.max_ring_pct)

  unfoldable pub is_emergency : Readings F → Bool
  is_emergency r =
      over F r.cpu_percent 98
      || over F r.ram_percent 98
      || over F r.max_map_usage 99
      || over_pct F r.queue_drop_ratio 50
      || ltb 98 r.max_ring_pct

  unfoldable pub assess : Readings F → Assessment
  assess r =
      if is_emergency r
      then record { target_level = 4; emergency = true }
      else record { target_level = graded r; emergency = false }
