-- ===== src/Mitigation/Levels/Order.antt =====
-- Grading respects the order of the readings (src/control_plane/main.go, startAutoMitigation).
use shield_core.Prelude.{◌^◌, ℕ, ◌≤◌, ◌<◌, ◌*◌, ◌≡◌, ◌⊎◌, inl, inr, Bool, true, arith}
use shield_core.Float.{Float64, IsOrdered}
use shield_core.Mitigation.Levels.{
  Readings, grade, level_cpu, level_ram, level_queue, level_map, level_ring, raise_to, max_level,
  graded,
}

-- A test that passes stays passed.
abbrev pub Follows : Bool → Bool → Type 0
Follows a b = a ≡ true → b ≡ true

grade_mono :
    (a b c d a' b' c' d' : Bool)
    → Follows a a'
    → Follows b b'
    → Follows c c'
    → Follows d d'
    → Follows a b
    → Follows b c
    → Follows c d
    → Follows a' b'
    → Follows b' c'
    → Follows c' d'
    → grade a b c d ≤ grade a' b' c' d'
grade_mono a b c d a' b' c' d' h0 h1 h2 h3 k0 k1 k2 l0 l1 l2 = ground arith

raise_to_mono : (a b a' b' : ℕ) → a ≤ a' → b ≤ b' → raise_to a b ≤ raise_to a' b'
unfolding raise_to
raise_to_mono a b a' b' h k = ground arith

level_ring_mono : (x y : ℕ) → x ≤ y → level_ring x ≤ level_ring y
unfolding level_ring
level_ring_mono x y h = ground arith

module _ (F : Float64) (O : IsOrdered F) where
  -- x ≤ y, for values of the carrier
  abbrev pub AtMost : F.Carrier → F.Carrier → Type 0
  AtMost x y = (x ≡ y) ⊎ (F.flt x y ≡ true)

  pub flt-AtMost : (c x y : F.Carrier) → AtMost x y → Follows (F.flt c x) (F.flt c y)
  flt-AtMost c x y (inl e) h = rw e at h
  flt-AtMost c x y (inr l) h = O.trans c x y h l

  pub flt-lit :
      (m n d : ℕ) (x : F.Carrier)
      → 0 < d
      → m * d < n * d
      → (m < 2 ^ 16) × (d < 2 ^ 16) × (n < 2 ^ 16) × (d < 2 ^ 16)
      → Follows (F.flt (F.lit n d) x) (F.flt (F.lit m d) x)
  flt-lit m n d x z l b h = O.trans (F.lit m d) (F.lit n d) x (O.lit_lt m d n d z z b l) h

  ladder_mono :
      (n4 n3 n2 n1 d : ℕ) (x y : F.Carrier)
      → AtMost x y
      → 0 < d
      → n3 * d < n4 * d
      → n2 * d < n3 * d
      → n1 * d < n2 * d
      → (n1 < 2 ^ 16) × (n2 < 2 ^ 16) × (n3 < 2 ^ 16) × (n4 < 2 ^ 16) × (d < 2 ^ 16)
      → grade
          (F.flt (F.lit n4 d) x)
          (F.flt (F.lit n3 d) x)
          (F.flt (F.lit n2 d) x)
          (F.flt (F.lit n1 d) x)
        ≤ grade
            (F.flt (F.lit n4 d) y)
            (F.flt (F.lit n3 d) y)
            (F.flt (F.lit n2 d) y)
            (F.flt (F.lit n1 d) y)
  ladder_mono n4 n3 n2 n1 d x y h z l4 l3 l2 (b1, b2, b3, b4, c) =
      grade_mono _ _ _ _ _ _ _ _ (flt-AtMost (F.lit n4 d) x y h) (flt-AtMost (F.lit n3 d) x y h)
        (flt-AtMost (F.lit n2 d) x y h) (flt-AtMost (F.lit n1 d) x y h)
        (flt-lit n3 n4 d x z l4 (b3, c, b4, c)) (flt-lit n2 n3 d x z l3 (b2, c, b3, c))
        (flt-lit n1 n2 d x z l2 (b1, c, b2, c)) (flt-lit n3 n4 d y z l4 (b3, c, b4, c))
        (flt-lit n2 n3 d y z l3 (b2, c, b3, c)) (flt-lit n1 n2 d y z l2 (b1, c, b2, c))

  -- One cycle's readings are nowhere above another's.
  pub record NoWorse (r s : Readings F) : Type 0 where
    pub cpu : AtMost r.cpu_percent s.cpu_percent
    pub ram : AtMost r.ram_percent s.ram_percent
    pub queue : AtMost r.queue_drop_ratio s.queue_drop_ratio
    pub maps : AtMost r.max_map_usage s.max_map_usage
    pub ring : r.max_ring_pct ≤ s.max_ring_pct

  pub graded_mono : (r s : Readings F) → NoWorse r s → graded F r ≤ graded F s
  unfolding graded max_level level_cpu level_ram level_queue level_map
  graded_mono r s h =
      raise_to_mono _ _ _ _
        (raise_to_mono _ _ _ _
          (raise_to_mono _ _ _ _
            (raise_to_mono _ _ _ _
              (ladder_mono 95 90 80 60 1 r.cpu_percent s.cpu_percent h.cpu (omega arith)
                (omega arith) (omega arith) (omega arith) (omega arith))
              (ladder_mono 95 92 85 70 1 r.ram_percent s.ram_percent h.ram (omega arith)
                (omega arith) (omega arith) (omega arith) (omega arith)))
            (ladder_mono 10 5 3 1 100 r.queue_drop_ratio s.queue_drop_ratio h.queue (omega arith)
              (omega arith) (omega arith) (omega arith) (omega arith)))
          (ladder_mono 95 90 80 60 1 r.max_map_usage s.max_map_usage h.maps (omega arith)
            (omega arith) (omega arith) (omega arith) (omega arith)))
        (level_ring_mono r.max_ring_pct s.max_ring_pct h.ring)
