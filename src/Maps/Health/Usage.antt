-- ===== src/Maps/Health/Usage.antt =====
-- What the loop's reading of the map usage can be (src/control_plane/main.go,
-- startAutoMitigation; src/control_plane/map_manager.go, GetMapHealth).
use shield_core.Prelude.{
  ◌^◌, ℕ, ◌≡◌, ◌<◌, refl, Bool, true, false, ◌||◌, Option, none, List, [], ◌∷◌, Text, bytes,
  text_eq, text_eq_sound, arith, Bool-cases, inl, inr,
}
use shield_core.Float.{Float64, IsOrdered}
use shield_core.Kernel.{Kernel}
use shield_core.Maps.{MapManager}
use shield_core.Maps.Health.{
  usage, health_names, health_count, health_of, get_map_health, max_usage_from, max_map_usage_of,
}
use shield_core.Mitigation.Levels.{level_map, over}

-- A record that the loop looks at shows no usage.
abbrev is_watched : Text → Bool
is_watched name = text_eq name (bytes "ip_stats_map") || text_eq name (bytes "ip_blacklist_map")

module _ (F : Float64) (O : IsOrdered F) (K : Kernel) (info : Text → Option ℕ) where
  watched_uncounted :
      (m : MapManager K) (name : Text)
      → is_watched name ≡ true
      → health_count F K info m name ≡ none
  watched_uncounted m name h = elim (Bool-cases (text_eq name (bytes "ip_stats_map"))) [
    | inl e ↦ rw (text_eq_sound name (bytes "ip_stats_map") e) (unfold health_count text_eq in refl)
    | inr n ↦
        rw (text_eq_sound name (bytes "ip_blacklist_map") (ground arith))
          (unfold health_count text_eq in refl)
  ]

  max_usage_of_health :
      (m : MapManager K) (names : List Text)
      → max_usage_from F (F.lit 0 1) (health_of F K info m names) ≡ F.lit 0 1
  unfolding max_usage_from health_of usage
  max_usage_of_health m [] = refl
  max_usage_of_health m (name ∷ names) = elim (Bool-cases (is_watched name)) [
    | inl e ↦
        ground
          (arith, max_usage_of_health m names, watched_uncounted m name e, O.irrefl (F.lit 0 1))
    | inr n ↦ ground (arith, max_usage_of_health m names)
  ]

  zero_not_over : (n : ℕ) → 0 < n → n < 2 ^ 16 → over F (F.lit 0 1) n ≡ false
  zero_not_over n h b = elim (Bool-cases (over F (F.lit 0 1) n)) [
    | inr not_up ↦ not_up
    | inl up ↦ absurd (
        ground (
          arith,
          O.trans (F.lit 0 1) (F.lit n 1) (F.lit 0 1)
              (O.lit_lt 0 1 n 1 (omega arith) (omega arith) (omega (arith, b)) (omega arith)) up,
          O.irrefl (F.lit 0 1),
        ))
  ]

  -- Whatever the maps hold, the reading of their usage is 0.0, so that it grades to level 0 and
  -- is no emergency: of the two maps it looks at one is never counted and the other never listed.
  pub map_usage_never_seen :
      (m : MapManager K)
      → let seen = max_map_usage_of F (get_map_health F K info m) in
        (seen ≡ F.lit 0 1) × (level_map F seen ≡ 0) × (over F seen 99 ≡ false)
  unfolding max_map_usage_of get_map_health level_map
  map_usage_never_seen m =
      let zero_usage = max_usage_of_health m health_names in
      (
        zero_usage,
        rw zero_usage (
            ground (
              arith,
              zero_not_over 95 (omega arith) (omega arith),
              zero_not_over 90 (omega arith) (omega arith),
              zero_not_over 80 (omega arith) (omega arith),
              zero_not_over 60 (omega arith) (omega arith),
            )),
        rw zero_usage (zero_not_over 99 (omega arith) (omega arith)),
      )
