-- ===== src/Maps/Config/Laws.antt =====
-- What the configuration map holds after each of its writers (src/control_plane/map_manager.go).
use shield_core.Prelude.{
  ℕ, ◌≡◌, ◌≢◌, ◌⊎◌, inl, inr, Option, none, some, ◌==◌, if◌then◌else◌, arith, Option-cases,
}
use shield_core.Kernel.{Kernel, KeepsPut}
use shield_core.Maps.{MapManager, ok}
use shield_core.Maps.Config.{
  pps_key, bps_key, policy_key, set_geoip_policy, get_geoip_policy, update_rate_limits,
}

module _ (K : Kernel) where
  -- What a key of the configuration map reads as, `none` where there is no map.
  abbrev pub config_at : MapManager K → ℕ → Option ℕ
  config_at m key = elim m.config_map [ none ↦ none | some s ↦ K.config.lookup key s ]

module _ (K : Kernel) (L : KeepsPut ◌==◌ K.config) (m : MapManager K) where
  -- Setting the policy either succeeds, and then it is the policy that is read and every other
  -- key keeps its value, or it fails and nothing has changed.
  pub get-set_geoip_policy :
      (policy : ℕ)
      → let (m', e) = set_geoip_policy K m policy in
        ((e ≡ none)
          × (get_geoip_policy K m' ≡ ok policy)
          × ((key : ℕ)
              → config_at K m' key
                ≡ (if key == policy_key then some policy else config_at K m key)))
        ⊎ ((e ≢ none) × (m' ≡ m))
  unfolding set_geoip_policy get_geoip_policy
  get-set_geoip_policy policy = elim (Option-cases m.config_map) [
    | inl e ↦ inr (ground arith, ground arith)
    | inr (s, e) ↦ elim (Option-cases (K.config.put policy_key policy s)) [
      | inl f ↦ inr (ground arith, ground arith)
      | inr (t, f) ↦ inl (
        ground arith,
        ground (arith, L.lookup-put policy_key policy_key policy s t f),
        λ key. ground (arith, L.lookup-put policy_key key policy s t f),
      )
    ]
  ]

  -- Setting the limits either succeeds, and then they are read by their keys and the other keys
  -- keep their values; or it fails at the first, and nothing has changed; or it fails at the
  -- second, and the packet limit alone is the new one.
  pub update_rate_limits_lem :
      (pps bps : ℕ)
      → let (m', e) = update_rate_limits K m pps bps in
        ((e ≡ none)
          × ((key : ℕ)
              → config_at K m' key ≡ (
                  if key == pps_key
                  then some pps
                  else if key == bps_key
                  then some bps
                  else config_at K m key)))
        ⊎ ((e ≢ none) × (m' ≡ m))
        ⊎ ((e ≢ none)
            × ((key : ℕ)
                → config_at K m' key ≡ (if key == pps_key then some pps else config_at K m key)))
  unfolding update_rate_limits
  update_rate_limits_lem pps bps = elim (Option-cases m.config_map) [
    | inl e ↦ inr (inl (ground arith, ground arith))
    | inr (s, e) ↦ elim (Option-cases (K.config.put pps_key pps s)) [
      | inl f ↦ inr (inl (ground arith, ground arith))
      | inr (t, f) ↦ elim (Option-cases (K.config.put bps_key bps t)) [
        | inl g ↦
            inr (inr (ground arith, λ key. ground (arith, L.lookup-put pps_key key pps s t f)))
        | inr (u, g) ↦ inl (
          ground arith,
          λ key.
              ground
                (arith, L.lookup-put pps_key key pps s t f, L.lookup-put bps_key key bps t u g),
        )
      ]
    ]
  ]
