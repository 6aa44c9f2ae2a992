-- ===== src/Maps/Backends/Removal.antt =====
-- What is left in the backend map after RemoveBackendVIP (src/control_plane/map_manager.go).
use shield_core.Prelude.{
  ◌∙◌, ℕ, ◌≡◌, ◌≢◌, ◌⊎◌, inl, inr, refl, ap, Bool, true, false, ◌&&◌, ◌||◌, Option, none, List, [],
  ◌∷◌, ◌++◌, Text, ◌==◌, if◌then◌else◌, arith, Option-cases, Bool-cases,
}
use shield_core.Net.Lpm.{Parsed, Parsed-cases, ip_to_uint32}
use shield_core.Kernel.{
  Kernel, IsMap, BackendKey, BackendInfo, backend_key_eq, yields, delete_or_keep,
}
use shield_core.Kernel.Deletes.{delete_or_keep_lem}
use shield_core.Wireguard.{Host}
use shield_core.Maps.{MapManager}
use shield_core.Maps.Backends.{
  is_wireguard, backend_key, keys_of, delete_all, remove_vip, remove_backend_vip,
}
use shield_core.Maps.Backends.Laws.{backend_at}

in_keys : BackendKey → List BackendKey → Bool
in_keys j [] = false
in_keys j (k ∷ ks) = backend_key_eq k j || in_keys j ks

module _ (K : Kernel) where
  -- The map refuses to delete the key, as it is when the loop over the keys has come to it.
  abbrev pub Refuses : List BackendKey → K.backend.Store → BackendKey → Type 0
  Refuses ks s j =
      (xs : List BackendKey) × (ys : List BackendKey) × (ks ≡ xs ++ j ∷ ys)
      × (K.backend.delete j (delete_all K xs s) ≡ none)

  Refuses-later :
      (k : BackendKey) (ks : List BackendKey) (s s1 : K.backend.Store) (j : BackendKey)
      → delete_or_keep K.backend k s ≡ s1
      → Refuses ks s1 j
      → Refuses (k ∷ ks) s j
  unfolding delete_all
  Refuses-later k ks s s1 j h (xs, ys, e, f) = (k ∷ xs, ys, ap (λ l. k ∷ l) e, rw h f)

  -- What a loop of deletions leaves of the keys of an address.
  abbrev pub Wiped : ℕ → MapManager K → MapManager K → Type 0
  Wiped vip m m' =
      (j : BackendKey)
      → (backend_at K m' j ≡ (if j.vip == vip then none else backend_at K m j))
        ⊎ (Refuses (keys_of K vip (K.backend.iterate m.backend_map).0) m.backend_map j
            × (backend_at K m' j ≡ backend_at K m j))

module _ (K : Kernel) (L : IsMap backend_key_eq K.backend) where
  lookup-delete_all :
      (ks : List BackendKey) (s : K.backend.Store) (j : BackendKey)
      → (K.backend.lookup j (delete_all K ks s)
          ≡ (if in_keys j ks then none else K.backend.lookup j s))
        ⊎ (Refuses K ks s j × (K.backend.lookup j (delete_all K ks s) ≡ K.backend.lookup j s))
  unfolding delete_all in_keys
  lookup-delete_all [] s j = inl refl
  lookup-delete_all (k ∷ ks) s j =
      let s1 = delete_or_keep K.backend k s in
      elim (delete_or_keep_lem K.backend L k s) [
        | inl gone ↦ elim (lookup-delete_all ks s1 j) [
          | inl h ↦ inl (ground (arith, h, gone j))
          | inr (r, h) ↦ elim (Bool-cases (backend_key_eq k j)) [
            | inl y ↦ inl (ground (arith, h, gone j, y))
            | inr n ↦ inr (Refuses-later K k ks s s1 j refl r, ground (arith, h, gone j, n))
          ]
        ]
        | inr (f, kept) ↦ elim (lookup-delete_all ks s1 j) [
          | inr (r, h) ↦ inr (Refuses-later K k ks s s1 j refl r, h ∙ ap (K.backend.lookup j) kept)
          | inl h ↦ elim (Bool-cases (backend_key_eq k j)) [
            | inr n ↦ inl (ground (arith, h, kept, n))
            | inl y ↦ elim (Bool-cases (in_keys j ks)) [
              | inl x ↦ inl (ground (arith, h, x))
              | inr x ↦
                  let same : k ≡ j = L.eq_sound k j y in
                  inr (([], ks, rw same refl, rw⁻¹ same f), ground (arith, h, x, kept))
            ]
          ]
        ]
      ]

  in_keys-keys_of :
      (vip : ℕ) (l : List (BackendKey × BackendInfo)) (j : BackendKey)
      → in_keys j (keys_of K vip l) ≡ (yields backend_key_eq j l && j.vip == vip)
  unfolding keys_of in_keys
  in_keys-keys_of vip [] j = refl
  in_keys-keys_of vip (p ∷ l) j = elim (Bool-cases (backend_key_eq p.0 j)) [
    | inl e ↦ ground (arith, in_keys-keys_of vip l j, ap (λ k. k.vip == vip) (L.eq_sound p.0 j e))
    | inr e ↦ ground (arith, in_keys-keys_of vip l j)
  ]

  remove_vip_lem :
      (m : MapManager K) (vip : ℕ)
      → let (m', e) = remove_vip K m vip in
        ((e ≡ none) × Wiped K vip m m') ⊎ ((e ≢ none) × (m' ≡ m))
  unfolding remove_vip
  remove_vip_lem m vip =
      let (l, done) = K.backend.iterate m.backend_map in
      elim (Bool-cases done) [
        | inr d ↦ inr (ground arith, ground arith)
        | inl d ↦ inl (
          ground arith,
          λ j. elim (lookup-delete_all (keys_of K vip l) m.backend_map j) [
            | inr (r, h) ↦ inr (r, ground (arith, d, h))
            | inl h ↦ inl (elim (Option-cases (backend_at K m j)) [
              | inl n ↦ ground (arith, d, n, h)
              | inr (v, f) ↦
                  ground
                    (arith, d, h, in_keys-keys_of vip l j, L.iterate_complete m.backend_map j v d f)
            ])
          ],
        )
      ]

module _ (K : Kernel) (L : IsMap backend_key_eq K.backend) (parse_ipv6 : Text → Option ℕ)
    (m : MapManager K) (h : Host) (vip_str : Text) (vport protocol : ℕ)
    (backend_str tunnel_type : Text) where
  fallback :
      (vip : ℕ) (pubkey : Text)
      → let ((m', h'), e) =
          remove_backend_vip K parse_ipv6 m h vip_str vport protocol backend_str tunnel_type
            pubkey in
        ip_to_uint32 parse_ipv6 vip_str ≡ Parsed.ok vip
        → (vport ≡ 0) ⊎ (K.backend.delete (backend_key vip vport protocol) m.backend_map ≡ none)
        → m' ≡ (remove_vip K m vip).0
        → e ≡ (remove_vip K m vip).1
        → ((e ≡ none)
            × ((x : ℕ) × (ip_to_uint32 parse_ipv6 vip_str ≡ Parsed.ok x)
                × (((vport ≢ 0)
                      × ((j : BackendKey)
                          → backend_at K m' j ≡ (
                              if backend_key_eq (backend_key x vport protocol) j
                              then none
                              else backend_at K m j)))
                    ⊎ (((vport ≡ 0)
                          ⊎ (K.backend.delete (backend_key x vport protocol) m.backend_map ≡ none))
                        × Wiped K x m m'))))
          ⊎ ((e ≢ none) × (m' ≡ m))
  fallback vip pubkey p why e1 e2 =
      rw (e1, e2)
        (elim (remove_vip_lem K L m vip) [
          | inl (e, f) ↦ inl (e, (vip, p, inr (why, f)))
          | inr kept ↦ inr kept
        ])

  -- Removing a backend either succeeds, and then only the key of a port other than 0 is gone, or,
  -- where the port is 0 or the map refused to delete that key, whatever the reason, every key of the
  -- address is gone but those that the map refused to delete, and no other; or it fails and changes
  -- no map. Only a wireguard tunnel changes the host.
  pub remove_backend_vip_lem :
      (pubkey : Text)
      → let ((m', h'), e) =
          remove_backend_vip K parse_ipv6 m h vip_str vport protocol backend_str tunnel_type
            pubkey in
        (((e ≡ none)
            × ((vip : ℕ) × (ip_to_uint32 parse_ipv6 vip_str ≡ Parsed.ok vip)
                × (((vport ≢ 0)
                      × ((j : BackendKey)
                          → backend_at K m' j ≡ (
                              if backend_key_eq (backend_key vip vport protocol) j
                              then none
                              else backend_at K m j)))
                    ⊎ (((vport ≡ 0)
                          ⊎ (K.backend.delete (backend_key vip vport protocol) m.backend_map
                              ≡ none))
                        × Wiped K vip m m'))))
          ⊎ ((e ≢ none) × (m' ≡ m)))
        × ((is_wireguard tunnel_type ≡ true) ⊎ (h' ≡ h))
  unfolding remove_backend_vip
  remove_backend_vip_lem pubkey = elim (Parsed-cases (ip_to_uint32 parse_ipv6 vip_str)) [
    | inl (x, p) ↦ (inr (ground arith, ground arith), inr (ground arith))
    | inr (vip, p) ↦
        let key = backend_key vip vport protocol in
        let deleted = Option-cases (K.backend.delete key m.backend_map) in
        (
          elim (Bool-cases (vport == 0)) [
            | inl z ↦ fallback vip pubkey p (inl (ground arith)) (ground arith) (ground arith)
            | inr z ↦ elim deleted [
              | inl f ↦ fallback vip pubkey p (inr f) (ground arith) (ground arith)
              | inr (t, f) ↦ inl (
                ground arith,
                (
                  vip,
                  p,
                  inl (
                    λ e. ground (arith, e, z),
                    λ j. ground (arith, L.lookup-delete key j m.backend_map t f),
                  ),
                ),
              )
            ]
          ],
          elim (Bool-cases (is_wireguard tunnel_type)) [
            | inl w ↦ inl w
            | inr w ↦ inr (elim (Bool-cases (vport == 0)) [
              | inl z ↦ ground arith
              | inr z ↦ elim deleted [ inl f ↦ ground arith | inr (t, f) ↦ ground arith ]
            ])
          ],
        )
  ]
