-- ===== src/Kernel/Deletes.antt =====
-- Deletions whose errors the program drops (src/control_plane/map_manager.go).
use shield_core.Prelude.{◌≡◌, ◌⊎◌, Bool, none, if◌then◌else◌, arith, Option-cases, inl, inr}
use shield_core.Kernel.{MapOps, IsMap, delete_or_keep}

module _ {K V : Type 0} {eq : K → K → Bool} (M : MapOps K V) (L : IsMap eq M) where
  -- A call of `Delete` whose error is dropped: the key is gone, or the map has refused it and is as
  -- it was.
  pub delete_or_keep_lem :
      (k : K) (s : M.Store)
      → ((j : K) → M.lookup j (delete_or_keep M k s) ≡ (if eq k j then none else M.lookup j s))
        ⊎ ((M.delete k s ≡ none) × (delete_or_keep M k s ≡ s))
  unfolding delete_or_keep
  delete_or_keep_lem k s = elim (Option-cases (M.delete k s)) [
    | inl f ↦ inr (f, ground (arith, f))
    | inr (t, f) ↦ inl (λ j. ground (arith, f, L.lookup-delete k j s t f))
  ]
