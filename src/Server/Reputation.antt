-- ===== src/Server/Reputation.antt =====
-- The list of networks of bad reputation (src/control_plane/main.go: ReputationItem,
-- loadReputationDatabase).
use shield_core.Prelude.{
  ℕ, ◌+◌, ◌≤◌, ◌≡◌, refl, false, Option, none, some, List, [], ◌∷◌, Text, leb, length,
  if◌then◌else◌, arith, Option-cases, Bool-cases, inl, inr,
}
use shield_core.Kernel.{Kernel}
use shield_core.Maps.{MapManager}
use shield_core.Maps.Cidr.{block_cidr}
use shield_core.Server.{apply_all}

pub record ReputationItem : Type 0 where
  pub cidr : Text
  pub score : ℕ  -- int; a negative score counts as 0, which is below 80 too
  pub description : Text

-- The networks of the items of 80 and above, in their order.
abbrev pub bad_networks : List ReputationItem → List Text
bad_networks [] = []
bad_networks (i ∷ items) =
    let rest = bad_networks items in if leb 80 i.score then i.cidr ∷ rest else rest

module _ (K : Kernel) (parse_ipv6 : Text → Option ℕ) (now : ℕ) where
  -- The loop over the items: the manager after it and the number of networks that were blocked.
  unfoldable pub load_items : List ReputationItem → MapManager K → MapManager K × ℕ
  load_items [] m = (m, 0)
  load_items (i ∷ items) m =
      let (m1, e) = block_cidr K parse_ipv6 now m i.cidr in
      let (m2, n) = load_items items m1 in
      let (m3, k) = load_items items m in
      if leb 80 i.score then (m2, elim e [ none ↦ n + 1 | some x ↦ n ]) else (m3, k)

  -- Loading the list blocks exactly the networks of the items of 80 and above, one after the
  -- other, as blacklist targets are applied, and counts no more than these.
  pub load_items_exact :
      (items : List ReputationItem) (m : MapManager K)
      → let (m', n) = load_items items m in
        (m' ≡ apply_all K parse_ipv6 now false (bad_networks items) m)
        × (n ≤ length (bad_networks items))
  unfolding load_items apply_all
  load_items_exact [] m = (refl, omega arith)
  load_items_exact (i ∷ items) m =
      let (m1, e) = block_cidr K parse_ipv6 now m i.cidr in
      let (taken, n) = load_items_exact items m1 in
      let (skipped, k) = load_items_exact items m in
      elim (Bool-cases (leb 80 i.score)) [
        | inl y ↦ elim (Option-cases e) [
          | inl f ↦ (ground (arith, taken), ground (arith, n, f))
          | inr (x, f) ↦ (ground (arith, taken), ground (arith, n, f))
        ]
        | inr n' ↦ (ground (arith, skipped), ground (arith, k))
      ]
