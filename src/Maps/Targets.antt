-- ===== src/Maps/Targets.antt =====
-- The target sets of MapManager (src/control_plane/map_manager.go: AddWhitelistTarget and the
-- methods after it), as sets of texts.
use shield_core.Prelude.{
  ◌≡◌, Bool, true, false, ◌&&◌, ◌||◌, not, List, [], ◌∷◌, Text, text_eq, text_eq_iff, ap,
  if◌then◌else◌, arith,
}
use shield_core.Kernel.{Kernel}
use shield_core.Maps.{MapManager}

-- `set[target] = true`, `delete(set, target)` and the test `set[target]`.
unfoldable pub member : Text → List Text → Bool
member t [] = false
member t (x ∷ xs) = text_eq x t || member t xs

unfoldable pub insert : Text → List Text → List Text
unfolding member
insert t xs = if member t xs then xs else t ∷ xs

unfoldable pub remove : Text → List Text → List Text
remove t [] = []
remove t (x ∷ xs) = let rest = remove t xs in if text_eq x t then rest else x ∷ rest

member_of_eq : (t u : Text) (xs : List Text) → text_eq t u ≡ true → member t xs ≡ member u xs
member_of_eq t u xs h = ap (λ v. member v xs) ((text_eq_iff t u).0 h)

pub member-insert :
    (t u : Text) (xs : List Text) → member u (insert t xs) ≡ (text_eq t u || member u xs)
unfolding insert member
member-insert t u xs = ground (arith, member_of_eq t u xs)

pub member-remove :
    (t u : Text) (xs : List Text) → member u (remove t xs) ≡ (not (text_eq t u) && member u xs)
unfolding remove member
member-remove t u [] = ground arith
member-remove t u (x ∷ xs) =
    ground (arith, member-remove t u xs, text_eq_iff x t, text_eq_iff x u, text_eq_iff t u)

module _ (K : Kernel) where
  unfoldable pub add_whitelist_target : MapManager K → Text → MapManager K
  unfolding insert
  add_whitelist_target m target = record m { whitelist_targets = insert target m.whitelist_targets }

  unfoldable pub remove_whitelist_target : MapManager K → Text → MapManager K
  unfolding remove
  remove_whitelist_target m target = record m {
    whitelist_targets = remove target m.whitelist_targets;
  }

  unfoldable pub get_whitelist_targets : MapManager K → List Text
  get_whitelist_targets m = m.whitelist_targets

  unfoldable pub add_blacklist_target : MapManager K → Text → MapManager K
  unfolding insert
  add_blacklist_target m target = record m { blacklist_targets = insert target m.blacklist_targets }

  unfoldable pub remove_blacklist_target : MapManager K → Text → MapManager K
  unfolding remove
  remove_blacklist_target m target = record m {
    blacklist_targets = remove target m.blacklist_targets;
  }

  unfoldable pub get_blacklist_targets : MapManager K → List Text
  get_blacklist_targets m = m.blacklist_targets
