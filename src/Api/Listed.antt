-- ===== src/Api/Listed.antt =====
-- What the target lists say after a request (src/control_plane/main.go: handleBlacklist).
use shield_core.Prelude.{
  ℕ, ◌≡◌, refl, ap, ◌∙◌, true, false, ◌||◌, not, ◌&&◌, Option, some, List, [], ◌∷◌, Text, bytes,
  text_eq, arith, Option-cases, inl, inr,
}
use shield_core.Kernel.{Kernel}
use shield_core.Maps.{MapManager}
use shield_core.Maps.Targets.{
  member, member-insert, member-remove, add_blacklist_target, remove_blacklist_target,
}
use shield_core.Maps.Cidr.{block_cidr, allow_cidr}
use shield_core.Server.{Server, Event, is_country, network_of, save_rules_state, write_event}
use shield_core.Api.{
  Request, Reply, networks, resolve_target, target_of, count_ok, sync_unless, commit,
  post_blacklist, delete_blacklist, by_method, change_targets, handle_blacklist,
}

module _ (K : Kernel) where
  -- A change of the targets is what is in memory behind it.
  pub commit_map :
      (sync : Text) (line event : Event) (m : MapManager K) (s : Server K)
      → (commit K sync line event m s).map_mgr ≡ some m
  unfolding commit sync_unless write_event save_rules_state
  commit_map sync line event m s = ground arith

  plain_target :
      (s : Server K) (r : Request)
      → is_country (target_of r) ≡ false
      → resolve_target s.geoip_mgr (target_of r)
        ≡ (s.geoip_mgr, networks (network_of (target_of r) ∷ []))
  unfolding resolve_target
  plain_target s r h = elim (Option-cases s.geoip_mgr) [
    | inl e ↦ ground (arith, e, h)
    | inr (g, e) ↦ ground (arith, e, h)
  ]

module _ (K : Kernel) (parse_ipv6 : Text → Option ℕ) (now : ℕ) where
  targets-count_block :
      (cs : List Text) (m : MapManager K)
      → (count_ok (block_cidr K parse_ipv6 now) cs m).0.blacklist_targets ≡ m.blacklist_targets
  unfolding count_ok block_cidr
  targets-count_block [] m = refl
  targets-count_block (c ∷ cs) m = targets-count_block cs (block_cidr K parse_ipv6 now m c).0

  targets-count_allow :
      (cs : List Text) (m : MapManager K)
      → (count_ok (allow_cidr K parse_ipv6) cs m).0.blacklist_targets ≡ m.blacklist_targets
  unfolding count_ok allow_cidr
  targets-count_allow [] m = refl
  targets-count_allow (c ∷ cs) m = targets-count_allow cs (allow_cidr K parse_ipv6 m c).0

  -- What the part that the methods share does with a target that is an address or a network.
  reaches :
      (post delete : Request → List Text → MapManager K → Server K → Server K × Reply)
      (s : Server K) (r : Request) (m : MapManager K)
      → is_country (target_of r) ≡ false
      → text_eq (target_of r) [] ≡ false
      → change_targets K parse_ipv6 now post delete r m s
        ≡ by_method K parse_ipv6 now post delete r m s (networks (network_of (target_of r) ∷ []))
  unfolding change_targets
  reaches post delete s r m h n = ground (arith, n, plain_target K s r h)

  pub post_lem :
      (s : Server K) (r : Request) (m : MapManager K)
      → s.map_mgr ≡ some m
      → is_country (target_of r) ≡ false
      → text_eq (target_of r) [] ≡ false
      → r.method ≡ bytes "POST"
      → handle_blacklist K parse_ipv6 now s r
        ≡ post_blacklist K parse_ipv6 now r (network_of (target_of r) ∷ []) m s
  unfolding handle_blacklist by_method text_eq
  post_lem s r m e h n p =
      let get : text_eq r.method (bytes "GET") ≡ false = rw p refl in
      let post : text_eq r.method (bytes "POST") ≡ true = rw p refl in
      ground (
        arith,
        e,
        get,
        post,
        reaches (post_blacklist K parse_ipv6 now) (delete_blacklist K parse_ipv6 now) s r m h n,
      )

  pub delete_lem :
      (s : Server K) (r : Request) (m : MapManager K)
      → s.map_mgr ≡ some m
      → is_country (target_of r) ≡ false
      → text_eq (target_of r) [] ≡ false
      → r.method ≡ bytes "DELETE"
      → handle_blacklist K parse_ipv6 now s r
        ≡ delete_blacklist K parse_ipv6 now r (network_of (target_of r) ∷ []) m s
  unfolding handle_blacklist by_method text_eq
  delete_lem s r m e h n p =
      let get : text_eq r.method (bytes "GET") ≡ false = rw p refl in
      let post : text_eq r.method (bytes "POST") ≡ false = rw p refl in
      let delete : text_eq r.method (bytes "DELETE") ≡ true = rw p refl in
      ground (
        arith,
        e,
        get,
        post,
        delete,
        reaches (post_blacklist K parse_ipv6 now) (delete_blacklist K parse_ipv6 now) s r m h n,
      )

  -- A POST of an address or a network puts its text among the blacklist targets and changes no
  -- other, whatever becomes of the network in the tries.
  pub post_listed :
      (s : Server K) (r : Request) (m : MapManager K) (t : Text)
      → s.map_mgr ≡ some m
      → is_country (target_of r) ≡ false
      → text_eq (target_of r) [] ≡ false
      → r.method ≡ bytes "POST"
      → (m' : MapManager K) × ((handle_blacklist K parse_ipv6 now s r).0.map_mgr ≡ some m')
        × (member t m'.blacklist_targets
            ≡ (text_eq (target_of r) t || member t m.blacklist_targets))
  unfolding post_blacklist add_blacklist_target
  post_listed s r m t e h n p =
      let cs = network_of (target_of r) ∷ [] in
      let m1 = (count_ok (block_cidr K parse_ipv6 now) cs m).0 in
      (
        add_blacklist_target K m1 (target_of r),
        ap (λ x. x.0.map_mgr) (post_lem s r m e h n p) ∙ commit_map K r.sync _ _ _ s,
        member-insert (target_of r) t m1.blacklist_targets
            ∙ ap (λ l. text_eq (target_of r) t || member t l) (targets-count_block cs m),
      )

  -- A DELETE of an address or a network takes its text off the blacklist targets and changes no
  -- other, whatever becomes of the network in the tries.
  pub delete_listed :
      (s : Server K) (r : Request) (m : MapManager K) (t : Text)
      → s.map_mgr ≡ some m
      → is_country (target_of r) ≡ false
      → text_eq (target_of r) [] ≡ false
      → r.method ≡ bytes "DELETE"
      → (m' : MapManager K) × ((handle_blacklist K parse_ipv6 now s r).0.map_mgr ≡ some m')
        × (member t m'.blacklist_targets
            ≡ (not (text_eq (target_of r) t) && member t m.blacklist_targets))
  unfolding delete_blacklist remove_blacklist_target
  delete_listed s r m t e h n p =
      let cs = network_of (target_of r) ∷ [] in
      let m1 = (count_ok (allow_cidr K parse_ipv6) cs m).0 in
      (
        remove_blacklist_target K m1 (target_of r),
        ap (λ x. x.0.map_mgr) (delete_lem s r m e h n p) ∙ commit_map K r.sync _ _ _ s,
        member-remove (target_of r) t m1.blacklist_targets
            ∙ ap (λ l. not (text_eq (target_of r) t) && member t l) (targets-count_allow cs m),
      )
