-- ===== src/Startup/Degraded.antt =====
-- A start without the program: the API is there and changes nothing (src/control_plane/main.go,
-- main and the handlers' first tests).
use shield_core.Prelude.{ℕ, ◌≡◌, refl, Option, List, Text}
use shield_core.Kernel.{Kernel}
use shield_core.Wireguard.{Host}
use shield_core.Gate.{Config}
use shield_core.Cluster.{Cluster}
use shield_core.Api.{Request, refused, handle_blacklist, handle_whitelist}
use shield_core.Api.Policy.{handle_rules_policy}
use shield_core.Routes.{RoutingCalls, error, handle_stats, handle_routing}
use shield_core.Startup.Loader.{LoadError, failed}
use shield_core.Startup.{Found, server_with, start}

module _ (K : Kernel) (parse_ipv6 : Text → Option ℕ) (now : ℕ) (calls : RoutingCalls K)
    (config : Config) (why : LoadError) (found : Found K) (c : Cluster) where
  -- Where the program could not be loaded, every request for the rules, the statistics and the
  -- backends is answered with 503 and changes nothing.
  pub start_degraded :
      (r : Request) (h : Host) (method : Text) (values : List (Text × Text)) (then : ℕ)
      → let s = (start K parse_ipv6 now config (failed why) found c).0 in
        (handle_blacklist K parse_ipv6 then s r ≡ (s, refused 503))
        × (handle_whitelist K parse_ipv6 then s r ≡ (s, refused 503))
        × (handle_rules_policy K s r ≡ (s, refused 503))
        × (handle_stats K s ≡ error 503)
        × (handle_routing K calls method values (s, h) ≡ ((s, h), error 503))
  unfolding start server_with handle_blacklist handle_whitelist handle_rules_policy handle_stats
      handle_routing
  start_degraded r h method values then = (refl, refl, refl, refl, refl)
