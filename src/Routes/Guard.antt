-- ===== src/Routes/Guard.antt =====
-- What requests without the key can do (src/control_plane/main.go, main: the middleware and the
-- routes).
use shield_core.Prelude.{
  ℕ, ◌≡◌, ◌∙◌, ◌⊎◌, refl, false, inl, inr, List, [], ◌∷◌, Option, Text, text_eq, All, arith,
  Bool-cases,
}
use shield_core.Kernel.{Kernel}
use shield_core.Geoip.{Disk}
use shield_core.Gate.{rate_limit, authorized}
use shield_core.Logs.{LogFile}
use shield_core.Routes.{Incoming, error, RoutingCalls}
use shield_core.Routes.Serve.{
  Route, Endpoint, guarded, show_metrics, show_health, static_files, endpoint_of, World,
  authenticate, limit, at_endpoint, serve, serve_all,
}

module _ (K : Kernel) (parse_ipv6 : Text → Option ℕ) (calls : RoutingCalls K) (disk : Disk)
    (log : LogFile) (api_key : Text) where
  -- The rules, the maps and the host are the same.
  abbrev pub IsSame : World K → World K → Type 0
  IsSame w w' = (w.server ≡ w'.server) × (w.host ≡ w'.host)

  authenticate_keyless :
      (route : Route) (w : World K) (r : Incoming)
      → text_eq r.api_key api_key ≡ false
      → authenticate K parse_ipv6 calls disk log api_key route w r ≡ (w, error 401)
  unfolding authenticate authorized
  authenticate_keyless route w r h = ground (arith, h)

  limit_keyless :
      (route : Route) (w : World K) (r : Incoming)
      → text_eq r.api_key api_key ≡ false
      → let (w', answer) = limit K parse_ipv6 calls disk log api_key route w r in
        IsSame w w' × ((answer ≡ error 401) ⊎ (answer ≡ error 429))
  unfolding limit
  limit_keyless route w r h =
      let (rates, passed) = rate_limit w.rates r.remote_addr r.time in
      let counted : World K = record w { rates = rates } in
      elim (Bool-cases passed) [
        | inl e ↦ rw (e, authenticate_keyless route counted r h) ((refl, refl), inl refl)
        | inr e ↦ rw e ((refl, refl), inr refl)
      ]

  at_endpoint_keyless :
      (e : Endpoint) (w : World K) (r : Incoming)
      → text_eq r.api_key api_key ≡ false
      → IsSame w (at_endpoint K parse_ipv6 calls disk log api_key e w r).0
  unfolding at_endpoint
  at_endpoint_keyless (guarded route) w r h = (limit_keyless route w r h).0
  at_endpoint_keyless show_metrics w r h = (refl, refl)
  at_endpoint_keyless show_health w r h = (refl, refl)
  at_endpoint_keyless static_files w r h = (refl, refl)

  -- No sequence of requests without the key changes the rules, the maps or the host, whatever
  -- their paths, methods and addresses.
  pub serve_all_keyless :
      (rs : List Incoming) (w : World K)
      → All (λ r. text_eq r.api_key api_key ≡ false) rs
      → IsSame w (serve_all K parse_ipv6 calls disk log api_key rs w)
  unfolding serve_all serve
  serve_all_keyless [] w h = (refl, refl)
  serve_all_keyless (r ∷ rs) w (h, hs) =
      let (s, t) = at_endpoint_keyless (endpoint_of r.path) w r h in
      let (s', t') = serve_all_keyless rs (serve K parse_ipv6 calls disk log api_key w r).0 hs in
      (s ∙ s', t ∙ t')
