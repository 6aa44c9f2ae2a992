-- ===== src/Routes/Serve.antt =====
-- The multiplexer and the middleware before its handlers (src/control_plane/main.go, main).
use shield_core.Prelude.{ℕ, Option, List, [], ◌∷◌, Text, bytes, text_eq, if◌then◌else◌}
use shield_core.Strings.Query.{get}
use shield_core.Kernel.{Kernel}
use shield_core.Wireguard.{Host}
use shield_core.Geoip.{Disk}
use shield_core.Gate.{RateLimitMap, rate_limit, authorized}
use shield_core.Server.{Server}
use shield_core.Api.{Request, Reply, handle_blacklist, handle_whitelist}
use shield_core.Api.Policy.{handle_rules_policy}
use shield_core.Logs.{LogFile, LogAnswer, not_read, no_body, shown, handle_logs}
use shield_core.Routes.{
  blank, Incoming, Answer, error, rules, logs, health, metrics, files, handle_stats,
  handle_geoip_health, handle_geoip_reload, RoutingCalls, handle_routing,
}

-- The patterns of the multiplexer, for paths that are matched as they are.
pub data Route : Type 0 where
  blacklist routing stats geoip_health geoip_reload whitelist rules_policy show_logs : Route

pub data Endpoint : Type 0 where
  guarded : Route → Endpoint
  show_metrics show_health static_files : Endpoint

unfoldable pub endpoint_of : Text → Endpoint
endpoint_of path =
    if text_eq path (bytes "/api/blacklist")
    then guarded blacklist
    else if text_eq path (bytes "/api/routing")
    then guarded routing
    else if text_eq path (bytes "/api/stats")
    then guarded stats
    else if text_eq path (bytes "/api/geoip/health")
    then guarded geoip_health
    else if text_eq path (bytes "/api/geoip/reload")
    then guarded geoip_reload
    else if text_eq path (bytes "/api/whitelist")
    then guarded whitelist
    else if text_eq path (bytes "/api/rules/policy")
    then guarded rules_policy
    else if text_eq path (bytes "/api/logs")
    then guarded show_logs
    else if text_eq path (bytes "/metrics")
    then show_metrics
    else if text_eq path (bytes "/health")
    then show_health
    else static_files

-- What the rule handlers read of a request.
unfoldable pub request_of : Incoming → Request
request_of r = record {
  method = r.method;
  target = get (bytes "target") r.values;
  ip = get (bytes "ip") r.values;
  action = get (bytes "action") r.values;
  sync = get (bytes "sync") r.values;
}

-- The server, the host and the counts of the rate limiter.
pub record World (K : Kernel) : Type 0 where
  pub server : Server K
  pub host : Host
  pub rates : RateLimitMap

unfoldable pub logs_or_error : LogAnswer → Answer
logs_or_error not_read = error 500
logs_or_error no_body = blank
logs_or_error (shown lines) = logs lines

module _ (K : Kernel) (parse_ipv6 : Text → Option ℕ) (calls : RoutingCalls K) (disk : Disk)
    (log : LogFile) (api_key : Text) where
  unfoldable pub put_rules : World K → Server K × Reply → World K × Answer
  put_rules w (s, reply) = (record w { server = s }, rules reply)

  unfoldable pub put_server : World K → Server K × Answer → World K × Answer
  put_server w (s, answer) = (record w { server = s }, answer)

  unfoldable pub put_routed : World K → (Server K × Host) × Answer → World K × Answer
  put_routed w ((s, h), answer) = (record w { server = s; host = h }, answer)

  unfoldable pub handle : Route → World K → Incoming → World K × Answer
  unfolding put_rules put_server put_routed logs_or_error request_of
  handle blacklist w r = put_rules w (handle_blacklist K parse_ipv6 r.time w.server (request_of r))
  handle routing w r = put_routed w (handle_routing K calls r.method r.values (w.server, w.host))
  handle stats w r = (w, handle_stats K w.server)
  handle geoip_health w r = (w, handle_geoip_health K w.server)
  handle geoip_reload w r = put_server w (handle_geoip_reload K disk r.time r.method w.server)
  handle whitelist w r = put_rules w (handle_whitelist K parse_ipv6 r.time w.server (request_of r))
  handle rules_policy w r = put_rules w (handle_rules_policy K w.server (request_of r))
  handle show_logs w r = (w, logs_or_error (handle_logs log))

  -- `authMiddleware` around a handler.
  unfoldable pub authenticate : Route → World K → Incoming → World K × Answer
  unfolding handle authorized
  authenticate route w r =
      if authorized api_key (get (bytes "sync") r.values) r.api_key
      then handle route w r
      else (w, error 401)

  -- `rateLimitMiddleware` around that.
  unfoldable pub limit : Route → World K → Incoming → World K × Answer
  unfolding authenticate
  limit route w r =
      let (rates, passed) = rate_limit w.rates r.remote_addr r.time in
      let counted = record w { rates = rates } in
      if passed then authenticate route counted r else (counted, error 429)

  unfoldable pub at_endpoint : Endpoint → World K → Incoming → World K × Answer
  unfolding limit
  at_endpoint (guarded route) w r = limit route w r
  at_endpoint show_metrics w r = (w, metrics)
  at_endpoint show_health w r = (w, health)
  at_endpoint static_files w r = (w, files)

  unfoldable pub serve : World K → Incoming → World K × Answer
  unfolding at_endpoint endpoint_of
  serve w r = at_endpoint (endpoint_of r.path) w r

  unfoldable pub serve_all : List Incoming → World K → World K
  unfolding serve
  serve_all [] w = w
  serve_all (r ∷ rs) w = serve_all rs (serve w r).0
