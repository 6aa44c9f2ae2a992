-- ===== src/Tests/Rules.antt =====
-- Requests to the control plane and its restart (src/control_plane/main.go, persist.go).
use shield_core.Prelude.{
  length, ◌≤◌, ◌≡◌, ◌≢◌, ◌⊎◌, refl, true, none, some, List, [], ◌∷◌, Text, bytes, text_eq, arith,
}
use shield_core.Strings.Utf8.{json_text}
use shield_core.Kernel.Table.{small_kernel}
use shield_core.Maps.{MapManager, Outcome}
use shield_core.Maps.Targets.{member, get_blacklist_targets, get_whitelist_targets}
use shield_core.Maps.Config.{get_geoip_policy, set_geoip_policy}
use shield_core.Gate.{authorized, main_config, unreadable}
use shield_core.Gate.Window.{Arrival, asked, passed, at_most, rate_limit_window}
use shield_core.Gate.Auth.{authorized_exact}
use shield_core.Server.{json_state, Server, StateFile, saved, rules_state_of, policy_or_zero}
use shield_core.Api.{Request}
use shield_core.Api.Saved.{IsSaved}
use shield_core.Api.Restart.{Call, to_blacklist, to_whitelist, to_policy, handle_all}
use shield_core.Prelude.{◌++◌}
use shield_core.Strings.{split, trim_space, trim_left, trim_right, before_end, is_space}
use shield_core.Logs.{newest_logs, newest_from, backwards}
use shield_core.Logs.Newest.{line_at, newest_logs_lem}
use shield_core.Server.Reputation.{ReputationItem}
use shield_core.Tests.Sweeps.{maps_before, no_ipv6}

abbrev arrivals : List Arrival
arrivals = (bytes "1.2.3.4:5", 100) ∷ (bytes "1.2.3.4:6", 120) ∷ (bytes "1.2.3.4:5", 130) ∷ []

rate_limit_window_example :
    passed (bytes "1.2.3.4:5") [] arrivals ≡ at_most 60 (asked (bytes "1.2.3.4:5") arrivals)
rate_limit_window_example =
    rate_limit_window 100 (bytes "1.2.3.4:5") arrivals
      ((omega arith, omega arith), ((omega arith, omega arith), ((omega arith, omega arith), tt)))

authorized_exact_example :
    (authorized (bytes "k") (bytes "true") (bytes "k") ≡ text_eq (bytes "k") (bytes "k"))
    × (authorized (main_config (some (bytes "new")) unreadable).key (bytes "true") [] ≡ true)
authorized_exact_example =
    authorized_exact (bytes "k") (bytes "true") (bytes "k") (some (bytes "new"))

abbrev pub loaded : MapManager small_kernel
loaded = record maps_before { config_map = some [] }

abbrev pub server : StateFile → Server small_kernel
server file = record {
  map_mgr = some loaded;
  geoip_mgr = none;
  persistent = true;
  state_file = file;
  can_save = true;
  events = [];
}

abbrev pub running : Server small_kernel
running = server (saved (rules_state_of small_kernel loaded))

abbrev pub ask : Text → Text → Text → Request
ask method target action = record {
  method = method;
  target = target;
  ip = [];
  action = action;
  sync = [];
}

abbrev calls : List Call
calls =
    to_blacklist 6000 (ask (bytes "POST") (bytes "9.9.9.9") [])
    ∷ to_whitelist 6001 (ask (bytes "POST") (bytes "10.0.0.0/8") [])
    ∷ to_policy 6002 (ask (bytes "POST") [] (bytes "drop"))
    ∷ []

abbrev now_running : Server small_kernel
now_running = handle_all small_kernel no_ipv6 running calls

pub running-IsSaved : IsSaved small_kernel running
unfolding IsSaved json_state rules_state_of get_blacklist_targets get_whitelist_targets
running-IsSaved = (
  loaded,
  refl,
  refl,
  refl,
  (rules_state_of small_kernel loaded, refl, (refl, λ t. refl, λ t. refl)),
)

abbrev Restored : Server small_kernel → MapManager small_kernel → Type 0
Restored s m =
    (m' : MapManager small_kernel) × (s.map_mgr ≡ some m')
    × ((t : Text) → member t m'.blacklist_targets ≡ member t m.blacklist_targets)
    × ((t : Text) → member t m'.whitelist_targets ≡ member t m.whitelist_targets)
    × ((get_geoip_policy small_kernel m'
          ≡ Outcome.ok (policy_or_zero small_kernel (get_geoip_policy small_kernel m)))
        ⊎ ((set_geoip_policy small_kernel loaded
              (policy_or_zero small_kernel (get_geoip_policy small_kernel m))).1
            ≢ none))

abbrev pub with_targets : MapManager small_kernel
with_targets = record loaded { blacklist_targets = bytes "9.9.9.9" ∷ bytes "VN" ∷ [] }

-- A byte that is no UTF-8, a letter of two bytes, a surrogate, and a character cut short.
json_texts :
    (json_text (97 ∷ 255 ∷ 98 ∷ []) ≡ 97 ∷ 239 ∷ 191 ∷ 189 ∷ 98 ∷ [])
    × (json_text (195 ∷ 169 ∷ []) ≡ 195 ∷ 169 ∷ [])
    × (json_text (237 ∷ 160 ∷ 128 ∷ []) ≡ 239 ∷ 191 ∷ 189 ∷ 239 ∷ 191 ∷ 189 ∷ 239 ∷ 191 ∷ 189 ∷ [])
    × (json_text (226 ∷ 130 ∷ []) ≡ 239 ∷ 191 ∷ 189 ∷ 239 ∷ 191 ∷ 189 ∷ [])
unfolding json_text
json_texts = (refl, refl, refl, refl)

abbrev small_log : Text
small_log = bytes "a" ++ 10 ∷ 10 ∷ bytes " b "

newest_logs_example :
    (line_at 1 (newest_logs small_log) ≡ some (trim_space (bytes "a")))
    × (length (newest_logs small_log) ≤ 100)
unfolding trim_space split trim_left trim_right before_end is_space text_eq
newest_logs_example =
    newest_logs_lem small_log [] (bytes "a") ([] ∷ bytes " b" ∷ []) refl refl (omega arith)

two_lines : newest_logs small_log ≡ bytes "b" ∷ bytes "a" ∷ []
unfolding newest_logs newest_from backwards split trim_space trim_left trim_right before_end
    is_space text_eq
two_lines = refl

abbrev bad_items : List ReputationItem
bad_items =
    record { cidr = bytes "7.7.7.0/24"; score = 90; description = [] }
    ∷ record { cidr = bytes "8.8.8.8"; score = 10; description = [] }
    ∷ []

abbrev one_ip : Text
one_ip = bytes "9.9.9.9"
