-- ===== src/Server/Rules.antt =====
-- The rules that the state file holds beside those in memory (src/control_plane/persist.go:
-- RulesState). A Go map of targets has no order, so neither have the lists of a state.
use mathlib.Core.Quot.{Quot}
use shield_core.Prelude.{◌≡◌, ◌∙◌, sym, Text, Option, none, some}
use shield_core.Kernel.{Kernel}
use shield_core.Maps.Targets.{member}
use shield_core.Strings.Utf8.{json_text}
use shield_core.Server.Json.{map_same, json_state_again}
use shield_core.Server.{
  RulesState, StateFile, missing, unparsable, saved, Server, json_state, rules_state_of,
}

abbrev pub SameRules : RulesState → RulesState → Type 0
SameRules a b =
    (a.geoip_policy ≡ b.geoip_policy)
    × ((t : Text) → member t a.blacklist_targets ≡ member t b.blacklist_targets)
    × ((t : Text) → member t a.whitelist_targets ≡ member t b.whitelist_targets)

pub SameRules-sym : (a b : RulesState) → SameRules a b → SameRules b a
SameRules-sym a b (p, x, y) = (sym p, λ t. sym (x t), λ t. sym (y t))

pub SameRules-trans : (a b c : RulesState) → SameRules a b → SameRules b c → SameRules a c
SameRules-trans a b c (p, x, y) (q, z, w) = (p ∙ q, λ t. x t ∙ z t, λ t. y t ∙ w t)

-- The rules without the order in which they are listed.
abbrev pub Rules : Type 0
Rules = Quot SameRules

abbrev pub rules_on_file : StateFile → Option Rules
rules_on_file missing = none
rules_on_file unparsable = none
rules_on_file (saved state) = some (Quot.mk state)

pub json_state-SameRules :
    (a b : RulesState) → SameRules a b → SameRules (json_state a) (json_state b)
unfolding json_state
json_state-SameRules a b (p, x, y) = (
  p,
  map_same json_text a.blacklist_targets b.blacklist_targets x,
  map_same json_text a.whitelist_targets b.whitelist_targets y,
)

-- Rules that JSON has written stay the same under another writing.
pub written-SameRules : (a b : RulesState) → SameRules a (json_state b) → SameRules a (json_state a)
written-SameRules a b h =
    let again = json_state-SameRules a (json_state b) h in
    SameRules-trans a (json_state b) (json_state a) h
      (SameRules-sym (json_state a) (json_state b) (rw⁻¹ (json_state_again b) again))

-- A file that holds the rules of a state as JSON writes them.
abbrev pub Agrees : StateFile → RulesState → Type 0
Agrees file state = (held : RulesState) × (file ≡ saved held) × SameRules held (json_state state)

module _ (K : Kernel) where
  abbrev pub rules_in_memory : Server K → Option Rules
  rules_in_memory s = elim s.map_mgr [ none ↦ none | some m ↦ some (Quot.mk (rules_state_of K m)) ]

  -- The rules as JSON writes them: UTF-8 texts stay, what else a target holds is replaced.
  abbrev pub rules_as_json : Server K → Option Rules
  rules_as_json s = elim s.map_mgr [
    | none ↦ none
    | some m ↦ some (Quot.mk (json_state (rules_state_of K m)))
  ]
