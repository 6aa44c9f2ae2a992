-- ===== src/Gate/Auth.antt =====
-- Which keys are accepted (src/control_plane/main.go, main; src/control_plane/config.go).
use shield_core.Prelude.{◌≡◌, Bool, true, false, Option, some, [], Text, text_eq, arith}
use shield_core.Gate.{
  authorized, Config, unreadable, decoded, main_config, load_config, empty_config,
}

-- A request is authorized exactly if its header is the key, whether or not it is a node's. Where
-- config.json cannot be read the key is empty, and then a request with no key is authorized.
pub authorized_exact :
    (api_key sync header : Text) (generated : Option Text)
    → (authorized api_key sync header ≡ text_eq header api_key)
      × (authorized (main_config generated unreadable).key sync [] ≡ true)
unfolding authorized main_config load_config empty_config text_eq
authorized_exact api_key sync header generated = (ground arith, ground arith)

-- Where config.json is read, the key is empty only if the file has none and none was generated.
pub main_config-key :
    (c : Config) (parsed : Bool) (t : Text)
    → text_eq t [] ≡ false
    → text_eq (main_config (some t) (decoded c parsed)).key [] ≡ false
unfolding main_config load_config
main_config-key c true t h = ground arith
main_config-key c false t h = ground arith
