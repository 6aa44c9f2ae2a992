-- ===== src/Gate.antt =====
-- What stands before the handlers (src/control_plane/main.go, main: rateLimitMiddleware and
-- authMiddleware; src/control_plane/config.go: LoadConfig, from which the key comes).
pub mod Window
pub mod Auth
use shield_core.Prelude.{
  ℕ, ◌+◌, ◌*◌, ◌^◌, Bool, true, false, Option, none, some, List, [], ◌∷◌, Text, bytes, text_eq, ltb,
  not, if◌then◌else◌,
}

-- Times are nanoseconds.
abbrev pub minute : ℕ
minute = 60 * 10 ^ 9

pub record RateLimitEntry : Type 0 where
  pub count : ℕ
  pub reset_at : ℕ

-- The map from RemoteAddr.
abbrev pub RateLimitMap : Type 0
RateLimitMap = List (Text × RateLimitEntry)

unfoldable pub entry_of : Text → RateLimitMap → Option RateLimitEntry
entry_of a [] = none
entry_of a (p ∷ l) = if text_eq p.0 a then some p.1 else entry_of a l

-- One request: the entry is made on the first, starts again behind its end, and is counted up.
unfoldable pub count_request : ℕ → Option RateLimitEntry → RateLimitEntry
count_request now none = record { count = 1; reset_at = now + minute }
count_request now (some e) =
    if ltb e.reset_at now
    then record { count = 1; reset_at = now + minute }
    else record { count = e.count + 1; reset_at = e.reset_at }

-- The map after a request, and whether the request is let through.
unfoldable pub rate_limit : RateLimitMap → Text → ℕ → RateLimitMap × Bool
unfolding entry_of count_request
rate_limit l client_ip now =
    let e = count_request now (entry_of client_ip l) in ((client_ip, e) ∷ l, not (ltb 60 e.count))

-- The two headers of a request that matter, and whether it is a node's.
unfoldable pub authorized : Text → Text → Text → Bool
authorized api_key sync header =
    if text_eq sync (bytes "true")
    then (if not (text_eq header api_key) then false else true)
    else if not (text_eq header api_key)
    then false
    else true

-- config.json: what of it can be read, and whether it is JSON throughout.
pub record Config : Type 0 where
  pub asn_db_path : Text
  pub country_db_path : Text
  pub key : Text
  pub listen : Text

pub data ConfigFile : Type 0 where
  unreadable : ConfigFile
  decoded : Config → Bool → ConfigFile

unfoldable pub empty_config : Config
empty_config = record { asn_db_path = []; country_db_path = []; key = []; listen = [] }

-- The configuration and whether there was no error; `generated` is the text of 32 random bytes,
-- none where none could be read.
unfoldable pub load_config : Option Text → ConfigFile → Config × Bool
unfolding empty_config
load_config generated unreadable = (empty_config, false)
load_config generated (decoded c parsed) =
    let new_key : Text = elim generated [ none ↦ c.key | some t ↦ t ] in
    (
      record c {
        key = if text_eq c.key [] then new_key else c.key;
        listen = if text_eq c.listen [] then bytes ":8080" else c.listen;
      },
      parsed,
    )

-- The configuration that `main` goes on with.
unfoldable pub main_config : Option Text → ConfigFile → Config
unfolding load_config
main_config generated file =
    let (c, no_error) = load_config generated file in
    if no_error then c else record c {
      asn_db_path = bytes "data/geoip/GeoLite2-ASN.mmdb";
      country_db_path = bytes "data/geoip/GeoLite2-Country.mmdb";
    }
