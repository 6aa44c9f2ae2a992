-- ===== src/Geoip.antt =====
-- GeoIPManager (src/control_plane/geoip.go): the two databases, their reload and the cached
-- lookups of the networks of a country or an autonomous system.
pub mod Lookups
pub mod Requests
use shield_core.Prelude.{
  ℕ, ◌+◌, ◌%◌, ◌^◌, Bool, true, false, ◌&&◌, ◌||◌, not, Option, none, some, List, [], ◌∷◌, ◌++◌,
  Text, bytes, text_eq, contains, ◌==◌, if◌then◌else◌,
}
use shield_core.Strings.{to_lower}
use shield_core.Net.Decimal.{print_u64}

-- One network of a database: its text, and what decoding it into a variable of the program gives
-- of the value that was there: none on an error.
pub record Network (Key : Type 0) : Type 0 where
  pub subnet : Text
  pub decode : Key → Option Key

-- An open database, as package maxminddb reads it.
pub record Reader (Key : Type 0) : Type 0 where
  pub database_type : Text
  pub major : ℕ  -- uint
  pub minor : ℕ  -- uint
  pub networks : List (Network Key)

-- A file that can be read: its size, and the database where it can be opened.
pub record DbFile (Key : Type 0) : Type 0 where
  pub file_size : ℕ  -- int64
  pub opened : Option (Reader Key)

-- The fields of one database, asn or country.
pub record Database (Key : Type 0) : Type 0 where
  pub path : Text
  pub reader : Option (Reader Key)
  pub loaded : Bool
  pub size : ℕ
  pub version : Text
  pub cache : Option (List (Key × List Text))  -- nil until it is made

pub record GeoIpManager : Type 0 where
  pub asn : Database ℕ
  pub country : Database Text
  pub last_reload_time : ℕ
  pub cache_hits : ℕ  -- uint64
  pub cache_misses : ℕ  -- uint64

-- What the disk holds under each path.
pub record Disk : Type 0 where
  pub asn_files : Text → Option (DbFile ℕ)
  pub country_files : Text → Option (DbFile Text)

unfoldable pub resolve_path : (Text → Bool) → Text → Text
resolve_path exists path =
    if exists path then path else if exists (bytes "../" ++ path) then bytes "../" ++ path else path

unfoldable pub found : {A : Type 0} → Option A → Bool
found none = false
found (some a) = true

-- The new database replaces the old one where it opens and is of a kind that is meant.
unfoldable pub reload_database :
    {Key : Type 0} → Text → Text → (Text → Option (DbFile Key)) → Database Key → Database Key
unfolding resolve_path found
reload_database kind other files d =
    let emptied = record d { cache = some [] } in
    elim (files (resolve_path (λ p. found (files p)) d.path)) [
      | none ↦ emptied
      | some file ↦ elim file.opened [
        | none ↦ emptied
        | some r ↦
            let db_type = to_lower r.database_type in
            if contains db_type kind || contains db_type other
            then record emptied {
              reader = some r;
              loaded = true;
              size = file.file_size;
              version = (print_u64 r.major ++ bytes ".") ++ print_u64 r.minor;
            }
            else emptied
      ]
    ]

unfoldable pub reload : Disk → ℕ → GeoIpManager → GeoIpManager
unfolding reload_database
reload disk now g = record {
  asn = reload_database (bytes "asn") (bytes "isp") disk.asn_files g.asn;
  country = reload_database (bytes "country") (bytes "city") disk.country_files g.country;
  last_reload_time = now;
  cache_hits = 0;
  cache_misses = 0;
}

unfoldable pub unopened : {Key : Type 0} → Text → Database Key
unopened path = record {
  path = path;
  reader = none;
  loaded = false;
  size = 0;
  version = [];
  cache = none;
}

unfoldable pub unloaded : Text → Text → GeoIpManager
unfolding unopened
unloaded asn_path country_path = record {
  asn = unopened asn_path;
  country = unopened country_path;
  last_reload_time = 0;
  cache_hits = 0;
  cache_misses = 0;
}

unfoldable pub init_geoip_manager : Disk → ℕ → Text → Text → GeoIpManager
init_geoip_manager disk now asn_path country_path = reload disk now (unloaded asn_path country_path)

unfoldable pub close : GeoIpManager → GeoIpManager
close g = record g {
  asn = record g.asn { reader = none };
  country = record g.country { reader = none };
}

module _ {Key : Type 0} (eq : Key → Key → Bool) where
  unfoldable pub cached : Key → List (Key × List Text) → Option (List Text)
  cached k [] = none
  cached k (p ∷ l) = if eq p.0 k then some p.1 else cached k l

  -- The loop over the networks, with the variable that each is decoded into.
  unfoldable pub collect : Key → Key → List (Network Key) → List Text
  collect k value [] = []
  collect k value (n ∷ ns) = elim (n.decode value) [
    | none ↦ collect k value ns
    | some v ↦ let rest = collect k v ns in if eq v k then n.subnet ∷ rest else rest
  ]

  unfoldable pub hit : Key → Option (List (Key × List Text)) → Option (List Text)
  unfolding cached
  hit k none = none
  hit k (some l) = cached k l

  unfoldable pub made : Option (List (Key × List Text)) → List (Key × List Text)
  made none = []
  made (some l) = l

  -- A lookup: the database after it, whether the cache had the key, and the networks, none where no
  -- database is loaded.
  unfoldable pub get_cidrs : Key → Key → Database Key → (Database Key × Bool) × Option (List Text)
  unfolding hit made collect
  get_cidrs zero_value k d = elim (hit k d.cache) [
    | some cidrs ↦ ((d, true), some cidrs)
    | none ↦ if not d.loaded then ((d, false), none) else elim d.reader [
      | none ↦ ((d, false), none)
      | some r ↦
          let cidrs = collect k zero_value r.networks in
          ((record d { cache = some ((k, cidrs) ∷ made d.cache) }, false), some cidrs)
    ]
  ]

-- The counters after a lookup.
unfoldable pub counted : {A : Type 0} → Bool → Option A → GeoIpManager → GeoIpManager
counted true r g = record g { cache_hits = (g.cache_hits + 1) % 2 ^ 64 }
counted false none g = g
counted false (some a) g = record g { cache_misses = (g.cache_misses + 1) % 2 ^ 64 }

unfoldable pub get_country_cidrs : GeoIpManager → Text → GeoIpManager × Option (List Text)
unfolding counted
get_country_cidrs g country_code =
    let ((d, was_hit), out) = get_cidrs text_eq [] country_code g.country in
    (counted was_hit out (record g { country = d }), out)

unfoldable pub get_asn_cidrs : GeoIpManager → ℕ → GeoIpManager × Option (List Text)
unfolding counted
get_asn_cidrs g target_asn =
    let ((d, was_hit), out) = get_cidrs ◌==◌ 0 target_asn g.asn in
    (counted was_hit out (record g { asn = d }), out)
