-- ===== src/Geoip/Requests.antt =====
-- Lookups between reloads (src/control_plane/geoip.go).
use shield_core.Prelude.{
  ℕ, ◌≡◌, refl, sym, Bool, true, false, Option, none, some, List, [], ◌∷◌, Text, bytes, text_eq,
  text_eq_iff, arith, ◌==◌,
}
use mathlib.Core.Path.{subst}
use shield_core.Geoip.{
  GeoIpManager, Disk, get_cidrs, reload, get_country_cidrs, get_asn_cidrs, counted,
  init_geoip_manager, unloaded,
}
use shield_core.Geoip.Lookups.{answer, IsFresh, get_cidrs_lem, reload_database_lem}

abbrev pub IsFreshManager : GeoIpManager → Type 0
IsFreshManager g = IsFresh text_eq [] g.country × IsFresh ◌==◌ 0 g.asn

counted-databases :
    {A : Type 0} (b : Bool) (r : Option A) (g : GeoIpManager)
    → ((counted b r g).country ≡ g.country) × ((counted b r g).asn ≡ g.asn)
unfolding counted
counted-databases true r g = (refl, refl)
counted-databases false none g = (refl, refl)
counted-databases false (some a) g = (refl, refl)

text_sound : (s t : Text) → text_eq s t ≡ true → s ≡ t
text_sound s t = (text_eq_iff s t).0

nat_sound : (m n : ℕ) → (m == n) ≡ true → m ≡ n
nat_sound m n h = ground arith

-- In a fresh manager a lookup of a country answers what the database answers, and the manager is
-- fresh after it.
country-IsFresh :
    (g : GeoIpManager) (code : Text)
    → IsFreshManager g
    → let (g', out) = get_country_cidrs g code in
      (out ≡ answer text_eq [] code g.country) × IsFreshManager g'
unfolding get_country_cidrs
country-IsFresh g code (c, a) =
    let ((d, was_hit), out) = get_cidrs text_eq [] code g.country in
    let (e, f) = get_cidrs_lem text_eq [] text_sound code g.country c in
    let (same, other) = counted-databases was_hit out (record g { country = d }) in
    (e, (subst (IsFresh text_eq []) (sym same) f, subst (IsFresh ◌==◌ 0) (sym other) a))

asn-IsFresh :
    (g : GeoIpManager) (n : ℕ)
    → IsFreshManager g
    → let (g', out) = get_asn_cidrs g n in (out ≡ answer ◌==◌ 0 n g.asn) × IsFreshManager g'
unfolding get_asn_cidrs
asn-IsFresh g n (c, a) =
    let ((d, was_hit), out) = get_cidrs ◌==◌ 0 n g.asn in
    let (e, f) = get_cidrs_lem ◌==◌ 0 nat_sound n g.asn a in
    let (other, same) = counted-databases was_hit out (record g { asn = d }) in
    (e, (subst (IsFresh text_eq []) (sym other) c, subst (IsFresh ◌==◌ 0) (sym same) f))

reload-IsFresh : (disk : Disk) (now : ℕ) (g : GeoIpManager) → IsFreshManager (reload disk now g)
unfolding reload
reload-IsFresh disk now g = (
  reload_database_lem text_eq [] text_sound (bytes "country") (bytes "city") disk.country_files
      g.country,
  reload_database_lem ◌==◌ 0 nat_sound (bytes "asn") (bytes "isp") disk.asn_files g.asn,
)

-- What the control plane asks of the manager while it runs.
pub data Query : Type 0 where
  country_of : Text → Query
  asn_of : ℕ → Query
  reload_from : Disk → ℕ → Query

abbrev pub answer_all : GeoIpManager → List Query → GeoIpManager
answer_all g [] = g
answer_all g (country_of code ∷ rs) = answer_all (get_country_cidrs g code).0 rs
answer_all g (asn_of n ∷ rs) = answer_all (get_asn_cidrs g n).0 rs
answer_all g (reload_from disk now ∷ rs) = answer_all (reload disk now g) rs

answer_all-IsFresh :
    (g : GeoIpManager) (rs : List Query) → IsFreshManager g → IsFreshManager (answer_all g rs)
answer_all-IsFresh g [] h = h
answer_all-IsFresh g (country_of code ∷ rs) h =
    answer_all-IsFresh (get_country_cidrs g code).0 rs (country-IsFresh g code h).1
answer_all-IsFresh g (asn_of n ∷ rs) h =
    answer_all-IsFresh (get_asn_cidrs g n).0 rs (asn-IsFresh g n h).1
answer_all-IsFresh g (reload_from disk now ∷ rs) h =
    answer_all-IsFresh (reload disk now g) rs (reload-IsFresh disk now g)

-- After the start and any lookups and reloads, a lookup of a country or of an autonomous system
-- answers what the database that is loaded then answers, whatever the caches hold.
pub cidrs_never_stale :
    (disk : Disk) (now : ℕ) (asn_path country_path : Text) (rs : List Query) (code : Text) (n : ℕ)
    → let g = answer_all (init_geoip_manager disk now asn_path country_path) rs in
      ((get_country_cidrs g code).1 ≡ answer text_eq [] code g.country)
      × ((get_asn_cidrs g n).1 ≡ answer ◌==◌ 0 n g.asn)
unfolding init_geoip_manager
cidrs_never_stale disk now asn_path country_path rs code n =
    let g = answer_all (init_geoip_manager disk now asn_path country_path) rs in
    let fresh : IsFreshManager g =
      answer_all-IsFresh (init_geoip_manager disk now asn_path country_path) rs
        (reload-IsFresh disk now (unloaded asn_path country_path)) in
    ((country-IsFresh g code fresh).0, (asn-IsFresh g n fresh).0)
