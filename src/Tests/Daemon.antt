-- ===== src/Tests/Daemon.antt =====
-- The ends of the daemon at concrete machines (src/control_plane/main.go: main).
use shield_core.Prelude.{
  ℕ, ◌≡◌, ◌≢◌, refl, Bool, true, false, ◌&&◌, ◌⊎◌, Option, none, some, [], ◌∷◌, ◌==◌, All,
  if◌then◌else◌, arith,
}
use shield_core.Startup.Loader.{generic, shield, load_xdp_program}
use shield_core.Startup.Certificate.{
  PemFile, blank, block, CertFiles, is_there, generate_self_signed_cert, ensure_certificates_exist,
}
use shield_core.Startup.Privileges.{nobody}
use shield_core.Startup.Daemon.{
  no_certificate, no_listener, not_served, stopped, Listener, daemon, daemon_leaves, Launch,
  launches, blank_key_never_serves,
}
use shield_core.Tests.Startup.{occupied, full_disk, by_user, root}

same_pair : Option PemFile → Option PemFile → Bool
same_pair (some (block n)) (some (block k)) = n == k
same_pair (some (block n)) (some blank) = false
same_pair (some (block n)) none = false
same_pair (some blank) k = false
same_pair none k = false

-- ServeTLS reads both files and refuses what is not one pair.
abbrev serves_pair : CertFiles → Bool
serves_pair f = same_pair f.cert f.key

reads_pair :
    (c k : Option PemFile)
    → same_pair c k ≡ true
    → (n : ℕ) × (c ≡ some (block n)) × (k ≡ some (block n))
unfolding same_pair
reads_pair (some (block n)) (some (block k)) h = (n, refl, ground (arith, h))
reads_pair (some (block n)) (some blank) h = ground (arith, h)
reads_pair (some (block n)) none h = ground (arith, h)
reads_pair (some blank) k h = ground (arith, h)
reads_pair none k h = ground (arith, h)

abbrev network : Listener
network = record { listens = false; serves = serves_pair }

abbrev no_files : CertFiles
no_files = record { cert = none; key = none }

abbrev pair_files : CertFiles
pair_files = record { cert = some (block 4); key = some (block 4) }

daemon_leaves_example :
    let left = daemon by_user network full_disk true true root pair_files occupied in
    ((left.ending ≡ no_certificate) × (left.datapath ≡ occupied))
    ⊎ (((left.ending ≡ no_listener) ⊎ (left.ending ≡ not_served))
        × (left.datapath.attached ≡ some (shield generic)))
    ⊎ ((left.ending ≡ stopped)
        × (network.serves left.files ≡ true)
        × (left.datapath.attached ≡ (
            if (by_user nobody).finds_link && (by_user nobody).detaches
            then none
            else some (shield generic))))
unfolding load_xdp_program
daemon_leaves_example =
    daemon_leaves by_user network full_disk true root pair_files occupied generic refl refl

-- The port is taken: the program stays attached.
left_attached :
    (daemon by_user network full_disk true true root pair_files occupied).datapath.attached
    ≡ some (shield generic)
unfolding daemon load_xdp_program ensure_certificates_exist is_there
left_attached = refl

abbrev launched : Launch
launched = record {
  machine = by_user;
  listens = true;
  generation = full_disk;
  gid_set = true;
  uid_set = true;
  process = root;
}

blank_key_never_serves_example :
    let f' = (generate_self_signed_cert full_disk no_files).0 in
    All
      (λ left. (left.files ≡ f') × (left.ending ≢ stopped))
      (launches serves_pair (launched ∷ launched ∷ []) f' occupied)
unfolding generate_self_signed_cert
blank_key_never_serves_example =
    blank_key_never_serves serves_pair full_disk no_files (launched ∷ launched ∷ []) occupied
      (λ f. reads_pair f.cert f.key) refl refl
