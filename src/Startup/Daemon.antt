-- ===== src/Startup/Daemon.antt =====
-- The daemon from its certificate to its end, and the ways it ends (src/control_plane/main.go,
-- main: ensureCertificatesExist, the listener, ServeTLS and the wait for a signal).
use shield_core.Prelude.{
  sym, ◌∙◌, List, [], ◌∷◌, All, ℕ, ◌≡◌, refl, Bool, true, ◌&&◌, ◌⊎◌, ◌≢◌, inl, inr, none, some,
  if◌then◌else◌, arith, Bool-cases,
}
use shield_core.Startup.Loader.{Mode, attached_in, shield, Datapath, Machinery, load_xdp_program}
use shield_core.Startup.Attach.{load_xdp_program_attached}
use shield_core.Startup.Certificate.{
  blank, block, write_cert, write_key, generate_self_signed_cert, CertFiles, Generation, IsPair,
  is_there, ensure_certificates_exist,
}
use shield_core.Startup.Privileges.{Process, nobody, lifetime, lifetime_as_nobody}

-- `log.Fatalf` ends the process at once, without what is deferred.
pub data Ending : Type 0 where
  no_certificate no_listener not_served stopped : Ending

-- The network: net.Listen, and whether ServeTLS, which reads the files of the certificate, serves
-- until the server is shut down.
pub record Listener : Type 0 where
  pub listens : Bool
  pub serves : CertFiles → Bool

-- What the daemon leaves behind.
pub record Left : Type 0 where
  pub files : CertFiles
  pub datapath : Datapath
  pub ending : Ending

-- The privileges are dropped behind the listener; a signal ends the daemon that serves.
unfoldable pub daemon :
    (ℕ → Machinery) → Listener → Generation → Bool → Bool → Process → CertFiles → Datapath → Left
daemon machine net g sets_gid sets_uid p f d =
    let (f', goes_on) = ensure_certificates_exist g f in
    let loaded = (load_xdp_program (machine p.uid) d).0 in
    if goes_on
    then (if net.listens
        then (if net.serves f'
            then record {
              files = f';
              datapath = lifetime machine sets_gid sets_uid p d;
              ending = stopped;
            }
            else record { files = f'; datapath = loaded; ending = not_served })
        else record { files = f'; datapath = loaded; ending = no_listener })
    else record { files = f'; datapath = d; ending = no_certificate }

-- A daemon of root that attaches its program, if it gets to it, and becomes nobody, ends in one of
-- three ways: without a certificate, the interface untouched; without a listener or a server, the
-- program left attached; or by a signal, where ServeTLS took the files that are left, with the
-- program gone exactly if nobody finds the link and may detach from it.
pub daemon_leaves :
    (machine : ℕ → Machinery) (net : Listener) (g : Generation) (sets_gid : Bool) (p : Process)
    (f : CertFiles) (d : Datapath) (mode : Mode)
    → p.uid ≡ 0
    → (load_xdp_program (machine 0) d).1 ≡ attached_in mode
    → let left = daemon machine net g sets_gid true p f d in
      ((left.ending ≡ no_certificate) × (left.datapath ≡ d))
      ⊎ (((left.ending ≡ no_listener) ⊎ (left.ending ≡ not_served))
          × (left.datapath.attached ≡ some (shield mode)))
      ⊎ ((left.ending ≡ stopped)
          × (net.serves left.files ≡ true)
          × (left.datapath.attached ≡ (
              if (machine nobody).finds_link && (machine nobody).detaches
              then none
              else some (shield mode))))
unfolding daemon
daemon_leaves machine net g sets_gid p f d mode h e =
    let files = (ensure_certificates_exist g f).0 in
    let kept = load_xdp_program_attached (machine 0) d mode e in
    elim (Bool-cases (ensure_certificates_exist g f).1) [
      | inl c ↦ elim (Bool-cases net.listens) [
        | inl l ↦ elim (Bool-cases (net.serves files)) [
          | inl s ↦
              rw (c, l, s) (inr (inr (refl, s, lifetime_as_nobody machine sets_gid p d mode h e)))
          | inr s ↦ rw (c, l, s, h) (inr (inl (inr refl, kept)))
        ]
        | inr l ↦ rw (c, l, h) (inr (inl (inl refl, kept)))
      ]
      | inr c ↦ rw c (inl (refl, refl))
    ]

blank_key-cert :
    (g : Generation) (f : CertFiles)
    → f.key ≡ none
    → (generate_self_signed_cert g f).0.key ≡ some blank
    → is_there (generate_self_signed_cert g f).0.cert ≡ true
unfolding generate_self_signed_cert write_cert write_key is_there
blank_key-cert g f h e = ground (arith, h, e)

block_distinct : (n : ℕ) → some blank ≢ some (block n)
block_distinct n = ground arith

-- A start of the daemon: the machine, the listener, a generation and the process.
pub record Launch : Type 0 where
  pub machine : ℕ → Machinery
  pub listens : Bool
  pub generation : Generation
  pub gid_set : Bool
  pub uid_set : Bool
  pub process : Process

module _ (serves : CertFiles → Bool) where
  unfoldable pub launch : Launch → CertFiles → Datapath → Left
  launch t f d =
      let net : Listener = record { listens = t.listens; serves = serves } in
      daemon t.machine net t.generation t.gid_set t.uid_set t.process f d

  -- One start after the other, each on what the one before has left.
  unfoldable pub launches : List Launch → CertFiles → Datapath → List Left
  unfolding launch
  launches [] f d = []
  launches (t ∷ ts) f d = let left = launch t f d in left ∷ launches ts left.files left.datapath

  IsStuck : CertFiles → Left → Type 0
  IsStuck f left = (left.files ≡ f) × (left.ending ≢ stopped)

  launch-IsStuck :
      ((f : CertFiles) → serves f ≡ true → IsPair f)
      → (t : Launch) (f : CertFiles) (d : Datapath) → is_there f.cert ≡ true
      → is_there f.key ≡ true
      → ¬ IsPair f
      → IsStuck f (launch t f d)
  unfolding launch daemon IsStuck ensure_certificates_exist
  launch-IsStuck reads t f d c k n = elim (Bool-cases t.listens) [
    | inl l ↦ elim (Bool-cases (serves f)) [
      | inl s ↦ absurd (n (reads f s))
      | inr s ↦ rw (c, k, l, s) (refl, ground arith)
    ]
    | inr l ↦ rw (c, k, l) (refl, ground arith)
  ]

  launches-IsStuck :
      ((f : CertFiles) → serves f ≡ true → IsPair f)
      → (ts : List Launch) (f : CertFiles) (d : Datapath) → is_there f.cert ≡ true
      → is_there f.key ≡ true
      → ¬ IsPair f
      → All (IsStuck f) (launches ts f d)
  unfolding launches IsStuck
  launches-IsStuck reads [] f d c k n = tt
  launches-IsStuck reads (t ∷ ts) f d c k n =
      let left = launch t f d in
      let now = launch-IsStuck reads t f d c k n in
      (now, rw now.0 (launches-IsStuck reads ts f left.datapath c k n))

  -- Behind a generation that fails as it writes the key, no start serves or changes the files,
  -- where there was no key file and ServeTLS serves with nothing but the certificate and the key of
  -- one pair.
  pub blank_key_never_serves :
      (g : Generation) (f : CertFiles) (ts : List Launch) (d : Datapath)
      → ((f : CertFiles) → serves f ≡ true → IsPair f)
      → f.key ≡ none
      → (generate_self_signed_cert g f).0.key ≡ some blank
      → let f' = (generate_self_signed_cert g f).0 in
        All (λ left. (left.files ≡ f') × (left.ending ≢ stopped)) (launches ts f' d)
  unfolding IsStuck is_there
  blank_key_never_serves g f ts d reads h e =
      launches-IsStuck reads ts (generate_self_signed_cert g f).0 d (blank_key-cert g f h e)
        (rw e refl) (λ p. block_distinct (p.0) (sym e ∙ p.2))
