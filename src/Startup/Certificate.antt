-- ===== src/Startup/Certificate.antt =====
-- The certificate of the server (src/control_plane/main.go: generateSelfSignedCert,
-- ensureCertificatesExist).
use shield_core.Prelude.{
  ℕ, ◌≡◌, refl, Bool, true, false, ◌||◌, not, ◌⊎◌, inl, inr, Option, none, some, List, [], ◌∷◌,
  Text, bytes, arith, if◌then◌else◌, Bool-cases,
}

-- What a PEM file holds: nothing, or the block of a pair of keys.
pub data PemFile : Type 0 where
  blank : PemFile
  block : ℕ → PemFile

pub record CertFiles : Type 0 where
  pub cert : Option PemFile
  pub key : Option PemFile

-- Whether the steps of a generation succeed, and the number of the new pair of keys.
pub record Generation : Type 0 where
  pub pair : ℕ
  pub makes_key : Bool  -- ecdsa.GenerateKey
  pub makes_serial : Bool  -- rand.Int
  pub makes_cert : Bool  -- x509.CreateCertificate
  pub opens_cert : Bool  -- os.Create
  pub writes_cert : Bool  -- pem.Encode
  pub opens_key : Bool  -- os.OpenFile with O_TRUNC
  pub marshals_key : Bool  -- x509.MarshalECPrivateKey
  pub writes_key : Bool  -- pem.Encode

-- An interface's address: its text, and whether it is one of the loopback.
unfoldable pub cert_addresses : Option (List (Text × Bool)) → List Text
cert_addresses none = bytes "127.0.0.1" ∷ []
cert_addresses (some []) = bytes "127.0.0.1" ∷ []
cert_addresses (some (a ∷ addrs)) =
    let rest = cert_addresses (some addrs) in if a.1 then rest else a.0 ∷ rest

unfoldable pub write_key : Generation → CertFiles → CertFiles × Bool
write_key g f =
    if not g.opens_key
    then (f, false)
    else if not g.marshals_key || not g.writes_key
    then (record f { key = some blank }, false)
    else (record f { key = some (block g.pair) }, true)

unfoldable pub write_cert : Generation → CertFiles → CertFiles × Bool
unfolding write_key
write_cert g f =
    if not g.opens_cert
    then (f, false)
    else if not g.writes_cert
    then (record f { cert = some blank }, false)
    else write_key g (record f { cert = some (block g.pair) })

-- The files after a generation, and whether there was no error.
unfoldable pub generate_self_signed_cert : Generation → CertFiles → CertFiles × Bool
unfolding write_cert
generate_self_signed_cert g f =
    if not g.makes_key || not g.makes_serial || not g.makes_cert then (f, false) else write_cert g f

unfoldable pub is_there : Option PemFile → Bool
is_there none = false
is_there (some p) = true

-- The files, and whether the daemon goes on.
unfoldable pub ensure_certificates_exist : Generation → CertFiles → CertFiles × Bool
unfolding generate_self_signed_cert is_there
ensure_certificates_exist g f =
    if is_there f.cert
    then (if is_there f.key then (f, true) else generate_self_signed_cert g f)
    else generate_self_signed_cert g f

-- Two files of one pair of keys.
abbrev pub IsPair : CertFiles → Type 0
IsPair f = (n : ℕ) × (f.cert ≡ some (block n)) × (f.key ≡ some (block n))

generate_lem :
    (g : Generation) (f : CertFiles)
    → let (f', ok) = generate_self_signed_cert g f in ((ok ≡ true) × IsPair f') ⊎ (ok ≡ false)
unfolding generate_self_signed_cert write_cert write_key
generate_lem g f = elim (Bool-cases (generate_self_signed_cert g f).1) [
  | inl y ↦ inl (y, (g.pair, ground (arith, y), ground (arith, y)))
  | inr n ↦ inr n
]

-- Where the daemon goes on, either both files were there and are as they were, whatever they
-- hold, or they hold the certificate and the key of one pair; otherwise a file was missing.
pub ensure_certificates_exist_lem :
    (g : Generation) (f : CertFiles)
    → let (f', goes_on) = ensure_certificates_exist g f in
      ((goes_on ≡ true)
        × (((is_there f.cert ≡ true) × (is_there f.key ≡ true) × (f' ≡ f)) ⊎ IsPair f'))
      ⊎ ((goes_on ≡ false) × ((is_there f.cert ≡ false) ⊎ (is_there f.key ≡ false)))
unfolding ensure_certificates_exist
ensure_certificates_exist_lem g f = elim (Bool-cases (is_there f.cert)) [
  | inl y ↦ elim (Bool-cases (is_there f.key)) [
    | inl z ↦ rw (y, z) (inl (refl, inl (refl, refl, refl)))
    | inr n ↦ elim (generate_lem g f) [
      | inl (e, h) ↦ rw (y, n) (inl (e, inr h))
      | inr e ↦ rw (y, n) (inr (e, inr refl))
    ]
  ]
  | inr n ↦ elim (generate_lem g f) [
    | inl (e, h) ↦ rw n (inl (e, inr h))
    | inr e ↦ rw n (inr (e, inl refl))
  ]
]

-- A generation that fails as it writes the key leaves files with which the next start goes on.
blank_key :
    (g g' : Generation) (f : CertFiles)
    → f.key ≡ none
    → (generate_self_signed_cert g f).0.key ≡ some blank
    → let f' = (ensure_certificates_exist g f).0 in
      (ensure_certificates_exist g' f' ≡ (f', true)) × (f'.key ≡ some blank)
unfolding ensure_certificates_exist generate_self_signed_cert write_cert write_key is_there
blank_key g g' f h e = (ground (arith, h, e), ground (arith, h, e))
