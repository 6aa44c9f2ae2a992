-- ===== src/Cluster/Local/Own.antt =====
-- The nodes that are this one (src/control_plane/main.go: isLocalAddress, isHostAndPortLocal).
use shield_core.Prelude.{
  Bool, ◌≡◌, ◌∙◌, ◌⊎◌, ◌↔◌, ap, List, text_eq_iff, Option-cases, refl, true, false, ◌||◌, ◌&&◌, inl,
  inr, some, [], ◌∷◌, ◌++◌, Text, bytes, text_eq, text_eq_refl, arith, Bool-cases,
}
use shield_core.Strings.Query.RoundTrip.{Lacks}
use shield_core.Cluster.{
  Cluster, local_port, member_text, is_own_host, is_host_and_port_local, host_and_port,
  is_local_address,
}
use shield_core.Cluster.Local.{IsUnbracketed, join_host_port, split_host_port-join_host_port}

-- The test of a node whose URL has a host and a port.
is_local_address_test :
    (c : Cluster) (node host port own_host own_port : Text)
    → c.url_host node ≡ some (join_host_port host port)
    → c.listen_addr ≡ join_host_port own_host own_port
    → IsUnbracketed host
    → Lacks b':' port
    → IsUnbracketed port
    → IsUnbracketed own_host
    → Lacks b':' own_port
    → IsUnbracketed own_port
    → is_local_address c node ≡ (
        (text_eq port [] || text_eq port own_port)
        && (text_eq host (bytes "localhost")
            || text_eq host (bytes "127.0.0.1")
            || text_eq host (bytes "::1")
            || is_own_host c host))
unfolding is_local_address is_host_and_port_local host_and_port local_port
is_local_address_test c node host port own_host own_port e l h p o h' p' o' = ground (
  arith,
  e,
  l,
  split_host_port-join_host_port host port h p o,
  split_host_port-join_host_port own_host own_port h' p' o',
)

-- A text that is one of a list.
abbrev pub IsAmong : Text → List Text → Type 0
IsAmong t l = (xs : List Text) × (ys : List Text) × (l ≡ xs ++ t ∷ ys)

IsAmong-member_text : (t : Text) (l : List Text) → member_text t l ≡ true → IsAmong t l
unfolding member_text
IsAmong-member_text t [] h = absurd (ground (arith, h))
IsAmong-member_text t (u ∷ us) h = elim (Bool-cases (text_eq u t)) [
  | inl y ↦ ([], us, ap (λ v. v ∷ us) ((text_eq_iff u t).0 y))
  | inr n ↦
      let (xs, ys, e) = IsAmong-member_text t us (ground (arith, h, n)) in
      (u ∷ xs, ys, ap (λ l. u ∷ l) e)
]

member_text-IsAmong : (t : Text) (xs ys : List Text) → member_text t (xs ++ t ∷ ys) ≡ true
unfolding member_text
member_text-IsAmong t [] ys = ground (arith, text_eq_refl t)
member_text-IsAmong t (u ∷ xs) ys = ground (arith, member_text-IsAmong t xs ys)

-- The host is the address of an interface, or the host name; where the interfaces cannot be read
-- the host name is not asked.
abbrev pub IsMachine : Cluster → Text → Type 0
IsMachine c host =
    (addrs : List Text) × (c.interface_addrs ≡ some addrs)
    × (IsAmong host addrs ⊎ (c.hostname ≡ some host))

is_own_host_sound : (c : Cluster) (host : Text) → is_own_host c host ≡ true → IsMachine c host
unfolding is_own_host
is_own_host_sound c host h = elim (Option-cases c.interface_addrs) [
  | inl e ↦ absurd (ground (arith, e, h))
  | inr (addrs, e) ↦ elim (Bool-cases (member_text host addrs)) [
    | inl y ↦ (addrs, e, inl (IsAmong-member_text host addrs y))
    | inr n ↦ elim (Option-cases c.hostname) [
      | inl g ↦ absurd (ground (arith, e, n, g, h))
      | inr (name, g) ↦
          let same : text_eq name host ≡ true = ground (arith, e, n, g, h) in
          (addrs, e, inr (g ∙ ap some ((text_eq_iff name host).0 same)))
    ]
  ]
]

is_own_host_complete : (c : Cluster) (host : Text) → IsMachine c host → is_own_host c host ≡ true
unfolding is_own_host
is_own_host_complete c host (addrs, e, inl (xs, ys, g)) =
    let found : member_text host addrs ≡ true = rw g (member_text-IsAmong host xs ys) in
    ground (arith, e, found)
is_own_host_complete c host (addrs, e, inr g) = ground (arith, e, g, text_eq_refl host)

-- A host of this machine.
abbrev pub IsOwn : Cluster → Text → Type 0
IsOwn c host =
    (host ≡ bytes "localhost")
    ⊎ (host ≡ bytes "127.0.0.1")
    ⊎ (host ≡ bytes "::1")
    ⊎ IsMachine c host

module _ {P Q : Type 0} where
  or_iff : (a b : Bool) → (a ≡ true) ↔ P → (b ≡ true) ↔ Q → ((a || b) ≡ true) ↔ (P ⊎ Q)
  or_iff true b (f, g) (h, k) = (λ e. inl (f refl), λ x. refl)
  or_iff false b (f, g) (h, k) =
      (λ e. inr (h e), λ x. elim x [ inl p ↦ absurd (ground (arith, g p)) | inr q ↦ k q ])

  and_iff : (a b : Bool) → (a ≡ true) ↔ P → (b ≡ true) ↔ Q → ((a && b) ≡ true) ↔ (P × Q)
  and_iff true b (f, g) (h, k) = (λ e. (f refl, h e), λ (p, q). k q)
  and_iff false b (f, g) (h, k) = (λ e. absurd (ground (arith, e)), λ (p, q). g p)

regroup : (a b c d : Bool) → (a || b || c || d) ≡ (a || (b || (c || d)))
regroup a b c d = ground arith

IsOwn-iff :
    (c : Cluster) (host : Text)
    → ((text_eq host (bytes "localhost")
          || text_eq host (bytes "127.0.0.1")
          || text_eq host (bytes "::1")
          || is_own_host c host)
        ≡ true)
      ↔ IsOwn c host
IsOwn-iff c host =
    let own = is_own_host c host in
    let ipv6 = text_eq host (bytes "::1") in
    let ipv4 = text_eq host (bytes "127.0.0.1") in
    let name = text_eq host (bytes "localhost") in
    rw (regroup name ipv4 ipv6 own) (
      or_iff name (ipv4 || (ipv6 || own)) (text_eq_iff host (bytes "localhost")) (
        or_iff ipv4 (ipv6 || own) (text_eq_iff host (bytes "127.0.0.1")) (
          or_iff ipv6 own (text_eq_iff host (bytes "::1"))
            (is_own_host_sound c host, is_own_host_complete c host))))

-- A node whose URL has a host and a port is this one exactly if the port is the listen address's,
-- or empty, and the host is localhost, 127.0.0.1 or ::1, or, where the addresses of the interfaces
-- can be read, one of them or the host name; where hosts hold no bracket, and ports neither bracket
-- nor colon.
pub is_local_address_exact :
    (c : Cluster) (node host port own_host own_port : Text)
    → c.url_host node ≡ some (join_host_port host port)
    → c.listen_addr ≡ join_host_port own_host own_port
    → IsUnbracketed host
    → Lacks b':' port
    → IsUnbracketed port
    → IsUnbracketed own_host
    → Lacks b':' own_port
    → IsUnbracketed own_port
    → (is_local_address c node ≡ true) ↔ (((port ≡ []) ⊎ (port ≡ own_port)) × IsOwn c host)
is_local_address_exact c node host port own_host own_port e l h p o h' p' o' =
    rw (is_local_address_test c node host port own_host own_port e l h p o h' p' o') (
      and_iff (text_eq port [] || text_eq port own_port)
        (text_eq host (bytes "localhost")
          || text_eq host (bytes "127.0.0.1")
          || text_eq host (bytes "::1")
          || is_own_host c host)
        (or_iff (text_eq port []) (text_eq port own_port) (text_eq_iff port [])
          (text_eq_iff port own_port))
        (IsOwn-iff c host))
