-- ===== src/Cluster/Local.antt =====
-- Which node is this one (src/control_plane/main.go: isLocalAddress, isHostAndPortLocal).
pub mod Own
use shield_core.Prelude.{
  ℕ, Bool, ◌≡◌, ◌∙◌, ◌⊎◌, ◌↔◌, ap, List, text_eq_iff, Option-cases, refl, true, false, ◌||◌, ◌&&◌,
  inl, inr, none, some, [], ◌∷◌, ◌++◌, append_assoc, Text, bytes, text_eq, text_eq_refl, has_prefix,
  contains, All-append, ◌==◌, if◌then◌else◌, arith, Bool-cases,
}
use shield_core.Strings.Split.{contains_lacking, contains_behind}
use shield_core.Strings.Query.RoundTrip.{Lacks, cut_at}
use shield_core.Cluster.{
  Cluster, without_prefix, cut_last, split_bracketed, split_host_port, local_port, member_text,
  is_own_host, is_host_and_port_local, host_and_port, is_local_address,
}

cut_last_lacking : (sep : ℕ) (t : Text) → Lacks sep t → cut_last sep t ≡ none
unfolding cut_last
cut_last_lacking sep [] h = refl
cut_last_lacking sep (c ∷ t) (h, hs) = ground (arith, cut_last_lacking sep t hs, h)

cut_last_at : (sep : ℕ) (s t : Text) → Lacks sep t → cut_last sep (s ++ sep ∷ t) ≡ some (s, t)
unfolding cut_last
cut_last_at sep [] t h = ground (arith, cut_last_lacking sep t h)
cut_last_at sep (c ∷ s) t h = ground (arith, cut_last_at sep s t h)

-- A text without brackets.
abbrev pub IsUnbracketed : Text → Type 0
IsUnbracketed t = Lacks b'[' t × Lacks b']' t

-- `net.JoinHostPort`
abbrev pub join_host_port : Text → Text → Text
join_host_port host port =
    if contains host (bytes ":") then b'[' ∷ (host ++ (b']' ∷ b':' ∷ port)) else host ++ b':' ∷ port

begins_not : (host t : Text) → Lacks b'[' host → has_prefix (host ++ b':' ∷ t) (bytes "[") ≡ false
unfolding has_prefix
begins_not [] t h = refl
begins_not (c ∷ host) t (h, hs) = ground (arith, h)

split_plain :
    (host port : Text)
    → contains host (bytes ":") ≡ false
    → IsUnbracketed host
    → Lacks b':' port
    → IsUnbracketed port
    → split_host_port (host ++ b':' ∷ port) ≡ some (host, port)
unfolding split_host_port
split_plain host port h (o, e) p (po, pe) =
    let whole = host ++ b':' ∷ port in
    let opening =
      contains_lacking b'[' whole
        (All-append (λ c. (c == b'[') ≡ false) host (b':' ∷ port) o (refl, po)) in
    let closing =
      contains_lacking b']' whole
        (All-append (λ c. (c == b']') ≡ false) host (b':' ∷ port) e (refl, pe)) in
    ground (arith, cut_last_at b':' host port p, begins_not host port o, h, opening, closing)

ends_bracketed : (port : Text) → contains (b']' ∷ b':' ∷ port) (bytes "]") ≡ true
unfolding contains has_prefix
ends_bracketed port = refl

split_in_brackets :
    (host port : Text)
    → IsUnbracketed host
    → IsUnbracketed port
    → split_bracketed (b'[' ∷ (host ++ (b']' ∷ b':' ∷ port))) port ≡ some (host, port)
unfolding split_bracketed without_prefix
split_in_brackets host port (o, e) (po, pe) =
    let whole = b'[' ∷ (host ++ (b']' ∷ b':' ∷ port)) in
    let at = cut_at b']' (b'[' ∷ host) (b':' ∷ port) (refl, e) in
    let closing : contains whole (bytes "]") ≡ true =
      contains_behind (b'[' ∷ host) (b']' ∷ b':' ∷ port) (bytes "]") (ends_bracketed port) in
    let opening =
      contains_lacking b'[' (host ++ (b']' ∷ b':' ∷ port))
        (All-append (λ c. (c == b'[') ≡ false) host (b']' ∷ b':' ∷ port) o (refl, (refl, po))) in
    let behind = contains_lacking b']' (b':' ∷ port) (refl, pe) in
    ground (arith, at, closing, opening, behind, text_eq_refl (b':' ∷ port))

cut_last_bracketed :
    (host port : Text)
    → Lacks b':' port
    → cut_last b':' (b'[' ∷ (host ++ (b']' ∷ b':' ∷ port)))
      ≡ some (b'[' ∷ (host ++ b']' ∷ []), port)
cut_last_bracketed host port h =
    rw (← append_assoc (b'[' ∷ host) (b']' ∷ []) (b':' ∷ port))
      (cut_last_at b':' (b'[' ∷ (host ++ b']' ∷ [])) port h)

-- SplitHostPort takes apart what JoinHostPort writes, where neither the host nor the port holds a
-- bracket and the port no colon.
pub split_host_port-join_host_port :
    (host port : Text)
    → IsUnbracketed host
    → Lacks b':' port
    → IsUnbracketed port
    → split_host_port (join_host_port host port) ≡ some (host, port)
unfolding split_host_port has_prefix
split_host_port-join_host_port host port h p o = elim (Bool-cases (contains host (bytes ":"))) [
  | inl e ↦ ground (arith, e, cut_last_bracketed host port p, split_in_brackets host port h o)
  | inr e ↦ rw e (split_plain host port e h p o)
]
