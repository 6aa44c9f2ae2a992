-- ===== src/Wireguard/RoundTrip.antt =====
-- Adding a peer and removing it again (src/control_plane/map_manager.go: addWireGuardPeer,
-- removeWireGuardPeer).
use shield_core.Prelude.{
  ℕ, ◌≡◌, ap, ◌∙◌, refl, true, false, some, List, [], ◌∷◌, ◌++◌, Text, bytes, text_eq, has_prefix,
  contains, ◌==◌, All, arith, if◌then◌else◌,
}
use shield_core.Strings.{split, join, trim_space, trim_left, trim_right, is_space}
use shield_core.Strings.Split.{
  split-append, join-split, contains-split, split_line, contains_append, contains_char,
  contains_behind, contains_refl,
}
use shield_core.Wireguard.{
  Host, newline, peer_config, endpoint_line, add_wireguard_peer, remove_wireguard_peer,
  block_contains, without_peer, run, write_conf,
}
use shield_core.Wireguard.Passes.{Joins, starts_otherwise, without_block}

-- The lines of the block behind its first.
tail_lines : Text → List Text
tail_lines endpoint =
    if text_eq endpoint []
    then bytes "PersistentKeepalive = 25" ∷ [] ∷ []
    else (bytes "Endpoint = " ++ endpoint) ∷ bytes "PersistentKeepalive = 25" ∷ [] ∷ []

block_lines : Text → Text → Text → List Text
block_lines pubkey ip endpoint =
    (bytes "PublicKey = " ++ pubkey)
    ∷ (bytes "AllowedIPs = " ++ (ip ++ bytes "/32"))
    ∷ tail_lines endpoint

letter-Joins : (c : ℕ) (t : Text) → is_space c ≡ false → (c == b'[') ≡ false → Joins (c ∷ t)
unfolding Joins
letter-Joins c t h g =
    (starts_otherwise c t (bytes "Peer]") h g, starts_otherwise c t (bytes "Interface]") h g)

tail-Joins : (endpoint : Text) → All Joins (tail_lines endpoint)
unfolding tail_lines text_eq Joins has_prefix trim_space trim_left trim_right is_space
tail-Joins [] = (letter-Joins b'P' (bytes "ersistentKeepalive = 25") refl refl, ((refl, refl), tt))
tail-Joins (c ∷ t) = (
  letter-Joins b'E' (bytes "ndpoint = " ++ c ∷ t) refl refl,
  (letter-Joins b'P' (bytes "ersistentKeepalive = 25") refl refl, ((refl, refl), tt)),
)

block-Joins : (pubkey ip endpoint : Text) → All Joins (block_lines pubkey ip endpoint)
unfolding block_lines is_space
block-Joins pubkey ip endpoint = (
  letter-Joins b'P' (bytes "ublicKey = " ++ pubkey) refl refl,
  (letter-Joins b'A' (bytes "llowedIPs = " ++ (ip ++ bytes "/32")) refl refl, tail-Joins endpoint),
)

no_newline :
    (s t : Text)
    → contains s (newline ∷ []) ≡ false
    → contains t (newline ∷ []) ≡ false
    → contains (s ++ t) (newline ∷ []) ≡ false
no_newline s t h g = rw (contains_char s t newline, h, g) refl

split-endpoint_line :
    (endpoint : Text)
    → contains endpoint (newline ∷ []) ≡ false
    → split newline (endpoint_line endpoint (bytes "PersistentKeepalive = 25" ++ newline ∷ []))
      ≡ tail_lines endpoint
unfolding endpoint_line tail_lines text_eq contains has_prefix split
split-endpoint_line [] h = refl
split-endpoint_line (c ∷ t) h =
    split_line newline (bytes "Endpoint = " ++ c ∷ t)
      (bytes "PersistentKeepalive = 25" ++ newline ∷ [])
      (no_newline (bytes "Endpoint = ") (c ∷ t) refl h)

split_lines :
    (content a b c t : Text)
    → contains a (newline ∷ []) ≡ false
    → contains b (newline ∷ []) ≡ false
    → contains c (newline ∷ []) ≡ false
    → split newline (content ++ newline ∷ (a ++ newline ∷ (b ++ newline ∷ (c ++ newline ∷ t))))
      ≡ split newline content ++ a ∷ b ∷ c ∷ split newline t
split_lines content a b c t h g f =
    split-append newline content (a ++ newline ∷ (b ++ newline ∷ (c ++ newline ∷ t)))
    ∙ ap (λ l. split newline content ++ l)
        (split_line newline a (b ++ newline ∷ (c ++ newline ∷ t)) h
          ∙ ap (λ l. a ∷ l)
              (split_line newline b (c ++ newline ∷ t) g
                ∙ ap (λ l. b ∷ l) (split_line newline c t f)))

split-peer_config :
    (content pubkey ip endpoint : Text)
    → contains pubkey (newline ∷ []) ≡ false
    → contains ip (newline ∷ []) ≡ false
    → contains endpoint (newline ∷ []) ≡ false
    → split newline (content ++ peer_config pubkey ip endpoint)
      ≡ split newline content ++ bytes "[Peer]" ∷ block_lines pubkey ip endpoint
unfolding peer_config block_lines contains has_prefix
split-peer_config content pubkey ip endpoint h g f =
    split_lines content (bytes "[Peer]") (bytes "PublicKey = " ++ pubkey)
      (bytes "AllowedIPs = " ++ (ip ++ bytes "/32"))
      (endpoint_line endpoint (bytes "PersistentKeepalive = 25" ++ newline ∷ [])) refl
      (no_newline (bytes "PublicKey = ") pubkey refl h)
      (no_newline (bytes "AllowedIPs = ") (ip ++ bytes "/32") refl
        (no_newline ip (bytes "/32") g refl))
    ∙ ap
        (λ l.
          split newline content
          ++ bytes "[Peer]"
            ∷ (bytes "PublicKey = " ++ pubkey)
            ∷ (bytes "AllowedIPs = " ++ (ip ++ bytes "/32"))
            ∷ l)
        (split-endpoint_line endpoint f)

config_names :
    (content pubkey ip endpoint : Text)
    → contains (content ++ peer_config pubkey ip endpoint) pubkey ≡ true
unfolding peer_config
config_names content pubkey ip endpoint =
    let keepalive = bytes "PersistentKeepalive = 25" ++ newline ∷ [] in
    let lines =
      (bytes "AllowedIPs = " ++ (ip ++ bytes "/32"))
      ++ newline ∷ endpoint_line endpoint keepalive in
    contains_behind content (peer_config pubkey ip endpoint) pubkey (
      contains_behind (newline ∷ (bytes "[Peer]" ++ newline ∷ bytes "PublicKey = "))
        (pubkey ++ newline ∷ lines) pubkey
        (contains_append pubkey (newline ∷ lines) pubkey (contains_refl pubkey)))

text_back :
    (content pubkey ip endpoint : Text)
    → contains content pubkey ≡ false
    → contains pubkey (newline ∷ []) ≡ false
    → contains ip (newline ∷ []) ≡ false
    → contains endpoint (newline ∷ []) ≡ false
    → join newline (without_peer pubkey (split newline (content ++ peer_config pubkey ip endpoint)))
      ≡ content
unfolding block_lines block_contains
text_back content pubkey ip endpoint h g f e =
    let named = contains_behind (bytes "PublicKey = ") pubkey pubkey (contains_refl pubkey) in
    ap (λ l. join newline (without_peer pubkey l))
      (split-peer_config content pubkey ip endpoint g f e)
    ∙ ap (join newline) (
        without_block pubkey (split newline content) (block_lines pubkey ip endpoint)
          (contains-split newline content pubkey h) (block-Joins pubkey ip endpoint)
          (ground (arith, named)))
    ∙ join-split newline content

-- A peer that is added and removed leaves the text of the file, which did not hold its key, as
-- it was, where key, address and endpoint are single lines.
pub remove-add_wireguard_peer :
    (h : Host) (content pubkey ip endpoint : Text)
    → h.wg_conf ≡ some content
    → contains content pubkey ≡ false
    → contains pubkey (newline ∷ []) ≡ false
    → contains ip (newline ∷ []) ≡ false
    → contains endpoint (newline ∷ []) ≡ false
    → (remove_wireguard_peer (add_wireguard_peer h pubkey ip endpoint) pubkey).wg_conf
      ≡ some content
unfolding add_wireguard_peer remove_wireguard_peer write_conf run
remove-add_wireguard_peer h content pubkey ip endpoint a b c d e = ground (
  arith,
  a,
  b,
  config_names content pubkey ip endpoint,
  text_back content pubkey ip endpoint b c d e,
)
