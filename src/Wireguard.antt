-- ===== src/Wireguard.antt =====
-- WireGuard peers (src/control_plane/map_manager.go: addWireGuardPeer, removeWireGuardPeer,
-- blockContains): the commands that are run and the text of /etc/wireguard/wg0.conf.
pub mod Passes
pub mod RoundTrip
pub mod Blocks
use shield_core.Prelude.{
  ℕ, Bool, true, false, ◌||◌, Option, none, some, List, [], ◌∷◌, ◌++◌, Text, bytes, text_eq,
  has_prefix, contains, if◌then◌else◌,
}
use shield_core.Strings.{split, join, trim_space}

-- The commands in the order of their start, and the file: no text where it cannot be read. A
-- file that cannot be written is left as it is.
pub record Host : Type 0 where
  pub commands : List (List Text)
  pub wg_conf : Option Text
  pub can_write : Bool

-- `exec.Command(...).Run()`, whose error the program drops.
unfoldable pub run : Host → List Text → Host
run h args = record h { commands = h.commands ++ args ∷ [] }

unfoldable pub write_conf : Host → Text → Host
write_conf h content = if h.can_write then record h { wg_conf = some content } else h

abbrev pub newline : ℕ
newline = 10

-- The line of the endpoint, where there is one, before the text behind it.
unfoldable pub endpoint_line : Text → Text → Text
endpoint_line endpoint t =
    if text_eq endpoint [] then t else (bytes "Endpoint = " ++ endpoint) ++ newline ∷ t

unfoldable pub peer_config : Text → Text → Text → Text
unfolding endpoint_line
peer_config pubkey allowed_ip endpoint =
    let keepalive = bytes "PersistentKeepalive = 25" ++ newline ∷ [] in
    let allowed_ips = bytes "AllowedIPs = " ++ (allowed_ip ++ bytes "/32") in
    let lines = allowed_ips ++ newline ∷ endpoint_line endpoint keepalive in
    newline ∷ (bytes "[Peer]" ++ newline ∷ ((bytes "PublicKey = " ++ pubkey) ++ newline ∷ lines))

unfoldable pub add_wireguard_peer : Host → Text → Text → Text → Host
unfolding run write_conf peer_config
add_wireguard_peer h pubkey allowed_ip endpoint =
    let args =
      bytes "wg"
      ∷ bytes "set"
      ∷ bytes "wg0"
      ∷ bytes "peer"
      ∷ pubkey
      ∷ bytes "allowed-ips"
      ∷ (allowed_ip ++ bytes "/32")
      ∷ (if text_eq endpoint [] then [] else bytes "endpoint" ∷ endpoint ∷ []) in
    let ran = run h args in
    if text_eq pubkey [] || text_eq allowed_ip [] then h else elim h.wg_conf [
      | none ↦ ran
      | some content ↦
          if contains content pubkey
          then ran
          else write_conf ran (content ++ peer_config pubkey allowed_ip endpoint)
    ]

unfoldable pub block_contains : List Text → Text → Bool
block_contains [] target = false
block_contains (l ∷ block) target = contains l target || block_contains block target

-- The variables of the loop over the lines.
pub record Pass : Type 0 where
  pub new_lines : List Text
  pub in_peer_block : Bool
  pub peer_block : List Text

-- The lines that are kept, with those of the block unless it holds the key.
unfoldable pub keep_block : Text → List Text → List Text → List Text
unfolding block_contains
keep_block pubkey new_lines block =
    if block_contains block pubkey then new_lines else new_lines ++ block

unfoldable pub pass_line : Text → Pass → Text → Pass
unfolding keep_block
pass_line pubkey s line =
    if has_prefix (trim_space line) (bytes "[Peer]")
    then record {
      new_lines =
          if s.in_peer_block then keep_block pubkey s.new_lines s.peer_block else s.new_lines;
      in_peer_block = true;
      peer_block = line ∷ [];
    }
    else if s.in_peer_block
    then (if has_prefix (trim_space line) (bytes "[Interface]")
        then record s {
          new_lines = keep_block pubkey s.new_lines s.peer_block ++ line ∷ [];
          in_peer_block = false;
        }
        else record s { peer_block = s.peer_block ++ line ∷ [] })
    else record s { new_lines = s.new_lines ++ line ∷ [] }

unfoldable pub pass_lines : Text → Pass → List Text → Pass
pass_lines pubkey s [] = s
pass_lines pubkey s (line ∷ lines) = pass_lines pubkey (pass_line pubkey s line) lines

abbrev pub before_lines : Pass
before_lines = record { new_lines = []; in_peer_block = false; peer_block = [] }

-- The lines after the loop, with those of the last block unless it holds the key.
unfoldable pub last_block : Text → Pass → List Text
unfolding keep_block
last_block pubkey s =
    if s.in_peer_block then keep_block pubkey s.new_lines s.peer_block else s.new_lines

unfoldable pub without_peer : Text → List Text → List Text
without_peer pubkey lines = last_block pubkey (pass_lines pubkey before_lines lines)

unfoldable pub remove_wireguard_peer : Host → Text → Host
unfolding run write_conf
remove_wireguard_peer h pubkey =
    let ran =
      run h
        (bytes "wg" ∷ bytes "set" ∷ bytes "wg0" ∷ bytes "peer" ∷ pubkey ∷ bytes "remove" ∷ []) in
    if text_eq pubkey [] then h else elim h.wg_conf [
      | none ↦ ran
      | some content ↦
          if contains content pubkey
          then write_conf ran (join newline (without_peer pubkey (split newline content)))
          else ran
    ]
