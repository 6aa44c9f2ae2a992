-- ===== src/Wireguard/Passes.antt =====
-- One pass over the lines of wg0.conf (src/control_plane/map_manager.go: removeWireGuardPeer).
use shield_core.Prelude.{
  ℕ, ◌≡◌, sym, ap, ◌∙◌, refl, true, false, List, [], ◌∷◌, ◌++◌, append-nil, append_assoc, Text,
  bytes, has_prefix, contains, ◌==◌, All, arith, if◌then◌else◌,
}
use shield_core.Strings.{trim_space, trim_left, trim_right, before_end, is_space}
use shield_core.Wireguard.{
  Pass, block_contains, keep_block, pass_line, pass_lines, without_peer, before_lines, last_block,
}

-- What a pass has read: the lines it keeps and those of the block at hand.
read_lines : Pass → List Text
read_lines s = if s.in_peer_block then s.new_lines ++ s.peer_block else s.new_lines

block_contains_append :
    (b : List Text) (l k : Text)
    → block_contains b k ≡ false
    → contains l k ≡ false
    → block_contains (b ++ l ∷ []) k ≡ false
unfolding block_contains
block_contains_append [] l k h g = ground (arith, g)
block_contains_append (x ∷ b) l k h g = ground (arith, block_contains_append b l k)

-- A line without the key is read, and the block still lacks the key.
pass_line_lem :
    (k : Text) (s : Pass) (l : Text)
    → block_contains s.peer_block k ≡ false
    → contains l k ≡ false
    → (block_contains (pass_line k s l).peer_block k ≡ false)
      × (read_lines (pass_line k s l) ≡ read_lines s ++ l ∷ [])
unfolding pass_line keep_block read_lines
pass_line_lem k s l h g =
    let single = block_contains_append [] l k refl g in
    let longer = block_contains_append s.peer_block l k h g in
    (ground (arith, single, longer), ground (arith, append_assoc s.new_lines s.peer_block (l ∷ [])))

trim_right_first : (c : ℕ) (t : Text) → is_space c ≡ false → trim_right (c ∷ t) ≡ c ∷ trim_right t
unfolding trim_right before_end
trim_right_first c t h = elim (trim_right t) as (λ u. before_end c u ≡ c ∷ u) [
  | [] ↦ ground (arith, h)
  | d ∷ u ↦ refl
]

pub starts_otherwise :
    (c : ℕ) (t : Text) (p : Text)
    → is_space c ≡ false
    → (c == b'[') ≡ false
    → has_prefix (trim_space (c ∷ t)) (b'[' ∷ p) ≡ false
unfolding has_prefix trim_space trim_left
starts_otherwise c t p h g = ground (arith, trim_right_first c t h)

-- Lines without the key.
pass_lines_lem :
    (k : Text) (s : Pass) (ls : List Text)
    → block_contains s.peer_block k ≡ false
    → All (λ l. contains l k ≡ false) ls
    → (block_contains (pass_lines k s ls).peer_block k ≡ false)
      × (read_lines (pass_lines k s ls) ≡ read_lines s ++ ls)
unfolding pass_lines
pass_lines_lem k s [] h gs = (h, sym (append-nil (read_lines s)))
pass_lines_lem k s (l ∷ ls) h (g, gs) =
    let (h', e) = pass_line_lem k s l h g in
    let (h'', f) = pass_lines_lem k (pass_line k s l) ls h' gs in
    (h'', f ∙ ap (λ r. r ++ ls) e ∙ append_assoc (read_lines s) (l ∷ []) ls)

pub pass_lines-append :
    (k : Text) (s : Pass) (ls ms : List Text)
    → pass_lines k s (ls ++ ms) ≡ pass_lines k (pass_lines k s ls) ms
unfolding pass_lines
pass_lines-append k s [] ms = refl
pass_lines-append k s (l ∷ ls) ms = pass_lines-append k (pass_line k s l) ls ms

-- Behind the line that opens a block, lines that open none join the block.
unfoldable pub Joins : Text → Type 0
Joins l =
    (has_prefix (trim_space l) (bytes "[Peer]") ≡ false)
    × (has_prefix (trim_space l) (bytes "[Interface]") ≡ false)

pass-Joins :
    (k : Text) (s : Pass) (l : Text)
    → s.in_peer_block ≡ true
    → Joins l
    → pass_line k s l ≡ record s { peer_block = s.peer_block ++ l ∷ [] }
unfolding pass_line Joins
pass-Joins k s l h (g, g') = rw (g, h, g') refl

pub pass_block :
    (k : Text) (s : Pass) (ls : List Text)
    → s.in_peer_block ≡ true
    → All Joins ls
    → pass_lines k s ls ≡ record s { peer_block = s.peer_block ++ ls }
unfolding pass_lines
pass_block k s [] h gs = ap (λ b. record s { peer_block = b }) (sym (append-nil s.peer_block))
pass_block k s (l ∷ ls) h (g, gs) =
    ap (λ t. pass_lines k t ls) (pass-Joins k s l h g)
    ∙ pass_block k (record s { peer_block = s.peer_block ++ l ∷ [] }) ls h gs
    ∙ ap (λ b. record s { peer_block = b }) (append_assoc s.peer_block (l ∷ []) ls)

pass_opens :
    (k : Text) (s : Pass)
    → block_contains s.peer_block k ≡ false
    → pass_line k s (bytes "[Peer]")
      ≡ record { new_lines = read_lines s; in_peer_block = true; peer_block = bytes "[Peer]" ∷ [] }
unfolding pass_line keep_block read_lines has_prefix trim_space trim_left trim_right before_end
    is_space
pass_opens k s h = ground (arith, h)

drops_block :
    (k : Text) (ls block : List Text)
    → block_contains block k ≡ true
    → last_block k (record { new_lines = ls; in_peer_block = true; peer_block = block }) ≡ ls
unfolding last_block keep_block
drops_block k ls block c = rw c refl

-- Lines without the key, then a block that holds it: only the block goes.
pub without_block :
    (k : Text) (ls block : List Text)
    → All (λ l. contains l k ≡ false) ls
    → All Joins block
    → block_contains (bytes "[Peer]" ∷ block) k ≡ true
    → without_peer k (ls ++ bytes "[Peer]" ∷ block) ≡ ls
unfolding without_peer pass_lines block_contains read_lines
without_block k ls block h g c =
    let s = pass_lines k before_lines ls in
    let (lacks, e) = pass_lines_lem k before_lines ls refl h in
    let at_block : Pass = record {
      new_lines = read_lines s;
      in_peer_block = true;
      peer_block = bytes "[Peer]" ∷ [];
    } in
    ap (last_block k) (
      pass_lines-append k before_lines ls (bytes "[Peer]" ∷ block)
      ∙ ap (λ t. pass_lines k t block) (pass_opens k s lacks)
      ∙ pass_block k at_block block refl g)
    ∙ drops_block k (read_lines s) (bytes "[Peer]" ∷ block) c
    ∙ e
