-- ===== src/Wireguard/Blocks.antt =====
-- What the removal of a peer does to a file of several blocks
-- (src/control_plane/map_manager.go: removeWireGuardPeer).
use shield_core.Prelude.{
  ◌≡◌, sym, ap, ◌∙◌, refl, true, false, List, [], ◌∷◌, ◌++◌, append-nil, append_assoc, Text, bytes,
  has_prefix, All, inl, inr, Bool-cases, if◌then◌else◌,
}
use shield_core.Strings.{trim_space}
use shield_core.Wireguard.{
  Pass, block_contains, keep_block, pass_line, pass_lines, last_block, without_peer, before_lines,
}
use shield_core.Wireguard.Passes.{Joins, pass_block, pass_lines-append}

-- A peer block: the line that opens it, and lines that open no block.
pub record Block : Type 0 where
  pub first : Text
  pub rest : List Text
  pub opens : has_prefix (trim_space first) (bytes "[Peer]") ≡ true
  pub rest_joins : All Joins rest

abbrev pub lines_of : Block → List Text
lines_of b = b.first ∷ b.rest

unfoldable pub block_lines_of : List Block → List Text
block_lines_of [] = []
block_lines_of (b ∷ bs) = lines_of b ++ block_lines_of bs

-- The blocks that hold the key in no line.
pub others : Text → List Block → List Block
others k [] = []
others k (b ∷ bs) =
    let rest = others k bs in if block_contains (lines_of b) k then rest else b ∷ rest

pass_first :
    (k : Text) (s : Pass) (b : Block)
    → pass_line k s b.first
      ≡ record { new_lines = last_block k s; in_peer_block = true; peer_block = b.first ∷ [] }
unfolding pass_line last_block
pass_first k s b = rw b.opens refl

pass_one :
    (k : Text) (s : Pass) (b : Block)
    → last_block k (pass_lines k s (lines_of b)) ≡ keep_block k (last_block k s) (lines_of b)
unfolding pass_lines last_block
pass_one k s b =
    let at_block : Pass = record {
      new_lines = last_block k s;
      in_peer_block = true;
      peer_block = b.first ∷ [];
    } in
    ap (last_block k) (
      ap (λ t. pass_lines k t b.rest) (pass_first k s b)
      ∙ pass_block k at_block b.rest refl b.rest_joins)

pass_all :
    (k : Text) (s : Pass) (bs : List Block)
    → last_block k (pass_lines k s (block_lines_of bs))
      ≡ last_block k s ++ block_lines_of (others k bs)
unfolding pass_lines block_lines_of others keep_block
pass_all k s [] = sym (append-nil (last_block k s))
pass_all k s (b ∷ bs) =
    let t = pass_lines k s (lines_of b) in
    ap (last_block k) (pass_lines-append k s (lines_of b) (block_lines_of bs))
    ∙ pass_all k t bs
    ∙ ap (λ l. l ++ block_lines_of (others k bs)) (pass_one k s b)
    ∙ elim (Bool-cases (block_contains (lines_of b) k)) [
      | inl e ↦ rw e refl
      | inr e ↦ rw e (append_assoc (last_block k s) (lines_of b) (block_lines_of (others k bs)))
    ]

-- Lines before the first block.
pass_head :
    (k : Text) (s : Pass) (ls : List Text)
    → s.in_peer_block ≡ false
    → All (λ l. has_prefix (trim_space l) (bytes "[Peer]") ≡ false) ls
    → pass_lines k s ls ≡ record s { new_lines = s.new_lines ++ ls }
unfolding pass_lines pass_line
pass_head k s [] h gs = ap (λ l. record s { new_lines = l }) (sym (append-nil s.new_lines))
pass_head k s (l ∷ ls) h (g, gs) =
    ap (λ t. pass_lines k t ls) (rw (g, h) refl)
    ∙ pass_head k (record s { new_lines = s.new_lines ++ l ∷ [] }) ls h gs
    ∙ ap (λ m. record s { new_lines = m }) (append_assoc s.new_lines (l ∷ []) ls)

-- Of lines that open no peer block, then peer blocks, exactly the blocks with the key are dropped.
pub without_peer_exact :
    (k : Text) (head : List Text) (bs : List Block)
    → All (λ l. has_prefix (trim_space l) (bytes "[Peer]") ≡ false) head
    → without_peer k (head ++ block_lines_of bs) ≡ head ++ block_lines_of (others k bs)
unfolding without_peer last_block
without_peer_exact k head bs h =
    ap (last_block k) (
      pass_lines-append k before_lines head (block_lines_of bs)
      ∙ ap (λ t. pass_lines k t (block_lines_of bs)) (pass_head k before_lines head refl h))
    ∙ pass_all k (record before_lines { new_lines = head }) bs
