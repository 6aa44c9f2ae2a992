-- ===== src/Strings/Utf8.antt =====
-- The texts that encoding/json writes: a byte that begins no UTF-8 sequence becomes the
-- replacement character, EF BF BD (src/control_plane/persist.go calls it).
use shield_core.Prelude.{
  ℕ, ◌+◌, ◌-◌, ◌≤◌, ◌≡◌, ◌∙◌, refl, ap, Bool, true, false, ◌&&◌, ◌||◌, [], ◌∷◌, Text, ltb, leb,
  ◌==◌, if◌then◌else◌, arith, Bool-cases, inl, inr,
}

-- The byte at a place, or a number that is no byte behind the end.
unfoldable pub byte_at : ℕ → Text → ℕ
byte_at k [] = 256
byte_at k (c ∷ t) = if k == 0 then c else byte_at (k - 1) t

unfoldable pub is_continuation : ℕ → Bool
is_continuation c = leb 128 c && leb c 191

-- The second byte behind a lead byte: neither an overlong form, nor a surrogate, nor a number
-- above 10FFFF.
unfoldable pub is_second : ℕ → ℕ → Bool
is_second c b =
    let low = if c == 224 then 160 else if c == 240 then 144 else 128 in
    let high = if c == 237 then 159 else if c == 244 then 143 else 191 in leb low b && leb b high

-- How many bytes the sequence has that begins with a byte before a text, 0 for no sequence.
unfoldable pub rune_len : ℕ → Text → ℕ
unfolding is_continuation is_second byte_at
rune_len c t =
    let two = leb 194 c && leb c 244 && is_second c (byte_at 0 t) in
    let three = two && is_continuation (byte_at 1 t) in
    let four = three && is_continuation (byte_at 2 t) in
    if ltb c 128
    then 1
    else if leb c 223
    then (if two then 2 else 0)
    else if leb c 239
    then (if three then 3 else 0)
    else if four
    then 4
    else 0

-- The number counts the bytes that still belong to a sequence.
unfoldable pub coerce : ℕ → Text → Text
unfolding rune_len
coerce skip [] = []
coerce skip (c ∷ t) =
    let len = rune_len c t in
    let kept = coerce (if ltb 0 skip then skip - 1 else len - 1) t in
    if ltb 0 skip || ltb 0 len then c ∷ kept else 239 ∷ 191 ∷ 189 ∷ kept

unfoldable pub json_text : Text → Text
unfolding coerce
json_text t = coerce 0 t

-- The bytes of a sequence stay.
byte_at-coerce : (k skip : ℕ) (t : Text) → k + 1 ≤ skip → byte_at k (coerce skip t) ≡ byte_at k t
unfolding byte_at coerce
byte_at-coerce k skip [] h = refl
byte_at-coerce k skip (c ∷ t) h = elim (Bool-cases (k == 0)) [
  | inl e ↦ ground (arith, e)
  | inr e ↦ ground (arith, e, byte_at-coerce (k - 1) (skip - 1) t (ground (arith, e, h)))
]

rune_len-coerce :
    (c n : ℕ) (t : Text) → rune_len c t ≡ n → 1 ≤ n → rune_len c (coerce (n - 1) t) ≡ n
unfolding rune_len
rune_len-coerce c n t h p =
    ground
      (arith, byte_at-coerce 0 (n - 1) t, byte_at-coerce 1 (n - 1) t, byte_at-coerce 2 (n - 1) t)

coerce_inside :
    (skip c : ℕ) (t : Text) → ltb 0 skip ≡ true → coerce skip (c ∷ t) ≡ c ∷ coerce (skip - 1) t
unfolding coerce
coerce_inside skip c t h = rw h refl

coerce_begin :
    (skip c : ℕ) (t : Text)
    → ltb 0 skip ≡ false
    → ltb 0 (rune_len c t) ≡ true
    → coerce skip (c ∷ t) ≡ c ∷ coerce (rune_len c t - 1) t
unfolding coerce
coerce_begin skip c t h k = rw (h, k) refl

coerce_invalid :
    (skip c : ℕ) (t : Text)
    → ltb 0 skip ≡ false
    → ltb 0 (rune_len c t) ≡ false
    → coerce skip (c ∷ t) ≡ 239 ∷ 191 ∷ 189 ∷ coerce 0 t
unfolding coerce
coerce_invalid skip c t h k =
    let none_kept : rune_len c t - 1 ≡ 0 = ground (arith, k) in rw (h, k, none_kept) refl

coerce_replacement :
    (skip : ℕ) (t : Text)
    → ltb 0 skip ≡ false
    → coerce skip (239 ∷ 191 ∷ 189 ∷ t) ≡ 239 ∷ 191 ∷ 189 ∷ coerce 0 t
unfolding coerce rune_len
coerce_replacement skip t h = rw h refl

-- What JSON has written it writes again as it is.
coerce_again : (skip : ℕ) (t : Text) → coerce skip (coerce skip t) ≡ coerce skip t
coerce_again skip [] = unfold coerce in refl
coerce_again skip (c ∷ t) = elim (Bool-cases (ltb 0 skip)) [
  | inl e ↦
      rw (coerce_inside skip c t e)
        (coerce_inside skip c (coerce (skip - 1) t) e ∙ ap (λ u. c ∷ u) (coerce_again (skip - 1) t))
  | inr e ↦ elim (Bool-cases (ltb 0 (rune_len c t))) [
    | inl k ↦
        let n = rune_len c t in
        let same = rune_len-coerce c n t refl (ground (arith, k)) in
        rw (coerce_begin skip c t e k) (
          coerce_begin skip c (coerce (n - 1) t) e (rw same k)
          ∙ ap (λ m. c ∷ coerce (m - 1) (coerce (n - 1) t)) same
          ∙ ap (λ u. c ∷ u) (coerce_again (n - 1) t))
    | inr k ↦
        rw (coerce_invalid skip c t e k) (
          coerce_replacement skip (coerce 0 t) e ∙ ap (λ u. 239 ∷ 191 ∷ 189 ∷ u) (coerce_again 0 t))
  ]
]

pub json_text_again : (t : Text) → json_text (json_text t) ≡ json_text t
unfolding json_text
json_text_again t = coerce_again 0 t
