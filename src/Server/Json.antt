-- ===== src/Server/Json.antt =====
-- What the JSON of the rules keeps of them (src/control_plane/persist.go: saveRulesState).
use shield_core.Prelude.{
  ◌≡◌, ◌∙◌, sym, ap, refl, Bool, true, false, List, [], ◌∷◌, Text, map, text_eq, text_eq_refl,
  text_eq_iff, arith, Bool-cases, inl, inr,
}
use shield_core.Strings.Utf8.{json_text, json_text_again}
use shield_core.Maps.Targets.{member}
use shield_core.Server.{RulesState, json_state}

both_ways : (a b : Bool) → (a ≡ true → b ≡ true) → (b ≡ true → a ≡ true) → a ≡ b
both_ways true b f g = sym (f refl)
both_ways false true f g = g refl
both_ways false false f g = refl

module _ (f : Text → Text) where
  member-map : (u : Text) (l : List Text) → member u l ≡ true → member (f u) (map f l) ≡ true
  unfolding member
  member-map u [] h = h
  member-map u (x ∷ l) h = elim (Bool-cases (text_eq x u)) [
    | inl e ↦
        let same : f x ≡ f u = ap f ((text_eq_iff x u).0 e) in
        ground (arith, (text_eq_iff (f x) (f u)).1 same)
    | inr n ↦ ground (arith, n, h, member-map u l (ground (arith, n, h)))
  ]

  -- The same members have the same images.
  map_sub :
      (l k : List Text)
      → ((u : Text) → member u l ≡ true → member u k ≡ true)
      → (t : Text) → member t (map f l) ≡ true
      → member t (map f k) ≡ true
  unfolding member
  map_sub [] k h t e = absurd (ground (arith, e))
  map_sub (x ∷ l) k h t e = elim (Bool-cases (text_eq (f x) t)) [
    | inl y ↦
        ap (λ u. member u (map f k)) (sym ((text_eq_iff (f x) t).0 y))
        ∙ member-map x k (h x (ground (arith, text_eq_refl x)))
    | inr n ↦ map_sub l k (λ u m. h u (ground (arith, m))) t (ground (arith, n, e))
  ]

  pub map_same :
      (l k : List Text)
      → ((u : Text) → member u l ≡ member u k)
      → (t : Text) → member t (map f l) ≡ member t (map f k)
  map_same l k h t =
      both_ways (member t (map f l)) (member t (map f k)) (map_sub l k (λ u m. sym (h u) ∙ m) t)
        (map_sub k l (λ u m. h u ∙ m) t)

  map_kept : (l : List Text) → ((u : Text) → member u l ≡ true → f u ≡ u) → map f l ≡ l
  unfolding member
  map_kept [] h = refl
  map_kept (x ∷ l) h =
      let here : f x ≡ x = h x (ground (arith, text_eq_refl x)) in
      let rest = map_kept l (λ u m. h u (ground (arith, m))) in rw (here, rest) refl

texts_again : (l : List Text) → map json_text (map json_text l) ≡ map json_text l
texts_again [] = refl
texts_again (x ∷ l) = rw (json_text_again x, texts_again l) refl

-- A state that JSON has written once it writes again as it is.
pub json_state_again : (a : RulesState) → json_state (json_state a) ≡ json_state a
unfolding json_state
json_state_again a = rw (texts_again a.blacklist_targets, texts_again a.whitelist_targets) refl

-- Rules whose targets are UTF-8 texts.
abbrev pub IsUtf8 : RulesState → Type 0
IsUtf8 a =
    ((t : Text) → member t a.blacklist_targets ≡ true → json_text t ≡ t)
    × ((t : Text) → member t a.whitelist_targets ≡ true → json_text t ≡ t)

pub json_state_utf8 : (a : RulesState) → IsUtf8 a → json_state a ≡ a
unfolding json_state
json_state_utf8 a (b, w) =
    rw (map_kept json_text a.blacklist_targets b, map_kept json_text a.whitelist_targets w) refl
