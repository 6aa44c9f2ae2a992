-- ===== src/Logs/Newest.antt =====
-- Which lines of the log are shown (src/control_plane/main.go: handleLogs).
use shield_core.Prelude.{
  ℕ, zero, suc, ◌+◌, ◌-◌, ◌<◌, ◌≤◌, ◌≡◌, ◌∙◌, sym, refl, false, Option, none, some, ◌++◌, ◌==◌,
  append-nil, append_assoc, length, List, [], ◌∷◌, Text, text_eq, take, if◌then◌else◌, arith,
  Bool-cases, inl, inr,
}
use shield_core.Strings.{split, trim_space}
use shield_core.Logs.{backwards, newest_from, newest_logs}

-- The lines without the spaces around them, those that are empty left out.
abbrev pub written : List Text → List Text
written [] = []
written (l ∷ ls) =
    let rest = written ls in if text_eq (trim_space l) [] then rest else trim_space l ∷ rest

newest_from_lem :
    (left taken : ℕ) (ls : List Text)
    → taken + left ≡ 100
    → newest_from taken ls ≡ take left (written ls)
unfolding newest_from
newest_from_lem zero taken [] h = refl
newest_from_lem (suc left) taken [] h = refl
newest_from_lem zero taken (l ∷ ls) h = ground arith
newest_from_lem (suc left) taken (l ∷ ls) h = elim (Bool-cases (text_eq (trim_space l) [])) [
  | inl e ↦ ground (arith, newest_from_lem (suc left) taken ls h)
  | inr e ↦ ground (arith, newest_from_lem left (taken + 1) ls (omega arith))
]

written-append : (ls ks : List Text) → written (ls ++ ks) ≡ written ls ++ written ks
written-append [] ks = refl
written-append (l ∷ ls) ks = elim (Bool-cases (text_eq (trim_space l) [])) [
  | inl e ↦ rw e (written-append ls ks)
  | inr e ↦ rw (e, written-append ls ks) refl
]

backwards-append : (ls ks : List Text) → backwards (ls ++ ks) ≡ backwards ks ++ backwards ls
unfolding backwards
backwards-append [] ks = sym (append-nil (backwards ks))
backwards-append (l ∷ ls) ks =
    rw (backwards-append ls ks) (append_assoc (backwards ks) (backwards ls) (l ∷ []))

-- How many lines are not blank.
abbrev pub count_written : List Text → ℕ
count_written [] = 0
count_written (l ∷ ls) =
    let rest = count_written ls in if text_eq (trim_space l) [] then rest else 1 + rest

count_written-append :
    (ls ks : List Text) → count_written (ls ++ ks) ≡ count_written ls + count_written ks
count_written-append [] ks = omega arith
count_written-append (l ∷ ls) ks = ground (arith, count_written-append ls ks)

count_written-backwards : (ls : List Text) → count_written (backwards ls) ≡ count_written ls
unfolding backwards
count_written-backwards [] = refl
count_written-backwards (l ∷ ls) =
    ground (arith, count_written-append (backwards ls) (l ∷ []), count_written-backwards ls)

length-written : (ls : List Text) → length (written ls) ≡ count_written ls
length-written [] = refl
length-written (l ∷ ls) = ground (arith, length-written ls)

-- The line in a place of an answer.
abbrev pub line_at : ℕ → List Text → Option Text
line_at n [] = none
line_at n (l ∷ ls) = if n == 0 then some l else line_at (n - 1) ls

line_at-behind :
    (k n : ℕ) (ls : List Text) (l : Text) (ks : List Text)
    → length ls ≡ n
    → n < k
    → line_at n (take k (ls ++ l ∷ ks)) ≡ some l
line_at-behind zero n ls l ks h g = ground (arith, g)
line_at-behind (suc k) n [] l ks h g = ground (arith, h)
line_at-behind (suc k) n (x ∷ ls) l ks h g =
    ground (arith, h, line_at-behind k (n - 1) ls l ks (ground (arith, h)) (ground (arith, h, g)))

length-take_bound : (k : ℕ) (ls : List Text) → length (take k ls) ≤ k
length-take_bound zero ls = ground arith
length-take_bound (suc k) [] = ground arith
length-take_bound (suc k) (l ∷ ls) = ground (arith, length-take_bound k ls)

-- A line of the log that is not blank stands, without the spaces around it, in the place that
-- counts the lines behind it that are not blank, where these are fewer than 100: the newest first;
-- and no more than 100 lines are shown. The log is taken without the spaces around it.
pub newest_logs_lem :
    (content : Text) (before : List Text) (line : Text) (behind : List Text)
    → split 10 (trim_space content) ≡ before ++ line ∷ behind
    → text_eq (trim_space line) [] ≡ false
    → count_written behind < 100
    → (line_at (count_written behind) (newest_logs content) ≡ some (trim_space line))
      × (length (newest_logs content) ≤ 100)
unfolding newest_logs backwards
newest_logs_lem content before line behind e w few =
    let lines = split 10 (trim_space content) in
    let all = newest_from_lem 100 0 (backwards lines) refl in
    let order : written (backwards lines)
        ≡ written (backwards behind) ++ trim_space line ∷ written (backwards before) =
      rw
        (
          e,
          backwards-append before (line ∷ behind),
          append_assoc (backwards behind) (line ∷ []) (backwards before),
          written-append (backwards behind) (line ∷ backwards before),
          w,
        )
        refl in
    (
      rw (all, order)
          (line_at-behind 100 (count_written behind) (written (backwards behind)) (trim_space line)
            (written (backwards before))
            (length-written (backwards behind) ∙ count_written-backwards behind) few),
      rw all (length-take_bound 100 (written (backwards lines))),
    )
