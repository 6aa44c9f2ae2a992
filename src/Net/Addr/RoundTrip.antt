-- ===== src/Net/Addr/RoundTrip.antt =====
-- A printed IPv4 address reads back as itself (src/control_plane/map_manager.go).
use shield_core.Prelude.{
  ℕ, ◌+◌, ◌*◌, ◌/◌, ◌%◌, ◌^◌, ◌≤◌, ◌<◌, ◌≡◌, ◌∙◌, ap, ◌⊎◌, inl, inr, sym, some, [], ◌∷◌, ◌++◌, Text,
  append-nil, ltb, if◌then◌else◌, arith, Bool-cases,
}
use shield_core.Net.Decimal.{print_small}
use shield_core.Net.Addr.{Scan, octet, print_ipv4, scan_end, scan_byte, scan_ipv4, parse_ipv4}

scan_digit :
    (s : Scan) (m : ℕ) (cs : Text)
    → m < 10
    → (s.digits ≡ 0) ⊎ (0 < s.val)
    → s.val * 10 + m < 256
    → scan_ipv4 s ((m + 48) ∷ cs)
      ≡ scan_ipv4 (record s { val = s.val * 10 + m; digits = s.digits + 1 }) cs
unfolding scan_ipv4 scan_byte
scan_digit s m cs h z b = ground arith

abbrev fresh : ℕ → ℕ → Scan
fresh closed pos = record { closed = closed; pos = pos; val = 0; digits = 0 }

scan_dot :
    (closed pos val digits : ℕ) (cs : Text)
    → 0 < digits
    → pos < 3
    → scan_ipv4 (record { closed = closed; pos = pos; val = val; digits = digits }) (b'.' ∷ cs)
      ≡ scan_ipv4 (fresh (closed * 256 + val) (pos + 1)) cs
unfolding scan_ipv4 scan_byte
scan_dot closed pos val digits cs h p = ground arith

-- How many digits `print_small` writes.
width : ℕ → ℕ
width n = if ltb n 10 then 1 else if ltb n 100 then 2 else 3

width-pos : (n : ℕ) → 0 < width n
unfolding width
width-pos n = ground arith

print_one : (n : ℕ) → n < 10 → (print_small n ≡ (n + 48) ∷ []) × (width n ≡ 1)
unfolding print_small width
print_one n h = ground arith

print_two :
    (n : ℕ)
    → 10 ≤ n
    → n < 100
    → (print_small n ≡ (n / 10 + 48) ∷ (n % 10 + 48) ∷ []) × (width n ≡ 2)
unfolding print_small width
print_two n h k = ground arith

print_three :
    (n : ℕ)
    → 100 ≤ n
    → (print_small n ≡ (n / 100 + 48) ∷ (n / 10 % 10 + 48) ∷ (n % 10 + 48) ∷ []) × (width n ≡ 3)
unfolding print_small width
print_three n h = ground arith

abbrev read : ℕ → ℕ → ℕ → ℕ → Scan
read c p n d = record { closed = c; pos = p; val = n; digits = d }

scan_two :
    (c p n : ℕ) (rest : Text)
    → 10 ≤ n
    → n < 100
    → scan_ipv4 (fresh c p) ((n / 10 + 48) ∷ (n % 10 + 48) ∷ rest) ≡ scan_ipv4 (read c p n 2) rest
scan_two c p n rest h k =
    scan_digit (fresh c p) (n / 10) ((n % 10 + 48) ∷ rest) (omega arith) (omega arith) (omega arith)
    ∙ scan_digit (read c p (0 * 10 + n / 10) 1) (n % 10) rest (omega arith) (omega arith)
        (omega arith)
    ∙ ap (λ v. scan_ipv4 (read c p v 2) rest) (omega arith)

scan_three :
    (c p n : ℕ) (rest : Text)
    → 100 ≤ n
    → n < 256
    → scan_ipv4 (fresh c p) ((n / 100 + 48) ∷ (n / 10 % 10 + 48) ∷ (n % 10 + 48) ∷ rest)
      ≡ scan_ipv4 (read c p n 3) rest
scan_three c p n rest h k =
    scan_digit (fresh c p) (n / 100) ((n / 10 % 10 + 48) ∷ (n % 10 + 48) ∷ rest) (omega arith)
      (omega arith) (omega arith)
    ∙ scan_two-digits
  where
    scan_two-digits :
        scan_ipv4 (read c p (0 * 10 + n / 100) 1) ((n / 10 % 10 + 48) ∷ (n % 10 + 48) ∷ rest)
        ≡ scan_ipv4 (read c p n 3) rest
    scan_two-digits =
        scan_digit (read c p (0 * 10 + n / 100) 1) (n / 10 % 10) ((n % 10 + 48) ∷ rest)
          (omega arith) (omega arith) (omega arith)
        ∙ scan_digit (read c p ((0 * 10 + n / 100) * 10 + n / 10 % 10) 2) (n % 10) rest
            (omega arith) (omega arith) (omega arith)
        ∙ ap (λ v. scan_ipv4 (read c p v 3) rest) (omega arith)

-- Reading one printed octet.
scan_small :
    (c p n : ℕ) (rest : Text)
    → n < 256
    → scan_ipv4 (fresh c p) (print_small n ++ rest) ≡ scan_ipv4 (read c p n (width n)) rest
scan_small c p n rest h = elim (Bool-cases (ltb n 10)) [
  | inl e ↦
      let one = print_one n (ground arith) in
      rw (one.0, one.1)
        (scan_digit (fresh c p) n rest (ground arith) (omega arith) (ground arith)
          ∙ ap (λ v. scan_ipv4 (read c p v 1) rest) (omega arith))
  | inr e ↦ elim (Bool-cases (ltb n 100)) [
    | inl f ↦
        let two = print_two n (ground arith) (ground arith) in
        rw (two.0, two.1) (scan_two c p n rest (ground arith) (ground arith))
    | inr f ↦
        let three = print_three n (ground arith) in
        rw (three.0, three.1) (scan_three c p n rest (ground arith) h)
  ]
]

-- Reading a printed octet and the dot behind it.
scan_octet :
    (c p n : ℕ) (rest : Text)
    → n < 256
    → p < 3
    → scan_ipv4 (fresh c p) (print_small n ++ (b'.' ∷ rest))
      ≡ scan_ipv4 (fresh (c * 256 + n) (p + 1)) rest
scan_octet c p n rest h l =
    scan_small c p n (b'.' ∷ rest) h ∙ scan_dot c p n (width n) rest (width-pos n) l

scan_last : (c n : ℕ) → n < 256 → scan_ipv4 (fresh c 3) (print_small n) ≡ some (c * 256 + n)
scan_last c n h =
    ap (scan_ipv4 (fresh c 3)) (sym (append-nil (print_small n)))
    ∙ scan_small c 3 n [] h
    ∙ unfold scan_ipv4 scan_end in ground (arith, width-pos n)

-- Every 32-bit address reads back from its printed form.
pub parse_ipv4-print_ipv4 : (a : ℕ) → a < 2 ^ 32 → parse_ipv4 (print_ipv4 a) ≡ some a
unfolding parse_ipv4 print_ipv4
parse_ipv4-print_ipv4 a h =
    scan_octet 0 0 (octet a 3) _ (omega arith) (omega arith)
    ∙ scan_octet (0 * 256 + octet a 3) 1 (octet a 2) _ (omega arith) (omega arith)
    ∙ scan_octet ((0 * 256 + octet a 3) * 256 + octet a 2) 2 (octet a 1) _ (omega arith)
        (omega arith)
    ∙ scan_last (((0 * 256 + octet a 3) * 256 + octet a 2) * 256 + octet a 1) (octet a 0)
        (omega arith)
    ∙ ap some (omega arith)
