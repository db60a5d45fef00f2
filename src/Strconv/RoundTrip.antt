-- ===== src/Strconv/RoundTrip.antt =====
-- A printed number parses back, and an accepted text is in range.
use native.Mathlib.Nat.{div-add-mod', mod-lt, div-lt_self}
use btrfs_nfs_csi.Base.{
  ℕ, zero, suc, ◌+◌, ◌-◌, ◌*◌, ◌/◌, ◌%◌, ◌^◌, ◌≤◌, ◌<◌, ◌≡◌, refl, ap, ◌≢◌, ◌∙◌, [], ◌∷◌, none,
  some, Bytes, arith, ltb, ltb→lt, Bool-cases, inl, inr,
}
use btrfs_nfs_csi.Strconv.{scan, parse_uint, emit, format, atoi, signed}
use btrfs_nfs_csi.Base.Int.{pos, negsuc, neg}

module _ (base top : ℕ) (large : 1 < base) (small : base ≤ 10) where
  scan_digit :
      (d n r : ℕ) (s : Bytes)
      → d < base
      → n * base + d ≡ r
      → r ≤ top
      → scan base top ((b'0' + d) ∷ s) n ≡ scan base top s r
  unfolding scan
  scan_digit d n r s h e k = let f : b'0' + d - b'0' ≡ d = omega arith in ground arith

  scan-emit :
      (f n : ℕ) (out : Bytes)
      → n < f
      → n ≤ top
      → scan base top (emit base f n out) 0 ≡ scan base top out n
  unfolding emit
  scan-emit zero n out h k = absurd (omega arith)
  scan-emit (suc f) n out h k = elim (Bool-cases (ltb n base)) [
    | inl last ↦ rw last (scan_digit n 0 n out (ltb→lt _ _ last) (omega arith) k)
    | inr more ↦
        let below : n / base < n = div-lt_self (ground arith) large in
        let left : n % base < base = mod-lt n (omega arith) in
        let whole : n / base * base + n % base ≡ n = div-add-mod' n base in
        rw more (
          scan-emit f (n / base) ((b'0' + n % base) ∷ out) (omega arith) (omega arith)
          ∙ scan_digit (n % base) (n / base) n out left whole k)
  ]

  emit-ne-nil : (f n : ℕ) (out : Bytes) → n < f → emit base f n out ≢ []
  unfolding emit
  emit-ne-nil zero n out h = absurd (omega arith)
  emit-ne-nil (suc f) n out h = elim (Bool-cases (ltb n base)) [
    | inl last ↦ rw last (λ e. cc)
    | inr more ↦
        let below : n / base < n = div-lt_self (ground arith) large in
        rw more (emit-ne-nil f (n / base) ((b'0' + n % base) ∷ out) (omega arith))
  ]

  parse_uint-scan : (s : Bytes) → s ≢ [] → parse_uint base top s ≡ scan base top s 0
  unfolding parse_uint
  parse_uint-scan [] h = absurd (h refl)
  parse_uint-scan (c ∷ s) h = refl

  pub parse_uint-format : (n : ℕ) → n ≤ top → parse_uint base top (format base n) ≡ some n
  unfolding format
  parse_uint-format n h =
      parse_uint-scan (emit base (suc n) n []) (emit-ne-nil (suc n) n [] (omega arith))
      ∙ scan-emit (suc n) n [] (omega arith) h
      ∙ unfold scan in refl

module _ (base top : ℕ) where
  scan-le : (s : Bytes) (n r : ℕ) → n ≤ top → scan base top s n ≡ some r → r ≤ top
  unfolding scan
  scan-le [] n r h e = ground arith
  scan-le (c ∷ s) n r h e = ground (arith, scan-le s (n * base + (c - b'0')) r)

  pub parse_uint-le : (s : Bytes) (r : ℕ) → parse_uint base top s ≡ some r → r ≤ top
  unfolding parse_uint
  parse_uint-le [] r e = cc
  parse_uint-le (c ∷ s) r e = scan-le (c ∷ s) 0 r (omega arith) e

atoi-parse_uint :
    (s : Bytes) (n : ℕ) → parse_uint 10 (2 ^ 63 - 1) s ≡ some n → atoi s ≡ some (pos n)
unfolding atoi parse_uint scan signed
atoi-parse_uint [] n h = absurd (cc)
atoi-parse_uint (c ∷ s) n h = ground arith

-- What is printed in decimal is read back by Atoi, where it fits in an `int`.
pub atoi-format : (n : ℕ) → n < 2 ^ 63 → atoi (format 10 n) ≡ some (pos n)
atoi-format n h =
    atoi-parse_uint (format 10 n) n
      (parse_uint-format 10 (2 ^ 63 - 1) (omega arith) (omega arith) n (omega arith))

-- A negative number is printed with a sign in front of its digits.
pub atoi-format_negative :
    (m : ℕ) → suc m ≤ 2 ^ 63 → atoi (b'-' ∷ format 10 (suc m)) ≡ some (negsuc m)
unfolding atoi signed
atoi-format_negative m h =
    ap (λ o. elim o [ none ↦ none | some n ↦ some (neg n) ])
      (parse_uint-format 10 (2 ^ 63) (omega arith) (omega arith) (suc m) h)
