-- ===== src/Sizes/Exact.antt =====
-- ParseSize returns the true product, or fails: the overflow test is exact.
use native.Mathlib.Nat.{mul-div_cancel_left, mul-div-le, mod-lt, mod-eq_of_lt}
use native.Mathlib.Decide.{dec_lt, ℕ_discrete}
use btrfs_nfs_csi.Base.{
  ap, Option-cases, false, inl, inr, ◌=b◌, ◌≤◌, ◌<◌, ◌≢◌, ℕ, ◌+◌, ◌-◌, ◌*◌, ◌/◌, ◌%◌, ◌^◌, ◌≡◌,
  refl, ◌∷◌, ◌++◌, [], none, some, Bytes, codes, ltb, length, length-append, drop-append,
  take-append, arith, if◌then◌else◌, Option, drop,
}
use btrfs_nfs_csi.Strconv.{parse_uint, max_u64}
use btrfs_nfs_csi.Sizes.{binary_multiplier, decimal_multiplier, scale, scaled, parse_size}

-- The product, if it fits in 64 bits.
abbrev pub exact : ℕ → Option ℕ → Option ℕ
exact multiplier none = none
exact multiplier (some n) = if ltb (n * multiplier) (2 ^ 64) then some (n * multiplier) else none

-- A product that wrapped around is noticed: the quotient is then below the multiplier.
quotient_of_wrapped : (m n : ℕ) → 2 ^ 64 ≤ n * m → (n ≢ 0) × (n * m % 2 ^ 64 / n ≢ m)
quotient_of_wrapped m n h = (
  λ e. absurd (grind arith),
  λ e.
      let small : n * m % 2 ^ 64 < 2 ^ 64 = mod-lt (n * m) (omega arith) in
      let under : n * (n * m % 2 ^ 64 / n) ≤ n * m % 2 ^ 64 = mul-div-le (n * m % 2 ^ 64) n in
      let whole : n * (n * m % 2 ^ 64 / n) ≡ n * m = ap (λ (q : ℕ). n * q) e in
      absurd (omega arith),
)

scale-exact : (m n : ℕ) → scale m n ≡ exact m (some n)
unfolding scale
scale-exact m n = elim (dec_lt (n * m) (2 ^ 64)) [
  | yes fits ↦
      rw (mod-eq_of_lt fits, scale)
        (elim (ℕ_discrete n 0) [
          | yes zero ↦ ground arith
          | no more ↦ ground (arith, mul-div_cancel_left m {n = n} (omega arith))
        ])
  | no wraps ↦ let (some_factor, quotient) = quotient_of_wrapped m n (omega arith) in ground arith
]

scaled-exact : (m : ℕ) (num : Bytes) → scaled m num ≡ exact m (parse_uint 10 max_u64 num)
unfolding scaled
scaled-exact m num = elim (Option-cases (parse_uint 10 max_u64 num)) [
  | inl bad ↦ rw (bad, scaled) refl
  | inr (n, good) ↦ rw (good, scaled) (scale-exact m n)
]

parse_size-binary :
    (num suffix : Bytes) (m : ℕ)
    → length suffix ≡ 2
    → binary_multiplier suffix ≡ some m
    → parse_size (num ++ suffix) ≡ exact m (parse_uint 10 max_u64 num)
unfolding parse_size
parse_size-binary num suffix m two known =
    let behind : length (num ++ suffix) - 2 ≡ length num =
      omega (arith, length-append num suffix) in
    let long : ltb (length (num ++ suffix)) 2 ≡ false = ground (arith, length-append num suffix) in
    rw (long, behind, drop-append num suffix, known, behind, take-append num suffix)
      (scaled-exact m num)

last_two : (x c : ℕ) (xs : Bytes) → (d : ℕ) × (drop (length xs) (x ∷ (xs ++ c ∷ [])) ≡ d ∷ c ∷ [])
last_two x c [] = (x, refl)
last_two x c (y ∷ ys) = last_two y c ys

not_binary : (d c : ℕ) → c ≢ b'i' → binary_multiplier (d ∷ c ∷ []) ≡ none
unfolding binary_multiplier ◌=b◌
not_binary d c h = ground arith

parse_size-decimal :
    (num : Bytes) (c m : ℕ)
    → c ≢ b'i'
    → decimal_multiplier (c ∷ []) ≡ some m
    → parse_uint 10 max_u64 (c ∷ []) ≡ none
    → parse_size (num ++ c ∷ []) ≡ exact m (parse_uint 10 max_u64 num)
unfolding parse_size
parse_size-decimal [] c m letter known bad = rw bad (unfold parse_uint in refl)
parse_size-decimal (x ∷ xs) c m letter known bad =
    let size : length (xs ++ c ∷ []) ≡ length xs + 1 = length-append xs (c ∷ []) in
    let second : length (x ∷ (xs ++ c ∷ [])) - 2 ≡ length xs = omega arith in
    let first : length (x ∷ (xs ++ c ∷ [])) - 1 ≡ length (x ∷ xs) = omega arith in
    let long : ltb (length (x ∷ (xs ++ c ∷ []))) 2 ≡ false = ground arith in
    let (d, ends) = last_two x c xs in
    rw
      (
        long,
        second,
        ends,
        not_binary d c letter,
        first,
        drop-append (x ∷ xs) (c ∷ []),
        known,
        first,
        take-append (x ∷ xs) (c ∷ []),
      )
      (scaled-exact m (x ∷ xs))

-- The units of the doc comment, with the sizes that they stand for.
pub data SizeUnit : Type 0 where
  exbi pebi tebi gibi mebi kibi giga mega kilo : SizeUnit

abbrev pub suffix_of : SizeUnit → Bytes
suffix_of exbi = codes "Ei"
suffix_of pebi = codes "Pi"
suffix_of tebi = codes "Ti"
suffix_of gibi = codes "Gi"
suffix_of mebi = codes "Mi"
suffix_of kibi = codes "Ki"
suffix_of giga = codes "G"
suffix_of mega = codes "M"
suffix_of kilo = codes "K"

abbrev pub size_of : SizeUnit → ℕ
size_of exbi = 1024 ^ 6
size_of pebi = 1024 ^ 5
size_of tebi = 1024 ^ 4
size_of gibi = 1024 ^ 3
size_of mebi = 1024 ^ 2
size_of kibi = 1024
size_of giga = 1000 ^ 3
size_of mega = 1000 ^ 2
size_of kilo = 1000

-- A number and a unit parse to the true product of the number and the unit's size, and the parse
-- fails exactly where the number does not parse or the product is 2^64 or more.
pub parse_size-exact :
    (num : Bytes) (u : SizeUnit)
    → parse_size (num ++ suffix_of u) ≡ exact (size_of u) (parse_uint 10 max_u64 num)
unfolding binary_multiplier decimal_multiplier parse_uint ◌=b◌
parse_size-exact num exbi = parse_size-binary num (codes "Ei") (size_of exbi) refl refl
parse_size-exact num pebi = parse_size-binary num (codes "Pi") (size_of pebi) refl refl
parse_size-exact num tebi = parse_size-binary num (codes "Ti") (size_of tebi) refl refl
parse_size-exact num gibi = parse_size-binary num (codes "Gi") (size_of gibi) refl refl
parse_size-exact num mebi = parse_size-binary num (codes "Mi") (size_of mebi) refl refl
parse_size-exact num kibi = parse_size-binary num (codes "Ki") (size_of kibi) refl refl
parse_size-exact num giga = parse_size-decimal num b'G' (size_of giga) (omega arith) refl refl
parse_size-exact num mega = parse_size-decimal num b'M' (size_of mega) (omega arith) refl refl
parse_size-exact num kilo = parse_size-decimal num b'K' (size_of kilo) (omega arith) refl refl
