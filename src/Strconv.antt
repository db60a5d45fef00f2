-- ===== src/Strconv.antt =====
-- strconv and fmt as the code calls them: ParseUint and Atoi in a given base, and the verbs %d, %o.
pub mod RoundTrip
use btrfs_nfs_csi.Base.{
  ℕ, zero, suc, ◌+◌, ◌-◌, ◌*◌, ◌/◌, ◌%◌, ◌^◌, ◌≡◌, refl, Bool, ◌&&◌, ◌||◌, List, [], ◌∷◌, Option,
  none, some, Bytes, codes, ltb, leb, ◌==◌, if◌then◌else◌,
}
use btrfs_nfs_csi.Base.Int.{ℤ, pos, neg}

-- The value so far is `n`; a byte that is no digit of the base, or a value above `top`, is refused.
unfoldable pub scan : ℕ → ℕ → Bytes → ℕ → Option ℕ
scan base top [] n = some n
scan base top (c ∷ s) n =
    let d = c - b'0' in
    let rest = scan base top s (n * base + d) in
    if ltb c b'0' || leb base d then none else if ltb top (n * base + d) then none else rest

-- strconv.ParseUint(s, base, bits) for a base of at most ten and `top` = 2^bits - 1.
unfoldable pub parse_uint : ℕ → ℕ → Bytes → Option ℕ
unfolding scan
parse_uint base top [] = none
parse_uint base top (c ∷ s) = scan base top (c ∷ s) 0

abbrev pub max_u64 : ℕ
max_u64 = 2 ^ 64 - 1

abbrev pub max_u32 : ℕ
max_u32 = 2 ^ 32 - 1

signed : ℕ → (ℕ → ℤ) → Bytes → Option ℤ
unfolding parse_uint
signed top sign s = elim (parse_uint 10 top s) [ none ↦ none | some n ↦ some (sign n) ]

-- strconv.Atoi with a 64-bit int.
unfoldable pub atoi : Bytes → Option ℤ
unfolding signed
atoi [] = none
atoi (c ∷ s) =
    if c == b'-'
    then signed (2 ^ 63) neg s
    else if c == b'+'
    then signed (2 ^ 63 - 1) pos s
    else signed (2 ^ 63 - 1) pos (c ∷ s)

-- The digits of `n` in front of `out`, one per round.
unfoldable pub emit : ℕ → ℕ → ℕ → Bytes → Bytes
emit base zero n out = out
emit base (suc f) n out =
    let rest = emit base f (n / base) ((b'0' + n % base) ∷ out) in
    if ltb n base then (b'0' + n) ∷ out else rest

-- `%d` and `%o` of an unsigned number.
unfoldable pub format : ℕ → ℕ → Bytes
unfolding emit
format base n = emit base (suc n) n []

parse_uint_runs :
    (parse_uint 10 max_u64 (codes "007") ≡ some 7)
    × (parse_uint 8 max_u32 (codes "2770") ≡ some 1528)
    × (parse_uint 8 max_u32 (codes "2778") ≡ none)
    × (parse_uint 10 max_u64 (codes "18446744073709551616") ≡ none)
unfolding parse_uint
parse_uint_runs = (refl, refl, refl, refl)

format_runs : (format 8 1528 ≡ codes "2770") × (format 10 0 ≡ codes "0")
unfolding format
format_runs = (refl, refl)

atoi_runs : (atoi (codes "-12") ≡ some (neg 12)) × (atoi (codes "x") ≡ none)
unfolding atoi
atoi_runs = (refl, refl)
