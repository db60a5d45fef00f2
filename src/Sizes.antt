-- ===== src/Sizes.antt =====
-- utils/format.go: ParseSize.
pub mod Exact
use btrfs_nfs_csi.Base.{
  ℕ, ◌+◌, ◌-◌, ◌*◌, ◌/◌, ◌%◌, ◌^◌, ◌≡◌, refl, Bool, not, ◌&&◌, [], ◌∷◌, Option, none, some, Bytes,
  codes, ltb, ◌==◌, ◌=b◌, length, take, drop, if◌then◌else◌,
}
use btrfs_nfs_csi.Strconv.{parse_uint, max_u64}

-- The first switch: suffixes of two bytes.
unfoldable pub binary_multiplier : Bytes → Option ℕ
binary_multiplier s =
    if s =b codes "Ei"
    then some (2 ^ 60)
    else if s =b codes "Pi"
    then some (2 ^ 50)
    else if s =b codes "Ti"
    then some (2 ^ 40)
    else if s =b codes "Gi"
    then some (2 ^ 30)
    else if s =b codes "Mi"
    then some (2 ^ 20)
    else if s =b codes "Ki"
    then some (2 ^ 10)
    else none

-- The inner switch: suffixes of one byte.
unfoldable pub decimal_multiplier : Bytes → Option ℕ
decimal_multiplier s =
    if s =b codes "G"
    then some 1_000_000_000
    else if s =b codes "M"
    then some 1_000_000
    else if s =b codes "K"
    then some 1_000
    else none

-- `n * multiplier` in uint64, and the division that detects a product which wrapped around.
unfoldable pub scale : ℕ → ℕ → Option ℕ
scale multiplier n =
    let result = n * multiplier % 2 ^ 64 in
    if not (n == 0) && not (result / n == multiplier) then none else some result

unfoldable pub scaled : ℕ → Bytes → Option ℕ
scaled multiplier num = elim (parse_uint 10 max_u64 num) [
  | none ↦ none
  | some n ↦ scale multiplier n
]

unfoldable pub parse_size : Bytes → Option ℕ
parse_size s =
    let size = length s in
    if ltb size 2 then parse_uint 10 max_u64 s else elim (binary_multiplier (drop (size - 2) s)) [
      | some multiplier ↦ scaled multiplier (take (size - 2) s)
      | none ↦ elim (decimal_multiplier (drop (size - 1) s)) [
        | some multiplier ↦ scaled multiplier (take (size - 1) s)
        | none ↦ parse_uint 10 max_u64 s
      ]
    ]

parse_size_runs :
    (parse_size (codes "10Gi") ≡ some (10 * 2 ^ 30))
    × (parse_size (codes "1G") ≡ some 1_000_000_000)
    × (parse_size (codes "17179869184Gi") ≡ none)
    × (parse_size (codes "7") ≡ some 7)
    × (parse_size (codes "Gi") ≡ none)
unfolding parse_size binary_multiplier decimal_multiplier scaled scale parse_uint ◌=b◌
parse_size_runs = (refl, refl, refl, refl, refl)
