-- ===== src/Mounts/Longest.antt =====
-- FindMountPoint of utils/mount.go returns the longest mount point that holds the path.
use btrfs_nfs_csi.Base.{
  ◌≤◌, ◌≡◌, refl, ap, ◌⊎◌, inl, inr, true, ◌&&◌, ltb, has_prefix, drop, drop-append, ◌++◌, codes,
  List, [], ◌∷◌, Option, none, some, Bytes, ◌=b◌, eq_iff, length, In, split, fields, Bool-cases,
  arith,
}
use btrfs_nfs_csi.Mounts.{
  ends_component, mount_field, covers, better_mount, best_mount, find_mount_point,
}

-- The mount points that the lines name.
abbrev pub mounts_of : List Bytes → List (Option Bytes)
mounts_of [] = []
mounts_of (line ∷ lines) = mount_field (fields line) ∷ mounts_of lines

-- What stands for the best mount point so far, `best`, behind these lines: it was there before or
-- is named by them and holds the path, and no such mount point is longer.
record IsBest (path best : Bytes) (mounts : List (Option Bytes)) (m : Bytes) : Type 0 where
  named : (m ≡ best) ⊎ (In (some m) mounts × (covers path m ≡ true))
  longer : length best ≤ length m
  longest : (k : Bytes) → In (some k) mounts → covers path k ≡ true → length k ≤ length m

better_mount-IsBest :
    (path best : Bytes) (mount : Option Bytes)
    → IsBest path best (mount ∷ []) (better_mount path best mount)
unfolding better_mount
better_mount-IsBest path best none = record {
  named = inl refl;
  longer = omega arith;
  longest = λ k i c. elim i [ inl e ↦ absurd (cc) | inr e ↦ elim e [ ] ];
}
better_mount-IsBest path best (some mount) =
    elim (Bool-cases (covers path mount && ltb (length best) (length mount))) [
      | inl e ↦ rw e record {
        named = inr (inl refl, ground (arith, e));
        longer = ground (arith, e);
        longest = λ k i c. elim i [
          | inl p ↦ (let q : k ≡ mount = cc in omega (arith, ap length q))
          | inr p ↦ elim p [ ]
        ];
      }
      | inr e ↦ rw e record {
        named = inl refl;
        longer = omega arith;
        longest = λ k i c. elim i [ inl p ↦ ground (arith, e, c, p) | inr p ↦ elim p [ ] ];
      }
    ]

best_mount-IsBest :
    (path best : Bytes) (lines : List Bytes)
    → IsBest path best (mounts_of lines) (best_mount path best lines)
unfolding best_mount
best_mount-IsBest path best [] = record {
  named = inl refl;
  longer = omega arith;
  longest = λ k i c. elim i [ ];
}
best_mount-IsBest path best (line ∷ lines) =
    let mount = mount_field (fields line) in
    let first = better_mount-IsBest path best mount in
    let rest = best_mount-IsBest path (better_mount path best mount) lines in
    record {
      named = ground (arith, first.named, rest.named);
      longer = omega (arith, first.longer, rest.longer);
      longest = λ k i c. elim i [
        | inl e ↦ omega (arith, first.longest k (inl e) c, rest.longer)
        | inr e ↦ rest.longest k e c
      ];
    }

-- The path is the mount point, or goes on below it.
abbrev pub IsUnder : Bytes → Bytes → Type 0
IsUnder path mount =
    (rest : Bytes) × (path ≡ mount ++ rest)
    × ((mount ≡ codes "/") ⊎ (rest ≡ []) ⊎ ((t : Bytes) × (rest ≡ b'/' ∷ t)))

has_prefix-append : (s p : Bytes) → has_prefix s p ≡ true → s ≡ p ++ drop (length p) s
unfolding has_prefix
has_prefix-append s [] h = refl
has_prefix-append [] (d ∷ p) h = absurd (cc)
has_prefix-append (c ∷ s) (d ∷ p) h = ground (arith, h, has_prefix-append s p)

append-has_prefix : (p r : Bytes) → has_prefix (p ++ r) p ≡ true
unfolding has_prefix
append-has_prefix [] r = refl
append-has_prefix (c ∷ p) r = ground (arith, append-has_prefix p r)

ends_component-rest :
    (r : Bytes) → ends_component r ≡ true → (r ≡ []) ⊎ ((t : Bytes) × (r ≡ b'/' ∷ t))
unfolding ends_component
ends_component-rest [] h = inl refl
ends_component-rest (c ∷ t) h = inr (t, ground (arith, h))

covers→IsUnder : (path mount : Bytes) → covers path mount ≡ true → IsUnder path mount
unfolding covers
covers→IsUnder path mount h =
    let whole = has_prefix-append path mount (ground (arith, h)) in
    (
      drop (length mount) path,
      whole,
      elim (Bool-cases (mount =b codes "/")) [
        | inl e ↦ inl ((eq_iff mount (codes "/")).0 e)
        | inr e ↦ inr (ends_component-rest (drop (length mount) path) (ground (arith, h, e)))
      ],
    )

IsUnder→covers : (path mount : Bytes) → IsUnder path mount → covers path mount ≡ true
unfolding covers ends_component
IsUnder→covers path mount (r, whole, last) = rw whole (
    rw (append-has_prefix mount r, drop-append mount r)
      (elim last [
        | inl e ↦ ground (arith, (eq_iff mount (codes "/")).1 e)
        | inr e ↦ elim e [ inl e ↦ ground (arith, e) | inr (t, e) ↦ ground (arith, e) ]
      ]))

-- What FindMountPoint answers for a path, given the mount points that the table names.
abbrev pub Finds : Bytes → List (Option Bytes) → Option Bytes → Type 0
Finds path mounts (some m) =
    In (some m) mounts
    × IsUnder path m
    × ((k : Bytes) → In (some k) mounts → IsUnder path k → length k ≤ length m)
Finds path mounts none = (k : Bytes) → In (some k) mounts → IsUnder path k → k ≡ []

length-zero : (k : Bytes) → length k ≤ 0 → k ≡ []
length-zero [] h = refl
length-zero (c ∷ k) h = absurd (omega (arith, h))

-- The mount point found is named by a line of the table, the path is it or lies below it, and no
-- other mount point named there that holds the path is longer. An error means that no mount point
-- named there holds the path, but for the empty text.
pub find_mount_point-Finds :
    (path mountinfo : Bytes)
    → Finds path (mounts_of (split b'\n' mountinfo)) (find_mount_point path mountinfo)
unfolding find_mount_point
find_mount_point-Finds path mountinfo =
    let lines = split b'\n' mountinfo in
    let best = best_mount-IsBest path [] lines in
    elim (Bool-cases (best_mount path [] lines =b [])) [
      | inl e ↦ rw e (λ k i under.
          let p = (eq_iff (best_mount path [] lines) []).0 e in
          length-zero k
            (omega (arith, ap length p, best.longest k i (IsUnder→covers path k under))))
      | inr e ↦ rw e (elim best.named [
        | inl p ↦ absurd (ground (arith, e, (eq_iff (best_mount path [] lines) []).1 p))
        | inr p ↦ (
          p.0,
          covers→IsUnder path _ p.1,
          λ k i under. best.longest k i (IsUnder→covers path k under),
        )
      ])
    ]
