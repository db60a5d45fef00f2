-- ===== src/Base/Maps.antt =====
-- Go maps with string keys as association lists. A read takes the first entry of a key.
use mathlib.Core.Path.{◌≡◌, refl}
use mathlib.Core.List.{List, [], ◌∷◌}
use mathlib.Core.Option.{Option, none, some}
use native.Mathlib.Omega.{arith}
use btrfs_nfs_csi.Base.Tests.{if◌then◌else◌}
use btrfs_nfs_csi.Base.Strings.{Bytes, ◌=b◌, eq_iff}

abbrev pub Dict {ℓ} : Type ℓ → Type ℓ
Dict V = List (Bytes × V)

module _ {ℓ} {V : Type ℓ} where
  -- `v, ok := m[k]`
  unfoldable pub lookup : Bytes → Dict V → Option V
  lookup key [] = none
  lookup key ((first, value) ∷ others) = if first =b key then some value else lookup key others

  -- `delete(m, k)`
  unfoldable pub delete : Bytes → Dict V → Dict V
  delete key [] = []
  delete key ((first, value) ∷ others) =
      let rest = delete key others in if first =b key then rest else (first, value) ∷ rest

  -- `m[k] = v`
  unfoldable pub insert : Bytes → V → Dict V → Dict V
  insert key new [] = (key, new) ∷ []
  insert key new ((first, value) ∷ others) =
      let rest = insert key new others in
      if first =b key then (key, new) ∷ others else (first, value) ∷ rest

  pub lookup-delete :
      (key asked : Bytes) (m : Dict V)
      → lookup asked (delete key m) ≡ (if key =b asked then none else lookup asked m)
  unfolding lookup delete
  lookup-delete key asked [] = ground arith
  lookup-delete key asked ((first, value) ∷ others) = ground (
    lookup-delete key asked others,
    eq_iff first key,
    eq_iff key asked,
    eq_iff first asked,
    arith,
  )

  pub lookup-insert :
      (key asked : Bytes) (new : V) (m : Dict V)
      → lookup asked (insert key new m) ≡ (if key =b asked then some new else lookup asked m)
  unfolding lookup insert
  lookup-insert key asked new [] = refl
  lookup-insert key asked new ((first, value) ∷ others) = ground (
    lookup-insert key asked new others,
    eq_iff first key,
    eq_iff key asked,
    eq_iff first asked,
    arith,
  )

pub ruleset dict_laws = (lookup-insert, lookup-delete)

-- The first of two options that is there.
module _ {ℓ} {A : Type ℓ} where
  abbrev pub or_else : Option A → Option A → Option A
  or_else (some a) o = some a
  or_else none o = o

  pub or_else_assoc : (a b c : Option A) → or_else (or_else a b) c ≡ or_else a (or_else b c)
  or_else_assoc (some x) b c = refl
  or_else_assoc none b c = refl

  pub or_else-none : (o : Option A) → or_else o none ≡ o
  or_else-none none = refl
  or_else-none (some a) = refl
