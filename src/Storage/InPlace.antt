-- ===== src/Storage/InPlace.antt =====
-- The loop of DeleteVolumeExport in agent/storage/export.go that filters a slice in its own array.
use btrfs_nfs_csi.Base.{
  ℕ, zero, suc, ◌≡◌, refl, ap, ◌∙◌, Bool, List, [], ◌∷◌, ◌++◌, filter, drop, length, none, some,
  Bool-cases, inl, inr, if◌then◌else◌,
}
use btrfs_nfs_csi.Storage.Exports.{element_at, put_at, filter_in_place}

element_at-drop :
    {A : Type 0} (i : ℕ) (xs : List A) (c : A) (rest : List A)
    → drop i xs ≡ c ∷ rest
    → (element_at i xs ≡ some c) × (drop (suc i) xs ≡ rest)
element_at-drop zero [] c rest h = absurd (cc)
element_at-drop (suc i) [] c rest h = absurd (cc)
element_at-drop zero (x ∷ xs) c rest h = (cc, cc)
element_at-drop (suc i) (x ∷ xs) c rest h = element_at-drop i xs c rest h

-- A first element that is neither read nor written stays.
filter_in_place-cons :
    {A : Type 0} (keep : A → Bool) (rounds i w : ℕ) (x : A) (xs : List A)
    → filter_in_place keep rounds (suc i) (suc w) (x ∷ xs) ≡ x ∷ filter_in_place keep rounds i w xs
unfolding filter_in_place
filter_in_place-cons keep zero i w x xs = refl
filter_in_place-cons keep (suc rounds) i w x xs =
    elim (element_at i xs)
      as (λ e.
        elim e [
          | none ↦ x ∷ xs
          | some c ↦
              filter_in_place keep rounds (suc (suc i)) (if keep c then suc (suc w) else suc w)
                (if keep c then x ∷ put_at w c xs else x ∷ xs)
        ]
        ≡ x ∷ elim e [
          | none ↦ xs
          | some c ↦
              filter_in_place keep rounds (suc i) (if keep c then suc w else w)
                (if keep c then put_at w c xs else xs)
        ]) [
          | none ↦ refl
          | some c ↦ elim (Bool-cases (keep c)) [
            | inl t ↦ rw t (filter_in_place-cons keep rounds (suc i) (suc w) x (put_at w c xs))
            | inr f ↦ rw f (filter_in_place-cons keep rounds (suc i) w x xs)
          ]
        ]

filter_in_place-drop :
    {A : Type 0} (keep : A → Bool) (rest : List A) (i : ℕ) (xs : List A)
    → drop i xs ≡ rest
    → filter_in_place keep (length rest) i 0 xs
      ≡ filter keep rest ++ drop (length (filter keep rest)) xs
unfolding filter_in_place
filter_in_place-drop keep [] i xs h = refl
filter_in_place-drop keep (c ∷ rest) i [] h =
    elim i as (λ n. drop n [] ≡ c ∷ rest → _) [
      | zero ↦ λ e. absurd (cc (e))
      | suc n ↦ λ e. absurd (cc (e))
    ]
      h
filter_in_place-drop keep (c ∷ rest) i (x ∷ xs) h =
    let (found, further) = element_at-drop i (x ∷ xs) c rest h in
    elim (Bool-cases (keep c)) [
      | inl t ↦
          rw (filter_in_place, found, t)
            (filter_in_place-cons keep (length rest) i 0 c xs
              ∙ ap (λ l. c ∷ l) (filter_in_place-drop keep rest i xs further))
      | inr f ↦
          rw (filter_in_place, found, f) (filter_in_place-drop keep rest (suc i) (x ∷ xs) further)
    ]

-- The array then has the kept elements in front, and behind them what stood there before.
pub filter_in_place-filter :
    {A : Type 0} (keep : A → Bool) (xs : List A)
    → filter_in_place keep (length xs) 0 0 xs ≡ filter keep xs ++ drop (length (filter keep xs)) xs
filter_in_place-filter keep xs = filter_in_place-drop keep xs 0 xs refl
