-- ===== src/Base/Strings.antt =====
-- Go strings as lists of bytes, with the functions of package strings that the code calls.
use Prim.Native.Nat.{ℕ}
use Prim.Native.Char.{code}
use Prim.Native.String.{String}
use mathlib.Core.Path.{◌≡◌, refl}
use mathlib.Core.Logic.{◌↔◌, ◌≢◌}
use mathlib.Core.Bool.{Bool, true, false, ◌&&◌, ◌||◌}
use mathlib.Core.List.{List, [], ◌∷◌, ◌++◌, reverse}
use mathlib.Core.Option.{Option, none, some}
use native.Mathlib.Omega.{arith}
use btrfs_nfs_csi.Base.Tests.{◌==◌, if◌then◌else◌}
use btrfs_nfs_csi.Base.Lists.{All}

abbrev pub Bytes : Type 0
Bytes = List ℕ

-- The bytes of an ASCII literal.
abbrev pub codes : String → Bytes
codes String.[] = []
codes (String.◌∷◌ c s) = code c ∷ codes s

infix 50 ◌=b◌
unfoldable pub ◌=b◌ : Bytes → Bytes → Bool
[] =b [] = true
[] =b (y ∷ ys) = false
(x ∷ xs) =b [] = false
(x ∷ xs) =b (y ∷ ys) = (x == y) && (xs =b ys)

pub eq_iff : (a b : Bytes) → ((a =b b) ≡ true) ↔ (a ≡ b)
unfolding ◌=b◌
eq_iff [] [] = ground arith
eq_iff [] (y ∷ ys) = ground arith
eq_iff (x ∷ xs) [] = ground arith
eq_iff (x ∷ xs) (y ∷ ys) = ground (arith, eq_iff xs ys)

pub eq_refl : (a : Bytes) → (a =b a) ≡ true
eq_refl a = (eq_iff a a).1 refl

pub eq_ne : (a b : Bytes) → a ≢ b → (a =b b) ≡ false
eq_ne a b h = ground (arith, eq_iff a b)

-- strings.Cut at one byte: the text before the first separator, and the text behind it.
unfoldable pub cut : ℕ → Bytes → Option (Bytes × Bytes)
cut sep [] = none
cut sep (c ∷ s) = elim (c == sep) [
  | true ↦ some ([], s)
  | false ↦ elim (cut sep s) [ none ↦ none | some (a, b) ↦ some (c ∷ a, b) ]
]

abbrev pub Lacks : ℕ → Bytes → Type 0
Lacks sep = All (λ c. c ≢ sep)

-- A text without the separator, the separator and any rest are taken apart at that separator.
pub cut-append : (sep : ℕ) (a b : Bytes) → Lacks sep a → cut sep (a ++ sep ∷ b) ≡ some (a, b)
unfolding cut
cut-append sep [] b h = ground arith
cut-append sep (c ∷ a) b h = ground (arith, cut-append sep a b h.1)

pub cut_sound :
    (sep : ℕ) (s a b : Bytes) → cut sep s ≡ some (a, b) → (s ≡ a ++ sep ∷ b) × Lacks sep a
unfolding cut
cut_sound sep [] a b h = absurd (cc)
cut_sound sep (c ∷ s) [] b h = ground arith
cut_sound sep (c ∷ s) (d ∷ a) b h = ground (arith, cut_sound sep s a b)

-- Nothing is found exactly where the separator does not occur.
pub cut-none : (sep : ℕ) (s : Bytes) → Lacks sep s → cut sep s ≡ none
unfolding cut
cut-none sep [] h = refl
cut-none sep (c ∷ s) h = ground (arith, cut-none sep s h.1)

-- strings.TrimSpace, and the split of a text at a byte, over ASCII.
abbrev pub is_space : ℕ → Bool
is_space c = c == 32 || c == 9 || c == 10 || c == 11 || c == 12 || c == 13

abbrev pub trim_left : Bytes → Bytes
trim_left [] = []
trim_left (c ∷ s) = let rest = trim_left s in if is_space c then rest else c ∷ s

abbrev pub trim_space : Bytes → Bytes
trim_space s = reverse (trim_left (reverse (trim_left s)))

-- strings.Split at one byte.
abbrev pub split_onto : ℕ → Bytes → Bytes → List Bytes
split_onto sep word [] = reverse word ∷ []
split_onto sep word (c ∷ s) = elim (c == sep) [
  | true ↦ reverse word ∷ split_onto sep [] s
  | false ↦ split_onto sep (c ∷ word) s
]

abbrev pub split : ℕ → Bytes → List Bytes
split sep s = split_onto sep [] s
