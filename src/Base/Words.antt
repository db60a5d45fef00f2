-- ===== src/Base/Words.antt =====
-- The functions of package strings that take a text apart into words and lines. White space is that of
-- ASCII; that of Unicode, which strings.Fields and strings.TrimSpace split at too, is not seen.
use Prim.Native.Nat.{ℕ}
use mathlib.Core.Path.{◌≡◌, refl, sym, ap, ◌∙◌}
use mathlib.Core.Logic.{◌≢◌}
use mathlib.Core.Bool.{Bool, true, false, ◌&&◌, ◌||◌}
use mathlib.Core.List.{List, [], ◌∷◌, ◌++◌, reverse, append_assoc, reverse-append}
use native.Mathlib.Omega.{arith}
use btrfs_nfs_csi.Base.Tests.{◌==◌, ltb, if◌then◌else◌}
use btrfs_nfs_csi.Base.Lists.{All, append-nil}
use btrfs_nfs_csi.Base.Strings.{Bytes, is_space, split, split_onto, Lacks}

-- strings.HasPrefix(s, p)
unfoldable pub has_prefix : Bytes → Bytes → Bool
has_prefix s [] = true
has_prefix [] (d ∷ p) = false
has_prefix (c ∷ s) (d ∷ p) = c == d && has_prefix s p

-- strings.Contains(s, p)
unfoldable pub contains : Bytes → Bytes → Bool
contains [] p = has_prefix [] p
contains (c ∷ s) p = has_prefix (c ∷ s) p || contains s p

push : ℕ → List Bytes → List Bytes
push c [] = (c ∷ []) ∷ []
push c (w ∷ ws) = (c ∷ w) ∷ ws

-- A character of a word in front of the text `s` with the words `ws`.
prepend : ℕ → Bytes → List Bytes → List Bytes
unfolding push
prepend c [] ws = (c ∷ []) ∷ ws
prepend c (d ∷ s) ws = if is_space d then (c ∷ []) ∷ ws else push c ws

-- strings.Fields
unfoldable pub fields : Bytes → List Bytes
unfolding prepend
fields [] = []
fields (c ∷ s) = let rest = fields s in if is_space c then rest else prepend c s rest

-- No character is a space.
abbrev pub IsWord : Bytes → Type 0
IsWord = All (λ c. is_space c ≡ false)

-- A word with a space behind it is the first field.
pub fields-append :
    (w : Bytes) (d : ℕ) (s : Bytes)
    → IsWord w
    → w ≢ []
    → is_space d ≡ true
    → fields (w ++ d ∷ s) ≡ w ∷ fields s
unfolding fields
fields-append [] d s h filled gap = absurd (filled refl)
fields-append (c ∷ []) d s h filled gap = rw (h.0, gap) refl
fields-append (c ∷ e ∷ w) d s h filled gap =
    let ih = fields-append (e ∷ w) d s h.1 (λ p. absurd (cc)) gap in
    rw (h.0, h.1.0) (ap (push c) (rw (h.1.0) at ih))

pub fields-word : (w : Bytes) → IsWord w → w ≢ [] → fields w ≡ w ∷ []
unfolding fields
fields-word [] h filled = absurd (filled refl)
fields-word (c ∷ []) h filled = rw (h.0) refl
fields-word (c ∷ e ∷ w) h filled =
    let ih = fields-word (e ∷ w) h.1 (λ p. absurd (cc)) in
    rw (h.0, h.1.0) (ap (push c) (rw (h.1.0) at ih))

split_onto-append :
    (sep : ℕ) (word l s : Bytes)
    → Lacks sep l
    → split_onto sep word (l ++ sep ∷ s) ≡ (reverse word ++ l) ∷ split_onto sep [] s
split_onto-append sep word [] s h =
    let e : (sep == sep) ≡ true = ground arith in
    rw (e, split_onto) (ap (λ w. w ∷ split_onto sep [] s) (sym (append-nil (reverse word))))
split_onto-append sep word (c ∷ l) s h =
    let e : (c == sep) ≡ false = ground (arith, h.0) in
    rw (e, split_onto)
      (split_onto-append sep (c ∷ word) l s h.1
        ∙ ap (λ w. w ∷ split_onto sep [] s)
            (ap (λ r. r ++ l) (reverse-append (c ∷ []) word)
              ∙ append_assoc (reverse word) (c ∷ []) l))

-- A line that is ended is the first one of the text.
pub split-append :
    (sep : ℕ) (l s : Bytes) → Lacks sep l → split sep (l ++ sep ∷ s) ≡ l ∷ split sep s
split-append sep l s h = split_onto-append sep [] l s h

-- The order of Go strings, by bytes.
unfoldable pub leb_bytes : Bytes → Bytes → Bool
leb_bytes [] t = true
leb_bytes (c ∷ s) [] = false
leb_bytes (c ∷ s) (d ∷ t) = ltb c d || (c == d && leb_bytes s t)

unfoldable pub insert_sorted : Bytes → List Bytes → List Bytes
unfolding leb_bytes
insert_sorted s [] = s ∷ []
insert_sorted s (t ∷ ts) =
    let rest = insert_sorted s ts in if leb_bytes s t then s ∷ t ∷ ts else t ∷ rest

-- slices.Sort on strings.
unfoldable pub sort : List Bytes → List Bytes
unfolding insert_sorted
sort [] = []
sort (s ∷ ss) = insert_sorted s (sort ss)
