-- ===== src/Nfs/Targets.antt =====
-- The targets `client:path` that agent/storage/nfs/kernel.go hands to the tool.
use mathlib.Core.List.{append_assoc}
use btrfs_nfs_csi.Base.{
  ℕ, ◌≡◌, refl, ap, sym, ◌∙◌, ◌≢◌, [], ◌∷◌, ◌++◌, Option, none, some, Bytes, cut, cut-append, arith,
}
use btrfs_nfs_csi.Nfs.Kernel.{exportfs_client, target, unwrap_brackets}
use btrfs_nfs_csi.Nfs.Listing.{
  IsPath, IsClient, unwrap_brackets-exportfs_client, All-append, exportfs_client-All,
}

snoc-cancel : (a b : Bytes) (x : ℕ) → a ++ x ∷ [] ≡ b ++ x ∷ [] → a ≡ b
snoc-cancel [] [] x h = refl
snoc-cancel [] (d ∷ []) x h = absurd (cc)
snoc-cancel [] (d ∷ e ∷ b) x h = absurd (cc)
snoc-cancel (c ∷ []) [] x h = absurd (cc)
snoc-cancel (c ∷ e ∷ a) [] x h = absurd (cc)
snoc-cancel (c ∷ a) (d ∷ b) x h =
    let first : c ≡ d = cc in
    let rest : a ++ x ∷ [] ≡ b ++ x ∷ [] = cc in rw (first, snoc-cancel a b x rest) refl

-- Cutting a target at its first slash.
cut-target :
    (q client : Bytes)
    → IsClient client
    → cut b'/' (target (b'/' ∷ q) client) ≡ some (exportfs_client client ++ b':' ∷ [], q)
unfolding target
cut-target q client c =
    let bare =
      exportfs_client-All (λ d. d ≢ b'/') client c.no_slash (λ p. absurd (ground (arith, p)))
        (λ p. absurd (ground (arith, p))) in
    ap (cut b'/') (sym (append_assoc (exportfs_client client) (b':' ∷ []) (b'/' ∷ q)))
    ∙ cut-append b'/' (exportfs_client client ++ b':' ∷ []) q (
        All-append (λ d. d ≢ b'/') (exportfs_client client) (b':' ∷ []) bare
          ((λ p. absurd (ground (arith, p))), tt))

abbrev both : Option (Bytes × Bytes) → Bytes × Bytes
both none = ([], [])
both (some p) = p

-- A target names its path and its client.
pub target-injective :
    (path client p d : Bytes)
    → IsPath path
    → IsClient client
    → IsPath p
    → IsClient d
    → target path client ≡ target p d
    → (path ≡ p) × (client ≡ d)
target-injective path client p d ((q, e), w) c ((r, f), v) k h =
    let left = cut-target q client c in
    let right = cut-target r d k in
    let texts_same = ap (λ a. target a client) (sym e) ∙ h ∙ ap (λ a. target a d) f in
    let same = sym left ∙ ap (cut b'/') texts_same ∙ right in
    let parts = ap both same in
    let texts =
      snoc-cancel (exportfs_client client) (exportfs_client d) b':' (ap (λ a. a.0) parts) in
    (
      e ∙ ap (λ a. b'/' ∷ a.1) parts ∙ sym f,
      sym (unwrap_brackets-exportfs_client client c.no_bracket)
          ∙ ap unwrap_brackets texts
          ∙ unwrap_brackets-exportfs_client d k.no_bracket,
    )
