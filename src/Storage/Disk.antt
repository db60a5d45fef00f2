-- ===== src/Storage/Disk.antt =====
-- What the log says of the disk: which subvolumes exist, and which locks are held.
use btrfs_nfs_csi.Base.{◌≡◌, refl, Bool, true, false, not, ◌&&◌, ◌||◌, List, [], ◌∷◌, ◌=b◌, eq_refl}
use btrfs_nfs_csi.Storage.Host.{
  is_meta_call, FilePath, Call, subvolume_create, subvolume_delete, subvolume_snapshot, Outcome,
  done, Event,
}

infix 50 ◌=p◌
pub ◌=p◌ : FilePath → FilePath → Bool
[] =p [] = true
[] =p (y ∷ q) = false
(x ∷ p) =p [] = false
(x ∷ p) =p (y ∷ q) = (x =b y) && (p =p q)

pub path_refl : (p : FilePath) → (p =p p) ≡ true
unfolding ◌=p◌
path_refl [] = refl
path_refl (x ∷ p) = rw (eq_refl x, path_refl p)

-- The subvolume at `p` after one more event: made by a create or a snapshot that succeeded, and
-- gone after a delete that succeeded.
abbrev pub subvolume_step : FilePath → Event → Bool → Bool
subvolume_step p (subvolume_create q, done) b = (q =p p) || b
subvolume_step p (subvolume_snapshot src q readonly, done) b = (q =p p) || b
subvolume_step p (subvolume_delete q, done) b = not (q =p p) && b
subvolume_step p _ b = b

abbrev pub has_subvolume : FilePath → List Event → Bool
has_subvolume p [] = false
has_subvolume p (e ∷ trace) = subvolume_step p e (has_subvolume p trace)

-- A store's own calls make and delete no subvolume.
pub subvolume_step-meta :
    (p : FilePath) (c : Call) (o : Outcome) (b : Bool)
    → is_meta_call c ≡ true
    → subvolume_step p (c, o) b ≡ b
subvolume_step-meta p (subvolume_create q) o b own = cc
subvolume_step-meta p (subvolume_delete q) o b own = cc
subvolume_step-meta p (subvolume_snapshot src q readonly) o b own = cc
subvolume_step-meta p _ o b own = refl
