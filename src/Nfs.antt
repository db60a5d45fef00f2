-- ===== src/Nfs.antt =====
-- agent/storage/nfs/exporter.go: the interface of an NFS exporter, and what its clients rely on.
pub mod Kernel
pub mod Listing
pub mod Targets
pub mod Tool
pub mod Refine
mod Tests
use btrfs_nfs_csi.Base.{
  ◌≡◌, Bool, true, not, ◌&&◌, ◌||◌, List, any, All, Option, some, Bytes, ◌=b◌, [],
}

pub record ExportInfo : Type 0 where
  pub path : Bytes
  pub client : Bytes

-- A flag tells that no error came back. The client is empty where all clients are meant.
pub record Exporter : Type 1 where
  pub State : Type 0
  pub add : Bytes → Bytes → State → Bool × State
  pub unexport : Bytes → Bytes → State → Bool × State
  pub list_exports : State → Option (List ExportInfo) × State

abbrev pub is_entry : Bytes → Bytes → ExportInfo → Bool
is_entry p c e = e.path =b p && e.client =b c

-- The entry is in the list.
abbrev pub lists : Bytes → Bytes → List ExportInfo → Bool
lists p c entries = any (is_entry p c) entries

-- The abstract view of an exporter: the set of the pairs of a path and a client that it exports.
-- `IsPath` and `IsClient` say which texts the view speaks of.
pub record IsExporter (E : Exporter) (IsPath IsClient : Bytes → Type 0) : Type 0 where
  pub exported : E.State → Bytes → Bytes → Bool
  pub exported-list_exports :
      (s : E.State) (entries : List ExportInfo) (p c : Bytes)
      → (E.list_exports s).0 ≡ some entries
      → (lists p c entries ≡ exported s p c) × (exported (E.list_exports s).1 p c ≡ exported s p c)
  pub list_exports-IsPath :
      (s : E.State) (entries : List ExportInfo)
      → (E.list_exports s).0 ≡ some entries
      → All (λ e. IsPath e.path) entries
  pub exported-add :
      (s : E.State) (path client p c : Bytes)
      → IsPath path
      → IsClient client
      → (E.add path client s).0 ≡ true
      → exported (E.add path client s).1 p c ≡ (path =b p && client =b c) || exported s p c
  pub exported-unexport :
      (s : E.State) (path client p c : Bytes)
      → IsPath path
      → IsClient client
      → (E.unexport path client s).0 ≡ true
      → exported (E.unexport path client s).1 p c ≡ not (path =b p && client =b c) && exported s p c
  pub exported-unexport_all :
      (s : E.State) (path p c : Bytes)
      → IsPath path
      → (E.unexport path [] s).0 ≡ true
      → exported (E.unexport path [] s).1 p c ≡ not (path =b p) && exported s p c
