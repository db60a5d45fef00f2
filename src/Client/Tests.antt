-- ===== src/Client/Tests.antt =====
-- A client that gathers five numbers in pages of two.
use btrfs_nfs_csi.Base.{◌≡◌, [], some, map, length, arith}
use btrfs_nfs_csi.Pages.Tests.{plain, no_labels, empty, ids, lists, colon_free}
use btrfs_nfs_csi.Client.{gathered, paginate}
use btrfs_nfs_csi.Client.Gathers.{ask, paginate-gathers}

paginate-gathers_example :
    paginate (ask plain (λ n. n) no_labels 1 ids lists) 6 [] [] (5, empty)
    ≡ some (gathered (map (λ n. n) (lists 5)) (length (lists 5)))
paginate-gathers_example =
    paginate-gathers plain (λ n. n) no_labels 1 ids lists 5 5 empty colon_free (omega arith)
      (omega arith)
