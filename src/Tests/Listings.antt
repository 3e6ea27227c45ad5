-- ===== src/Tests/Listings.antt =====
-- Runs of OPENDIR and READDIR.
use shinogi.Base.{true, List, [], ◌∷◌, some, ◌≡◌, refl, arith, Bytes, codes, All, equal}
use shinogi.Base.Result.{ok}
use mathlib.Core.List.{Perm}
use shinogi.Hostfsd.Daemon.{Daemon, DirHandle, dir_of, free_dir}
use shinogi.Hostfsd.Dirs.{
  dir_snapshot, collect, grow, sort_names, opendir_op, opendir_at, readdir_op,
}
use shinogi.Hostfsd.Dirs.Enumerate.{enumerate, readdir_op-enumerates}
use shinogi.Hostfsd.Dirs.Pages.{visible}
use shinogi.Hostfsd.Dirs.Snapshot.{IsSorted, listable, dir_snapshot-listing}
use shinogi.Hostfsd.Names.{component_ok}
use shinogi.Hostfsd.Path.{resolve_path}
use shinogi.Hostfsd.Daemon.{start}
use shinogi.Tests.Disk.{Ram, disk, fresh, cfg, srv}

snapshot_run : dir_snapshot disk fresh srv ≡ ok (codes "A.TXT" ∷ [])
unfolding dir_snapshot collect grow sort_names equal component_ok
snapshot_run = refl

dir_snapshot-listing_example :
    (found : List Bytes) × (disk.list_dir fresh srv ≡ ok found)
    × IsSorted (codes "A.TXT" ∷ [])
    × Perm (codes "A.TXT" ∷ []) (listable found)
    × All (λ n. component_ok n ≡ true) (codes "A.TXT" ∷ [])
dir_snapshot-listing_example = dir_snapshot-listing disk fresh srv (codes "A.TXT" ∷ []) snapshot_run

-- The root's listing is open.
abbrev listing : Daemon Ram
listing = (opendir_op disk cfg [] (start disk fresh)).1

abbrev a_listing : DirHandle
a_listing = record { used = true; names = codes "A.TXT" ∷ []; path = srv }

listing_run : dir_of listing.dirs 1 ≡ some a_listing
unfolding opendir_op resolve_path free_dir opendir_at dir_snapshot collect grow sort_names equal
    component_ok dir_of
listing_run = refl

readdir_op-enumerates_example :
    enumerate 2 true (λ c. (readdir_op disk true 1 c listing).0) 0
    ≡ some (visible disk listing.os srv (codes "A.TXT" ∷ []))
readdir_op-enumerates_example =
    readdir_op-enumerates disk listing 1 a_listing listing_run true 2 (omega arith, tt)
      (omega arith)
