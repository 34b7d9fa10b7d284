-- ===== src/Mfs/Dir/Attributes.antt =====
-- The attributes that `mfs_getattr` of Project4/mfs.c fills in.
use bilkent_os_projects.Base.{◌≡◌, ap, ◌∙◌, if◌then◌else◌}
use bilkent_os_projects.Mfs.Device.{Fs, Result, done, error}
use bilkent_os_projects.Mfs.Inode.{Inode}
use bilkent_os_projects.Mfs.Inode.Laws.{Same}
use bilkent_os_projects.Mfs.Dir.{Stat, is_dir, stat_of, filled}

pub Same-stat_of : (i j : Inode) → Same i j → stat_of j ≡ stat_of i
Same-stat_of i j same = λ k. record {
  st_ino = same.inode_no k;
  st_mode = same.mode k;
  st_nlink = if is_dir (same.mode k) then 2 else 1;
  st_size = same.size k;
  st_blocks = same.block_count k;
  st_ctime = same.ctime k;
  st_mtime = same.mtime k;
  st_atime = same.atime k;
}

-- The attributes do not depend on the number of the index block and the reserved bytes.
pub filled-Same :
    (i j : Inode) (r : Result Inode × Fs)
    → r.0 ≡ done j
    → Same i j
    → (filled r).0 ≡ done (stat_of i)
filled-Same i j r read same =
    ap (λ x. elim x as (λ _. Result Stat) [ error e ↦ error e | done inode ↦ done (stat_of inode) ])
      read
    ∙ ap done (Same-stat_of i j same)
