-- ===== src/Recycle/Table.antt =====
-- The request numbers of Project3/p3_code/include/minix/vfsif.h and the table of
-- Project3/p3_code/mfs/table.c.
use cs551_assignments.Common.{List, [], arith, get_elem?, length, refl, some, ℕ, ◌<◌, ◌∷◌, ◌≡◌}

-- The routines that the table names.
pub data FsRoutine : Type 0 where
  no_sys fs_putnode fs_slink fs_ftrunc fs_chown fs_chmod fs_inhibread fs_stat : FsRoutine
  fs_utime fs_fstatfs fs_breadwrite fs_unlink fs_unmount fs_sync fs_new_driver : FsRoutine
  fs_flush fs_readwrite fs_mknod fs_mkdir fs_create fs_link fs_rename fs_lookup : FsRoutine
  fs_mountpoint fs_readsuper fs_rdlink fs_getdents fs_statvfs fs_inodeviewer : FsRoutine
  fs_rcmkdir fs_damageinode fs_restoreinode : FsRoutine

-- `fs_call_vec`: the routine of each request, its number taken from VFS_BASE.
abbrev pub fs_call_vec : List FsRoutine
fs_call_vec =
    no_sys ∷ no_sys ∷ fs_putnode ∷ fs_slink ∷ fs_ftrunc ∷ fs_chown ∷ fs_chmod ∷ fs_inhibread
    ∷ fs_stat ∷ fs_utime ∷ fs_fstatfs ∷ fs_breadwrite ∷ fs_breadwrite ∷ fs_unlink ∷ fs_unlink
    ∷ fs_unmount ∷ fs_sync ∷ fs_new_driver ∷ fs_flush ∷ fs_readwrite ∷ fs_readwrite ∷ fs_mknod
    ∷ fs_mkdir ∷ fs_create ∷ fs_link ∷ fs_rename ∷ fs_lookup ∷ fs_mountpoint ∷ fs_readsuper ∷ no_sys
    ∷ fs_rdlink ∷ fs_getdents ∷ fs_statvfs ∷ fs_inodeviewer ∷ fs_rcmkdir ∷ fs_damageinode
    ∷ fs_restoreinode ∷ []

-- The requests that the recycle directories add.
pub data Request : Type 0 where
  req_inodeviewer req_rcmkdir req_damageinode req_restoreinode : Request

abbrev pub nreqs : ℕ
nreqs = 37

-- The number of a request, less VFS_BASE.
unfoldable pub req_nr : Request → ℕ
req_nr req_inodeviewer = 33
req_nr req_rcmkdir = 34
req_nr req_damageinode = 35
req_nr req_restoreinode = 36

unfoldable pub fs_routine : Request → FsRoutine
fs_routine req_inodeviewer = fs_inodeviewer
fs_routine req_rcmkdir = fs_rcmkdir
fs_routine req_damageinode = fs_damageinode
fs_routine req_restoreinode = fs_restoreinode

-- Each added request is below NREQS, the size of the table, which sends it to its routine.
pub fs_call_vec-fs_routine :
    (r : Request)
    → (req_nr r < nreqs)
      × (length fs_call_vec ≡ nreqs)
      × (get_elem? fs_call_vec (req_nr r) ≡ some (fs_routine r))
unfolding req_nr fs_routine
fs_call_vec-fs_routine req_inodeviewer = (omega arith, refl, refl)
fs_call_vec-fs_routine _ = (omega arith, refl, refl)
