-- ===== src/Recycle/Vfs.antt =====
-- Project3/p3_code/vfs/new.c, and the requests that it sends, of Project3/p3_code/vfs/request.c. A
-- request reaches the routine of mfs/new.c. The path lookup and the fetching of the name are the
-- file server's, and arguments: whether `/dev/c0d0p0s2` resolves, and what name is fetched.
use cs551_assignments.Common.{
  Bool, Option, Run, Text, if◌then◌else◌, length, none, ok, pos, some, ℕ, ℤ, ◌+◌, ◌>>=◌,
}
use cs551_assignments.Recycle.Mfs.{
  Bin, Fetched, Grant, Inode, Reply, error, failed, fetched, fs_damageinode, fs_rcmkdir,
  fs_restoreinode,
}

-- What the file server and the kernel give to one call.
pub record Lookup : Type 0 where
  -- `eat_path` finds the mounted device.
  pub resolves : Bool
  -- The name that `copy_name` copies, if it returns OK.
  pub copy_name : Option Text
  -- The name that `fetch_name` fetches, or `err_code`.
  pub fetch_name : Fetched
  -- `get_inode` of the mounted file system.
  pub get_inode : ℕ → Option Inode
  pub mfs_name_max : ℕ
  -- What a buffer holds when so many bytes of a path that was granted are copied there.
  pub safecopyfrom : Text → ℕ → Fetched

-- `if(copy_name(...) != OK) { if(fetch_name(...) != OK) return(err_code); }`
unfoldable pub name_of : Lookup → Fetched
name_of l = elim l.copy_name [ none ↦ l.fetch_name | some path ↦ fetched path ]

-- What the requests grant: the path and its NUL.
abbrev pub granted : Lookup → Text → Grant
granted l path = record {
  m9_l2 = length path + 1;
  mfs_name_max = l.mfs_name_max;
  safecopyfrom = l.safecopyfrom path;
}

-- The requests, each sent to its routine of the file system.
abbrev pub req_rcmkdir : ℕ → Bin → Reply
req_rcmkdir inode b = fs_rcmkdir inode b

abbrev pub req_damageinode : Lookup → ℕ → ℕ → Text → Bin → Reply
req_damageinode l pinode finode fullpath b = fs_damageinode pinode finode (granted l fullpath) b

abbrev pub req_restoreinode : Lookup → ℕ → Text → Bin → Run ℤ
req_restoreinode l pinode filename b = fs_restoreinode l.get_inode pinode (granted l filename) b

-- The reply of the file system is dropped, and 0 returned.
unfoldable pub do_rcmkdir : Lookup → ℕ → Bin → Reply
do_rcmkdir l inode b =
    if l.resolves then (do (r, b') ← req_rcmkdir inode b; ok (pos 0, b')) else ok (error, b)

-- Here too, once the name is there.
unfoldable pub damage_named : Lookup → ℕ → ℕ → Bin → Fetched → Reply
damage_named l pinode finode b (failed err_code) = ok (err_code, b)
damage_named l pinode finode b (fetched fullpath) =
    if l.resolves
    then (do (r, b') ← req_damageinode l pinode finode fullpath b; ok (pos 0, b'))
    else ok (error, b)

unfoldable pub do_damageinode : Lookup → ℕ → ℕ → Bin → Reply
do_damageinode l pinode finode b = damage_named l pinode finode b (name_of l)

unfoldable pub restore_named : Lookup → ℕ → Bin → Fetched → Run ℤ
restore_named l pinode b (failed err_code) = ok err_code
restore_named l pinode b (fetched name) =
    if l.resolves then req_restoreinode l pinode name b else ok error

unfoldable pub do_restoreinode : Lookup → ℕ → Bin → Run ℤ
do_restoreinode l pinode b = restore_named l pinode b (name_of l)
