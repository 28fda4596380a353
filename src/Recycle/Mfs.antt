-- ===== src/Recycle/Mfs.antt =====
-- Project3/p3_code/mfs/new.c. Inode numbers are natural numbers, and a call returns an `int`. What
-- `sys_safecopyfrom` leaves in a buffer and what `get_inode` finds are arguments.
use cs551_assignments.Common.{
  Bool, List, Option, Run, Search, Text, [], absent, fault, found, get_elem?, if◌then◌else◌,
  in_range, length, ltb, min, negsuc, none, ok, outside, pos, replicate, search, set, some,
  strcmp_eq, ℕ, ℤ, ◌&&◌, ◌+◌, ◌==◌, ◌>>=◌, ◌||◌,
}

abbrev pub max_records : ℕ
max_records = 100

-- `struct rcentry`.
pub record RcEntry : Type 0 where
  pub pinode : ℕ
  pub finode : ℕ
  pub fname : Text

-- The static variables: two arrays and their cursors.
pub record Bin : Type 0 where
  pub rcdirs : List ℕ
  pub cursor1 : ℕ
  pub rcnodes : List RcEntry
  pub cursor2 : ℕ

abbrev pub zero_entry : RcEntry
zero_entry = record { pinode = 0; finode = 0; fname = [] }

-- Static storage starts as zeroes.
unfoldable pub empty_bin : Bin
empty_bin = record {
  rcdirs = replicate max_records 0;
  cursor1 = 0;
  rcnodes = replicate max_records zero_entry;
  cursor2 = 0;
}

-- The fields of an inode that the file reads to decide.
pub record Inode : Type 0 where
  pub i_nlinks : ℕ
  pub i_count : ℕ

-- The path that a grant gives access to, or the status of the copy that failed.
pub data Fetched : Type 0 where
  fetched : Text → Fetched
  failed : ℤ → Fetched

-- The grant and the length of a request, `m9_l1` and `m9_l2`: what string the buffer of MFS_NAME_MAX
-- bytes holds when some of the bytes granted have been copied.
pub record Grant : Type 0 where
  pub m9_l2 : ℕ
  pub mfs_name_max : ℕ
  pub safecopyfrom : ℕ → Fetched

-- `len = min(m9_l2, sizeof(string)); r = sys_safecopyfrom(..., string, len)`.
abbrev pub copied_path : Grant → Fetched
copied_path g = g.safecopyfrom (min g.m9_l2 g.mfs_name_max)

abbrev pub error : ℤ
error = negsuc 0

abbrev pub Reply : Type 0
Reply = Run (ℤ × Bin)

unfoldable pub is_rcdir : ℕ → Bin → Search
is_rcdir inode b = search (λ x. x == inode) b.cursor1 b.rcdirs

-- `rcdirs[cursor1] = inode_nr; cursor1++`.
unfoldable pub append_dir : ℕ → Bin → Search → Reply
append_dir inode b (found i) = ok (pos 0, b)
append_dir inode b absent =
    if ltb b.cursor1 (length b.rcdirs)
    then ok (pos 0, record b { rcdirs = set b.rcdirs b.cursor1 inode; cursor1 = b.cursor1 + 1 })
    else fault
append_dir inode b outside = fault

unfoldable pub fs_rcmkdir : ℕ → Bin → Reply
fs_rcmkdir inode b = append_dir inode b (is_rcdir inode b)

-- `rcnodes[cursor2] = ...; cursor2++`, with `strcpy` into the 100 bytes of `fname`.
abbrev pub append_node : RcEntry → Bin → Reply
append_node e b =
    if ltb b.cursor2 (length b.rcnodes) && ltb (length e.fname) 100
    then ok (pos 0, record b { rcnodes = set b.rcnodes b.cursor2 e; cursor2 = b.cursor2 + 1 })
    else fault

abbrev pub damage_fetched : ℕ → ℕ → Bin → Fetched → Reply
damage_fetched pinode finode b (failed r) = ok (r, b)
damage_fetched pinode finode b (fetched path) =
    append_node (record { pinode = pinode; finode = finode; fname = path }) b

unfoldable pub damage_dir : ℕ → ℕ → Fetched → Bin → Search → Reply
damage_dir pinode finode f b (found i) = damage_fetched pinode finode b f
damage_dir pinode finode f b absent = ok (pos 0, b)
damage_dir pinode finode f b outside = fault

unfoldable pub fs_damageinode : ℕ → ℕ → Grant → Bin → Reply
fs_damageinode pinode finode g b =
    if b.cursor1 == 0
    then ok (pos 0, b)
    else damage_dir pinode finode (copied_path g) b (is_rcdir pinode b)

abbrev pub is_record : ℕ → Text → RcEntry → Bool
is_record pinode path e = (e.pinode == pinode) && strcmp_eq e.fname path

unfoldable pub find_record : ℕ → Text → Bin → Search
find_record pinode path b = search (is_record pinode path) b.cursor2 b.rcnodes

-- What `get_inode` found decides the answer.
abbrev pub restored : ℕ → Option Inode → ℤ
restored finode none = error
restored finode (some rip) =
    if (rip.i_nlinks == 0) || (rip.i_count == 0)
    then pos finode
    else if ltb 0 rip.i_nlinks
    then pos 0
    else error

unfoldable pub restore_record : (ℕ → Option Inode) → Bin → Search → Run ℤ
restore_record get_inode b (found i) = do
  e ← in_range (get_elem? b.rcnodes i)
  ok (restored e.finode (get_inode e.finode))
restore_record get_inode b absent = ok error
restore_record get_inode b outside = fault

abbrev pub restore_fetched : (ℕ → Option Inode) → ℕ → Bin → Fetched → Run ℤ
restore_fetched get_inode pinode b (failed r) = ok r
restore_fetched get_inode pinode b (fetched path) =
    if b.cursor2 == 0 then ok error else restore_record get_inode b (find_record pinode path b)

unfoldable pub restore_dir : (ℕ → Option Inode) → ℕ → Fetched → Bin → Search → Run ℤ
restore_dir get_inode pinode f b (found i) = restore_fetched get_inode pinode b f
restore_dir get_inode pinode f b absent = ok error
restore_dir get_inode pinode f b outside = fault

-- It reads the records, and changes none.
unfoldable pub fs_restoreinode : (ℕ → Option Inode) → ℕ → Grant → Bin → Run ℤ
fs_restoreinode get_inode pinode g b =
    if b.cursor1 == 0
    then ok error
    else restore_dir get_inode pinode (copied_path g) b (is_rcdir pinode b)
