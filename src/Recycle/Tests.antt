-- ===== src/Recycle/Tests.antt =====
-- The recycle directories, at concrete calls.
use cs551_assignments.Common.{
  Option, Outcome, Text, [], absent, arith, fault, found, if◌then◌else◌, length, ok, pos, refl,
  replicate, search, set, some, strcmp_eq, true, ℕ, ℤ, ◌+◌, ◌<◌, ◌==◌, ◌∷◌, ◌≡◌, ◌⊎◌,
}
use cs551_assignments.Recycle.Mfs.{
  Bin, Reply, append_dir, empty_bin, error, failed, fetched, find_record, fs_rcmkdir, is_rcdir,
  max_records, restored, zero_entry,
}
use cs551_assignments.Recycle.Vfs.{Lookup, do_damageinode, do_rcmkdir, do_restoreinode, name_of}
use cs551_assignments.Recycle.Records.{IsRcdir, IsValid, do_rcmkdir-Keeps}
use cs551_assignments.Recycle.Undelete.{Names, undelete_lem, undelete_stale}
use cs551_assignments.Recycle.Tool.{
  commands, damage_inode, damages, full_path, mv, restore_inode, restores,
}
use cs551_assignments.Recycle.Undo.{
  Deletes, kept, removes, restore_inode-removes_kept, restore_inode_undoes_damage_inode,
}

abbrev path : Text
path = b'/' ∷ b'r' ∷ b'/' ∷ b'f' ∷ []

-- Paths are copied whole, and every inode is free.
abbrev lookup : Lookup
lookup = record {
  resolves = true;
  copy_name = some path;
  fetch_name = failed error;
  get_inode = λ n. some (record { i_nlinks = 0; i_count = 0 });
  mfs_name_max = 60;
  safecopyfrom = λ p len. fetched p;
}

names : Names lookup path
unfolding name_of
names = record { resolves = refl; name = refl; fits = omega arith; copy = refl }

abbrev bin_of : Reply → Bin
bin_of (ok (r, b)) = b
bin_of fault = empty_bin

-- Directory 5 is registered, and then inode 9 deleted from it.
abbrev with_dir : Bin
with_dir = bin_of (fs_rcmkdir 5 empty_bin)

abbrev with_record : Bin
with_record = record with_dir {
  rcnodes =
      set (replicate max_records zero_entry) 0 (record { pinode = 5; finode = 9; fname = path });
  cursor2 = 1;
}

with_dir-IsValid : IsValid with_dir
unfolding fs_rcmkdir is_rcdir append_dir empty_bin search
with_dir-IsValid = record {
  dirs = refl;
  dirs_bounded = omega arith;
  dirs_distinct = (refl, tt);
  nodes = refl;
  nodes_bounded = omega arith;
}

with_record-IsValid : IsValid with_record
with_record-IsValid = record {
  dirs = with_dir-IsValid.dirs;
  dirs_bounded = with_dir-IsValid.dirs_bounded;
  dirs_distinct = with_dir-IsValid.dirs_distinct;
  nodes = refl;
  nodes_bounded = omega arith;
}

dir_5 : is_rcdir 5 with_dir ≡ found 0
unfolding fs_rcmkdir is_rcdir append_dir empty_bin search
dir_5 = refl

no_record : find_record 5 path with_dir ≡ absent
unfolding fs_rcmkdir is_rcdir append_dir empty_bin search find_record
no_record = refl

empty_dirs : with_dir.cursor2 < max_records
unfolding fs_rcmkdir is_rcdir append_dir empty_bin search
empty_dirs = omega arith

undelete_lem_example :
    (b' : Bin) × (do_damageinode lookup 5 9 with_dir ≡ ok (pos 0, b'))
    × (do_restoreinode lookup 5 b' ≡ ok (restored 9 (lookup.get_inode 9)))
undelete_lem_example =
    undelete_lem lookup path 5 9 0 with_dir with_dir-IsValid names dir_5 empty_dirs (omega arith)
      no_record

dir_5_again : is_rcdir 5 with_record ≡ found 0
unfolding fs_rcmkdir is_rcdir append_dir empty_bin search
dir_5_again = refl

old_record : find_record 5 path with_record ≡ found 0
unfolding fs_rcmkdir is_rcdir append_dir empty_bin search find_record strcmp_eq
old_record = refl

-- The file is made anew as inode 11 and deleted: restoring it answers 9.
undelete_stale_example :
    (b' : Bin) × (do_damageinode lookup 5 11 with_record ≡ ok (pos 0, b'))
    × (do_restoreinode lookup 5 b' ≡ ok (restored 9 (lookup.get_inode 9)))
undelete_stale_example =
    undelete_stale lookup path 5 11 0 0 with_record
      (record { pinode = 5; finode = 9; fname = path }) with_record-IsValid names dir_5_again
      (omega arith) (omega arith) old_record refl

do_rcmkdir-Keeps_example :
    Outcome
      (λ (r, b'). IsValid b' × (((r ≡ pos 0) × IsRcdir 6 b') ⊎ ((r ≡ error) × (b' ≡ with_dir))))
      (with_dir.cursor1 ≡ max_records)
      (do_rcmkdir lookup 6 with_dir)
do_rcmkdir-Keeps_example = do_rcmkdir-Keeps lookup 6 with_dir with_dir-IsValid

-- The tool, on the file f of the directory /r/: inode 9 in directory 5.
abbrev dir_name : Text
dir_name = b'/' ∷ b'r' ∷ b'/' ∷ []

abbrev file_name : Text
file_name = b'f' ∷ []

abbrev stat : Text → Option ℕ
stat t = if length t == 3 then some 5 else some 9

abbrev digit : ℕ → Text
digit n = (48 + n) ∷ []

Deletes-f : Deletes stat digit dir_name file_name path 5 9
unfolding full_path
Deletes-f = record {
  path_fits = omega arith;
  file_fits = omega arith;
  joined = refl;
  pinode_fits = omega arith;
  finode_fits = omega arith;
  command_fits = omega arith;
  directory = refl;
  inode = refl;
}

restore_inode_undoes_damage_inode_example :
    (damage_inode stat digit dir_name file_name
      ≡ ok (some (damages path 5 9 ∷ commands (mv path (kept stat digit file_name 5 9)) ∷ [])))
    × (b' : Bin) × (do_damageinode lookup 5 9 with_dir ≡ ok (pos 0, b'))
    × (r : ℤ) × (do_restoreinode lookup 5 b' ≡ ok r)
    × ((call : Text → ℕ → ℤ)
        → call path 5 ≡ r
        → restore_inode stat digit call dir_name file_name
          ≡ ok (some (restores path 5 ∷ commands (mv (kept stat digit file_name 5 9) path) ∷ [])))
restore_inode_undoes_damage_inode_example =
    restore_inode_undoes_damage_inode stat digit lookup dir_name file_name path 5 9 0 with_dir
      (record { i_nlinks = 0; i_count = 0 }) Deletes-f with_dir-IsValid names dir_5 empty_dirs
      no_record (omega arith) refl refl

-- Here every inode is in use.
abbrev lookup_used : Lookup
lookup_used = record lookup { get_inode = λ n. some (record { i_nlinks = 1; i_count = 1 }) }

Names-used : Names lookup_used path
unfolding name_of
Names-used = record { resolves = refl; name = refl; fits = omega arith; copy = refl }

restore_inode-removes_kept_example :
    (b' : Bin) × (do_damageinode lookup_used 5 9 with_dir ≡ ok (pos 0, b'))
    × (do_restoreinode lookup_used 5 b' ≡ ok (pos 0))
    × ((call : Text → ℕ → ℤ)
        → call path 5 ≡ pos 0
        → restore_inode stat digit call dir_name file_name
          ≡ ok (some (restores path 5 ∷ commands (removes stat digit file_name 5) ∷ [])))
restore_inode-removes_kept_example =
    restore_inode-removes_kept stat digit lookup_used dir_name file_name path 5 9 0 with_dir
      (record { i_nlinks = 1; i_count = 1 }) Deletes-f with_dir-IsValid Names-used dir_5 empty_dirs
      no_record refl (omega arith) (omega arith)
