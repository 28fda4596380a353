-- ===== src/Recycle/Menu/Tests.antt =====
-- Runs of the menu on a host whose input is written out, and the theorems at concrete data.
use cs551_assignments.Common.{
  List, Option, Text, [], arith, false, fault, if◌then◌else◌, length, none, pos, refl, some,
  strcmp_eq, true, ℕ, ℤ, ◌++◌, ◌+◌, ◌==◌, ◌↔◌, ◌∷◌, ◌≡◌, ◌⊎◌,
}
use cs551_assignments.Recycle.Tool.{Act, damage_inode, full_path, prints, views}
use cs551_assignments.Recycle.Menu.{
  Dirent, Host, case_of, choose, directory_walker, exited, get_fileinfo, inode_viewer, menu,
  perform_all, tool, turn, view_directory, view_entries,
}
use cs551_assignments.Recycle.Menu.Ends.{IsExit, menu_spins, turn-IsExit}
use cs551_assignments.Recycle.Viewer.{Details, do_inodeviewer, fs_inodeviewer}

-- The numbers and the lines that are still to be read, and what has been done.
record Desk : Type 0 where
  ints : List ℤ
  lines : List Text
  log : List Act

abbrev next_int : Desk → List ℤ → Option ℤ × Desk
next_int d [] = (none, d)
next_int d (n ∷ ns) = (some n, record d { ints = ns })

abbrev next_line : Desk → List Text → Option Text × Desk
next_line d [] = (none, d)
next_line d (t ∷ ts) = (some t, record d { lines = ts })

abbrev dir_name : Text
dir_name = b'/' ∷ b'r' ∷ []

abbrev file_name : Text
file_name = b'f' ∷ []

abbrev entry : Text → ℕ → Dirent
entry name inode = record { d_name = name; d_ino = inode }

-- /r has the inode 5, and holds f with the inode 9.
abbrev host : Host
host = record {
  State = Desk;
  scan_int = λ d. next_int d d.ints;
  scan_line = λ d. next_line d d.lines;
  stat = λ d t. if length t == 2 then some 5 else if length t == 4 then some 9 else none;
  mkdir = λ d t. (false, d);
  opendir = λ d t.
      if length t == 2
      then some (entry (b'.' ∷ []) 5 ∷ entry (b'.' ∷ b'.' ∷ []) 1 ∷ entry file_name 9 ∷ [])
      else none;
  restore_reply = λ d t n. pos 9;
  sprintf_u = λ n. (48 + n) ∷ [];
  perform = λ a d. record d { log = d.log ++ a ∷ [] };
}

abbrev desk : List ℤ → List Text → Desk
desk ints lines = record { ints = ints; lines = lines; log = [] }

-- A file is viewed, the directory listed, and the inode 9 viewed, which ends the tool.
session :
    tool host 9
      (desk (pos 1 ∷ pos 2 ∷ pos 6 ∷ pos 9 ∷ pos 3 ∷ []) (dir_name ∷ file_name ∷ dir_name ∷ []))
    ≡ some (
        exited 0 (record {
          ints = pos 3 ∷ [];
          lines = [];
          log = views (pos 5) (pos 9) ∷ prints file_name 9 ∷ views (pos 0) (pos 9) ∷ [];
        }))
unfolding menu turn choose case_of perform_all inode_viewer get_fileinfo full_path directory_walker
    view_directory view_entries strcmp_eq
session = refl

-- A file that is not there.
missing :
    tool host 9 (desk (pos 3 ∷ []) (file_name ∷ file_name ∷ [])) ≡ some (exited 1 (desk [] []))
unfolding menu turn choose case_of perform_all damage_inode full_path
missing = refl

turn-IsExit_example :
    IsExit host (turn host (pos 2) (desk (pos 6 ∷ pos 9 ∷ []) []))
    ↔ ((pos 6 ≡ pos 0) ⊎ (pos 6 ≡ pos 6))
turn-IsExit_example = turn-IsExit host (pos 2) (desk (pos 6 ∷ pos 9 ∷ []) [])

menu_spins_example : menu host 1000 (pos 2) (desk [] []) ≡ none
menu_spins_example =
    menu_spins host 1000 (pos 2) (desk [] []) refl refl refl refl
      (ground arith, ground arith, ground arith, ground arith, ground arith)

abbrev details : Details
details = record {
  i_mode = 33188;
  i_nlinks = 1;
  i_uid = 0;
  i_gid = 0;
  i_size = 3;
  i_atime = 0;
  i_mtime = 0;
  i_ctime = 0;
  i_zone = 7 ∷ 0 ∷ [];
  i_dev = 1;
  i_num = 9;
  i_count = 1;
  i_ndzones = 1;
  i_nindirs = 0;
}

abbrev get_inode : ℕ → Option Details
get_inode n = if n == 9 then some details else none

-- get_inode gives NULL for an inode that is not there, and the viewer reads it.
no_inode : do_inodeviewer 2 get_inode true 4 ≡ fault
unfolding do_inodeviewer fs_inodeviewer
no_inode = refl
