-- ===== src/Recycle/Menu.antt =====
-- The viewers and the menu of Project3/p3_code/testp3.c. What the tool does not implement is the
-- record Host: standard input with scanf, the file system, the replies of the system calls, and what
-- an action does to them.
pub mod Ends
mod Tests
use cs551_assignments.Common.{
  Bool, List, Option, Run, Text, [], fault, if◌then◌else◌, negsuc, none, ok, pos, some, strcmp_eq,
  suc, zero, ℕ, ℤ, ◌==◌, ◌>>=◌, ◌>>◌, ◌||◌, ◌∷◌,
}
use cs551_assignments.Recycle.Tool.{
  Act, Acts, damage_inode, fits, full_path, prints, rcmkdir, restore_inode, views,
}

-- An entry that `readdir` gives: `d_name` and `d_ino`.
pub record Dirent : Type 0 where
  pub d_name : Text
  pub d_ino : ℕ

pub record Host : Type 1 where
  pub State : Type 0
  -- `scanf("%d")` and `scanf(" %[^\n]%*c")`: what is stored, if there is a match.
  pub scan_int : State → Option ℤ × State
  pub scan_line : State → Option Text × State
  pub stat : State → Text → Option ℕ
  pub mkdir : State → Text → Bool × State
  pub opendir : State → Text → Option (List Dirent)
  -- The reply of system call 106, and the digits of a number.
  pub restore_reply : State → Text → ℕ → ℤ
  pub sprintf_u : ℕ → Text
  pub perform : Act → State → State

abbrev pub both : Option ℕ → Option ℕ → Option (ℕ × ℕ)
both none f = none
both (some p) none = none
both (some p) (some f) = some (p, f)

-- The inodes of the directory and of the file. `none` is exit(1).
unfoldable pub get_fileinfo : (Text → Option ℕ) → Text → Text → Run (Option (ℕ × ℕ))
get_fileinfo stat path file = do
  path1 ← fits 50 path
  file2 ← fits 50 file
  full ← full_path path1 file2
  ok (both (stat path1) (stat full))

abbrev pub views_found : Option (ℕ × ℕ) → Option (List Act)
views_found none = none
views_found (some (p, f)) = some (views (pos p) (pos f) ∷ [])

unfoldable pub inode_viewer : (Text → Option ℕ) → Text → Text → Acts
inode_viewer stat path file = do inodes ← get_fileinfo stat path file; ok (views_found inodes)

-- What an int holds after `scanf("%d")`: without a match it keeps its value.
abbrev pub scanned : ℤ → Option ℤ → ℤ
scanned old none = old
scanned old (some n) = n

-- `int finode = 0; scanf("%d", &finode)`.
abbrev pub inode_viewer2 : Option ℤ → List Act
inode_viewer2 n = views (pos 0) (scanned (pos 0) n) ∷ []

-- The loop over `readdir`, which skips `.` and `..`.
unfoldable pub view_entries : List Dirent → List Act
view_entries [] = []
view_entries (d ∷ ds) =
    let rest = view_entries ds in
    if strcmp_eq d.d_name (b'.' ∷ []) || strcmp_eq d.d_name (b'.' ∷ b'.' ∷ [])
    then rest
    else prints d.d_name d.d_ino ∷ rest

unfoldable pub view_directory : Option (List Dirent) → List Act
view_directory none = []
view_directory (some ds) = view_entries ds

unfoldable pub directory_walker : (Text → Option (List Dirent)) → Text → Run (List Act)
directory_walker opendir path = do p ← fits 50 path; ok (view_directory (opendir p))

-- What one round of the loop comes to: the next round with the value of `input`, an exit, or what C
-- leaves undefined.
pub data Turn (S : Type 0) : Type 0 where
  again : ℤ → S → Turn S
  exited : (status : ℕ) → S → Turn S
  undefined : Turn S

-- The cases of `switch(input)`, as the menu names them.
pub data Case : Type 0 where
  leave view_file list_directory delete_file undelete_file make_directory view_inode other : Case

unfoldable pub case_of : ℤ → Case
case_of (negsuc n) = other
case_of (pos n) =
    if n == 0
    then leave
    else if n == 1
    then view_file
    else if n == 2
    then list_directory
    else if n == 3
    then delete_file
    else if n == 4
    then undelete_file
    else if n == 5
    then make_directory
    else if n == 6
    then view_inode
    else other

module _ (h : Host) where
  open h use {State, scan_int, scan_line, stat, mkdir, opendir, restore_reply, sprintf_u, perform}

  unfoldable pub perform_all : List Act → State → State
  perform_all [] s = s
  perform_all (a ∷ acts) s = perform_all acts (perform a s)

  -- The array is zeroed before the name is scanned.
  abbrev pub read_name : State → Text × State
  read_name s = let (t, s') = scan_line s in (elim t [ none ↦ [] | some name ↦ name ], s')

  abbrev pub read_names : State → Text × Text × State
  read_names s = let (path, s') = read_name s in let (file, s'') = read_name s' in (path, file, s'')

  -- The end of a case, which has given its actions, with what `none` stands for.
  abbrev pub finish : ℤ → Turn State → State → Acts → Turn State
  finish input otherwise s fault = undefined
  finish input otherwise s (ok none) = otherwise
  finish input otherwise s (ok (some acts)) = again input (perform_all acts s)

  abbrev pub view_acts : Text → Text → State → Acts
  view_acts path file s = inode_viewer (stat s) path file

  abbrev pub delete_acts : Text → Text → State → Acts
  delete_acts path file s = damage_inode (stat s) sprintf_u path file

  abbrev pub undelete_acts : Text → Text → State → Acts
  undelete_acts path file s = restore_inode (stat s) sprintf_u (restore_reply s) path file

  abbrev pub file_case : ℤ → (Text → Text → State → Acts) → State → Turn State
  file_case input act s =
      let (path, file, s') = read_names s in finish input (exited 1 s') s' (act path file s')

  abbrev pub directory_case : ℤ → State → Turn State
  directory_case input s =
      let (path, s') = read_name s in
      finish input undefined s' (directory_walker (opendir s') path >>= λ acts. ok (some acts))

  abbrev pub rcmkdir_case : ℤ → State → Turn State
  rcmkdir_case input s =
      let (path, s') = read_name s in
      let (made, s'') = mkdir s' path in
      finish input (again input s'') s'' (rcmkdir (stat s'') sprintf_u (λ _. made) path)

  -- Case 6 has no break, and falls through to the exit of case 0.
  abbrev pub inode_case : State → Turn State
  inode_case s = let (n, s') = scan_int s in exited 0 (perform_all (inode_viewer2 n) s')

  unfoldable pub choose : Case → ℤ → State → Turn State
  choose leave n s = exited 0 s
  choose view_file n s = file_case n view_acts s
  choose list_directory n s = directory_case n s
  choose delete_file n s = file_case n delete_acts s
  choose undelete_file n s = file_case n undelete_acts s
  choose make_directory n s = rcmkdir_case n s
  choose view_inode n s = inode_case s
  choose other n s = again n s

  -- One round, from the value that `input` has.
  unfoldable pub turn : ℤ → State → Turn State
  turn input s = let (n, s') = scan_int s in choose (case_of (scanned input n)) (scanned input n) s'

  -- The test of `do { ... } while(input != 0)`, behind which main returns 0; and the loop, in so many rounds
  -- at most.
  abbrev pub next_round : (ℤ → State → Option (Turn State)) → Turn State → Option (Turn State)
  next_round loop (again (pos zero) s) = some (exited 0 s)
  next_round loop (again (pos (suc n)) s) = loop (pos (suc n)) s
  next_round loop (again (negsuc n) s) = loop (negsuc n) s
  next_round loop (exited status s) = some (exited status s)
  next_round loop undefined = some undefined

  unfoldable pub menu : ℕ → ℤ → State → Option (Turn State)
  menu zero input s = none
  menu (suc rounds) input s = next_round (menu rounds) (turn input s)

  -- `int input=0`.
  abbrev pub tool : ℕ → State → Option (Turn State)
  tool rounds s = menu rounds (pos 0) s
