-- ===== src/Recycle/Tool.antt =====
-- damageInode, restoreInode and rcmkdir of Project3/p3_code/testp3.c, from the two names that scanf
-- reads. `stat`, `mkdir` and the decimal digits that sprintf writes are parameters.
use cs551_assignments.Common.{
  Bool, List, Option, Run, Text, [], fault, get_elem?, if◌then◌else◌, in_range, length, ltb, negsuc,
  none, ok, pos, some, suc, zero, ℕ, ℤ, ◌++◌, ◌-◌, ◌==◌, ◌>>=◌, ◌∷◌,
}

-- What the tool does: its system calls 109, 110, 106 and 108, the commands that it runs, and the
-- lines of a directory that it prints.
pub data Act : Type 0 where
  registers : (inode : ℕ) → Act
  damages : (path : Text) (pinode finode : ℕ) → Act
  restores : (path : Text) (pinode : ℕ) → Act
  views : (pinode finode : ℤ) → Act
  commands : Text → Act
  prints : (name : Text) (inode : ℕ) → Act

-- `none` is a return or an exit before anything is done.
abbrev pub Acts : Type 0
Acts = Run (Option (List Act))

-- A string in an array of that many bytes.
abbrev pub fits : ℕ → Text → Run Text
fits n t = if ltb (length t) n then ok t else fault

abbrev pub slash : ℕ
slash = b'/'

-- `fullpath`: the two names, with a slash between them if the first does not end in one.
unfoldable pub full_path : Text → Text → Run Text
full_path path file = do
  last ← in_range (get_elem? path (length path - 1))
  fits 100 (if last == slash then path ++ file else path ++ slash ∷ file)

abbrev pub tmp : Text
tmp = slash ∷ b't' ∷ b'm' ∷ b'p' ∷ slash ∷ []

abbrev pub mv : Text → Text → Text
mv a b = b'm' ∷ b'v' ∷ b' ' ∷ (a ++ b' ' ∷ b)

-- `if(state == -1) exit(1);`
abbrev pub stat_or_exit : Option ℕ → (ℕ → Acts) → Acts
stat_or_exit none next = ok none
stat_or_exit (some inode) next = next inode

module _ (stat : Text → Option ℕ) (sprintf_u : ℕ → Text) where
  -- `sprintf(nodes, "%u", n)`, into 10 bytes.
  abbrev pub nodes : ℕ → Run Text
  nodes n = fits 10 (sprintf_u n)

  -- `path2`: where a deleted file is kept.
  unfoldable pub kept_at : Text → ℕ → ℕ → Run Text
  kept_at file pinode finode = do
    p ← nodes pinode
    f ← nodes finode
    fits 100 (tmp ++ file ++ b'.' ∷ (p ++ b'.' ∷ f))

  -- The two names are read into 50 bytes each.
  unfoldable pub damage_inode : Text → Text → Acts
  damage_inode path file = fits 50 path >>= λ path1. fits 50 file >>= λ file1.
      stat_or_exit (stat path1) (λ pinode. full_path path1 file1 >>= λ full.
      stat_or_exit (stat full) (λ finode. kept_at file1 pinode finode >>= λ path2.
      fits 150 (mv full path2) >>= λ mvstring.
      ok (some (damages full pinode finode ∷ commands mvstring ∷ []))))

  -- The command that the reply of the system call is answered with.
  unfoldable pub answer_command : Text → ℕ → Text → ℤ → Run (List Act)
  answer_command file pinode full (pos zero) = do
    p ← nodes pinode
    c ← fits 150 (b'r' ∷ b'm' ∷ b' ' ∷ (tmp ++ file ++ b'.' ∷ (p ++ b'*' ∷ [])))
    ok (commands c ∷ [])
  answer_command file pinode full (pos (suc r)) = do
    p ← nodes pinode
    f ← nodes (suc r)
    c ← fits 150 (b'm' ∷ b'v' ∷ b' ' ∷ (tmp ++ file ++ b'.' ∷ (p ++ b'.' ∷ (f ++ b' ' ∷ full))))
    ok (commands c ∷ [])
  answer_command file pinode full (negsuc r) = ok []

  -- `call` is the reply of system call 106.
  unfoldable pub restore_inode : (Text → ℕ → ℤ) → Text → Text → Acts
  restore_inode call path file = fits 50 path >>= λ path1. fits 50 file >>= λ file1.
      stat_or_exit (stat path1) (λ pinode. full_path path1 file1 >>= λ full.
      answer_command file1 pinode full (call full pinode) >>= λ acts.
      ok (some (restores full pinode ∷ acts)))

  unfoldable pub rcmkdir : (Text → Bool) → Text → Acts
  rcmkdir mkdir path = fits 50 path >>= λ path1.
      if mkdir path1
      then stat_or_exit (stat path1) (λ inode. ok (some (registers inode ∷ [])))
      else ok none
