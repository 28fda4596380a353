-- ===== src/Recycle/Menu/Ends.antt =====
-- How the loop of the menu of Project3/p3_code/testp3.c ends, and where it does not.
use cs551_assignments.Common.{
  Bool, Option, Text, [], arith, false, fault, inl, inr, negsuc, none, ok, pos, refl, some, suc,
  true, zero, ℕ, ℤ, ◌>>=◌, ◌↔◌, ◌≡◌, ◌≢◌, ◌⊎◌,
}
use cs551_assignments.Recycle.Tool.{Acts, rcmkdir}
use cs551_assignments.Recycle.Menu.{
  Case, Host, Turn, again, case_of, choose, delete_acts, delete_file, directory_walker, exited,
  file_case, finish, leave, list_directory, make_directory, menu, next_round, other, perform_all,
  read_name, read_names, scanned, turn, undefined, undelete_acts, undelete_file, view_acts,
  view_directory, view_file, view_inode,
}

case_of-leave : (n : ℤ) → (case_of n ≡ leave) ↔ (n ≡ pos 0)
unfolding case_of
case_of-leave (pos n) = (λ e. ground arith, λ e. ground arith)
case_of-leave (negsuc n) = (λ e. cc, λ e. cc)

case_of-view_inode : (n : ℤ) → (case_of n ≡ view_inode) ↔ (n ≡ pos 6)
unfolding case_of
case_of-view_inode (pos n) = (λ e. ground arith, λ e. ground arith)
case_of-view_inode (negsuc n) = (λ e. cc, λ e. cc)

-- The cases that do nothing with an empty name.
abbrev idles : Case → Bool
idles list_directory = true
idles make_directory = true
idles other = true
idles c = false

case_of-idles :
    (n : ℤ)
    → (n ≢ pos 0) × (n ≢ pos 1) × (n ≢ pos 3) × (n ≢ pos 4) × (n ≢ pos 6)
    → idles (case_of n) ≡ true
unfolding case_of
case_of-idles (negsuc n) h = refl
case_of-idles (pos n) h = ground (arith, h.0, h.1, h.2, h.3, h.4)

module _ (h : Host) where
  open h use {State, scan_int, scan_line, mkdir, opendir}

  -- What `input` holds when the switch is reached.
  abbrev pub chosen : ℤ → State → ℤ
  chosen input s = scanned input (scan_int s).0

  -- An exit with the status 0.
  abbrev pub IsExit : Turn State → Type 0
  IsExit (again n s) = ⊥
  IsExit (exited zero s) = Unit {0}
  IsExit (exited (suc n) s) = ⊥
  IsExit undefined = ⊥

  not-finish-IsExit :
      (n : ℤ) (t : Turn State) (s : State) (acts : Acts)
      → ¬ (IsExit t)
      → ¬ (IsExit (finish h n t s acts))
  not-finish-IsExit n t s fault k e = e
  not-finish-IsExit n t s (ok none) k e = k e
  not-finish-IsExit n t s (ok (some acts)) k e = e

  not-file_case-IsExit :
      (n : ℤ) (act : Text → Text → State → Acts) (s : State) → ¬ (IsExit (file_case h n act s))
  not-file_case-IsExit n act s e =
      let (path, file, s') = read_names h s in
      not-finish-IsExit n (exited 1 s') s' (act path file s') (λ x. x) e

  choose-IsExit :
      (c : Case) (n : ℤ) (s : State) → IsExit (choose h c n s) ↔ ((c ≡ leave) ⊎ (c ≡ view_inode))
  unfolding choose
  choose-IsExit leave n s = (λ e. inl refl, λ e. tt)
  choose-IsExit view_inode n s = (λ e. inr refl, λ e. tt)
  choose-IsExit view_file n s =
      (λ e. absurd (not-file_case-IsExit n (view_acts h) s e), λ e. absurd (ground arith))
  choose-IsExit delete_file n s =
      (λ e. absurd (not-file_case-IsExit n (delete_acts h) s e), λ e. absurd (ground arith))
  choose-IsExit undelete_file n s =
      (λ e. absurd (not-file_case-IsExit n (undelete_acts h) s e), λ e. absurd (ground arith))
  choose-IsExit list_directory n s =
      let (path, s') = read_name h s in
      (
        λ e. absurd (
            not-finish-IsExit n undefined s'
              (directory_walker (opendir s') path >>= λ acts. ok (some acts)) (λ x. x) e),
        λ e. absurd (ground arith),
      )
  choose-IsExit make_directory n s =
      let (path, s') = read_name h s in
      let (made, s'') = mkdir s' path in
      (
        λ e. absurd (
            not-finish-IsExit n (again n s'') s''
              (rcmkdir (h.stat s'') h.sprintf_u (λ _. made) path) (λ x. x) e),
        λ e. absurd (ground arith),
      )
  choose-IsExit other n s = (λ e. absurd e, λ e. absurd (ground arith))

  -- A round of the menu ends the tool with status 0 exactly if 0 is chosen, or 6: the case that views
  -- an inode has no break.
  pub turn-IsExit :
      (input : ℤ) (s : State)
      → IsExit (turn h input s) ↔ ((chosen input s ≡ pos 0) ⊎ (chosen input s ≡ pos 6))
  unfolding turn
  turn-IsExit input s =
      let n = chosen input s in
      let cases = choose-IsExit (case_of n) n (scan_int s).1 in
      let l = case_of-leave n in
      let v = case_of-view_inode n in
      (
        λ e. elim (cases.0 e) [ inl c ↦ inl (l.0 c) | inr c ↦ inr (v.0 c) ],
        λ e. cases.1 (elim e [ inl c ↦ inl (l.1 c) | inr c ↦ inr (v.1 c) ]),
      )

  choose-idles :
      (c : Case) (n : ℤ) (s : State)
      → scan_line s ≡ (none, s)
      → opendir s [] ≡ none
      → mkdir s [] ≡ (false, s)
      → idles c ≡ true
      → choose h c n s ≡ again n s
  unfolding choose directory_walker view_directory rcmkdir perform_all
  choose-idles list_directory n s l o m i = rw (l, o) refl
  choose-idles make_directory n s l o m i = rw (l, m) refl
  choose-idles other n s l o m i = refl
  choose-idles c n s l o m i = absurd (ground arith)

  still :
      (loop : ℤ → State → Option (Turn State)) (n : ℤ) (s : State)
      → loop n s ≡ none
      → n ≢ pos 0
      → next_round h loop (again n s) ≡ none
  still loop (pos zero) s e ne = absurd (ne refl)
  still loop (pos (suc n)) s e ne = e
  still loop (negsuc n) s e ne = e

  -- At the end of the input nothing matches any more. Where an empty path is no directory and can
  -- not be made, the tool goes round for ever on the number that it has read last, if that is not
  -- one of 0, 1, 3, 4 and 6.
  pub menu_spins :
      (rounds : ℕ) (input : ℤ) (s : State)
      → scan_int s ≡ (none, s)
      → scan_line s ≡ (none, s)
      → opendir s [] ≡ none
      → mkdir s [] ≡ (false, s)
      → (input ≢ pos 0) × (input ≢ pos 1) × (input ≢ pos 3) × (input ≢ pos 4) × (input ≢ pos 6)
      → menu h rounds input s ≡ none
  unfolding menu turn
  menu_spins zero input s i l o m n = refl
  menu_spins (suc rounds) input s i l o m n =
      let idle = case_of-idles input n in
      let same = choose-idles (case_of input) input s l o m idle in
      let rest = menu_spins rounds input s i l o m n in
      rw (i, same) (still (menu h rounds) input s rest n.0)
