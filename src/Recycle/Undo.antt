-- ===== src/Recycle/Undo.antt =====
-- The tool of Project3/p3_code/testp3.c, with the file server behind its calls.
use mathlib.Core.List.{append_assoc}
use cs551_assignments.Common.{
  Bool-cases, List, Option, Option-cases, Run, Text, [], absent, ap, arith, fault, found, get_elem?,
  if◌then◌else◌, inl, inr, length, length-append, ltb, ltb→lt, lt→ltb, ok, pos, some, subst, suc,
  true, zero, ℕ, ℤ, ◌++◌, ◌-◌, ◌<◌, ◌==◌, ◌∙◌, ◌∷◌, ◌≡◌,
}
use cs551_assignments.Recycle.Tool.{
  Act, answer_command, commands, damage_inode, damages, fits, full_path, kept_at, mv, restore_inode,
  restores, slash, tmp,
}
use cs551_assignments.Recycle.Mfs.{Bin, Inode, find_record, is_rcdir, max_records, restored}
use cs551_assignments.Recycle.Vfs.{Lookup, do_damageinode, do_restoreinode}
use cs551_assignments.Recycle.Records.{IsValid}
use cs551_assignments.Recycle.Undelete.{Names, undelete_lem}

module _ (stat : Text → Option ℕ) (sprintf_u : ℕ → Text) where
  abbrev pub kept : Text → ℕ → ℕ → Text
  kept file pinode finode = tmp ++ file ++ b'.' ∷ (sprintf_u pinode ++ b'.' ∷ sprintf_u finode)

  -- The names fit in the tool's arrays, and stat finds the directory and the file.
  pub record Deletes (path file full : Text) (pinode finode : ℕ) : Type 0 where
    pub path_fits : length path < 50
    pub file_fits : length file < 50
    pub joined : full_path path file ≡ ok full
    pub pinode_fits : length (sprintf_u pinode) < 10
    pub finode_fits : length (sprintf_u finode) < 10
    pub command_fits : length (mv full (kept file pinode finode)) < 150
    pub directory : stat path ≡ some pinode
    pub inode : stat full ≡ some finode

  fits-ok : (n : ℕ) (t : Text) → length t < n → fits n t ≡ ok t
  fits-ok n t h = rw (lt→ltb _ _ h)

  kept_at-ok :
      (path file full : Text) (pinode finode : ℕ)
      → Deletes path file full pinode finode
      → kept_at stat sprintf_u file pinode finode ≡ ok (kept file pinode finode)
  unfolding kept_at
  kept_at-ok path file full pinode finode d =
      let room : length (kept file pinode finode) < 100 = omega (
        arith,
        d.file_fits,
        d.pinode_fits,
        d.finode_fits,
        length-append tmp (file ++ b'.' ∷ (sprintf_u pinode ++ b'.' ∷ sprintf_u finode)),
        length-append file (b'.' ∷ (sprintf_u pinode ++ b'.' ∷ sprintf_u finode)),
        length-append (sprintf_u pinode) (b'.' ∷ sprintf_u finode),
      ) in
      rw (
        fits-ok 10 (sprintf_u pinode) d.pinode_fits,
        fits-ok 10 (sprintf_u finode) d.finode_fits,
        fits-ok 100 (kept file pinode finode) room,
      )

  pub damage_inode-ok :
      (path file full : Text) (pinode finode : ℕ)
      → Deletes path file full pinode finode
      → damage_inode stat sprintf_u path file
        ≡ ok (some (damages full pinode finode ∷ commands (mv full (kept file pinode finode)) ∷ []))
  unfolding damage_inode
  damage_inode-ok path file full pinode finode d = rw (
    fits-ok 50 path d.path_fits,
    fits-ok 50 file d.file_fits,
    d.directory,
    d.joined,
    d.inode,
    kept_at-ok path file full pinode finode d,
    fits-ok 150 (mv full (kept file pinode finode)) d.command_fits,
  )

  -- The command that undoes the one of damageInode.
  answer_command-ok :
      (path file full : Text) (pinode finode : ℕ)
      → Deletes path file full pinode finode
      → 0 < finode
      → answer_command stat sprintf_u file pinode full (pos finode)
        ≡ ok (commands (mv (kept file pinode finode) full) ∷ [])
  unfolding answer_command
  answer_command-ok path file full pinode zero d p = absurd (omega arith)
  answer_command-ok path file full pinode (suc f) d p =
      let back = mv (kept file pinode (suc f)) full in
      let long =
        b'm'
        ∷ b'v'
        ∷ b' '
        ∷ (tmp ++ file ++ b'.' ∷ (sprintf_u pinode ++ b'.' ∷ (sprintf_u (suc f) ++ b' ' ∷ full))) in
      let shape : long ≡ back = simp append_assoc in
      let room : length back < 150 = omega (
        arith,
        d.command_fits,
        length-append full (b' ' ∷ kept file pinode (suc f)),
        length-append (kept file pinode (suc f)) (b' ' ∷ full),
      ) in
      rw (
        fits-ok 10 (sprintf_u pinode) d.pinode_fits,
        fits-ok 10 (sprintf_u (suc f)) d.finode_fits,
        ap (fits 150) shape ∙ fits-ok 150 back room,
      )

  -- The command that removes what is kept of a file.
  abbrev pub removes : Text → ℕ → Text
  removes file pinode = b'r' ∷ b'm' ∷ b' ' ∷ (tmp ++ file ++ b'.' ∷ (sprintf_u pinode ++ b'*' ∷ []))

  still_used :
      (n : ℕ) (rip : Inode) → 0 < rip.i_nlinks → 0 < rip.i_count → restored n (some rip) ≡ pos 0
  still_used n rip links users = ground arith

  removes-ok :
      (path file full : Text) (pinode finode : ℕ)
      → Deletes path file full pinode finode
      → answer_command stat sprintf_u file pinode full (pos 0)
        ≡ ok (commands (removes file pinode) ∷ [])
  unfolding answer_command
  removes-ok path file full pinode finode d =
      let room : length (removes file pinode) < 150 = omega (
        arith,
        d.file_fits,
        d.pinode_fits,
        length-append tmp (file ++ b'.' ∷ (sprintf_u pinode ++ b'*' ∷ [])),
        length-append file (b'.' ∷ (sprintf_u pinode ++ b'*' ∷ [])),
        length-append (sprintf_u pinode) (b'*' ∷ []),
      ) in
      rw (fits-ok 10 (sprintf_u pinode) d.pinode_fits, fits-ok 150 (removes file pinode) room)

  restore_inode-answer :
      (call : Text → ℕ → ℤ) (path file full : Text) (pinode finode : ℕ) (acts : List Act)
      → Deletes path file full pinode finode
      → answer_command stat sprintf_u file pinode full (call full pinode) ≡ ok acts
      → restore_inode stat sprintf_u call path file ≡ ok (some (restores full pinode ∷ acts))
  unfolding restore_inode
  restore_inode-answer call path file full pinode finode acts d e =
      rw (fits-ok 50 path d.path_fits, fits-ok 50 file d.file_fits, d.directory, d.joined, e)

  fits-lt : (t full : Text) → fits 100 t ≡ ok full → length full < 100
  fits-lt t full e = elim (Bool-cases (ltb (length t) 100)) [
    | inl y ↦ subst (λ x. length x < 100) (same (rw y at e)) (ltb→lt _ _ y)
    | inr n ↦ absurd (never (rw n at e))
  ]
    where
      same : ◌≡◌ {A = Run Text} (ok t) (ok full) → t ≡ full
      same q = cc

      never : ◌≡◌ {A = Run Text} fault (ok full) → ⊥
      never q = cc

  full_path-lt : (path file full : Text) → full_path path file ≡ ok full → length full < 100
  full_path-lt path file full e =
      unfold full_path in
      elim (Option-cases (get_elem? path (length path - 1))) [
        | inl gone ↦ absurd (never (rw gone at e))
        | inr (last, at) ↦
            fits-lt (if last == slash then path ++ file else path ++ slash ∷ file) full (rw at at e)
      ]
    where
      never : ◌≡◌ {A = Run Text} fault (ok full) → ⊥
      never q = cc

  -- A file is deleted with the tool from a registered directory, and restored: if its inode is free
  -- by then, restoring moves it back with the command that is the reverse of the one that moved it
  -- away. The names must fit in the tool's arrays and in the file system's, the records have room,
  -- and none of them has the same directory and path yet.
  pub restore_inode_undoes_damage_inode :
      (l : Lookup) (path file full : Text) (pinode finode i : ℕ) (b : Bin) (rip : Inode)
      → Deletes path file full pinode finode
      → IsValid b
      → Names l full
      → is_rcdir pinode b ≡ found i
      → b.cursor2 < max_records
      → find_record pinode full b ≡ absent
      → 0 < finode
      → l.get_inode finode ≡ some rip
      → rip.i_nlinks ≡ 0
      → (damage_inode stat sprintf_u path file
          ≡ ok (
              some
                (damages full pinode finode ∷ commands (mv full (kept file pinode finode)) ∷ [])))
        × (b' : Bin) × (do_damageinode l pinode finode b ≡ ok (pos 0, b'))
        × (r : ℤ) × (do_restoreinode l pinode b' ≡ ok r)
        × ((call : Text → ℕ → ℤ)
            → call full pinode ≡ r
            → restore_inode stat sprintf_u call path file
              ≡ ok
                  (some (restores full pinode ∷ commands (mv (kept file pinode finode) full) ∷ [])))
  restore_inode_undoes_damage_inode l path file full pinode finode i b rip d v n dir room new p at
        free =
      let short : length full < 100 = full_path-lt path file full d.joined in
      let u = undelete_lem l full pinode finode i b v n dir room short new in
      let none_left : (rip.i_nlinks == 0) ≡ true = ground (arith, free) in
      let r : restored finode (l.get_inode finode) ≡ pos finode = rw (at, none_left) in
      (
        damage_inode-ok path file full pinode finode d,
        u.0,
        u.1,
        pos finode,
        u.2 ∙ ap ok r,
        λ call e. restore_inode-answer call path file full pinode finode _ d (
            ap (answer_command stat sprintf_u file pinode full) e
            ∙ answer_command-ok path file full pinode finode d p),
      )

  -- A file is deleted with the tool from a registered directory, and its inode still has links
  -- and users, as after a move within one file system: then restoring answers 0, and the tool
  -- removes the kept copy: it runs rm on /tmp/<file>.<directory>* and moves nothing back. The
  -- names fit in the tool's arrays and in the file system's, the records have room, and none of
  -- them has the same directory and path yet.
  pub restore_inode-removes_kept :
      (l : Lookup) (path file full : Text) (pinode finode i : ℕ) (b : Bin) (rip : Inode)
      → Deletes path file full pinode finode
      → IsValid b
      → Names l full
      → is_rcdir pinode b ≡ found i
      → b.cursor2 < max_records
      → find_record pinode full b ≡ absent
      → l.get_inode finode ≡ some rip
      → 0 < rip.i_nlinks
      → 0 < rip.i_count
      → (b' : Bin) × (do_damageinode l pinode finode b ≡ ok (pos 0, b'))
        × (do_restoreinode l pinode b' ≡ ok (pos 0))
        × ((call : Text → ℕ → ℤ)
            → call full pinode ≡ pos 0
            → restore_inode stat sprintf_u call path file
              ≡ ok (some (restores full pinode ∷ commands (removes file pinode) ∷ [])))
  restore_inode-removes_kept l path file full pinode finode i b rip d v n dir room new at links
        users =
      let short : length full < 100 = full_path-lt path file full d.joined in
      let u = undelete_lem l full pinode finode i b v n dir room short new in
      let r : restored finode (l.get_inode finode) ≡ pos 0 =
        rw at (still_used finode rip links users) in
      (
        u.0,
        u.1,
        u.2 ∙ ap ok r,
        λ call e. restore_inode-answer call path file full pinode finode _ d (
            ap (answer_command stat sprintf_u file pinode full) e
            ∙ removes-ok path file full pinode finode d),
      )
