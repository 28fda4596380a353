-- ===== src/Recycle/Undelete.antt =====
-- A file that is deleted from a recycle directory and restored, through Project3/p3_code/vfs/new.c
-- and Project3/p3_code/mfs/new.c.
use cs551_assignments.Common.{
  Searched, Text, absent, ap, arith, false, found, get_elem?, get_elem?-set_ne, get_elem?-set_self,
  length, ltb, lt→ltb, min, ok, pos, search-Searched, search-append_new, search-append_old, set,
  some, strcmp_eq_refl, subst, true, ℕ, ◌+◌, ◌<◌, ◌==◌, ◌∙◌, ◌≡◌,
}
use cs551_assignments.Recycle.Mfs.{
  Bin, RcEntry, copied_path, damage_dir, fetched, find_record, fs_damageinode, fs_restoreinode,
  is_rcdir, is_record, max_records, restore_dir, restore_record, restored,
}
use cs551_assignments.Recycle.Vfs.{
  Lookup, damage_named, do_damageinode, do_restoreinode, granted, name_of, restore_named,
}
use cs551_assignments.Recycle.Records.{IsValid}

-- A call by `path`, on a device that resolves; the path fits in the file system's buffer, and its
-- bytes with the NUL are copied as they are.
pub record Names (l : Lookup) (path : Text) : Type 0 where
  pub resolves : l.resolves ≡ true
  pub name : name_of l ≡ fetched path
  pub fits : length path < l.mfs_name_max
  pub copy : l.safecopyfrom path (length path + 1) ≡ fetched path

copied-granted :
    (l : Lookup) (path : Text) → Names l path → copied_path (granted l path) ≡ fetched path
copied-granted l path n =
    let whole : min (length path + 1) l.mfs_name_max ≡ length path + 1 = omega (arith, n.fits) in
    ap (l.safecopyfrom path) whole ∙ n.copy

-- The table with one more record.
unfoldable pub recorded : ℕ → ℕ → Text → Bin → Bin
recorded pinode finode path b = record b {
  rcnodes = set b.rcnodes b.cursor2 (record { pinode = pinode; finode = finode; fname = path });
  cursor2 = b.cursor2 + 1;
}

is_rcdir_cursor : (inode i : ℕ) (b : Bin) → is_rcdir inode b ≡ found i → (b.cursor1 == 0) ≡ false
unfolding is_rcdir
is_rcdir_cursor inode i b e =
    let h : Searched (λ x. x == inode) b.cursor1 b.rcdirs (found i) =
      subst (Searched (λ x. x == inode) b.cursor1 b.rcdirs) e
        (search-Searched (λ x. x == inode) b.cursor1 b.rcdirs) in
    let pos' : 0 < b.cursor1 = omega (arith, h.3) in ground (arith, pos')

pub damage-recorded :
    (l : Lookup) (path : Text) (pinode finode i : ℕ) (b : Bin)
    → IsValid b
    → Names l path
    → is_rcdir pinode b ≡ found i
    → b.cursor2 < max_records
    → length path < 100
    → do_damageinode l pinode finode b ≡ ok (pos 0, recorded pinode finode path b)
unfolding do_damageinode damage_named fs_damageinode damage_dir recorded
damage-recorded l path pinode finode i b v n dir room short =
    let r : ltb b.cursor2 (length b.rcnodes) ≡ true = lt→ltb _ _ (omega (arith, v.nodes)) in
    rw (
      n.name,
      n.resolves,
      copied-granted l path n,
      is_rcdir_cursor pinode i b dir,
      dir,
      r,
      lt→ltb _ _ short,
    )

restore-found :
    (l : Lookup) (path : Text) (pinode i j : ℕ) (b : Bin) (e : RcEntry)
    → Names l path
    → is_rcdir pinode b ≡ found i
    → (b.cursor2 == 0) ≡ false
    → find_record pinode path b ≡ found j
    → get_elem? b.rcnodes j ≡ some e
    → do_restoreinode l pinode b ≡ ok (restored e.finode (l.get_inode e.finode))
unfolding do_restoreinode restore_named fs_restoreinode restore_dir restore_record
restore-found l path pinode i j b e n dir some' finds at = rw (
  n.name,
  n.resolves,
  copied-granted l path n,
  is_rcdir_cursor pinode i b dir,
  dir,
  some',
  finds,
  at,
)

not_zero : (n : ℕ) → (n + 1 == 0) ≡ false
not_zero n = ground arith

is_record_self :
    (p f : ℕ) (path : Text)
    → is_record p path (record { pinode = p; finode = f; fname = path }) ≡ true
is_record_self p f path = ground (arith, strcmp_eq_refl path)

-- Deleting a file of a registered directory returns 0 and records it, and restoring it then
-- answers for the inode that was deleted: with its number if that inode has no links or no users,
-- with 0 if it has both, and with -1 if it is not there. The records have room, no older one has
-- the same directory and path, and the path is fetched and copied whole and shorter than 100
-- bytes.
pub undelete_lem :
    (l : Lookup) (path : Text) (pinode finode i : ℕ) (b : Bin)
    → IsValid b
    → Names l path
    → is_rcdir pinode b ≡ found i
    → b.cursor2 < max_records
    → length path < 100
    → find_record pinode path b ≡ absent
    → (b' : Bin) × (do_damageinode l pinode finode b ≡ ok (pos 0, b'))
      × (do_restoreinode l pinode b' ≡ ok (restored finode (l.get_inode finode)))
unfolding recorded is_rcdir find_record
undelete_lem l path pinode finode i b v n dir room short new = (
  recorded pinode finode path b,
  damage-recorded l path pinode finode i b v n dir room short,
  restore-found l path pinode i b.cursor2 (recorded pinode finode path b) _ n dir
      (not_zero b.cursor2)
      (search-append_new (is_record pinode path) b.cursor2 b.rcnodes _ (omega (arith, v.nodes)) new
        (is_record_self pinode finode path))
      (get_elem?-set_self b.rcnodes b.cursor2 _ (omega (arith, v.nodes))),
)

-- Where an older record has the same directory and path, deleting a file of a registered
-- directory returns 0, but restoring it answers for the inode of the older record, whichever
-- inode was deleted last. The records have room, and the path is fetched and copied whole and
-- shorter than 100 bytes.
pub undelete_stale :
    (l : Lookup) (path : Text) (pinode finode i j : ℕ) (b : Bin) (e : RcEntry)
    → IsValid b
    → Names l path
    → is_rcdir pinode b ≡ found i
    → b.cursor2 < max_records
    → length path < 100
    → find_record pinode path b ≡ found j
    → get_elem? b.rcnodes j ≡ some e
    → (b' : Bin) × (do_damageinode l pinode finode b ≡ ok (pos 0, b'))
      × (do_restoreinode l pinode b' ≡ ok (restored e.finode (l.get_inode e.finode)))
unfolding recorded is_rcdir find_record
undelete_stale l path pinode finode i j b e v n dir room short old at = (
  recorded pinode finode path b,
  damage-recorded l path pinode finode i b v n dir room short,
  restore-found l path pinode i j (recorded pinode finode path b) e n dir (not_zero b.cursor2)
      (search-append_old (is_record pinode path) b.cursor2 j b.rcnodes _ old)
      (get_elem?-set_ne b.rcnodes b.cursor2 j _ (λ q. absurd (omega (arith, before, q))) ∙ at),
)
  where
    before : j < b.cursor2
    before =
        (subst (Searched (is_record pinode path) b.cursor2 b.rcnodes) old
          (search-Searched (is_record pinode path) b.cursor2 b.rcnodes)).3
