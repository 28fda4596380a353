-- ===== src/Recycle/Viewer.antt =====
-- The inode viewer: fs_inodeviewer of Project3/p3_code/mfs/new.c, its request of vfs/request.c and
-- its system call of vfs/new.c. `get_inode` of the file system is an argument. What is printed is a
-- list of labels and numbers.
use Prim.Native.String.{String}
use cs551_assignments.Common.{
  Bool, List, Option, Run, [], arith, false, fault, if◌then◌else◌, length, none, ok, pos, refl,
  some, suc, take, true, zero, ℕ, ℤ, ◌++◌, ◌==◌, ◌>>=◌, ◌↔◌, ◌∷◌, ◌≡◌, ◌≤◌,
}
use cs551_assignments.Recycle.Mfs.{error}

-- The fields of an inode that are printed.
pub record Details : Type 0 where
  pub i_mode : ℕ
  pub i_nlinks : ℕ
  pub i_uid : ℕ
  pub i_gid : ℕ
  pub i_size : ℕ
  pub i_atime : ℕ
  pub i_mtime : ℕ
  pub i_ctime : ℕ
  pub i_zone : List ℕ
  pub i_dev : ℕ
  pub i_num : ℕ
  pub i_count : ℕ
  pub i_ndzones : ℕ
  pub i_nindirs : ℕ

abbrev pub Printed : Type 0
Printed = List (String × List ℕ)

abbrev line : String → ℕ → Printed
line label n = (label, n ∷ []) ∷ []

-- A file that is gone is reported, and printed all the same.
abbrev removed_line : ℕ → Printed
removed_line count = if count == 0 then ("file already removed", []) ∷ [] else []

abbrev print_details : Details → List ℕ → Printed
print_details rip zones =
    removed_line rip.i_count
    ++ line "Mode" rip.i_mode
    ++ line "nLinks" rip.i_nlinks
    ++ line "iUid" rip.i_uid
    ++ line "iGid" rip.i_gid
    ++ line "Size" rip.i_size
    ++ line "aTime" rip.i_atime
    ++ line "mTime" rip.i_mtime
    ++ line "cTime" rip.i_ctime
    ++ ("ZonesBlocks are", zones) ∷ []
    ++ line "Dev" rip.i_dev
    ++ line "Num" rip.i_num
    ++ line "Count" rip.i_count
    ++ line "ndZones" rip.i_ndzones
    ++ line "nindirs" rip.i_nindirs

-- `for (i = 0; i < n; i++) b = rip->i_zone[i]`, from the first of the elements left.
unfoldable pub first_zones : ℕ → List ℕ → Run (List ℕ)
first_zones zero zs = ok []
first_zones (suc n) [] = fault
first_zones (suc n) (z ∷ zs) = do rest ← first_zones n zs; ok (z ∷ rest)

-- `v2_nr_tzones` is the length of the array in MINIX's inode.h.
module _ (v2_nr_tzones : ℕ) (get_inode : ℕ → Option Details) where
  -- The result of `get_inode` is read without a test for NULL.
  abbrev pub view : ℕ → Option Details → Run (ℤ × Printed)
  view inode_nr none = fault
  view inode_nr (some rip) = do
    zones ← first_zones v2_nr_tzones rip.i_zone
    ok (pos 0, line "Printing details of iNode" inode_nr ++ print_details rip zones)

  unfoldable pub fs_inodeviewer : ℕ → Run (ℤ × Printed)
  fs_inodeviewer inode_nr = view inode_nr (get_inode inode_nr)

  abbrev pub req_inodeviewer : ℕ → Run (ℤ × Printed)
  req_inodeviewer inode_nr = fs_inodeviewer inode_nr

  -- The reply is dropped.
  abbrev pub answered : Bool → Run (ℤ × Printed) → Run (ℤ × Printed)
  answered resolves reply =
      if resolves then (do (r, out) ← reply; ok (pos 0, out)) else ok (error, [])

  unfoldable pub do_inodeviewer : Bool → ℕ → Run (ℤ × Printed)
  do_inodeviewer resolves inode_nr = answered resolves (req_inodeviewer inode_nr)

first_zones_lem : (n : ℕ) (zs : List ℕ) → n ≤ length zs → first_zones n zs ≡ ok (take n zs)
unfolding first_zones
first_zones_lem zero zs h = refl
first_zones_lem (suc n) [] h = absurd (omega arith)
first_zones_lem (suc n) (z ∷ zs) h = rw (first_zones_lem n zs (omega arith)) refl

module _ (n nr : ℕ) (get : ℕ → Option Details) where
  answered-eq-fault :
      (resolves : Bool) (o : Option Details)
      → ((rip : Details) → o ≡ some rip → n ≤ length rip.i_zone)
      → (answered n get resolves (view n get nr o) ≡ fault) ↔ ((resolves ≡ true) × (o ≡ none))
  answered-eq-fault true none full = (λ e. (refl, refl), λ e. refl)
  answered-eq-fault true (some rip) full =
      let z = first_zones_lem n rip.i_zone (full rip refl) in (λ e. ground (arith, z), λ e. cc)
  answered-eq-fault false o full = (λ e. cc, λ e. cc)

  -- Where every inode has its zones, the call faults exactly if the device resolves and the file
  -- system does not give the inode: the result of get_inode is not tested.
  pub do_inodeviewer-eq-fault :
      (resolves : Bool)
      → ((k : ℕ) (rip : Details) → get k ≡ some rip → n ≤ length rip.i_zone)
      → (do_inodeviewer n get resolves nr ≡ fault) ↔ ((resolves ≡ true) × (get nr ≡ none))
  unfolding do_inodeviewer fs_inodeviewer
  do_inodeviewer-eq-fault resolves full = answered-eq-fault resolves (get nr) (full nr)
