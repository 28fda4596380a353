-- ===== src/Group/Tests/Invariants.antt =====
-- The invariants of the group table at concrete tables.
use cs551_assignments.Common.{
  Outcome, Run, fault, length, ok, pos_part, refl, search, some, strncmp_eq, suc, zero, ℕ, ◌+ℤ◌,
  ◌<◌, ◌>>=◌, ◌≡◌,
}
use cs551_assignments.Group.Defs.{
  Groups, find_empty_group_slot, find_named, find_open, groups_init, max_groups, max_groups_size,
}
use cs551_assignments.Group.Admin.{lookup_groups, opengroup, recovergroup}
use cs551_assignments.Group.Counting.{IsCounted-IsInside}
use cs551_assignments.Group.History.Reach.{IsSound, Reach-IsSound}
use cs551_assignments.Group.Invariant.Table.{IsInside, IsValid}
use cs551_assignments.Group.Invariant.Admins.{lookup_groups-fits}
use cs551_assignments.Group.Tests.{Reach-read, name_a, read_by_8, with_a}
use cs551_assignments.Group.Snapshot.{
  Prints, print_buffer_snapshot, print_each, print_group, print_group_snapshot, print_item,
  snapshots-Print,
}

valid : IsValid read_by_8
valid = (Reach-IsSound Reach-read).0

inside : IsInside read_by_8
inside = IsCounted-IsInside read_by_8 valid (Reach-IsSound Reach-read).1

Reach-IsSound_example : IsSound read_by_8
Reach-IsSound_example = Reach-IsSound Reach-read

lookup_groups-fits_example : Outcome (λ t. length t < max_groups_size) ⊥ (lookup_groups read_by_8)
lookup_groups-fits_example = lookup_groups-fits read_by_8 valid

snapshots-Print_example :
    ((i : ℕ) → i < max_groups → Prints (print_group_snapshot i read_by_8))
    × (IsInside read_by_8 → Prints (print_buffer_snapshot read_by_8))
    × (max_groups < pos_part read_by_8.num_groups → print_buffer_snapshot read_by_8 ≡ fault)
snapshots-Print_example = snapshots-Print valid

-- recovergroup of a group that is open, again and again.
recovered : ℕ → Groups → Run Groups
recovered zero s = ok s
recovered (suc n) s = do r ← recovergroup (some name_a) s; recovered n r.1

-- numGroups is eleven then, and the snapshot reads past the table.
recovered_ten : (recovered 10 with_a >>= print_buffer_snapshot) ≡ fault
unfolding recovered groups_init opengroup recovergroup find_open find_named find_empty_group_slot
    search strncmp_eq ◌+ℤ◌ print_buffer_snapshot print_each print_group print_item
recovered_ten = refl
