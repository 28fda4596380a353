-- ===== src/Group/Tests/Counts.antt =====
-- The count of open groups, at concrete tables.
use cs551_assignments.Common.{
  Text, arith, found, get_elem?, length, ok, refl, search, some, strncmp_eq, true, ◌+ℤ◌, ◌↔◌, ◌≡◌,
  ◌≤◌,
}
use cs551_assignments.Group.Defs.{
  Groups, MsgListPerGroup, duplicate_group, find_empty_group_slot, find_named, find_open,
  get_receiver_id, group_not_found, groups_init, max_mesg_len, messaging_success,
}
use cs551_assignments.Group.Admin.{close_slot, closegroup, opengroup, recover_slot, recovergroup}
use cs551_assignments.Group.Members.{add_receiver_to_group}
use cs551_assignments.Group.Messages.{sendmsg}
use cs551_assignments.Group.Lost.{IsLast, closegroup_loses_last}
use cs551_assignments.Group.History.Reach.{Reach-IsSound}
use cs551_assignments.Group.Tests.{
  Reach-a, Reach-b, closed_a, group_at, left_by, name_a, name_b, opens_a, opens_b, with_a, with_b,
}
use cs551_assignments.Group.Packed.{IsPacked, groups_init-IsPacked, opengroup-IsPacked}
use cs551_assignments.Group.Names.{IsTaken, opengroup-iff-IsTaken}
use cs551_assignments.Group.Invariant.Table.{groups_init-IsValid}

abbrev recovered_a : Groups
recovered_a = left_by (recovergroup (some name_a) closed_a)

recovers_a : recovergroup (some name_a) closed_a ≡ ok (messaging_success, recovered_a)
unfolding groups_init opengroup add_receiver_to_group find_open get_receiver_id find_named
    find_empty_group_slot search strncmp_eq ◌+ℤ◌ closegroup close_slot recovergroup recover_slot
recovers_a = refl

abbrev group_b : MsgListPerGroup
group_b = group_at 1 with_b

b-IsLast : IsLast name_b 1 group_b with_b
unfolding groups_init opengroup add_receiver_to_group find_open get_receiver_id find_named
    find_empty_group_slot search strncmp_eq ◌+ℤ◌
b-IsLast = record { at = refl; named = refl; count = refl; first = (refl, tt) }

finds_a : find_named name_a with_b ≡ found 0
unfolding groups_init opengroup add_receiver_to_group find_open get_receiver_id find_named
    find_empty_group_slot search strncmp_eq ◌+ℤ◌
finds_a = refl

-- Group a, below group b in the table, is closed.
closegroup_loses_last_example :
    (t : Groups) × (closegroup (some name_a) with_b ≡ ok (messaging_success, t))
    × (get_elem? t.groups_list 1 ≡ some group_b)
    × (group_b.open_flag ≡ true)
    × ((mesg : Text)
        → length mesg ≤ max_mesg_len
        → sendmsg (some name_b) mesg t ≡ ok (group_not_found, t))
closegroup_loses_last_example =
    closegroup_loses_last name_a name_b 0 1 with_b group_b (Reach-IsSound Reach-b).0 refl
      (omega arith) finds_a b-IsLast (λ e. absurd (omega (arith, e))) refl

IsPacked-a : IsPacked 1 with_a
IsPacked-a =
    (opengroup-IsPacked name_a 0 groups_init with_a groups_init-IsValid.0 groups_init-IsPacked
      opens_a).0

opengroup-IsPacked_example :
    IsPacked 2 with_b
    × (find_open name_b with_b ≡ found 1)
    × (g : MsgListPerGroup) × (get_elem? with_b.groups_list 1 ≡ some g)
    × (g.group_name ≡ name_b)
    × (g.senders.curr_num ≡ 0)
    × (g.receivers.curr_num ≡ 0)
opengroup-IsPacked_example =
    opengroup-IsPacked name_b 1 with_a with_b (Reach-IsSound Reach-a).0 IsPacked-a opens_b

opengroup-iff-IsTaken_example :
    (opengroup (some name_a) with_a ≡ ok (duplicate_group, with_a)) ↔ IsTaken name_a with_a
opengroup-iff-IsTaken_example =
    opengroup-iff-IsTaken name_a with_a (Reach-IsSound Reach-a).0 (omega arith) (omega arith)
