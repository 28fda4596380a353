-- ===== src/Group/Admin.antt =====
-- opengroup, closegroup, recovergroup and lookup_groups of project2/grpmsgdef.c. A null pointer for
-- a name is `none`. A call returns its code and the table.
use cs551_assignments.Common.{
  ℕ, zero, suc, true, false, ◌==◌, ltb, if◌then◌else◌, List, [], ◌∷◌, ◌++◌, map, Text, length, set,
  get_elem?, Option, none, some, Run, ok, fault, ◌>>=◌, in_range, Search, found, absent, outside,
  pos, ◌+ℤ◌, ◌-ℤ◌,
}
use cs551_assignments.Group.Defs.{
  max_groups, max_group_name_len, Code, messaging_success, inp_err_null_group_name,
  group_name_len_overflow, group_not_found, duplicate_group, groups_full, Item, MsgListPerGroup,
  Groups, find_named, find_empty_group_slot,
}

abbrev pub Call : Type 0
Call = Run (Code × Groups)

abbrev pub mark_deleted : Item → Item
mark_deleted m = record m { deleted_flag = true }

-- The checks that the three calls make of the name, before they look at the table.
abbrev pub with_name : Option Text → Groups → (Text → Call) → Call
with_name none s k = ok (inp_err_null_group_name, s)
with_name (some name) s k =
    if length name == 0
    then ok (inp_err_null_group_name, s)
    else if ltb max_group_name_len (length name)
    then ok (group_name_len_overflow, s)
    else k name

abbrev pub reset_items : MsgListPerGroup → MsgListPerGroup
reset_items g = record g {
  i_list = record { items_list = map mark_deleted g.i_list.items_list; curr_num = 0 };
}

abbrev pub opened : Text → MsgListPerGroup → MsgListPerGroup
opened name g = record (reset_items g) {
  group_name = name;
  senders = record (g.senders) { curr_num = 0 };
  receivers = record (g.receivers) { curr_num = 0 };
  open_flag = true;
}

unfoldable pub open_slot : Text → Groups → Search → Call
open_slot name s (found i) = do
  g ← in_range (get_elem? s.groups_list i)
  ok (
    messaging_success,
    record s {
      groups_list = set s.groups_list i (opened name g);
      num_groups = s.num_groups +ℤ pos 1;
    },
  )
open_slot name s absent = ok (groups_full, s)
open_slot name s outside = fault

unfoldable pub open_checked : Text → Groups → Search → Call
open_checked name s (found i) = ok (duplicate_group, s)
open_checked name s absent = open_slot name s (find_empty_group_slot s)
open_checked name s outside = fault

unfoldable pub opengroup : Option Text → Groups → Call
unfolding open_slot open_checked
opengroup name s = with_name name s λ n. open_checked n s (find_named n s)

unfoldable pub close_slot : Groups → Search → Call
close_slot s (found i) = do
  g ← in_range (get_elem? s.groups_list i)
  ok (
    messaging_success,
    record s {
      groups_list = set s.groups_list i (record g { open_flag = false });
      num_groups = s.num_groups -ℤ pos 1;
    },
  )
close_slot s absent = ok (group_not_found, s)
close_slot s outside = fault

unfoldable pub closegroup : Option Text → Groups → Call
unfolding close_slot
closegroup name s = with_name name s λ n. close_slot s (find_named n s)

unfoldable pub recover_slot : Groups → Search → Call
recover_slot s (found i) = do
  g ← in_range (get_elem? s.groups_list i)
  ok (
    messaging_success,
    record s {
      groups_list = set s.groups_list i (record (reset_items g) { open_flag = true });
      num_groups = s.num_groups +ℤ pos 1;
    },
  )
recover_slot s absent = ok (group_not_found, s)
recover_slot s outside = fault

unfoldable pub recovergroup : Option Text → Groups → Call
unfolding recover_slot
recovergroup name s = with_name name s λ n. recover_slot s (find_named n s)

-- The loop of lookup_groups: it ends at the first group that is not open.
unfoldable pub names_from : ℕ → List MsgListPerGroup → Run Text
names_from zero gs = ok []
names_from (suc n) [] = fault
names_from (suc n) (g ∷ gs) =
    let rest = names_from n gs in
    if g.open_flag then (do names ← rest; ok (g.group_name ++ b';' ∷ names)) else ok []

-- The text that lookup_groups leaves in its argument. It changes nothing else, and succeeds.
unfoldable pub lookup_groups : Groups → Run Text
unfolding names_from
lookup_groups s = names_from max_groups s.groups_list
