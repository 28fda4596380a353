-- ===== src/Group/Invariant/Table.antt =====
-- What a well-formed table is.
use cs551_assignments.Common.{
  ℕ, ◌≤◌, ◌<◌, ◌≡◌, refl, sym, subst, ap, ◌∙◌, false, List, [], ◌∷◌, some, get_elem?, set, take,
  length, length-set, map, length-map, pos_part, All, All-get, All-set, All-replicate, IsDistinct,
  IsSubset, arith,
}
use cs551_assignments.Group.Defs.{
  Item, SenderList, ReceiverList, MsgListPerGroup, Groups, max_groups, max_senders, max_receivers,
  max_items, max_mesg_len, max_group_name_len, groups_init, zero_group, zero_item,
}
use cs551_assignments.Group.Admin.{mark_deleted, reset_items, opened}

-- The readers of an item that is there are distinct receivers of its group.
pub record IsValidItem (rs : List ℕ) (m : Item) : Type 0 where
  pub size : length m.readers ≡ max_receivers
  pub fits : length m.mesg < max_mesg_len
  pub bounded : m.deleted_flag ≡ false → m.num_of_read_complete ≤ max_receivers
  pub distinct : m.deleted_flag ≡ false → IsDistinct (take m.num_of_read_complete m.readers)
  pub members : m.deleted_flag ≡ false → IsSubset (take m.num_of_read_complete m.readers) rs

abbrev pub receivers_of : MsgListPerGroup → List ℕ
receivers_of g = take g.receivers.curr_num g.receivers.receiver_list

abbrev pub senders_of : MsgListPerGroup → List ℕ
senders_of g = take g.senders.curr_num g.senders.sender_list

pub record IsValidSenders (l : SenderList) : Type 0 where
  pub size : length l.sender_list ≡ max_senders
  pub bounded : l.curr_num ≤ max_senders
  pub distinct : IsDistinct (take l.curr_num l.sender_list)

pub record IsValidReceivers (l : ReceiverList) : Type 0 where
  pub size : length l.receiver_list ≡ max_receivers
  pub bounded : l.curr_num ≤ max_receivers
  pub distinct : IsDistinct (take l.curr_num l.receiver_list)

pub record IsValidGroup (g : MsgListPerGroup) : Type 0 where
  pub short : length g.group_name ≤ max_group_name_len
  pub senders : IsValidSenders g.senders
  pub receivers : IsValidReceivers g.receivers
  pub slots : length g.i_list.items_list ≡ max_items
  pub items : All (IsValidItem (receivers_of g)) g.i_list.items_list

pub record IsValid (s : Groups) : Type 0 where
  pub size : length s.groups_list ≡ max_groups
  pub groups : All IsValidGroup s.groups_list

-- The searches up to `numGroups` stay inside the table.
abbrev pub IsInside : Groups → Type 0
IsInside s = pos_part s.num_groups ≤ max_groups

pub get-IsValidGroup :
    (s : Groups) (i : ℕ) {g : MsgListPerGroup}
    → IsValid s
    → get_elem? s.groups_list i ≡ some g
    → IsValidGroup g
get-IsValidGroup s i v e = All-get IsValidGroup s.groups_list i v.groups e

-- A table with one group replaced.
pub set-IsValid :
    (s t : Groups) (i : ℕ) (g : MsgListPerGroup)
    → IsValid s
    → IsValidGroup g
    → t.groups_list ≡ set s.groups_list i g
    → IsValid t
set-IsValid s t i g v w e = record {
  size = ap length e ∙ length-set s.groups_list i g ∙ v.size;
  groups = subst (All IsValidGroup) (sym e) (All-set IsValidGroup s.groups_list i g v.groups w);
}

-- A deleted item needs no more than its array and a text that fits.
mark_deleted-IsValid :
    (rs ts : List ℕ) (ms : List Item)
    → All (IsValidItem rs) ms
    → All (IsValidItem ts) (map mark_deleted ms)
mark_deleted-IsValid rs ts [] v = tt
mark_deleted-IsValid rs ts (m ∷ ms) v = (
  record {
    size = v.0.size;
    fits = v.0.fits;
    bounded = λ e. cc;
    distinct = λ e. cc;
    members = λ e. cc;
  },
  mark_deleted-IsValid rs ts ms v.1,
)

pub reset_items-IsValid : (g : MsgListPerGroup) → IsValidGroup g → IsValidGroup (reset_items g)
reset_items-IsValid g v = record {
  short = v.short;
  senders = v.senders;
  receivers = v.receivers;
  slots = length-map mark_deleted g.i_list.items_list ∙ v.slots;
  items = mark_deleted-IsValid _ _ g.i_list.items_list v.items;
}

pub opened-IsValid :
    (name : List ℕ) (g : MsgListPerGroup)
    → length name ≤ max_group_name_len
    → IsValidGroup g
    → IsValidGroup (opened name g)
opened-IsValid name g h v = record {
  short = h;
  senders = record { size = v.senders.size; bounded = omega arith; distinct = tt };
  receivers = record { size = v.receivers.size; bounded = omega arith; distinct = tt };
  slots = length-map mark_deleted g.i_list.items_list ∙ v.slots;
  items = mark_deleted-IsValid _ _ g.i_list.items_list v.items;
}

zero_item-IsValid : IsValidItem [] zero_item
zero_item-IsValid = record {
  size = refl;
  fits = omega arith;
  bounded = λ e. omega arith;
  distinct = λ e. tt;
  members = λ e a h. h;
}

zero_group-IsValid : IsValidGroup zero_group
zero_group-IsValid = record {
  short = omega arith;
  senders = record { size = refl; bounded = omega arith; distinct = tt };
  receivers = record { size = refl; bounded = omega arith; distinct = tt };
  slots = refl;
  items = All-replicate (IsValidItem []) max_items zero_item zero_item-IsValid;
}

pub groups_init-IsValid : IsValid groups_init × IsInside groups_init
unfolding groups_init
groups_init-IsValid = (
  record {
    size = refl;
    groups = All-replicate IsValidGroup max_groups zero_group zero_group-IsValid;
  },
  omega arith,
)
