-- ===== src/Group/Defs.antt =====
-- The data of project2/grpmsgdef.h and the searches of project2/grpmsgdef.c. An array is the list
-- of all its elements. Ids are `int`s that are only compared, each given by its bit pattern. The
-- flags hold 0 or 1, and are Booleans.
use cs551_assignments.Common.{
  ℕ, Bool, false, not, ◌&&◌, List, Text, ℤ, pos, pos_part, length, ◌==◌, strncmp_eq, replicate, [],
  Search, search,
}

abbrev pub max_groups : ℕ
max_groups = 10

abbrev pub max_receivers : ℕ
max_receivers = 10

abbrev pub max_senders : ℕ
max_senders = 10

abbrev pub max_group_name_len : ℕ
max_group_name_len = 100

abbrev pub max_mesg_len : ℕ
max_mesg_len = 100

abbrev pub max_groups_size : ℕ
max_groups_size = 1200

abbrev pub max_items : ℕ
max_items = 50

-- `MessagingErrorCodes`.
pub data Code : Type 0 where
  messaging_success inp_err_null_group_name group_name_len_overflow : Code
  group_not_found duplicate_sender duplicate_receiver : Code
  msg_len_overflow_error buffer_overflow not_receiver_of_group : Code
  buffer_underflow duplicate_group groups_full group_closed : Code

pub record SenderList : Type 0 where
  pub sender_list : List ℕ
  pub curr_num : ℕ

pub record ReceiverList : Type 0 where
  pub receiver_list : List ℕ
  pub curr_num : ℕ

pub record Item : Type 0 where
  pub mesg : Text
  pub readers : List ℕ
  pub num_of_read_complete : ℕ
  pub deleted_flag : Bool

pub record ItemsList : Type 0 where
  pub items_list : List Item
  pub curr_num : ℕ

pub record MsgListPerGroup : Type 0 where
  pub group_name : Text
  pub senders : SenderList
  pub receivers : ReceiverList
  pub i_list : ItemsList
  pub open_flag : Bool

pub record Groups : Type 0 where
  pub groups_list : List MsgListPerGroup
  pub num_groups : ℤ

-- What `memset(GroupsList, 0, sizeof(GroupsList))` leaves in each part.
abbrev pub zero_item : Item
zero_item = record {
  mesg = [];
  readers = replicate max_receivers 0;
  num_of_read_complete = 0;
  deleted_flag = false;
}

abbrev pub zero_group : MsgListPerGroup
zero_group = record {
  group_name = [];
  senders = record { sender_list = replicate max_senders 0; curr_num = 0 };
  receivers = record { receiver_list = replicate max_receivers 0; curr_num = 0 };
  i_list = record { items_list = replicate max_items zero_item; curr_num = 0 };
  open_flag = false;
}

unfoldable pub groups_init : Groups
groups_init = record { groups_list = replicate max_groups zero_group; num_groups = pos 0 }

-- `strncmp(GroupsList[i].group_name, group_name, strlen(group_name)) == 0`.
abbrev pub is_named : Text → MsgListPerGroup → Bool
is_named name g = strncmp_eq (length name) g.group_name name

-- The loop of opengroup, closegroup and recovergroup, over every slot.
unfoldable pub find_named : Text → Groups → Search
find_named name s = search (is_named name) max_groups s.groups_list

-- The loop of the other calls, over the first `numGroups` slots and the open groups there.
abbrev pub is_open_named : Text → MsgListPerGroup → Bool
is_open_named name g = g.open_flag && is_named name g

unfoldable pub find_open : Text → Groups → Search
find_open name s = search (is_open_named name) (pos_part s.num_groups) s.groups_list

unfoldable pub get_sender_id : MsgListPerGroup → ℕ → Search
get_sender_id g id = search (λ x. x == id) g.senders.curr_num g.senders.sender_list

unfoldable pub get_receiver_id : MsgListPerGroup → ℕ → Search
get_receiver_id g id = search (λ x. x == id) g.receivers.curr_num g.receivers.receiver_list

unfoldable pub find_empty_group_slot : Groups → Search
find_empty_group_slot s = search (λ g. not g.open_flag) max_groups s.groups_list

unfoldable pub find_empty_item_slot : MsgListPerGroup → Search
find_empty_item_slot g = search (λ m. m.deleted_flag) max_items g.i_list.items_list
