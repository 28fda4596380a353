-- ===== src/Group/Messages.antt =====
-- sendmsg and receivemsg of project2/grpmsgdef.c.
use cs551_assignments.Common.{
  ℕ, zero, suc, ◌+◌, Bool, true, false, ◌==◌, ltb, if◌then◌else◌, List, [], ◌∷◌, Text, length, set,
  get_elem?, Option, none, some, Run, ok, fault, ◌>>=◌, in_range, Search, found, absent, outside,
  after, search,
}
use cs551_assignments.Group.Defs.{
  max_items, max_mesg_len, Code, messaging_success, inp_err_null_group_name, group_not_found,
  msg_len_overflow_error, buffer_overflow, not_receiver_of_group, buffer_underflow, Item,
  MsgListPerGroup, Groups, find_open, get_receiver_id, find_empty_item_slot,
}
use cs551_assignments.Group.Admin.{Call}

abbrev pub set_item : ℕ → ℕ → MsgListPerGroup → Groups → Item → Groups
set_item i j g s m = record s {
  groups_list =
      set s.groups_list i
        (record g { i_list = record (g.i_list) { items_list = set g.i_list.items_list j m } });
}

-- `strcpy` into `Mesg`, with its NUL, stays inside for a text shorter than the array only.
abbrev pub filled : Text → Item → Run Item
filled mesg m =
    if ltb (length mesg) max_mesg_len
    then ok (record m { mesg = mesg; num_of_read_complete = 0; deleted_flag = false })
    else fault

unfoldable pub send_item : Text → ℕ → MsgListPerGroup → Groups → Search → Call
send_item mesg i g s (found j) = do
  m ← in_range (get_elem? g.i_list.items_list j)
  m' ← filled mesg m
  ok (messaging_success, set_item i j g s m')
send_item mesg i g s absent = ok (buffer_overflow, s)
send_item mesg i g s outside = fault

unfoldable pub send_slot : Text → Groups → Search → Call
send_slot mesg s (found i) = do
  g ← in_range (get_elem? s.groups_list i)
  send_item mesg i g s (find_empty_item_slot g)
send_slot mesg s absent = ok (group_not_found, s)
send_slot mesg s outside = fault

unfoldable pub sendmsg : Option Text → Text → Groups → Call
unfolding send_slot send_item
sendmsg none mesg s = ok (inp_err_null_group_name, s)
sendmsg (some name) mesg s =
    if length name == 0
    then ok (inp_err_null_group_name, s)
    else if ltb max_mesg_len (length mesg)
    then ok (msg_len_overflow_error, s)
    else send_slot mesg s (find_open name s)

-- What receivemsg returns: its code, the text that it wrote to `*mesg`, if it did, and the table.
abbrev pub Received : Type 0
Received = Run (Code × Option Text × Groups)

-- The inner loop, `isReadFlag`.
unfoldable pub is_read : ℕ → Item → Search
is_read id m = search (λ x. x == id) m.num_of_read_complete m.readers

-- An item is passed over if it is deleted or was read, and else the loop stops at it.
abbrev pub unread_or : Bool → Search → Search → Search
unread_or true _ rest = rest
unread_or false (found _) rest = rest
unread_or false absent rest = found 0
unread_or false outside rest = outside

-- The outer loop: the first item that is there and is not read.
unfoldable pub find_unread : ℕ → ℕ → List Item → Search
find_unread id zero ms = absent
find_unread id (suc n) [] = outside
find_unread id (suc n) (m ∷ ms) =
    unread_or m.deleted_flag (is_read id m) (after (find_unread id n ms))

-- `ReceiverList[num_of_read_complete++] = id`, and the flag if all receivers have read it.
abbrev pub mark_read : ℕ → ℕ → Item → Run Item
mark_read id num_receivers m =
    if ltb m.num_of_read_complete (length m.readers)
    then ok (record m {
      readers = set m.readers m.num_of_read_complete id;
      num_of_read_complete = m.num_of_read_complete + 1;
      deleted_flag = m.num_of_read_complete + 1 == num_receivers;
    })
    else fault

-- `strcpy(temp, Mesg); strcpy(*mesg, temp)`, through an array of MAX_MESG_LEN bytes.
abbrev pub copied : Text → Run Text
copied mesg = if ltb (length mesg) max_mesg_len then ok mesg else fault

unfoldable pub receive_item : ℕ → ℕ → MsgListPerGroup → Groups → Search → Received
receive_item id i g s (found j) = do
  m ← in_range (get_elem? g.i_list.items_list j)
  text ← copied m.mesg
  m' ← mark_read id g.receivers.curr_num m
  ok (messaging_success, some text, set_item i j g s m')
receive_item id i g s absent = ok (buffer_underflow, none, s)
receive_item id i g s outside = fault

unfoldable pub receive_member : ℕ → ℕ → MsgListPerGroup → Groups → Search → Received
receive_member id i g s (found _) =
    receive_item id i g s (find_unread id max_items g.i_list.items_list)
receive_member id i g s absent = ok (not_receiver_of_group, none, s)
receive_member id i g s outside = fault

unfoldable pub receive_slot : ℕ → Groups → Search → Received
receive_slot id s (found i) = do
  g ← in_range (get_elem? s.groups_list i)
  receive_member id i g s (get_receiver_id g id)
receive_slot id s absent = ok (group_not_found, none, s)
receive_slot id s outside = fault

unfoldable pub receivemsg : Option Text → ℕ → Groups → Received
unfolding receive_slot receive_member receive_item
receivemsg none id s = ok (inp_err_null_group_name, none, s)
receivemsg (some name) id s =
    if length name == 0
    then ok (inp_err_null_group_name, none, s)
    else receive_slot id s (find_open name s)
