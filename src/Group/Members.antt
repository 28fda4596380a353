-- ===== src/Group/Members.antt =====
-- add_sender_to_group and add_receiver_to_group of project2/grpmsgdef.c.
use cs551_assignments.Common.{
  ℕ, ◌+◌, ◌==◌, ltb, if◌then◌else◌, Text, length, set, get_elem?, Option, none, some, Run, ok,
  fault, ◌>>=◌, in_range, Search, found, absent, outside,
}
use cs551_assignments.Group.Defs.{
  messaging_success, inp_err_null_group_name, group_not_found, duplicate_sender, duplicate_receiver,
  SenderList, ReceiverList, MsgListPerGroup, Groups, find_open, get_sender_id, get_receiver_id,
}
use cs551_assignments.Group.Admin.{Call}

-- `list[curr_num] = id; curr_num++`: a write past the array is a fault.
abbrev pub append_sender : SenderList → ℕ → Run SenderList
append_sender l id =
    if ltb l.curr_num (length l.sender_list)
    then ok (record { sender_list = set l.sender_list l.curr_num id; curr_num = l.curr_num + 1 })
    else fault

abbrev pub append_receiver : ReceiverList → ℕ → Run ReceiverList
append_receiver l id =
    if ltb l.curr_num (length l.receiver_list)
    then ok
        (record { receiver_list = set l.receiver_list l.curr_num id; curr_num = l.curr_num + 1 })
    else fault

unfoldable pub sender_checked : ℕ → ℕ → Groups → MsgListPerGroup → Search → Call
sender_checked id i s g (found j) = ok (duplicate_sender, s)
sender_checked id i s g absent = do
  l ← append_sender g.senders id
  ok (messaging_success, record s { groups_list = set s.groups_list i (record g { senders = l }) })
sender_checked id i s g outside = fault

unfoldable pub sender_slot : ℕ → Groups → Search → Call
sender_slot id s (found i) = do
  g ← in_range (get_elem? s.groups_list i)
  sender_checked id i s g (get_sender_id g id)
sender_slot id s absent = ok (group_not_found, s)
sender_slot id s outside = fault

unfoldable pub add_sender_to_group : Option Text → ℕ → Groups → Call
unfolding sender_slot sender_checked
add_sender_to_group none id s = ok (inp_err_null_group_name, s)
add_sender_to_group (some name) id s =
    if length name == 0
    then ok (inp_err_null_group_name, s)
    else sender_slot id s (find_open name s)

unfoldable pub receiver_checked : ℕ → ℕ → Groups → MsgListPerGroup → Search → Call
receiver_checked id i s g (found j) = ok (duplicate_receiver, s)
receiver_checked id i s g absent = do
  l ← append_receiver g.receivers id
  ok (
    messaging_success,
    record s { groups_list = set s.groups_list i (record g { receivers = l }) },
  )
receiver_checked id i s g outside = fault

unfoldable pub receiver_slot : ℕ → Groups → Search → Call
receiver_slot id s (found i) = do
  g ← in_range (get_elem? s.groups_list i)
  receiver_checked id i s g (get_receiver_id g id)
receiver_slot id s absent = ok (group_not_found, s)
receiver_slot id s outside = fault

-- Unlike the other calls, this one takes an empty name.
unfoldable pub add_receiver_to_group : Option Text → ℕ → Groups → Call
unfolding receiver_slot receiver_checked
add_receiver_to_group none id s = ok (inp_err_null_group_name, s)
add_receiver_to_group (some name) id s = receiver_slot id s (find_open name s)
