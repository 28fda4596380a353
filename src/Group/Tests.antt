-- ===== src/Group/Tests.antt =====
-- Runs of the group table of project2/grpmsgdef.c. The children apply its theorems to the tables
-- that these runs leave.
mod Invariants
mod Deliveries
mod Counts
use cs551_assignments.Common.{
  Bool, Text, [], false, fault, found, get_elem?, none, ok, refl, search, some, strncmp_eq, true, ℕ,
  ◌+ℤ◌, ◌∷◌, ◌≡◌,
}
use cs551_assignments.Group.Defs.{
  Groups, MsgListPerGroup, find_empty_group_slot, find_empty_item_slot, find_named, find_open,
  get_receiver_id, groups_init, messaging_success, zero_group,
}
use cs551_assignments.Group.Admin.{Call, close_slot, closegroup, opengroup}
use cs551_assignments.Group.Members.{add_receiver_to_group}
use cs551_assignments.Group.Messages.{
  Received, find_unread, is_read, receive_item, receive_member, receive_slot, receivemsg, send_item,
  send_slot, sendmsg,
}
use cs551_assignments.Group.Counting.{FindsFlag}
use cs551_assignments.Group.History.Reach.{
  Reach, adds_receiver, closes, next, opens, receives, sends, start,
}

abbrev pub name_a : Text
name_a = b'a' ∷ []

abbrev pub name_b : Text
name_b = b'b' ∷ []

abbrev pub hello : Text
hello = b'h' ∷ b'i' ∷ []

-- The table that a call leaves, or the empty one.
abbrev pub left_by : Call → Groups
left_by (ok (c, t)) = t
left_by fault = groups_init

abbrev pub hey : Text
hey = b'h' ∷ b'e' ∷ b'y' ∷ []

abbrev pub left_by_receive : Received → Groups
left_by_receive (ok (c, text, t)) = t
left_by_receive fault = groups_init

-- Group a opened, joined by the receivers 7 and 8, and sent one message.
abbrev pub with_a : Groups
with_a = left_by (opengroup (some name_a) groups_init)

abbrev pub with_7 : Groups
with_7 = left_by (add_receiver_to_group (some name_a) 7 with_a)

abbrev pub with_8 : Groups
with_8 = left_by (add_receiver_to_group (some name_a) 8 with_7)

abbrev pub with_message : Groups
with_message = left_by (sendmsg (some name_a) hello with_8)

-- A second message is sent, and both receivers read the first.
abbrev pub with_two : Groups
with_two = left_by (sendmsg (some name_a) hello with_message)

abbrev pub read_by_7 : Groups
read_by_7 = left_by_receive (receivemsg (some name_a) 7 with_two)

abbrev pub read_by_8 : Groups
read_by_8 = left_by_receive (receivemsg (some name_a) 8 read_by_7)

-- Group a closed; and group b opened beside it.
abbrev pub closed_a : Groups
closed_a = left_by (closegroup (some name_a) with_a)

abbrev pub with_b : Groups
with_b = left_by (opengroup (some name_b) with_a)

abbrev pub group_at : ℕ → Groups → MsgListPerGroup
group_at i s = elim (get_elem? s.groups_list i) [ none ↦ zero_group | some g ↦ g ]

pub opens_a : opengroup (some name_a) groups_init ≡ ok (messaging_success, with_a)
unfolding groups_init opengroup add_receiver_to_group find_open get_receiver_id find_named
    find_empty_group_slot search strncmp_eq ◌+ℤ◌
opens_a = refl

pub opens_b : opengroup (some name_b) with_a ≡ ok (messaging_success, with_b)
unfolding groups_init opengroup add_receiver_to_group find_open get_receiver_id find_named
    find_empty_group_slot search strncmp_eq ◌+ℤ◌
opens_b = refl

pub joins_7 : add_receiver_to_group (some name_a) 7 with_a ≡ ok (messaging_success, with_7)
unfolding groups_init opengroup add_receiver_to_group find_open get_receiver_id find_named
    find_empty_group_slot search strncmp_eq ◌+ℤ◌
joins_7 = refl

joins_8 : add_receiver_to_group (some name_a) 8 with_7 ≡ ok (messaging_success, with_8)
unfolding groups_init opengroup add_receiver_to_group find_open get_receiver_id find_named
    find_empty_group_slot search strncmp_eq ◌+ℤ◌
joins_8 = refl

sends_hello : sendmsg (some name_a) hello with_8 ≡ ok (messaging_success, with_message)
unfolding groups_init opengroup add_receiver_to_group find_open get_receiver_id find_named
    find_empty_group_slot search strncmp_eq ◌+ℤ◌ sendmsg find_empty_item_slot send_slot send_item
sends_hello = refl

sends_again : sendmsg (some name_a) hello with_message ≡ ok (messaging_success, with_two)
unfolding groups_init opengroup add_receiver_to_group find_open get_receiver_id find_named
    find_empty_group_slot search strncmp_eq ◌+ℤ◌ sendmsg find_empty_item_slot send_slot send_item
sends_again = refl

pub receives_7 : receivemsg (some name_a) 7 with_two ≡ ok (messaging_success, some hello, read_by_7)
unfolding groups_init opengroup add_receiver_to_group find_open get_receiver_id find_named
    find_empty_group_slot search strncmp_eq ◌+ℤ◌ sendmsg find_empty_item_slot send_slot send_item
    receivemsg receive_slot receive_member receive_item find_unread is_read
receives_7 = refl

receives_8 : receivemsg (some name_a) 8 read_by_7 ≡ ok (messaging_success, some hello, read_by_8)
unfolding groups_init opengroup add_receiver_to_group find_open get_receiver_id find_named
    find_empty_group_slot search strncmp_eq ◌+ℤ◌ sendmsg find_empty_item_slot send_slot send_item
    receivemsg receive_slot receive_member receive_item find_unread is_read
receives_8 = refl

pub closes_a : closegroup (some name_a) with_a ≡ ok (messaging_success, closed_a)
unfolding groups_init opengroup add_receiver_to_group find_open get_receiver_id find_named
    find_empty_group_slot search strncmp_eq ◌+ℤ◌ closegroup close_slot
closes_a = refl

pub FindsFlag-at :
    (b : Bool) (name : Text) (s : Groups) (i : ℕ) (g : MsgListPerGroup)
    → find_named name s ≡ found i
    → get_elem? s.groups_list i ≡ some g
    → g.open_flag ≡ b
    → FindsFlag b name s
FindsFlag-at b name s i g e at f j h e' at' = let q : i ≡ j = cc in let r : g ≡ h = cc in cc

pub a_is_open : FindsFlag true name_a with_a
unfolding groups_init opengroup add_receiver_to_group find_open get_receiver_id find_named
    find_empty_group_slot search strncmp_eq ◌+ℤ◌
a_is_open = FindsFlag-at true name_a with_a 0 (group_at 0 with_a) refl refl refl

pub a_is_closed : FindsFlag false name_a closed_a
unfolding groups_init opengroup add_receiver_to_group find_open get_receiver_id find_named
    find_empty_group_slot search strncmp_eq ◌+ℤ◌ closegroup close_slot
a_is_closed = FindsFlag-at false name_a closed_a 0 (group_at 0 closed_a) refl refl refl

pub Reach-a : Reach with_a
Reach-a = next start (opens (some name_a) _ opens_a)

pub Reach-b : Reach with_b
Reach-b = next Reach-a (opens (some name_b) _ opens_b)

pub Reach-closed : Reach closed_a
Reach-closed = next Reach-a (closes name_a _ a_is_open closes_a)

pub Reach-8 : Reach with_8
Reach-8 = next (next Reach-a (adds_receiver name_a 7 _ joins_7)) (adds_receiver name_a 8 _ joins_8)

pub Reach-two : Reach with_two
Reach-two =
    next (next Reach-8 (sends name_a hello _ sends_hello)) (sends name_a hello _ sends_again)

pub Reach-read : Reach read_by_8
Reach-read =
    next (next Reach-two (receives name_a 7 _ _ receives_7)) (receives name_a 8 _ _ receives_8)
