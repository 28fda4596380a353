-- ===== src/Group/Tests/Deliveries.antt =====
-- What is delivered, at concrete tables.
use cs551_assignments.Common.{
  All, arith, false, found, get_elem?, ok, refl, search, some, strncmp_eq, take, ℕ, ◌+ℤ◌, ◌≡◌,
}
use cs551_assignments.Group.Defs.{
  Groups, Item, MsgListPerGroup, duplicate_receiver, find_empty_group_slot, find_empty_item_slot,
  find_named, find_open, get_receiver_id, groups_init, messaging_success,
}
use cs551_assignments.Group.Admin.{opengroup}
use cs551_assignments.Group.Members.{add_receiver_to_group}
use cs551_assignments.Group.Messages.{
  find_unread, is_read, receive_item, receive_member, receive_slot, receivemsg, send_item,
  send_slot, sendmsg,
}
use cs551_assignments.Group.Delivery.{DeliversFirst, Receives, receivemsg-DeliversFirst}
use cs551_assignments.Group.Order.{
  IsStored, ReceivesAfter, receivemsg-ReceivesAfter, sendmsg_overtakes,
}
use cs551_assignments.Group.History.Reach.{Reach-IsSound}
use cs551_assignments.Group.Invariant.Table.{IsValid}
use cs551_assignments.Group.Tests.{
  Reach-read, Reach-two, group_at, hello, hey, joins_7, name_a, read_by_7, read_by_8, receives_7,
  with_7, with_a, with_two,
}
use cs551_assignments.Group.Twice.{add_receiver-again}

abbrev group_a : MsgListPerGroup
group_a = group_at 0 with_two

member_7 : Receives name_a 7 with_two 0 group_a
unfolding groups_init opengroup add_receiver_to_group find_open get_receiver_id find_named
    find_empty_group_slot search strncmp_eq ◌+ℤ◌ sendmsg find_empty_item_slot send_slot send_item
member_7 = record { named = refl; finds = refl; at = refl; place = 0; member = refl }

IsValid-two : IsValid with_two
IsValid-two = (Reach-IsSound Reach-two).0

receivemsg-DeliversFirst_example :
    DeliversFirst 7 0 group_a with_two (receivemsg (some name_a) 7 with_two)
receivemsg-DeliversFirst_example =
    receivemsg-DeliversFirst name_a 7 0 with_two group_a IsValid-two member_7

receivemsg-ReceivesAfter_example :
    (j : ℕ) × (m : Item) × (get_elem? group_a.i_list.items_list j ≡ some m)
    × (m.mesg ≡ hello)
    × ReceivesAfter name_a 7 0 j group_a read_by_7
receivemsg-ReceivesAfter_example =
    receivemsg-ReceivesAfter name_a hello 7 0 with_two read_by_7 group_a IsValid-two member_7
      receives_7

-- Slot 0 is free again, and the second message still waits in slot 1.
abbrev emptied_a : MsgListPerGroup
emptied_a = group_at 0 read_by_8

member_7_later : Receives name_a 7 read_by_8 0 emptied_a
unfolding groups_init opengroup add_receiver_to_group find_open get_receiver_id find_named
    find_empty_group_slot search strncmp_eq ◌+ℤ◌ sendmsg find_empty_item_slot send_slot send_item
    receivemsg receive_slot receive_member receive_item find_unread is_read
member_7_later = record { named = refl; finds = refl; at = refl; place = 0; member = refl }

slot_0_is_free : find_empty_item_slot emptied_a ≡ found 0
unfolding groups_init opengroup add_receiver_to_group find_open get_receiver_id find_named
    find_empty_group_slot search strncmp_eq ◌+ℤ◌ sendmsg find_empty_item_slot send_slot send_item
    receivemsg receive_slot receive_member receive_item find_unread is_read
slot_0_is_free = refl

sendmsg_overtakes_example :
    All (λ m. m.deleted_flag ≡ false) (take 0 emptied_a.i_list.items_list)
    × (t : Groups) × (sendmsg (some name_a) hey read_by_8 ≡ ok (messaging_success, t))
    × IsStored hey 0 0 t
    × (u : Groups) × (receivemsg (some name_a) 7 t ≡ ok (messaging_success, some hey, u))
sendmsg_overtakes_example =
    sendmsg_overtakes name_a hey 7 0 0 read_by_8 emptied_a (Reach-IsSound Reach-read).0
      member_7_later (omega arith) slot_0_is_free tt

add_receiver-again_example :
    add_receiver_to_group (some name_a) 7 with_7 ≡ ok (duplicate_receiver, with_7)
add_receiver-again_example = add_receiver-again name_a 7 with_a with_7 joins_7
