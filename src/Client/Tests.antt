-- ===== src/Client/Tests.antt =====
-- The client's loops, at a concrete table.
use cs551_assignments.Common.{
  List, Run, [], ap, arith, false, fault, length, length-replicate, map, ok, pos, refl, replicate,
  search, some, strncmp_eq, suc, zero, ℕ, ℤ, ◌+ℤ◌, ◌<◌, ◌∷◌, ◌≡◌,
}
use cs551_assignments.Group.Defs.{
  Groups, MsgListPerGroup, find_empty_group_slot, find_empty_item_slot, find_named, find_open,
  get_receiver_id, groups_init,
}
use cs551_assignments.Group.Admin.{Call, closegroup, opengroup, recovergroup}
use cs551_assignments.Group.Members.{add_receiver_to_group, add_sender_to_group}
use cs551_assignments.Group.Messages.{is_read, send_item, send_slot, sendmsg}
use cs551_assignments.Group.Counting.{IsCounted-IsInside}
use cs551_assignments.Group.Delivery.{Receives}
use cs551_assignments.Group.History.Reach.{Reach-IsSound}
use cs551_assignments.Group.Invariant.Table.{IsInside, IsValid}
use cs551_assignments.Group.Tests.{group_at, name_a, Reach-two, with_two}
use cs551_assignments.Pm.Table.{code_value}
use cs551_assignments.Pm.Handlers.{mreceive, spare, Kernel, Message, c_string, group_name_of}
use cs551_assignments.Client.Main.{
  Calls, add_to_first, receive_all, received, returned, status, tokens, up_to_first,
}
use cs551_assignments.Client.Unread.{unread_texts}
use cs551_assignments.Client.Drain.{Serves, receive_all_lem, reply}

-- Buffers that hold the name "a".
buffer : ℕ → List ℕ
buffer zero = []
buffer (suc n) = b'a' ∷ replicate n 0

buffer-length : (n : ℕ) → length (buffer n) ≡ n
unfolding buffer
buffer-length zero = refl
buffer-length (suc n) = ap suc (length-replicate {A = ℕ} n 0)

abbrev kernel : Kernel
kernel = record {
  datacopy = λ source address bytes. buffer bytes;
  datacopy_size = λ source address bytes. buffer-length bytes;
}

abbrev message : Message
message = record { m_source = 3; m1_i1 = 7; m1_p1 = 1000; m1_p2 = 2000 }

abbrev status_of : Call → Run (ℤ × Groups)
status_of (ok (c, t)) = ok (pos (code_value c), t)
status_of fault = fault

abbrev calls : Calls Groups
calls = record {
  sys_gopen = λ name s. status_of (opengroup (some name) s);
  sys_gclose = λ name s. status_of (closegroup (some name) s);
  sys_grecover = λ name s. status_of (recovergroup (some name) s);
  sys_gsender = λ id name s. status_of (add_sender_to_group (some name) id s);
  sys_greceiver = λ id name s. status_of (add_receiver_to_group (some name) id s);
  sys_msend = λ name mesg s. status_of (sendmsg (some name) mesg s);
  sys_mreceive = λ name id s. reply (mreceive kernel spare (record message { m1_i1 = id }) s);
}

name_is_a : group_name_of kernel message ≡ ok name_a
unfolding group_name_of c_string buffer
name_is_a = refl

Serves-a : Serves calls name_a 7
Serves-a = record {
  kernel = kernel;
  message = message;
  named = name_is_a;
  receiver = refl;
  serves = λ s. refl;
}

abbrev group_a : MsgListPerGroup
group_a = group_at 0 with_two

member_7 : Receives name_a 7 with_two 0 group_a
unfolding groups_init opengroup add_receiver_to_group find_open get_receiver_id find_named
    find_empty_group_slot search strncmp_eq ◌+ℤ◌ sendmsg find_empty_item_slot send_slot send_item
member_7 = record { named = refl; finds = refl; at = refl; place = 0; member = refl }

valid : IsValid with_two
valid = (Reach-IsSound Reach-two).0

inside : IsInside with_two
inside = IsCounted-IsInside with_two valid (Reach-IsSound Reach-two).1

two_left : 0 < length (unread_texts 7 group_a.i_list.items_list)
unfolding groups_init opengroup add_receiver_to_group find_open get_receiver_id find_named
    find_empty_group_slot search strncmp_eq ◌+ℤ◌ sendmsg find_empty_item_slot send_slot send_item
    unread_texts is_read
two_left = omega arith

receive_all_lem_example :
    (t : Groups) × (receive_all calls name_a 7 51 with_two
      ≡ returned
          (status "MESSAGING_SUCCESS" ∷ map received (unread_texts 7 group_a.i_list.items_list))
          t)
receive_all_lem_example =
    receive_all_lem calls name_a 7 0 with_two group_a Serves-a valid inside member_7 two_left

-- Names between commas.
names_split :
    tokens (b',' ∷ b'a' ∷ b'b' ∷ b',' ∷ b',' ∷ b'c' ∷ []) ≡ (b'a' ∷ b'b' ∷ []) ∷ (b'c' ∷ []) ∷ []
unfolding tokens add_to_first
names_split = refl

first_name : up_to_first false (b',' ∷ b'a' ∷ b',' ∷ b'c' ∷ []) ≡ b',' ∷ b'a' ∷ []
unfolding up_to_first
first_name = refl

-- The names `ab` and `c`, between commas.
abbrev two_names : List ℕ
two_names = b',' ∷ b'a' ∷ b'b' ∷ b',' ∷ b',' ∷ b'c' ∷ []
