-- ===== src/Group/History/Flags.antt =====
-- Members and messages change neither `numGroups` nor which groups are open.
use cs551_assignments.Common.{
  Bool-cases, Option-cases, Outcome, Search, Text, absent, found, get_elem?, in_range, inl, inr,
  length, ltb, outside, refl, some, ℕ, ◌==◌, ◌>>=◌, ◌≡◌,
}
use cs551_assignments.Group.Defs.{
  Groups, MsgListPerGroup, find_empty_item_slot, find_open, get_receiver_id, get_sender_id,
  max_items, max_mesg_len,
}
use cs551_assignments.Group.Admin.{Call}
use cs551_assignments.Group.Members.{
  add_receiver_to_group, add_sender_to_group, receiver_checked, receiver_slot, sender_checked,
  sender_slot,
}
use cs551_assignments.Group.Messages.{
  Received, find_unread, receive_item, receive_member, receive_slot, receivemsg, send_item,
  send_slot, sendmsg,
}
use cs551_assignments.Group.Counting.{count_open, count_open-set_same}

abbrev pub SameFlags : Groups → Groups → Type 0
SameFlags s t =
    (t.num_groups ≡ s.num_groups) × (count_open t.groups_list ≡ count_open s.groups_list)

abbrev pub Leaves : Groups → Call → Type 0
Leaves s = Outcome (λ (c, t). SameFlags s t) (Unit {0})

abbrev LeavesR : Groups → Received → Type 0
LeavesR s = Outcome (λ (c, text, t). SameFlags s t) (Unit {0})

sender_checked-Leaves :
    (id i : ℕ) (s : Groups) (g : MsgListPerGroup) (r : Search)
    → get_elem? s.groups_list i ≡ some g
    → Leaves s (sender_checked id i s g r)
unfolding sender_checked
sender_checked-Leaves id i s g (found j) e = (refl, refl)
sender_checked-Leaves id i s g absent e =
    elim (Bool-cases (ltb g.senders.curr_num (length g.senders.sender_list))) [
      | inl room ↦ rw room (refl, count_open-set_same s.groups_list i g _ e refl)
      | inr full ↦ rw full tt
    ]
sender_checked-Leaves id i s g outside e = tt

receiver_checked-Leaves :
    (id i : ℕ) (s : Groups) (g : MsgListPerGroup) (r : Search)
    → get_elem? s.groups_list i ≡ some g
    → Leaves s (receiver_checked id i s g r)
unfolding receiver_checked
receiver_checked-Leaves id i s g (found j) e = (refl, refl)
receiver_checked-Leaves id i s g absent e =
    elim (Bool-cases (ltb g.receivers.curr_num (length g.receivers.receiver_list))) [
      | inl room ↦ rw room (refl, count_open-set_same s.groups_list i g _ e refl)
      | inr full ↦ rw full tt
    ]
receiver_checked-Leaves id i s g outside e = tt

send_item-Leaves :
    (mesg : Text) (i : ℕ) (s : Groups) (g : MsgListPerGroup) (r : Search)
    → get_elem? s.groups_list i ≡ some g
    → Leaves s (send_item mesg i g s r)
unfolding send_item
send_item-Leaves mesg i s g (found j) e = elim (Option-cases (get_elem? g.i_list.items_list j)) [
  | inl gone ↦ rw gone tt
  | inr (m, at) ↦ elim (Bool-cases (ltb (length mesg) max_mesg_len)) [
    | inl room ↦ rw (at, room) (refl, count_open-set_same s.groups_list i g _ e refl)
    | inr full ↦ rw (at, full) tt
  ]
]
send_item-Leaves mesg i s g absent e = (refl, refl)
send_item-Leaves mesg i s g outside e = tt

receive_item-Leaves :
    (id i : ℕ) (s : Groups) (g : MsgListPerGroup) (r : Search)
    → get_elem? s.groups_list i ≡ some g
    → LeavesR s (receive_item id i g s r)
unfolding receive_item
receive_item-Leaves id i s g (found j) e = elim (Option-cases (get_elem? g.i_list.items_list j)) [
  | inl gone ↦ rw gone tt
  | inr (m, at) ↦ elim (Bool-cases (ltb (length m.mesg) max_mesg_len)) [
    | inl fits ↦ elim (Bool-cases (ltb m.num_of_read_complete (length m.readers))) [
      | inl room ↦ rw (at, fits, room) (refl, count_open-set_same s.groups_list i g _ e refl)
      | inr full ↦ rw (at, fits, full) tt
    ]
    | inr over ↦ rw (at, over) tt
  ]
]
receive_item-Leaves id i s g absent e = (refl, refl)
receive_item-Leaves id i s g outside e = tt

-- The part that the four calls share: the group is found, or the call returns at once.
slot-Leaves :
    (s : Groups) (i : ℕ) (k : MsgListPerGroup → Call)
    → ((g : MsgListPerGroup) → get_elem? s.groups_list i ≡ some g → Leaves s (k g))
    → Leaves s (in_range (get_elem? s.groups_list i) >>= k)
slot-Leaves s i k h = elim (Option-cases (get_elem? s.groups_list i)) [
  | inl gone ↦ rw gone tt
  | inr (g, at) ↦ rw at (h g at)
]

pub add_sender-Leaves :
    (name : Text) (id : ℕ) (s : Groups) → Leaves s (add_sender_to_group (some name) id s)
unfolding add_sender_to_group
add_sender-Leaves name id s = elim (Bool-cases (length name == 0)) [
  | inl z ↦ rw z (refl, refl)
  | inr z ↦ rw z (slot (find_open name s))
]
  where
    slot : (r : Search) → Leaves s (sender_slot id s r)
    slot (found i) = slot-Leaves s i _ λ g e. sender_checked-Leaves id i s g (get_sender_id g id) e
    slot absent = (refl, refl)
    slot outside = tt

pub add_receiver-Leaves :
    (name : Text) (id : ℕ) (s : Groups) → Leaves s (add_receiver_to_group (some name) id s)
unfolding add_receiver_to_group
add_receiver-Leaves name id s = slot (find_open name s)
  where
    slot : (r : Search) → Leaves s (receiver_slot id s r)
    slot (found i) =
        slot-Leaves s i _ λ g e. receiver_checked-Leaves id i s g (get_receiver_id g id) e
    slot absent = (refl, refl)
    slot outside = tt

pub sendmsg-Leaves : (name mesg : Text) (s : Groups) → Leaves s (sendmsg (some name) mesg s)
unfolding sendmsg
sendmsg-Leaves name mesg s = elim (Bool-cases (length name == 0)) [
  | inl z ↦ rw z (refl, refl)
  | inr z ↦ elim (Bool-cases (ltb max_mesg_len (length mesg))) [
    | inl l ↦ rw (z, l) (refl, refl)
    | inr l ↦ rw (z, l) (slot (find_open name s))
  ]
]
  where
    slot : (r : Search) → Leaves s (send_slot mesg s r)
    slot (found i) =
        unfold send_slot in
        slot-Leaves s i _ λ g e. send_item-Leaves mesg i s g (find_empty_item_slot g) e
    slot absent = unfold send_slot in (refl, refl)
    slot outside = unfold send_slot in tt

pub receivemsg-Leaves :
    (name : Text) (id : ℕ) (s : Groups) → LeavesR s (receivemsg (some name) id s)
unfolding receivemsg receive_slot receive_member
receivemsg-Leaves name id s = elim (Bool-cases (length name == 0)) [
  | inl z ↦ rw z (refl, refl)
  | inr z ↦ rw z (slot (find_open name s))
]
  where
    member :
        (i : ℕ) (g : MsgListPerGroup) (r : Search)
        → get_elem? s.groups_list i ≡ some g
        → LeavesR s (receive_member id i g s r)
    member i g (found j) e =
        receive_item-Leaves id i s g (find_unread id max_items g.i_list.items_list) e
    member i g absent e = (refl, refl)
    member i g outside e = tt

    slot : (r : Search) → LeavesR s (receive_slot id s r)
    slot (found i) = elim (Option-cases (get_elem? s.groups_list i)) [
      | inl gone ↦ rw gone tt
      | inr (g, at) ↦ rw at (member i g (get_receiver_id g id) at)
    ]
    slot absent = (refl, refl)
    slot outside = tt
