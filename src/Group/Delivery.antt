-- ===== src/Group/Delivery.antt =====
-- What receivemsg of project2/grpmsgdef.c delivers, and in which order.
use cs551_assignments.Group.Invariant.Traffic.Unread.{
  FindsUnread, IsSkipped, IsUnread, find_unread_lem,
}
use cs551_assignments.Group.Invariant.Traffic.Receive.{room_to_read}
use cs551_assignments.Group.Invariant.Table.{
  IsValid, IsValidGroup, IsValidItem, get-IsValidGroup, receivers_of,
}
use cs551_assignments.Common.{
  All, All-get, Search, Searched, Text, absent, arith, false, found, get_elem?, get_elem?-set_self,
  has, has_of_hit, inl, inr, length, lt-length_of_get, lt→ltb, none, ok, outside, pos_part, refl,
  search-Searched, search-set, set, some, subst, take, take_all, true, ℕ, ◌+◌, ◌<◌, ◌==◌, ◌∙◌, ◌≡◌,
  ◌⊎◌,
}
use cs551_assignments.Group.Defs.{
  Groups, Item, MsgListPerGroup, buffer_underflow, find_open, get_receiver_id, is_open_named,
  max_items, messaging_success,
}
use cs551_assignments.Group.Messages.{
  Received, find_unread, mark_read, receive_item, receive_member, receive_slot, receivemsg,
  set_item,
}

-- The open group that a name finds, with `id` among its receivers.
pub record Receives (name : Text) (id : ℕ) (s : Groups) (i : ℕ) (g : MsgListPerGroup) : Type 0 where
  pub named : (length name == 0) ≡ false
  pub finds : find_open name s ≡ found i
  pub at : get_elem? s.groups_list i ≡ some g
  pub place : ℕ
  pub member : get_receiver_id g id ≡ found place

-- The item with one more reader: it is deleted once all the receivers of its group have read it.
unfoldable pub read_by : ℕ → MsgListPerGroup → Item → Item
read_by id g m = record m {
  readers = set m.readers m.num_of_read_complete id;
  num_of_read_complete = m.num_of_read_complete + 1;
  deleted_flag = m.num_of_read_complete + 1 == g.receivers.curr_num;
}

-- Either every item is deleted or read by `id`, and the buffer underflows; or the first other item
-- is delivered.
abbrev pub DeliversFirst : ℕ → ℕ → MsgListPerGroup → Groups → Received → Type 0
DeliversFirst id i g s r =
    (All (IsSkipped id) g.i_list.items_list × (r ≡ ok (buffer_underflow, none, s)))
    ⊎ ((j : ℕ) × (m : Item) × (get_elem? g.i_list.items_list j ≡ some m)
        × IsUnread id m
        × All (IsSkipped id) (take j g.i_list.items_list)
        × (r ≡ ok (messaging_success, some m.mesg, set_item i j g s (read_by id g m))))

mark_read-ok :
    (g : MsgListPerGroup) (id : ℕ) (m : Item)
    → IsValidGroup g
    → IsValidItem (receivers_of g) m
    → IsUnread id m
    → has id (receivers_of g) ≡ true
    → mark_read id g.receivers.curr_num m ≡ ok (read_by id g m)
unfolding read_by
mark_read-ok g id m w v u k =
    let room : m.num_of_read_complete < length m.readers =
      omega (arith, room_to_read g id m w v u k, v.size, w.receivers.bounded) in
    rw (lt→ltb _ _ room)

receive_item-DeliversFirst :
    (id i : ℕ) (g : MsgListPerGroup) (s : Groups) (r : Search)
    → IsValidGroup g
    → has id (receivers_of g) ≡ true
    → FindsUnread id max_items g.i_list.items_list r
    → DeliversFirst id i g s (receive_item id i g s r)
unfolding receive_item
receive_item-DeliversFirst id i g s (found j) w k h =
    let old : IsValidItem (receivers_of g) h.0 =
      All-get (IsValidItem (receivers_of g)) g.i_list.items_list j w.items h.1 in
    inr (j, h.0, h.1, h.2, h.4, rw (h.1, lt→ltb _ _ old.fits, mark_read-ok g id h.0 w old h.2 k))
receive_item-DeliversFirst id i g s absent w k h =
    inl (subst (All (IsSkipped id)) (take_all max_items g.i_list.items_list w.slots) h, refl)
receive_item-DeliversFirst id i g s outside w k h = absurd h

pub has_member :
    (id : ℕ) (g : MsgListPerGroup) {p : ℕ}
    → get_receiver_id g id ≡ found p
    → has id (receivers_of g) ≡ true
unfolding get_receiver_id
has_member id g {p} e =
    let h : Searched (λ x. x == id) g.receivers.curr_num g.receivers.receiver_list (found p) =
      subst (Searched (λ x. x == id) g.receivers.curr_num g.receivers.receiver_list) e
        (search-Searched (λ x. x == id) g.receivers.curr_num g.receivers.receiver_list) in
    has_of_hit id p g.receivers.curr_num g.receivers.receiver_list h.1 h.2 h.3

pub receivemsg-item :
    (name : Text) (id i : ℕ) (s : Groups) (g : MsgListPerGroup)
    → Receives name id s i g
    → receivemsg (some name) id s
      ≡ receive_item id i g s (find_unread id max_items g.i_list.items_list)
unfolding receivemsg receive_slot receive_member
receivemsg-item name id i s g h = rw (h.named, h.finds, h.at, h.member)

-- In a well-formed table, a receiver of the open group that a name finds gets the first item, in
-- slot order, that is there and that it has not read; the item then has it as one more reader,
-- and is deleted if it was read by as many as there are receivers. If every item is deleted or
-- read, the receiver gets BUFFER_UNDERFLOW, and nothing changes.
pub receivemsg-DeliversFirst :
    (name : Text) (id i : ℕ) (s : Groups) (g : MsgListPerGroup)
    → IsValid s
    → Receives name id s i g
    → DeliversFirst id i g s (receivemsg (some name) id s)
receivemsg-DeliversFirst name id i s g v h =
    let w = get-IsValidGroup s i v h.at in
    rw (receivemsg-item name id i s g h) (
      receive_item-DeliversFirst id i g s (find_unread id max_items g.i_list.items_list) w
        (has_member id g h.member)
        (find_unread_lem (receivers_of g) id max_items g.i_list.items_list (omega (arith, w.slots))
          w.items))

-- `numGroups`, the names and the flags stay, so the same names find the same groups.
find_open-set :
    (name : Text) (s : Groups) (i : ℕ) (g g' : MsgListPerGroup)
    → get_elem? s.groups_list i ≡ some g
    → is_open_named name g' ≡ is_open_named name g
    → find_open name (record s { groups_list = set s.groups_list i g' }) ≡ find_open name s
unfolding find_open
find_open-set name s i g g' e t =
    search-set (is_open_named name) (pos_part s.num_groups) i s.groups_list g g' e t

-- The same receiver finds the same group when an item has been replaced.
pub Receives-set_item :
    (name : Text) (id i j : ℕ) (s : Groups) (g : MsgListPerGroup) (m : Item)
    → Receives name id s i g
    → Receives name id
        (set_item i j g s m)
        i
        (record g { i_list = record (g.i_list) { items_list = set g.i_list.items_list j m } })
unfolding get_receiver_id
Receives-set_item name id i j s g m h = record {
  named = h.named;
  finds = find_open-set name s i g _ h.at refl ∙ h.finds;
  at = get_elem?-set_self s.groups_list i _ (lt-length_of_get s.groups_list i h.at);
  place = h.place;
  member = h.member;
}
