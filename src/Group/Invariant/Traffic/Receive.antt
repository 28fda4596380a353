-- ===== src/Group/Invariant/Traffic/Receive.antt =====
-- receivemsg.
use cs551_assignments.Common.{
  ℕ, ◌<◌, ◌≡◌, sym, subst, ◌∙◌, inl, inr, true, false, Text, Option, none, some, get_elem?, length,
  length-set, length-take, take-set_add_one, Run, ok, fault, Outcome, ◌>>=◌, Search, found, absent,
  outside, search-Searched, Searched, All-get, arith, lt→ltb, Bool-cases, pos_part, take, ◌==◌, has,
  IsDistinct, IsSubset, pigeonhole, has_of_hit, not-has_of_miss, IsDistinct-snoc, IsSubset-snoc',
}
use cs551_assignments.Group.Defs.{
  messaging_success, Item, MsgListPerGroup, Groups, max_items, is_open_named, find_open,
  get_receiver_id,
}
use cs551_assignments.Group.Messages.{
  set_item, is_read, find_unread, mark_read, receive_item, receive_member, receive_slot, receivemsg,
  Received,
}
use cs551_assignments.Group.Invariant.Table.{
  IsValid, IsValidGroup, IsValidItem, IsInside, receivers_of, get-IsValidGroup,
}
use cs551_assignments.Group.Invariant.Traffic.Unread.{IsUnread, FindsUnread, find_unread_lem}
use cs551_assignments.Group.Invariant.Traffic.Send.{set_item-IsValid}

not-has_of_unread :
    (id : ℕ) (m : Item)
    → is_read id m ≡ absent
    → has id (take m.num_of_read_complete m.readers) ≡ false
unfolding is_read
not-has_of_unread id m e =
    not-has_of_miss id (take m.num_of_read_complete m.readers)
      (subst (Searched (λ x. x == id) m.num_of_read_complete m.readers) e
        (search-Searched (λ x. x == id) m.num_of_read_complete m.readers)).1

-- There is room for one more reader: the readers are distinct receivers, and `id` is another one.
pub room_to_read :
    (g : MsgListPerGroup) (id : ℕ) (m : Item)
    → IsValidGroup g
    → IsValidItem (receivers_of g) m
    → IsUnread id m
    → has id (receivers_of g) ≡ true
    → m.num_of_read_complete < g.receivers.curr_num
room_to_read g id m w v u k = omega (
  arith,
  pigeonhole id (take m.num_of_read_complete m.readers) (receivers_of g) (v.distinct u.0)
      (v.members u.0) k (not-has_of_unread id m u.1),
  length-take m.num_of_read_complete m.readers (omega (arith, v.bounded u.0, v.size)),
  length-take g.receivers.curr_num g.receivers.receiver_list
      (omega (arith, w.receivers.size, w.receivers.bounded)),
)

pub mark_read-IsValid :
    (g : MsgListPerGroup) (id : ℕ) (m : Item)
    → IsValidGroup g
    → IsValidItem (receivers_of g) m
    → IsUnread id m
    → has id (receivers_of g) ≡ true
    → Outcome (IsValidItem (receivers_of g)) ⊥ (mark_read id g.receivers.curr_num m)
mark_read-IsValid g id m w v u k =
    let room : m.num_of_read_complete < length m.readers =
      omega (arith, room_to_read g id m w v u k, v.size, w.receivers.bounded) in
    let grown = take-set_add_one m.num_of_read_complete m.readers id room in
    rw (lt→ltb _ _ room) (record {
      size = length-set m.readers m.num_of_read_complete id ∙ v.size;
      fits = v.fits;
      bounded = λ e. omega (arith, room, v.size);
      distinct = λ e.
          subst IsDistinct (sym grown)
            (IsDistinct-snoc id _ (v.distinct u.0) (not-has_of_unread id m u.1));
      members = λ e.
          subst (λ xs. IsSubset xs (receivers_of g)) (sym grown)
            (IsSubset-snoc' id _ (receivers_of g) (v.members u.0) k);
    })

abbrev KeepsR : Received → Type 0
KeepsR = Outcome (λ (c, text, t). IsValid t) ⊥

receive_item-Keeps :
    (id i : ℕ) (g : MsgListPerGroup) (s : Groups) (r : Search)
    → IsValid s
    → get_elem? s.groups_list i ≡ some g
    → has id (receivers_of g) ≡ true
    → FindsUnread id max_items g.i_list.items_list r
    → KeepsR (receive_item id i g s r)
unfolding receive_item
receive_item-Keeps id i g s (found j) v e k h =
    rw (h.1, lt→ltb _ _ old.fits)
      (mark (mark_read id g.receivers.curr_num h.0) (mark_read-IsValid g id h.0 w old h.2 k))
  where
    w : IsValidGroup g
    w = get-IsValidGroup s i v e

    old : IsValidItem (receivers_of g) h.0
    old = All-get (IsValidItem (receivers_of g)) g.i_list.items_list j w.items h.1

    mark :
        (r : Run Item)
        → Outcome (IsValidItem (receivers_of g)) ⊥ r
        → KeepsR (r >>= λ m. ok (messaging_success, some (h.0).mesg, set_item i j g s m))
    mark (ok m) k = set_item-IsValid i j g s m v e k
    mark fault k = k
receive_item-Keeps id i g s absent v e k h = v
receive_item-Keeps id i g s outside v e k h = h

receive_member-Keeps :
    (id i : ℕ) (g : MsgListPerGroup) (s : Groups) (r : Search)
    → IsValid s
    → get_elem? s.groups_list i ≡ some g
    → Searched (λ x. x == id) g.receivers.curr_num g.receivers.receiver_list r
    → KeepsR (receive_member id i g s r)
unfolding receive_member
receive_member-Keeps id i g s (found j) v e h =
    let w = get-IsValidGroup s i v e in
    receive_item-Keeps id i g s (find_unread id max_items g.i_list.items_list) v e
      (has_of_hit id j g.receivers.curr_num g.receivers.receiver_list h.1 h.2 h.3)
      (find_unread_lem (receivers_of g) id max_items g.i_list.items_list (omega (arith, w.slots))
        w.items)
receive_member-Keeps id i g s absent v e h = v
receive_member-Keeps id i g s outside v e h =
    let w = (get-IsValidGroup s i v e).receivers in absurd (omega (arith, h.0, w.size, w.bounded))

receive_slot-Keeps :
    (name : Text) (id : ℕ) (s : Groups) (r : Search)
    → IsValid s
    → IsInside s
    → Searched (is_open_named name) (pos_part s.num_groups) s.groups_list r
    → KeepsR (receive_slot id s r)
unfolding receive_slot get_receiver_id
receive_slot-Keeps name id s (found i) v inside h =
    rw h.1 (receive_member-Keeps id i h.0 s (get_receiver_id h.0 id) v h.1 (search-Searched _ _ _))
receive_slot-Keeps name id s absent v inside h = v
receive_slot-Keeps name id s outside v inside h = absurd (omega (arith, h.0, v.size))

-- On a well-formed table with `numGroups` at most ten, receivemsg returns and keeps the table
-- well-formed: the array of readers of an item has room for each receiver that has not read it.
pub receivemsg-Keeps :
    (name : Option Text) (id : ℕ) (s : Groups)
    → IsValid s
    → IsInside s
    → Outcome (λ (c, text, t). IsValid t) ⊥ (receivemsg name id s)
unfolding receivemsg find_open
receivemsg-Keeps none id s v inside = v
receivemsg-Keeps (some name) id s v inside = elim (Bool-cases (length name == 0)) [
  | inl e ↦ rw e v
  | inr e ↦ rw e (receive_slot-Keeps name id s (find_open name s) v inside (search-Searched _ _ _))
]
