-- ===== src/Group/Invariant/Joins.antt =====
-- add_sender_to_group and add_receiver_to_group: a call leaves the table only where a group is full.
use cs551_assignments.Common.{
  ℕ, ◌≡◌, refl, sym, subst, ◌∙◌, inl, inr, false, List, [], ◌∷◌, ◌++◌, Text, some, get_elem?, set,
  take, length, length-set, take-set_add_one, Run, ok, fault, Outcome, Search, found, absent,
  outside, Searched, search-Searched, All, arith, ltb, ◌==◌, Bool-cases, ltb→lt, has, IsDistinct,
  IsSubset, IsDistinct-snoc, IsSubset-snoc, not-has_of_miss, ◌>>=◌, pos_part,
}
use cs551_assignments.Group.Defs.{
  messaging_success, SenderList, ReceiverList, MsgListPerGroup, Groups, Item, max_senders,
  max_receivers, is_open_named, find_open, get_sender_id, get_receiver_id,
}
use cs551_assignments.Group.Admin.{Call}
use cs551_assignments.Group.Members.{
  append_sender, append_receiver, sender_checked, sender_slot, add_sender_to_group,
  receiver_checked, receiver_slot, add_receiver_to_group,
}
use cs551_assignments.Group.Invariant.Table.{
  IsValid, IsValidGroup, IsValidItem, IsValidSenders, IsValidReceivers, IsInside, senders_of,
  receivers_of, get-IsValidGroup, set-IsValid,
}

-- The open group that a name finds, among the first `numGroups`, has no room.
pub record IsFull (P : MsgListPerGroup → Type 0) (name : Text) (s : Groups) : Type 0 where
  pub index : ℕ
  pub group : MsgListPerGroup
  pub finds : find_open name s ≡ found index
  pub at : get_elem? s.groups_list index ≡ some group
  pub full : P group

abbrev pub HasMaxSenders : MsgListPerGroup → Type 0
HasMaxSenders g = g.senders.curr_num ≡ max_senders

abbrev pub HasMaxReceivers : MsgListPerGroup → Type 0
HasMaxReceivers g = g.receivers.curr_num ≡ max_receivers

append_sender-IsValid :
    (l : SenderList) (id : ℕ)
    → IsValidSenders l
    → has id (take l.curr_num l.sender_list) ≡ false
    → Outcome IsValidSenders (l.curr_num ≡ max_senders) (append_sender l id)
append_sender-IsValid l id v h = elim (Bool-cases (ltb l.curr_num (length l.sender_list))) [
  | inl room ↦
      let grown = take-set_add_one l.curr_num l.sender_list id (ltb→lt _ _ room) in
      rw room (record {
        size = length-set l.sender_list l.curr_num id ∙ v.size;
        bounded = ground (arith, v.size);
        distinct = subst IsDistinct (sym grown) (IsDistinct-snoc id _ v.distinct h);
      })
  | inr full ↦ rw full (ground (arith, v.size, v.bounded))
]

append_receiver-IsValid :
    (l : ReceiverList) (id : ℕ)
    → IsValidReceivers l
    → has id (take l.curr_num l.receiver_list) ≡ false
    → Outcome
        (λ k.
          IsValidReceivers k
          × (take k.curr_num k.receiver_list ≡ take l.curr_num l.receiver_list ++ id ∷ []))
        (l.curr_num ≡ max_receivers)
        (append_receiver l id)
append_receiver-IsValid l id v h = elim (Bool-cases (ltb l.curr_num (length l.receiver_list))) [
  | inl room ↦
      let grown = take-set_add_one l.curr_num l.receiver_list id (ltb→lt _ _ room) in
      rw room (
        record {
          size = length-set l.receiver_list l.curr_num id ∙ v.size;
          bounded = ground (arith, v.size);
          distinct = subst IsDistinct (sym grown) (IsDistinct-snoc id _ v.distinct h);
        },
        grown,
      )
  | inr full ↦ rw full (ground (arith, v.size, v.bounded))
]

-- Readers of an item stay receivers when a receiver joins.
items-IsValid :
    (rs ts : List ℕ) (ms : List Item)
    → ((xs : List ℕ) → IsSubset xs rs → IsSubset xs ts)
    → All (IsValidItem rs) ms
    → All (IsValidItem ts) ms
items-IsValid rs ts [] grow v = tt
items-IsValid rs ts (m ∷ ms) grow v = (
  record {
    size = v.0.size;
    fits = v.0.fits;
    bounded = v.0.bounded;
    distinct = v.0.distinct;
    members = λ e. grow (take m.num_of_read_complete m.readers) (v.0.members e);
  },
  items-IsValid rs ts ms grow v.1,
)

sender_checked-Keeps :
    (id i : ℕ) (s : Groups) (g : MsgListPerGroup) (r : Search)
    → IsValid s
    → get_elem? s.groups_list i ≡ some g
    → Searched (λ x. x == id) g.senders.curr_num g.senders.sender_list r
    → Outcome (λ (c, t). IsValid t) (HasMaxSenders g) (sender_checked id i s g r)
unfolding sender_checked
sender_checked-Keeps id i s g (found j) v e h = v
sender_checked-Keeps id i s g absent v e h =
    join (append_sender g.senders id)
      (append_sender-IsValid g.senders id w.senders (not-has_of_miss id (senders_of g) h.1))
  where
    w : IsValidGroup g
    w = get-IsValidGroup s i v e

    join :
        (r : Run SenderList)
        → Outcome IsValidSenders (HasMaxSenders g) r
        → Outcome
            (λ (c, t). IsValid t)
            (HasMaxSenders g)
            (r >>= λ l. ok (
              messaging_success,
              record s { groups_list = set s.groups_list i (record g { senders = l }) },
            ))
    join (ok l) k =
        let w' : IsValidGroup (record g { senders = l }) = record {
          short = w.short;
          senders = k;
          receivers = w.receivers;
          slots = w.slots;
          items = w.items;
        } in
        set-IsValid s _ i _ v w' refl
    join fault k = k
sender_checked-Keeps id i s g outside v e h =
    let w = (get-IsValidGroup s i v e).senders in absurd (omega (arith, h.0, w.bounded, w.size))

receiver_checked-Keeps :
    (id i : ℕ) (s : Groups) (g : MsgListPerGroup) (r : Search)
    → IsValid s
    → get_elem? s.groups_list i ≡ some g
    → Searched (λ x. x == id) g.receivers.curr_num g.receivers.receiver_list r
    → Outcome (λ (c, t). IsValid t) (HasMaxReceivers g) (receiver_checked id i s g r)
unfolding receiver_checked
receiver_checked-Keeps id i s g (found j) v e h = v
receiver_checked-Keeps id i s g absent v e h =
    join (append_receiver g.receivers id)
      (append_receiver-IsValid g.receivers id w.receivers (not-has_of_miss id (receivers_of g) h.1))
  where
    w : IsValidGroup g
    w = get-IsValidGroup s i v e

    join :
        (r : Run ReceiverList)
        → Outcome
            (λ k.
              IsValidReceivers k × (take k.curr_num k.receiver_list ≡ receivers_of g ++ id ∷ []))
            (HasMaxReceivers g)
            r
        → Outcome
            (λ (c, t). IsValid t)
            (HasMaxReceivers g)
            (r >>= λ l. ok (
              messaging_success,
              record s { groups_list = set s.groups_list i (record g { receivers = l }) },
            ))
    join (ok l) k =
        let w' : IsValidGroup (record g { receivers = l }) = record {
          short = w.short;
          senders = w.senders;
          receivers = k.0;
          slots = w.slots;
          items =
              items-IsValid (receivers_of g) (take l.curr_num l.receiver_list) g.i_list.items_list
                (λ xs h. subst (IsSubset xs) (sym k.1) (IsSubset-snoc id xs (receivers_of g) h))
                w.items;
        } in
        set-IsValid s _ i _ v w' refl
    join fault k = k
receiver_checked-Keeps id i s g outside v e h =
    let w = (get-IsValidGroup s i v e).receivers in absurd (omega (arith, h.0, w.bounded, w.size))

sender_slot-Keeps :
    (name : Text) (id : ℕ) (s : Groups) (r : Search)
    → IsValid s
    → IsInside s
    → find_open name s ≡ r
    → Searched (is_open_named name) (pos_part s.num_groups) s.groups_list r
    → Outcome (λ (c, t). IsValid t) (IsFull HasMaxSenders name s) (sender_slot id s r)
unfolding sender_slot get_sender_id
sender_slot-Keeps name id s (found i) v inside e h = rw h.1 (
    explain (sender_checked id i s h.0 (get_sender_id h.0 id))
      (sender_checked-Keeps id i s h.0 (get_sender_id h.0 id) v h.1 (search-Searched _ _ _)))
  where
    explain :
        (r : Call)
        → Outcome (λ (c, t). IsValid t) (HasMaxSenders h.0) r
        → Outcome (λ (c, t). IsValid t) (IsFull HasMaxSenders name s) r
    explain (ok a) k = k
    explain fault k = record { index = i; group = h.0; finds = e; at = h.1; full = k }
sender_slot-Keeps name id s absent v inside e h = v
sender_slot-Keeps name id s outside v inside e h = absurd (omega (arith, h.0, v.size))

receiver_slot-Keeps :
    (name : Text) (id : ℕ) (s : Groups) (r : Search)
    → IsValid s
    → IsInside s
    → find_open name s ≡ r
    → Searched (is_open_named name) (pos_part s.num_groups) s.groups_list r
    → Outcome (λ (c, t). IsValid t) (IsFull HasMaxReceivers name s) (receiver_slot id s r)
unfolding receiver_slot get_receiver_id
receiver_slot-Keeps name id s (found i) v inside e h = rw h.1 (
    explain (receiver_checked id i s h.0 (get_receiver_id h.0 id))
      (receiver_checked-Keeps id i s h.0 (get_receiver_id h.0 id) v h.1 (search-Searched _ _ _)))
  where
    explain :
        (r : Call)
        → Outcome (λ (c, t). IsValid t) (HasMaxReceivers h.0) r
        → Outcome (λ (c, t). IsValid t) (IsFull HasMaxReceivers name s) r
    explain (ok a) k = k
    explain fault k = record { index = i; group = h.0; finds = e; at = h.1; full = k }
receiver_slot-Keeps name id s absent v inside e h = v
receiver_slot-Keeps name id s outside v inside e h = absurd (omega (arith, h.0, v.size))

-- On a well-formed table with `numGroups` at most ten, add_sender_to_group returns and keeps the
-- table well-formed, but where the open group that the name finds has ten senders.
pub add_sender-Keeps :
    (name : Text) (id : ℕ) (s : Groups)
    → IsValid s
    → IsInside s
    → Outcome
        (λ (c, t). IsValid t)
        (IsFull HasMaxSenders name s)
        (add_sender_to_group (some name) id s)
unfolding add_sender_to_group find_open
add_sender-Keeps name id s v inside = elim (Bool-cases (length name == 0)) [
  | inl e ↦ rw e v
  | inr e ↦
      rw e (sender_slot-Keeps name id s (find_open name s) v inside refl (search-Searched _ _ _))
]

-- On a well-formed table with `numGroups` at most ten, add_receiver_to_group returns and keeps
-- the table well-formed, but where the open group that the name finds has ten receivers.
pub add_receiver-Keeps :
    (name : Text) (id : ℕ) (s : Groups)
    → IsValid s
    → IsInside s
    → Outcome
        (λ (c, t). IsValid t)
        (IsFull HasMaxReceivers name s)
        (add_receiver_to_group (some name) id s)
unfolding add_receiver_to_group find_open
add_receiver-Keeps name id s v inside =
    receiver_slot-Keeps name id s (find_open name s) v inside refl (search-Searched _ _ _)
