-- ===== src/Group/Invariant/Traffic/Send.antt =====
-- sendmsg.
use cs551_assignments.Common.{
  ℕ, ◌≤◌, ◌≡◌, refl, ◌∙◌, inl, inr, List, Text, some, get_elem?, set, length, length-set, Run, ok,
  fault, Outcome, ◌>>=◌, Search, found, absent, outside, search-Searched, Searched, All-get,
  All-set, arith, ltb, ltb→lt, Bool-cases, pos_part, ◌==◌,
}
use cs551_assignments.Group.Defs.{
  messaging_success, Item, MsgListPerGroup, Groups, max_items, max_mesg_len, is_open_named,
  find_open, find_empty_item_slot,
}
use cs551_assignments.Group.Messages.{set_item, filled, send_item, send_slot, sendmsg}
use cs551_assignments.Group.Invariant.Table.{
  IsValid, IsValidGroup, IsValidItem, IsInside, receivers_of, get-IsValidGroup, set-IsValid,
}

-- A table in which one item of one group is replaced.
pub set_item-IsValid :
    (i j : ℕ) (g : MsgListPerGroup) (s : Groups) (m : Item)
    → IsValid s
    → get_elem? s.groups_list i ≡ some g
    → IsValidItem (receivers_of g) m
    → IsValid (set_item i j g s m)
set_item-IsValid i j g s m v e k =
    let w = get-IsValidGroup s i v e in
    let w' : IsValidGroup
        (record g { i_list = record (g.i_list) { items_list = set g.i_list.items_list j m } }) =
      record {
        short = w.short;
        senders = w.senders;
        receivers = w.receivers;
        slots = length-set g.i_list.items_list j m ∙ w.slots;
        items = All-set (IsValidItem (receivers_of g)) g.i_list.items_list j m w.items k;
      } in
    set-IsValid s _ i _ v w' refl

-- An item filled anew has no reader.
filled-IsValid :
    (rs : List ℕ) (mesg : Text) (m : Item)
    → IsValidItem rs m
    → length mesg ≤ max_mesg_len
    → Outcome (IsValidItem rs) (length mesg ≡ max_mesg_len) (filled mesg m)
filled-IsValid rs mesg m v h = elim (Bool-cases (ltb (length mesg) max_mesg_len)) [
  | inl room ↦ rw room (record {
    size = v.size;
    fits = ltb→lt _ _ room;
    bounded = λ e. omega arith;
    distinct = λ e. tt;
    members = λ e a k. cc;
  })
  | inr full ↦ rw full (ground arith)
]

send_item-Keeps :
    (mesg : Text) (i : ℕ) (g : MsgListPerGroup) (s : Groups) (r : Search)
    → IsValid s
    → get_elem? s.groups_list i ≡ some g
    → length mesg ≤ max_mesg_len
    → Searched (λ m. m.deleted_flag) max_items g.i_list.items_list r
    → Outcome (λ (c, t). IsValid t) (length mesg ≡ max_mesg_len) (send_item mesg i g s r)
unfolding send_item
send_item-Keeps mesg i g s (found j) v e l h =
    rw h.1 (fill (filled mesg h.0) (filled-IsValid (receivers_of g) mesg h.0 old l))
  where
    old : IsValidItem (receivers_of g) h.0
    old =
        All-get (IsValidItem (receivers_of g)) g.i_list.items_list j
          (get-IsValidGroup s i v e).items h.1

    fill :
        (r : Run Item)
        → Outcome (IsValidItem (receivers_of g)) (length mesg ≡ max_mesg_len) r
        → Outcome
            (λ (c, t). IsValid t)
            (length mesg ≡ max_mesg_len)
            (r >>= λ m. ok (messaging_success, set_item i j g s m))
    fill (ok m) k = set_item-IsValid i j g s m v e k
    fill fault k = k
send_item-Keeps mesg i g s absent v e l h = v
send_item-Keeps mesg i g s outside v e l h =
    absurd (omega (arith, h.0, (get-IsValidGroup s i v e).slots))

send_slot-Keeps :
    (name mesg : Text) (s : Groups) (r : Search)
    → IsValid s
    → IsInside s
    → length mesg ≤ max_mesg_len
    → Searched (is_open_named name) (pos_part s.num_groups) s.groups_list r
    → Outcome (λ (c, t). IsValid t) (length mesg ≡ max_mesg_len) (send_slot mesg s r)
unfolding send_slot find_empty_item_slot
send_slot-Keeps name mesg s (found i) v inside l h =
    rw h.1 (send_item-Keeps mesg i h.0 s (find_empty_item_slot h.0) v h.1 l (search-Searched _ _ _))
send_slot-Keeps name mesg s absent v inside l h = v
send_slot-Keeps name mesg s outside v inside l h = absurd (omega (arith, h.0, v.size))

-- On a well-formed table with `numGroups` at most ten, sendmsg returns and keeps the table
-- well-formed, but for a text of exactly MAX_MESG_LEN bytes.
pub sendmsg-Keeps :
    (name mesg : Text) (s : Groups)
    → IsValid s
    → IsInside s
    → Outcome (λ (c, t). IsValid t) (length mesg ≡ max_mesg_len) (sendmsg (some name) mesg s)
unfolding sendmsg find_open
sendmsg-Keeps name mesg s v inside = elim (Bool-cases (length name == 0)) [
  | inl e ↦ rw e v
  | inr e ↦ rw e (elim (Bool-cases (ltb max_mesg_len (length mesg))) [
    | inl l ↦ rw l v
    | inr l ↦ rw l (
        send_slot-Keeps name mesg s (find_open name s) v inside (ground arith)
          (search-Searched _ _ _))
  ])
]
