-- ===== src/Group/Order.antt =====
-- The order in which receivemsg of project2/grpmsgdef.c delivers what sendmsg stored.
use cs551_assignments.Common.{
  ==_refl, All, All-get, List, Search, Searched, Text, [], absent, after, arith, false, found,
  get_elem?, get_elem?-set_ne, get_elem?-set_self, has, has_of_hit, inl, inr, length, length-set,
  lt-length_of_get, ltb, lt→ltb, not-has_of_miss, ok, outside, refl, search, search-Searched, set,
  some, subst, suc, sym, take, take-set, true, zero, ℕ, ◌+◌, ◌<◌, ◌==◌, ◌∙◌, ◌∷◌, ◌≡◌, ◌≢◌,
}
use cs551_assignments.Group.Defs.{
  Groups, Item, MsgListPerGroup, find_empty_item_slot, max_items, max_mesg_len, messaging_success,
}
use cs551_assignments.Group.Messages.{
  find_unread, is_read, receive_item, receivemsg, send_item, send_slot, sendmsg, set_item,
  unread_or,
}
use cs551_assignments.Group.Invariant.Traffic.Receive.{room_to_read}
use cs551_assignments.Group.Delivery.{
  Receives, Receives-set_item, has_member, read_by, receivemsg-DeliversFirst, receivemsg-item,
}
use cs551_assignments.Group.Invariant.Table.{IsValid, IsValidItem, get-IsValidGroup, receivers_of}
use cs551_assignments.Group.Invariant.Traffic.Unread.{IsSkipped, IsUnread}

-- A reader that has just been recorded is found again.
is_read-read_by :
    (id : ℕ) (g : MsgListPerGroup) (m : Item)
    → m.num_of_read_complete < length m.readers
    → (j : ℕ) × (is_read id (read_by id g m) ≡ found j)
unfolding is_read read_by
is_read-read_by id g m room =
    go (search (λ x. x == id) n xs) refl (search-Searched (λ x. x == id) n xs)
  where
    n : ℕ
    n = m.num_of_read_complete + 1

    xs : List ℕ
    xs = set m.readers m.num_of_read_complete id

    go :
        (r : Search)
        → search (λ x. x == id) n xs ≡ r
        → Searched (λ x. x == id) n xs r
        → (j : ℕ) × (search (λ x. x == id) n xs ≡ found j)
    go (found j) e h = (j, e)
    go absent e h =
        let miss : has id (take n xs) ≡ false = not-has_of_miss id (take n xs) h.1 in
        let hit : has id (take n xs) ≡ true =
          has_of_hit id m.num_of_read_complete n xs
            (get_elem?-set_self m.readers m.num_of_read_complete id room) (==_refl id)
            (omega arith) in
        cc
    go outside e h =
        absurd (omega (arith, h.0, length-set m.readers m.num_of_read_complete id, room))

pub IsSkipped-read_by :
    (id : ℕ) (g : MsgListPerGroup) (m : Item)
    → m.num_of_read_complete < length m.readers
    → IsSkipped id (read_by id g m)
IsSkipped-read_by id g m room = inr (is_read-read_by id g m room)

All-take-suc :
    {A : Type 0} (P : A → Type 0) (j : ℕ) (xs : List A) (x : A)
    → get_elem? xs j ≡ some x
    → All P (take j xs)
    → P x
    → All P (take (suc j) xs)
All-take-suc P j [] x e h p = cc
All-take-suc P zero (y ∷ ys) x e h p = (subst P (ground arith) p, tt)
All-take-suc P (suc j) (y ∷ ys) x e h p = (h.0, All-take-suc P j ys x e h.1 p)

-- The group of `t` from which `id` receives next, after the item in slot j of `g`.
pub record ReceivesAfter (name : Text) (id i j : ℕ) (g : MsgListPerGroup) (t : Groups)
    : Type 0 where
  pub group : MsgListPerGroup
  pub receives : Receives name id t i group
  pub past : All (IsSkipped id) (take (suc j) group.i_list.items_list)
  pub later :
      (k : ℕ) → k ≢ j → get_elem? group.i_list.items_list k ≡ get_elem? g.i_list.items_list k

after_set_item :
    (name : Text) (id i j : ℕ) (s : Groups) (g : MsgListPerGroup) (m : Item)
    → Receives name id s i g
    → get_elem? g.i_list.items_list j ≡ some m
    → All (IsSkipped id) (take j g.i_list.items_list)
    → m.num_of_read_complete < length m.readers
    → ReceivesAfter name id i j g (set_item i j g s (read_by id g m))
after_set_item name id i j s g m h at before reads =
    let ms = g.i_list.items_list in
    let ms' = set ms j (read_by id g m) in
    record {
      group = record g { i_list = record (g.i_list) { items_list = ms' } };
      receives = Receives-set_item name id i j s g (read_by id g m) h;
      past =
          All-take-suc (IsSkipped id) j ms' (read_by id g m)
            (get_elem?-set_self ms j (read_by id g m) (lt-length_of_get ms j at))
            (subst (All (IsSkipped id)) (sym (take-set j ms (read_by id g m))) before)
            (IsSkipped-read_by id g m reads);
      later = λ k ne. get_elem?-set_ne ms j k (read_by id g m) (λ e. ne (sym e));
    }

-- In a well-formed table, a receivemsg of a receiver that succeeds delivers the text of a slot j;
-- in the table that it leaves, the receiver is one of the same slot's group, passes over all
-- items up to j, and finds the others as they were.
pub receivemsg-ReceivesAfter :
    (name text : Text) (id i : ℕ) (s t : Groups) (g : MsgListPerGroup)
    → IsValid s
    → Receives name id s i g
    → receivemsg (some name) id s ≡ ok (messaging_success, some text, t)
    → (j : ℕ) × (m : Item) × (get_elem? g.i_list.items_list j ≡ some m)
      × (m.mesg ≡ text)
      × ReceivesAfter name id i j g t
receivemsg-ReceivesAfter name text id i s t g v h e =
    elim (receivemsg-DeliversFirst name id i s g v h) [
      | inl (skipped, f) ↦ cc
      | inr (j, m, at, u, before, f) ↦
          let w = get-IsValidGroup s i v h.at in
          let old = All-get (IsValidItem (receivers_of g)) g.i_list.items_list j w.items at in
          let room = room_to_read g id m w old u (has_member id g h.member) in
          let reads : m.num_of_read_complete < length m.readers =
            omega (arith, room, old.size, w.receivers.bounded) in
          (
            j,
            m,
            at,
            cc,
            subst (ReceivesAfter name id i j g) (cc)
                (after_set_item name id i j s g m h at before reads),
          )
    ]

-- An item that is there and unread, behind items that are passed over, is the one that is found.
find_unread-found :
    (id n j : ℕ) (ms : List Item) (m : Item)
    → get_elem? ms j ≡ some m
    → IsUnread id m
    → j < n
    → All (IsSkipped id) (take j ms)
    → find_unread id n ms ≡ found j
unfolding find_unread
find_unread-found id n j [] m at u l h = cc
find_unread-found id zero j (x ∷ ms) m at u l h = absurd (omega arith)
find_unread-found id (suc n) zero (x ∷ ms) m at u l h = ground (arith, u.0, u.1)
find_unread-found id (suc n) (suc j) (x ∷ ms) m at u l h =
    let rest = find_unread-found id n j ms m at u (omega arith) h.1 in pass x rest h.0
  where
    pass :
        (x : Item)
        → find_unread id n ms ≡ found j
        → IsSkipped id x
        → unread_or x.deleted_flag (is_read id x) (after (find_unread id n ms)) ≡ found (suc j)
    pass x rest (inl gone) = rw (gone, rest)
    pass x rest (inr (k, e)) = ground arith

not_longer : (mesg : Text) → length mesg < max_mesg_len → ltb max_mesg_len (length mesg) ≡ false
not_longer mesg h = ground arith

-- A message that is not deleted, in a slot of a group.
pub record IsStored (mesg : Text) (i j : ℕ) (t : Groups) : Type 0 where
  pub group : MsgListPerGroup
  pub item : Item
  pub in_table : get_elem? t.groups_list i ≡ some group
  pub in_slot : get_elem? group.i_list.items_list j ≡ some item
  pub text : item.mesg ≡ mesg
  pub kept : item.deleted_flag ≡ false

-- In a well-formed table, let a name find an open group and a receiver of it, let the group have a
-- free slot, and let the receiver have nothing to read below the first one that the code finds. A
-- message shorter than MAX_MESG_LEN is then stored in that slot, below which no slot is free, and
-- the receiver gets it next, also where older messages that it has not read wait above it.
pub sendmsg_overtakes :
    (name mesg : Text) (id i j : ℕ) (s : Groups) (g : MsgListPerGroup)
    → IsValid s
    → Receives name id s i g
    → length mesg < max_mesg_len
    → find_empty_item_slot g ≡ found j
    → All (IsSkipped id) (take j g.i_list.items_list)
    → All (λ m. m.deleted_flag ≡ false) (take j g.i_list.items_list)
      × (t : Groups) × (sendmsg (some name) mesg s ≡ ok (messaging_success, t))
      × IsStored mesg i j t
      × (u : Groups) × (receivemsg (some name) id t ≡ ok (messaging_success, some mesg, u))
unfolding sendmsg send_slot send_item
sendmsg_overtakes name mesg id i j s g v h fits free before =
    (slot.4, t, sent, is_stored, u, received)
  where
    ms : List Item
    ms = g.i_list.items_list

    slot : Searched (λ m. m.deleted_flag) max_items ms (found j)
    slot =
        subst (Searched (λ m. m.deleted_flag) max_items ms) free
          (unfold find_empty_item_slot in search-Searched (λ m. m.deleted_flag) max_items ms)

    new : Item
    new = record (slot.0) { mesg = mesg; num_of_read_complete = 0; deleted_flag = false }

    t : Groups
    t = set_item i j g s new

    g' : MsgListPerGroup
    g' = record g { i_list = record (g.i_list) { items_list = set ms j new } }

    u : Groups
    u = set_item i j g' t (read_by id g' new)

    old : IsValidItem (receivers_of g) slot.0
    old = All-get (IsValidItem (receivers_of g)) ms j (get-IsValidGroup s i v h.at).items slot.1

    stored : get_elem? (set ms j new) j ≡ some new
    stored = get_elem?-set_self ms j new (lt-length_of_get ms j slot.1)

    is_stored : IsStored mesg i j t
    is_stored = record {
      group = g';
      item = new;
      in_table = (Receives-set_item name id i j s g new h).at;
      in_slot = stored;
      text = refl;
      kept = refl;
    }

    sent : sendmsg (some name) mesg s ≡ ok (messaging_success, t)
    sent = rw (h.named, not_longer mesg fits, h.finds, h.at, free, slot.1, lt→ltb _ _ fits)

    finds : find_unread id max_items (set ms j new) ≡ found j
    finds =
        find_unread-found id max_items j (set ms j new) new stored
          (refl, unfold is_read search in refl) slot.3
          (subst (All (IsSkipped id)) (sym (take-set j ms new)) before)

    room : ltb 0 (length (slot.0).readers) ≡ true
    room = lt→ltb _ _ (omega (arith, old.size))

    received : receivemsg (some name) id t ≡ ok (messaging_success, some mesg, u)
    received =
        receivemsg-item name id i t g' (Receives-set_item name id i j s g new h)
        ∙ unfold receive_item read_by in rw (finds, stored, lt→ltb _ _ fits, room)
