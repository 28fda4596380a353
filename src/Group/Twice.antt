-- ===== src/Group/Twice.antt =====
-- Joining a group of project2/grpmsgdef.c twice.
use cs551_assignments.Common.{
  ==_refl, Bool-cases, Option-cases, Search, Text, absent, fault, found, get_elem?,
  get_elem?-set_self, inl, inr, length, lt-length_of_get, ltb, ltb→lt, ok, outside, pos_part, refl,
  search-append_new, search-set, set, some, subst, ℕ, ◌+◌, ◌<◌, ◌==◌, ◌∙◌, ◌≡◌,
}
use cs551_assignments.Group.Defs.{
  Code, Groups, MsgListPerGroup, duplicate_receiver, find_open, get_receiver_id, is_open_named,
  messaging_success,
}
use cs551_assignments.Group.Members.{add_receiver_to_group, receiver_checked, receiver_slot}
use cs551_assignments.Group.Admin.{Call}

-- The group with one more receiver, and the table with that group.
abbrev joined : ℕ → MsgListPerGroup → MsgListPerGroup
joined id g = record g {
  receivers = record {
    receiver_list = set g.receivers.receiver_list g.receivers.curr_num id;
    curr_num = g.receivers.curr_num + 1;
  };
}

abbrev with_joined : ℕ → ℕ → Groups → MsgListPerGroup → Groups
with_joined id i s g = record s { groups_list = set s.groups_list i (joined id g) }

find_open-joined :
    (name : Text) (id i : ℕ) (s : Groups) (g : MsgListPerGroup)
    → find_open name s ≡ found i
    → get_elem? s.groups_list i ≡ some g
    → find_open name (with_joined id i s g) ≡ found i
unfolding find_open
find_open-joined name id i s g finds at =
    search-set (is_open_named name) (pos_part s.num_groups) i s.groups_list g (joined id g) at refl
    ∙ finds

get_receiver_id-joined :
    (id : ℕ) (g : MsgListPerGroup)
    → get_receiver_id g id ≡ absent
    → g.receivers.curr_num < length g.receivers.receiver_list
    → get_receiver_id (joined id g) id ≡ found g.receivers.curr_num
unfolding get_receiver_id
get_receiver_id-joined id g new room =
    search-append_new (λ x. x == id) g.receivers.curr_num g.receivers.receiver_list id room new
      (==_refl id)

joined-again :
    (name : Text) (id i : ℕ) (s : Groups) (g : MsgListPerGroup)
    → find_open name s ≡ found i
    → get_elem? s.groups_list i ≡ some g
    → get_receiver_id g id ≡ absent
    → g.receivers.curr_num < length g.receivers.receiver_list
    → add_receiver_to_group (some name) id (with_joined id i s g)
      ≡ ok (duplicate_receiver, with_joined id i s g)
unfolding add_receiver_to_group receiver_slot receiver_checked
joined-again name id i s g finds at new room =
    let there : get_elem? (set s.groups_list i (joined id g)) i ≡ some (joined id g) =
      get_elem?-set_self s.groups_list i (joined id g) (lt-length_of_get s.groups_list i at) in
    rw (find_open-joined name id i s g finds at, there, get_receiver_id-joined id g new room)

-- Asking again is refused.
abbrev IsTold : Text → ℕ → Groups → Type 0
IsTold name id t = add_receiver_to_group (some name) id t ≡ ok (duplicate_receiver, t)

taken : {a b : Groups} {c d : Code} → ◌≡◌ {A = Call} (ok (c, a)) (ok (d, b)) → a ≡ b
taken e = cc

checked-again :
    (name : Text) (id i : ℕ) (s t : Groups) (g : MsgListPerGroup) (r : Search)
    → find_open name s ≡ found i
    → get_elem? s.groups_list i ≡ some g
    → get_receiver_id g id ≡ r
    → receiver_checked id i s g r ≡ ok (messaging_success, t)
    → IsTold name id t
unfolding receiver_checked
checked-again name id i s t g (found j) finds at e h = cc
checked-again name id i s t g absent finds at e h =
    elim (Bool-cases (ltb g.receivers.curr_num (length g.receivers.receiver_list))) [
      | inl room ↦
          subst (IsTold name id) (taken (rw room at h))
            (joined-again name id i s g finds at e (ltb→lt _ _ room))
      | inr full ↦ absurd (never (rw full at h))
    ]
  where
    never : ◌≡◌ {A = Call} fault (ok (messaging_success, t)) → ⊥
    never q = cc
checked-again name id i s t g outside finds at e h = cc

-- A receiver who has joined and asks to join by the same name again is refused with
-- DUPLICATE_RECEIVER, and nothing changes.
pub add_receiver-again :
    (name : Text) (id : ℕ) (s t : Groups)
    → add_receiver_to_group (some name) id s ≡ ok (messaging_success, t)
    → add_receiver_to_group (some name) id t ≡ ok (duplicate_receiver, t)
unfolding add_receiver_to_group receiver_slot
add_receiver-again name id s t e = slot (find_open name s) refl e
  where
    slot :
        (r : Search)
        → find_open name s ≡ r
        → receiver_slot id s r ≡ ok (messaging_success, t)
        → IsTold name id t
    slot (found i) finds h = elim (Option-cases (get_elem? s.groups_list i)) [
      | inl gone ↦ absurd (never (rw gone at h))
      | inr (g, at) ↦
          checked-again name id i s t g (get_receiver_id g id) finds at refl (rw at at h)
    ]
      where
        never : ◌≡◌ {A = Call} fault (ok (messaging_success, t)) → ⊥
        never q = cc
    slot absent finds h = cc
    slot outside finds h = cc
