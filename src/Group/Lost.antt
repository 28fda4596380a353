-- ===== src/Group/Lost.antt =====
-- An open group of project2/grpmsgdef.c that its name no longer finds.
use cs551_assignments.Common.{
  All, All-take-set, Searched, Text, absent, arith, false, found, get_elem?, get_elem?-set_ne,
  length, length-set, lt-length_of_get, ltb, ok, pos, pos_part, refl, search, search-Searched,
  search-absent, set, some, subst, suc, take, true, ℕ, ◌-ℤ◌, ◌==◌, ◌∙◌, ◌≡◌, ◌≢◌, ◌≤◌,
}
use cs551_assignments.Group.Defs.{
  Groups, MsgListPerGroup, find_named, find_open, group_not_found, is_named, is_open_named,
  max_group_name_len, max_groups, max_mesg_len, messaging_success,
}
use cs551_assignments.Group.Admin.{close_slot, closegroup}
use cs551_assignments.Group.Messages.{send_slot, sendmsg}
use cs551_assignments.Group.Invariant.Table.{IsValid}

-- The name `b` finds the open group `g` in slot k, the last one below `numGroups`, and none before.
pub record IsLast (b : Text) (k : ℕ) (g : MsgListPerGroup) (s : Groups) : Type 0 where
  pub at : get_elem? s.groups_list k ≡ some g
  pub named : is_open_named b g ≡ true
  pub count : s.num_groups ≡ pos (suc k)
  pub first : All (λ h. is_open_named b h ≡ false) (take k s.groups_list)

fewer : (k : ℕ) → pos_part (pos (suc k) -ℤ pos 1) ≡ k
unfolding ◌-ℤ◌
fewer k = ground arith

-- In a well-formed table, where the name b finds the open group in the last slot below
-- `numGroups`, closing a group in another slot makes that one unreachable: its slot is as it was,
-- and every message of at most MAX_MESG_LEN bytes sent to b is refused with GROUP_NOT_FOUND.
pub closegroup_loses_last :
    (a b : Text) (i k : ℕ) (s : Groups) (g : MsgListPerGroup)
    → IsValid s
    → (length a == 0) ≡ false
    → length a ≤ max_group_name_len
    → find_named a s ≡ found i
    → IsLast b k g s
    → i ≢ k
    → (length b == 0) ≡ false
    → (t : Groups) × (closegroup (some a) s ≡ ok (messaging_success, t))
      × (get_elem? t.groups_list k ≡ some g)
      × (g.open_flag ≡ true)
      × ((mesg : Text)
          → length mesg ≤ max_mesg_len
          → sendmsg (some b) mesg t ≡ ok (group_not_found, t))
unfolding closegroup close_slot sendmsg send_slot find_open
closegroup_loses_last a b i k s g v named short finds last other named_b = (
  t,
  closed,
  get_elem?-set_ne s.groups_list i k shut other ∙ last.at,
  ground (arith, last.named),
  refused,
)
  where
    slot : Searched (is_named a) max_groups s.groups_list (found i)
    slot =
        subst (Searched (is_named a) max_groups s.groups_list) finds
          (unfold find_named in search-Searched (is_named a) max_groups s.groups_list)

    shut : MsgListPerGroup
    shut = record (slot.0) { open_flag = false }

    t : Groups
    t = record s { groups_list = set s.groups_list i shut; num_groups = s.num_groups -ℤ pos 1 }

    not_long : ltb max_group_name_len (length a) ≡ false
    not_long = ground arith

    closed : closegroup (some a) s ≡ ok (messaging_success, t)
    closed = rw (named, not_long, finds, slot.1)

    below : pos_part (s.num_groups -ℤ pos 1) ≡ k
    below = rw last.count (fewer k)

    gone :
        search (is_open_named b) (pos_part (s.num_groups -ℤ pos 1)) (set s.groups_list i shut)
        ≡ absent
    gone = rw below (
        search-absent (is_open_named b) k (set s.groups_list i shut)
          (omega (arith, length-set s.groups_list i shut, lt-length_of_get s.groups_list k last.at))
          (All-take-set (λ h. is_open_named b h ≡ false) k i s.groups_list shut last.first refl))

    refused :
        (mesg : Text)
        → length mesg ≤ max_mesg_len
        → sendmsg (some b) mesg t ≡ ok (group_not_found, t)
    refused mesg h =
        let not_over : ltb max_mesg_len (length mesg) ≡ false = ground arith in
        rw (named_b, not_over, gone)
