-- ===== src/Group/Invariant/Admins.antt =====
-- opengroup, closegroup, recovergroup and lookup_groups never leave the table.
use cs551_assignments.Common.{
  ℕ, zero, suc, ◌*◌, ◌≤◌, ◌<◌, ◌==◌, ltb, true, false, ◌>>=◌, refl, inl, inr, List, [], ◌∷◌, ◌++◌,
  Text, Option, none, some, length, length-append, Run, ok, fault, Outcome, Search, found, absent,
  outside, Searched, search-Searched, All, arith, Bool-cases, not,
}
use cs551_assignments.Group.Defs.{
  MsgListPerGroup, Groups, max_groups, max_groups_size, max_group_name_len, find_named,
  find_empty_group_slot, is_named,
}
use cs551_assignments.Group.Admin.{
  Call, with_name, open_slot, open_checked, opengroup, close_slot, closegroup, recover_slot,
  recovergroup, names_from, lookup_groups,
}
use cs551_assignments.Group.Invariant.Table.{
  IsValid, IsValidGroup, get-IsValidGroup, set-IsValid, opened-IsValid, reset_items-IsValid,
}

closed-IsValid :
    (g : MsgListPerGroup) → IsValidGroup g → IsValidGroup (record g { open_flag = false })
closed-IsValid g v = record {
  short = v.short;
  senders = v.senders;
  receivers = v.receivers;
  slots = v.slots;
  items = v.items;
}

recovered-IsValid :
    (g : MsgListPerGroup) → IsValidGroup g → IsValidGroup (record g { open_flag = true })
recovered-IsValid g v = record {
  short = v.short;
  senders = v.senders;
  receivers = v.receivers;
  slots = v.slots;
  items = v.items;
}

-- A call returns, and the table it returns is well-formed.
abbrev pub Keeps : Call → Type 0
Keeps = Outcome (λ (c, t). IsValid t) ⊥

open_slot-Keeps :
    (name : Text) (s : Groups) (r : Search)
    → length name ≤ max_group_name_len
    → IsValid s
    → Searched (λ g. not g.open_flag) max_groups s.groups_list r
    → Keeps (open_slot name s r)
unfolding open_slot
open_slot-Keeps name s (found i) l v h =
    rw h.1 (set-IsValid s _ i _ v (opened-IsValid name h.0 l (get-IsValidGroup s i v h.1)) refl)
open_slot-Keeps name s absent l v h = v
open_slot-Keeps name s outside l v h = absurd (omega (arith, v.size))

open_checked-Keeps :
    (name : Text) (s : Groups) (r : Search)
    → length name ≤ max_group_name_len
    → IsValid s
    → Searched (is_named name) max_groups s.groups_list r
    → Keeps (open_checked name s r)
unfolding open_checked find_empty_group_slot
open_checked-Keeps name s (found i) l v h = v
open_checked-Keeps name s absent l v h =
    open_slot-Keeps name s (find_empty_group_slot s) l v
      (search-Searched _ max_groups s.groups_list)
open_checked-Keeps name s outside l v h = absurd (omega (arith, v.size))

close_slot-Keeps :
    (name : Text) (s : Groups) (r : Search)
    → IsValid s
    → Searched (is_named name) max_groups s.groups_list r
    → Keeps (close_slot s r)
unfolding close_slot
close_slot-Keeps name s (found i) v h =
    let w = get-IsValidGroup s i v h.1 in rw h.1 (set-IsValid s _ i _ v (closed-IsValid h.0 w) refl)
close_slot-Keeps name s absent v h = v
close_slot-Keeps name s outside v h = absurd (omega (arith, v.size))

recover_slot-Keeps :
    (name : Text) (s : Groups) (r : Search)
    → IsValid s
    → Searched (is_named name) max_groups s.groups_list r
    → Keeps (recover_slot s r)
unfolding recover_slot
recover_slot-Keeps name s (found i) v h =
    let w = reset_items-IsValid h.0 (get-IsValidGroup s i v h.1) in
    rw h.1 (set-IsValid s _ i _ v (recovered-IsValid _ w) refl)
recover_slot-Keeps name s absent v h = v
recover_slot-Keeps name s outside v h = absurd (omega (arith, v.size))

-- The checks of the name return the table as it was.
with_name-Keeps :
    (name : Option Text) (s : Groups) (k : Text → Call)
    → IsValid s
    → ((n : Text) → length n ≤ max_group_name_len → Keeps (k n))
    → Keeps (with_name name s k)
with_name-Keeps none s k v h = v
with_name-Keeps (some n) s k v h = elim (Bool-cases (length n == 0)) [
  | inl e ↦ rw e v
  | inr e ↦ rw e (elim (Bool-cases (ltb max_group_name_len (length n))) [
    | inl l ↦ rw l v
    | inr l ↦ rw l (h n (ground arith))
  ])
]

-- On a well-formed table opengroup returns, whatever the name, and the table stays well-formed.
pub opengroup-Keeps : (name : Option Text) (s : Groups) → IsValid s → Keeps (opengroup name s)
unfolding opengroup find_named
opengroup-Keeps name s v =
    with_name-Keeps name s _ v λ n l.
      open_checked-Keeps n s (find_named n s) l v (search-Searched _ max_groups s.groups_list)

-- On a well-formed table closegroup returns, whatever the name, and the table stays well-formed.
pub closegroup-Keeps : (name : Option Text) (s : Groups) → IsValid s → Keeps (closegroup name s)
unfolding closegroup find_named
closegroup-Keeps name s v =
    with_name-Keeps name s _ v
      λ n _. close_slot-Keeps n s (find_named n s) v (search-Searched _ max_groups s.groups_list)

-- On a well-formed table recovergroup returns, whatever the name, and the table stays
-- well-formed.
pub recovergroup-Keeps : (name : Option Text) (s : Groups) → IsValid s → Keeps (recovergroup name s)
unfolding recovergroup find_named
recovergroup-Keeps name s v =
    with_name-Keeps name s _ v
      λ n _. recover_slot-Keeps n s (find_named n s) v (search-Searched _ max_groups s.groups_list)

-- Each name takes at most 101 bytes of the text, its semicolon included.
abbrev IsShort : MsgListPerGroup → Type 0
IsShort g = length g.group_name ≤ max_group_name_len

names_from-fits :
    (n : ℕ) (gs : List MsgListPerGroup)
    → n ≤ length gs
    → All IsShort gs
    → Outcome (λ t. length t ≤ n * 101) ⊥ (names_from n gs)
unfolding names_from
names_from-fits zero gs h v = omega arith
names_from-fits (suc n) [] h v = absurd (omega arith)
names_from-fits (suc n) (g ∷ gs) h v = elim (Bool-cases g.open_flag) [
  | inl e ↦ rw e (add_name (names_from n gs) (names_from-fits n gs (omega arith) v.1))
  | inr e ↦ rw e (omega arith)
]
  where
    add_name :
        (r : Run Text)
        → Outcome (λ t. length t ≤ n * 101) ⊥ r
        → Outcome (λ t. length t ≤ suc n * 101) ⊥ (r >>= λ names. ok (g.group_name ++ b';' ∷ names))
    add_name (ok t) k = omega (arith, v.0, length-append g.group_name (b';' ∷ t), k)
    add_name fault k = k

All-IsShort : (gs : List MsgListPerGroup) → All IsValidGroup gs → All IsShort gs
All-IsShort [] v = tt
All-IsShort (g ∷ gs) v = (v.0.short, All-IsShort gs v.1)

-- On a well-formed table lookup_groups returns, and its text and NUL fit in the MAX_GROUPS_SIZE
-- bytes of the callers' buffers.
pub lookup_groups-fits :
    (s : Groups) → IsValid s → Outcome (λ t. length t < max_groups_size) ⊥ (lookup_groups s)
unfolding lookup_groups
lookup_groups-fits s v = weaken (names_from max_groups s.groups_list) (
    names_from-fits max_groups s.groups_list (omega (arith, v.size))
      (All-IsShort s.groups_list v.groups))
  where
    weaken :
        (r : Run Text)
        → Outcome (λ t. length t ≤ max_groups * 101) ⊥ r
        → Outcome (λ t. length t < max_groups_size) ⊥ r
    weaken (ok t) k = omega (arith, k)
    weaken fault k = k
