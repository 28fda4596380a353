-- ===== src/Group/Names.antt =====
-- Which names opengroup of project2/grpmsgdef.c refuses as taken.
use cs551_assignments.Common.{
  All, All-get, Option-cases, Search, Searched, Text, absent, arith, false, found, get_elem?, inl,
  inr, length, ltb, ok, outside, refl, search-Searched, some, strncmp_append, strncmp_eq,
  strncmp_prefix, subst, sym, take_all, true, ℕ, ◌++◌, ◌<◌, ◌==◌, ◌↔◌, ◌≡◌, ◌≢◌, ◌≤◌,
}
use cs551_assignments.Group.Defs.{
  Groups, MsgListPerGroup, duplicate_group, find_empty_group_slot, find_named, is_named,
  max_group_name_len, max_groups,
}
use cs551_assignments.Group.Admin.{open_checked, open_slot, opengroup}
use cs551_assignments.Group.Invariant.Table.{IsValid}

-- Some slot, open or closed, has a name that begins with this one.
abbrev pub IsTaken : Text → Groups → Type 0
IsTaken name s =
    (i : ℕ) × (g : MsgListPerGroup) × (rest : Text) × (get_elem? s.groups_list i ≡ some g)
    × (g.group_name ≡ name ++ rest)

open_slot-ne :
    (name : Text) (s t : Groups) (r : Search) → open_slot name s r ≢ ok (duplicate_group, t)
unfolding open_slot
open_slot-ne name s t (found i) = elim (Option-cases (get_elem? s.groups_list i)) [
  | inl gone ↦ rw gone (λ e. cc)
  | inr (g, at) ↦ rw at (λ e. cc)
]
open_slot-ne name s t absent = λ e. cc
open_slot-ne name s t outside = λ e. cc

IsTaken-of :
    (name : Text) (s : Groups) (r : Search)
    → Searched (is_named name) max_groups s.groups_list r
    → open_checked name s r ≡ ok (duplicate_group, s)
    → IsTaken name s
unfolding open_checked
IsTaken-of name s (found i) h e =
    let p = strncmp_prefix (h.0).group_name name h.2 in (i, h.0, p.0, h.1, p.1)
IsTaken-of name s absent h e = absurd (open_slot-ne name s s (find_empty_group_slot s) e)
IsTaken-of name s outside h e = cc

refused_of :
    (name : Text) (s : Groups) (r : Search)
    → IsValid s
    → Searched (is_named name) max_groups s.groups_list r
    → IsTaken name s
    → open_checked name s r ≡ ok (duplicate_group, s)
unfolding open_checked
refused_of name s (found i) v h k = refl
refused_of name s absent v h (i, g, rest, at, e) =
    let none_named : All (λ y. is_named name y ≡ false) s.groups_list =
      subst (All (λ y. is_named name y ≡ false)) (take_all max_groups s.groups_list v.size) h.1 in
    let miss : strncmp_eq (length name) g.group_name name ≡ false =
      All-get (λ y. is_named name y ≡ false) s.groups_list i none_named at in
    let hit : strncmp_eq (length name) g.group_name name ≡ true =
      subst (λ t. strncmp_eq (length name) t name ≡ true) (sym e) (strncmp_append name rest) in
    cc
refused_of name s outside v h k = absurd (omega (arith, h.0, v.size))

-- In a well-formed table, opengroup refuses a name of 1 to MAX_GROUP_NAME_LEN bytes with
-- DUPLICATE_GROUP exactly if the name of some slot, whether its group is open or closed, begins
-- with it.
pub opengroup-iff-IsTaken :
    (name : Text) (s : Groups)
    → IsValid s
    → 0 < length name
    → length name ≤ max_group_name_len
    → (opengroup (some name) s ≡ ok (duplicate_group, s)) ↔ IsTaken name s
unfolding opengroup find_named
opengroup-iff-IsTaken name s v some_char short =
    let named : (length name == 0) ≡ false = ground arith in
    let not_long : ltb max_group_name_len (length name) ≡ false = ground arith in
    let h = search-Searched (is_named name) max_groups s.groups_list in
    rw (named, not_long)
      (
        λ e. IsTaken-of name s (find_named name s) h e,
        λ k. refused_of name s (find_named name s) v h k,
      )
