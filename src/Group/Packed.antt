-- ===== src/Group/Packed.antt =====
-- Tables of project2/grpmsgdef.c whose open groups come first, as they are where none was closed.
use native.Mathlib.Decide.{ℕ_discrete}
use cs551_assignments.Common.{
  All, All-get, All-replicate, Bool-cases, List, Search, Searched, Text, [], absent, ap, arith,
  false, found, get_elem?, get_elem?-set_ne, get_elem?-set_self, get_of_lt-length, inl, inr, length,
  lt-length_of_get, ltb, ltb→lt, not, ok, outside, pos, pos_part, refl, replicate, search-Searched,
  search-found, set, some, strncmp_self, subst, suc, sym, take, take-set, take_all, true, zero, ℕ,
  ◌+ℤ◌, ◌+◌, ◌<◌, ◌==◌, ◌∙◌, ◌∷◌, ◌≡◌, ◌≤◌,
}
use cs551_assignments.Group.Defs.{
  Groups, MsgListPerGroup, find_empty_group_slot, find_named, find_open, group_name_len_overflow,
  groups_init, inp_err_null_group_name, is_named, is_open_named, max_group_name_len, max_groups,
  messaging_success, zero_group,
}
use cs551_assignments.Group.Admin.{Call, open_checked, open_slot, opened, opengroup}
use cs551_assignments.Group.Invariant.Table.{IsValid}

-- The first n groups are open, the others are closed, and `numGroups` is n.
pub record IsPacked (n : ℕ) (s : Groups) : Type 0 where
  pub count : s.num_groups ≡ pos n
  pub first :
      (i : ℕ) {g : MsgListPerGroup}
      → i < n
      → get_elem? s.groups_list i ≡ some g
      → g.open_flag ≡ true
  pub rest :
      (i : ℕ) {g : MsgListPerGroup}
      → n ≤ i
      → get_elem? s.groups_list i ≡ some g
      → g.open_flag ≡ false

-- The group that opengroup opens in the table `s`, in slot n of the table `t`.
pub record Opens (name : Text) (n : ℕ) (s t : Groups) : Type 0 where
  pub group : MsgListPerGroup
  pub old : get_elem? s.groups_list n ≡ some group
  pub leaves : t ≡ record s {
    groups_list = set s.groups_list n (opened name group);
    num_groups = s.num_groups +ℤ pos 1;
  }
  pub fresh : All (λ g. is_named name g ≡ false) s.groups_list

get-take :
    {A : Type 0} (P : A → Type 0) (j i : ℕ) (xs : List A) {v : A}
    → i < j
    → All P (take j xs)
    → get_elem? xs i ≡ some v
    → P v
get-take P j i [] l h e = cc
get-take P zero i (x ∷ xs) l h e = absurd (omega arith)
get-take P (suc j) zero (x ∷ xs) l h e = subst P (cc) h.0
get-take P (suc j) (suc i) (x ∷ xs) l h e = get-take P j i xs (omega arith) h.1 e

All-take :
    {A : Type 0} (P Q : A → Type 0) (n : ℕ) (xs : List A)
    → ((a : A) → P a → Q a)
    → All P xs
    → All Q (take n xs)
All-take P Q zero xs f h = tt
All-take P Q (suc n) [] f h = tt
All-take P Q (suc n) (x ∷ xs) f h = (f x h.0, All-take P Q n xs f h.1)

first_closed :
    (n j : ℕ) (s : Groups)
    → IsValid s
    → IsPacked n s
    → Searched (λ g. not g.open_flag) max_groups s.groups_list (found j)
    → j ≡ n
first_closed n j s v p h = elim (Bool-cases (ltb j n)) [
  | inl below ↦ let o = p.first j (ltb→lt _ _ below) h.1 in absurd (ground (arith, o, h.2))
  | inr above ↦ elim (Bool-cases (ltb n j)) [
    | inr equal ↦ ground arith
    | inl over ↦
        let there =
          get_of_lt-length s.groups_list n (omega (arith, ltb→lt n j over, h.3, v.size)) in
        let shut = p.rest n (omega arith) there.1 in
        let o =
          get-take (λ g. not g.open_flag ≡ false) j n s.groups_list (ltb→lt n j over) h.4 there.1 in
        absurd (ground (arith, o, shut))
  ]
]

slot-Opens :
    (name : Text) (n : ℕ) (s t : Groups) (r : Search)
    → IsValid s
    → IsPacked n s
    → All (λ g. is_named name g ≡ false) s.groups_list
    → Searched (λ g. not g.open_flag) max_groups s.groups_list r
    → open_slot name s r ≡ ok (messaging_success, t)
    → Opens name n s t
unfolding open_slot
slot-Opens name n s t (found j) v p fresh h e =
    let q : j ≡ n = first_closed n j s v p h in
    record {
      group = h.0;
      old = subst (λ k. get_elem? s.groups_list k ≡ some h.0) q h.1;
      leaves =
          subst
            (λ k. t ≡ record s {
              groups_list = set s.groups_list k (opened name h.0);
              num_groups = s.num_groups +ℤ pos 1;
            })
            q (taken (rw h.1 at e));
      fresh = fresh;
    }
  where
    taken :
        {a b : Groups}
        → ◌≡◌ {A = Call} (ok (messaging_success, a)) (ok (messaging_success, b))
        → b ≡ a
    taken p = cc
slot-Opens name n s t absent v p fresh h e = cc
slot-Opens name n s t outside v p fresh h e = cc

checked-Opens :
    (name : Text) (n : ℕ) (s t : Groups) (r : Search)
    → IsValid s
    → IsPacked n s
    → Searched (is_named name) max_groups s.groups_list r
    → open_checked name s r ≡ ok (messaging_success, t)
    → Opens name n s t
unfolding open_checked find_empty_group_slot
checked-Opens name n s t (found i) v p h e = cc
checked-Opens name n s t absent v p h e =
    slot-Opens name n s t (find_empty_group_slot s) v p
      (subst (All (λ g. is_named name g ≡ false)) (take_all max_groups s.groups_list v.size) h.1)
      (search-Searched (λ g. not g.open_flag) max_groups s.groups_list) e
checked-Opens name n s t outside v p h e = cc

opengroup-Opens :
    (name : Text) (n : ℕ) (s t : Groups)
    → IsValid s
    → IsPacked n s
    → opengroup (some name) s ≡ ok (messaging_success, t)
    → Opens name n s t
unfolding opengroup find_named
opengroup-Opens name n s t v p e = elim (Bool-cases (length name == 0)) [
  | inl z ↦ absurd (never (rw z at e))
  | inr z ↦ elim (Bool-cases (ltb max_group_name_len (length name))) [
    | inl l ↦ absurd (never' (rw (z, l) at e))
    | inr l ↦
        checked-Opens name n s t (find_named name s) v p
          (search-Searched (is_named name) max_groups s.groups_list) (rw (z, l) at e)
  ]
]
  where
    never : ◌≡◌ {A = Call} (ok (inp_err_null_group_name, s)) (ok (messaging_success, t)) → ⊥
    never q = cc

    never' : ◌≡◌ {A = Call} (ok (group_name_len_overflow, s)) (ok (messaging_success, t)) → ⊥
    never' q = cc

abbrev with_group : Text → ℕ → Groups → MsgListPerGroup → Groups
with_group name n s g = record s {
  groups_list = set s.groups_list n (opened name g);
  num_groups = s.num_groups +ℤ pos 1;
}

one_more : (n : ℕ) → pos n +ℤ pos 1 ≡ pos (n + 1)
unfolding ◌+ℤ◌
one_more n = ground arith

-- Opening a group keeps the table packed.
with_group-IsPacked :
    (name : Text) (n : ℕ) (s : Groups) (g : MsgListPerGroup)
    → IsPacked n s
    → get_elem? s.groups_list n ≡ some g
    → IsPacked (n + 1) (with_group name n s g)
with_group-IsPacked name n s g p old = record {
  count = ap (λ z. z +ℤ pos 1) p.count ∙ one_more n;
  first = λ i {g = h} l at. elim (ℕ_discrete n i) [
    | yes e ↦
        let new : h ≡ opened name g = some_of (
          sym at
          ∙ subst (λ k. get_elem? (set s.groups_list n (opened name g)) k ≡ some (opened name g)) e
              (get_elem?-set_self s.groups_list n (opened name g)
                (lt-length_of_get s.groups_list n old))) in
        ap (λ k. k.open_flag) new
    | no ne ↦
        p.first i (ground (arith, ne))
          (sym (get_elem?-set_ne s.groups_list n i (opened name g) ne) ∙ at)
  ];
  rest = λ i l at. p.rest i (omega arith) (
      sym (get_elem?-set_ne s.groups_list n i (opened name g) (λ q. absurd (omega (arith, q))))
      ∙ at);
}
  where
    some_of : {a b : MsgListPerGroup} → some a ≡ some b → a ≡ b
    some_of e = cc

with_group-found :
    (name : Text) (n : ℕ) (s : Groups) (g : MsgListPerGroup)
    → IsPacked n s
    → get_elem? s.groups_list n ≡ some g
    → All (λ h. is_named name h ≡ false) s.groups_list
    → find_open name (with_group name n s g) ≡ found n
unfolding find_open
with_group-found name n s g p old fresh =
    let size : pos_part (s.num_groups +ℤ pos 1) ≡ n + 1 =
      ap pos_part (ap (λ z. z +ℤ pos 1) p.count ∙ one_more n) in
    rw size (
      search-found (is_open_named name) (n + 1) n (set s.groups_list n (opened name g))
        (get_elem?-set_self s.groups_list n (opened name g) (lt-length_of_get s.groups_list n old))
        (strncmp_self name) (omega arith)
        (subst (All (λ h. is_open_named name h ≡ false))
          (sym (take-set n s.groups_list (opened name g)))
          (All-take (λ h. is_named name h ≡ false) (λ h. is_open_named name h ≡ false) n
            s.groups_list (λ h e. ground (arith, e)) fresh)))

-- In a well-formed table in which the open groups come first and `numGroups` counts them, an
-- opengroup that succeeds opens the next slot: the name then finds that group, which has the name
-- and no sender and no receiver; and the open groups still come first, with one more counted.
pub opengroup-IsPacked :
    (name : Text) (n : ℕ) (s t : Groups)
    → IsValid s
    → IsPacked n s
    → opengroup (some name) s ≡ ok (messaging_success, t)
    → IsPacked (n + 1) t
      × (find_open name t ≡ found n)
      × (g : MsgListPerGroup) × (get_elem? t.groups_list n ≡ some g)
      × (g.group_name ≡ name)
      × (g.senders.curr_num ≡ 0)
      × (g.receivers.curr_num ≡ 0)
opengroup-IsPacked name n s t v p e =
    let o = opengroup-Opens name n s t v p e in
    let room = lt-length_of_get s.groups_list n o.old in
    (
      subst (IsPacked (n + 1)) (sym o.leaves) (with_group-IsPacked name n s o.group p o.old),
      ap (find_open name) o.leaves ∙ with_group-found name n s o.group p o.old o.fresh,
      opened name o.group,
      ap (λ u. get_elem? u.groups_list n) o.leaves
          ∙ get_elem?-set_self s.groups_list n (opened name o.group) room,
      refl,
      refl,
      refl,
    )

pub groups_init-IsPacked : IsPacked 0 groups_init
unfolding groups_init
groups_init-IsPacked = record {
  count = refl;
  first = λ i l at. absurd (omega arith);
  rest = λ i l at.
      All-get (λ g. g.open_flag ≡ false) (replicate max_groups zero_group) i
        (All-replicate (λ g. g.open_flag ≡ false) max_groups zero_group refl) at;
}
