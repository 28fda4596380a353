-- ===== src/Group/Counting.antt =====
-- `numGroups` of project2/grpmsgdef.c: what it counts, and what a search bounded by it misses.
use cs551_assignments.Common.{
  Bool, Bool-cases, List, Option, Run, Search, Searched, Text, [], absent, ap, arith, false, found,
  get_elem?, if◌then◌else◌, inl, inr, length, ltb, none, not, ok, outside, pos, pos_part, refl,
  search-Searched, set, some, subst, suc, true, zero, ℕ, ◌+ℤ◌, ◌+◌, ◌-ℤ◌, ◌==◌, ◌∷◌, ◌≡◌, ◌≤◌, ◌⊎◌,
}
use cs551_assignments.Group.Defs.{
  Code, Groups, MsgListPerGroup, find_empty_group_slot, find_named, is_named, max_group_name_len,
  max_groups,
}
use cs551_assignments.Group.Admin.{
  Call, close_slot, closegroup, open_checked, open_slot, opened, opengroup, recover_slot,
  recovergroup, reset_items, with_name,
}
use cs551_assignments.Group.Invariant.Table.{IsInside, IsValid}

unfoldable pub count_open : List MsgListPerGroup → ℕ
count_open [] = 0
count_open (g ∷ gs) = (if g.open_flag then 1 else 0) + count_open gs

count_open-le-length : (gs : List MsgListPerGroup) → count_open gs ≤ length gs
unfolding count_open
count_open-le-length [] = omega arith
count_open-le-length (g ∷ gs) = ground (arith, count_open-le-length gs)

-- `numGroups` is the number of open groups.
abbrev pub IsCounted : Groups → Type 0
IsCounted s = s.num_groups ≡ pos (count_open s.groups_list)

-- Then a search bounded by it stays in the table.
pub IsCounted-IsInside : (s : Groups) → IsValid s → IsCounted s → IsInside s
IsCounted-IsInside s v c = omega (arith, ap pos_part c, count_open-le-length s.groups_list, v.size)

abbrev bit : MsgListPerGroup → ℕ
bit g = if g.open_flag then 1 else 0

count_open-set :
    (gs : List MsgListPerGroup) (i : ℕ) (g g' : MsgListPerGroup)
    → get_elem? gs i ≡ some g
    → count_open (set gs i g') + bit g ≡ count_open gs + bit g'
unfolding count_open
count_open-set [] i g g' e = cc
count_open-set (x ∷ gs) zero g g' e =
    let h : x ≡ g = cc in
    subst (λ y. bit g' + count_open gs + bit y ≡ bit x + count_open gs + bit g') h (omega arith)
count_open-set (x ∷ gs) (suc i) g g' e = omega (arith, count_open-set gs i g g' e)

pub count_open-set_same :
    (gs : List MsgListPerGroup) (i : ℕ) (g g' : MsgListPerGroup)
    → get_elem? gs i ≡ some g
    → g'.open_flag ≡ g.open_flag
    → count_open (set gs i g') ≡ count_open gs
count_open-set_same gs i g g' e same = ground (arith, count_open-set gs i g g' e)

-- A call that sets the flag of a closed group adds one to both sides.
opens-IsCounted :
    (s : Groups) (i : ℕ) (g g' : MsgListPerGroup)
    → IsCounted s
    → get_elem? s.groups_list i ≡ some g
    → g.open_flag ≡ false
    → g'.open_flag ≡ true
    → s.num_groups +ℤ pos 1 ≡ pos (count_open (set s.groups_list i g'))
unfolding ◌+ℤ◌
opens-IsCounted s i g g' c at shut open' =
    ground (arith, c, count_open-set s.groups_list i g g' at, shut, open')

closes-IsCounted :
    (s : Groups) (i : ℕ) (g g' : MsgListPerGroup)
    → IsCounted s
    → get_elem? s.groups_list i ≡ some g
    → g.open_flag ≡ true
    → g'.open_flag ≡ false
    → s.num_groups -ℤ pos 1 ≡ pos (count_open (set s.groups_list i g'))
unfolding ◌-ℤ◌
closes-IsCounted s i g g' c at open' shut =
    ground (arith, c, count_open-set s.groups_list i g g' at, open', shut)

open_slot-IsCounted :
    (name : Text) (s : Groups) (r : Search)
    → IsCounted s
    → Searched (λ g. not g.open_flag) max_groups s.groups_list r
    → (c : Code) (t : Groups) → open_slot name s r ≡ ok (c, t)
    → IsCounted t
unfolding open_slot
open_slot-IsCounted name s (found i) k h c t e =
    subst IsCounted (taken (rw h.1 at e))
      (opens-IsCounted s i h.0 (opened name h.0) k h.1 (ground (arith, h.2)) refl)
  where
    taken :
        {A : Type 0} {x y : Code} {a b : A}
        → ◌≡◌ {A = Run (Code × A)} (ok (x, a)) (ok (y, b))
        → a ≡ b
    taken p = cc
open_slot-IsCounted name s absent k h c t e = subst IsCounted (cc) k
open_slot-IsCounted name s outside k h c t e = cc

-- If a name finds a slot, its flag is `b`.
abbrev pub FindsFlag : Bool → Text → Groups → Type 0
FindsFlag b name s =
    (i : ℕ) (g : MsgListPerGroup)
    → find_named name s ≡ found i
    → get_elem? s.groups_list i ≡ some g
    → g.open_flag ≡ b

taken :
    {A : Type 0} {x y : Code} {a b : A} → ◌≡◌ {A = Run (Code × A)} (ok (x, a)) (ok (y, b)) → a ≡ b
taken p = cc

close_slot-IsCounted :
    (name : Text) (s : Groups) (r : Search)
    → IsCounted s
    → FindsFlag true name s
    → find_named name s ≡ r
    → Searched (is_named name) max_groups s.groups_list r
    → (c : Code) (t : Groups) → close_slot s r ≡ ok (c, t)
    → IsCounted t
unfolding close_slot
close_slot-IsCounted name s (found i) k f r h c t e =
    subst IsCounted (taken (rw h.1 at e))
      (closes-IsCounted s i h.0 (record (h.0) { open_flag = false }) k h.1 (f i h.0 r h.1) refl)
close_slot-IsCounted name s absent k f r h c t e = subst IsCounted (cc) k
close_slot-IsCounted name s outside k f r h c t e = cc

recover_slot-IsCounted :
    (name : Text) (s : Groups) (r : Search)
    → IsCounted s
    → FindsFlag false name s
    → find_named name s ≡ r
    → Searched (is_named name) max_groups s.groups_list r
    → (c : Code) (t : Groups) → recover_slot s r ≡ ok (c, t)
    → IsCounted t
unfolding recover_slot
recover_slot-IsCounted name s (found i) k f r h c t e = subst IsCounted (taken (rw h.1 at e)) (
    opens-IsCounted s i h.0 (record (reset_items h.0) { open_flag = true }) k h.1 (f i h.0 r h.1)
      refl)
recover_slot-IsCounted name s absent k f r h c t e = subst IsCounted (cc) k
recover_slot-IsCounted name s outside k f r h c t e = cc

-- A call that returns leaves the table as it was, or passed the checks of the name.
with_name-cases :
    (name : Option Text) (s : Groups) (call : Text → Call) (c : Code) (t : Groups)
    → with_name name s call ≡ ok (c, t)
    → (s ≡ t) ⊎ ((n : Text) × (name ≡ some n) × (call n ≡ ok (c, t)))
with_name-cases none s call c t e = inl (cc)
with_name-cases (some n) s call c t e = elim (Bool-cases (length n == 0)) [
  | inl z ↦ inl (taken (rw z at e))
  | inr z ↦ elim (Bool-cases (ltb max_group_name_len (length n))) [
    | inl l ↦ inl (taken (rw (z, l) at e))
    | inr l ↦ inr (n, refl, rw (z, l) at e)
  ]
]

-- If `numGroups` is the number of open groups, it still is when opengroup has returned.
pub opengroup-IsCounted :
    (name : Option Text) (s : Groups) (c : Code) (t : Groups)
    → IsCounted s
    → opengroup name s ≡ ok (c, t)
    → IsCounted t
unfolding opengroup
opengroup-IsCounted name s c t k e =
    elim (with_name-cases name s (λ n. open_checked n s (find_named n s)) c t e) [
      | inl same ↦ subst IsCounted same k
      | inr (n, _, e') ↦ checked n (find_named n s) e'
    ]
  where
    checked : (n : Text) (r : Search) → open_checked n s r ≡ ok (c, t) → IsCounted t
    checked n (found i) e = subst IsCounted (taken e) k
    checked n absent e =
        open_slot-IsCounted n s (find_empty_group_slot s) k
          (unfold find_empty_group_slot in search-Searched _ _ _) c t (unfold open_checked in e)
    checked n outside e = cc

-- If `numGroups` is the number of open groups, and any group that the name finds is open, it
-- still is when closegroup has returned.
pub closegroup-IsCounted :
    (name : Text) (s : Groups) (c : Code) (t : Groups)
    → IsCounted s
    → FindsFlag true name s
    → closegroup (some name) s ≡ ok (c, t)
    → IsCounted t
unfolding closegroup
closegroup-IsCounted name s c t k f e =
    elim (with_name-cases (some name) s (λ n. close_slot s (find_named n s)) c t e) [
      | inl same ↦ subst IsCounted same k
      | inr (n, p, e') ↦
          let q : name ≡ n = cc in
          close_slot-IsCounted n s (find_named n s) k (subst (λ x. FindsFlag true x s) q f) refl
            (unfold find_named in search-Searched _ _ _) c t e'
    ]

-- If `numGroups` is the number of open groups, and any group that the name finds is closed, it
-- still is when recovergroup has returned.
pub recovergroup-IsCounted :
    (name : Text) (s : Groups) (c : Code) (t : Groups)
    → IsCounted s
    → FindsFlag false name s
    → recovergroup (some name) s ≡ ok (c, t)
    → IsCounted t
unfolding recovergroup
recovergroup-IsCounted name s c t k f e =
    elim (with_name-cases (some name) s (λ n. recover_slot s (find_named n s)) c t e) [
      | inl same ↦ subst IsCounted same k
      | inr (n, p, e') ↦
          let q : name ≡ n = cc in
          recover_slot-IsCounted n s (find_named n s) k (subst (λ x. FindsFlag false x s) q f) refl
            (unfold find_named in search-Searched _ _ _) c t e'
    ]
