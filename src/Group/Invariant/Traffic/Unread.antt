-- ===== src/Group/Invariant/Traffic/Unread.antt =====
-- Which item the loops of receivemsg stop at.
use cs551_assignments.Common.{
  ℕ, zero, suc, ◌≤◌, ◌<◌, ◌≡◌, refl, subst, ◌≢◌, ◌⊎◌, inl, inr, Bool, true, false, List, [], ◌∷◌,
  some, get_elem?, take, length, Search, found, absent, outside, after, search-Searched, Searched,
  All, arith, ◌==◌,
}
use cs551_assignments.Group.Defs.{Item}
use cs551_assignments.Group.Messages.{is_read, find_unread, unread_or}
use cs551_assignments.Group.Invariant.Table.{IsValidItem}

-- The item is there, and `id` is not among its readers.
abbrev pub IsUnread : ℕ → Item → Type 0
IsUnread id m = (m.deleted_flag ≡ false) × (is_read id m ≡ absent)

-- The item is deleted, or `id` is among its readers.
abbrev pub IsSkipped : ℕ → Item → Type 0
IsSkipped id m = (m.deleted_flag ≡ true) ⊎ ((j : ℕ) × (is_read id m ≡ found j))

abbrev pub FindsUnread : ℕ → ℕ → List Item → Search → Type 0
FindsUnread id n ms (found j) =
    (m : Item) × (get_elem? ms j ≡ some m)
    × IsUnread id m
    × (j < n)
    × All (IsSkipped id) (take j ms)
FindsUnread id n ms absent = All (IsSkipped id) (take n ms)
FindsUnread id n ms outside = ⊥

-- On a well-formed item the inner loop stays inside the array.
is_read-inside :
    (rs : List ℕ) (id : ℕ) (m : Item)
    → IsValidItem rs m
    → m.deleted_flag ≡ false
    → is_read id m ≢ outside
unfolding is_read
is_read-inside rs id m v here e =
    let h : Searched (λ x. x == id) m.num_of_read_complete m.readers outside =
      subst (Searched (λ x. x == id) m.num_of_read_complete m.readers) e
        (search-Searched (λ x. x == id) m.num_of_read_complete m.readers) in
    absurd (omega (arith, h.0, v.size, v.bounded here))

FindsUnread-after :
    (id n : ℕ) (m : Item) (ms : List Item) (r : Search)
    → IsSkipped id m
    → FindsUnread id n ms r
    → FindsUnread id (suc n) (m ∷ ms) (after r)
FindsUnread-after id n m ms (found i) k h = (h.0, h.1, h.2, omega (arith, h.3), (k, h.4))
FindsUnread-after id n m ms absent k h = (k, h)
FindsUnread-after id n m ms outside k h = h

FindsUnread-cons :
    (rs : List ℕ) (id n : ℕ) (m : Item) (ms : List Item) (b : Bool) (r rest : Search)
    → IsValidItem rs m
    → m.deleted_flag ≡ b
    → is_read id m ≡ r
    → FindsUnread id n ms rest
    → FindsUnread id (suc n) (m ∷ ms) (unread_or b r (after rest))
FindsUnread-cons rs id n m ms true r rest v d e h = FindsUnread-after id n m ms rest (inl d) h
FindsUnread-cons rs id n m ms false (found j) rest v d e h =
    FindsUnread-after id n m ms rest (inr (j, e)) h
FindsUnread-cons rs id n m ms false absent rest v d e h = (m, refl, (d, e), omega arith, tt)
FindsUnread-cons rs id n m ms false outside rest v d e h = is_read-inside rs id m v d e

pub find_unread_lem :
    (rs : List ℕ) (id n : ℕ) (ms : List Item)
    → n ≤ length ms
    → All (IsValidItem rs) ms
    → FindsUnread id n ms (find_unread id n ms)
unfolding find_unread
find_unread_lem rs id zero ms l v = tt
find_unread_lem rs id (suc n) [] l v = absurd (omega arith)
find_unread_lem rs id (suc n) (m ∷ ms) l v =
    FindsUnread-cons rs id n m ms m.deleted_flag (is_read id m) (find_unread id n ms) v.0 refl refl
      (find_unread_lem rs id n ms (omega arith) v.1)
