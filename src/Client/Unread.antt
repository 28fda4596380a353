-- ===== src/Client/Unread.antt =====
-- The messages of project2/grpmsgdef.c that a receiver has not read.
use cs551_assignments.Common.{
  All, Bool, Bool-cases, List, Search, Text, [], absent, ap, arith, false, found, get_elem?, inl,
  inr, length, outside, refl, set, some, suc, sym, take, true, zero, ℕ, ◌∙◌, ◌∷◌, ◌≡◌, ◌≤◌,
}
use cs551_assignments.Group.Defs.{Item}
use cs551_assignments.Group.Messages.{is_read}
use cs551_assignments.Group.Invariant.Traffic.Unread.{IsSkipped, IsUnread}

abbrev text_or : Bool → Search → Text → List Text → List Text
text_or true r text rest = rest
text_or false (found j) text rest = rest
text_or false absent text rest = text ∷ rest
text_or false outside text rest = rest

-- The texts that `id` has not read, in the order of their slots.
unfoldable pub unread_texts : ℕ → List Item → List Text
unread_texts id [] = []
unread_texts id (m ∷ ms) = text_or m.deleted_flag (is_read id m) m.mesg (unread_texts id ms)

unread_texts-skip :
    (id : ℕ) (m : Item) (ms : List Item)
    → IsSkipped id m
    → unread_texts id (m ∷ ms) ≡ unread_texts id ms
unfolding unread_texts is_read
unread_texts-skip id m ms (inl gone) = rw gone
unread_texts-skip id m ms (inr (j, e)) = elim (Bool-cases m.deleted_flag) [
  | inl gone ↦ rw gone
  | inr here ↦ rw (here, e)
]

pub unread_texts-none : (id : ℕ) (ms : List Item) → All (IsSkipped id) ms → unread_texts id ms ≡ []
unfolding unread_texts
unread_texts-none id [] h = refl
unread_texts-none id (m ∷ ms) h = unread_texts-skip id m ms h.0 ∙ unread_texts-none id ms h.1

-- Reading the first of them leaves the others.
pub unread_texts-first :
    (id j : ℕ) (ms : List Item) (m m' : Item)
    → get_elem? ms j ≡ some m
    → IsUnread id m
    → All (IsSkipped id) (take j ms)
    → IsSkipped id m'
    → unread_texts id ms ≡ m.mesg ∷ unread_texts id (set ms j m')
unfolding unread_texts is_read
unread_texts-first id j [] m m' at u h k = cc
unread_texts-first id zero (x ∷ ms) m m' at u h k =
    let q : x ≡ m = cc in
    rw (q, u.0, u.1) (ap (λ ts. m.mesg ∷ ts) (sym (unread_texts-skip id m' ms k)))
unread_texts-first id (suc j) (x ∷ ms) m m' at u h k =
    unread_texts-skip id x ms h.0
    ∙ unread_texts-first id j ms m m' at u h.1 k
    ∙ ap (λ ts. m.mesg ∷ ts) (sym (unread_texts-skip id x (set ms j m') h.0))

pub unread_texts-le : (id : ℕ) (ms : List Item) → length (unread_texts id ms) ≤ length ms
unfolding unread_texts
unread_texts-le id [] = omega arith
unread_texts-le id (m ∷ ms) =
    one m.deleted_flag (is_read id m) (unread_texts id ms) (unread_texts-le id ms)
  where
    one :
        (b : Bool) (r : Search) (rest : List Text)
        → length rest ≤ length ms
        → length (text_or b r m.mesg rest) ≤ suc (length ms)
    one true r rest h = omega (arith, h)
    one false (found j) rest h = omega (arith, h)
    one false absent rest h = omega (arith, h)
    one false outside rest h = omega (arith, h)
