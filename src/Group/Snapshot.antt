-- ===== src/Group/Snapshot.antt =====
-- print_buffer_snapshot and print_group_snapshot of project2/grpmsgdef.c, from the table to what they
-- print.
use Prim.Native.String.{String}
use cs551_assignments.Common.{
  All, Bool-cases, List, Run, Text, [], arith, fault, get_elem?, get_of_lt-length, if◌then◌else◌,
  in_range, inl, inr, length, ltb, ok, pos_part, refl, suc, zero, ℕ, ◌++◌, ◌+◌, ◌<◌, ◌>>=◌, ◌∷◌,
  ◌≡◌, ◌≤◌,
}
use cs551_assignments.Group.Defs.{
  Groups, Item, MsgListPerGroup, max_group_name_len, max_groups, max_mesg_len,
}
use cs551_assignments.Group.Invariant.Table.{
  IsInside, IsValid, IsValidGroup, IsValidItem, get-IsValidGroup, receivers_of,
}

-- What the formats print.
pub data Piece : Type 0 where
  label : String → Piece
  number : ℕ → Piece
  string : Text → Piece

abbrev pub Output : Type 0
Output = List Piece

-- `for(int j = 0; j < n; j++)` over an array, from the element `j` on.
unfoldable pub print_each : {A : Type 0} → (ℕ → A → Run Output) → ℕ → ℕ → List A → Run Output
print_each f zero j xs = ok []
print_each f (suc n) j [] = fault
print_each f (suc n) j (x ∷ xs) = do out ← f j x; rest ← print_each f n (j + 1) xs; ok (out ++ rest)

-- `%s` of an array of `n` bytes.
abbrev pub print_string : ℕ → Text → Run Output
print_string n t = if ltb (length t) n then ok (string t ∷ []) else fault

abbrev pub print_id : ℕ → ℕ → Run Output
print_id j x = ok (number x ∷ label "," ∷ [])

abbrev item_output : ℕ → Item → Output → Output → Output
item_output j m mesg readers =
    (label "Item " ∷ number j ∷ label ":" ∷ mesg)
    ++ (label "Deleted Flag:"
        ∷ number 0
        ∷ label "Num_read_receivers:"
        ∷ number m.num_of_read_complete
        ∷ readers)

-- A message that is not deleted, with its readers.
abbrev pub print_present : ℕ → Item → Run Output
print_present j m = do
  mesg ← print_string max_mesg_len m.mesg
  readers ← print_each print_id m.num_of_read_complete 0 m.readers
  ok (item_output j m mesg readers)

unfoldable pub print_item : ℕ → Item → Run Output
print_item j m = if m.deleted_flag then ok [] else print_present j m

abbrev group_output : ℕ → MsgListPerGroup → Output → Output → Output → Output → Output
group_output i g name senders receivers items =
    (label "Group " ∷ number i ∷ name)
    ++ (label "Senders List:" ∷ number g.senders.curr_num ∷ senders)
    ++ (label "Receivers List:" ∷ receivers)
    ++ (label "Items List:" ∷ items)

-- The body that both functions have.
unfoldable pub print_group : ℕ → MsgListPerGroup → Run Output
print_group i g = do
  name ← print_string (max_group_name_len + 1) g.group_name
  senders ← print_each print_id g.senders.curr_num 0 g.senders.sender_list
  receivers ← print_each print_id g.receivers.curr_num 0 g.receivers.receiver_list
  items ← print_each print_item 50 0 g.i_list.items_list
  ok (group_output i g name senders receivers items)

unfoldable pub print_buffer_snapshot : Groups → Run Output
print_buffer_snapshot s = do
  groups ← print_each print_group (pos_part s.num_groups) 0 s.groups_list
  ok (label "Group List:" ∷ groups)

unfoldable pub print_group_snapshot : ℕ → Groups → Run Output
print_group_snapshot i s = do g ← in_range (get_elem? s.groups_list i); print_group i g

-- It returns, and so has left no array.
abbrev pub Prints : Run Output → Type 0
Prints r = (out : Output) × (r ≡ ok out)

print_each-Prints :
    {A : Type 0} (P : A → Type 0) (f : ℕ → A → Run Output)
    → ((j : ℕ) (x : A) → P x → Prints (f j x))
    → (n j : ℕ) (xs : List A) → n ≤ length xs
    → All P xs
    → Prints (print_each f n j xs)
unfolding print_each
print_each-Prints P f prints zero j xs l h = ([], refl)
print_each-Prints P f prints (suc n) j [] l h = absurd (omega arith)
print_each-Prints P f prints (suc n) j (x ∷ xs) l h =
    let (out, e) = prints j x h.0 in
    let (rest, e') = print_each-Prints P f prints n (j + 1) xs (omega arith) h.1 in
    (out ++ rest, rw (e, e') refl)

All_any : (xs : List ℕ) → All (λ x. Unit {0}) xs
All_any [] = tt
All_any (x ∷ xs) = (tt, All_any xs)

print_string-Prints : (n : ℕ) (t : Text) → length t < n → Prints (print_string n t)
print_string-Prints n t l = (string t ∷ [], ground arith)

print_ids-Prints : (n : ℕ) (xs : List ℕ) → n ≤ length xs → Prints (print_each print_id n 0 xs)
print_ids-Prints n xs l =
    print_each-Prints (λ x. Unit {0}) print_id (λ j x u. (_, refl)) n 0 xs l (All_any xs)

print_item-Prints : (rs : List ℕ) (j : ℕ) (m : Item) → IsValidItem rs m → Prints (print_item j m)
unfolding print_item
print_item-Prints rs j m v = elim (Bool-cases m.deleted_flag) [
  | inl e ↦ ([], rw e refl)
  | inr e ↦
      let (mesg, p) = print_string-Prints max_mesg_len m.mesg v.fits in
      let (readers, q) =
        print_ids-Prints m.num_of_read_complete m.readers (omega (arith, v.bounded e, v.size)) in
      (item_output j m mesg readers, rw (e, p, q) refl)
]

print_group-Prints : (i : ℕ) (g : MsgListPerGroup) → IsValidGroup g → Prints (print_group i g)
unfolding print_group
print_group-Prints i g v =
    let (name, p) = print_string-Prints (max_group_name_len + 1) g.group_name (omega arith) in
    let (senders, q) = print_ids-Prints g.senders.curr_num g.senders.sender_list (omega arith) in
    let (receivers, r) =
      print_ids-Prints g.receivers.curr_num g.receivers.receiver_list (omega arith) in
    let (items, t) =
      print_each-Prints (IsValidItem (receivers_of g)) print_item
        (print_item-Prints (receivers_of g)) 50 0 g.i_list.items_list (omega arith) v.items in
    (group_output i g name senders receivers items, rw (p, q, r, t) refl)

-- A loop that is longer than the array leaves it, if nothing else before.
print_each-past :
    {A : Type 0} (f : ℕ → A → Run Output) (n j : ℕ) (xs : List A)
    → length xs < n
    → print_each f n j xs ≡ fault
unfolding print_each
print_each-past f zero j xs l = absurd (omega arith)
print_each-past f (suc n) j [] l = refl
print_each-past f (suc n) j (x ∷ xs) l =
    rw (print_each-past f n (j + 1) xs (omega (arith, l))) (either (f j x))
  where
    left : Run Output
    left = fault

    either : (r : Run Output) → (r >>= λ out. left >>= λ rest. ok (out ++ rest)) ≡ fault
    either (ok out) = refl
    either fault = refl

-- On every well-formed table the snapshot of a group stays in its arrays, for each index of the
-- table, and the snapshot of the whole table does so exactly if `numGroups` is at most ten.
pub snapshots-Print :
    {s : Groups}
    → IsValid s
    → ((i : ℕ) → i < max_groups → Prints (print_group_snapshot i s))
      × (IsInside s → Prints (print_buffer_snapshot s))
      × (max_groups < pos_part s.num_groups → print_buffer_snapshot s ≡ fault)
unfolding print_buffer_snapshot print_group_snapshot
snapshots-Print {s} v = (one, all, past)
  where
    one : (i : ℕ) → i < max_groups → Prints (print_group_snapshot i s)
    one i l =
        let (g, at) = get_of_lt-length s.groups_list i (omega (arith, l, v.size)) in
        let (out, printed) = print_group-Prints i g (get-IsValidGroup s i v at) in
        (out, rw (at, printed) refl)

    all : IsInside s → Prints (print_buffer_snapshot s)
    all inside =
        let (groups, e) =
          print_each-Prints IsValidGroup print_group print_group-Prints (pos_part s.num_groups) 0
            s.groups_list (omega (arith, inside, v.size)) v.groups in
        (label "Group List:" ∷ groups, rw e refl)

    past : max_groups < pos_part s.num_groups → print_buffer_snapshot s ≡ fault
    past l =
        rw
          (print_each-past print_group (pos_part s.num_groups) 0 s.groups_list
            (omega (arith, l, v.size)))
          refl
