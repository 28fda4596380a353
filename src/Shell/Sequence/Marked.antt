-- ===== src/Shell/Sequence/Marked.antt =====
-- Where the first loop of changesequence in CS551P1/CS551P1/main.c ends.
use cs551_assignments.Common.{
  Bool-cases, Text, [], arith, drop, false, get_elem?, inl, inr, pos, pos_part, refl, some, true, ℕ,
  ℤ, ◌+ℤ◌, ◌+◌, ◌-ℤ◌, ◌==◌, ◌∷◌, ◌≡◌, ◌⊎◌,
}
use cs551_assignments.Shell.Lexer.{strchr}
use cs551_assignments.Shell.Sequence.{Marks, is_zero, opened, find_marks}
use cs551_assignments.Shell.Sequence.Weight.{get-drop}

-- There is no opening parenthesis.
pub record IsPlain (s : Text) (fin : ℕ) (m : Marks) : Type 0 where
  pub paren : m.paren ≡ false
  pub left : m.left ≡ 0
  pub right : m.right ≡ fin
  pub none_open : strchr s b'(' ≡ false

-- Each opening one stands behind more closing ones.
pub record IsLate (fin : ℕ) (m : Marks) : Type 0 where
  pub paren : m.paren ≡ true
  pub left : m.left ≡ 0
  pub right : m.right ≡ fin
  pub times : pos_part m.times ≡ 0

-- `left` is the place of an opening one.
pub record IsOpened (d : Text) (fin : ℕ) (m : Marks) : Type 0 where
  pub paren : m.paren ≡ true
  pub left : get_elem? d m.left ≡ some b'('
  pub right : (m.right ≡ fin) ⊎ (get_elem? d m.right ≡ some b')')

is_zero-pred : (t : ℤ) → pos_part t ≡ 0 → is_zero (t -ℤ pos 1) ≡ false
unfolding ◌-ℤ◌
is_zero-pred t h = ground arith

pos_part-pred : (t : ℤ) → pos_part t ≡ 0 → pos_part (t -ℤ pos 1) ≡ 0
unfolding ◌-ℤ◌
pos_part-pred t h = ground arith

pos_part-suc : (t : ℤ) → pos_part t ≡ 0 → is_zero t ≡ false → pos_part (t +ℤ pos 1) ≡ 0
unfolding ◌+ℤ◌
pos_part-suc t h n = ground arith

-- A closing parenthesis that does not end the loop.
abbrev passed : Marks → Marks
passed m = record m { times = m.times -ℤ pos 1 }

find_marks-IsOpened :
    (d s : Text) (i fin : ℕ) (m : Marks)
    → m.paren ≡ true
    → get_elem? d m.left ≡ some b'('
    → m.right ≡ fin
    → drop i d ≡ s
    → IsOpened d fin (find_marks s i m)
unfolding find_marks
find_marks-IsOpened d [] i fin m p l r e = record { paren = p; left = l; right = inl r }
find_marks-IsOpened d (c ∷ s) i fin m p l r e =
    let (g, e') = get-drop i d c s e in
    elim (Bool-cases (c == b'(')) [
      | inl a ↦
          let is_open : get_elem? d i ≡ some b'(' = rw g (ground (arith, a)) in
          let not_close : (c == b')') ≡ false = ground (arith, a) in
          rw (a, not_close)
            (find_marks-IsOpened d s (i + 1) fin (opened i m) refl
              (elim (Bool-cases (is_zero m.times)) [ inl z ↦ rw z is_open | inr n ↦ rw n l ]) r e')
      | inr a ↦ elim (Bool-cases (c == b')')) [
        | inl b ↦ elim (Bool-cases (is_zero (m.times -ℤ pos 1))) [
          | inl z ↦
              rw (a, b, z) (record { paren = p; left = l; right = inr (rw g (ground (arith, b))) })
          | inr n ↦ rw (a, b, n) (find_marks-IsOpened d s (i + 1) fin (passed m) p l r e')
        ]
        | inr b ↦ rw (a, b) (find_marks-IsOpened d s (i + 1) fin m p l r e')
      ]
    ]

-- An opening parenthesis while `times` is not above 0.
open-step :
    (d s : Text) (i fin : ℕ) (m : Marks)
    → m.left ≡ 0
    → m.right ≡ fin
    → pos_part m.times ≡ 0
    → get_elem? d i ≡ some b'('
    → drop (i + 1) d ≡ s
    → (IsLate fin (opened i m)
        → IsLate fin (find_marks s (i + 1) (opened i m))
          ⊎ IsOpened d fin (find_marks s (i + 1) (opened i m)))
    → IsLate fin (find_marks s (i + 1) (opened i m))
      ⊎ IsOpened d fin (find_marks s (i + 1) (opened i m))
open-step d s i fin m l r t g e next = elim (Bool-cases (is_zero m.times)) [
  | inl z ↦ inr (find_marks-IsOpened d s (i + 1) fin (opened i m) refl (rw z g) r e)
  | inr n ↦
      next (record { paren = refl; left = rw n l; right = r; times = pos_part-suc m.times t n })
]

find_marks-IsLate :
    (d s : Text) (i fin : ℕ) (m : Marks)
    → IsLate fin m
    → drop i d ≡ s
    → IsLate fin (find_marks s i m) ⊎ IsOpened d fin (find_marks s i m)
unfolding find_marks
find_marks-IsLate d [] i fin m h e = inl h
find_marks-IsLate d (c ∷ s) i fin m h e =
    let (g, e') = get-drop i d c s e in
    elim (Bool-cases (c == b'(')) [
      | inl a ↦
          let is_open : get_elem? d i ≡ some b'(' = rw g (ground (arith, a)) in
          let not_close : (c == b')') ≡ false = ground (arith, a) in
          rw (a, not_close)
            (open-step d s i fin m h.left h.right h.times is_open e'
              (λ k. find_marks-IsLate d s (i + 1) fin (opened i m) k e'))
      | inr a ↦ elim (Bool-cases (c == b')')) [
        | inl b ↦
            let n = is_zero-pred m.times h.times in
            rw (a, b, n)
              (find_marks-IsLate d s (i + 1) fin (passed m)
                (record {
                  paren = h.paren;
                  left = h.left;
                  right = h.right;
                  times = pos_part-pred m.times h.times;
                })
                e')
        | inr b ↦ rw (a, b) (find_marks-IsLate d s (i + 1) fin m h e')
      ]
    ]

-- The three ways in which the loop ends.
abbrev pub Ended : Text → Text → ℕ → Marks → Type 0
Ended d s fin m = IsPlain s fin m ⊎ (IsLate fin m ⊎ IsOpened d fin m)

IsPlain-cons :
    (c : ℕ) (d s : Text) (fin : ℕ) (m : Marks)
    → (c == b'(') ≡ false
    → Ended d s fin m
    → Ended d (c ∷ s) fin m
unfolding strchr
IsPlain-cons c d s fin m a (inr h) = inr h
IsPlain-cons c d s fin m a (inl h) = inl (record {
  paren = h.paren;
  left = h.left;
  right = h.right;
  none_open = rw (a, h.none_open) refl;
})

pub find_marks-Ended :
    (d s : Text) (i fin : ℕ) (m : Marks)
    → m.paren ≡ false
    → m.left ≡ 0
    → m.right ≡ fin
    → pos_part m.times ≡ 0
    → drop i d ≡ s
    → Ended d s fin (find_marks s i m)
unfolding find_marks strchr
find_marks-Ended d [] i fin m p l r t e =
    inl (record { paren = p; left = l; right = r; none_open = refl })
find_marks-Ended d (c ∷ s) i fin m p l r t e =
    let (g, e') = get-drop i d c s e in
    elim (Bool-cases (c == b'(')) [
      | inl a ↦
          let is_open : get_elem? d i ≡ some b'(' = rw g (ground (arith, a)) in
          let not_close : (c == b')') ≡ false = ground (arith, a) in
          rw (a, not_close)
            (inr (
              open-step d s i fin m l r t is_open e'
                (λ k. find_marks-IsLate d s (i + 1) fin (opened i m) k e')))
      | inr a ↦ IsPlain-cons c d s fin _ a (elim (Bool-cases (c == b')')) [
        | inl b ↦
            let n = is_zero-pred m.times t in
            rw (a, b, n)
              (find_marks-Ended d s (i + 1) fin (passed m) p l r (pos_part-pred m.times t) e')
        | inr b ↦ rw (a, b) (find_marks-Ended d s (i + 1) fin m p l r t e')
      ])
    ]

pub find_marks-paren :
    (s : Text) (i : ℕ) (m : Marks) → strchr s b'(' ≡ false → (find_marks s i m).paren ≡ m.paren
unfolding find_marks strchr
find_marks-paren [] i m h = refl
find_marks-paren (c ∷ s) i m h =
    let a : (c == b'(') ≡ false = ground (arith, h) in
    let h' : strchr s b'(' ≡ false = ground (arith, h) in
    elim (Bool-cases (c == b')')) [
      | inl b ↦ elim (Bool-cases (is_zero (m.times -ℤ pos 1))) [
        | inl z ↦ rw (a, b, z) refl
        | inr n ↦ rw (a, b, n) (find_marks-paren s (i + 1) (passed m) h')
      ]
      | inr b ↦ rw (a, b) (find_marks-paren s (i + 1) m h')
    ]
