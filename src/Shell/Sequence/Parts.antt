-- ===== src/Shell/Sequence/Parts.antt =====
-- The loops of changesequence in CS551P1/CS551P1/main.c over texts of known parts.
use cs551_assignments.Common.{
  All, Bool-cases, List, Text, [], ap, arith, drop, false, get_elem?, if◌then◌else◌, inl, inr,
  length, lt→ltb, map, ok, pos, refl, subst, suc, take, true, zero, ℕ, ◌++◌, ◌+ℤ◌, ◌+◌, ◌-ℤ◌, ◌<◌,
  ◌==◌, ◌||◌, ◌∙◌, ◌∷◌, ◌≡◌,
}
use cs551_assignments.Shell.Lexer.{strchr}
use cs551_assignments.Shell.Sequence.{
  Marks, ahead_to, back_to, char_at, char_of, find_marks, isalnum, strncat,
}
use cs551_assignments.Shell.Parens.{maxlen}

module _ {A : Type 0} where
  pub take-append_self : (xs ys : List A) → take (length xs) (xs ++ ys) ≡ xs
  take-append_self [] ys = refl
  take-append_self (x ∷ xs) ys = ap (λ t. x ∷ t) (take-append_self xs ys)

  pub drop-append_next : (xs ys : List A) (y : A) → drop (length xs + 1) (xs ++ y ∷ ys) ≡ ys
  drop-append_next [] ys y = refl
  drop-append_next (x ∷ xs) ys y =
      let e : suc (length xs) + 1 ≡ suc (length xs + 1) = omega arith in
      rw e (drop-append_next xs ys y)

  get_elem?-append :
      (xs ys : List A) (j : ℕ) → get_elem? (xs ++ ys) (length xs + j) ≡ get_elem? ys j
  get_elem?-append [] ys j = let e : 0 + j ≡ j = omega arith in rw e refl
  get_elem?-append (x ∷ xs) ys j =
      let e : suc (length xs) + j ≡ suc (length xs + j) = omega arith in
      rw e (get_elem?-append xs ys j)

pub strchr-append : (s t : Text) (c : ℕ) → strchr (s ++ t) c ≡ (strchr s c || strchr t c)
unfolding strchr
strchr-append [] t c = refl
strchr-append (a ∷ s) t c = ground (arith, strchr-append s t c)

-- No parenthesis is in the text.
abbrev pub IsOpenless : Text → Type 0
IsOpenless s = (strchr s b'(' ≡ false) × (strchr s b')' ≡ false)

find_marks-skip :
    (s t : Text) (i : ℕ) (m : Marks)
    → IsOpenless s
    → find_marks (s ++ t) i m ≡ find_marks t (i + length s) m
unfolding find_marks strchr
find_marks-skip [] t i m h = let e : i + 0 ≡ i = omega arith in rw e refl
find_marks-skip (c ∷ s) t i m (o, k) =
    let a : (c == b'(') ≡ false = ground (arith, o) in
    let b : (c == b')') ≡ false = ground (arith, k) in
    let e : i + 1 + length s ≡ i + suc (length s) = omega arith in
    rw (a, b)
      (find_marks-skip s t (i + 1) m (ground (arith, o), ground (arith, k))
        ∙ ap (λ j. find_marks t j m) e)

abbrev pub start : ℕ → Marks
start fin = record { left = 0; right = fin; times = pos 0; paren = false }

-- The first loop finds the pair.
pub find_marks-pair :
    (w q tail : Text) (fin : ℕ)
    → IsOpenless w
    → IsOpenless q
    → find_marks (w ++ b'(' ∷ (q ++ b')' ∷ tail)) 0 (start fin)
      ≡ record { left = length w; right = length w + 1 + length q; times = pos 0; paren = true }
unfolding find_marks ◌+ℤ◌ ◌-ℤ◌
find_marks-pair w q tail fin hw hq =
    let e : 0 + length w ≡ length w = omega arith in
    let m : Marks = record { left = length w; right = fin; times = pos 1; paren = true } in
    find_marks-skip w (b'(' ∷ (q ++ b')' ∷ tail)) 0 (start fin) hw
    ∙ ap (λ i. find_marks (b'(' ∷ (q ++ b')' ∷ tail)) i (start fin)) e
    ∙ find_marks-skip q (b')' ∷ tail) (length w + 1) m hq

back_to_self : (d : Text) (i : ℕ) → isalnum (char_at d i) ≡ true → back_to d i ≡ ok i
unfolding back_to
back_to_self d zero h = rw h refl
back_to_self d (suc i) h = rw h refl

-- It goes back over what is no letter and no digit.
pub back_to-append :
    (u g : Text) (x n : ℕ)
    → isalnum x ≡ true
    → ((j : ℕ) → j < n → isalnum (char_at g j) ≡ false)
    → back_to (u ++ x ∷ g) (length u + n) ≡ ok (length u)
unfolding back_to
back_to-append u g x zero h a =
    let e : length u + 0 ≡ length u = omega arith in
    let c : char_at (u ++ x ∷ g) (length u + 0) ≡ x = ap char_of (get_elem?-append u (x ∷ g) 0) in
    let here : isalnum (char_at (u ++ x ∷ g) (length u + 0)) ≡ true = rw c h in
    rw e (
      back_to_self (u ++ x ∷ g) (length u)
        (subst (λ i. isalnum (char_at (u ++ x ∷ g) i) ≡ true) e here))
back_to-append u g x (suc n) h a =
    let e : length u + suc n ≡ suc (length u + n) = omega arith in
    let c : char_at (u ++ x ∷ g) (length u + suc n) ≡ char_at g n =
      ap char_of (get_elem?-append u (x ∷ g) (suc n)) in
    let passed : isalnum (char_at (u ++ x ∷ g) (suc (length u + n))) ≡ false =
      subst (λ i. isalnum (char_at (u ++ x ∷ g) i) ≡ false) e (rw c (a n (omega arith))) in
    rw (e, passed) (back_to-append u g x n h (λ j k. a j (omega arith)))

-- What stands between the last letter and the parenthesis.
abbrev pub IsGap : Text → Type 0
IsGap = All (λ c. isalnum c ≡ false)

pub gap-passed :
    (gap r : Text) (j : ℕ)
    → IsGap gap
    → j < length gap + 1
    → isalnum (char_at (gap ++ b'(' ∷ r) j) ≡ false
unfolding isalnum
gap-passed [] r zero h l = refl
gap-passed [] r (suc j) h l = absurd (omega arith)
gap-passed (c ∷ gap) r zero h l = h.0
gap-passed (c ∷ gap) r (suc j) h l = gap-passed gap r j h.1 (omega arith)

pub strncat-ok :
    (ps t : Text) (n : ℕ) → length (ps ++ take n t) < maxlen → strncat ps t n ≡ ok (ps ++ take n t)
strncat-ok ps t n l = rw (lt→ltb _ _ l) refl

pub ahead_to_self :
    (d : Text) (n i : ℕ) → isalnum (char_at d i) ≡ true → ahead_to d (suc n) i ≡ ok i
unfolding ahead_to
ahead_to_self d n i h = elim (Bool-cases (char_at d i == b'$')) [
  | inl y ↦ rw y refl
  | inr y ↦ rw (y, h) refl
]

pub char_at-first : (u r : Text) (x : ℕ) → char_at (u ++ x ∷ r) 0 ≡ char_at (u ++ x ∷ []) 0
char_at-first [] r x = refl
char_at-first (c ∷ u) r x = refl

pub no_commas : (t : Text) → strchr t b',' ≡ false → map (λ c. if c == b',' then b'|' else c) t ≡ t
unfolding strchr
no_commas [] h = refl
no_commas (c ∷ t) h = ground (arith, h, no_commas t)
