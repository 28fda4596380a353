-- ===== src/Shell/Sequence/Ends.antt =====
-- changesequence of CS551P1/CS551P1/main.c ends, and what its result is.
use cs551_assignments.Common.{
  Bool, Bool-cases, Outcome, Run, Text, [], ap, arith, false, fault, if◌then◌else◌, inl, inr,
  length, ltb, ltb→lt, lt→ltb, map, ok, refl, some, subst, suc, sym, zero, ℕ, ◌*◌, ◌+◌, ◌-◌, ◌<◌,
  ◌==◌, ◌||◌, ◌∙◌, ◌∷◌, ◌≡◌, ◌≤◌, ◌⊎◌,
}
use cs551_assignments.Shell.Parens.{maxlen}
use cs551_assignments.Shell.Sequence.{
  find_marks, Marks, again, changed, changesequence, commas, inside, rearrange, reorder,
}
use cs551_assignments.Shell.Sequence.Weight.{length-le-weight, weight, weight-le-length}
use cs551_assignments.Shell.Lexer.{strchr}
use cs551_assignments.Shell.Sequence.Marked.{Ended, find_marks-Ended, find_marks-paren}
use cs551_assignments.Shell.Sequence.Loops.{Gives, Gives-imp}
use cs551_assignments.Shell.Sequence.Lighter.{rearrange-IsLate, rearrange-IsOpened, rearrange_ends}

length-commas : (s : Text) → length (commas s) ≡ length s
unfolding commas
length-commas [] = refl
length-commas (c ∷ s) = ap suc (length-commas s)

weight-commas : (s : Text) → weight (commas s) ≡ weight s
unfolding commas
weight-commas [] = refl
weight-commas (c ∷ s) = ground (arith, weight-commas s)

again-commas : (s : Text) → strchr s b'(' ≡ false → again (commas s) ≡ false
unfolding commas strchr
again-commas [] h = refl
again-commas (c ∷ s) h = ground (arith, h, again-commas s)

-- One call without the last lines: the commas are replaced, or the text gets lighter.
abbrev IsReordered : Text → Text → Type 0
IsReordered s t = ((strchr s b'(' ≡ false) × (t ≡ commas s)) ⊎ (weight t < weight s)

reorder-IsReordered : (s : Text) → Gives (IsReordered s) (reorder s)
unfolding reorder
reorder-IsReordered s = elim (Bool-cases (ltb (length s) maxlen)) [
  | inr n ↦ rw n tt
  | inl l ↦ rw l (
      go (find_marks s 0 _) (find_marks-Ended s s 0 (length s - 1) _ refl refl refl refl refl)
        (ltb→lt _ _ l))
]
  where
    at :
        (m : Marks) {b : Bool}
        → m.paren ≡ b
        → Gives (IsReordered s) (rearrange (if b then s else commas s) m)
        → Gives (IsReordered s) (rearrange (if m.paren then s else commas s) m)
    at m e = subst (λ b. Gives (IsReordered s) (rearrange (if b then s else commas s) m)) (sym e)

    go :
        (m : Marks)
        → Ended s s (length s - 1) m
        → length s < maxlen
        → Gives (IsReordered s) (rearrange (if m.paren then s else commas s) m)
    go m (inl h) l =
        let e : m.right ≡ length (commas s) - 1 = rw (length-commas s) h.right in
        at m h.paren (
          subst (Gives (IsReordered s)) (sym (rearrange_ends (commas s) m h.left e))
            (rw h.paren (inl (h.none_open, refl))))
    go m (inr (inl h)) l =
        at m h.paren (Gives-imp _ _ (rearrange s m) (rearrange-IsLate s m h) (λ t k. inr k))
    go m (inr (inr h)) l =
        at m h.paren (Gives-imp _ _ (rearrange s m) (rearrange-IsOpened s m h l) (λ t k. inr k))

-- What stands in the buffer in the end.
abbrev IsLinear : Text → Text → Type 0
IsLinear s t = (again t ≡ false) × (weight t ≤ weight s)

abbrev Ends : ℕ → Text → Type 0
Ends f s = (r : Run Text) × (changesequence f s ≡ some r) × Gives (IsLinear s) r

changed-Ends :
    (f : ℕ) (s : Text) (r : Run Text)
    → Gives (IsReordered s) r
    → ((t : Text) → weight t < weight s → Ends f t)
    → (r' : Run Text) × (changed r (changesequence f) ≡ some r') × Gives (IsLinear s) r'
changed-Ends f s fault k next = (fault, refl, tt)
changed-Ends f s (ok t) (inl (n, e)) next =
    let a : again t ≡ false = rw e (again-commas s n) in
    (ok t, rw a refl, (a, rw e (omega (arith, weight-commas s))))
changed-Ends f s (ok t) (inr lighter) next = elim (Bool-cases (again t)) [
  | inr n ↦ (ok t, rw n refl, (n, omega (arith, lighter)))
  | inl y ↦
      let (r, e, g) = next t lighter in
      (r, rw y e, Gives-imp _ _ r g (λ u k. (k.0, omega (arith, k.1, lighter))))
]

changesequence-Ends : (f : ℕ) (s : Text) → weight s < f → Ends f s
unfolding changesequence
changesequence-Ends zero s h = absurd (omega arith)
changesequence-Ends (suc f) s h =
    changed-Ends f s (reorder s) (reorder-IsReordered s)
      (λ t lighter. changesequence-Ends f t (omega (arith, lighter, h)))

-- changesequence ends on every text, after at most one call more than twice the length of the text.
-- Unless it reads or writes outside an array, it leaves a text without opening parentheses and
-- commas, which has at most as many characters as the text and its opening parentheses together.
pub changesequence_ends :
    (s : Text)
    → (r : Run Text) × (changesequence (2 * length s + 1) s ≡ some r)
      × Outcome
          (λ t. (strchr t b'(' ≡ false) × (strchr t b',' ≡ false) × (length t ≤ weight s))
          Unit
          r
changesequence_ends s =
    let (r, e, g) = changesequence-Ends (2 * length s + 1) s (omega (arith, weight-le-length s)) in
    (r, e, Gives-imp _ _ r g (λ t k. linear t k))
  where
    neither : (x y : Bool) → (x || y) ≡ false → (x ≡ false) × (y ≡ false)
    neither x y h = (ground (arith, h), ground (arith, h))

    linear :
        (t : Text)
        → IsLinear s t
        → (strchr t b'(' ≡ false) × (strchr t b',' ≡ false) × (length t ≤ weight s)
    linear t (a, l) =
        let n = neither (strchr t b'(') (strchr t b',') a in
        (n.0, n.1, omega (arith, l, length-le-weight t))

commas-map : (s : Text) → commas s ≡ map (λ c. if c == b',' then b'|' else c) s
unfolding commas
commas-map [] = refl
commas-map (c ∷ s) = ap (λ t. (if c == b',' then b'|' else c) ∷ t) (commas-map s)

reorder_plain : (s : Text) → strchr s b'(' ≡ false → length s < maxlen → reorder s ≡ ok (commas s)
unfolding reorder
reorder_plain s n l = rw (lt→ltb _ _ l) (
    go (find_marks s 0 _) (find_marks-paren s 0 _ n)
      (find_marks-Ended s s 0 (length s - 1) _ refl refl refl refl refl))
  where
    go :
        (m : Marks)
        → m.paren ≡ false
        → Ended s s (length s - 1) m
        → rearrange (if m.paren then s else commas s) m ≡ ok (commas s)
    go m p (inl h) =
        let e : m.right ≡ length (commas s) - 1 = rw (length-commas s) h.right in
        ap (λ b. rearrange (if b then s else commas s) m) p
        ∙ rearrange_ends (commas s) m h.left e
        ∙ ap (λ b. if b then inside (commas s) m else ok (commas s)) p
    go m p (inr (inl h)) = cc (p, h.paren)
    go m p (inr (inr h)) = cc (p, h.paren)

-- In a text of less than 256 characters without an opening parenthesis changesequence makes every
-- comma a bar and changes nothing else, at its first call.
pub changesequence_replaces :
    (f : ℕ) (s : Text)
    → strchr s b'(' ≡ false
    → length s < maxlen
    → changesequence (suc f) s ≡ some (ok (map (λ c. if c == b',' then b'|' else c) s))
unfolding changesequence
changesequence_replaces f s n l = rw (reorder_plain s n l, again-commas s n, commas-map s) refl
