-- ===== src/Older/Sequence/Ends.antt =====
-- The loop of main in CS551P1/main.c that rewrites a line ends.
use cs551_assignments.Common.{
  Bool-cases, Outcome, Run, Text, arith, false, fault, get_elem?, inl, inr, length, ltb, ltb→lt, ok,
  refl, some, subst, suc, sym, true, zero, ℕ, ◌*◌, ◌+◌, ◌-◌, ◌<◌, ◌>>=◌, ◌≡◌, ◌≤◌,
}
use cs551_assignments.Shell.Lexer.{strchr}
use cs551_assignments.Shell.Parens.{maxlen}
use cs551_assignments.Shell.Sequence.{Marks, add_before, inside, find_marks}
use cs551_assignments.Shell.Sequence.Weight.{length-le-weight, weight, weight-le-length}
use cs551_assignments.Shell.Sequence.Marked.{Ended, IsLate, IsOpened, find_marks-Ended}
use cs551_assignments.Shell.Sequence.Loops.{Gives, Gives-imp}
use cs551_assignments.Shell.Sequence.Lighter.{
  AddsTail, inside-Gives, put_sign-Gives, surround-Gives,
}
use cs551_assignments.Older.Sequence.{add_after, changesequence, linearize, rearrange, then_again}

add_after-AddsTail :
    (d : Text) (right : ℕ) (ps : Text)
    → (right + 2 < length d → get_elem? d right ≡ some b')')
    → AddsTail d right ps (add_after d right ps)
add_after-AddsTail d right ps e = elim (Bool-cases (ltb (right + 2) (length d))) [
  | inl l ↦ rw l (put_sign-Gives b',' d right ps refl (e (ltb→lt _ _ l)))
  | inr s ↦ rw s (omega arith)
]

rearrange-IsOpened :
    (d : Text) (m : Marks)
    → IsOpened d (length d - 1) m
    → length d < maxlen
    → Gives (λ t. weight t < weight d) (rearrange d m)
rearrange-IsOpened d m h l = rw h.paren (
    surround-Gives b',' d m (λ r. add_after d m.right r.1) refl h l
      (λ r c. add_after-AddsTail d m.right r.1 c))

rearrange-IsLate :
    (d : Text) (m : Marks)
    → IsLate (length d - 1) m
    → Gives (λ t. weight t < weight d) (rearrange d m)
rearrange-IsLate d m h =
    rw h.paren
      (subst (Gives (λ t. weight t < weight d)) (sym (go (inside d m))) (inside-Gives d m h.right))
  where
    past : ltb (m.right + 2) (length d) ≡ false
    past = ground (arith, h.right)

    go :
        (x : Run Text)
        → (x >>= λ ps. add_before b',' d m.left ps >>= λ r. add_after d m.right r.1) ≡ x
    go fault = refl
    go (ok ps) = rw (h.left, past) refl

changesequence-lighter :
    (s : Text) → strchr s b'(' ≡ true → Gives (λ t. weight t < weight s) (changesequence s)
unfolding changesequence
changesequence-lighter s y = elim (Bool-cases (ltb (length s) maxlen)) [
  | inr n ↦ rw n tt
  | inl l ↦ rw l (
      go (find_marks s 0 _) (find_marks-Ended s s 0 (length s - 1) _ refl refl refl refl refl)
        (ltb→lt _ _ l))
]
  where
    go :
        (m : Marks)
        → Ended s s (length s - 1) m
        → length s < maxlen
        → Gives (λ t. weight t < weight s) (rearrange s m)
    go m (inl h) l = cc (y, h.none_open)
    go m (inr (inl h)) l = rearrange-IsLate s m h
    go m (inr (inr h)) l = rearrange-IsOpened s m h l

abbrev IsLinear : Text → Text → Type 0
IsLinear s t = (strchr t b'(' ≡ false) × (length t ≤ weight s)

abbrev Ends : ℕ → Text → Type 0
Ends f s = (r : Run Text) × (linearize f s ≡ some r) × Gives (IsLinear s) r

then_again-Ends :
    (f : ℕ) (s : Text) (r : Run Text)
    → Gives (λ t. weight t < weight s) r
    → ((t : Text) → weight t < weight s → Ends f t)
    → (r' : Run Text) × (then_again r (linearize f) ≡ some r') × Gives (IsLinear s) r'
then_again-Ends f s fault k next = (fault, refl, tt)
then_again-Ends f s (ok t) lighter next =
    let (r, e, g) = next t lighter in
    (r, e, Gives-imp _ _ r g (λ u k. (k.0, omega (arith, k.1, lighter))))

linearize-Ends : (f : ℕ) (s : Text) → weight s < f → Ends f s
unfolding linearize
linearize-Ends zero s h = absurd (omega arith)
linearize-Ends (suc f) s h = elim (Bool-cases (strchr s b'(')) [
  | inr n ↦ rw n (ok s, refl, (n, length-le-weight s))
  | inl y ↦ rw y (
      then_again-Ends f s (changesequence s) (changesequence-lighter s y)
        (λ t lighter. linearize-Ends f t (omega (arith, lighter, h))))
]

-- The loop that rewrites a line ends on every line, after at most as many turns as twice the length
-- of the line. Unless a turn reads or writes outside an array, it leaves a line without opening
-- parentheses, with at most as many characters as the line and its opening parentheses together.
pub linearize_ends :
    (s : Text)
    → (r : Run Text) × (linearize (2 * length s + 1) s ≡ some r)
      × Outcome (λ t. (strchr t b'(' ≡ false) × (length t ≤ weight s)) Unit r
linearize_ends s = linearize-Ends (2 * length s + 1) s (omega (arith, weight-le-length s))
