-- ===== src/Shell/Sequence/Lighter.antt =====
-- A call of changesequence in CS551P1/CS551P1/main.c, without its last lines, makes a text with
-- parentheses lighter.
use native.Mathlib.Decide.{dec_lt}
use cs551_assignments.Common.{
  Bool, Bool-cases, Run, Text, [], after, arith, drop, false, fault, get_elem?, if◌then◌else◌, inl,
  inr, leb, length, lt-length_of_get, ltb, ltb→lt, ok, refl, some, subst, sym, take, true, ℕ, ◌+◌,
  ◌-◌, ◌<◌, ◌>>=◌, ◌∷◌, ◌≡◌, ◌≢◌, ◌≤◌, ◌⊎◌,
}
use cs551_assignments.Shell.Parens.{maxlen}
use cs551_assignments.Shell.Sequence.{
  Marks, add_after, add_before, ahead_to, back_to, char_at, inside, isalnum, put_before, put_rest,
  put_sign, rearrange, size, strncat,
}
use cs551_assignments.Shell.Sequence.Weight.{
  char_weight, char_weight_pos, weight, weight-cut, weight-drop_mono, weight-take_le, weight-window,
}
use cs551_assignments.Shell.Lexer.{strchr}
use cs551_assignments.Shell.Sequence.Marked.{IsLate, IsOpened}
use cs551_assignments.Shell.Sequence.Loops.{
  Gives, Gives-bind, Gives-imp, ahead_to-Gives, back_to-Gives, close_char-stops, open_char-stops,
  size-eq, stops, strncat-Gives,
}

-- The part before the parenthesis is added behind a sign.
pub put_before-Gives :
    (sign : ℕ) (d : Text) (left : ℕ) (ps : Text)
    → char_weight sign ≡ 1
    → get_elem? d left ≡ some b'('
    → left < maxlen
    → Gives (λ r. weight r.1 ≤ weight ps + 1 + weight (take left d)) (put_before sign d left ps)
unfolding put_before
put_before-Gives sign d left ps light e l =
    Gives-bind _ _ (strncat ps (sign ∷ []) 1) _ (strncat-Gives ps (sign ∷ []) 1) λ ps1 h1.
      Gives-bind _ _ (back_to d left) _ (back_to-Gives d left) λ left' hl.
        Gives-bind _ _ (ahead_to d maxlen 0) _ (ahead_to-Gives d maxlen 0) λ lo hn.
          Gives-bind _ _ (strncat ps1 (drop lo d) (size (left' + 1) lo)) _
            (strncat-Gives ps1 (drop lo d) (size (left' + 1) lo))
            λ ps2 h2.
              let ne : left' ≢ left = λ q. cc (open_char-stops d left e, hl.1, q) in
              let low : lo ≤ left' = elim (dec_lt left' lo) [
                | yes b ↦ absurd (cc (hn.pass left' (omega arith) b, stops_of_isalnum d left' hl.1))
                | no nb ↦ omega (arith, nb)
              ] in
              let z = size-eq (left' + 1) lo (omega (arith, low)) (omega (arith, hl.0, l)) in
              let w = weight-window (left' + 1 - lo) lo left d (ground (arith, low, hl.0, ne)) in
              let w' : weight (take (size (left' + 1) lo) (drop lo d)) ≤ weight (take left d) =
                rw z w in
              omega (arith, h1, h2, w', light)
  where
    stops_of_isalnum : (d : Text) (i : ℕ) → isalnum (char_at d i) ≡ true → stops d i ≡ true
    stops_of_isalnum d i h = ground (arith, h)

pub add_before-Gives :
    (sign : ℕ) (d : Text) (left : ℕ) (ps : Text)
    → char_weight sign ≡ 1
    → get_elem? d left ≡ some b'('
    → left < maxlen
    → Gives (λ r. weight r.1 ≤ weight ps + 1 + weight (take left d)) (add_before sign d left ps)
add_before-Gives sign d left ps light e l = elim (Bool-cases (ltb 0 left)) [
  | inl y ↦ rw y (put_before-Gives sign d left ps light e l)
  | inr n ↦ rw n (omega arith)
]

-- The part behind it is added, behind a sign or as it is.
pub put_sign-Gives :
    (sign : ℕ) (d : Text) (right : ℕ) (ps : Text)
    → char_weight sign ≡ 1
    → get_elem? d right ≡ some b')'
    → Gives (λ t. weight t ≤ weight ps + 1 + weight (drop (right + 1) d)) (put_sign sign d right ps)
unfolding put_sign
put_sign-Gives sign d right ps light g =
    Gives-bind _ _ (strncat ps (sign ∷ []) 1) _ (strncat-Gives ps (sign ∷ []) 1) λ ps1 h1.
      Gives-bind _ _ (ahead_to d (maxlen - right) right) _ (ahead_to-Gives d (maxlen - right) right)
        λ j hj. Gives-bind _ _ (back_to d (length d - 1)) _ (back_to-Gives d (length d - 1)) λ i h.
          Gives-imp _ _ (strncat ps1 (drop j d) (size (i + 1) j))
            (strncat-Gives ps1 (drop j d) (size (i + 1) j))
            λ t h'.
              let ne : j ≢ right = λ q. cc (close_char-stops d right g, hj.stop, q) in
              omega (
                arith,
                h1,
                h',
                light,
                weight-take_le (size (i + 1) j) (drop j d),
                weight-drop_mono (right + 1) j d (ground (arith, hj.from, ne)),
              )

put_rest-Gives :
    (d : Text) (right : ℕ) (ps : Text)
    → Gives (λ t. weight t ≤ weight ps + 1 + weight (drop (right + 1) d)) (put_rest d right ps)
unfolding put_rest
put_rest-Gives d right ps =
    Gives-bind _ _ (back_to d (length d - 1)) _ (back_to-Gives d (length d - 1)) λ i h.
      Gives-imp _ _ (strncat ps (drop (right + 1) d) (size (i + 1) right))
        (strncat-Gives ps (drop (right + 1) d) (size (i + 1) right))
        λ t h'. omega (arith, h', weight-take_le (size (i + 1) right) (drop (right + 1) d))

-- What an added tail may weigh.
abbrev pub AddsTail : Text → ℕ → Text → Run Text → Type 0
AddsTail d right ps = Gives (λ t. weight t ≤ weight ps + 1 + weight (drop (right + 1) d))

add_after-Gives :
    (d : Text) (left right : ℕ) (ps : Text)
    → (right + 2 < length d → get_elem? d right ≡ some b')')
    → AddsTail d right ps (add_after d left right ps)
add_after-Gives d left right ps e = elim (Bool-cases (ltb (right + 2) (length d))) [
  | inl l ↦ elim (Bool-cases (strchr (drop right d) b';')) [
    | inl y ↦ rw (l, y) (put_rest-Gives d right ps)
    | inr n ↦
        rw (l, n)
          (put_sign-Gives (if ltb 0 left then b'|' else b';') d right ps (sign_weight (ltb 0 left))
            (e (ltb→lt _ _ l)))
  ]
  | inr s ↦ rw s (omega arith)
]
  where
    sign_weight : (b : Bool) → char_weight (if b then b'|' else b';') ≡ 1
    sign_weight true = refl
    sign_weight false = refl

-- What a call adds round the parenthesised part of a text, which gets lighter by it.
pub surround-Gives :
    (sign : ℕ) (d : Text) (m : Marks) (after : ℕ × Text → Run Text)
    → char_weight sign ≡ 1
    → IsOpened d (length d - 1) m
    → length d < maxlen
    → ((r : ℕ × Text)
        → (m.right + 2 < length d → get_elem? d m.right ≡ some b')')
        → AddsTail d m.right r.1 (after r))
    → Gives (λ t. weight t < weight d) (inside d m >>= λ ps. add_before sign d m.left ps >>= after)
surround-Gives sign d m after light h l tail = elim (Bool-cases (leb m.right m.left)) [
  | inl y ↦ rw y tt
  | inr n ↦ rw n (
      let in_left : m.left < length d = lt-length_of_get d m.left h.left in
      let in_right : m.right < length d = elim h.right [
        | inl e ↦ omega (arith, e, in_left)
        | inr e ↦ lt-length_of_get d m.right e
      ] in
      let closes : m.right + 2 < length d → get_elem? d m.right ≡ some b')' =
        λ k. elim h.right [ inl e ↦ absurd (omega (arith, e, k)) | inr e ↦ e ] in
      let inner = take (m.right - m.left - 1) (drop (m.left + 1) d) in
      let cut = weight-cut m.left m.right d h.left (ground (arith, n)) in_right in
      Gives-bind (λ r. weight r.1 ≤ weight inner + 1 + weight (take m.left d)) _
        (add_before sign d m.left inner) _
        (add_before-Gives sign d m.left inner light h.left (omega (arith, in_left, l)))
        λ r hr. Gives-imp _ _ (after r) (tail r closes) (λ t ht. omega (arith, ht, hr, cut)))
]

-- Behind the first loop, a text with an opening parenthesis at `left` gets lighter.
pub rearrange-IsOpened :
    (d : Text) (m : Marks)
    → IsOpened d (length d - 1) m
    → length d < maxlen
    → Gives (λ t. weight t < weight d) (rearrange d m)
rearrange-IsOpened d m h l = rw h.paren (
    surround-Gives b';' d m (λ r. add_after d r.0 m.right r.1) refl h l
      (λ r c. add_after-Gives d r.0 m.right r.1 c))

-- With the marks at both ends of the text, nothing is added.
pub rearrange_ends :
    (d : Text) (m : Marks)
    → m.left ≡ 0
    → m.right ≡ length d - 1
    → rearrange d m ≡ (if m.paren then inside d m else ok d)
rearrange_ends d m l r = go (if m.paren then inside d m else ok d)
  where
    past : ltb (m.right + 2) (length d) ≡ false
    past = ground (arith, r)

    go :
        (x : Run Text)
        → (x >>= λ ps. add_before b';' d m.left ps >>= λ r. add_after d r.0 m.right r.1) ≡ x
    go fault = refl
    go (ok ps) = rw (l, past) refl

-- What stands between the marks, with nothing in front of the left one.
pub inside-Gives :
    (d : Text) (m : Marks) → m.right ≡ length d - 1 → Gives (λ t. weight t < weight d) (inside d m)
inside-Gives d m e = go d (Bool-cases (leb m.right m.left)) e
  where
    go :
        (d : Text)
        → (leb m.right m.left ≡ true) ⊎ (leb m.right m.left ≡ false)
        → m.right ≡ length d - 1
        → Gives (λ t. weight t < weight d) (inside d m)
    go d (inl y) e = rw y tt
    go [] (inr n) e = absurd (ground (arith, n, e))
    go (c ∷ d) (inr n) e = rw n (
        omega (
          arith,
          char_weight_pos c,
          weight-drop_mono 1 (m.left + 1) (c ∷ d) (omega arith),
          weight-take_le (m.right - m.left - 1) (drop (m.left + 1) (c ∷ d)),
        ))

pub rearrange-IsLate :
    (d : Text) (m : Marks)
    → IsLate (length d - 1) m
    → Gives (λ t. weight t < weight d) (rearrange d m)
rearrange-IsLate d m h =
    subst (Gives (λ t. weight t < weight d)) (sym (rearrange_ends d m h.left h.right))
      (rw h.paren (inside-Gives d m h.right))
