-- ===== src/Shell/Sequence/Precedence.antt =====
-- The order that changesequence of CS551P1/CS551P1/main.c gives to a line with a pair of parentheses
-- at its end.
use mathlib.Core.List.{append_assoc}
use cs551_assignments.Common.{
  Bool-cases, Text, [], ap, arith, false, if◌then◌else◌, inl, inr, leb, length, length-append, ltb,
  lt→ltb, map, ok, pos, refl, some, suc, sym, take, true, ℕ, ◌++◌, ◌+◌, ◌-◌, ◌<◌, ◌==◌, ◌∙◌, ◌∷◌,
  ◌≡◌, ◌≤◌,
}
use cs551_assignments.Shell.Lexer.{strchr}
use cs551_assignments.Shell.Sequence.{
  ahead_to, back_to, changesequence, char_at, find_marks, inside, isalnum, put_before, reorder,
  size, strncat,
}
use cs551_assignments.Shell.Parens.{maxlen}
use cs551_assignments.Shell.Sequence.Loops.{size-eq}
use cs551_assignments.Shell.Sequence.Ends.{changesequence_replaces}
use cs551_assignments.Shell.Sequence.Parts.{
  IsGap, IsOpenless, ahead_to_self, back_to-append, char_at-first, drop-append_next,
  find_marks-pair, gap-passed, no_commas, start, strchr-append, strncat-ok, take-append_self,
}

-- A line `p,(q)`: p ends with the character x, and the text behind the pair has one character at
-- most.
pub record IsPair (s p q : Text) : Type 0 where
  pub body : Text
  pub gap : Text
  pub tail : Text
  pub x : ℕ
  pub word : p ≡ body ++ x ∷ []
  pub shape : s ≡ (body ++ x ∷ gap) ++ b'(' ∷ (q ++ b')' ∷ tail)
  pub ends_word : isalnum x ≡ true
  pub first : isalnum (char_at p 0) ≡ true
  pub between : IsGap gap
  pub openless : IsOpenless (body ++ x ∷ gap)
  pub openless_inside : IsOpenless q
  pub behind : length tail ≤ 1
  pub fits : length s < maxlen

module _ (s p q : Text) (h : IsPair s p q) where
  open h use {body, gap, tail, x}

  abbrev w : Text
  w = body ++ x ∷ gap

  abbrev behind_word : Text
  behind_word = gap ++ b'(' ∷ (q ++ b')' ∷ tail)

  from_word : s ≡ body ++ x ∷ behind_word
  from_word = h.shape ∙ append_assoc body (x ∷ gap) (b'(' ∷ (q ++ b')' ∷ tail))

  from_p : s ≡ p ++ behind_word
  from_p = from_word ∙ sym (rw h.word (append_assoc body (x ∷ []) behind_word))

  length-p : length p ≡ length body + 1
  length-p = omega (arith, ap length h.word, length-append body (x ∷ []))

  length-s : length s ≡ length w + 1 + length q + 1 + length tail
  length-s = omega (
    arith,
    ap length h.shape,
    length-append w (b'(' ∷ (q ++ b')' ∷ tail)),
    length-append q (b')' ∷ tail),
  )

  length-w : length w ≡ length body + (length gap + 1)
  length-w = omega (arith, length-append body (x ∷ gap))

  short : length ((q ++ b';' ∷ []) ++ p) < maxlen
  short = omega (
    arith,
    length-append (q ++ b';' ∷ []) p,
    length-append q (b';' ∷ []),
    length-p,
    length-w,
    length-s,
    h.fits,
  )

  none_open : strchr ((q ++ b';' ∷ []) ++ p) b'(' ≡ false
  unfolding strchr
  none_open = rw h.word (
      ground (
        arith,
        strchr-append (q ++ b';' ∷ []) (body ++ x ∷ []) b'(',
        strchr-append q (b';' ∷ []) b'(',
        strchr-append body (x ∷ []) b'(',
        strchr-append body (x ∷ gap) b'(',
        h.openless.0,
        h.openless_inside.0,
      ))

  inside-pair :
      inside s
        (record { left = length w; right = length w + 1 + length q; times = pos 0; paren = true })
      ≡ ok q
  inside-pair =
      let lb : leb (length w + 1 + length q) (length w) ≡ false = ground arith in
      let n : length w + 1 + length q - length w - 1 ≡ length q = omega arith in
      let r = drop-append_next w (q ++ b')' ∷ tail) b'(' in
      rw (lb, n, h.shape, r, take-append_self q (b')' ∷ tail)) refl

  put_before-pair : put_before b';' s (length w) q ≡ ok (length body, (q ++ b';' ∷ []) ++ p)
  unfolding put_before
  put_before-pair =
      let sign : strncat q (b';' ∷ []) 1 ≡ ok (q ++ b';' ∷ []) =
        strncat-ok q (b';' ∷ []) 1 (omega (arith, length-append q (b';' ∷ []), length-s, h.fits)) in
      let back : back_to s (length w) ≡ ok (length body) =
        rw (from_word, length-w)
          (back_to-append body behind_word x (length gap + 1) h.ends_word
            (λ j. gap-passed gap (q ++ b')' ∷ tail) j h.between)) in
      let same : char_at s 0 ≡ char_at p 0 =
        rw (from_word, h.word) (char_at-first body behind_word x) in
      let first : isalnum (char_at s 0) ≡ true = rw same h.first in
      let ahead : ahead_to s maxlen 0 ≡ ok 0 = ahead_to_self s 255 0 first in
      let n : size (length body + 1) 0 ≡ length p =
        size-eq (length body + 1) 0 (omega arith) (omega (arith, length-w, length-s, h.fits))
        ∙ omega (arith, length-p) in
      let t : take (length p) s ≡ p = rw from_p (take-append_self p behind_word) in
      let whole : strncat (q ++ b';' ∷ []) s (length p) ≡ ok ((q ++ b';' ∷ []) ++ p) =
        strncat-ok (q ++ b';' ∷ []) s (length p) (rw t short) ∙ rw t refl in
      rw (sign, back, ahead, n, whole) refl

  reorder-pair : reorder s ≡ ok ((q ++ b';' ∷ []) ++ p)
  unfolding reorder
  reorder-pair =
      let l : ltb (length s) maxlen ≡ true = lt→ltb _ _ h.fits in
      let m : find_marks s 0 (start (length s - 1)) ≡ record {
        left = length w;
        right = length w + 1 + length q;
        times = pos 0;
        paren = true;
      } =
        rw h.shape (find_marks-pair w q tail _ h.openless h.openless_inside) in
      let some_left : ltb 0 (length w) ≡ true = ground (arith, length-w) in
      let at_end : ltb (length w + 1 + length q + 2) (length s) ≡ false =
        ground (arith, length-s, h.behind) in
      rw (l, m, inside-pair, some_left, put_before-pair, at_end) refl

  -- A line of less than 256 characters ends with a pair of parentheses and at most one character
  -- behind it, and has no other parenthesis before the closing one; p is its part up to the last
  -- letter or digit in front of the pair, q what is inside, and p begins with a letter or digit.
  -- changesequence, called at most twice, makes `q;p` of the line, with bars for the commas: the
  -- commands of the parentheses come first.
  pub changesequence_precedence :
      (f : ℕ)
      → changesequence (suc (suc f)) s
        ≡ some (ok (map (λ c. if c == b',' then b'|' else c) ((q ++ b';' ∷ []) ++ p)))
  unfolding changesequence
  changesequence_precedence f =
      let t = (q ++ b';' ∷ []) ++ p in
      elim (Bool-cases (strchr t b',')) [
        | inl y ↦ rw (reorder-pair, none_open, y) (changesequence_replaces f t none_open short)
        | inr n ↦ rw (reorder-pair, none_open, n, no_commas t n) refl
      ]
