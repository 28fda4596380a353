-- ===== src/Shell/Session/Reads.antt =====
-- What getcmd of CS551P1/CS551P1/main.c leaves of the terminal, and a measure of it.
use cs551_assignments.Common.{
  Bool-cases, List, Text, [], arith, inl, inr, refl, suc, zero, ℕ, ◌*◌, ◌++◌, ◌+◌, ◌-◌, ◌<◌, ◌∷◌,
  ◌≡◌, ◌≢◌, ◌≤◌, ◌⊎◌,
}
use cs551_assignments.Shell.Session.{Got, Stream, buffered, getcmd, gets}
use cs551_assignments.Shell.Profile.{terminated}
use cs551_assignments.Shell.Parens.{maxlen}

-- A character is worth more than what two processes have when both have kept the text behind it.
unfoldable pub weight : Text → ℕ
weight [] = 1
weight (c ∷ s) = 2 * weight s + 1

unfoldable pub reads_weight : List Text → ℕ
reads_weight [] = 0
reads_weight (t ∷ ts) = 2 * weight t + reads_weight ts

weight_pos : (s : Text) → 0 < weight s
unfolding weight
weight_pos [] = omega arith
weight_pos (c ∷ s) = omega arith

unfoldable pub left_weight : Got → ℕ
left_weight g = 2 * weight g.stream.pending + reads_weight g.tty

-- What is left twice is not more than twice what there was.
gets-le :
    (n : ℕ) (p : Text) (tty : List Text)
    → left_weight (gets n p tty) ≤ 2 * weight p + reads_weight tty
unfolding left_weight gets weight reads_weight
gets-le zero p tty = omega arith
gets-le (suc n) (c ∷ p) tty = ground (arith, gets-le n p tty)
gets-le (suc n) [] [] = omega arith
gets-le (suc n) [] ([] ∷ tty) = omega arith
gets-le (suc n) [] ((c ∷ p) ∷ tty) = ground (arith, gets-le n p tty)

-- A read that takes something leaves less, also twice.
gets-lt :
    (n : ℕ) (p : Text) (tty : List Text)
    → (gets n p tty).line ≢ []
    → left_weight (gets n p tty) < weight p + reads_weight tty
unfolding left_weight gets weight reads_weight
gets-lt zero p tty h = absurd (h refl)
gets-lt (suc n) (c ∷ p) tty h = ground (arith, gets-le n p tty)
gets-lt (suc n) [] [] h = absurd (h refl)
gets-lt (suc n) [] ([] ∷ tty) h = absurd (h refl)
gets-lt (suc n) [] ((c ∷ p) ∷ tty) h = ground (arith, gets-le n p tty)

reads-le_of_nil :
    (n : ℕ) (p : Text) (tty : List Text)
    → (gets n p tty).line ≡ []
    → reads_weight (gets n p tty).tty ≤ reads_weight tty
unfolding gets reads_weight
reads-le_of_nil zero p tty h = omega arith
reads-le_of_nil (suc n) (c ∷ p) tty h = absurd (ground arith)
reads-le_of_nil (suc n) [] [] h = omega arith
reads-le_of_nil (suc n) [] ([] ∷ tty) h = omega arith
reads-le_of_nil (suc n) [] ((c ∷ p) ∷ tty) h = absurd (ground arith)

pub reads_weight-append : (xs ys : List Text) → reads_weight ys ≤ reads_weight (xs ++ ys)
unfolding reads_weight
reads_weight-append [] ys = omega arith
reads_weight-append (x ∷ xs) ys = omega (arith, reads_weight-append xs ys)

-- What is read into the buffer is empty, or leaves less.
abbrev pub Reads : Got → ℕ → List Text → Type 0
Reads g w tty =
    ((g.line ≡ []) × (reads_weight g.tty < w + reads_weight tty))
    ⊎ (left_weight g < w + reads_weight tty)

buffered-Reads :
    (n : ℕ) (p : Text) (tty : List Text) → Reads (buffered (gets n p tty)) (weight p) tty
unfolding left_weight terminated
buffered-Reads n p tty = go (gets n p tty).line refl
  where
    go : (l : Text) → (gets n p tty).line ≡ l → Reads (buffered (gets n p tty)) (weight p) tty
    go [] e = inl (rw e refl, omega (arith, reads-le_of_nil n p tty e, weight_pos p))
    go (c ∷ l) e = inr (gets-lt n p tty (λ q. ground arith))

pub getcmd-Reads : (s : Stream) (tty : List Text) → Reads (getcmd s tty) (weight s.pending) tty
unfolding getcmd
getcmd-Reads s tty = elim (Bool-cases s.eof) [
  | inl e ↦ rw e (inl (refl, omega (arith, weight_pos s.pending)))
  | inr e ↦ rw e (buffered-Reads (maxlen - 1) s.pending tty)
]
