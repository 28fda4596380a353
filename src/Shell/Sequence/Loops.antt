-- ===== src/Shell/Sequence/Loops.antt =====
-- The loops of changesequence in CS551P1/CS551P1/main.c that move an index, and strncat.
use native.Mathlib.Decide.{ℕ_discrete}
use cs551_assignments.Common.{
  Bool, Bool-cases, Outcome, Run, Text, arith, false, fault, get_elem?, inl, inr, length, ltb, ok,
  refl, some, suc, take, true, zero, ℕ, ◌++◌, ◌+◌, ◌-◌, ◌<◌, ◌==◌, ◌>>=◌, ◌^◌, ◌||◌, ◌≡◌, ◌≤◌,
}
use cs551_assignments.Shell.Parens.{maxlen}
use cs551_assignments.Shell.Sequence.{ahead_to, back_to, char_at, isalnum, size, strncat}
use cs551_assignments.Shell.Sequence.Weight.{weight, weight-append}

-- A result has the property, if there is one.
abbrev pub Gives : {A : Type 0} → (A → Type 0) → Run A → Type 0
Gives P r = Outcome P Unit r

pub Gives-bind :
    {A B : Type 0} (P : A → Type 0) (Q : B → Type 0) (r : Run A) (k : A → Run B)
    → Gives P r
    → ((a : A) → P a → Gives Q (k a))
    → Gives Q (r >>= k)
Gives-bind P Q (ok a) k h next = next a h
Gives-bind P Q fault k h next = tt

pub Gives-imp :
    {A : Type 0} (P Q : A → Type 0) (r : Run A) → Gives P r → ((a : A) → P a → Q a) → Gives Q r
Gives-imp P Q (ok a) h f = f a h
Gives-imp P Q fault h f = tt

pub strncat-Gives :
    (ps t : Text) (n : ℕ) → Gives (λ u. weight u ≡ weight ps + weight (take n t)) (strncat ps t n)
strncat-Gives ps t n = elim (Bool-cases (ltb (length (ps ++ take n t)) maxlen)) [
  | inl l ↦ rw l (weight-append ps (take n t))
  | inr g ↦ rw g tt
]

pub back_to-Gives :
    (d : Text) (i : ℕ) → Gives (λ j. (j ≤ i) × (isalnum (char_at d j) ≡ true)) (back_to d i)
unfolding back_to
back_to-Gives d zero = elim (Bool-cases (isalnum (char_at d 0))) [
  | inl y ↦ rw y (omega arith, y)
  | inr n ↦ rw n tt
]
back_to-Gives d (suc i) = elim (Bool-cases (isalnum (char_at d (suc i)))) [
  | inl y ↦ rw y (omega arith, y)
  | inr n ↦
      rw n (Gives-imp _ _ (back_to d i) (back_to-Gives d i) (λ j h. (omega (arith, h.0), h.1)))
]

abbrev pub stops : Text → ℕ → Bool
stops d i = (char_at d i == b'$') || isalnum (char_at d i)

-- The first index from `i` on where the loop stops.
pub record IsNext (d : Text) (i j : ℕ) : Type 0 where
  pub from : i ≤ j
  pub stop : stops d j ≡ true
  pub pass : (k : ℕ) → i ≤ k → k < j → stops d k ≡ false

pub ahead_to-Gives : (d : Text) (n i : ℕ) → Gives (IsNext d i) (ahead_to d n i)
unfolding ahead_to
ahead_to-Gives d zero i = tt
ahead_to-Gives d (suc n) i = elim (Bool-cases (stops d i)) [
  | inl y ↦
      rw y (record { from = omega arith; stop = y; pass = λ k a b. absurd (omega (arith, a, b)) })
  | inr z ↦ rw z (
      Gives-imp _ _ (ahead_to d n (i + 1)) (ahead_to-Gives d n (i + 1)) (λ j h. record {
        from = omega (arith, h.from);
        stop = h.stop;
        pass = λ k a b. elim (ℕ_discrete k i) [
          | yes e ↦ rw e z
          | no ne ↦ h.pass k (ground (arith, a, ne)) b
        ];
      }))
]

pub size-eq : (a b : ℕ) → b ≤ a → a < 2 ^ 64 → size a b ≡ a - b
size-eq a b h l = omega arith

pub open_char-stops : (d : Text) (i : ℕ) → get_elem? d i ≡ some b'(' → isalnum (char_at d i) ≡ false
unfolding isalnum
open_char-stops d i e = rw e refl

pub close_char-stops : (d : Text) (i : ℕ) → get_elem? d i ≡ some b')' → stops d i ≡ false
unfolding isalnum
close_char-stops d i e = rw e refl
