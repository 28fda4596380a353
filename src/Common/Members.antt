-- ===== src/Common/Members.antt =====
-- Membership in lists of numbers, and the pigeonhole principle.
use Prim.Native.Nat.{ℕ, zero, suc, ◌<◌}
use mathlib.Core.Path.{◌≡◌, refl}
use mathlib.Core.Bool.{Bool, true, false, ◌||◌}
use mathlib.Core.Logic.{inl, inr}
use mathlib.Core.Option.{some}
use mathlib.Core.List.{List, [], ◌∷◌, ◌++◌}
use native.Mathlib.Omega.{arith}
use cs551_assignments.Common.Tests.{◌==◌, if◌then◌else◌, Bool-cases}
use cs551_assignments.Common.Lists.{length, get_elem?, take, All}

abbrev pub has : ℕ → List ℕ → Bool
has a [] = false
has a (x ∷ xs) = (x == a) || has a xs

abbrev pub IsDistinct : List ℕ → Type 0
IsDistinct [] = Unit {0}
IsDistinct (x ∷ xs) = (has x xs ≡ false) × IsDistinct xs

abbrev pub IsSubset : List ℕ → List ℕ → Type 0
IsSubset xs ys = (a : ℕ) → has a xs ≡ true → has a ys ≡ true

without : ℕ → List ℕ → List ℕ
without a [] = []
without a (x ∷ xs) = if x == a then xs else x ∷ without a xs

length-without : (a : ℕ) (xs : List ℕ) → has a xs ≡ true → length xs ≡ suc (length (without a xs))
unfolding without
length-without a [] h = cc
length-without a (x ∷ xs) h = ground (arith, length-without a xs)

has-without :
    (a b : ℕ) (xs : List ℕ) → (a == b) ≡ false → has a xs ≡ true → has a (without b xs) ≡ true
unfolding without
has-without a b [] e h = cc
has-without a b (x ∷ xs) e h = ground (arith, has-without a b xs)

-- Distinct members of a list that also holds something else are fewer.
pub pigeonhole :
    (r : ℕ) (xs ys : List ℕ)
    → IsDistinct xs
    → IsSubset xs ys
    → has r ys ≡ true
    → has r xs ≡ false
    → length xs < length ys
pigeonhole r [] ys d s h k = omega (arith, length-without r ys h)
pigeonhole r (x ∷ xs) ys d s h k =
    let kept : IsSubset xs (without x ys) =
      λ a i. has-without a x ys (ground arith) (s a (ground arith)) in
    let other : has r (without x ys) ≡ true = has-without r x ys (ground arith) h in
    omega (
      arith,
      length-without x ys (s x (ground arith)),
      pigeonhole r xs (without x ys) d.1 kept other (ground arith),
    )

-- A list with one more at the end.
pub has-snoc : (a v : ℕ) (xs : List ℕ) → has a (xs ++ v ∷ []) ≡ (has a xs || (v == a))
has-snoc a v [] = ground arith
has-snoc a v (x ∷ xs) = ground (arith, has-snoc a v xs)

pub IsDistinct-snoc :
    (v : ℕ) (xs : List ℕ) → IsDistinct xs → has v xs ≡ false → IsDistinct (xs ++ v ∷ [])
IsDistinct-snoc v [] d h = (refl, tt)
IsDistinct-snoc v (x ∷ xs) d h =
    (ground (arith, has-snoc x v xs), IsDistinct-snoc v xs d.1 (ground arith))

pub IsSubset-snoc : (v : ℕ) (xs ys : List ℕ) → IsSubset xs ys → IsSubset xs (ys ++ v ∷ [])
IsSubset-snoc v xs ys s a h = ground (arith, s a h, has-snoc a v ys)

pub IsSubset-snoc' :
    (v : ℕ) (xs ys : List ℕ) → IsSubset xs ys → has v ys ≡ true → IsSubset (xs ++ v ∷ []) ys
IsSubset-snoc' v xs ys s k a h = elim (Bool-cases (has a xs)) [
  | inl i ↦ s a i
  | inr o ↦ ground (arith, has-snoc a v xs)
]

-- A search for a number misses, and so it is no member; or it hits, and it is one.
pub not-has_of_miss : (v : ℕ) (xs : List ℕ) → All (λ x. (x == v) ≡ false) xs → has v xs ≡ false
not-has_of_miss v [] h = refl
not-has_of_miss v (x ∷ xs) h = ground (arith, not-has_of_miss v xs h.1)

pub has_of_hit :
    (v i n : ℕ) (xs : List ℕ) {x : ℕ}
    → get_elem? xs i ≡ some x
    → (x == v) ≡ true
    → i < n
    → has v (take n xs) ≡ true
has_of_hit v i n [] e t h = cc
has_of_hit v i zero (x ∷ xs) e t h = absurd (omega arith)
has_of_hit v zero (suc n) (x ∷ xs) e t h = ground arith
has_of_hit v (suc i) (suc n) (x ∷ xs) e t h = ground (arith, has_of_hit v i n xs e t (omega arith))

pub has-snoc_self : (v : ℕ) (xs : List ℕ) → has v (xs ++ v ∷ []) ≡ true
has-snoc_self v [] = ground arith
has-snoc_self v (x ∷ xs) = ground (arith, has-snoc_self v xs)
