-- ===== src/Common/Loops.antt =====
-- Array access that can fault, and the loop `for(i = 0; i < n; i++) if(test(a[i])) break;`.
use Prim.Native.Nat.{ℕ, zero, suc, ◌+◌, ◌<◌, ◌≤◌}
use mathlib.Core.Path.{◌≡◌, refl, sym, subst, ◌∙◌}
use mathlib.Core.Logic.{inl, inr}
use mathlib.Core.Bool.{Bool, true, false}
use mathlib.Core.Option.{Option, none, some}
use mathlib.Core.List.{List, [], ◌∷◌}
use native.Mathlib.Omega.{arith}
use cs551_assignments.Common.Tests.{Bool-cases, if◌then◌else◌}
use cs551_assignments.Common.Lists.{
  All, get_elem?, get_elem?-set_ne, get_elem?-set_self, length, set, take, take-set_le,
}

-- `fault` is an access outside an array or through no pointer, which C leaves undefined.
pub data Run {ℓ} (A : Type ℓ) : Type ℓ where
  ok : A → Run A
  fault : Run A

infixl 5 ◌>>=◌ ◌>>◌
abbrev pub ◌>>=◌ {ℓ κ} : {A : Type ℓ} {B : Type κ} → Run A → (A → Run B) → Run B
ok a >>= f = f a
fault >>= f = fault

abbrev pub ◌>>◌ {ℓ} : {B : Type ℓ} → Run (Unit {0}) → Run B → Run B
m >> k = m >>= λ _. k

abbrev pub in_range {ℓ} : {A : Type ℓ} → Option A → Run A
in_range none = fault
in_range (some a) = ok a

-- A result meets `P`, and a fault is explained by `Q`.
abbrev pub Outcome {ℓ} : {A : Type ℓ} → (A → Type 0) → Type 0 → Run A → Type 0
Outcome P Q (ok a) = P a
Outcome P Q fault = Q

-- Where a search ends: at an index, at the end, or past the end of the array.
pub data Search : Type 0 where
  found : ℕ → Search
  absent : Search
  outside : Search

abbrev pub after : Search → Search
after (found i) = found (suc i)
after absent = absent
after outside = outside

module _ {A : Type 0} (test : A → Bool) where
  unfoldable pub search : ℕ → List A → Search
  search zero xs = absent
  search (suc n) [] = outside
  search (suc n) (x ∷ xs) = if test x then found 0 else after (search n xs)

  -- What each outcome says of the array.
  abbrev pub Searched : ℕ → List A → Search → Type 0
  Searched n xs (found i) =
      (x : A) × (get_elem? xs i ≡ some x)
      × (test x ≡ true)
      × (i < n)
      × All (λ y. test y ≡ false) (take i xs)
  Searched n xs absent = (n ≤ length xs) × All (λ y. test y ≡ false) (take n xs)
  Searched n xs outside = (length xs < n) × All (λ y. test y ≡ false) xs

  Searched-after :
      (n : ℕ) (x : A) (xs : List A) (r : Search)
      → test x ≡ false
      → Searched n xs r
      → Searched (suc n) (x ∷ xs) (after r)
  Searched-after n x xs (found i) e h = (h.0, h.1, h.2, omega (arith, h.3), (e, h.4))
  Searched-after n x xs absent e h = (omega (arith, h.0), (e, h.1))
  Searched-after n x xs outside e h = (omega (arith, h.0), (e, h.1))

  -- A search stops at the first element that passes, if one of the first `n` does.
  pub search-Searched : (n : ℕ) (xs : List A) → Searched n xs (search n xs)
  unfolding search
  search-Searched zero xs = (omega arith, tt)
  search-Searched (suc n) [] = (omega arith, tt)
  search-Searched (suc n) (x ∷ xs) = elim (Bool-cases (test x)) [
    | inl hit ↦ rw hit (x, refl, hit, omega arith, tt)
    | inr miss ↦ rw miss (Searched-after n x xs (search n xs) miss (search-Searched n xs))
  ]

  -- The other way round: what determines the outcome of a search.
  pub search-found :
      (n i : ℕ) (xs : List A) {x : A}
      → get_elem? xs i ≡ some x
      → test x ≡ true
      → i < n
      → All (λ y. test y ≡ false) (take i xs)
      → search n xs ≡ found i
  unfolding search
  search-found n i [] e t l h = cc
  search-found zero i (x ∷ xs) e t l h = absurd (omega arith)
  search-found (suc n) zero (x ∷ xs) e t l h = ground arith
  search-found (suc n) (suc i) (x ∷ xs) e t l h =
      rw (h.0, search-found n i xs e t (omega arith) h.1)

  pub search-absent :
      (n : ℕ) (xs : List A)
      → n ≤ length xs
      → All (λ y. test y ≡ false) (take n xs)
      → search n xs ≡ absent
  unfolding search
  search-absent zero xs l h = refl
  search-absent (suc n) [] l h = absurd (omega arith)
  search-absent (suc n) (x ∷ xs) l h = rw (h.0, search-absent n xs (omega arith) h.1)

  -- A replaced element that passes or fails as the old one did changes no search.
  pub search-set :
      (n i : ℕ) (xs : List A) (x v : A)
      → get_elem? xs i ≡ some x
      → test v ≡ test x
      → search n (set xs i v) ≡ search n xs
  unfolding search
  search-set n i [] x v e t = cc
  search-set zero i (y ∷ xs) x v e t = refl
  search-set (suc n) zero (y ∷ xs) x v e t = ground arith
  search-set (suc n) (suc i) (y ∷ xs) x v e t = rw (search-set n i xs x v e t)

  -- One more element behind the first `n`: it is found if none of them was.
  pub search-append_new :
      (n : ℕ) (xs : List A) (v : A)
      → n < length xs
      → search n xs ≡ absent
      → test v ≡ true
      → search (n + 1) (set xs n v) ≡ found n
  search-append_new n xs v l e t =
      let h : Searched n xs absent = subst (Searched n xs) e (search-Searched n xs) in
      search-found (n + 1) n (set xs n v) (get_elem?-set_self xs n v l) t (omega arith)
        (subst (All (λ y. test y ≡ false)) (sym (take-set_le n n xs v (omega arith))) h.1)

  pub search-append_old :
      (n j : ℕ) (xs : List A) (v : A)
      → search n xs ≡ found j
      → search (n + 1) (set xs n v) ≡ found j
  search-append_old n j xs v e =
      let h : Searched n xs (found j) = subst (Searched n xs) e (search-Searched n xs) in
      search-found (n + 1) j (set xs n v)
        (get_elem?-set_ne xs n j v (λ q. absurd (omega (arith, h.3, q))) ∙ h.1) h.2
        (omega (arith, h.3))
        (subst (All (λ y. test y ≡ false)) (sym (take-set_le j n xs v (omega (arith, h.3)))) h.4)
