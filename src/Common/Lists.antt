-- ===== src/Common/Lists.antt =====
-- Lists measured and indexed by native numbers, under the library's names.
use Prim.Native.Nat.{ℕ, zero, suc, ◌+◌, ◌<◌, ◌≤◌}
use mathlib.Core.Path.{◌≡◌, refl, ap, subst}
use mathlib.Core.Logic.{◌≢◌}
use mathlib.Core.List.{List, [], ◌∷◌, ◌++◌, map}
use mathlib.Core.Option.{Option, none, some}
use native.Mathlib.Omega.{arith}

module _ {ℓ} {A : Type ℓ} where
  abbrev pub length : List A → ℕ
  length [] = 0
  length (x ∷ xs) = suc (length xs)

  abbrev pub get_elem? : List A → ℕ → Option A
  get_elem? [] i = none
  get_elem? (x ∷ xs) zero = some x
  get_elem? (x ∷ xs) (suc i) = get_elem? xs i

  -- A write out of bounds changes nothing.
  abbrev pub set : List A → ℕ → A → List A
  set [] i v = []
  set (x ∷ xs) zero v = v ∷ xs
  set (x ∷ xs) (suc i) v = x ∷ set xs i v

  abbrev pub take : ℕ → List A → List A
  take zero xs = []
  take (suc n) [] = []
  take (suc n) (x ∷ xs) = x ∷ take n xs

  abbrev pub drop : ℕ → List A → List A
  drop zero xs = xs
  drop (suc n) [] = []
  drop (suc n) (x ∷ xs) = drop n xs

  abbrev pub replicate : ℕ → A → List A
  replicate zero a = []
  replicate (suc n) a = a ∷ replicate n a

  -- A predicate that holds of each element.
  abbrev pub All {κ} : (A → Type κ) → List A → Type κ
  All P [] = Unit
  All P (x ∷ xs) = P x × All P xs

module _ {ℓ} {A : Type ℓ} where
  pub length-append : (xs ys : List A) → length (xs ++ ys) ≡ length xs + length ys
  length-append [] ys = omega arith
  length-append (x ∷ xs) ys = omega (arith, length-append xs ys)

  pub length-set : (xs : List A) (i : ℕ) (v : A) → length (set xs i v) ≡ length xs
  length-set [] i v = refl
  length-set (x ∷ xs) zero v = refl
  length-set (x ∷ xs) (suc i) v = ap suc (length-set xs i v)

  pub length-replicate : (n : ℕ) (a : A) → length (replicate n a) ≡ n
  length-replicate zero a = refl
  length-replicate (suc n) a = ap suc (length-replicate n a)

  pub length-map {κ} : {B : Type κ} (f : A → B) (xs : List A) → length (map f xs) ≡ length xs
  length-map f [] = refl
  length-map f (x ∷ xs) = ap suc (length-map f xs)

  pub get_elem?-set_self :
      (xs : List A) (i : ℕ) (v : A) → i < length xs → get_elem? (set xs i v) i ≡ some v
  get_elem?-set_self [] i v h = elim h [ ]
  get_elem?-set_self (x ∷ xs) zero v h = refl
  get_elem?-set_self (x ∷ xs) (suc i) v h = get_elem?-set_self xs i v (omega arith)

  pub get_elem?-set_ne :
      (xs : List A) (i j : ℕ) (v : A) → i ≢ j → get_elem? (set xs i v) j ≡ get_elem? xs j
  get_elem?-set_ne [] i j v h = refl
  get_elem?-set_ne (x ∷ xs) zero zero v h = absurd (h refl)
  get_elem?-set_ne (x ∷ xs) zero (suc j) v h = refl
  get_elem?-set_ne (x ∷ xs) (suc i) zero v h = refl
  get_elem?-set_ne (x ∷ xs) (suc i) (suc j) v h = get_elem?-set_ne xs i j v (λ e. h (ap suc e))

  -- An element that is there shows that the index is in range, and the other way round.
  pub lt-length_of_get : (xs : List A) (i : ℕ) {v : A} → get_elem? xs i ≡ some v → i < length xs
  lt-length_of_get [] i h = cc
  lt-length_of_get (x ∷ xs) zero h = omega arith
  lt-length_of_get (x ∷ xs) (suc i) h = omega (arith, lt-length_of_get xs i h)

  pub get_of_lt-length : (xs : List A) (i : ℕ) → i < length xs → (v : A) × (get_elem? xs i ≡ some v)
  get_of_lt-length [] i h = absurd (omega arith)
  get_of_lt-length (x ∷ xs) zero h = (x, refl)
  get_of_lt-length (x ∷ xs) (suc i) h = get_of_lt-length xs i (omega arith)

  pub All-get {κ} :
      (P : A → Type κ) (xs : List A) (i : ℕ) {v : A} → All P xs → get_elem? xs i ≡ some v → P v
  All-get P [] i h e = cc
  All-get P (x ∷ xs) zero h e = subst P (some_injective e) h.0
    where
      some_injective : {a b : A} → some a ≡ some b → a ≡ b
      some_injective e = cc
  All-get P (x ∷ xs) (suc i) h e = All-get P xs i h.1 e

  pub All-set {κ} :
      (P : A → Type κ) (xs : List A) (i : ℕ) (v : A) → All P xs → P v → All P (set xs i v)
  All-set P [] i v h p = tt
  All-set P (x ∷ xs) zero v h p = (p, h.1)
  All-set P (x ∷ xs) (suc i) v h p = (h.0, All-set P xs i v h.1 p)

  pub All-map {κ μ} :
      {B : Type κ} (P : B → Type μ) (f : A → B) (xs : List A)
      → ((a : A) → P (f a))
      → All P (map f xs)
  All-map P f [] h = tt
  All-map P f (x ∷ xs) h = (h x, All-map P f xs h)

  pub All-replicate {κ} : (P : A → Type κ) (n : ℕ) (a : A) → P a → All P (replicate n a)
  All-replicate P zero a p = tt
  All-replicate P (suc n) a p = (p, All-replicate P n a p)

  pub length-take : (n : ℕ) (xs : List A) → n ≤ length xs → length (take n xs) ≡ n
  length-take zero xs h = refl
  length-take (suc n) [] h = absurd (omega arith)
  length-take (suc n) (x ∷ xs) h = ap suc (length-take n xs (omega arith))

  -- Writing behind the first `n` elements extends them by one.
  pub take-set_end :
      (n : ℕ) (xs : List A) (v : A)
      → n < length xs
      → take (suc n) (set xs n v) ≡ take n xs ++ v ∷ []
  take-set_end n [] v h = absurd (omega arith)
  take-set_end zero (x ∷ xs) v h = refl
  take-set_end (suc n) (x ∷ xs) v h = ap (λ r. x ∷ r) (take-set_end n xs v (omega arith))

  pub take-set_add_one :
      (n : ℕ) (xs : List A) (v : A)
      → n < length xs
      → take (n + 1) (set xs n v) ≡ take n xs ++ v ∷ []
  take-set_add_one n xs v h = let e : n + 1 ≡ suc n = omega arith in rw e (take-set_end n xs v h)

  -- A write leaves what stands before it.
  pub take-set : (i : ℕ) (xs : List A) (v : A) → take i (set xs i v) ≡ take i xs
  take-set i [] v = refl
  take-set zero (x ∷ xs) v = refl
  take-set (suc i) (x ∷ xs) v = ap (λ r. x ∷ r) (take-set i xs v)

  pub take_all : (n : ℕ) (xs : List A) → length xs ≡ n → take n xs ≡ xs
  take_all zero [] h = refl
  take_all zero (x ∷ xs) h = absurd (omega arith)
  take_all (suc n) [] h = refl
  take_all (suc n) (x ∷ xs) h = ap (λ r. x ∷ r) (take_all n xs (omega arith))

  pub All-take-set {κ} :
      (P : A → Type κ) (n i : ℕ) (xs : List A) (v : A)
      → All P (take n xs)
      → P v
      → All P (take n (set xs i v))
  All-take-set P zero i xs v h p = tt
  All-take-set P (suc n) i [] v h p = tt
  All-take-set P (suc n) zero (x ∷ xs) v h p = (p, h.1)
  All-take-set P (suc n) (suc i) (x ∷ xs) v h p = (h.0, All-take-set P n i xs v h.1 p)

  pub take-set_le : (j i : ℕ) (xs : List A) (v : A) → j ≤ i → take j (set xs i v) ≡ take j xs
  take-set_le zero i xs v h = refl
  take-set_le (suc j) i [] v h = refl
  take-set_le (suc j) zero (x ∷ xs) v h = absurd (omega arith)
  take-set_le (suc j) (suc i) (x ∷ xs) v h = ap (λ r. x ∷ r) (take-set_le j i xs v (omega arith))
