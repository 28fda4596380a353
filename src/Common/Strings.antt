-- ===== src/Common/Strings.antt =====
-- C strings as the lists of their bytes before the terminating NUL.
use Prim.Native.Nat.{ℕ, zero, suc}
use mathlib.Core.Path.{◌≡◌, refl}
use mathlib.Core.Bool.{Bool, true, false, ◌&&◌}
use mathlib.Core.List.{List, [], ◌∷◌, ◌++◌}
use native.Mathlib.Omega.{arith}
use cs551_assignments.Common.Tests.{◌==◌}
use cs551_assignments.Common.Lists.{length}

abbrev pub Text : Type 0
Text = List ℕ

-- `strncmp(a, b, n) == 0`: at most n bytes are compared, and none after the end of both.
unfoldable pub strncmp_eq : ℕ → Text → Text → Bool
strncmp_eq zero a b = true
strncmp_eq (suc n) [] [] = true
strncmp_eq (suc n) [] (y ∷ ys) = false
strncmp_eq (suc n) (x ∷ xs) [] = false
strncmp_eq (suc n) (x ∷ xs) (y ∷ ys) = (x == y) && strncmp_eq n xs ys

-- `strcmp(a, b) == 0`.
unfoldable pub strcmp_eq : Text → Text → Bool
strcmp_eq [] [] = true
strcmp_eq [] (y ∷ ys) = false
strcmp_eq (x ∷ xs) [] = false
strcmp_eq (x ∷ xs) (y ∷ ys) = (x == y) && strcmp_eq xs ys

pub strcmp_eq_refl : (a : Text) → strcmp_eq a a ≡ true
unfolding strcmp_eq
strcmp_eq_refl [] = refl
strcmp_eq_refl (x ∷ xs) = ground (arith, strcmp_eq_refl xs)

pub eq_of_strcmp : (a b : Text) → strcmp_eq a b ≡ true → a ≡ b
unfolding strcmp_eq
eq_of_strcmp [] [] h = refl
eq_of_strcmp [] (y ∷ ys) h = cc
eq_of_strcmp (x ∷ xs) [] h = cc
eq_of_strcmp (x ∷ xs) (y ∷ ys) h = ground (arith, eq_of_strcmp xs ys)

-- Compared over the whole of `b`, a text passes exactly if it begins with `b`.
pub strncmp_append : (b c : Text) → strncmp_eq (length b) (b ++ c) b ≡ true
unfolding strncmp_eq
strncmp_append [] c = refl
strncmp_append (x ∷ xs) c = ground (arith, strncmp_append xs c)

pub strncmp_prefix : (a b : Text) → strncmp_eq (length b) a b ≡ true → (c : Text) × (a ≡ b ++ c)
unfolding strncmp_eq
strncmp_prefix a [] h = (a, refl)
strncmp_prefix [] (y ∷ ys) h = cc
strncmp_prefix (x ∷ xs) (y ∷ ys) h =
    let rest = strncmp_prefix xs ys (ground arith) in (rest.0, ground arith)

pub strncmp_self : (a : Text) → strncmp_eq (length a) a a ≡ true
unfolding strncmp_eq
strncmp_self [] = refl
strncmp_self (x ∷ xs) = ground (arith, strncmp_self xs)
