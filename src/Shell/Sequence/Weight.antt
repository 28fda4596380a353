-- ===== src/Shell/Sequence/Weight.antt =====
-- A measure of the texts that changesequence of CS551P1/CS551P1/main.c makes, and of their parts.
use cs551_assignments.Common.{
  ◌*◌, Text, [], ap, arith, drop, get_elem?, get_of_lt-length, if◌then◌else◌, length, refl, some,
  suc, sym, take, zero, ℕ, ◌++◌, ◌+◌, ◌-◌, ◌<◌, ◌==◌, ◌∙◌, ◌∷◌, ◌≡◌, ◌≤◌,
}

-- An opening parenthesis counts twice.
abbrev pub char_weight : ℕ → ℕ
char_weight c = if c == b'(' then 2 else 1

abbrev pub weight : Text → ℕ
weight [] = 0
weight (c ∷ s) = char_weight c + weight s

pub char_weight_pos : (c : ℕ) → 0 < char_weight c
char_weight_pos c = ground arith

pub length-le-weight : (s : Text) → length s ≤ weight s
length-le-weight [] = omega arith
length-le-weight (c ∷ s) = omega (arith, length-le-weight s, char_weight_pos c)

pub weight-le-length : (s : Text) → weight s ≤ 2 * length s
weight-le-length [] = omega arith
weight-le-length (c ∷ s) =
    let le_two : char_weight c ≤ 2 = ground arith in omega (arith, weight-le-length s, le_two)

pub weight-append : (s t : Text) → weight (s ++ t) ≡ weight s + weight t
weight-append [] t = omega arith
weight-append (c ∷ s) t = omega (arith, weight-append s t)

pub weight_split : (n : ℕ) (s : Text) → weight (take n s) + weight (drop n s) ≡ weight s
weight_split zero s = omega arith
weight_split (suc n) [] = refl
weight_split (suc n) (c ∷ s) = omega (arith, weight_split n s)

pub weight-take_le : (n : ℕ) (s : Text) → weight (take n s) ≤ weight s
weight-take_le n s = omega (arith, weight_split n s)

drop-nil : (n : ℕ) → drop {A = ℕ} n [] ≡ []
drop-nil zero = refl
drop-nil (suc n) = refl

drop-suc : (i x : ℕ) (s : Text) → drop (suc i + 1) (x ∷ s) ≡ drop (i + 1) s
drop-suc i x s = let e : suc i + 1 ≡ suc (i + 1) = omega arith in ap (λ k. drop k (x ∷ s)) e

pub drop-drop : (m n : ℕ) (s : Text) → drop n (drop m s) ≡ drop (m + n) s
drop-drop zero n s = ap (λ k. drop k s) (omega arith)
drop-drop (suc m) n [] = drop-nil n ∙ sym (drop-nil (suc m + n))
drop-drop (suc m) n (c ∷ s) = drop-drop m n s ∙ sym (ap (λ k. drop k (c ∷ s)) (suc_add m n))
  where
    suc_add : (m n : ℕ) → suc m + n ≡ suc (m + n)
    suc_add m n = omega arith

pub weight-drop_mono : (m n : ℕ) (s : Text) → m ≤ n → weight (drop n s) ≤ weight (drop m s)
weight-drop_mono m n s h =
    let e : drop n s ≡ drop (n - m) (drop m s) =
      ap (λ k. drop k s) (omega arith) ∙ sym (drop-drop m (n - m) s) in
    rw e (omega (arith, weight_split (n - m) (drop m s)))

-- A part of the first `k` characters.
pub weight-window :
    (n lo k : ℕ) (s : Text) → lo + n ≤ k → weight (take n (drop lo s)) ≤ weight (take k s)
weight-window zero lo k s h = omega arith
weight-window (suc n) zero zero s h = absurd (omega arith)
weight-window (suc n) zero (suc k) [] h = omega arith
weight-window (suc n) zero (suc k) (c ∷ s) h = omega (arith, weight-window n 0 k s (omega arith))
weight-window (suc n) (suc lo) zero s h = absurd (omega arith)
weight-window (suc n) (suc lo) (suc k) [] h = omega arith
weight-window (suc n) (suc lo) (suc k) (c ∷ s) h =
    omega (arith, weight-window (suc n) lo k s (omega arith))

pub drop-get : (i : ℕ) (s : Text) (c : ℕ) → get_elem? s i ≡ some c → drop i s ≡ c ∷ drop (i + 1) s
drop-get i [] c e = cc
drop-get zero (x ∷ s) c e = cc
drop-get (suc i) (x ∷ s) c e = drop-get i s c e ∙ ap (λ t. c ∷ t) (sym (drop-suc i x s))

pub get-drop :
    (i : ℕ) (d : Text) (c : ℕ) (s : Text)
    → drop i d ≡ c ∷ s
    → (get_elem? d i ≡ some c) × (drop (i + 1) d ≡ s)
get-drop zero [] c s e = cc
get-drop (suc i) [] c s e = cc
get-drop zero (x ∷ d) c s e = (cc, cc)
get-drop (suc i) (x ∷ d) c s e = let h = get-drop i d c s e in (h.0, drop-suc i x d ∙ h.1)

-- What is left of a text without an opening parenthesis at `l` and without the character at `r`.
pub weight-cut :
    (l r : ℕ) (d : Text)
    → get_elem? d l ≡ some b'('
    → l < r
    → r < length d
    → weight (take l d) + weight (take (r - l - 1) (drop (l + 1) d)) + weight (drop (r + 1) d) + 3
      ≤ weight d
weight-cut l r d e h h' =
    let (c, g) = get_of_lt-length d r h' in
    let e1 : weight (drop l d) ≡ 2 + weight (drop (l + 1) d) = rw (drop-get l d b'(' e) refl in
    let e2 : weight (drop r d) ≡ char_weight c + weight (drop (r + 1) d) =
      rw (drop-get r d c g) refl in
    let e3 : drop (r - l - 1) (drop (l + 1) d) ≡ drop r d =
      drop-drop (l + 1) (r - l - 1) d ∙ ap (λ k. drop k d) (omega arith) in
    let e4 : weight (drop (r - l - 1) (drop (l + 1) d)) ≡ weight (drop r d) = ap weight e3 in
    omega (
      arith,
      weight_split l d,
      weight_split (r - l - 1) (drop (l + 1) d),
      e1,
      e2,
      e4,
      char_weight_pos c,
    )
