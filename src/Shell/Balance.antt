-- ===== src/Shell/Balance.antt =====
-- validateparenthes of CS551P1/CS551P1/main.c against the grammar of balanced texts.
use mathlib.Core.List.{append-nil, append_assoc}
use cs551_assignments.Common.{
  Bool-cases, Option, Text, [], ap, arith, false, inl, inr, length, none, ok, refl, some, subst,
  suc, sym, true, zero, ℕ, ◌++◌, ◌+◌, ◌-◌, ◌==◌, ◌↔◌, ◌∙◌, ◌∷◌, ◌≡◌, ◌≢◌, ◌≤◌,
}
use cs551_assignments.Shell.Parens.{
  Balanced, answer, depth, empty, maxlen, nest, other, validateparenthes, validateparenthes-answer,
}

depth_close : (s : Text) (n : ℕ) → depth (b')' ∷ s) (n + 1) ≡ depth s n
unfolding depth
depth_close s n =
    let p : (n + 1 == 0) ≡ false = ground arith in let q : n + 1 - 1 ≡ n = omega arith in rw (p, q)

depth_open : (s : Text) (n : ℕ) → depth (b'(' ∷ s) n ≡ depth s (n + 1)
unfolding depth
depth_open s n = refl

depth_other :
    (c : ℕ) (s : Text) (n : ℕ)
    → (c == b'(') ≡ false
    → (c == b')') ≡ false
    → depth (c ∷ s) n ≡ depth s n
unfolding depth
depth_other c s n p q = rw (p, q)

-- A balanced text leaves the depth as it was.
depth-append : {s : Text} → Balanced s → (n : ℕ) (t : Text) → depth (s ++ t) n ≡ depth t n
depth-append empty n t = refl
depth-append (other {s} c a b h) n t =
    depth_other c (s ++ t) n (ground arith) (ground arith) ∙ depth-append h n t
depth-append (nest {s} {t = r} {u} h k e) n t =
    let shape : (s ++ b')' ∷ r) ++ t ≡ s ++ b')' ∷ (r ++ t) = simp append_assoc in
    rw e (
      depth_open ((s ++ b')' ∷ r) ++ t) n
      ∙ rw (shape, depth-append h (n + 1) (b')' ∷ (r ++ t)), depth_close (r ++ t) n)
          (depth-append k n t))

-- Balanced texts with `n` closing parentheses between them.
abbrev Closes : ℕ → Text → Type 0
Closes zero s = Balanced s
Closes (suc n) s = (a : Text) × (b : Text) × Balanced a × Closes n b × (s ≡ a ++ b')' ∷ b)

Closes-other : (n c : ℕ) (s : Text) → c ≢ b'(' → c ≢ b')' → Closes n s → Closes n (c ∷ s)
Closes-other zero c s p q h = other c p q h
Closes-other (suc n) c s p q (a, b, h, k, e) = (c ∷ a, b, other c p q h, k, ap (λ r. c ∷ r) e)

Closes-nest :
    (n : ℕ) (a b s : Text) → Balanced a → Closes n b → s ≡ a ++ b')' ∷ b → Closes n (b'(' ∷ s)
Closes-nest zero a b s h k e = nest h k (ap (λ r. b'(' ∷ r) e)
Closes-nest (suc n) a b s h (a', b', h', k', e') e = (
  b'(' ∷ (a ++ b')' ∷ a'),
  b',
  nest h h' refl,
  k',
  ap (λ r. b'(' ∷ r) (e ∙ rw e' (simp append_assoc)),
)

Closes-close :
    (n : ℕ) (s : Text)
    → depth (b')' ∷ s) n ≡ some 0
    → ((m : ℕ) → depth s m ≡ some 0 → Closes m s)
    → Closes n (b')' ∷ s)
unfolding depth
Closes-close zero s e h = cc
Closes-close (suc n) s e h = (
  [],
  s,
  empty,
  h n (sym (depth_close s n) ∙ ap (λ k. depth (b')' ∷ s) k) (omega arith) ∙ e),
  refl,
)

depth_end : (n : ℕ) → depth [] n ≡ some 0 → n ≡ 0
unfolding depth
depth_end n e = cc

-- A text that closes exactly what is open is made of balanced ones.
depth-Closes : (s : Text) (n : ℕ) → depth s n ≡ some 0 → Closes n s
depth-Closes [] zero e = empty
depth-Closes [] (suc n) e = absurd (omega (arith, depth_end (suc n) e))
depth-Closes (c ∷ s) n e =
    let rest = depth-Closes s in
    elim (Bool-cases (c == b'(')) [
      | inl a ↦
          let q : c ≡ b'(' = ground arith in
          let deep = rest (suc n) (
            ap (depth s) (omega arith)
            ∙ sym (depth_open s n)
            ∙ ap (λ k. depth (k ∷ s) n) (sym q)
            ∙ e) in
          subst (λ k. Closes n (k ∷ s)) (sym q) (Closes-nest n deep.0 deep.1 s deep.2 deep.3 deep.4)
      | inr a ↦ elim (Bool-cases (c == b')')) [
        | inl b ↦
            let q : c ≡ b')' = ground arith in
            subst (λ k. Closes n (k ∷ s)) (sym q)
              (Closes-close n s (ap (λ k. depth (k ∷ s) n) (sym q) ∙ e) rest)
        | inr b ↦
            Closes-other n c s (ground arith) (ground arith)
              (rest n (sym (depth_other c s n a b) ∙ e))
      ]
    ]

Balanced-depth : {s : Text} → Balanced s → depth s 0 ≡ some 0
unfolding depth
Balanced-depth {s} h = ap (λ r. depth r 0) (sym (append-nil s)) ∙ depth-append h 0 []

-- On a text of at most MAXLEN bytes validateparenthes answers yes exactly on the balanced texts.
pub validateparenthes-iff-Balanced :
    (s : Text) → length s ≤ maxlen → (validateparenthes s ≡ ok true) ↔ Balanced s
validateparenthes-iff-Balanced s h = (
  λ e. depth-Closes s 0 (from (depth s 0) (sym (validateparenthes-answer s h) ∙ e)),
  λ b. validateparenthes-answer s h ∙ ap answer (Balanced-depth b),
)
  where
    got : (n : ℕ) → answer (some n) ≡ ok true → n ≡ 0
    got n e = ground arith

    from : (d : Option ℕ) → answer d ≡ ok true → d ≡ some 0
    from none e = cc
    from (some n) e = ap some (got n e)
