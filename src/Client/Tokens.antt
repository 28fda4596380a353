-- ===== src/Client/Tokens.antt =====
-- The names that main of project2/project.c takes apart with strtok.
use cs551_assignments.Common.{
  All, Bool, Bool-cases, List, Text, [], ap, arith, false, if◌then◌else◌, inl, inr, length, refl,
  true, ℕ, ◌++◌, ◌<◌, ◌==◌, ◌∙◌, ◌∷◌, ◌≡◌,
}
use cs551_assignments.Client.Main.{add_to_first, begins_word, tokens}

-- A piece is not empty, and has no comma.
abbrev pub IsPiece : Text → Type 0
IsPiece t = (0 < length t) × All (λ c. (c == b',') ≡ false) t

unfoldable pub joined : List Text → Text
joined [] = []
joined (t ∷ ts) = t ++ joined ts

unfoldable pub without_commas : Text → Text
without_commas [] = []
without_commas (c ∷ s) = let rest = without_commas s in if c == b',' then rest else c ∷ rest

add_to_first_lem :
    (c : ℕ) (ts : List Text) (glued : Bool)
    → (c == b',') ≡ false
    → All IsPiece ts
    → All IsPiece (add_to_first c ts glued) × (joined (add_to_first c ts glued) ≡ c ∷ joined ts)
unfolding add_to_first joined
add_to_first_lem c [] glued e h = (((omega arith, (e, tt)), tt), refl)
add_to_first_lem c (t ∷ ts) true e h = (((omega arith, (e, h.0.1)), h.1), refl)
add_to_first_lem c (t ∷ ts) false e h = (((omega arith, (e, tt)), h), refl)

-- The names that the client takes from its argument are pieces without a comma, none of them
-- empty, and together they are all of the argument but its commas, in order.
pub tokens_lem : (s : Text) → All IsPiece (tokens s) × (joined (tokens s) ≡ without_commas s)
unfolding tokens joined without_commas
tokens_lem [] = (tt, refl)
tokens_lem (c ∷ s) = elim (Bool-cases (c == b',')) [
  | inl e ↦ rw e (tokens_lem s)
  | inr e ↦
      let rest = tokens_lem s in
      let more = add_to_first_lem c (tokens s) (begins_word s) e rest.0 in
      rw e (more.0, more.1 ∙ ap (λ r. c ∷ r) rest.1)
]
