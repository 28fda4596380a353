-- ===== src/Shell/Alias/Blank.antt =====
-- Where convertalias of CS551P1/CS551P1/main.c can hang: over a word of white space.
use cs551_assignments.Common.{
  arith, Bool, Bool-cases, List, if◌then◌else◌, Option, Text, [], inl, inr, ltb, length, none, refl,
  some, ◌++◌, ◌∷◌, ◌≡◌, ◌≢◌, ◌⊎◌,
}
use cs551_assignments.Shell.Parens.{maxlen}
use cs551_assignments.Shell.Alias.{
  Converted, Front, add_word, and_then, cleared, convert_blank, convert_parts, convert_token,
  convert_tokens, convertalias, converted, cut_comma, exits, expand, faults, first_front, loops,
  parts, tokens_at, trim,
}

-- A word of white space: trimming leaves nothing.
pub HasBlank : List Text → Type 0
HasBlank [] = ⊥
HasBlank (w ∷ ws) = (trim w ≡ []) ⊎ HasBlank ws

pub words_of : List (Front × Text) → List Text
words_of [] = []
words_of ((f, p) ∷ ps) = tokens_at b' ' p ++ words_of ps

-- The words between spaces, of the parts between dollar signs.
abbrev pub words : Text → List Text
words s = words_of (parts s)

HasBlank-left : (ws vs : List Text) → HasBlank ws → HasBlank (ws ++ vs)
unfolding HasBlank
HasBlank-left [] vs h = absurd h
HasBlank-left (w ∷ ws) vs (inl e) = inl e
HasBlank-left (w ∷ ws) vs (inr h) = inr (HasBlank-left ws vs h)

HasBlank-right : (ws vs : List Text) → HasBlank vs → HasBlank (ws ++ vs)
unfolding HasBlank
HasBlank-right [] vs h = h
HasBlank-right (w ∷ ws) vs h = inr (HasBlank-right ws vs h)

module _ (getenv : Text → Option Text) where
  -- A sequence hangs in its first part or in its second.
  and_then-loops :
      (c : Converted) (next : Text → Converted)
      → and_then getenv c next ≡ loops
      → (c ≡ loops) ⊎ ((t : Text) × (next t ≡ loops))
  and_then-loops (converted t) next e = inr (t, e)
  and_then-loops exits next e = absurd (ground arith)
  and_then-loops faults next e = absurd (ground arith)
  and_then-loops loops next e = inl refl

  add_word-ne-loops :
      (dest : Text) (o : Option Text) (slash : Bool) → add_word getenv dest o slash ≢ loops
  add_word-ne-loops dest none slash e = cc
  add_word-ne-loops dest (some w) slash e =
      let out = dest ++ w ++ b' ' ∷ (if slash then b',' ∷ [] else []) in
      elim (Bool-cases (ltb (length out) maxlen)) [
        | inl q ↦ absurd (ground arith)
        | inr q ↦ absurd (ground arith)
      ]

  convert_token-loops :
      (f : Front) (w dest : Text) → convert_token getenv f w dest ≡ loops → trim w ≡ []
  unfolding convert_token
  convert_token-loops f w dest e = go (trim w) e
    where
      go :
          (t : Text)
          → elim t [
            | [] ↦ convert_blank getenv f dest
            | c ∷ s ↦
                add_word getenv dest (expand getenv 3 (cut_comma (c ∷ s)).0) (cut_comma (c ∷ s)).1
          ]
            ≡ loops
          → t ≡ []
      go [] q = refl
      go (c ∷ s) q =
          absurd
            (add_word-ne-loops dest (expand getenv 3 (cut_comma (c ∷ s)).0) (cut_comma (c ∷ s)).1 q)

  convert_tokens-loops :
      (f : Front) (ws : List Text) (dest : Text)
      → convert_tokens getenv f ws dest ≡ loops
      → HasBlank ws
  unfolding convert_tokens HasBlank
  convert_tokens-loops f [] dest e = absurd (ground arith)
  convert_tokens-loops f (w ∷ ws) dest e =
      elim (and_then-loops (convert_token getenv f w dest) (convert_tokens getenv cleared ws) e) [
        | inl q ↦ inl (convert_token-loops f w dest q)
        | inr (t, q) ↦ inr (convert_tokens-loops cleared ws t q)
      ]

  convert_parts-loops :
      (ps : List (Front × Text)) (dest : Text)
      → convert_parts getenv ps dest ≡ loops
      → HasBlank (words_of ps)
  unfolding convert_parts words_of
  convert_parts-loops [] dest e = absurd (ground arith)
  convert_parts-loops ((f, p) ∷ ps) dest e =
      let first = convert_tokens getenv (first_front f p) (tokens_at b' ' p) dest in
      elim (and_then-loops first (convert_parts getenv ps) e) [
        | inl q ↦
            HasBlank-left (tokens_at b' ' p) (words_of ps)
              (convert_tokens-loops (first_front f p) (tokens_at b' ' p) dest q)
        | inr (t, q) ↦ HasBlank-right (tokens_at b' ' p) (words_of ps) (convert_parts-loops ps t q)
      ]

  pub convertalias-HasBlank : (s : Text) → convertalias getenv s ≡ loops → HasBlank (words s)
  unfolding convertalias
  convertalias-HasBlank s e = convert_parts-loops (parts s) [] e
