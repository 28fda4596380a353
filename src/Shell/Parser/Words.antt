-- ===== src/Shell/Parser/Words.antt =====
-- The words and the redirections that parsewords of CS551P1/CS551P1/main.c collects.
use cs551_assignments.Common.{
  All, Bool-cases, List, Text, [], arith, false, inl, inr, leb, length, refl, suc, true, zero, ℕ,
  ◌++◌, ◌+◌, ◌<◌, ◌∷◌, ◌≡◌, ◌⊎◌,
}
use cs551_assignments.Shell.Lexer.{
  Tok, Token, arg, end, gettoken, peek, skip_whitespace, strchr, symbol, symbols, token_at,
}
use cs551_assignments.Shell.Parser.{
  Parse, Redir, Simple, after_word, is_arg, max_args, no_words, on_token, parseredirs, parsewords,
  redir_of, stop_set,
}
use cs551_assignments.Shell.Parser.WellFormed.{Gives, Gives-bind, IsRedir, IsWord, gettoken-IsWord}

abbrev pub Redirs : List Redir → Type 0
Redirs [] = Unit {0}
Redirs ((file, t) ∷ rs) = IsRedir file t × Redirs rs

pub Redirs-append : (rs ts : List Redir) → Redirs rs → Redirs ts → Redirs (rs ++ ts)
Redirs-append [] ts h k = k
Redirs-append ((file, t) ∷ rs) ts h k = (h.0, Redirs-append rs ts h.1 k)

abbrev signs : Text
signs = b'<' ∷ b'>' ∷ []

sign_cases : (c : ℕ) → strchr signs c ≡ true → (c ≡ b'<') ⊎ (c ≡ b'>')
unfolding strchr
sign_cases c h = ground arith

sign_symbol : (c : ℕ) → strchr signs c ≡ true → strchr symbols c ≡ true
unfolding strchr
sign_symbol c h = ground arith

redir_of-Redirs :
    (r : Text) (file : Text)
    → (elim r [ [] ↦ false | c ∷ _ ↦ strchr signs c ]) ≡ true
    → IsWord file
    → Redirs (redir_of (token_at r).tok file)
unfolding token_at redir_of
redir_of-Redirs [] file h w = cc
redir_of-Redirs (c ∷ r) file h w =
    rw (sign_symbol c h) (record { named = w; sign = sign_cases c h }, tt)

pub parseredirs-Redirs : (f : ℕ) (s : Text) → Gives Redirs (parseredirs f s)
unfolding parseredirs
parseredirs-Redirs zero s = tt
parseredirs-Redirs (suc f) s =
    let a = gettoken (gettoken s).rest in
    elim (Bool-cases (peek s signs)) [
      | inl p ↦ elim (Bool-cases (is_arg a.tok)) [
        | inl q ↦
            rw (p, q)
              (Gives-bind Redirs Redirs (parseredirs f a.rest) _ (parseredirs-Redirs f a.rest)
                λ rs rest h.
                  Redirs-append (redir_of (gettoken s).tok a.text) rs
                    (first p (gettoken-IsWord (gettoken s).rest q)) h)
        | inr n ↦ rw (p, n) tt
      ]
      | inr n ↦ rw n tt
    ]
  where
    first :
        {file : Text} → peek s signs ≡ true → IsWord file → Redirs (redir_of (gettoken s).tok file)
    first {file} p w = unfold peek gettoken in redir_of-Redirs (skip_whitespace s) file p w

-- With `argc` words stored before.
pub record Words (argc : ℕ) (c : Simple) : Type 0 where
  pub room : argc + length c.argv < max_args
  pub words : All IsWord c.argv
  pub redirs : Redirs c.redirs

no_words-Words : (argc : ℕ) → argc < max_args → Words argc no_words
no_words-Words argc h = record { room = omega arith; words = tt; redirs = tt }

after_word-Words :
    (loop : Text → Parse Simple) (f argc : ℕ) (t : Token)
    → IsWord t.text
    → (argc + 1 < max_args → (rest : Text) → Gives (Words (argc + 1)) (loop rest))
    → Gives (Words argc) (after_word loop f argc t)
unfolding after_word
after_word-Words loop f argc t w next = elim (Bool-cases (leb max_args (argc + 1))) [
  | inl full ↦ rw full tt
  | inr room ↦ rw room (
      Gives-bind Redirs (Words argc) (parseredirs f t.rest) _ (parseredirs-Redirs f t.rest)
        λ rs rest h.
          Gives-bind (Words (argc + 1)) (Words argc) (loop rest) _ (next (ground arith) rest)
            λ c rest' k. record {
              room = omega (arith, k.room);
              words = (w, k.words);
              redirs = Redirs-append rs c.redirs h k.redirs;
            })
]

on_token-Words :
    (k : Tok) (argc : ℕ) (rest : Text) (more : Parse Simple)
    → argc < max_args
    → (is_arg k ≡ true → Gives (Words argc) more)
    → Gives (Words argc) (on_token k rest more)
unfolding on_token
on_token-Words end argc rest more l h = no_words-Words argc l
on_token-Words (symbol c) argc rest more l h = tt
on_token-Words arg argc rest more l h = h refl

pub parsewords-Words :
    (f argc : ℕ) (s : Text) → argc < max_args → Gives (Words argc) (parsewords f argc s)
unfolding parsewords
parsewords-Words zero argc s h = tt
parsewords-Words (suc f) argc s h = elim (Bool-cases (peek s stop_set)) [
  | inl p ↦ rw p (no_words-Words argc h)
  | inr n ↦ rw n (
      on_token-Words (gettoken s).tok argc (gettoken s).rest _ h λ e.
        after_word-Words (parsewords f (argc + 1)) f argc (gettoken s) (gettoken-IsWord s e)
          (λ l rest. parsewords-Words f (argc + 1) rest l))
]
