-- ===== src/Shell/Parser/Total.antt =====
-- The fuel of parsecmd of CS551P1/CS551P1/main.c is enough for every line.
use cs551_assignments.Common.{
  Bool-cases, Text, [], arith, inl, inr, leb, length, refl, suc, zero, ℕ, ◌+◌, ◌<◌, ◌∷◌, ◌≡◌, ◌≢◌,
  ◌≤◌,
}
use cs551_assignments.Shell.Lexer.{Tok, Token, arg, end, gettoken, peek, skip_whitespace, symbol}
use cs551_assignments.Shell.Parser.{
  Cmd, Parse, Simple, after_word, backcmd, bind, exits, fuel_for, is_arg, leftovers, max_args,
  on_token, out_of_fuel, parsebacks, parsecmd, parsed, parseexec, parseline, parsepipe, parseredirs,
  parsewords, stop_set,
}
use cs551_assignments.Shell.Parser.Progress.{gettoken-lt, gettoken_arg-lt, length-gettoken, skip-le}

-- The run ends, and where it succeeds no more than `n` characters are left.
abbrev Ends : {A : Type 0} → ℕ → Parse A → Type 0
Ends n (parsed a rest) = length rest ≤ n
Ends n (exits e) = Unit {0}
Ends n out_of_fuel = ⊥

Ends-bind :
    {A B : Type 0} (n m : ℕ) (r : Parse A) (k : A → Text → Parse B)
    → Ends n r
    → ((a : A) (rest : Text) → length rest ≤ n → Ends m (k a rest))
    → Ends m (bind r k)
Ends-bind n m (parsed a rest) k h next = next a rest h
Ends-bind n m (exits e) k h next = tt
Ends-bind n m out_of_fuel k h next = absurd h

parseredirs-Ends : (f : ℕ) (s : Text) → length s < f → Ends (length s) (parseredirs f s)
unfolding parseredirs
parseredirs-Ends zero s h = absurd (omega arith)
parseredirs-Ends (suc f) s h =
    let a = gettoken (gettoken s).rest in
    elim (Bool-cases (peek s (b'<' ∷ b'>' ∷ []))) [
      | inl p ↦
          let l : length a.rest < length s =
            omega (arith, gettoken-lt s _ p, length-gettoken (gettoken s).rest) in
          elim (Bool-cases (is_arg a.tok)) [
            | inl q ↦
                rw (p, q)
                  (Ends-bind (length a.rest) (length s) (parseredirs f a.rest) _
                    (parseredirs-Ends f a.rest (omega (arith, l))) (λ rs rest e. omega (arith, l)))
            | inr n ↦ rw (p, n) tt
          ]
      | inr n ↦ rw n (skip-le s)
    ]

after_word-Ends :
    (loop : Text → Parse Simple) (f argc n : ℕ) (t : Token)
    → length t.rest < f
    → length t.rest ≤ n
    → ((rest : Text) → length rest ≤ length t.rest → Ends (length rest) (loop rest))
    → Ends n (after_word loop f argc t)
unfolding after_word
after_word-Ends loop f argc n t h l next = elim (Bool-cases (leb max_args (argc + 1))) [
  | inl full ↦ rw full tt
  | inr room ↦ rw room (
      Ends-bind (length t.rest) n (parseredirs f t.rest) _ (parseredirs-Ends f t.rest h)
        λ rs rest e.
          Ends-bind (length rest) n (loop rest) _ (next rest e) (λ c rest' e'. omega (arith, l)))
]

on_token-Ends :
    (k : Tok) (n : ℕ) (rest : Text) (more : Parse Simple)
    → length rest ≤ n
    → (k ≡ arg → Ends n more)
    → Ends n (on_token k rest more)
unfolding on_token
on_token-Ends end n rest more l h = l
on_token-Ends (symbol c) n rest more l h = tt
on_token-Ends arg n rest more l h = h refl

parsewords-Ends : (f argc : ℕ) (s : Text) → length s < f → Ends (length s) (parsewords f argc s)
unfolding parsewords
parsewords-Ends zero argc s h = absurd (omega arith)
parsewords-Ends (suc f) argc s h = elim (Bool-cases (peek s stop_set)) [
  | inl p ↦ rw p (skip-le s)
  | inr n ↦ rw n (
      on_token-Ends (gettoken s).tok (length s) (gettoken s).rest _ (length-gettoken s) λ e.
        after_word-Ends (parsewords f (argc + 1)) f argc (length s) (gettoken s)
          (omega (arith, gettoken_arg-lt s e)) (length-gettoken s)
          (λ rest l. parsewords-Ends f (argc + 1) rest (omega (arith, gettoken_arg-lt s e))))
]

parseexec-Ends : (f : ℕ) (s : Text) → length s < f → Ends (length s) (parseexec f s)
unfolding parseexec
parseexec-Ends f s h =
    Ends-bind (length s) (length s) (parseredirs f s) _ (parseredirs-Ends f s h) λ rs rest l.
      Ends-bind (length rest) (length s) (parsewords f 0 rest) _
        (parsewords-Ends f 0 rest (omega arith)) (λ c rest' l'. omega arith)

parsepipe-Ends : (f : ℕ) (s : Text) → length s + 1 < f → Ends (length s) (parsepipe f s)
unfolding parsepipe
parsepipe-Ends zero s h = absurd (omega arith)
parsepipe-Ends (suc f) s h =
    Ends-bind (length s) (length s) (parseexec f s) _ (parseexec-Ends f s (omega arith))
      λ left rest l. elim (Bool-cases (peek rest (b'|' ∷ []))) [
        | inl p ↦
            let next = (gettoken rest).rest in
            let shorter = gettoken-lt rest _ p in
            rw p (
              Ends-bind (length next) (length s) (parsepipe f next) _
                (parsepipe-Ends f next (omega (arith, shorter)))
                (λ c rest' l'. omega (arith, shorter)))
        | inr n ↦ rw n (omega (arith, skip-le rest))
      ]

parsebacks-Ends : (f : ℕ) (c : Cmd) (s : Text) → length s < f → Ends (length s) (parsebacks f c s)
unfolding parsebacks
parsebacks-Ends zero c s h = absurd (omega arith)
parsebacks-Ends (suc f) c s h = elim (Bool-cases (peek s (b'&' ∷ []))) [
  | inl p ↦ rw p (
      weaken (gettoken-lt s _ p) (parsebacks f (backcmd c) (gettoken s).rest)
        (parsebacks-Ends f (backcmd c) (gettoken s).rest (omega (arith, gettoken-lt s _ p))))
  | inr n ↦ rw n (skip-le s)
]
  where
    weaken : {n : ℕ} → n < length s → (r : Parse Cmd) → Ends n r → Ends (length s) r
    weaken l (parsed a rest) h = omega arith
    weaken l (exits e) h = tt
    weaken l out_of_fuel h = h

parseline-Ends : (f : ℕ) (s : Text) → length s + 2 < f → Ends (length s) (parseline f s)
unfolding parseline
parseline-Ends zero s h = absurd (omega arith)
parseline-Ends (suc f) s h =
    Ends-bind (length s) (length s) (parsepipe f s) _ (parsepipe-Ends f s (omega arith)) λ c rest l.
      Ends-bind (length rest) (length s) (parsebacks f c rest) _
        (parsebacks-Ends f c rest (omega arith))
        λ left rest' l'. elim (Bool-cases (peek rest' (b';' ∷ []))) [
          | inl p ↦
              let next = (gettoken rest').rest in
              let shorter = gettoken-lt rest' _ p in
              rw p (
                Ends-bind (length next) (length s) (parseline f next) _
                  (parseline-Ends f next (omega (arith, shorter)))
                  (λ c rest'' l''. omega (arith, shorter)))
          | inr n ↦ rw n (omega (arith, skip-le rest'))
        ]

-- Every line is parsed, or left by one of the parser's exits: the loops and the recursion end.
pub parsecmd-ne-out_of_fuel : (s : Text) → parsecmd s ≢ out_of_fuel
unfolding parsecmd
parsecmd-ne-out_of_fuel s = ends (
    Ends-bind (length s) 0 (parseline (fuel_for s) s) _
      (parseline-Ends (fuel_for s) s (omega arith)) (λ c rest l. last c (skip_whitespace rest)))
  where
    last :
        (c : Cmd) (r : Text)
        → Ends 0 (elim r [ [] ↦ parsed c [] | x ∷ xs ↦ exits (leftovers (x ∷ xs)) ])
    last c [] = omega arith
    last c (x ∷ xs) = tt

    ends : {r : Parse Cmd} → Ends 0 r → r ≢ out_of_fuel
    ends {r = parsed a rest} h e = cc
    ends {r = exits x} h e = cc
    ends {r = out_of_fuel} h e = h
