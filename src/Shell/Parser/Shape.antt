-- ===== src/Shell/Parser/Shape.antt =====
-- The commands that parsecmd of CS551P1/CS551P1/main.c builds.
use cs551_assignments.Common.{
  Bool-cases, List, Text, [], arith, inl, inr, refl, subst, suc, zero, ℕ, ◌++◌, ◌∷◌, ◌≡◌,
}
use cs551_assignments.Shell.Lexer.{gettoken, peek, skip_whitespace}
use cs551_assignments.Shell.Parser.{
  Cmd, Parse, Redir, backcmd, bind, execcmd, exits, fuel_for, leftovers, out_of_fuel, parsebacks,
  parsecmd, parsed, parseexec, parseline, parsepipe, parseredirs, parsewords, redircmd, wrap,
}
use cs551_assignments.Shell.Parser.WellFormed.{Gives, Gives-bind, IsRedir, IsWellFormed}
use cs551_assignments.Shell.Parser.Words.{
  Redirs, Redirs-append, Words, parseredirs-Redirs, parsewords-Words,
}

redircmd-IsWellFormed :
    (c : Cmd) (file : Text) (t : ℕ)
    → IsWellFormed c
    → IsRedir file t
    → IsWellFormed (redircmd c file t)
unfolding redircmd
redircmd-IsWellFormed c file t h r = (h, r, record { input = ground arith; output = ground arith })

wrap-IsWellFormed :
    (c : Cmd) (rs : List Redir) → IsWellFormed c → Redirs rs → IsWellFormed (wrap c rs)
unfolding wrap
wrap-IsWellFormed c [] h k = h
wrap-IsWellFormed c ((file, t) ∷ rs) h k =
    wrap-IsWellFormed (redircmd c file t) rs (redircmd-IsWellFormed c file t h k.0) k.1

parseexec-IsWellFormed : (f : ℕ) (s : Text) → Gives IsWellFormed (parseexec f s)
unfolding parseexec
parseexec-IsWellFormed f s =
    Gives-bind Redirs IsWellFormed (parseredirs f s) _ (parseredirs-Redirs f s) λ rs rest h.
      Gives-bind (Words 0) IsWellFormed (parsewords f 0 rest) _
        (parsewords-Words f 0 rest (omega arith))
        λ c rest' k.
          wrap-IsWellFormed (execcmd c.argv) (rs ++ c.redirs) (omega (arith, k.room), k.words)
            (Redirs-append rs c.redirs h k.redirs)

parsepipe-IsWellFormed : (f : ℕ) (s : Text) → Gives IsWellFormed (parsepipe f s)
unfolding parsepipe
parsepipe-IsWellFormed zero s = tt
parsepipe-IsWellFormed (suc f) s =
    Gives-bind IsWellFormed IsWellFormed (parseexec f s) _ (parseexec-IsWellFormed f s)
      λ left rest h. elim (Bool-cases (peek rest (b'|' ∷ []))) [
        | inl p ↦ rw p (
            Gives-bind IsWellFormed IsWellFormed (parsepipe f (gettoken rest).rest) _
              (parsepipe-IsWellFormed f (gettoken rest).rest) (λ c rest' k. (h, k)))
        | inr n ↦ rw n h
      ]

parsebacks-IsWellFormed :
    (f : ℕ) (c : Cmd) (s : Text) → IsWellFormed c → Gives IsWellFormed (parsebacks f c s)
unfolding parsebacks
parsebacks-IsWellFormed zero c s h = tt
parsebacks-IsWellFormed (suc f) c s h = elim (Bool-cases (peek s (b'&' ∷ []))) [
  | inl p ↦ rw p (parsebacks-IsWellFormed f (backcmd c) (gettoken s).rest h)
  | inr n ↦ rw n h
]

parseline-IsWellFormed : (f : ℕ) (s : Text) → Gives IsWellFormed (parseline f s)
unfolding parseline
parseline-IsWellFormed zero s = tt
parseline-IsWellFormed (suc f) s =
    Gives-bind IsWellFormed IsWellFormed (parsepipe f s) _ (parsepipe-IsWellFormed f s) λ c rest h.
      Gives-bind IsWellFormed IsWellFormed (parsebacks f c rest) _
        (parsebacks-IsWellFormed f c rest h)
        λ left rest' h'. elim (Bool-cases (peek rest' (b';' ∷ []))) [
          | inl p ↦ rw p (
              Gives-bind IsWellFormed IsWellFormed (parseline f (gettoken rest').rest) _
                (parseline-IsWellFormed f (gettoken rest').rest) (λ right rest'' k. (h', k)))
          | inr n ↦ rw n h'
        ]

-- Every command that parsecmd returns is well-formed, and no part of the line is left over.
pub parsecmd-IsWellFormed :
    (s rest : Text) (c : Cmd) → parsecmd s ≡ parsed c rest → IsWellFormed c × (rest ≡ [])
unfolding parsecmd
parsecmd-IsWellFormed s rest c e =
    done (bind (parseline (fuel_for s) s) finish)
      (Gives-bind IsWellFormed IsWellFormed (parseline (fuel_for s) s) finish
        (parseline-IsWellFormed (fuel_for s) s) (λ c rest h. last c (skip_whitespace rest) h))
      (at_end (parseline (fuel_for s) s)) e
  where
    finish : Cmd → Text → Parse Cmd
    finish c rest = elim (skip_whitespace rest) [
      | [] ↦ parsed c []
      | x ∷ xs ↦ exits (leftovers (x ∷ xs))
    ]

    last :
        (c : Cmd) (r : Text)
        → IsWellFormed c
        → Gives IsWellFormed (elim r [ [] ↦ parsed c [] | x ∷ xs ↦ exits (leftovers (x ∷ xs)) ])
    last c [] h = h
    last c (x ∷ xs) h = tt

    AtEnd : Parse Cmd → Type 0
    AtEnd (parsed c rest) = rest ≡ []
    AtEnd (exits x) = Unit {0}
    AtEnd out_of_fuel = Unit {0}

    at_rest :
        (c : Cmd) (r : Text)
        → AtEnd (elim r [ [] ↦ parsed c [] | x ∷ xs ↦ exits (leftovers (x ∷ xs)) ])
    at_rest c [] = refl
    at_rest c (x ∷ xs) = tt

    at_end : (r : Parse Cmd) → AtEnd (bind r finish)
    at_end (parsed c rest) = at_rest c (skip_whitespace rest)
    at_end (exits x) = tt
    at_end out_of_fuel = tt

    done :
        (r : Parse Cmd)
        → Gives IsWellFormed r
        → AtEnd r
        → r ≡ parsed c rest
        → IsWellFormed c × (rest ≡ [])
    done (parsed c' rest') h k q =
        let p : c' ≡ c = cc in let p' : rest' ≡ rest = cc in (subst IsWellFormed p h, rw p' at k)
    done (exits x) h k q = cc
    done out_of_fuel h k q = cc
