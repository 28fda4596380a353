-- ===== src/Shell/Main/Lines.antt =====
-- What the child of main in CS551P1/CS551P1/main.c does with a line.
use cs551_assignments.Common.{
  Bool, Option, Run, inl, inr, ◌⊎◌, Text, [], arith, false, fault, if◌then◌else◌, length, map, ok,
  refl, some, suc, true, ◌*◌, ◌+◌, ◌<◌, ◌==◌, ◌∷◌, ◌≡◌, ◌≢◌, ◌≤◌,
}
use cs551_assignments.Shell.Lexer.{strchr}
use cs551_assignments.Shell.Parser.{Cmd, Parse, bind, out_of_fuel, parsecmd, exits, parsed}
use cs551_assignments.Shell.Parser.Total.{parsecmd-ne-out_of_fuel}
use cs551_assignments.Shell.Parens.{Balanced, empty, maxlen, other, validateparenthes}
use cs551_assignments.Shell.Balance.{validateparenthes-iff-Balanced}
use cs551_assignments.Shell.Alias.{Converted, convertalias, converted}
use cs551_assignments.Shell.Alias.{
  exits as alias_exits, faults as alias_faults, loops as alias_loops,
}
use cs551_assignments.Shell.Alias.Blank.{HasBlank, convertalias-HasBlank, words}
use cs551_assignments.Shell.Sequence.{changesequence}
use cs551_assignments.Shell.Sequence.Ends.{changesequence_ends, changesequence_replaces}
use cs551_assignments.Shell.Run.{run_line, runcmd}
use cs551_assignments.Shell.Main.{
  Child, after_changesequence, after_validation, child, ends, goes_on, hangs, runs, undefined,
  unfinished,
}

run_line-ne-out_of_fuel : (s : Text) → run_line s ≢ out_of_fuel
unfolding run_line
run_line-ne-out_of_fuel s = go (parsecmd s) (parsecmd-ne-out_of_fuel s)
  where
    go : (r : Parse Cmd) → r ≢ out_of_fuel → bind r (λ c rest. parsed (runcmd c) rest) ≢ out_of_fuel
    go (parsed c rest) h e = cc
    go (exits x) h e = cc
    go out_of_fuel h e = h refl

-- Where the steps of the child leave C undefined: in the check of parentheses, in convertalias, or
-- in the rewriting of what convertalias has made.
abbrev pub HasFault : (Text → Option (Run Text)) → (Text → Option Text) → Text → Type 0
HasFault rewrite getenv buf =
    (validateparenthes buf ≡ fault)
    ⊎ ((convertalias getenv buf ≡ alias_faults)
        ⊎ ((t : Text) × (convertalias getenv buf ≡ converted t) × (rewrite t ≡ some fault)))

-- How the preparation of a line can end. It hangs only over a word of white space.
abbrev pub HasEnded : (Text → Option (Run Text)) → (Text → Option Text) → Text → Child → Type 0
HasEnded rewrite getenv buf (runs p) = p ≢ out_of_fuel
HasEnded rewrite getenv buf ends = convertalias getenv buf ≡ alias_exits
HasEnded rewrite getenv buf goes_on = validateparenthes buf ≡ ok false
HasEnded rewrite getenv buf undefined = HasFault rewrite getenv buf
HasEnded rewrite getenv buf hangs = HasBlank (words buf)
HasEnded rewrite getenv buf unfinished = ⊥

-- changesequence, with the fuel that it has in the child.
abbrev pub rewritten : Text → Option (Run Text)
rewritten t = changesequence (2 * length t + 1) t

pub child_ends :
    (getenv : Text → Option Text) (buf : Text) → HasEnded rewritten getenv buf (child getenv buf)
unfolding child
child_ends getenv buf = go (validateparenthes buf) (convertalias getenv buf) refl refl
  where
    from_text :
        (t : Text) (r : Run Text)
        → convertalias getenv buf ≡ converted t
        → rewritten t ≡ some r
        → HasEnded rewritten getenv buf (after_changesequence (some r))
    from_text t fault e q = inr (inr (t, e, q))
    from_text t (ok u) e q = run_line-ne-out_of_fuel u

    go :
        (v : Run Bool) (c : Converted)
        → validateparenthes buf ≡ v
        → convertalias getenv buf ≡ c
        → HasEnded rewritten getenv buf (after_validation v c)
    go fault c p q = inl p
    go (ok false) c p q = p
    go (ok true) alias_exits p q = q
    go (ok true) alias_faults p q = inr (inl q)
    go (ok true) alias_loops p q = convertalias-HasBlank getenv buf q
    go (ok true) (converted t) p q =
        let (r, e, g) = changesequence_ends t in rw e (from_text t r q e)

pub plain-Balanced : (s : Text) → strchr s b'(' ≡ false → strchr s b')' ≡ false → Balanced s
unfolding strchr
plain-Balanced [] h h' = empty
plain-Balanced (c ∷ s) h h' =
    other c (λ q. ground (arith, q, h)) (λ q. ground (arith, q, h'))
      (plain-Balanced s (ground (arith, h)) (ground (arith, h')))

-- A line of at most 256 characters without parentheses, which convertalias makes a text of less
-- than 256 without opening ones, is run as that text with a bar for every comma.
pub child_runs :
    (getenv : Text → Option Text) (buf t : Text)
    → strchr buf b'(' ≡ false
    → strchr buf b')' ≡ false
    → length buf ≤ maxlen
    → convertalias getenv buf ≡ converted t
    → strchr t b'(' ≡ false
    → length t < maxlen
    → child getenv buf ≡ runs (run_line (map (λ c. if c == b',' then b'|' else c) t))
unfolding child
child_runs getenv buf t h h' l e n l' =
    let valid = (validateparenthes-iff-Balanced buf l).1 (plain-Balanced buf h h') in
    let fuel : 2 * length t + 1 ≡ suc (2 * length t) = omega arith in
    rw (valid, e, fuel, changesequence_replaces (2 * length t) t n l') refl
