-- ===== src/Shell/Console.antt =====
-- The loop of main in CS551P1/CS551P1/main.c that opens the console until three descriptors are
-- open, before any line is read.
use cs551_assignments.Common.{
  Bool-cases, List, Option, Text, ap, arith, inl, inr, none, refl, ◌==◌, ◌⊎◌, some, sym, ℕ, ◌<◌,
  ◌∙◌, ◌≡◌, ◌≢◌, ◌≤◌,
}
use cs551_assignments.Shell.Calls.{IsLawful, IsLowest, Kernel, Sets}
use cs551_assignments.Shell.Parser.{Cmd, parsecmd, parsed}
use cs551_assignments.Shell.Run.{Launch, Runs, runcmd}
use cs551_assignments.Shell.Run.Refine.{Planned, runcmd-Planned}

-- `Console n` relates the tables before and after an `open("console", O_RDWR)` that returns n.
module _ (K : Kernel) (Console : ℕ → K.Table → K.Table → Type 0) where
  open K use {Object, Table, refers, Close}

  -- The end of the loop by its break, and the end by a call that fails.
  pub data Breaks : Table → Table → Type 0 where
    closes : {n : ℕ} {t u v : Table} → Console n t u → 3 ≤ n → Close n u v → Breaks t v
    opens : {n : ℕ} {t u v : Table} → Console n t u → n < 3 → Breaks u v → Breaks t v

  pub data Fails : Table → Table → Type 0 where
    fails : {t : Table} → Fails t t
    opens : {n : ℕ} {t u v : Table} → Console n t u → n < 3 → Fails u v → Fails t v

  -- POSIX: the lowest descriptor is taken.
  abbrev pub IsOpen : Type 0
  IsOpen =
      (n : ℕ) (t u : Table)
      → Console n t u
      → IsLowest K n t × ((o : Object) × Sets K n (some o) t u)

  module _ (lawful : IsLawful K) (console : IsOpen) where
    open lawful use {close-Sets}

    -- Where the loop ends by its break, the descriptors 0, 1 and 2 are open.
    Breaks-open : {t v : Table} → Breaks t v → (m : ℕ) → m < 3 → refers v m ≢ none
    Breaks-open (closes {n} {t} {u} {v} c l e) m k r =
        let (low, (o, sets)) = console n t u c in
        let ne : m ≢ n = λ q. absurd (omega (arith, q)) in
        low.used m (omega arith) (sym (sets.there m ne) ∙ sym ((close-Sets e).there m ne) ∙ r)
    Breaks-open (opens c l b) m k r = Breaks-open b m k r

    Breaks-keeps :
        {t v : Table}
        → Breaks t v
        → (m : ℕ) → (3 ≤ m) ⊎ (refers t m ≢ none)
        → refers v m ≡ refers t m
    Breaks-keeps (closes {n} {t} {u} {v} c l e) m k =
        let (low, (o, sets)) = console n t u c in
        elim (Bool-cases (m == n)) [
          | inl q ↦ let at : m ≡ n = ground (arith, q) in rw at ((close-Sets e).here ∙ sym low.free)
          | inr q ↦
              let ne : m ≢ n = ground (arith, q) in (close-Sets e).there m ne ∙ sets.there m ne
        ]
    Breaks-keeps (opens {n} {t} {u} {v} c l b) m k =
        let (low, (o, sets)) = console n t u c in
        elim (Bool-cases (m == n)) [
          | inl q ↦
              let at : m ≡ n = ground (arith, q) in
              absurd (elim k [
                | inl g ↦ omega (arith, at, g, l)
                | inr h ↦ h (ap (refers t) at ∙ low.free)
              ])
          | inr q ↦
              let ne : m ≢ n = ground (arith, q) in
              let same = sets.there m ne in
              Breaks-keeps b m (elim k [ inl g ↦ inl g | inr h ↦ inr (λ r. h (sym same ∙ r)) ])
              ∙ same
        ]

    -- Where the loop ends by its break, over an `open` that takes the lowest free descriptor, the
    -- descriptors 0, 1 and 2 are open, and every one from 3 on, and every one that was open before,
    -- refers to what it referred to: the console fills the gaps among the first three, and the
    -- descriptor that ends the loop is closed again.
    pub Breaks_lem :
        {t v : Table}
        → Breaks t v
        → ((m : ℕ) → m < 3 → refers v m ≢ none)
          × ((m : ℕ) → (3 ≤ m) ⊎ (refers t m ≢ none) → refers v m ≡ refers t m)
    Breaks_lem b = (Breaks-open b, Breaks-keeps b)

    some_of_open : (t : Table) (m : ℕ) → refers t m ≢ none → (o : Object) × (refers t m ≡ some o)
    some_of_open t m h = go (refers t m) refl
      where
        go : (r : Option Object) → refers t m ≡ r → (o : Object) × (refers t m ≡ some o)
        go none e = absurd (h e)
        go (some o) e = (o, e)

    -- Behind the loop, where it has ended by its break, the command of a line starts a part of the
    -- programs that it plans, on the input and the output that the shell has.
    pub runcmd-Planned_behind :
        (s rest : Text) (c : Cmd) (t v : Table) (ls : List (Launch K))
        → Breaks t v
        → parsecmd s ≡ parsed c rest
        → Runs K (runcmd c) v ls
        → (i o : Object) × (refers v 0 ≡ some i)
          × (refers v 1 ≡ some o)
          × Planned K lawful v c i o ls
    runcmd-Planned_behind s rest c t v ls b e r =
        let (i, input) = some_of_open v 0 (Breaks-open b 0 (omega arith)) in
        let (o, output) = some_of_open v 1 (Breaks-open b 1 (omega arith)) in
        (i, o, input, output, runcmd-Planned K lawful s rest c v i o ls e input output r)
