-- ===== src/Shell/Calls.antt =====
-- The system calls that runcmd of CS551P1/CS551P1/main.c makes, over unknown descriptor tables.
use cs551_assignments.Common.{Option, Text, none, some, ℕ, ◌<◌, ◌≡◌, ◌≢◌}
use cs551_assignments.Shell.Parser.{Mode}

-- An object is an open file description; descriptors refer to it. Each call relates the table
-- before it to the one after it: Open and Pipe when they succeed, Close and Dup in any case. Pipe
-- has the two descriptors that it makes, for reading and for writing.
pub record Kernel : Type 1 where
  pub Object : Type 0
  pub Table : Type 0
  pub refers : Table → ℕ → Option Object
  pub Close : ℕ → Table → Table → Type 0
  pub Dup : ℕ → Table → Table → Type 0
  pub Open : Text → Mode → Table → Table → Type 0
  pub Pipe : ℕ → ℕ → Table → Table → Type 0
  -- the description is one of that file, opened in that mode
  pub IsFile : Object → Text → Mode → Type 0
  -- the descriptions are the ends of one pipe, for reading and for writing
  pub AreEnds : Object → Object → Type 0

module _ (K : Kernel) where
  open K use {Object, Table, refers, Close, Dup, Open, Pipe, IsFile, AreEnds}

  -- Descriptor `n` refers to `o` after a call, and every other one to what it did before.
  pub record Sets (n : ℕ) (o : Option Object) (t t' : Table) : Type 0 where
    pub here : refers t' n ≡ o
    pub there : (m : ℕ) → m ≢ n → refers t' m ≡ refers t m

  -- The lowest descriptor that is not open.
  pub record IsLowest (n : ℕ) (t : Table) : Type 0 where
    pub free : refers t n ≡ none
    pub used : (m : ℕ) → m < n → refers t m ≢ none

  pub record IsPiped (p0 p1 : ℕ) (t t' : Table) : Type 0 where
    pub free0 : refers t p0 ≡ none
    pub free1 : refers t p1 ≡ none
    pub in_end : Object
    pub out_end : Object
    pub ends : AreEnds in_end out_end
    pub here0 : refers t' p0 ≡ some in_end
    pub here1 : refers t' p1 ≡ some out_end
    pub there : (m : ℕ) → m ≢ p0 → m ≢ p1 → refers t' m ≡ refers t m

  -- What POSIX says of the calls: a new descriptor is the lowest that is free. dup of an open
  -- descriptor fails only where none is free, so not where descriptor 0 or 1 is.
  pub record IsLawful : Type 0 where
    pub close-Sets : {n : ℕ} {t t' : Table} → Close n t t' → Sets n none t t'
    pub dup-Sets :
        {m n : ℕ} {t t' : Table} {o : Object}
        → Dup m t t'
        → refers t m ≡ some o
        → IsLowest n t
        → n < 2
        → Sets n (some o) t t'
    pub open-Sets :
        {n : ℕ} {t t' : Table} {file : Text} {mode : Mode}
        → Open file mode t t'
        → IsLowest n t
        → (o : Object) × IsFile o file mode × Sets n (some o) t t'
    pub pipe-IsPiped : {p0 p1 : ℕ} {t t' : Table} → Pipe p0 p1 t t' → IsPiped p0 p1 t t'
