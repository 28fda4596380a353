-- ===== src/Shell/Run/Descriptors.antt =====
-- What the sequences of calls in runcmd of CS551P1/CS551P1/main.c do to a descriptor table.
use native.Mathlib.Decide.{ℕ_discrete}
use cs551_assignments.Common.{Option, Text, arith, none, some, sym, ℕ, ◌<◌, ◌∙◌, ◌≡◌, ◌≢◌, ◌≤◌}
use cs551_assignments.Shell.Calls.{IsLawful, IsLowest, IsPiped, Kernel, Sets}
use cs551_assignments.Shell.Parser.{Mode}
use cs551_assignments.Shell.Run.Wiring.{IsWired}

module _ (K : Kernel) (lawful : IsLawful K) where
  open K use {Object, Table, refers, Close, Dup, Open}

  -- `close(n)` makes `n` the lowest free descriptor, if none was free below it.
  close-IsLowest :
      {n : ℕ} {t t' : Table}
      → Sets K n none t t'
      → ((m : ℕ) → m < n → refers t m ≢ none)
      → IsLowest K n t'
  close-IsLowest s h = record {
    free = s.here;
    used = λ m l e. h m l (sym (s.there m (λ q. absurd (omega (arith, l, q)))) ∙ e);
  }

  -- A call that takes the descriptor that was closed just before.
  Sets-twice :
      {n : ℕ} {t t' t'' : Table} {o : Option Object}
      → Sets K n none t t'
      → Sets K n o t' t''
      → Sets K n o t t''
  Sets-twice s s' = record { here = s'.here; there = λ m q. s'.there m q ∙ s.there m q }

  pub redirect-Sets :
      {n : ℕ} {t t' t'' : Table} {file : Text} {mode : Mode}
      → ((m : ℕ) → m < n → refers t m ≢ none)
      → Close n t t'
      → Open file mode t' t''
      → (o : Object) × K.IsFile o file mode × Sets K n (some o) t t''
  redirect-Sets h c p =
      let s = lawful.close-Sets c in
      let (o, f, s') = lawful.open-Sets p (close-IsLowest s h) in (o, f, Sets-twice s s')

  -- A child of a pipe: an end of the pipe takes the place of descriptor `n`, and nothing else is
  -- changed.
  pub plumb-Sets :
      {n m p0 p1 : ℕ} {t t1 t2 t3 t4 t5 : Table} {x : Object}
      → n < 2
      → 2 ≤ p0
      → 2 ≤ p1
      → IsPiped K p0 p1 t t1
      → ((k : ℕ) → k < n → refers t1 k ≢ none)
      → m ≢ n
      → refers t1 m ≡ some x
      → Close n t1 t2
      → Dup m t2 t3
      → Close p0 t3 t4
      → Close p1 t4 t5
      → Sets K n (some x) t t5
  plumb-Sets {n} {m} {p0} {p1} {t} {t1} {t2} {t3} {t4} {t5} {x} l l0 l1 pi h ne e c d c0 c1 =
      let s2 = lawful.close-Sets c in
      let s3 : Sets K n (some x) t1 t3 =
        Sets-twice s2 (lawful.dup-Sets d (s2.there m ne ∙ e) (close-IsLowest s2 h) l) in
      let s4 = lawful.close-Sets c0 in
      let s5 = lawful.close-Sets c1 in
      record {
        here =
            s5.there n (λ q. absurd (omega (arith, q, l, l1)))
            ∙ s4.there n (λ q. absurd (omega (arith, q, l, l0)))
            ∙ s3.here;
        there = λ k q. elim (ℕ_discrete k p1) [
          | yes is1 ↦ rw is1 (s5.here ∙ sym pi.free1)
          | no not1 ↦ elim (ℕ_discrete k p0) [
            | yes is0 ↦ s5.there k not1 ∙ rw is0 (s4.here ∙ sym pi.free0)
            | no not0 ↦ s5.there k not1 ∙ s4.there k not0 ∙ s3.there k q ∙ pi.there k not0 not1
          ]
        ];
      }

  pub Sets-IsWired0 :
      {base t t' : Table} {i o x : Object}
      → IsWired K base i o t
      → Sets K 0 (some x) t t'
      → IsWired K base x o t'
  Sets-IsWired0 w s = record {
    input = s.here;
    output = s.there 1 (omega arith) ∙ w.output;
    others = λ n l. s.there n (λ q. absurd (omega (arith, l, q))) ∙ w.others n l;
  }

  pub Sets-IsWired1 :
      {base t t' : Table} {i o x : Object}
      → IsWired K base i o t
      → Sets K 1 (some x) t t'
      → IsWired K base i x t'
  Sets-IsWired1 w s = record {
    input = s.there 0 (omega arith) ∙ w.input;
    output = s.here;
    others = λ n l. s.there n (λ q. absurd (omega (arith, l, q))) ∙ w.others n l;
  }
