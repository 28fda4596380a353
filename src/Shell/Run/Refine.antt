-- ===== src/Shell/Run/Refine.antt =====
-- runcmd of CS551P1/CS551P1/main.c keeps its promise.
use cs551_assignments.Common.{
  append-nil, List, Text, [], arith, inl, inr, none, refl, some, suc, zero, ℕ, ◌++◌, ◌<◌, ◌∷◌, ◌≡◌,
  ◌≢◌, ◌≤◌, ◌⊎◌,
}
use cs551_assignments.Shell.Calls.{IsLawful, IsPiped, Kernel}
use cs551_assignments.Shell.Parser.{
  parsecmd, parsed, Cmd, Mode, backcmd, execcmd, listcmd, o_rdonly, o_wronly_creat_trunc, pipecmd,
  redir,
}
use cs551_assignments.Shell.Run.Wiring.{IsWired, Match, Match-append, Plan, Plan-nil, Program}
use cs551_assignments.Shell.Parser.Shape.{parsecmd-IsWellFormed}
use cs551_assignments.Shell.Parser.WellFormed.{IsOpening, IsRedir, IsWellFormed}
use cs551_assignments.Shell.Run.{Launch, Runs, close, exit, plumb, redirect, runcmd, wait}
use cs551_assignments.Shell.Run.Descriptors.{
  Sets-IsWired0, Sets-IsWired1, plumb-Sets, redirect-Sets,
}

module _ (K : Kernel) (lawful : IsLawful K) where
  open K use {Object, Table, refers, Close, Dup, Open}

  -- What a list of programs that a part of a command starts is matched by.
  abbrev pub Planned : Table → Cmd → Object → Object → List (Launch K) → Type 0
  Planned base c i o ls = (ps : List (Program K)) × Plan K c i o ps × Match K base ls ps

  none_started : (base : Table) (c : Cmd) (i o : Object) → Planned base c i o []
  none_started base c i o = ([], Plan-nil K c i o, tt)

  -- A child that fork may not have made.
  child-Planned :
      (base : Table) (c : Cmd) (i o : Object) {ls : List (Launch K)} {R : Type 0}
      → (ls ≡ []) ⊎ R
      → (R → Planned base c i o ls)
      → Planned base c i o ls
  child-Planned base c i o (inl e) h = rw e (none_started base c i o)
  child-Planned base c i o (inr r) h = h r

  ends_ge_two :
      {base t t1 : Table} {i o : Object} {p0 p1 : ℕ}
      → IsWired K base i o t
      → IsPiped K p0 p1 t t1
      → (2 ≤ p0) × (2 ≤ p1)
  ends_ge_two {base} {t} {t1} {i} {o} {p0} {p1} w pi =
      (free_ge_two p0 pi.free0, free_ge_two p1 pi.free1)
    where
      free_ge_two : (p : ℕ) → refers t p ≡ none → 2 ≤ p
      free_ge_two zero e = cc (e, w.input)
      free_ge_two (suc zero) e = cc (e, w.output)
      free_ge_two (suc (suc p)) e = omega arith

  abbrev Refines : Cmd → Type 0
  Refines c =
      (base t : Table) (i o : Object) (ls : List (Launch K))
      → IsWired K base i o t
      → Runs K (runcmd c) t ls
      → Planned base c i o ls

  input-Refines :
      (c : Cmd) (file : Text)
      → Refines c
      → (base t : Table) (i o : Object) (ls : List (Launch K)) → IsWired K base i o t
      → Runs K (redirect 0 file o_rdonly (runcmd c)) t ls
      → Planned base (redir c file b'<' o_rdonly 0) i o ls
  input-Refines c file h base t i o ls w (t1, cl, inr e) =
      rw e (none_started base (redir c file b'<' o_rdonly 0) i o)
  input-Refines c file h base t i o ls w (t1, cl, inl (t2, op, run)) =
      let (x, f, s) = redirect-Sets K lawful (λ m l. absurd (omega (arith, l))) cl op in
      let (ps, p, m) = h base t2 x o ls (Sets-IsWired0 K lawful w s) run in
      (ps, inl (x, inl (refl, f, p)), m)

  output-Refines :
      (c : Cmd) (file : Text)
      → Refines c
      → (base t : Table) (i o : Object) (ls : List (Launch K)) → IsWired K base i o t
      → Runs K (redirect 1 file o_wronly_creat_trunc (runcmd c)) t ls
      → Planned base (redir c file b'>' o_wronly_creat_trunc 1) i o ls
  output-Refines c file h base t i o ls w (t1, cl, inr e) =
      rw e (none_started base (redir c file b'>' o_wronly_creat_trunc 1) i o)
  output-Refines c file h base t i o ls w (t1, cl, inl (t2, op, run)) =
      let (x, f, s) = redirect-Sets K lawful (λ m l e. in_use m l e) cl op in
      let (ps, p, m) = h base t2 i x ls (Sets-IsWired1 K lawful w s) run in
      (ps, inl (x, inr (refl, f, p)), m)
    where
      in_use : (m : ℕ) → m < 1 → refers t m ≢ none
      in_use zero l e = cc (e, w.input)
      in_use (suc m) l e = absurd (omega (arith, l))

  redir-Refines :
      (c : Cmd) (file : Text) (s : ℕ) (mode : Mode) (fd : ℕ)
      → IsRedir file s
      → IsOpening s mode fd
      → Refines c
      → Refines (redir c file s mode fd)
  unfolding runcmd
  redir-Refines c file s mode fd r p h base t i o ls w run = elim r.sign [
    | inl lt ↦
        let (e, e') = p.input lt in
        rw lt (input-Refines c file h base t i o ls w (rw (lt, e, e') at run))
    | inr gt ↦
        let (e, e') = p.output gt in
        rw gt (output-Refines c file h base t i o ls w (rw (gt, e, e') at run))
  ]

  left-Planned :
      (c : Cmd) (base t t1 : Table) (i o : Object) (p0 p1 : ℕ) (ls : List (Launch K))
      → Refines c
      → IsWired K base i o t
      → (pi : IsPiped K p0 p1 t t1) → Runs K (plumb 1 p1 p0 p1 (runcmd c)) t1 ls
      → Planned base c i pi.out_end ls
  left-Planned c base t t1 i o p0 p1 ls h w pi (t2, cl, (t3, d, (t4, c0, (t5, c1, run)))) =
      let (l0, l1) = ends_ge_two w pi in
      h base t5 i pi.out_end ls
        (Sets-IsWired1 K lawful w (
          plumb-Sets K lawful (omega arith) l0 l1 pi in_use (λ q. absurd (omega (arith, q, l1)))
            pi.here1 cl d c0 c1))
        run
    where
      in_use : (m : ℕ) → m < 1 → refers t1 m ≢ none
      in_use zero l e =
          let (l0, l1) = ends_ge_two w pi in
          let e' =
            pi.there 0 (λ q. absurd (omega (arith, q, l0))) (λ q. absurd (omega (arith, q, l1))) in
          cc (e, e', w.input)
      in_use (suc m) l e = absurd (omega (arith, l))

  right-Planned :
      (c : Cmd) (base t t1 : Table) (i o : Object) (p0 p1 : ℕ) (ls : List (Launch K))
      → Refines c
      → IsWired K base i o t
      → (pi : IsPiped K p0 p1 t t1) → Runs K (plumb 0 p0 p0 p1 (runcmd c)) t1 ls
      → Planned base c pi.in_end o ls
  right-Planned c base t t1 i o p0 p1 ls h w pi (t2, cl, (t3, d, (t4, c0, (t5, c1, run)))) =
      let (l0, l1) = ends_ge_two w pi in
      h base t5 pi.in_end o ls
        (Sets-IsWired0 K lawful w (
          plumb-Sets K lawful (omega arith) l0 l1 pi (λ m l. absurd (omega (arith, l)))
            (λ q. absurd (omega (arith, q, l0))) pi.here0 cl d c0 c1))
        run

  -- The parent of a pipe starts nothing more itself.
  parent_starts_none :
      (p0 p1 : ℕ) (t : Table) (ls : List (Launch K))
      → Runs K (close p0 (close p1 (wait (wait (exit 0))))) t ls
      → ls ≡ []
  parent_starts_none p0 p1 t ls (t1, c0, (t2, c1, e)) = e

  pipecmd-Refines : (l r : Cmd) → Refines l → Refines r → Refines (pipecmd l r)
  unfolding runcmd
  pipecmd-Refines l r hl hr base t i o ls w (inr e) = rw e (none_started base (pipecmd l r) i o)
  pipecmd-Refines l r hl hr base t i o ls w
        (inl (p0, p1, t1, p, (xs, zs, e, left, (ys, us, e', right, rest)))) =
      let pi = lawful.pipe-IsPiped p in
      let (ps, pl, ml) =
        child-Planned base l i pi.out_end left (left-Planned l base t t1 i o p0 p1 xs hl w pi) in
      let (qs, pr, mr) =
        child-Planned base r pi.in_end o right (right-Planned r base t t1 i o p0 p1 ys hr w pi) in
      (
        ps ++ qs,
        inl (pi.in_end, pi.out_end, pi.ends, (ps, qs, refl, pl, pr)),
        rw (e, e', parent_starts_none p0 p1 t1 us rest, append-nil)
            (Match-append K base xs ys ps qs ml mr),
      )

  listcmd-Refines : (l r : Cmd) → Refines l → Refines r → Refines (listcmd l r)
  unfolding runcmd
  listcmd-Refines l r hl hr base t i o ls w (xs, ys, e, left, run) =
      let (ps, pl, ml) = child-Planned base l i o left (hl base t i o xs w) in
      let (qs, pr, mr) = hr base t i o ys w run in
      (ps ++ qs, (ps, qs, refl, pl, pr), rw e (Match-append K base xs ys ps qs ml mr))

  backcmd-Refines : (c : Cmd) → Refines c → Refines (backcmd c)
  unfolding runcmd
  backcmd-Refines c h base t i o ls w (xs, ys, e, child, e') =
      let (ps, p, m) = child-Planned base c i o child (h base t i o xs w) in
      (ps, p, rw (e, e', append-nil) m)

  execcmd-Refines : (argv : List Text) → Refines (execcmd argv)
  unfolding runcmd
  execcmd-Refines [] base t i o ls w e = rw e (none_started base (execcmd []) i o)
  execcmd-Refines (v ∷ vs) base t i o ls w (inr e) = rw e (none_started base (execcmd (v ∷ vs)) i o)
  execcmd-Refines (v ∷ vs) base t i o ls w (inl e) =
      (record { argv = v ∷ vs; input = i; output = o } ∷ [], inl refl, rw e (refl, w, tt))

  runcmd-Refines : (c : Cmd) → IsWellFormed c → Refines c
  runcmd-Refines (execcmd argv) h = execcmd-Refines argv
  runcmd-Refines (redir c file s mode fd) (h, r, p) =
      redir-Refines c file s mode fd r p (runcmd-Refines c h)
  runcmd-Refines (pipecmd l r) (hl, hr) =
      pipecmd-Refines l r (runcmd-Refines l hl) (runcmd-Refines r hr)
  runcmd-Refines (listcmd l r) (hl, hr) =
      listcmd-Refines l r (runcmd-Refines l hl) (runcmd-Refines r hr)
  runcmd-Refines (backcmd c) h = backcmd-Refines c (runcmd-Refines c h)

  -- Let `c` be the command that parsecmd reads on a line, and let a process with descriptors 0 and
  -- 1 open run it. The programs that it and its children start are a part of the planned ones, from
  -- left to right. Each has as descriptors 0 and 1 the input and output that the plan gives it,
  -- and as its other descriptors those that the process had before.
  pub runcmd-Planned :
      (s rest : Text) (c : Cmd) (t : Table) (i o : Object) (ls : List (Launch K))
      → parsecmd s ≡ parsed c rest
      → refers t 0 ≡ some i
      → refers t 1 ≡ some o
      → Runs K (runcmd c) t ls
      → Planned t c i o ls
  runcmd-Planned s rest c t i o ls e input output run =
      runcmd-Refines c (parsecmd-IsWellFormed s rest c e).0 t t i o ls
        (record { input = input; output = output; others = λ n l. refl }) run
