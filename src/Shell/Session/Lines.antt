-- ===== src/Shell/Session/Lines.antt =====
-- One line in the loop of main of CS551P1/CS551P1/main.c, from the terminal to what it does.
use cs551_assignments.Shell.Main.{on_line, Child}
use cs551_assignments.Common.{
  All, List, Text, [], ap, arith, false, length, length-append, refl, suc, sym, zero, ℕ, ◌++◌, ◌<◌,
  ◌∙◌, ◌∷◌, ◌≡◌, ◌≢◌, ◌≤◌,
}
use cs551_assignments.Shell.Profile.{newline, terminated}
use cs551_assignments.Shell.Session.{
  Got, Host, Log, Process, Session, getcmd, gets, goes_to, got, on_action, on_got, session, stream,
  turn,
}
use cs551_assignments.Shell.Parens.{maxlen}

abbrev pub IsPlain : Text → Type 0
IsPlain = All (λ c. (c ≢ newline) × (c ≢ 0))

-- A line that one call of fgets reads.
pub record IsLine (l : Text) : Type 0 where
  pub body : Text
  pub ended : l ≡ body ++ newline ∷ []
  pub plain : IsPlain body
  pub short : length body < 255

gets-line :
    (n : ℕ) (t : Text) (tty : List Text)
    → IsPlain t
    → length t < n
    → gets n (t ++ newline ∷ []) tty ≡ got (t ++ newline ∷ []) (stream [] false) tty
unfolding gets
gets-line zero t tty h l = absurd (omega arith)
gets-line (suc n) [] tty h l = refl
gets-line (suc n) (c ∷ t) tty h l = rw (gets-line n t tty h.1 (omega arith)) (ground (arith, h.0.0))

-- The same from an empty buffer.
gets-read :
    (n : ℕ) (t : Text) (tty : List Text)
    → IsPlain t
    → length t < n
    → gets n [] ((t ++ newline ∷ []) ∷ tty) ≡ got (t ++ newline ∷ []) (stream [] false) tty
unfolding gets
gets-read zero t tty h l = absurd (omega arith)
gets-read (suc n) [] tty h l = refl
gets-read (suc n) (c ∷ t) tty h l = rw (gets-line n t tty h.1 (omega arith)) (ground (arith, h.0.0))

terminated-line :
    (t : Text) → IsPlain t → terminated ((t ++ newline ∷ []) ++ 0 ∷ []) ≡ t ++ newline ∷ []
unfolding terminated
terminated-line [] h = refl
terminated-line (c ∷ t) h = ground (arith, h.0.1, terminated-line t h.1)

getcmd-line :
    (l : Text) (tty : List Text)
    → IsLine l
    → getcmd (stream [] false) (l ∷ tty) ≡ got l (stream [] false) tty
unfolding getcmd
getcmd-line l tty h =
    rw (h.ended, gets-read 255 h.body tty h.plain h.short, terminated-line h.body h.plain) refl

line-ne : {l : Text} → IsLine l → l ≢ []
line-ne i e = go i.body (sym i.ended ∙ e)
  where
    go : (t : Text) → t ++ newline ∷ [] ≢ []
    go [] q = cc
    go (c ∷ t) q = cc

pub length-line : {l : Text} → IsLine l → length l ≤ maxlen
length-line i = omega (arith, ap length i.ended, length-append i.body (newline ∷ []))

module _ {ℓ} {Dir : Type ℓ} where
  -- A shell that has nothing in its buffer.
  abbrev pub at : Dir → Process Dir
  at d = record { cwd = d; stdin = stream [] false }

  abbrev pub sess : List (Process Dir) → List Text → Log Dir → Session Dir
  sess ps tty log = record { shells = ps; tty = tty; log = log }

module _ {ℓ} {Dir : Type ℓ} (child_of : Text → Child) (h : Host Dir) where
  on_got-line :
      (p : Process Dir) (ps : List (Process Dir)) (log : Log Dir) (g : Got)
      → g.line ≢ []
      → on_got child_of h p ps log g
        ≡ on_action child_of h (on_line g.line) (record p { stdin = g.stream }) ps g.tty log
  on_got-line p ps log g ne = go g.line refl
    where
      go :
          (l : Text)
          → g.line ≡ l
          → on_got child_of h p ps log g
            ≡ on_action child_of h (on_line g.line) (record p { stdin = g.stream }) ps g.tty log
      go [] e = absurd (ne e)
      go (c ∷ buf) e = rw e refl

  turn-line :
      (d : Dir) (ps : List (Process Dir)) (l : Text) (tty : List Text) (log : Log Dir)
      → IsLine l
      → turn child_of h (at d) ps (l ∷ tty) log ≡ on_action child_of h (on_line l) (at d) ps tty log
  unfolding turn
  turn-line d ps l tty log i =
      rw (getcmd-line l tty i) (on_got-line (at d) ps log (got l (stream [] false) tty) (line-ne i))

  pub session-turn :
      (n : ℕ) (d : Dir) (ps : List (Process Dir)) (l : Text) (tty : List Text) (log : Log Dir)
      (s : Session Dir)
      → IsLine l
      → on_action child_of h (on_line l) (at d) ps tty log ≡ goes_to s
      → session child_of h (suc n) (sess (at d ∷ ps) (l ∷ tty) log) ≡ session child_of h n s
  unfolding session
  session-turn n d ps l tty log s i e = rw (turn-line d ps l tty log i, e) refl
