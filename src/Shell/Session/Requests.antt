-- ===== src/Shell/Session/Requests.antt =====
-- What the shell of CS551P1/CS551P1/main.c serves: a list of requests, typed as lines.
use cs551_assignments.Common.{
  All, List, Option, Text, [], arith, false, if◌then◌else◌, length, length-append, length-map, map,
  none, refl, some, strncmp_eq, suc, sym, true, ◌++◌, ◌+◌, ◌-◌, ◌<◌, ◌==◌, ◌∷◌, ◌≡◌,
}
use cs551_assignments.Shell.Lexer.{strchr}
use cs551_assignments.Shell.Parens.{maxlen}
use cs551_assignments.Shell.Parser.{Parse}
use cs551_assignments.Shell.Sequence.Parts.{take-append_self}
use cs551_assignments.Shell.Profile.{newline, strstr}
use cs551_assignments.Shell.Alias.{convertalias, converted}
use cs551_assignments.Shell.Run.{Script, run_line}
use cs551_assignments.Shell.Main.{on_line, cd, child, fork_child, runs}
use cs551_assignments.Shell.Main.Lines.{child_runs}
use cs551_assignments.Shell.Session.{Host, Log, change, main_loop, over}
use cs551_assignments.Shell.Session.Lines.{IsLine, IsPlain}
use cs551_assignments.Shell.Session.Transcript.{
  IsRequest, main_loop-transcript, scripts_of, transcript,
}

-- To change the directory; or to run a command, of which convertalias makes `out`.
pub data Request : Type 0 where
  goes_in : (dir : Text) → Request
  asks : (buf out : Text) → Request

-- What the user types.
abbrev pub typed : Request → Text
typed (goes_in dir) = b'c' ∷ b'd' ∷ b' ' ∷ (dir ++ newline ∷ [])
typed (asks buf out) = buf ++ newline ∷ []

-- A command of one line that is neither `cd` nor has `exit` in it, and has no parentheses, also
-- behind convertalias.
pub record IsCommand (getenv : Text → Option Text) (buf out : Text) : Type 0 where
  pub plain : IsPlain buf
  pub short : length buf < 255
  pub no_cd : strncmp_eq 3 (typed (asks buf out)) (b'c' ∷ b'd' ∷ b' ' ∷ []) ≡ false
  pub no_exit : strstr (typed (asks buf out)) (b'e' ∷ b'x' ∷ b'i' ∷ b't' ∷ []) ≡ false
  pub no_open : strchr (typed (asks buf out)) b'(' ≡ false
  pub no_close : strchr (typed (asks buf out)) b')' ≡ false
  pub converts : convertalias getenv (typed (asks buf out)) ≡ converted out
  pub out_open : strchr out b'(' ≡ false
  pub out_short : length out < maxlen

abbrev pub CanServe : (Text → Option Text) → Request → Type 0
CanServe getenv (goes_in dir) = IsPlain dir × (length dir < 252)
CanServe getenv (asks buf out) = IsCommand getenv buf out

-- Each command in the directory that the requests before it have led to, with a bar for every comma.
unfoldable pub serve {ℓ} : {Dir : Type ℓ} → Host Dir → Dir → List Request → Log Dir
serve h d [] = []
serve h d (goes_in dir ∷ rs) = serve h (elim (h.chdir d dir) [ none ↦ d | some d' ↦ d' ]) rs
serve h d (asks buf out ∷ rs) =
    (d, run_line (map (λ c. if c == b',' then b'|' else c) out)) ∷ serve h d rs

on_line-cd : (dir : Text) → on_line (typed (goes_in dir)) ≡ cd dir
unfolding on_line strncmp_eq
on_line-cd dir =
    let n : length (typed (goes_in dir)) - 1 ≡ suc (suc (suc (length dir))) =
      omega (arith, length-append dir (newline ∷ [])) in
    rw (n, take-append_self dir (newline ∷ [])) refl

module _ (getenv : Text → Option Text) where
  on_line-command :
      (buf out : Text)
      → IsCommand getenv buf out
      → on_line (typed (asks buf out)) ≡ fork_child (typed (asks buf out))
  unfolding on_line
  on_line-command buf out h = rw (h.no_cd, h.no_exit) refl

  child-command :
      (buf out : Text)
      → IsCommand getenv buf out
      → child getenv (typed (asks buf out))
        ≡ runs (run_line (map (λ c. if c == b',' then b'|' else c) out))
  child-command buf out h =
      child_runs getenv (typed (asks buf out)) out h.no_open h.no_close
        (omega (arith, h.short, length-append buf (newline ∷ []))) h.converts h.out_open h.out_short

  typed-IsLine : (r : Request) → CanServe getenv r → IsLine (typed r)
  typed-IsLine (goes_in dir) (p, l) = record {
    body = b'c' ∷ b'd' ∷ b' ' ∷ dir;
    ended = refl;
    plain =
        ((omega arith, omega arith), ((omega arith, omega arith), ((omega arith, omega arith), p)));
    short = omega (arith, l);
  }
  typed-IsLine (asks buf out) h = record {
    body = buf;
    ended = refl;
    plain = h.plain;
    short = h.short;
  }

  module _ {ℓ} {Dir : Type ℓ} (h : Host Dir) where
    All-requests :
        (rs : List Request)
        → All (CanServe getenv) rs
        → All (IsRequest (child getenv) h) (map typed rs)
    All-requests [] c = tt
    All-requests (goes_in dir ∷ rs) (c, cs) =
        ((typed-IsLine (goes_in dir) c, rw (on_line-cd dir) tt), All-requests rs cs)
    All-requests (asks buf out ∷ rs) (c, cs) = (
      (typed-IsLine (asks buf out) c, rw (on_line-command buf out c, child-command buf out c) tt),
      All-requests rs cs,
    )

    transcript-serve :
        (d : Dir) (rs : List Request)
        → All (CanServe getenv) rs
        → transcript (child getenv) h d (map typed rs) ≡ serve h d rs
    unfolding transcript serve scripts_of
    transcript-serve d [] c = refl
    transcript-serve d (goes_in dir ∷ rs) (c, cs) =
        rw (on_line-cd dir) (moved (h.chdir d dir) (λ d'. transcript-serve d' rs cs))
      where
        moved :
            (o : Option Dir)
            → ((d' : Dir) → transcript (child getenv) h d' (map typed rs) ≡ serve h d' rs)
            → transcript (child getenv) h (change (child getenv) h d o) (map typed rs)
              ≡ serve h (elim o [ none ↦ d | some d' ↦ d' ]) rs
        moved none rest = rest d
        moved (some d') rest = rest d'
    transcript-serve d (asks buf out ∷ rs) (c, cs) =
        rw (on_line-command buf out c, child-command buf out c, transcript-serve d rs cs) refl

    -- Where fork succeeds, and every script ends and leaves the terminal alone, a shell that is
    -- given requests as lines, and then the end of the file, runs every command in the directory
    -- that the requests before it have led to, in their order, and ends. A request changes the
    -- directory to a name of less than 252 characters; or is a command of less than 255 that does
    -- not begin with `cd ` and has no `exit` in it, without parentheses, of which convertalias
    -- makes a text of less than 256 without opening ones. Neither has a newline or a NUL.
    pub main_loop-serve :
        (d : Dir) (rs : List Request)
        → All (CanServe getenv) rs
        → h.can_fork 1 ≡ true
        → ((d' : Dir) (script : Parse Script) (t : List Text) → h.run d' script t ≡ t)
        → main_loop (child getenv) h (length rs + 2) d (map typed rs)
          ≡ some (over [] (serve h d rs))
    main_loop-serve d rs c can quiet =
        let n : length (map typed rs) ≡ length rs = length-map typed rs in
        rw (sym n, sym (transcript-serve d rs c))
          (main_loop-transcript (child getenv) h d (map typed rs) (All-requests rs c) can quiet)
