-- ===== src/Older/Session/Agrees.antt =====
-- The loops of CS551P1/main.c and CS551P1/CS551P1/main.c on the same input.
use mathlib.Core.List.{map-append}
use cs551_assignments.Common.{
  [], All, List, Option, Text, false, length, map, refl, some, true, ◌+◌, ◌<◌, ◌∙◌, ◌∷◌, ◌≡◌, ◌≤◌,
}
use cs551_assignments.Shell.Lexer.{strchr}
use cs551_assignments.Shell.Parser.{Parse}
use cs551_assignments.Shell.Parens.{maxlen}
use cs551_assignments.Shell.Alias.{convertalias, converted}
use cs551_assignments.Shell.Run.{Script}
use cs551_assignments.Shell.Main.{on_line, Action, Child, cd, log_off, fork_child, runs}
use cs551_assignments.Shell.Main.{child as new_child}
use cs551_assignments.Shell.Session.{Host, Log, main_loop, over}
use cs551_assignments.Shell.Session.Lines.{IsLine}
use cs551_assignments.Shell.Session.Transcript.{
  IsRequest, StaysOn, directory_behind, main_loop-transcript, scripts_in, scripts_of, transcript,
}
use cs551_assignments.Older.Main.{child}
use cs551_assignments.Older.Run.{run_line}
use cs551_assignments.Older.Words.{translate_parse}
use cs551_assignments.Older.Translate.{translate}
use cs551_assignments.Older.Calls.{rename}
use cs551_assignments.Older.Session.{children_agree, older_loop}

-- A line without parentheses that convertalias makes one without the signs ( | ;.
pub record IsSimple (getenv : Text → Option Text) (buf : Text) : Type 0 where
  pub out : Text
  pub no_open : strchr buf b'(' ≡ false
  pub no_close : strchr buf b')' ≡ false
  pub short : length buf ≤ maxlen
  pub converts : convertalias getenv buf ≡ converted out
  pub out_open : strchr out b'(' ≡ false
  pub out_short : length out < maxlen
  pub out_bar : strchr out b'|' ≡ false
  pub out_list : strchr out b';' ≡ false

-- What the newer shell runs for what the older one runs.
abbrev pub translated {ℓ} : {Dir : Type ℓ} → Dir × Parse Script → Dir × Parse Script
translated (d, s) = (d, translate_parse (rename translate) s)

module _ (getenv : Text → Option Text) where
  abbrev Both : Action → Type 0
  Both (cd dir) = Unit {0}
  Both log_off = ⊥
  Both (fork_child buf) = IsSimple getenv buf

  -- A line that changes the directory, or such a one.
  abbrev pub IsCommon : Text → Type 0
  IsCommon l = IsLine l × Both (on_line l)

  module _ (buf : Text) (s : IsSimple getenv buf) where
    agreed :
        (child getenv buf ≡ runs (run_line s.out))
        × (new_child getenv buf ≡ runs (translate_parse (rename translate) (run_line s.out)))
    agreed =
        children_agree getenv buf s.out s.no_open s.no_close s.short s.converts s.out_open
          s.out_short s.out_bar s.out_list

  module _ {ℓ} {Dir : Type ℓ} (h : Host Dir) where
    old-StaysOn : (a : Action) → Both a → StaysOn (child getenv) h a
    old-StaysOn (cd dir) b = tt
    old-StaysOn log_off b = b
    old-StaysOn (fork_child buf) b = rw ((agreed buf b).0) tt

    new-StaysOn : (a : Action) → Both a → StaysOn (new_child getenv) h a
    new-StaysOn (cd dir) b = tt
    new-StaysOn log_off b = b
    new-StaysOn (fork_child buf) b = rw ((agreed buf b).1) tt

    scripts-agree :
        (a : Action) (d : Dir)
        → Both a
        → scripts_in (new_child getenv) h a d ≡ map translated (scripts_in (child getenv) h a d)
    unfolding scripts_of
    scripts-agree (cd dir) d b = refl
    scripts-agree log_off d b = refl
    scripts-agree (fork_child buf) d b = rw ((agreed buf b).0, (agreed buf b).1) refl

    transcript-agree :
        (d : Dir) (ls : List Text)
        → All IsCommon ls
        → transcript (new_child getenv) h d ls ≡ map translated (transcript (child getenv) h d ls)
    unfolding transcript
    transcript-agree d [] c = refl
    transcript-agree d (l ∷ ls) ((i, b), c) =
        let d' = directory_behind (child getenv) h (on_line l) d in
        rw (map-append, scripts-agree (on_line l) d b, transcript-agree d' ls c) refl

    All-requests :
        (child_of : Text → Child) (ls : List Text)
        → ((a : Action) → Both a → StaysOn child_of h a)
        → All IsCommon ls
        → All (IsRequest child_of h) ls
    All-requests child_of [] stays c = tt
    All-requests child_of (l ∷ ls) stays ((i, b), c) =
        ((i, stays (on_line l) b), All-requests child_of ls stays c)

    -- Where fork succeeds and the scripts leave the terminal alone, both shells read to their end
    -- lines that change the directory or are simple: without parentheses, and without the signs (
    -- | ; behind convertalias. They run the same scripts, translated for the newer one, in the
    -- same order and in the same directories.
    pub shells_agree :
        (d : Dir) (ls : List Text)
        → All IsCommon ls
        → h.can_fork 1 ≡ true
        → ((d' : Dir) (script : Parse Script) (t : List Text) → h.run d' script t ≡ t)
        → (log : Log Dir) × (older_loop getenv h (length ls + 2) d ls ≡ some (over [] log))
          × (main_loop (new_child getenv) h (length ls + 2) d ls
              ≡ some (over [] (map translated log)))
    unfolding older_loop
    shells_agree d ls c can quiet =
        let old =
          main_loop-transcript (child getenv) h d ls (All-requests (child getenv) ls old-StaysOn c)
            can quiet in
        let new =
          main_loop-transcript (new_child getenv) h d ls
            (All-requests (new_child getenv) ls new-StaysOn c) can quiet in
        (transcript (child getenv) h d ls, old, new ∙ rw (transcript-agree d ls c) refl)
