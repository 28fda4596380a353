-- ===== src/Client/Main.antt =====
-- main of project2/project.c. `_syscall` and `atoi` are parameters; each call returns a status and
-- the new state of the servers. What it prints of a status is the name in `return_codes`.
use Prim.Native.String.{String}
use cs551_assignments.Common.{
  ◌&&◌, Bool, List, Option, Run, Text, [], false, fault, get_elem?, if◌then◌else◌, in_range, leb,
  length, ltb, map, negsuc, none, not, ok, pos, some, suc, take, true, zero, ℕ, ℤ, ◌++◌, ◌-◌, ◌==◌,
  ◌>>=◌, ◌^◌, ◌∷◌,
}
use cs551_assignments.Pm.Table.{return_codes}

-- The stubs of project2.h that the client calls. sys_mreceive also gives the text that the buffer
-- `msg1` then holds.
pub record Calls (S : Type 0) : Type 0 where
  pub sys_gopen : Text → S → Run (ℤ × S)
  pub sys_gclose : Text → S → Run (ℤ × S)
  pub sys_grecover : Text → S → Run (ℤ × S)
  pub sys_gsender : ℕ → Text → S → Run (ℤ × S)
  pub sys_greceiver : ℕ → Text → S → Run (ℤ × S)
  pub sys_msend : Text → Text → S → Run (ℤ × S)
  pub sys_mreceive : Text → ℕ → S → Run (ℤ × Text × S)

pub data Event : Type 0 where
  status : String → Event
  received : Text → Event

-- How a run ends: it returns, is still waiting for messages, or leaves its arrays.
pub data Session (S : Type 0) : Type 0 where
  returned : List Event → S → Session S
  waiting : List Event → S → Session S
  broken : Session S

-- `return_codes[status]`
unfoldable pub code_of : ℤ → Run String
code_of (pos n) = in_range (get_elem? return_codes n)
code_of (negsuc n) = fault

-- Events printed before what follows.
unfoldable pub printed : {S : Type 0} → List Event → Session S → Session S
printed es (returned fs s) = returned (es ++ fs) s
printed es (waiting fs s) = waiting (es ++ fs) s
printed es broken = broken

abbrev pub session : {S A : Type 0} → Run A → (A → Session S) → Session S
session (ok a) k = k a
session fault k = broken

abbrev pub is_zero : ℤ → Bool
is_zero (pos n) = n == 0
is_zero (negsuc n) = false

-- `3==status`, GROUP_NOT_FOUND.
abbrev pub is_not_found : ℤ → Bool
is_not_found (pos n) = n == 3
is_not_found (negsuc n) = false

-- strtok with the comma: the non-empty pieces between commas.
unfoldable pub add_to_first : ℕ → List Text → Bool → List Text
add_to_first c [] glued = (c ∷ []) ∷ []
add_to_first c (t ∷ ts) true = (c ∷ t) ∷ ts
add_to_first c (t ∷ ts) false = (c ∷ []) ∷ t ∷ ts

-- The text begins with a character other than a comma.
abbrev pub begins_word : Text → Bool
begins_word [] = false
begins_word (c ∷ s) = not (c == b',')

unfoldable pub tokens : Text → List Text
tokens [] = []
tokens (c ∷ s) = let ts = tokens s in if c == b',' then ts else add_to_first c ts (begins_word s)

-- What the array of the names holds as a string after the first strtok: its commas in front, if
-- any, and the first name.
unfoldable pub up_to_first : Bool → Text → Text
up_to_first seen [] = []
up_to_first seen (c ∷ s) =
    let rest = up_to_first (not (c == b',')) s in if (c == b',') && seen then [] else c ∷ rest

-- What main has read of its arguments: the choice, the name, the process id, and the message if
-- there is one, cut to MAX_MESG_LEN bytes.
pub record Job : Type 0 where
  pub choice : ℕ
  pub grpnam : Text
  pub procid : ℕ
  pub msg1 : Option Text

module _ {S : Type 0} (k : Calls S) where
  -- A call whose status is printed.
  unfoldable pub report : Run (ℤ × S) → Session S
  report r = session r λ (st, s). session (code_of st) λ name. returned (status name ∷ []) s

  -- The loop over names: it ends at GROUP_NOT_FOUND.
  unfoldable pub for_names : (Text → S → Run (ℤ × S)) → List Text → S → Session S
  for_names call [] s = returned [] s
  for_names call (t ∷ ts) s =
      let rest = for_names call ts in
      session (call t s) (λ (st, s'). session (code_of st) (λ name.
        if is_not_found st
        then returned (status name ∷ []) s'
        else printed (status name ∷ []) (rest s')))

  module _ (name : Text) (id : ℕ) where
    -- One call of the loop below: its text before those of the rest, or the end.
    abbrev pub gather :
        ℤ → Text → S → Run (Option (List Text × ℤ × S)) → Run (Option (List Text × ℤ × S))
    gather st text s fault = if is_zero st then fault else ok (some ([], st, s))
    gather st text s (ok none) = if is_zero st then ok none else ok (some ([], st, s))
    gather st text s (ok (some (ts, st', s'))) =
        if is_zero st then ok (some (text ∷ ts, st', s')) else ok (some ([], st, s))

    -- `while(!status) { status = sys_mreceive(...); if(status == 0) print; }`, with the texts that
    -- it prints. It ends with the first status that is not 0.
    unfoldable pub drain : ℕ → S → Run (Option (List Text × ℤ × S))
    drain zero s = ok none
    drain (suc f) s = k.sys_mreceive name id s >>= λ (st, text, s'). gather st text s' (drain f s')

    -- What a drain prints, and what follows it.
    abbrev pub after_drain : Run (Option (List Text × ℤ × S)) → (S → Session S) → S → Session S
    after_drain fault next s = broken
    after_drain (ok none) next s = waiting [] s
    after_drain (ok (some (ts, st, s'))) next s = printed (map received ts) (next s')

    -- After one call within that loop: a message and a drain, the end, or nothing yet.
    abbrev received_or :
        (S → Session S) → Run (Option (List Text × ℤ × S)) → ℤ → Text → S → Session S
    received_or again rest st text s =
        if is_zero st
        then printed (received text ∷ []) (after_drain rest again s)
        else if is_not_found st
        then returned [] s
        else again s

    -- The loop `while(status)`: it goes on after each drain, and ends at GROUP_NOT_FOUND only.
    unfoldable pub poll : ℕ → S → Session S
    poll zero s = waiting [] s
    poll (suc f) s =
        let again = poll f in
        session (k.sys_mreceive name id s) (λ (st, text, s').
          session (code_of st)
            (λ code. printed (status code ∷ []) (received_or again (drain f s') st text s')))

    -- The branch of mreceive.
    unfoldable pub receive_all : ℕ → S → Session S
    receive_all f s = session (k.sys_mreceive name id s) (λ (st, text, s').
        session (code_of st) (λ code. printed (status code ∷ []) (
          if is_zero st
          then printed (received text ∷ []) (after_drain (drain f s') (λ s''. returned [] s'') s')
          else poll f s')))

  -- A message that was not given is an array never written.
  abbrev pub send : Text → Option Text → S → Session S
  send name none s = broken
  send name (some mesg) s = report (k.sys_msend name mesg s)

  -- The branches on `choice`, with `f` units of fuel for the loops of the last but one.
  unfoldable pub run : ℕ → Job → S → Session S
  run f j s =
      if j.choice == 1
      then report (k.sys_gopen j.grpnam s)
      else if j.choice == 2
      then report (k.sys_gclose j.grpnam s)
      else if j.choice == 3
      then for_names (k.sys_gsender j.procid) (tokens j.grpnam) s
      else if j.choice == 4
      then for_names (λ _. k.sys_greceiver j.procid (up_to_first false j.grpnam)) (tokens j.grpnam)
          s
      else if j.choice == 5
      then send j.grpnam j.msg1 s
      else if j.choice == 6
      then receive_all j.grpnam j.procid f s
      else if j.choice == 7
      then report (k.sys_grecover j.grpnam s)
      else returned [] s

-- `int` as the bits that the calls carry.
abbrev pub bits : ℤ → ℕ
bits (pos n) = n
bits (negsuc n) = 2 ^ 32 - 1 - n

-- The reading of the arguments, `argv[1]` first. `scanned` is the choice that scanf reads where the
-- first argument is none. A name that fills its array has no NUL.
module _ (atoi : Text → ℤ) (scanned : ℕ) where
  abbrev pub choice_of : ℤ → ℕ
  choice_of (pos n) = if leb n 7 then n else scanned
  choice_of (negsuc n) = scanned

  abbrev pub procid_of : List Text → ℕ
  procid_of [] = 1
  procid_of (a ∷ rest) = bits (atoi a)

  abbrev pub msg1_of : List Text → Option Text
  msg1_of (a ∷ b ∷ rest) = some (take 100 b)
  msg1_of _ = none

  -- `none` is the usage message, and a fault a name of 100 bytes or more.
  abbrev is_positive : ℤ → Bool
  is_positive (pos n) = ltb 0 n
  is_positive (negsuc n) = false

  unfoldable pub arguments : List Text → Run (Option Job)
  arguments (a ∷ n ∷ rest) =
      if is_positive (atoi a)
      then (if ltb (length n) 100
          then ok (
              some (record {
                choice = choice_of (atoi a);
                grpnam = n;
                procid = procid_of rest;
                msg1 = msg1_of rest;
              }))
          else fault)
      else ok none
  arguments _ = ok none
