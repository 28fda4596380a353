-- ===== src/Group/History/Reach.antt =====
-- The histories in which a group is closed when it is open and recovered when it is closed.
use cs551_assignments.Common.{
  Option, Outcome, Run, Text, ap, false, ok, pos, refl, some, subst, sym, true, ℕ, ◌∙◌, ◌≡◌,
}
use cs551_assignments.Group.Defs.{Code, Groups, groups_init}
use cs551_assignments.Group.Admin.{closegroup, opengroup, recovergroup}
use cs551_assignments.Group.Members.{add_receiver_to_group, add_sender_to_group}
use cs551_assignments.Group.Messages.{receivemsg, sendmsg}
use cs551_assignments.Group.Counting.{
  FindsFlag, IsCounted, IsCounted-IsInside, closegroup-IsCounted, count_open, opengroup-IsCounted,
  recovergroup-IsCounted,
}
use cs551_assignments.Group.Invariant.Table.{IsValid, groups_init-IsValid}
use cs551_assignments.Group.Invariant.Admins.{closegroup-Keeps, opengroup-Keeps, recovergroup-Keeps}
use cs551_assignments.Group.Invariant.Joins.{add_receiver-Keeps, add_sender-Keeps}
use cs551_assignments.Group.Invariant.Traffic.Receive.{receivemsg-Keeps}
use cs551_assignments.Group.Invariant.Traffic.Send.{sendmsg-Keeps}
use cs551_assignments.Group.History.Flags.{
  SameFlags, add_receiver-Leaves, add_sender-Leaves, receivemsg-Leaves, sendmsg-Leaves,
}

-- One call, from the table `s` to the table `t`.
pub data Step (s : Groups) (t : Groups) : Type 0 where
  opens : (name : Option Text) (c : Code) → opengroup name s ≡ ok (c, t) → Step s t
  closes :
      (name : Text) (c : Code)
      → FindsFlag true name s
      → closegroup (some name) s ≡ ok (c, t)
      → Step s t
  recovers :
      (name : Text) (c : Code)
      → FindsFlag false name s
      → recovergroup (some name) s ≡ ok (c, t)
      → Step s t
  adds_sender :
      (name : Text) (id : ℕ) (c : Code)
      → add_sender_to_group (some name) id s ≡ ok (c, t)
      → Step s t
  adds_receiver :
      (name : Text) (id : ℕ) (c : Code)
      → add_receiver_to_group (some name) id s ≡ ok (c, t)
      → Step s t
  sends : (name mesg : Text) (c : Code) → sendmsg (some name) mesg s ≡ ok (c, t) → Step s t
  receives :
      (name : Text) (id : ℕ) (c : Code) (text : Option Text)
      → receivemsg (some name) id s ≡ ok (c, text, t)
      → Step s t

pub data Reach : Groups → Type 0 where
  start : Reach groups_init
  next : {s t : Groups} → Reach s → Step s t → Reach t

abbrev pub IsSound : Groups → Type 0
IsSound s = IsValid s × IsCounted s

-- What an outcome says of a run that returned.
returned :
    {A : Type 0} (P : A → Type 0) (Q : Type 0) (r : Run A) {a : A} → Outcome P Q r → r ≡ ok a → P a
returned P Q r h e = subst (Outcome P Q) e h

SameFlags-IsCounted : (s t : Groups) → IsCounted s → SameFlags s t → IsCounted t
SameFlags-IsCounted s t k f = f.0 ∙ k ∙ ap pos (sym f.1)

pub Step-IsSound : {s t : Groups} → Step s t → IsSound s → IsSound t
Step-IsSound {s} {t} (opens name c e) (v, k) = (
  returned (λ (c, t). IsValid t) ⊥ _ (opengroup-Keeps name s v) e,
  opengroup-IsCounted name s c t k e,
)
Step-IsSound {s} {t} (closes name c f e) (v, k) = (
  returned (λ (c, t). IsValid t) ⊥ _ (closegroup-Keeps (some name) s v) e,
  closegroup-IsCounted name s c t k f e,
)
Step-IsSound {s} {t} (recovers name c f e) (v, k) = (
  returned (λ (c, t). IsValid t) ⊥ _ (recovergroup-Keeps (some name) s v) e,
  recovergroup-IsCounted name s c t k f e,
)
Step-IsSound {s} {t} (adds_sender name id c e) (v, k) = (
  returned (λ (c, t). IsValid t) _ _ (add_sender-Keeps name id s v (IsCounted-IsInside s v k)) e,
  SameFlags-IsCounted s t k
      (returned (λ (c, t). SameFlags s t) _ _ (add_sender-Leaves name id s) e),
)
Step-IsSound {s} {t} (adds_receiver name id c e) (v, k) = (
  returned (λ (c, t). IsValid t) _ _ (add_receiver-Keeps name id s v (IsCounted-IsInside s v k)) e,
  SameFlags-IsCounted s t k
      (returned (λ (c, t). SameFlags s t) _ _ (add_receiver-Leaves name id s) e),
)
Step-IsSound {s} {t} (sends name mesg c e) (v, k) = (
  returned (λ (c, t). IsValid t) _ _ (sendmsg-Keeps name mesg s v (IsCounted-IsInside s v k)) e,
  SameFlags-IsCounted s t k (returned (λ (c, t). SameFlags s t) _ _ (sendmsg-Leaves name mesg s) e),
)
Step-IsSound {s} {t} (receives name id c text e) (v, k) = (
  returned (λ (c, text, t). IsValid t) _ _
      (receivemsg-Keeps (some name) id s v (IsCounted-IsInside s v k)) e,
  SameFlags-IsCounted s t k
      (returned (λ (c, text, t). SameFlags s t) _ _ (receivemsg-Leaves name id s) e),
)

-- After any history of calls that return, from groups_init on, in which closegroup finds an open
-- group and recovergroup a closed one, the table is well-formed and `numGroups` is the number of
-- open groups.
pub Reach-IsSound : {s : Groups} → Reach s → IsSound s
unfolding groups_init count_open
Reach-IsSound start = (groups_init-IsValid.0, refl)
Reach-IsSound (next r st) = Step-IsSound st (Reach-IsSound r)
