-- ===== src/Pm/Handlers.antt =====
-- The handlers of the group calls at the end of project2/misc.c. What `sys_datacopy` leaves in a
-- local buffer is the kernel's, and a parameter.
use cs551_assignments.Common.{
  Bool, List, Option, Run, false, Text, [], fault, if◌then◌else◌, length, none, ok, some, true, ℕ,
  ◌==◌, ◌>>=◌, ◌∷◌, ◌≡◌,
}
use cs551_assignments.Group.Defs.{
  Code, Groups, groups_init, max_group_name_len, max_mesg_len, messaging_success,
}
use cs551_assignments.Group.Admin.{Call, closegroup, lookup_groups, opengroup, recovergroup}
use cs551_assignments.Group.Members.{add_receiver_to_group, add_sender_to_group}
use cs551_assignments.Group.Messages.{Received, receivemsg, sendmsg}

-- The fields of the message `m_in` that the handlers read.
pub record Message : Type 0 where
  pub m_source : ℕ
  pub m1_i1 : ℕ
  pub m1_p1 : ℕ
  pub m1_p2 : ℕ

-- `datacopy source address bytes`: the contents of a local buffer of that many bytes, once they
-- are copied from the address in the caller.
pub record Kernel : Type 0 where
  pub datacopy : ℕ → ℕ → ℕ → List ℕ
  pub datacopy_size : (source address bytes : ℕ) → length (datacopy source address bytes) ≡ bytes

-- Where a pointer that is never set happens to lead: to memory that nothing else uses, with room for
-- a message; to memory in use, such as GroupsList or the stack; or to none that can be written.
pub data Target : Type 0 where
  spare in_use unwritable : Target

-- The C string in a buffer. A buffer with no NUL is read past its end.
unfoldable pub c_string : List ℕ → Run Text
c_string [] = fault
c_string (x ∷ xs) = let rest = c_string xs in if x == 0 then ok [] else (do t ← rest; ok (x ∷ t))

module _ (k : Kernel) where
  -- `char group_name[MAX_GROUP_NAME_LEN]`, filled from the caller.
  unfoldable pub group_name_of : Message → Run Text
  group_name_of m = c_string (k.datacopy m.m_source m.m1_p1 max_group_name_len)

  -- `char mesg[MAX_MESG_LEN]`, filled from the caller.
  unfoldable pub mesg_of : Message → Run Text
  mesg_of m = c_string (k.datacopy m.m_source m.m1_p2 max_mesg_len)

  unfoldable pub gopen : Message → Groups → Call
  gopen m s = do name ← group_name_of m; opengroup (some name) s

  unfoldable pub gclose : Message → Groups → Call
  gclose m s = do name ← group_name_of m; closegroup (some name) s

  unfoldable pub grecover : Message → Groups → Call
  grecover m s = do name ← group_name_of m; recovergroup (some name) s

  unfoldable pub gsender : Message → Groups → Call
  gsender m s = do name ← group_name_of m; add_sender_to_group (some name) m.m1_i1 s

  unfoldable pub greceiver : Message → Groups → Call
  greceiver m s = do name ← group_name_of m; add_receiver_to_group (some name) m.m1_i1 s

  unfoldable pub msend : Message → Groups → Call
  msend m s = do name ← group_name_of m; mesg ← mesg_of m; sendmsg (some name) mesg s

  -- Whether receivemsg, which copies the text to where the pointer holds, may do so: it copies none,
  -- or the pointer leads to room of its own.
  abbrev pub may_copy : Target → Option Text → Bool
  may_copy t none = true
  may_copy spare (some text) = true
  may_copy in_use (some text) = false
  may_copy unwritable (some text) = false

  -- `mesg` is an array of pointers that is never written, and receivemsg copies the text to its
  -- first element.
  unfoldable pub mreceive : Target → Message → Groups → Received
  mreceive target m s = do
    name ← group_name_of m
    r ← receivemsg (some name) m.m1_i1 s
    if may_copy target r.1 then ok r else fault

-- The text that the caller is sent, with its code.
unfoldable pub glookup : Groups → Run (Code × Text)
glookup s = do names ← lookup_groups s; ok (messaging_success, names)

-- ginit starts afresh and returns 1.
unfoldable pub ginit : Groups → ℕ × Groups
ginit s = (1, groups_init)
