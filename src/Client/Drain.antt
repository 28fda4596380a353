-- ===== src/Client/Drain.antt =====
-- The loop of project2/project.c that reads all messages, against the handlers of the process
-- manager.
use mathlib.Core.List.{append-nil}
use cs551_assignments.Common.{
  ◌⊎◌, map, All-get, List, Option, Outcome, Run, Text, [], ap, arith, fault, get_elem?,
  if◌then◌else◌, inl, inr, length, none, ok, pos, refl, set, some, subst, suc, zero, ℕ, ℤ, ◌<◌,
  ◌>>=◌, ◌∙◌, ◌∷◌, ◌≡◌,
}
use cs551_assignments.Pm.Table.{code_value}
use cs551_assignments.Pm.Handlers.{may_copy, mreceive, spare, Kernel, Message, group_name_of}
use cs551_assignments.Group.Invariant.Table.{
  IsValid, IsInside, get-IsValidGroup, receivers_of, IsValidItem,
}
use cs551_assignments.Group.Order.{IsSkipped-read_by}
use cs551_assignments.Client.Unread.{
  unread_texts, unread_texts-first, unread_texts-le, unread_texts-none,
}
use cs551_assignments.Client.Main.{
  receive_all, code_of, printed, returned, status, received, Calls, drain, gather,
}
use cs551_assignments.Group.Defs.{buffer_underflow, Groups, MsgListPerGroup, messaging_success}
use cs551_assignments.Group.Messages.{set_item, Received, receivemsg}
use cs551_assignments.Group.Delivery.{
  read_by, Receives-set_item, has_member, Receives, receivemsg-DeliversFirst,
}
use cs551_assignments.Group.Invariant.Traffic.Receive.{room_to_read, receivemsg-Keeps}

-- The reply to a call of mreceive: the value of its code, and the text that was copied.
abbrev pub reply : Received → Run (ℤ × Text × Groups)
reply (ok (c, none, t)) = ok (pos (code_value c), [], t)
reply (ok (c, some text, t)) = ok (pos (code_value c), text, t)
reply fault = fault

-- The stub of mreceive reaches the handler with its name and its receiver, and the pointer that the
-- handler never sets leads to memory that nothing else uses.
pub record Serves (calls : Calls Groups) (name : Text) (id : ℕ) : Type 0 where
  pub kernel : Kernel
  pub message : Message
  pub named : group_name_of kernel message ≡ ok name
  pub receiver : message.m1_i1 ≡ id
  pub serves : (s : Groups) → calls.sys_mreceive name id s ≡ reply (mreceive kernel spare message s)

mreceive-receivemsg :
    (k : Kernel) (m : Message) (name : Text) (s : Groups)
    → group_name_of k m ≡ ok name
    → mreceive k spare m s ≡ receivemsg (some name) m.m1_i1 s
unfolding mreceive
mreceive-receivemsg k m name s e = rw e (same (receivemsg (some name) m.m1_i1 s))
  where
    same : (r : Received) → (r >>= λ r. if may_copy k spare r.1 then ok r else fault) ≡ r
    same (ok (c, none, t)) = refl
    same (ok (c, some text, t)) = refl
    same fault = refl

served :
    (calls : Calls Groups) (name : Text) (id : ℕ) (s : Groups)
    → Serves calls name id
    → calls.sys_mreceive name id s ≡ reply (receivemsg (some name) id s)
served calls name id s v =
    v.serves s
    ∙ ap reply (
        mreceive-receivemsg v.kernel v.message name s v.named
        ∙ ap (λ n. receivemsg (some name) n s) v.receiver)

abbrev Drained : Type 0
Drained = Run (Option (List Text × ℤ × Groups))

gather_end :
    (calls : Calls Groups) (name text : Text) (id : ℕ) (s : Groups) (rest : Drained)
    → gather calls name id (pos 9) text s rest ≡ ok (some ([], pos 9, s))
gather_end calls name text id s fault = refl
gather_end calls name text id s (ok none) = refl
gather_end calls name text id s (ok (some r)) = refl

IsValid-after :
    (name : Text) (id : ℕ) (s t : Groups) (text : Text)
    → IsValid s
    → IsInside s
    → receivemsg (some name) id s ≡ ok (messaging_success, some text, t)
    → IsValid t
IsValid-after name id s t text v inside e =
    subst (Outcome (λ (c, text, t). IsValid t) ⊥) e (receivemsg-Keeps (some name) id s v inside)

-- The receiver `id` of the group `g` that a name finds, in a well-formed table.
record Waits (name : Text) (id i : ℕ) (s : Groups) (g : MsgListPerGroup) : Type 0 where
  valid : IsValid s
  inside : IsInside s
  receives : Receives name id s i g

abbrev unread : ℕ → MsgListPerGroup → List Text
unread id g = unread_texts id g.i_list.items_list

-- A call that delivers leaves one text less.
record Delivers (calls : Calls Groups) (name : Text) (id i : ℕ) (s : Groups) (g : MsgListPerGroup)
    : Type 0 where
  text : Text
  table : Groups
  group : MsgListPerGroup
  call : calls.sys_mreceive name id s ≡ ok (pos 0, text, table)
  first : unread id g ≡ text ∷ unread id group
  waits : Waits name id i table group

call-Delivers :
    (calls : Calls Groups) (name : Text) (id i : ℕ) (s : Groups) (g : MsgListPerGroup)
    → Serves calls name id
    → Waits name id i s g
    → ((unread id g ≡ []) × (calls.sys_mreceive name id s ≡ ok (pos 9, [], s)))
      ⊎ Delivers calls name id i s g
unfolding code_value
call-Delivers calls name id i s g c h = elim (receivemsg-DeliversFirst name id i s g v r) [
  | inl (skipped, e) ↦
      inl (unread_texts-none id g.i_list.items_list skipped, served calls name id s c ∙ rw e)
  | inr (j, m, at, u, before, e) ↦
      let w = get-IsValidGroup s i v r.at in
      let old = All-get (IsValidItem (receivers_of g)) g.i_list.items_list j w.items at in
      let room = room_to_read g id m w old u (has_member id g r.member) in
      let reads : m.num_of_read_complete < length m.readers =
        omega (arith, room, old.size, w.receivers.bounded) in
      inr (record {
        text = m.mesg;
        table = set_item i j g s (read_by id g m);
        group = record g {
          i_list = record (g.i_list) { items_list = set g.i_list.items_list j (read_by id g m) };
        };
        call = served calls name id s c ∙ rw e;
        first =
            unread_texts-first id j g.i_list.items_list m (read_by id g m) at u before
              (IsSkipped-read_by id g m reads);
        waits = record {
          valid = IsValid-after name id s _ m.mesg v h.inside e;
          inside = h.inside;
          receives = Receives-set_item name id i j s g (read_by id g m) r;
        };
      })
]
  where
    v : IsValid s
    v = h.valid

    r : Receives name id s i g
    r = h.receives

drain-unread :
    (calls : Calls Groups) (name : Text) (id i f : ℕ) (s : Groups) (g : MsgListPerGroup)
    → Serves calls name id
    → Waits name id i s g
    → length (unread id g) < f
    → (t : Groups) × (drain calls name id f s ≡ ok (some (unread id g, pos 9, t)))
unfolding drain
drain-unread calls name id i zero s g c h l = absurd (omega arith)
drain-unread calls name id i (suc f) s g c h l = elim (call-Delivers calls name id i s g c h) [
  | inl (none_left, e) ↦
      (s, rw (e, none_left) (gather_end calls name [] id s (drain calls name id f s)))
  | inr d ↦
      let rest =
        drain-unread calls name id i f d.table d.group c d.waits
          (omega (arith, l, ap length d.first)) in
      (rest.0, rw (d.call, rest.1, d.first))
]

unread-lt :
    (id : ℕ) (s : Groups) (i : ℕ) (g : MsgListPerGroup)
    → IsValid s
    → get_elem? s.groups_list i ≡ some g
    → length (unread id g) < 51
unread-lt id s i g v at =
    omega (arith, unread_texts-le id g.i_list.items_list, (get-IsValidGroup s i v at).slots)

-- Within 51 calls the loop `while(!status)` of a receiver ends, with BUFFER_UNDERFLOW, and has
-- printed every message that the receiver had not read, in the order of their slots; if the table
-- is well-formed, the name finds an open group that it is a receiver of, the stub reaches the
-- handler, and the pointer that the handler never sets happens to lead to memory that nothing
-- else uses, where the text may be copied.
pub drain_lem :
    (calls : Calls Groups) (name : Text) (id i : ℕ) (s : Groups) (g : MsgListPerGroup)
    → Serves calls name id
    → IsValid s
    → IsInside s
    → Receives name id s i g
    → (t : Groups) × (drain calls name id 51 s
        ≡ ok (some (unread_texts id g.i_list.items_list, pos (code_value buffer_underflow), t)))
unfolding code_value
drain_lem calls name id i s g c v inside r =
    drain-unread calls name id i 51 s g c (record { valid = v; inside = inside; receives = r })
      (unread-lt id s i g v r.at)

-- If there is a message that it has not read, the branch of the client that receives returns: it
-- prints the status once and then all the messages that the receiver had not read, in the order
-- of their slots; if the table is well-formed, the name finds an open group that it is a receiver
-- of, the stub reaches the handler, and the pointer that the handler never sets happens to lead to
-- memory that nothing else uses, where the text may be copied.
pub receive_all_lem :
    (calls : Calls Groups) (name : Text) (id i : ℕ) (s : Groups) (g : MsgListPerGroup)
    → Serves calls name id
    → IsValid s
    → IsInside s
    → Receives name id s i g
    → 0 < length (unread_texts id g.i_list.items_list)
    → (t : Groups) × (receive_all calls name id 51 s
        ≡ returned
            (status "MESSAGING_SUCCESS" ∷ map received (unread_texts id g.i_list.items_list))
            t)
unfolding receive_all code_of printed
receive_all_lem calls name id i s g c v inside r some_text =
    elim (call-Delivers calls name id i s g c
      (record { valid = v; inside = inside; receives = r })) [
        | inl (none_left, e) ↦ absurd (omega (arith, ap length none_left, some_text))
        | inr d ↦
            let rest =
              drain-unread calls name id i 51 d.table d.group c d.waits
                (omega (arith, unread-lt id s i g v r.at, ap length d.first)) in
            (rest.0, rw (d.call, rest.1, d.first, append-nil (map received (unread id d.group))))
      ]
