-- ===== src/Pm/Table.antt =====
-- The system call numbers of project2/callnr.h, the table of project2/table.c, the stubs of
-- project2/project2.h and the table of return codes of project2/project.c.
use Prim.Native.String.{String}
use cs551_assignments.Common.{
  Bool, List, [], arith, get_elem?, refl, some, subst, suc, sym, true, zero, ℕ, ◌&&◌, ◌+◌, ◌<◌,
  ◌==◌, ◌||◌, ◌↔◌, ◌∷◌, ◌≡◌,
}
use cs551_assignments.Group.Defs.{
  Code, buffer_overflow, buffer_underflow, duplicate_group, duplicate_receiver, duplicate_sender,
  group_closed, group_name_len_overflow, group_not_found, groups_full, inp_err_null_group_name,
  messaging_success, msg_len_overflow_error, not_receiver_of_group,
}

-- The routines that the table names, by their own names.
pub data Routine : Type 0 where
  no_sys do_exit do_fork do_waitpid do_time do_brk do_get do_set do_stime do_trace : Routine
  do_alarm do_pause do_getepinfo do_kill do_times do_exec do_itimer do_getmcontext : Routine
  do_setmcontext glookup gopen do_sigaction do_sigsuspend do_sigpending : Routine
  do_sigprocmask do_sigreturn do_reboot do_svrctl do_sysuname gclose gsender : Routine
  do_getsetpriority greceiver do_sprofile do_cprofile do_newexec do_srv_fork : Routine
  do_execrestart msend do_getprocnr mreceive do_getepinfo_o ginit grecover : Routine
  do_srv_kill : Routine

-- `call_vec`: the routine of each call number.
abbrev pub call_vec : List Routine
call_vec =
    no_sys ∷ do_exit ∷ do_fork ∷ no_sys ∷ no_sys ∷ no_sys ∷ no_sys ∷ do_waitpid ∷ no_sys ∷ no_sys
    ∷ no_sys ∷ do_waitpid ∷ no_sys ∷ do_time ∷ no_sys ∷ no_sys ∷ no_sys ∷ do_brk ∷ no_sys ∷ no_sys
    ∷ do_get ∷ no_sys ∷ no_sys ∷ do_set ∷ do_get ∷ do_stime ∷ do_trace ∷ do_alarm ∷ no_sys
    ∷ do_pause ∷ no_sys ∷ do_getepinfo ∷ do_set ∷ no_sys ∷ do_get ∷ no_sys ∷ no_sys ∷ do_kill
    ∷ no_sys ∷ no_sys ∷ no_sys ∷ no_sys ∷ no_sys ∷ do_times ∷ no_sys ∷ no_sys ∷ do_set ∷ do_get
    ∷ no_sys ∷ no_sys ∷ no_sys ∷ no_sys ∷ no_sys ∷ no_sys ∷ no_sys ∷ no_sys ∷ no_sys ∷ no_sys
    ∷ no_sys ∷ do_exec ∷ no_sys ∷ no_sys ∷ do_set ∷ do_get ∷ do_itimer ∷ do_get ∷ do_set
    ∷ do_getmcontext ∷ do_setmcontext ∷ glookup ∷ gopen ∷ do_sigaction ∷ do_sigsuspend
    ∷ do_sigpending ∷ do_sigprocmask ∷ do_sigreturn ∷ do_reboot ∷ do_svrctl ∷ do_sysuname ∷ gclose
    ∷ no_sys ∷ gsender ∷ no_sys ∷ no_sys ∷ no_sys ∷ no_sys ∷ no_sys ∷ no_sys ∷ do_getsetpriority
    ∷ do_getsetpriority ∷ do_time ∷ do_set ∷ do_set ∷ no_sys ∷ no_sys ∷ no_sys ∷ no_sys ∷ greceiver
    ∷ do_sprofile ∷ do_cprofile ∷ do_newexec ∷ do_srv_fork ∷ do_execrestart ∷ msend ∷ do_getprocnr
    ∷ mreceive ∷ do_get ∷ do_getepinfo_o ∷ ginit ∷ grecover ∷ no_sys ∷ do_srv_kill ∷ no_sys ∷ do_get
    ∷ []

-- The calls of project2/project2.h.
pub data GroupCall : Type 0 where
  sys_ginit sys_glookup sys_gopen sys_gclose sys_gsender sys_greceiver sys_msend : GroupCall
  sys_mreceive sys_grecover : GroupCall

-- The number that each stub passes to `_syscall(PM_PROC_NR, ...)`.
unfoldable pub call_nr : GroupCall → ℕ
call_nr sys_glookup = 69
call_nr sys_gopen = 70
call_nr sys_gclose = 79
call_nr sys_gsender = 81
call_nr sys_greceiver = 97
call_nr sys_msend = 103
call_nr sys_mreceive = 105
call_nr sys_ginit = 108
call_nr sys_grecover = 109

-- The handler that misc.c has for each stub.
unfoldable pub handler_of : GroupCall → Routine
handler_of sys_ginit = ginit
handler_of sys_glookup = glookup
handler_of sys_gopen = gopen
handler_of sys_gclose = gclose
handler_of sys_gsender = gsender
handler_of sys_greceiver = greceiver
handler_of sys_msend = msend
handler_of sys_mreceive = mreceive
handler_of sys_grecover = grecover

-- The number under which a handler of the groups stands, and 0 for any other routine.
tag : Routine → ℕ
tag glookup = 69
tag gopen = 70
tag gclose = 79
tag gsender = 81
tag greceiver = 97
tag msend = 103
tag mreceive = 105
tag ginit = 108
tag grecover = 109
tag _ = 0

tags_fit : ℕ → List Routine → Bool
tags_fit n [] = true
tags_fit n (r ∷ rs) = (tag r == 0 || tag r == n) && tags_fit (n + 1) rs

tag_sound :
    (m n : ℕ) (rs : List Routine) {r : Routine}
    → tags_fit m rs ≡ true
    → get_elem? rs n ≡ some r
    → 0 < tag r
    → m + n ≡ tag r
unfolding tags_fit
tag_sound m n [] h e p = cc
tag_sound m zero (x ∷ rs) {r} h e p =
    let q : x ≡ r = cc in
    subst (λ y. tags_fit m (y ∷ rs) ≡ true → m + 0 ≡ tag r) (sym q) (λ k. ground arith) h
tag_sound m (suc n) (x ∷ rs) h e p = omega (arith, tag_sound (m + 1) n rs (ground arith) e p)

call_vec-tags : tags_fit 0 call_vec ≡ true
unfolding tags_fit tag
call_vec-tags = refl

tag-handler_of : (c : GroupCall) → tag (handler_of c) ≡ call_nr c
unfolding tag handler_of call_nr
tag-handler_of sys_ginit = refl
tag-handler_of _ = refl

call_nr-pos : (c : GroupCall) → 0 < call_nr c
unfolding call_nr
call_nr-pos sys_ginit = omega arith
call_nr-pos _ = omega arith

call_vec-call_nr : (c : GroupCall) → get_elem? call_vec (call_nr c) ≡ some (handler_of c)
unfolding handler_of call_nr
call_vec-call_nr sys_ginit = refl
call_vec-call_nr _ = refl

-- The table sends the number that a stub uses, and no other number, to the handler of that stub.
pub call_vec-handler_of :
    (c : GroupCall) (n : ℕ) → (get_elem? call_vec n ≡ some (handler_of c)) ↔ (n ≡ call_nr c)
call_vec-handler_of c n = (
  λ e.
      let p : 0 < tag (handler_of c) = omega (arith, tag-handler_of c, call_nr-pos c) in
      omega (arith, tag_sound 0 n call_vec call_vec-tags e p, tag-handler_of c),
  λ e. rw e (call_vec-call_nr c),
)

-- The values of the codes in grpmsgdef.h.
unfoldable pub code_value : Code → ℕ
code_value messaging_success = 0
code_value inp_err_null_group_name = 1
code_value group_name_len_overflow = 2
code_value group_not_found = 3
code_value duplicate_sender = 4
code_value duplicate_receiver = 5
code_value msg_len_overflow_error = 6
code_value buffer_overflow = 7
code_value not_receiver_of_group = 8
code_value buffer_underflow = 9
code_value duplicate_group = 10
code_value groups_full = 11
code_value group_closed = 12

-- `return_codes` of project.c.
abbrev pub return_codes : List String
return_codes =
    "MESSAGING_SUCCESS" ∷ "INP_ERR_NULL_GROUP_NAME" ∷ "GROUP_NAME_LEN_OVERFLOW" ∷ "GROUP_NOT_FOUND"
    ∷ "DUPLICATE_SENDER" ∷ "DUPLICATE_RECEIVER" ∷ "MSG_LEN_OVERFLOW_ERROR" ∷ "BUFFER_OVERFLOW"
    ∷ "NOT_RECEIVER_OF_GROUP" ∷ "BUFFER_UNDERFLOW" ∷ "DUPLICATE_GROUP" ∷ "GROUPS_FULL"
    ∷ "GROUP_CLOSED" ∷ []

-- The name that a code has in grpmsgdef.h.
pub code_name : Code → String
code_name messaging_success = "MESSAGING_SUCCESS"
code_name inp_err_null_group_name = "INP_ERR_NULL_GROUP_NAME"
code_name group_name_len_overflow = "GROUP_NAME_LEN_OVERFLOW"
code_name group_not_found = "GROUP_NOT_FOUND"
code_name duplicate_sender = "DUPLICATE_SENDER"
code_name duplicate_receiver = "DUPLICATE_RECEIVER"
code_name msg_len_overflow_error = "MSG_LEN_OVERFLOW_ERROR"
code_name buffer_overflow = "BUFFER_OVERFLOW"
code_name not_receiver_of_group = "NOT_RECEIVER_OF_GROUP"
code_name buffer_underflow = "BUFFER_UNDERFLOW"
code_name duplicate_group = "DUPLICATE_GROUP"
code_name groups_full = "GROUPS_FULL"
code_name group_closed = "GROUP_CLOSED"

-- project.c prints each status of a group call by the name of its code: the table has, at the
-- value of each code, its name in grpmsgdef.h.
pub return_codes-code_value :
    (c : Code) → get_elem? return_codes (code_value c) ≡ some (code_name c)
unfolding code_value code_name
return_codes-code_value messaging_success = refl
return_codes-code_value _ = refl
