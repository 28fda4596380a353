-- ===== src/Lib.antt =====
-- Three systems programs and what makes them correct: the multicast groups that project2 adds to a
-- MINIX process manager, the recycle directories that Project3/p3_code adds to a MINIX file system,
-- and the shell of CS551P1/CS551P1.
--
-- Group.antt and its children: project2/grpmsgdef.h and project2/grpmsgdef.c. The record Groups is
-- the global table GroupsList with numGroups. Group/Defs.antt has the data and the searches
-- (getSenderId is get_sender_id, getReceiverId get_receiver_id, findEmptyGroupSlot
-- find_empty_group_slot, findEmptyItemSlot find_empty_item_slot; the two loops that look for a name
-- are find_named and find_open), Group/Admin.antt has opengroup, closegroup, recovergroup and
-- lookup_groups, Group/Members.antt add_sender_to_group and add_receiver_to_group, and
-- Group/Messages.antt sendmsg and receivemsg. A call takes the table and returns its code with the
-- new table. Group/Snapshot.antt has print_buffer_snapshot and print_group_snapshot. Theorems:
-- Group/Invariant, Group/Counting.antt, Group/History, Group/Delivery.antt, Group/Order.antt,
-- Group/Names.antt, Group/Packed.antt, Group/Twice.antt, Group/Lost.antt.
--
-- Pm.antt and its children: the handlers at the end of project2/misc.c, which copy the caller's
-- buffers and call the functions above (Pm/Handlers.antt, Pm/Safety.antt), and the tables that
-- connect the stubs of project2/project2.h, the numbers of project2/callnr.h, project2/table.c and
-- the codes of project2/grpmsgdef.h and project2/project.c (Pm/Table.antt).
--
-- Client.antt and its children: main of project2/project.c over an interface of the stubs
-- (Client/Main.antt), the names that it takes from its argument (Client/Tokens.antt), and its
-- receiving loops against the handlers (Client/Unread.antt, Client/Drain.antt).
--
-- Recycle.antt and its children: the records of Project3/p3_code/mfs/new.c (Recycle/Mfs.antt), the
-- system calls of Project3/p3_code/vfs/new.c with the requests of Project3/p3_code/vfs/request.c
-- (Recycle/Vfs.antt), the tables of Project3/p3_code/include/minix/vfsif.h and
-- Project3/p3_code/mfs/table.c (Recycle/Table.antt), the viewer of inodes through all three files
-- (Recycle/Viewer.antt), and the tool Project3/p3_code/testp3.c: the functions that delete and
-- restore (Recycle/Tool.antt), the viewers and the menu (Recycle/Menu.antt). Theorems:
-- Recycle/Records.antt, Recycle/Undelete.antt, Recycle/Undo.antt, Recycle/Menu/Ends.antt.
--
-- Shell.antt and its children: CS551P1/CS551P1/main.c. gettoken and peek (Shell/Lexer.antt), the
-- parser from parseredirs to parsecmd (Shell/Parser.antt), validateparenthes (Shell/Parens.antt),
-- convertalias (Shell/Alias.antt; where it hangs, Shell/Alias/Blank.antt), changesequence
-- (Shell/Sequence.antt; its first loop is find_marks, one call without the last lines is reorder),
-- and runcmd (Shell/Run.antt) as a script of system calls over an interface of them
-- (Shell/Calls.antt), with the plan that it carries out (Shell/Run/Wiring.antt). main forks a child (Shell/Main.antt) that takes a line through the check
-- of parentheses, convertalias, changesequence, parsecmd and runcmd, after getprofile
-- (Shell/Profile.antt) has made the variables and aliases of the file PROFILE
-- (Shell/Profile/Entries.antt). Shell/Console.antt is the loop of main that opens the console, and
-- Shell/Session.antt getcmd and the loop over the lines. There a child whose line has unmatched
-- parentheses becomes a shell itself, and its parent waits for it: a session is a stack of
-- processes, each with its directory and its buffer of stdin, over one terminal. Theorems:
-- Shell/Parser, Shell/Balance.antt, Shell/Sequence, Shell/Run, Shell/Profile, Shell/Main,
-- Shell/Session.
--
-- Older.antt and its children: CS551P1/main.c, whose pipe sign is a comma and which has no lists.
-- gettoken (Older/Lexer.antt), the parser (Older/Parser.antt), runcmd (Older/Run.antt),
-- changesequence and the loop of main that calls it (Older/Sequence.antt), getprofile
-- (Older/Profile.antt), the child of main (Older/Main.antt) and its loop (Older/Session.antt).
-- Functions that are the same text in both shells, such as peek and validateparenthes, are modelled
-- once, in Shell. Theorems: the translation of a line for the newer shell (Older/Translate.antt,
-- Older/Tokens.antt, Older/Words.antt, Older/Same.antt, Older/Calls.antt), Older/Sequence,
-- Older/Profile, and both shells on the same input (Older/Session/Agrees.antt).
--
-- Common.antt and its children hold what these share: the run of a piece of C code, which returns
-- or faults where it leaves an array, the loop that searches an array, strings, lists and integers.
--
-- Bounds and fuel. Arrays have the sizes of the source, and an access outside is a fault. numGroups
-- is an unbounded integer; the 2^31 calls that would overflow it are out of the model. The parser
-- has as much fuel as its line has characters, and three (in the older shell two); changesequence
-- calls itself, and the older main calls it, at most twice as often as the line has characters, and
-- once more; the receiving loop of the client has 51, one more than there are message slots; the
-- loop that polls for messages may wait for ever, and its fuel is a parameter. The loop of main
-- takes turns_for turns, by a weight of what the terminal gives that falls with every character
-- read, also where two processes keep the rest of a line; the menu of the tool need not end, and
-- the number of its rounds is a parameter. What does not end in convertalias, the trimming of a
-- word of white space, is a value of its own: the child hangs, and the shells wait for it.
--
-- What C leaves undefined is a fault. The pointer that mreceive never sets is a parameter: it leads
-- to memory that nothing else uses, to memory in use, or to none that can be written, and the copy
-- of a text is a fault in the last two cases.
--
-- Parameters: sys_datacopy, sys_safecopyfrom, get_inode, path lookup and name fetching in the file
-- server, _syscall, atoi, scanf, stat, mkdir, opendir, chdir, the digits that sprintf writes, and
-- the calls close, dup, open, pipe, fork, wait, execvp and getenv. isalnum is that of the C locale.
-- stdin of the shells is a terminal, whose reads give a line each; what a script reads of it is a
-- parameter, and every script is taken to end.
--
-- Not modelled: the signals of the two shells with the jump that ctrl_c makes, the prompt and the
-- star that main draws, printUsage of project2/project.c, the experiments in
-- CS551P1/CS551P1/test.c, the list library CS551P1/CS551P1/list.c, a copy of another project that
-- nothing uses, and the MINIX servers that the assignments start from.
pub mod Client
pub mod Common
pub mod Group
pub mod Older
pub mod Pm
pub mod Recycle
pub mod Shell
