-- ===== src/Group/Invariant/Traffic.antt =====
-- sendmsg leaves the table only for a text of MAX_MESG_LEN bytes, and receivemsg never does.
pub mod Unread
pub mod Send
pub mod Receive
