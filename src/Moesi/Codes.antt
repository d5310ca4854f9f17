-- ===== src/Moesi/Codes.antt =====
-- The constants of src/cache/moesi/protocal.h.
pub mod LineState
pub mod Pending
pub mod MsgType
pub mod Channel
