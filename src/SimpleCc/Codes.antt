-- ===== src/SimpleCc/Codes.antt =====
-- The enumerations of src/cache/simplecc/sccllc.h.
pub mod Req
pub mod Snoop
