-- ===== src/Isa/RoundTrip.antt =====
-- decode_rv64 on encoded instructions: each field comes back, the immediate sign-extended.
pub mod IForms
pub mod RForms
pub mod SForms
pub mod UForms
