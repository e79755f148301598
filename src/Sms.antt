-- ===== src/Sms.antt =====
-- The messages side: the state it keeps, and OBEX.
pub mod State
pub mod Obex
