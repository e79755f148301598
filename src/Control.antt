-- ===== src/Control.antt =====
-- callbridge-le-call-go/internal/control: the server that tells the peer of the calls.
pub mod Snapshot
pub mod Server
