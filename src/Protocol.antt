-- ===== src/Protocol.antt =====
-- callbridge-le-call-go/internal/protocol: the 128-byte packets of the call-control socket.
pub mod Message
pub mod Identity
pub mod Device
pub mod Validate
pub mod Codec
