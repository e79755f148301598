-- ===== src/Gtbs.antt =====
-- callbridge-le-call-go/internal/gtbs: the calls of the phone, as its GTBS service reports them.
pub mod Call
pub mod Parse
pub mod Store
pub mod Client
