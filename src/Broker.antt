-- ===== src/Broker.antt =====
-- broker.go: the broker that hands the audio streams of BlueZ to the media process.
pub mod Variant
pub mod Qos
pub mod Report
pub mod Endpoint
pub mod Transports
pub mod State
pub mod Paths
pub mod Lifecycle
pub mod Release
pub mod Acquire
pub mod Publish
pub mod Settings
pub mod Watch
pub mod Signals
pub mod Serve
pub mod Steps
