-- ===== src/Handoff/Lifecycle.antt =====
-- handoff.go: the messages that come back on the lifecycle socket.
use callbridge_le_audio_serv.Prelude.{
  ℕ, not, ◌&&◌, ◌||◌, ◌==◌, ◌!=◌, Bytes, byte_at, bytes_eq, length, slice, from_le, Result, ok,
  fail_if, ◌>>=◌, ◌>>◌,
}
use callbridge_le_audio_serv.Handoff.{
  lifecycle_magic, Error, bad_message, bad_identity, not_progress,
}

pub record LifecycleProgress : Type 0 where
  pub bundle_id : ℕ
  pub sink_generation : ℕ
  pub source_generation : ℕ

unfoldable pub decode_lifecycle_message : Bytes → Result Error (ℕ × LifecycleProgress)
decode_lifecycle_message p = do
  fail_if
      (length p != 32
        || not (bytes_eq (slice p 0 4) lifecycle_magic)
        || byte_at p 4 != 1
        || (byte_at p 5 != 1 && byte_at p 5 != 2)
        || byte_at p 6 != 0
        || byte_at p 7 != 0)
      bad_message
  fail_if
      (from_le (slice p 8 16) == 0 || from_le (slice p 16 24) == 0 || from_le (slice p 24 32) == 0)
      bad_identity
  ok (
    byte_at p 5,
    record {
      bundle_id = from_le (slice p 8 16);
      sink_generation = from_le (slice p 16 24);
      source_generation = from_le (slice p 24 32);
    },
  )

unfoldable pub decode_lifecycle_progress : Bytes → Result Error LifecycleProgress
decode_lifecycle_progress p = do
  (type, progress) ← decode_lifecycle_message p
  fail_if (type != 1) not_progress
  ok progress
