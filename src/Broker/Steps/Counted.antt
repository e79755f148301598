-- ===== src/Broker/Steps/Counted.antt =====
-- The sections that only count
use callbridge_le_audio_serv.Prelude.{ℕ, refl, Option-cases, inl, inr}
use callbridge_le_audio_serv.Broker.State.{Broker, live, current}
use callbridge_le_audio_serv.Broker.Watch.{count_hup, count_start_timeout, count_timeout}
use callbridge_le_audio_serv.Broker.Steps.Sessions.{Keeps, Keeps-refl}
use callbridge_le_audio_serv.Broker.Steps.Kept.{same}

pub count_hup-Keeps : (handle : ℕ) (b : Broker) → Keeps b (count_hup handle b)
unfolding count_hup
count_hup-Keeps handle b = elim (Option-cases (current handle b.active_session)) [
  | inl gone ↦ rw (gone, count_hup) (Keeps-refl b)
  | inr (s, here) ↦ rw (here, count_hup) (same b _ refl refl refl refl refl)
]

pub count_start_timeout-Keeps : (handle : ℕ) (b : Broker) → Keeps b (count_start_timeout handle b)
unfolding count_start_timeout
count_start_timeout-Keeps handle b = elim (Option-cases (live handle b.active_session)) [
  | inl gone ↦ rw (gone, count_start_timeout) (Keeps-refl b)
  | inr (s, here) ↦ rw (here, count_start_timeout) (same b _ refl refl refl refl refl)
]

pub count_timeout-Keeps : (handle : ℕ) (b : Broker) → Keeps b (count_timeout handle b)
unfolding count_timeout
count_timeout-Keeps handle b = elim (Option-cases (live handle b.active_session)) [
  | inl gone ↦ rw (gone, count_timeout) (Keeps-refl b)
  | inr (s, here) ↦ rw (here, count_timeout) (same b _ refl refl refl refl refl)
]
