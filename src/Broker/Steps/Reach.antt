-- ===== src/Broker/Steps/Reach.antt =====
-- Whatever the phone, BlueZ, the media process and the kernel do, and in whatever order the
-- goroutines run, the broker stays safe.
use callbridge_le_audio_serv.Prelude.{arith, ℕ, ◌≡◌, refl, Bool, not, ◌&&◌, ◌||◌, ◌==◌, none, leb}
use callbridge_le_audio_serv.Broker.State.{Broker}
use callbridge_le_audio_serv.Broker.Acquire.{close_pending}
use callbridge_le_audio_serv.Broker.Settings.{
  configure_media_leases, is_running, is_started, configure_normal_release_wait,
  remote_ase_releasing_watchdog, configure_call_control, set_hold, request_rearm,
  release_advertisement, begin_run, register, set_advertising, unregister, end_run,
}
use callbridge_le_audio_serv.Broker.Steps
use callbridge_le_audio_serv.Broker.Steps.{Step, Reaches}
use callbridge_le_audio_serv.Broker.Steps.Sessions.{Keeps, Keeps-refl}
use callbridge_le_audio_serv.Broker.Steps.Kept.{
  same, configure-Keeps, clear-Keeps, idle-Keeps, finish_release-Keeps, Keeps-if_first,
  record_lifecycle_progress-Keeps, check_normal_end-Keeps, mark_normal_release_pending-Keeps,
  begin_wait_section-Keeps,
}
use callbridge_le_audio_serv.Broker.Steps.Counted.{
  count_hup-Keeps, count_start_timeout-Keeps, count_timeout-Keeps,
}
use callbridge_le_audio_serv.Handoff.Server.{HandoffServer, accept_peer, drop_peer}
use callbridge_le_audio_serv.Handoff.Runs.{
  SameNumbers, accept_peer-SameNumbers, drop_peer-SameNumbers,
}
use callbridge_le_audio_serv.Broker.Serve.{take_rearm}
use callbridge_le_audio_serv.Broker.Steps.Reserved.{
  reserve-Keeps, unreserve-Keeps, hold_single-Keeps, hold_linked-Keeps, expire_pending-Keeps,
}
use callbridge_le_audio_serv.Broker.Steps.Safety.{
  request_specific-IsSafe, IsSafe, Keeps-IsSafe, force_timeout-IsSafe,
}
use callbridge_le_audio_serv.Broker.Steps.Publishing.{publish-IsSafe}

leases_kept :
    (startup active : ℕ) (b : Broker) → Keeps b (configure_media_leases startup active b).0
unfolding configure_media_leases
leases_kept startup active b =
    Keeps-if_first (startup == 0 || active == 0) _ _ (Keeps-refl b)
      (Keeps-if_first (is_started b) _ _ (Keeps-refl b) (same b _ refl refl refl refl refl))

wait_kept : (wait : ℕ) (b : Broker) → Keeps b (configure_normal_release_wait wait b).0
unfolding configure_normal_release_wait
wait_kept wait b =
    Keeps-if_first (wait == 0 || leb remote_ase_releasing_watchdog wait) _ _ (Keeps-refl b)
      (Keeps-if_first (is_started b) _ _ (Keeps-refl b) (same b _ refl refl refl refl refl))

control_kept :
    (provided required : Bool) (b : Broker) → Keeps b (configure_call_control provided required b).0
unfolding configure_call_control
control_kept provided required b = Keeps-if_first (not provided && required) _ _ (Keeps-refl b) (
    Keeps-if_first (is_running b || b.registered) _ _ (Keeps-refl b)
      (same b _ refl refl refl refl refl))

-- A run that begins or ends ends the session.
run_kept :
    (b c : Broker)
    → c.active_session ≡ none
    → c.releases ≡ b.releases
    → c.next_session ≡ b.next_session
    → c.last_gen ≡ b.last_gen
    → c.handoff ≡ b.handoff
    → Keeps b c
run_kept b c e1 e2 e3 e4 e5 = record {
  session = rw e1 tt;
  releases = e2;
  next_session = e3;
  last_gen = e4;
  handoff = e5;
}

-- A media process comes or goes.
handoff-IsSafe :
    (b : Broker) (s : HandoffServer)
    → SameNumbers b.handoff s
    → IsSafe b
    → IsSafe (record b { handoff = s })
handoff-IsSafe b s (k1, k2, k3) w = record {
  owned = w.owned;
  single = w.single;
  below = w.below;
  last_gen = w.last_gen;
  sink = omega (arith, k1, w.sink);
  source = omega (arith, k2, w.source);
  bundle = omega (arith, k3, w.bundle);
}

pub Step-IsSafe : {b c : Broker} → Step b c → IsSafe b → IsSafe c
unfolding register set_advertising release_advertisement set_hold request_rearm take_rearm end_run
    begin_run unregister close_pending
Step-IsSafe (Steps.leases b startup active) w = Keeps-IsSafe b _ (leases_kept startup active b) w
Step-IsSafe (Steps.waits b wait) w = Keeps-IsSafe b _ (wait_kept wait b) w
Step-IsSafe (Steps.controls b provided required) w =
    Keeps-IsSafe b _ (control_kept provided required b) w
Step-IsSafe (Steps.begins b device conn) w =
    Keeps-IsSafe b _ (run_kept b _ refl refl refl refl refl) w
Step-IsSafe (Steps.registers b) w = Keeps-IsSafe b _ (same b _ refl refl refl refl refl) w
Step-IsSafe (Steps.withdraws b) w = Keeps-IsSafe b _ (same b _ refl refl refl refl refl) w
Step-IsSafe (Steps.unregisters b) w = Keeps-IsSafe b _ (run_kept b _ refl refl refl refl refl) w
Step-IsSafe (Steps.ends b) w = Keeps-IsSafe b _ (same b _ refl refl refl refl refl) w
Step-IsSafe (Steps.configures b valid path direction codec qos) w =
    Keeps-IsSafe b _ (configure-Keeps valid path direction codec qos b) w
Step-IsSafe (Steps.clears b path) w = Keeps-IsSafe b _ (clear-Keeps path b) w
Step-IsSafe (Steps.reserves b c path plan config peer e) w =
    Keeps-IsSafe b c (reserve-Keeps path plan b c config peer e) w
Step-IsSafe (Steps.unreserves b path plan) w = Keeps-IsSafe b _ (unreserve-Keeps path plan b) w
Step-IsSafe (Steps.keeps_single b held) w = Keeps-IsSafe b _ (hold_single-Keeps held b) w
Step-IsSafe (Steps.keeps_linked b held peer) w = Keeps-IsSafe b _ (hold_linked-Keeps held peer b) w
Step-IsSafe (Steps.publishes b kernel conn sink source token correlated) w =
    publish-IsSafe kernel conn sink source token correlated b w
Step-IsSafe (Steps.expires b path generation) w =
    Keeps-IsSafe b _ (expire_pending-Keeps path generation b) w
Step-IsSafe (Steps.times_out b handle) w = force_timeout-IsSafe handle b w
Step-IsSafe (Steps.falls_back b) w = Keeps-IsSafe b _ (same b _ refl refl refl refl refl) w
Step-IsSafe (Steps.finishes b handle released) w =
    Keeps-IsSafe b _ (finish_release-Keeps handle released b) w
Step-IsSafe (Steps.advertises b enable) w = Keeps-IsSafe b _ (same b _ refl refl refl refl refl) w
Step-IsSafe (Steps.holds b hold) w = Keeps-IsSafe b _ (same b _ refl refl refl refl refl) w
Step-IsSafe (Steps.requests_rearm b) w = Keeps-IsSafe b _ (same b _ refl refl refl refl refl) w
Step-IsSafe (Steps.takes_rearm b) w = Keeps-IsSafe b _ (same b _ refl refl refl refl refl) w
Step-IsSafe (Steps.idles b path) w = Keeps-IsSafe b _ (idle-Keeps path b) w
Step-IsSafe (Steps.progresses b handle progress now) w =
    Keeps-IsSafe b _ (record_lifecycle_progress-Keeps handle progress now b) w
Step-IsSafe (Steps.checks_end b handle identity) w =
    Keeps-IsSafe b _ (check_normal_end-Keeps handle identity b) w
Step-IsSafe (Steps.marks b handle event) w =
    Keeps-IsSafe b _ (mark_normal_release_pending-Keeps handle event b) w
Step-IsSafe (Steps.begins_wait b handle event) w =
    Keeps-IsSafe b _ (begin_wait_section-Keeps handle event b) w
Step-IsSafe (Steps.hangs_up b handle) w = Keeps-IsSafe b _ (count_hup-Keeps handle b) w
Step-IsSafe (Steps.start_ends b handle) w = Keeps-IsSafe b _ (count_start_timeout-Keeps handle b) w
Step-IsSafe (Steps.lease_ends b handle) w = Keeps-IsSafe b _ (count_timeout-Keeps handle b) w
Step-IsSafe (Steps.requests b handle) w = request_specific-IsSafe handle b w
Step-IsSafe (Steps.peer_arrives b peer_uid credential fd) w =
    handoff-IsSafe b (accept_peer peer_uid credential fd b.handoff)
      (accept_peer-SameNumbers peer_uid credential fd b.handoff) w
Step-IsSafe (Steps.peer_leaves b fd) w =
    handoff-IsSafe b (drop_peer fd b.handoff) (drop_peer-SameNumbers fd b.handoff) w
Step-IsSafe (Steps.calls_release b) w = Keeps-IsSafe b _ (same b _ refl refl refl refl refl) w
Step-IsSafe (Steps.answers_release b released) w =
    Keeps-IsSafe b _ (same b _ refl refl refl refl refl) w

-- In every state that the broker reaches from a safe one, section by section in any order, each
-- session's release has been begun at most once, the session whose release was begun has an owner or
-- is given up, and the numbers that the handoff keeps are at most the last generation given out,
-- which fits 64 bits.
pub Reaches-IsSafe : {b c : Broker} → Reaches b c → IsSafe b → IsSafe c
Reaches-IsSafe Steps.start w = w
Reaches-IsSafe (Steps.then_step r step) w = Step-IsSafe step (Reaches-IsSafe r w)
