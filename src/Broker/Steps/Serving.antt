-- ===== src/Broker/Steps/Serving.antt =====
-- An event that the loop of the broker serves while nothing else happens is a sequence of sections.
use callbridge_le_audio_serv.Prelude.{
  Bool, true, false, not, ◌&&◌, ◌||◌, ℕ, Bytes, Option, none, some, Option-cases, inl, inr, ◌==◌,
}
use callbridge_le_audio_serv.Broker.State.{Broker}
use callbridge_le_audio_serv.Broker.Lifecycle.{
  active_handle, request_on, request_active_session_release, session_with_token, mark_on_token,
  release_call_token,
}
use callbridge_le_audio_serv.Broker.Signals.{
  Request, ignored, acquires, becomes_idle, read_signal, apply_request, bluez_name_lost,
  le_bearer_connection_changed, handle_signal,
}
use callbridge_le_audio_serv.Broker.Serve.{
  Event, cancelled, handoff_stopped, bus_lost, signals_closed, rearms, arrives, set_advertisement,
  advertise, take_rearm, serve_rearm, serve_bearer, serve_other, serve_signal, serve,
}
use callbridge_le_audio_serv.Broker.Steps
use callbridge_le_audio_serv.Broker.Steps.{Reaches, start, then_step}
use callbridge_le_audio_serv.Broker.Steps.Watching.{Reaches-if_first}

module _ {o : Broker} where
  advertise-Reaches :
      (called enable registered : Bool) (b : Broker)
      → Reaches o b
      → Reaches o (advertise called enable registered b).0
  unfolding advertise set_advertisement
  advertise-Reaches called enable registered b r =
      Reaches-if_first ((enable && registered) || (not enable && not registered)) _ _ r
        (Reaches-if_first called _ _ (then_step r (Steps.advertises b enable)) r)

  serve_rearm-Reaches :
      (called : Bool) (connected : Option Bool) (registered : Bool) (b : Broker)
      → Reaches o b
      → Reaches o (serve_rearm called connected registered b).0
  unfolding serve_rearm
  serve_rearm-Reaches called none registered b r = then_step r (Steps.takes_rearm b)
  serve_rearm-Reaches called (some connected) registered b r =
      let taken = then_step r (Steps.takes_rearm b) in
      Reaches-if_first (connected || (take_rearm b).advertisement_hold) _ _ taken
        (advertise-Reaches called true registered (take_rearm b) taken)

  requested : (h : Option ℕ) (b : Broker) → Reaches o b → Reaches o (request_on h b).0
  unfolding request_on
  requested none b r = r
  requested (some handle) b r = then_step r (Steps.requests b handle)

  request_active-Reaches :
      (b : Broker) → Reaches o b → Reaches o (request_active_session_release b).0
  unfolding request_active_session_release
  request_active-Reaches b r = requested (active_handle b) b r

  apply_request-Reaches : (q : Request) (b : Broker) → Reaches o b → Reaches o (apply_request q b).0
  unfolding apply_request
  apply_request-Reaches ignored b r = r
  apply_request-Reaches (acquires path) b r = r
  apply_request-Reaches (becomes_idle path) b r = then_step r (Steps.idles b path)

  serve_bearer-Reaches :
      (called connected registered : Bool) (b : Broker)
      → Reaches o b
      → Reaches o (serve_bearer called connected registered b).0
  unfolding serve_bearer
  serve_bearer-Reaches called true registered b r = advertise-Reaches called false registered b r
  serve_bearer-Reaches called false registered b r =
      let gone = (request_active_session_release b).0 in
      let begun = request_active-Reaches b r in
      Reaches-if_first gone.advertisement_hold _ _ begun
        (advertise-Reaches called true registered gone begun)

  pub serve-Reaches :
      (called : Bool) (device : Bytes) (event : Event) (registered : Bool) (b : Broker)
      → Reaches o b
      → Reaches o (serve called device event registered b).0
  unfolding serve serve_signal serve_other handle_signal
  serve-Reaches called device cancelled registered b r = r
  serve-Reaches called device handoff_stopped registered b r = r
  serve-Reaches called device bus_lost registered b r = r
  serve-Reaches called device signals_closed registered b r = r
  serve-Reaches called device (rearms connected) registered b r =
      serve_rearm-Reaches called connected registered b r
  serve-Reaches called device (arrives s) registered b r =
      Reaches-if_first (bluez_name_lost s) _ _ r
        (elim (Option-cases (le_bearer_connection_changed s device)) [
          | inl other ↦ rw other (apply_request-Reaches (read_signal b.expected_device s) b r)
          | inr (connected, changed) ↦
              rw changed (serve_bearer-Reaches called connected registered b r)
        ])

  marked : (h : Option ℕ) (b : Broker) → Reaches o b → Reaches o (mark_on_token h b).0
  unfolding mark_on_token
  marked none b r = r
  marked (some handle) b r = then_step r (Steps.marks b handle false)

  pub release_call_token-Reaches :
      (token : ℕ) (b : Broker) → Reaches o b → Reaches o (release_call_token token b).0
  unfolding release_call_token
  release_call_token-Reaches token b r =
      Reaches-if_first (token == 0) _ _ r (marked (session_with_token token b) b r)
