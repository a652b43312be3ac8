-- ===== src/Engine/Muted.antt =====
-- A session that overrides privacy is muted.
use device_samsung_msm8660_c.Common.{
  ℕ, Bool, true, false, Option, some, List, [], ◌∷◌, ◌≡◌, refl, arith, Option-cases, inl, inr,
  keep_if, if◌then◌else◌,
}
use device_samsung_msm8660_c.NiSession.{Notif, loc_eng_ni_request_handler, begin_session}
use device_samsung_msm8660_c.Engine.Types.{
  Report, GpsStatus, session_end, engine_on, engine_off, mute_in_session, Msg, Engine, World,
  Effect, location_cb, sv_cb, nmea_cb, nmea_of_position, nmea_of_sv,
}
use device_samsung_msm8660_c.Engine.Session.{
  emit, inform_gps_status, start_handler, stop_handler, handle_status, mute_after,
}
use device_samsung_msm8660_c.Engine.Server.{set_server, agps_reinit, reinit}
use device_samsung_msm8660_c.Engine.Connections.{
  with_nif, on_nifs, request_bit_handler, release_bit_handler, request_atl_handler,
  release_atl_handler, request_wifi_handler, release_wifi_handler, atl_open_success_handler,
  atl_closed_handler, atl_open_failed_handler, drop_subscribers,
}
use device_samsung_msm8660_c.Engine.Reports.{report_position_handler, report_sv_handler}
use device_samsung_msm8660_c.Engine.Handler.{
  handle, round, request_ni_handler, engine_up_handler, stop_fix_handler, settle_stop,
  settle_aiding, agps_restart, resume,
}

-- What tells the framework where the device is.
abbrev pub is_position : Effect → Bool
is_position (location_cb fix) = true
is_position (sv_cb payload) = true
is_position (nmea_cb payload) = true
is_position (nmea_of_position fix) = true
is_position (nmea_of_sv payload) = true
is_position _ = false

-- The messages that end a muted session, or begin to mute another.
abbrev pub unmutes : Msg → Bool
unmutes (Msg.report_status session_end) = true
unmutes (Msg.report_status engine_off) = true
unmutes Msg.engine_down = true
unmutes (Msg.request_ni n pass ok) = n.privacy_override
unmutes _ = false

-- The engine is there and its session still muted, `given` is what was given away so far, and `has`
-- whether the framework takes NMEA.
record IsSilent (given : List Effect) (has : Bool) (e : Engine) : Type 0 where
  still : e.mute_session_state ≡ mute_in_session
  all_given : keep_if is_position e.effects ≡ given
  there : e.context ≡ true
  has_same : e.callbacks.has_nmea ≡ has

-- The modem's own sentences in some messages are handed on, muted or not, before what `given` has.
abbrev pub with_sentence : Bool → Msg → List Effect → List Effect
with_sentence has (Msg.report_nmea payload) given = if has then nmea_cb payload ∷ given else given
with_sentence has _ given = given

abbrev pub modem_sentences : Bool → List (World × Msg) → List Effect → List Effect
modem_sentences has [] given = given
modem_sentences has ((w, m) ∷ ms) given = modem_sentences has ms (with_sentence has m given)

module _ {g : List Effect} {b : Bool} where
  start_handler-IsSilent :
      (w : World) (e : Engine) → IsSilent g b e → IsSilent g b (start_handler w e)
  unfolding start_handler inform_gps_status
  start_handler-IsSilent w e h = ground (arith, h.still, h.all_given, h.has_same, h.there)

  stop_handler-IsSilent :
      (w : World) (e : Engine) → IsSilent g b e → IsSilent g b (stop_handler w e)
  unfolding stop_handler inform_gps_status
  stop_handler-IsSilent w e h = ground (arith, h.still, h.all_given, h.has_same, h.there)

  handle_status-IsSilent :
      (s : GpsStatus) (e : Engine)
      → unmutes (Msg.report_status s) ≡ false
      → IsSilent g b e
      → IsSilent g b (handle_status s e)
  unfolding handle_status inform_gps_status mute_after
  handle_status-IsSilent s e quiet h = ground (arith, h.still, h.all_given, h.has_same, h.there)

  agps_reinit-IsSilent : (w : World) (e : Engine) → IsSilent g b e → IsSilent g b (agps_reinit w e)
  unfolding agps_reinit set_server
  agps_reinit-IsSilent w e h = ground (arith, h.still, h.all_given, h.has_same, h.there)

  reinit-IsSilent : (n : ℕ) (w : World) (e : Engine) → IsSilent g b e → IsSilent g b (reinit n w e)
  unfolding reinit
  reinit-IsSilent n w e h = ground (arith, h.still, h.all_given, h.has_same, h.there)

  agps_restart-IsSilent :
      (w : World) (e : Engine) → IsSilent g b e → IsSilent g b (agps_restart w e)
  unfolding agps_restart
  agps_restart-IsSilent w e h = elim (Option-cases e.nifs) [
    | inl gone ↦ ground (arith, gone, h.still, h.all_given, h.has_same, h.there)
    | inr (n, there) ↦
        let dropped = record e { nifs = some (drop_subscribers n) } in
        ground (
          arith,
          there,
          agps_reinit-IsSilent w dropped (record {
            still = h.still;
            all_given = h.all_given;
            there = h.there;
            has_same = h.has_same;
          }),
        )
  ]

  resume-IsSilent : (w : World) (e : Engine) → IsSilent g b e → IsSilent g b (resume w e)
  unfolding resume start_handler inform_gps_status
  resume-IsSilent w e h = ground (arith, h.still, h.all_given, h.has_same, h.there)

  report_position-IsSilent :
      (w : World) (r : Report) (e : Engine)
      → IsSilent g b e
      → IsSilent g b (report_position_handler w r e)
  unfolding report_position_handler
  report_position-IsSilent w r e h = ground (arith, h.still, h.all_given, h.has_same, h.there)

  engine_up-IsSilent :
      (w : World) (e : Engine) → IsSilent g b e → IsSilent g b (engine_up_handler w e)
  unfolding engine_up_handler
  engine_up-IsSilent w e h =
      let up = agps_restart w (reinit 0 w e) in
      resume-IsSilent w (handle_status engine_on up) (
        handle_status-IsSilent engine_on up refl
          (agps_restart-IsSilent w (reinit 0 w e) (reinit-IsSilent 0 w e h)))

  request_ni-IsSilent :
      (n : Notif) (pass : Option ℕ) (ok : Bool) (e : Engine)
      → n.privacy_override ≡ false
      → IsSilent g b e
      → IsSilent g b (request_ni_handler n pass ok e)
  unfolding request_ni_handler loc_eng_ni_request_handler begin_session
  request_ni-IsSilent n pass ok e quiet h =
      ground (arith, h.still, h.all_given, h.has_same, h.there, quiet)

  handle-IsSilent :
      (w : World) (m : Msg) (e : Engine)
      → unmutes m ≡ false
      → IsSilent g b e
      → IsSilent (with_sentence b m g) b (handle w m e)
  unfolding handle with_nif on_nifs request_bit_handler release_bit_handler request_atl_handler
      release_atl_handler request_wifi_handler release_wifi_handler atl_open_success_handler
      atl_closed_handler atl_open_failed_handler stop_fix_handler emit report_sv_handler
  handle-IsSilent w Msg.start_fix e quiet h = start_handler-IsSilent w e h
  handle-IsSilent w Msg.stop_fix e quiet h =
      ground (arith, stop_handler-IsSilent w e h, h.still, h.all_given, h.has_same, h.there)
  handle-IsSilent w (Msg.report_position r) e quiet h = report_position-IsSilent w r e h
  handle-IsSilent w (Msg.report_status s) e quiet h = handle_status-IsSilent s e quiet h
  handle-IsSilent w Msg.engine_up e quiet h = engine_up-IsSilent w e h
  handle-IsSilent w Msg.engine_down e quiet h = ground arith
  handle-IsSilent w (Msg.request_ni n pass ok) e quiet h = request_ni-IsSilent n pass ok e quiet h
  handle-IsSilent w m e quiet h = ground (arith, h.still, h.all_given, h.has_same, h.there)

  settle_stop-IsSilent :
      (w : World) (m : Msg) (e : Engine) → IsSilent g b e → IsSilent g b (settle_stop w m e)
  unfolding settle_stop stop_handler inform_gps_status
  settle_stop-IsSilent w m e h = ground (arith, h.still, h.all_given, h.has_same, h.there)

  settle_aiding-IsSilent : (e : Engine) → IsSilent g b e → IsSilent g b (settle_aiding e)
  unfolding settle_aiding
  settle_aiding-IsSilent e h = ground (arith, h.still, h.all_given, h.has_same, h.there)

round-IsSilent :
    {g : List Effect} {b : Bool} (w : World) (m : Msg) (e : Engine)
    → unmutes m ≡ false
    → IsSilent g b e
    → IsSilent (with_sentence b m g) b (round w m e)
unfolding round
round-IsSilent w m e quiet h =
    let handled = handle w m e in
    let silent = handle-IsSilent w m e quiet h in
    ground (
      arith,
      h.still,
      h.all_given,
      h.has_same,
      h.there,
      silent.still,
      silent.all_given,
      silent.has_same,
      silent.there,
      settle_aiding-IsSilent (settle_stop w m handled) (settle_stop-IsSilent w m handled silent),
    )

-- The thread's rounds on some messages.
abbrev pub rounds : List (World × Msg) → Engine → Engine
rounds [] e = e
rounds ((w, m) ∷ ms) e = rounds ms (round w m e)

abbrev pub NoneUnmutes : List (World × Msg) → Type 0
NoneUnmutes [] = Unit
NoneUnmutes ((w, m) ∷ ms) = (unmutes m ≡ false) × NoneUnmutes ms

rounds-from-IsSilent :
    (ms : List (World × Msg)) (given : List Effect) (has : Bool) (e : Engine)
    → NoneUnmutes ms
    → IsSilent given has e
    → IsSilent (modem_sentences has ms given) has (rounds ms e)
rounds-from-IsSilent [] given has e quiet h = h
rounds-from-IsSilent ((w, m) ∷ ms) given has e quiet h =
    rounds-from-IsSilent ms (with_sentence has m given) has (round w m e) quiet.1
      (round-IsSilent w m e quiet.0 h)

-- While an engine's session is muted, and until a status ends it, the modem goes down or another request
-- overrides privacy, the session stays muted, and the messages give the framework no position and no
-- satellites, and of sentences none but the modem's own: each of these that is reported is handed on
-- although the session is muted, in order, where `nmea_cb` is set.
pub rounds-silent :
    (ms : List (World × Msg)) (e : Engine)
    → e.context ≡ true
    → e.mute_session_state ≡ mute_in_session
    → NoneUnmutes ms
    → ((rounds ms e).mute_session_state ≡ mute_in_session)
      × (keep_if is_position (rounds ms e).effects
          ≡ modem_sentences e.callbacks.has_nmea ms (keep_if is_position e.effects))
rounds-silent ms e there muted quiet =
    let h =
      rounds-from-IsSilent ms (keep_if is_position e.effects) e.callbacks.has_nmea e quiet
        (record { still = muted; all_given = refl; there = there; has_same = refl }) in
    (h.still, h.all_given)
