-- ===== src/Engine/Told.antt =====
-- What the framework is told of sessions.
use device_samsung_msm8660_c.Common.{
  ℕ, zero, suc, ◌+◌, Bool, true, false, Option, none, some, List, [], ◌∷◌, ◌≡◌, arith, Bool-cases,
  Option-cases, inl, inr,
}
use device_samsung_msm8660_c.Agps.Types.{Text}
use device_samsung_msm8660_c.NiSession.{
  Notif, loc_eng_ni_request_handler, loc_eng_ni_reset_on_engine_restart, begin_session,
}
use device_samsung_msm8660_c.Engine.Types.{
  Report, GpsStatus, session_begin, session_end, engine_on, engine_off, Msg, Engine, World, Effect,
  status_cb,
}
use device_samsung_msm8660_c.Engine.Session.{
  post, emit, inform_gps_status, start_handler, stop_handler, handle_status, reportable,
}
use device_samsung_msm8660_c.Engine.Server.{set_server, agps_reinit, reinit}
use device_samsung_msm8660_c.Engine.Connections.{
  with_nif, on_nifs, request_bit_handler, release_bit_handler, request_atl_handler,
  release_atl_handler, request_wifi_handler, release_wifi_handler, atl_open_success_handler,
  atl_closed_handler, atl_open_failed_handler, drop_subscribers,
}
use device_samsung_msm8660_c.Engine.Reports.{report_position_handler, report_sv_handler}
use device_samsung_msm8660_c.Engine.Handler.{
  handle, round, request_ni_handler, engine_down_handler, engine_up_handler, stop_fix_handler,
  settle_stop, settle_aiding, agps_restart, resume,
}
use device_samsung_msm8660_c.Engine.Server.{
  cleared, saved_callbacks, new_nifs, reinit_loop, loc_eng_init, loc_eng_agps_init,
  set_server_proxy, save_server,
}
use device_samsung_msm8660_c.Engine.Types.{Config, Callbacks, ServerType}
use device_samsung_msm8660_c.Engine.Api.{
  Event, init, agps_init, server, take_message, step, run, take_round, post_checked, post_ulp,
  loc_eng_start, loc_eng_stop, loc_eng_cleanup, loc_eng_agps_open, loc_eng_agps_closed,
  loc_eng_agps_open_failed, loc_eng_agps_ril_update, loc_eng_ulp_init, post_ulp_checked,
  loc_eng_ulp_send_network_position, loc_eng_ulp_phone_context_settings_update, ni_leave,
}

-- What the framework was last told of a session: that it begins, or that it ends.
abbrev pub last_told : List Effect → Option GpsStatus
last_told [] = none
last_told (status_cb session_begin ∷ fs) = some session_begin
last_told (status_cb session_end ∷ fs) = some session_end
last_told (_ ∷ fs) = last_told fs

-- The framework knows of a session in progress.
pub record IsTold (e : Engine) : Type 0 where
  pub begin_told :
      e.callbacks.has_status ≡ true → e.navigating ≡ true → last_told e.effects ≡ some session_begin

start_handler-IsTold : (w : World) (e : Engine) → IsTold e → IsTold (start_handler w e)
unfolding start_handler inform_gps_status
start_handler-IsTold w e h = ground arith

stop_handler-IsTold : (w : World) (e : Engine) → IsTold e → IsTold (stop_handler w e)
unfolding stop_handler inform_gps_status
stop_handler-IsTold w e h = ground arith

handle_status-IsTold : (s : GpsStatus) (e : Engine) → IsTold e → IsTold (handle_status s e)
unfolding handle_status inform_gps_status reportable
handle_status-IsTold session_end e h = elim (Bool-cases e.navigating) [
  | inl going ↦ ground (arith, going, h.begin_told)
  | inr over ↦ ground (arith, over)
]
handle_status-IsTold _ e h = ground (arith, h.begin_told)

agps_reinit-IsTold : (w : World) (e : Engine) → IsTold e → IsTold (agps_reinit w e)
unfolding agps_reinit set_server
agps_reinit-IsTold w e h = ground arith

reinit-IsTold : (n : ℕ) (w : World) (e : Engine) → IsTold e → IsTold (reinit n w e)
unfolding reinit
reinit-IsTold n w e h = ground arith

agps_restart-IsTold : (w : World) (e : Engine) → IsTold e → IsTold (agps_restart w e)
unfolding agps_restart
agps_restart-IsTold w e h = elim (Option-cases e.nifs) [
  | inl gone ↦ ground (arith, gone)
  | inr (n, there) ↦
      let dropped = record e { nifs = some (drop_subscribers n) } in
      ground (arith, there, agps_reinit-IsTold w dropped (record { begin_told = h.begin_told }))
]

resume-IsTold : (w : World) (e : Engine) → IsTold e → IsTold (resume w e)
unfolding resume start_handler inform_gps_status
resume-IsTold w e h = ground arith

report_position-IsTold :
    (w : World) (r : Report) (e : Engine) → IsTold e → IsTold (report_position_handler w r e)
unfolding report_position_handler
report_position-IsTold w r e h = ground arith

engine_up-IsTold : (w : World) (e : Engine) → IsTold e → IsTold (engine_up_handler w e)
unfolding engine_up_handler
engine_up-IsTold w e h =
    let up = agps_restart w (reinit 0 w e) in
    resume-IsTold w (handle_status engine_on up) (
      handle_status-IsTold engine_on up
        (agps_restart-IsTold w (reinit 0 w e) (reinit-IsTold 0 w e h)))

request_ni-IsTold :
    (n : Notif) (pass : Option ℕ) (ok : Bool) (e : Engine)
    → IsTold e
    → IsTold (request_ni_handler n pass ok e)
unfolding request_ni_handler loc_eng_ni_request_handler begin_session
request_ni-IsTold n pass ok e h = ground (arith)

handle-IsTold : (w : World) (m : Msg) (e : Engine) → IsTold e → IsTold (handle w m e)
unfolding handle engine_down_handler with_nif on_nifs request_bit_handler release_bit_handler
    request_atl_handler release_atl_handler request_wifi_handler release_wifi_handler
    atl_open_success_handler atl_closed_handler atl_open_failed_handler stop_fix_handler emit
    report_sv_handler
handle-IsTold w Msg.start_fix e h = start_handler-IsTold w e h
handle-IsTold w Msg.stop_fix e h = ground (arith, stop_handler-IsTold w e h)
handle-IsTold w (Msg.report_position r) e h = report_position-IsTold w r e h
handle-IsTold w (Msg.report_status s) e h = handle_status-IsTold s e h
handle-IsTold w Msg.engine_up e h = engine_up-IsTold w e h
handle-IsTold w Msg.engine_down e h =
    handle_status-IsTold engine_off (record e { ni = loc_eng_ni_reset_on_engine_restart e.ni })
      (record { begin_told = h.begin_told })
handle-IsTold w (Msg.request_ni n pass ok) e h = request_ni-IsTold n pass ok e h
handle-IsTold w m e h = ground arith

settle_stop-IsTold : (w : World) (m : Msg) (e : Engine) → IsTold e → IsTold (settle_stop w m e)
unfolding settle_stop stop_handler inform_gps_status
settle_stop-IsTold w m e h = ground arith

settle_aiding-IsTold : (e : Engine) → IsTold e → IsTold (settle_aiding e)
unfolding settle_aiding
settle_aiding-IsTold e h = ground arith

round-IsTold : (w : World) (m : Msg) (e : Engine) → IsTold e → IsTold (round w m e)
unfolding round
round-IsTold w m e h =
    let handled = handle w m e in
    let silent = handle-IsTold w m e h in
    ground (
      arith,
      silent.begin_told,
      settle_aiding-IsTold (settle_stop w m handled) (settle_stop-IsTold w m handled silent),
    )

set_server-IsTold :
    (w : World) (t : ServerType) (host : Text) (port : ℕ) (e : Engine)
    → IsTold e
    → IsTold (set_server w t host port e).1
unfolding set_server
set_server-IsTold w t host port e h = ground (arith, h.begin_told)

server-IsTold :
    (w : World) (t : ServerType) (host : Text) (port : ℕ) (e : Engine)
    → IsTold e
    → IsTold (set_server_proxy w t host port e).1
unfolding set_server_proxy save_server
server-IsTold w t host port e h = ground (arith, h.begin_told, set_server-IsTold w t host port e h)

reinit_loop-IsTold :
    (tries n : ℕ) (w : World) (e : Engine) → IsTold e → IsTold (reinit_loop tries n w e)
unfolding reinit_loop
reinit_loop-IsTold zero n w e h = h
reinit_loop-IsTold (suc tries) n w e h =
    let once = reinit-IsTold n w e h in
    ground (arith, once, reinit_loop-IsTold tries (n + 1) w (reinit n w e) once)

opened-IsTold :
    (cs : Callbacks) (nmea context : Bool) (e : Engine)
    → IsTold (record (saved_callbacks cs nmea e) { context = context })
unfolding saved_callbacks
opened-IsTold cs nmea context e = ground arith

init-IsTold :
    (w : World) (cs : Callbacks) (nmea adapter_ok : Bool) (tries : ℕ) (e : Engine)
    → IsTold e
    → IsTold (loc_eng_init w cs nmea adapter_ok tries e)
unfolding loc_eng_init
init-IsTold w cs nmea adapter_ok tries e h =
    let opened = record (saved_callbacks cs nmea e) { context = true } in
    ground (
      arith,
      h.begin_told,
      (opened-IsTold cs nmea false e).begin_told,
      reinit_loop-IsTold tries 0 w opened (opened-IsTold cs nmea true e),
    )

agps_init-IsTold :
    (w : World) (b1 b2 b3 : ℕ) (e : Engine) → IsTold e → IsTold (loc_eng_agps_init w b1 b2 b3 e)
unfolding loc_eng_agps_init
agps_init-IsTold w b1 b2 b3 e h =
    let ready = record e { nifs = some (new_nifs b1 b2 b3) } in
    ground (arith, h.begin_told, agps_reinit-IsTold w ready (record { begin_told = h.begin_told }))

take-IsTold : (w : World) (ms : List Msg) (e : Engine) → IsTold e → IsTold (take_round w ms e)
unfolding take_round
take-IsTold w [] e h = h
take-IsTold w (m ∷ ms) e h =
    let taken = record e { deferred_q = ms } in
    ground (arith, h.begin_told, round-IsTold w m taken (record { begin_told = h.begin_told }))

step-IsTold : (w : World) (v : Event) (e : Engine) → IsTold e → IsTold (step w v e)
unfolding step post_checked post_ulp loc_eng_start loc_eng_stop loc_eng_cleanup loc_eng_agps_open
    loc_eng_agps_closed loc_eng_agps_open_failed loc_eng_agps_ril_update loc_eng_ulp_init
    post_ulp_checked loc_eng_ulp_send_network_position loc_eng_ulp_phone_context_settings_update
    ni_leave post
step-IsTold w (init cs nmea ok) e h = init-IsTold w cs nmea ok 30 e h
step-IsTold w (agps_init b1 b2 b3) e h = agps_init-IsTold w b1 b2 b3 e h
step-IsTold w (server t host port) e h = server-IsTold w t host port e h
step-IsTold w take_message e h = take-IsTold w e.deferred_q e h
step-IsTold w _ e h = ground (arith, h.begin_told)

runs-IsTold : (vs : List (World × Event)) (e : Engine) → IsTold e → IsTold (run vs e)
unfolding run
runs-IsTold [] e h = h
runs-IsTold ((w, v) ∷ vs) e h = runs-IsTold vs (step w v e) (step-IsTold w v e h)

cleared-IsTold : (conf : Config) → IsTold (cleared conf)
unfolding cleared
cleared-IsTold conf = ground arith

-- Whatever happened since the memory was cleared: if the framework gave a status callback and the
-- engine holds a session to be in progress, then the last session status that the framework was told
-- is that a session begins, never that it ends.
pub run-IsTold :
    (conf : Config) (vs : List (World × Event))
    → (run vs (cleared conf)).callbacks.has_status ≡ true
    → (run vs (cleared conf)).navigating ≡ true
    → last_told (run vs (cleared conf)).effects ≡ some session_begin
run-IsTold conf vs = (runs-IsTold vs (cleared conf) (cleared-IsTold conf)).begin_told
