-- ===== src/Engine/Kept.antt =====
-- What handling a message leaves alone.
use device_samsung_msm8660_c.Common.{
  ◌+◌, Option-cases, inl, inr, ℕ, zero, suc, false, some, List, ◌≡◌, arith,
}
use device_samsung_msm8660_c.Engine.Types.{
  GpsStatus, engine_on, Msg, Engine, World, Report, ServerType,
}
use device_samsung_msm8660_c.Engine.Session.{
  emit, inform_gps_status, start_handler, stop_handler, handle_status,
}
use device_samsung_msm8660_c.Engine.Server.{set_server, agps_reinit, reinit, reinit_loop}
use device_samsung_msm8660_c.Engine.Connections.{
  with_nif, on_nifs, request_bit_handler, release_bit_handler, request_atl_handler,
  release_atl_handler, request_wifi_handler, release_wifi_handler, atl_open_success_handler,
  atl_closed_handler, atl_open_failed_handler, drop_subscribers,
}
use device_samsung_msm8660_c.Engine.Reports.{report_position_handler, report_sv_handler}
use device_samsung_msm8660_c.Engine.Handler.{
  handle, round, request_ni_handler, engine_down_handler, engine_up_handler, stop_fix_handler,
  settle_stop, settle_aiding, agps_restart, resume,
}

pub record Keeps (e e' : Engine) : Type 0 where
  pub same_conf : e'.conf ≡ e.conf
  pub same_context : e'.context ≡ e.context
  pub same_supl : e'.supl_host ≡ e.supl_host
  pub same_c2k : e'.c2k_host ≡ e.c2k_host
  pub same_pending : e.agps_request_pending ≡ false → e'.agps_request_pending ≡ false

pub Keeps-trans : {e e' e'' : Engine} → Keeps e e' → Keeps e' e'' → Keeps e e''
Keeps-trans h k = ground arith

inform_gps_status-Keeps : (s : GpsStatus) (e : Engine) → Keeps e (inform_gps_status s e)
unfolding inform_gps_status
inform_gps_status-Keeps s e = ground arith

start_handler-Keeps : (w : World) (e : Engine) → Keeps e (start_handler w e)
unfolding start_handler inform_gps_status
start_handler-Keeps w e = ground arith

stop_handler-Keeps : (w : World) (e : Engine) → Keeps e (stop_handler w e)
unfolding stop_handler inform_gps_status
stop_handler-Keeps w e = ground arith

handle_status-Keeps : (s : GpsStatus) (e : Engine) → Keeps e (handle_status s e)
unfolding handle_status inform_gps_status
handle_status-Keeps s e = ground arith

pub set_server-Keeps :
    (w : World) (t : ServerType) (host : List ℕ) (port : ℕ) (e : Engine)
    → Keeps e (set_server w t host port e).1
unfolding set_server
set_server-Keeps w t host port e = ground arith

report_position-Keeps :
    (w : World) (r : Report) (e : Engine) → Keeps e (report_position_handler w r e)
unfolding report_position_handler
report_position-Keeps w r e = ground arith

report_sv-Keeps : (payload : ℕ) (e : Engine) → Keeps e (report_sv_handler payload e)
unfolding report_sv_handler
report_sv-Keeps payload e = ground arith

reinit-Keeps : (n : ℕ) (w : World) (e : Engine) → Keeps e (reinit n w e)
unfolding reinit
reinit-Keeps n w e = ground arith

pub reinit_loop-Keeps : (tries n : ℕ) (w : World) (e : Engine) → Keeps e (reinit_loop tries n w e)
unfolding reinit_loop
reinit_loop-Keeps zero n w e = ground arith
reinit_loop-Keeps (suc tries) n w e =
    ground (arith, reinit-Keeps n w e, reinit_loop-Keeps tries (n + 1) w (reinit n w e))

pub agps_reinit-Keeps : (w : World) (e : Engine) → Keeps e (agps_reinit w e)
unfolding agps_reinit set_server
agps_reinit-Keeps w e = ground arith

agps_restart-Keeps : (w : World) (e : Engine) → Keeps e (agps_restart w e)
unfolding agps_restart
agps_restart-Keeps w e = elim (Option-cases e.nifs) [
  | inl e0 ↦ ground (arith, e0)
  | inr (n, e0) ↦
      ground (arith, e0, agps_reinit-Keeps w (record e { nifs = some (drop_subscribers n) }))
]

resume-Keeps : (w : World) (e : Engine) → Keeps e (resume w e)
unfolding resume start_handler inform_gps_status
resume-Keeps w e = ground arith

engine_up-Keeps : (w : World) (e : Engine) → Keeps e (engine_up_handler w e)
unfolding engine_up_handler
engine_up-Keeps w e =
    let up = agps_restart w (reinit 0 w e) in
    Keeps-trans (reinit-Keeps 0 w e) (
      Keeps-trans (agps_restart-Keeps w (reinit 0 w e)) (
        Keeps-trans (handle_status-Keeps engine_on up)
          (resume-Keeps w (handle_status engine_on up))))

engine_down-Keeps : (e : Engine) → Keeps e (engine_down_handler e)
unfolding engine_down_handler handle_status inform_gps_status
engine_down-Keeps e = ground arith

-- Whatever the message, handling it changes none of these.
pub handle-Keeps : (w : World) (m : Msg) (e : Engine) → Keeps e (handle w m e)
unfolding handle with_nif on_nifs request_bit_handler release_bit_handler request_atl_handler
    release_atl_handler request_wifi_handler release_wifi_handler atl_open_success_handler
    atl_closed_handler atl_open_failed_handler stop_fix_handler request_ni_handler emit
handle-Keeps w Msg.start_fix e = start_handler-Keeps w e
handle-Keeps w Msg.stop_fix e = ground (arith, stop_handler-Keeps w e)
handle-Keeps w (Msg.report_position r) e = report_position-Keeps w r e
handle-Keeps w (Msg.report_sv payload) e = report_sv-Keeps payload e
handle-Keeps w (Msg.report_status s) e = handle_status-Keeps s e
handle-Keeps w Msg.engine_down e = engine_down-Keeps e
handle-Keeps w Msg.engine_up e = engine_up-Keeps w e
handle-Keeps w _ e = ground arith

settle_stop-Keeps : (w : World) (m : Msg) (e : Engine) → Keeps e (settle_stop w m e)
unfolding settle_stop stop_handler inform_gps_status
settle_stop-Keeps w m e = ground arith

settle_aiding-Keeps : (e : Engine) → Keeps e (settle_aiding e)
unfolding settle_aiding
settle_aiding-Keeps e = ground arith

pub round-Keeps : (w : World) (m : Msg) (e : Engine) → Keeps e (round w m e)
unfolding round
round-Keeps w m e = ground (
  arith,
  handle-Keeps w m e,
  settle_stop-Keeps w m (handle w m e),
  settle_aiding-Keeps (settle_stop w m (handle w m e)),
)
