-- ===== src/Engine/Saved.antt =====
-- Server addresses that are set before the engine is initialised, and stops during a data call.
use device_samsung_msm8660_c.Common.{ℕ, Bool, true, false, none, some, List, [], ◌∷◌, ◌≡◌, arith}
use device_samsung_msm8660_c.Agps.Types.{Text}
use device_samsung_msm8660_c.Engine.Types.{Msg, Engine, World, Config, Callbacks, ServerType}
use device_samsung_msm8660_c.Engine.Session.{post, stop_handler}
use device_samsung_msm8660_c.Engine.Server.{
  cleared, saved_callbacks, new_nifs, loc_eng_init, loc_eng_agps_init, save_server,
  set_server_proxy, agps_reinit,
}
use device_samsung_msm8660_c.Engine.Handler.{stop_fix_handler}
use device_samsung_msm8660_c.Engine.Api.{
  Event, init, agps_init, server, take_message, step, run, take_round, post_checked, post_ulp,
  loc_eng_start, loc_eng_stop, loc_eng_cleanup, loc_eng_agps_open, loc_eng_agps_closed,
  loc_eng_agps_open_failed, loc_eng_agps_ril_update, loc_eng_ulp_init, post_ulp_checked,
  loc_eng_ulp_send_network_position, loc_eng_ulp_phone_context_settings_update, ni_leave,
}
use device_samsung_msm8660_c.Engine.Kept.{
  Keeps, round-Keeps, reinit_loop-Keeps, agps_reinit-Keeps, set_server-Keeps,
}

-- An initialised engine holds no saved address, and no data call is pending.
pub record IsClean (e : Engine) : Type 0 where
  pub no_supl : e.context ≡ true → e.supl_host ≡ none
  pub no_c2k : e.context ≡ true → e.c2k_host ≡ none
  pub no_pending : e.agps_request_pending ≡ false

Keeps-IsClean : {e e' : Engine} → Keeps e e' → IsClean e → IsClean e'
Keeps-IsClean k h = ground (arith, k.same_pending, h.no_supl, h.no_c2k)

fresh-IsClean : (cs : Callbacks) (nmea : Bool) (e : Engine) → IsClean (saved_callbacks cs nmea e)
unfolding saved_callbacks
fresh-IsClean cs nmea e = ground arith

opened-IsClean :
    (cs : Callbacks) (nmea : Bool) (e : Engine)
    → IsClean (record (saved_callbacks cs nmea e) { context = true })
unfolding saved_callbacks
opened-IsClean cs nmea e = ground arith

init-IsClean :
    (w : World) (cs : Callbacks) (nmea adapter_ok : Bool) (tries : ℕ) (e : Engine)
    → IsClean e
    → IsClean (loc_eng_init w cs nmea adapter_ok tries e)
unfolding loc_eng_init
init-IsClean w cs nmea adapter_ok tries e h =
    let fresh = saved_callbacks cs nmea e in
    let opened = record fresh { context = true } in
    ground (
      arith,
      h.no_supl,
      h.no_c2k,
      fresh-IsClean cs nmea e,
      Keeps-IsClean (reinit_loop-Keeps tries 0 w opened) (opened-IsClean cs nmea e),
    )

agps_init-IsClean :
    (w : World) (b1 b2 b3 : ℕ) (e : Engine) → IsClean e → IsClean (loc_eng_agps_init w b1 b2 b3 e)
unfolding loc_eng_agps_init
agps_init-IsClean w b1 b2 b3 e h =
    let ready = record e { nifs = some (new_nifs b1 b2 b3) } in
    ground (
      arith,
      h.no_supl,
      h.no_c2k,
      Keeps-IsClean (agps_reinit-Keeps w ready)
          (record { no_supl = h.no_supl; no_c2k = h.no_c2k; no_pending = h.no_pending }),
    )

server-IsClean :
    (w : World) (t : ServerType) (host : Text) (port : ℕ) (e : Engine)
    → IsClean e
    → IsClean (set_server_proxy w t host port e).1
unfolding set_server_proxy save_server
server-IsClean w t host port e h =
    ground (arith, h.no_supl, h.no_c2k, set_server-Keeps w t host port e)

take-IsClean : (w : World) (ms : List Msg) (e : Engine) → IsClean e → IsClean (take_round w ms e)
unfolding take_round
take-IsClean w [] e h = h
take-IsClean w (m ∷ ms) e h =
    let taken = record e { deferred_q = ms } in
    ground (arith, h.no_supl, h.no_c2k, Keeps-IsClean (round-Keeps w m taken))

step-IsClean : (w : World) (v : Event) (e : Engine) → IsClean e → IsClean (step w v e)
unfolding step post_checked post_ulp loc_eng_start loc_eng_stop loc_eng_cleanup loc_eng_agps_open
    loc_eng_agps_closed loc_eng_agps_open_failed loc_eng_agps_ril_update loc_eng_ulp_init
    post_ulp_checked loc_eng_ulp_send_network_position loc_eng_ulp_phone_context_settings_update
    ni_leave post
step-IsClean w (init cs nmea ok) e h = init-IsClean w cs nmea ok 30 e h
step-IsClean w (agps_init b1 b2 b3) e h = agps_init-IsClean w b1 b2 b3 e h
step-IsClean w (server t host port) e h = server-IsClean w t host port e h
step-IsClean w take_message e h = take-IsClean w e.deferred_q e h
step-IsClean w _ e h = ground (arith, h.no_supl, h.no_c2k)

pub run-IsClean : (vs : List (World × Event)) (e : Engine) → IsClean e → IsClean (run vs e)
unfolding run
run-IsClean [] e h = h
run-IsClean ((w, v) ∷ vs) e h = run-IsClean vs (step w v e) (step-IsClean w v e h)

cleared-IsClean : (conf : Config) → IsClean (cleared conf)
unfolding cleared
cleared-IsClean conf = ground arith

agps_reinit-clean :
    (w : World) (e : Engine) → e.supl_host ≡ none → e.c2k_host ≡ none → agps_reinit w e ≡ e
unfolding agps_reinit
agps_reinit-clean w e no_supl no_c2k = ground arith

-- Whatever happened since the memory was cleared, the (re)initialisation of AGPS in an initialised
-- engine sets no server: an address given before `loc_eng_init` is lost.
pub run-agps_reinit :
    (conf : Config) (vs : List (World × Event)) (w : World)
    → (run vs (cleared conf)).context ≡ true
    → agps_reinit w (run vs (cleared conf)) ≡ run vs (cleared conf)
run-agps_reinit conf vs w ready =
    let clean = run-IsClean vs (cleared conf) (cleared-IsClean conf) in
    agps_reinit-clean w (run vs (cleared conf)) (clean.no_supl ready) (clean.no_c2k ready)

stop_fix-clean :
    (w : World) (e : Engine)
    → e.agps_request_pending ≡ false
    → stop_fix_handler w e ≡ stop_handler w e
unfolding stop_fix_handler
stop_fix-clean w e no_pending = ground arith

-- Whatever happened since the memory was cleared, a stop is not deferred: it ends the session at once,
-- also while a data call for AGPS is open.
pub run-stop_fix_handler :
    (conf : Config) (vs : List (World × Event)) (w : World)
    → stop_fix_handler w (run vs (cleared conf)) ≡ stop_handler w (run vs (cleared conf))
run-stop_fix_handler conf vs w =
    stop_fix-clean w (run vs (cleared conf))
      (run-IsClean vs (cleared conf) (cleared-IsClean conf)).no_pending
