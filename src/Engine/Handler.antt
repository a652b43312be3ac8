-- ===== src/Engine/Handler.antt =====
-- `loc_eng_deferred_action_thread`: the `switch` on a message, and what follows it.
use Prim.Native.Nat.{bit_or}
use device_samsung_msm8660_c.Common.{
  ℕ, Bool, true, false, ◌&&◌, not, Option, none, some, ◌==◌, if◌then◌else◌,
}
use device_samsung_msm8660_c.NiSession.{
  Notif, loc_eng_ni_request_handler, loc_eng_ni_reset_on_engine_restart,
}
use device_samsung_msm8660_c.Engine.Types.{
  GpsStatus, engine_on, engine_off, Msg, Effect, give, adapter_position_mode_null,
  adapter_server_ipv4, adapter_server_url, adapter_inform_ni, adapter_enable_data, adapter_apn,
  adapter_delete_aiding, nmea_cb, xtra_download_cb, time_cb, network_cb, phone_context_cb, Engine,
  World,
}
use device_samsung_msm8660_c.Engine.Session.{
  emit, start_handler, stop_handler, mute_one_session, handle_status,
}
use device_samsung_msm8660_c.Engine.Server.{agps_reinit, reinit}
use device_samsung_msm8660_c.Engine.Connections.{
  request_bit_handler, release_bit_handler, request_atl_handler, release_atl_handler,
  request_wifi_handler, release_wifi_handler, atl_open_success_handler, atl_closed_handler,
  atl_open_failed_handler, drop_subscribers,
}
use device_samsung_msm8660_c.Engine.Reports.{report_position_handler, report_sv_handler}

-- `loc_eng_ni_request_handler` on the engine: a request that overrides privacy mutes a session.
unfoldable pub request_ni_handler : Notif → Option ℕ → Bool → Engine → Engine
unfolding mute_one_session
request_ni_handler n pass thread_ok e =
    let ni' = loc_eng_ni_request_handler n pass thread_ok (record e.ni { muted = false }) in
    let e' = record e { ni = ni' } in if ni'.muted then mute_one_session e' else e'

unfoldable pub engine_down_handler : Engine → Engine
engine_down_handler e =
    handle_status engine_off (record e { ni = loc_eng_ni_reset_on_engine_restart e.ni })

-- The machines are cleared, and the saved servers set again, where AGPS is initialised.
unfoldable pub agps_restart : World → Engine → Engine
agps_restart w e = elim e.nifs [
  | none ↦ e
  | some n ↦ agps_reinit w (record e { nifs = some (drop_subscribers n) })
]

-- A session that was going on is started again.
unfoldable pub resume : World → Engine → Engine
unfolding emit
resume w e =
    let again = record (emit adapter_position_mode_null e) { navigating = false } in
    if e.navigating then start_handler w again else e

unfoldable pub engine_up_handler : World → Engine → Engine
engine_up_handler w e = resume w (handle_status engine_on (agps_restart w (reinit 0 w e)))

unfoldable pub stop_fix_handler : World → Engine → Engine
stop_fix_handler w e =
    if e.agps_request_pending then record e { stop_request_pending = true } else stop_handler w e

abbrev pub emit_if : Bool → Effect → Engine → Engine
emit_if b f e = if b then emit f e else e

-- The `switch`.
unfoldable pub handle : World → Msg → Engine → Engine
handle w Msg.quit e = record e { running = false }
handle w Msg.start_fix e = start_handler w e
handle w Msg.stop_fix e = stop_fix_handler w e
handle w (Msg.request_ni n pass ok) e = request_ni_handler n pass ok e
handle w (Msg.inform_ni_response i) e = emit (adapter_inform_ni i) e
handle w (Msg.setting s payload) e = emit (give s payload) e
handle w (Msg.set_server_ipv4 ip port type) e = emit (adapter_server_ipv4 ip port type) e
handle w (Msg.set_server_url url) e = emit (adapter_server_url url) e
handle w (Msg.report_position r) e = report_position_handler w r e
handle w (Msg.report_sv payload) e = report_sv_handler payload e
handle w (Msg.report_status s) e = handle_status s e
handle w (Msg.report_nmea payload) e = emit_if e.callbacks.has_nmea (nmea_cb payload) e
handle w (Msg.request_bit type ipv4 ipv6 a) e = request_bit_handler type ipv4 ipv6 a e
handle w (Msg.release_bit type ipv4 ipv6) e = release_bit_handler type ipv4 ipv6 e
handle w (Msg.request_atl id type junk a) e = request_atl_handler id type junk a e
handle w (Msg.release_atl id junk) e = release_atl_handler id junk e
handle w (Msg.request_wifi s ssid pass id junk a) e = request_wifi_handler s ssid pass id junk a e
handle w (Msg.release_wifi ssid pass id junk) e = release_wifi_handler ssid pass id junk e
handle w Msg.request_xtra_data e = emit_if e.has_xtra xtra_download_cb e
handle w Msg.request_time e = emit_if e.callbacks.has_time time_cb e
handle w Msg.request_position e = e
handle w (Msg.delete_aiding_data mask) e = record e {
  aiding_data_for_deletion = bit_or e.aiding_data_for_deletion mask;
}
handle w (Msg.enable_data enable apn) e =
    emit (adapter_apn apn) (emit (adapter_enable_data enable) e)
handle w (Msg.atl_open_success type apn len b) e = atl_open_success_handler type apn len b e
handle w (Msg.atl_closed type) e = atl_closed_handler type e
handle w (Msg.atl_open_failed type) e = atl_open_failed_handler type e
handle w Msg.engine_down e = engine_down_handler e
handle w Msg.engine_up e = engine_up_handler w e
handle w (Msg.request_network_position payload) e = emit_if e.has_network (network_cb payload) e
handle w (Msg.request_phone_context payload) e =
    emit_if e.has_phone_context (phone_context_cb payload) e
handle w Msg.unsupported e = e

-- The messages that say that a data call is over.
abbrev pub ends_data_call : Msg → Bool
ends_data_call (Msg.atl_open_success type apn len b) = true
ends_data_call (Msg.atl_closed type) = true
ends_data_call (Msg.atl_open_failed type) = true
ends_data_call _ = false

abbrev pub is_on : GpsStatus → Bool
is_on engine_on = true
is_on _ = false

abbrev pub is_quit : Msg → Bool
is_quit Msg.quit = true
is_quit _ = false

-- A deferred stop is made when a data call is over.
unfoldable pub settle_stop : World → Msg → Engine → Engine
settle_stop w m e =
    let over = record e { agps_request_pending = false } in
    let settled =
      if ends_data_call m
      then if e.stop_request_pending then stop_handler w over else over
      else e in
    record settled { stop_request_pending = false }

-- Aiding data is deleted while the engine is not on.
unfoldable pub settle_aiding : Engine → Engine
unfolding emit
settle_aiding e =
    let deleted = emit (adapter_delete_aiding e.aiding_data_for_deletion) e in
    if not (is_on e.engine_status) && not (e.aiding_data_for_deletion == 0)
    then record deleted { aiding_data_for_deletion = 0 }
    else e

-- One round of the loop, with the message taken; the thread returns after `quit`, and where the
-- instance has been cleaned up.
unfoldable pub round : World → Msg → Engine → Engine
round w m e =
    let handled = handle w m e in
    if not e.context
    then record e { running = false }
    else if is_quit m
    then handled
    else if handled.crashed
    then handled
    else settle_aiding (settle_stop w m handled)
