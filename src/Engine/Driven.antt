-- ===== src/Engine/Driven.antt =====
-- The machines through the engine's life.
use device_samsung_msm8660_c.Common.{
  ℕ, false, Option, some, List, [], ◌≡◌, ◌∙◌, sym, ap, subst, arith, Bool-cases, Option-cases, inl,
  inr, ◌⊎◌,
}
use device_samsung_msm8660_c.Agps.Types.{Text, bit, atl, wifi_client}
use device_samsung_msm8660_c.Agps.Machine.{Alloc, set_apn, set_bearer}
use device_samsung_msm8660_c.Agps.States.{grant, release, deny, on_rsrc_event, subscribe_rsrc}
use device_samsung_msm8660_c.Engine.Types.{
  GpsStatus, engine_on, Msg, agnss, internet, wifi, Engine, World, IfType, if_supl, if_any,
  if_other, Sender, other_sender,
}
use device_samsung_msm8660_c.Engine.Session.{
  emit, inform_gps_status, start_handler, stop_handler, handle_status,
}
use device_samsung_msm8660_c.Engine.Server.{set_server, agps_reinit, reinit}
use device_samsung_msm8660_c.Engine.Connections.{
  map_nifs, on_nifs, release_atl_nifs, on_stack, request_bit_handler, release_bit_handler,
  request_atl_handler, release_atl_handler, request_wifi_handler, release_wifi_handler,
  atl_open_success_handler, atl_closed_handler, atl_open_failed_handler, drop_subscribers,
  unsubscribed, atl_nif, answer_nif, compatible,
}
use device_samsung_msm8660_c.Engine.Reports.{report_position_handler, report_sv_handler}
use device_samsung_msm8660_c.Engine.Handler.{
  handle, round, request_ni_handler, engine_down_handler, engine_up_handler, stop_fix_handler,
  settle_stop, settle_aiding, agps_restart, resume,
}
use device_samsung_msm8660_c.Engine.Machines.{
  MachinesCalled, MachinesCalled-refl, with_nif-Called, map_nifs-called, subscribe-Called,
  unsubscribe-Called, grant-Called, release-Called, deny-Called, drop-NifsCalled,
  release_atl_nifs-called,
}

module _ (e : Engine) where
  pub same-called : (e' : Engine) → e'.nifs ≡ e.nifs → MachinesCalled e.nifs e'.nifs
  same-called e' same = subst (λ o. MachinesCalled e.nifs o) (sym same) (MachinesCalled-refl e.nifs)

  request_bit-called :
      (t : IfType) (v4 : ℕ) (v6 : List ℕ) (a : Alloc)
      → MachinesCalled e.nifs (request_bit_handler t v4 v6 a e).nifs
  unfolding request_bit_handler
  request_bit-called if_supl v4 v6 a =
      with_nif-Called agnss (subscribe_rsrc a (on_stack v4 v6 [] bit)) e
        (λ m. subscribe-Called m a (on_stack v4 v6 [] bit))
  request_bit-called if_any v4 v6 a =
      with_nif-Called internet (subscribe_rsrc a (on_stack v4 v6 [] bit)) e
        (λ m. subscribe-Called m a (on_stack v4 v6 [] bit))
  request_bit-called if_other v4 v6 a = MachinesCalled-refl e.nifs

  release_bit-called :
      (t : IfType) (v4 : ℕ) (v6 : List ℕ)
      → MachinesCalled e.nifs (release_bit_handler t v4 v6 e).nifs
  unfolding release_bit_handler
  release_bit-called if_supl v4 v6 =
      with_nif-Called agnss (unsubscribed (on_stack v4 v6 [] bit)) e
        (λ m. unsubscribe-Called m (on_stack v4 v6 [] bit))
  release_bit-called if_any v4 v6 =
      with_nif-Called internet (unsubscribed (on_stack v4 v6 [] bit)) e
        (λ m. unsubscribe-Called m (on_stack v4 v6 [] bit))
  release_bit-called if_other v4 v6 = MachinesCalled-refl e.nifs

  request_wifi-called :
      (s : Sender) (ssid pass : Option Text) (id : ℕ) (junk : List ℕ) (a : Alloc)
      → MachinesCalled e.nifs (request_wifi_handler s ssid pass id junk a e).nifs
  unfolding request_wifi_handler
  request_wifi-called other_sender ssid pass id junk a = MachinesCalled-refl e.nifs
  request_wifi-called _ ssid pass id junk a =
      let s = on_stack id [] junk (wifi_client ssid pass id false) in
      with_nif-Called wifi (subscribe_rsrc a s) e (λ m. subscribe-Called m a s)

  pub agps_reinit-nifs : (w : World) → (agps_reinit w e).nifs ≡ e.nifs
  unfolding agps_reinit set_server
  agps_reinit-nifs w = ground arith

  pub reinit-nifs : (n : ℕ) (w : World) → (reinit n w e).nifs ≡ e.nifs
  unfolding reinit
  reinit-nifs n w = ground arith

  handle_status-nifs : (s : GpsStatus) → (handle_status s e).nifs ≡ e.nifs
  unfolding handle_status inform_gps_status
  handle_status-nifs s = ground arith

  resume-nifs : (w : World) → (resume w e).nifs ≡ e.nifs
  unfolding resume start_handler inform_gps_status
  resume-nifs w = ground arith

  stop_handler-nifs : (w : World) → (stop_handler w e).nifs ≡ e.nifs
  unfolding stop_handler inform_gps_status
  stop_handler-nifs w = ground arith

  settle_stop-nifs : (w : World) (m : Msg) → (settle_stop w m e).nifs ≡ e.nifs
  unfolding settle_stop stop_handler inform_gps_status
  settle_stop-nifs w m = ground arith

  settle_aiding-nifs : (settle_aiding e).nifs ≡ e.nifs
  unfolding settle_aiding
  settle_aiding-nifs = ground arith

agps_restart-nifs :
    (w : World) (e : Engine) → (agps_restart w e).nifs ≡ map_nifs drop_subscribers e.nifs
unfolding agps_restart
agps_restart-nifs w e = elim (Option-cases e.nifs) [
  | inl gone ↦ ground (arith, gone)
  | inr (n, there) ↦
      ground (arith, there, agps_reinit-nifs (record e { nifs = some (drop_subscribers n) }) w)
]

engine_up-nifs :
    (w : World) (e : Engine) → (engine_up_handler w e).nifs ≡ map_nifs drop_subscribers e.nifs
unfolding engine_up_handler
engine_up-nifs w e =
    let up = agps_restart w (reinit 0 w e) in
    resume-nifs (handle_status engine_on up) w
    ∙ handle_status-nifs up engine_on
    ∙ agps_restart-nifs w (reinit 0 w e)
    ∙ ap (map_nifs drop_subscribers) (reinit-nifs e 0 w)

-- A message makes calls of the machines' methods only.
pub handle-called : (w : World) (m : Msg) (e : Engine) → MachinesCalled e.nifs (handle w m e).nifs
unfolding handle release_wifi_handler request_atl_handler release_atl_handler on_nifs
    atl_open_success_handler atl_closed_handler atl_open_failed_handler emit start_handler
    stop_fix_handler stop_handler inform_gps_status request_ni_handler report_position_handler
    report_sv_handler handle_status engine_down_handler
handle-called w (Msg.request_bit t v4 v6 a) e = request_bit-called e t v4 v6 a
handle-called w (Msg.release_bit t v4 v6) e = release_bit-called e t v4 v6
handle-called w (Msg.request_atl id t junk a) e =
    let s = on_stack id [] junk (atl (compatible t)) in
    with_nif-Called (atl_nif t) (subscribe_rsrc a s) e (λ m. subscribe-Called m a s)
handle-called w (Msg.release_atl id junk) e =
    let s = on_stack id [] junk (atl false) in
    map_nifs-called (release_atl_nifs s) e.nifs (release_atl_nifs-called s)
handle-called w (Msg.request_wifi s ssid pass id junk a) e =
    request_wifi-called e s ssid pass id junk a
handle-called w (Msg.release_wifi ssid pass id junk) e =
    let s = on_stack id [] junk (wifi_client ssid pass id false) in
    with_nif-Called wifi (unsubscribed s) e (λ m. unsubscribe-Called m s)
handle-called w (Msg.atl_open_success t apn len b) e =
    with_nif-Called (answer_nif t)
      (λ m. on_rsrc_event grant (set_apn (some apn) len (set_bearer b m))) e
      (λ m. grant-Called m apn len b)
handle-called w (Msg.atl_closed t) e =
    with_nif-Called (answer_nif t) (on_rsrc_event release) e release-Called
handle-called w (Msg.atl_open_failed t) e =
    with_nif-Called (answer_nif t) (on_rsrc_event deny) e deny-Called
handle-called w Msg.engine_up e =
    subst (λ o. MachinesCalled e.nifs o) (sym (engine_up-nifs w e))
      (map_nifs-called drop_subscribers e.nifs drop-NifsCalled)
handle-called w m e = same-called e (handle w m e) (ground arith)

round-nifs :
    (w : World) (m : Msg) (e : Engine)
    → ((round w m e).nifs ≡ e.nifs) ⊎ ((round w m e).nifs ≡ (handle w m e).nifs)
unfolding round
round-nifs w m e =
    let handled = handle w m e in
    elim (Bool-cases e.context) [
      | inl ready ↦ inr (
          ground (
            arith,
            ready,
            settle_stop-nifs handled w m,
            settle_aiding-nifs (settle_stop w m handled),
          ))
      | inr gone ↦ inl (ground (arith, gone))
    ]

pub round-called : (w : World) (m : Msg) (e : Engine) → MachinesCalled e.nifs (round w m e).nifs
round-called w m e = elim (round-nifs w m e) [
  | inl same ↦ same-called e (round w m e) same
  | inr same ↦ subst (λ o. MachinesCalled e.nifs o) (sym same) (handle-called w m e)
]
