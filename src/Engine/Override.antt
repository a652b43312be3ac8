-- ===== src/Engine/Override.antt =====
-- A request that overrides privacy, in a session that is muted already.
use device_samsung_msm8660_c.Common.{
  ℕ, Bool, true, false, Option, none, some, ◌∷◌, ◌≡◌, arith, keep_if,
}
use device_samsung_msm8660_c.NiSession.{Notif, loc_eng_ni_request_handler, begin_session}
use device_samsung_msm8660_c.Engine.Types.{
  Report, sess_success, Effect, location_cb, Engine, World, mute_wait, mute_in_session,
}
use device_samsung_msm8660_c.Engine.Session.{emit, mute_one_session}
use device_samsung_msm8660_c.Engine.Reports.{
  report_position_handler, location_report, acceptable, end_single_shot,
}
use device_samsung_msm8660_c.Engine.Handler.{request_ni_handler}

abbrev pub is_fix : Effect → Bool
is_fix (location_cb fix) = true
is_fix _ = false

request_ni-waits :
    (n : Notif) (pass : Option ℕ) (ok : Bool) (e : Engine)
    → n.privacy_override ≡ true
    → e.ni.ni_notify_cb ≡ true
    → e.ni.raw_request ≡ none
    → (request_ni_handler n pass ok e).mute_session_state ≡ mute_wait
unfolding request_ni_handler loc_eng_ni_request_handler begin_session mute_one_session
request_ni-waits n pass ok e override ready idle = ground (arith, override, ready, idle)

request_ni-effects :
    (n : Notif) (pass : Option ℕ) (ok : Bool) (e : Engine)
    → (request_ni_handler n pass ok e).effects ≡ e.effects
unfolding request_ni_handler mute_one_session
request_ni-effects n pass ok e = ground arith

request_ni-callbacks :
    (n : Notif) (pass : Option ℕ) (ok : Bool) (e : Engine)
    → (request_ni_handler n pass ok e).callbacks ≡ e.callbacks
unfolding request_ni_handler mute_one_session
request_ni-callbacks n pass ok e = ground arith

waiting-told :
    (w : World) (r : Report) (e : Engine)
    → e.mute_session_state ≡ mute_wait
    → e.callbacks.has_location ≡ true
    → r.status ≡ sess_success
    → r.satellite ≡ true
    → keep_if is_fix (report_position_handler w r e).effects
      ≡ location_cb (some r.fix) ∷ keep_if is_fix e.effects
unfolding report_position_handler location_report acceptable end_single_shot emit
waiting-told w r e waits has_cb good satellite = ground (arith, waits, has_cb, good, satellite)

-- When a request that overrides privacy is taken, the session is waited for that shall be muted, also
-- where one is muted already: if the framework gave a location callback, the next report of a
-- successful satellite fix is given to it, although both requests asked for silence.
pub override-unmutes :
    (w : World) (n : Notif) (pass : Option ℕ) (ok : Bool) (r : Report) (e : Engine)
    → n.privacy_override ≡ true
    → e.ni.ni_notify_cb ≡ true
    → e.ni.raw_request ≡ none
    → e.mute_session_state ≡ mute_in_session
    → e.callbacks.has_location ≡ true
    → r.status ≡ sess_success
    → r.satellite ≡ true
    → keep_if is_fix (report_position_handler w r (request_ni_handler n pass ok e)).effects
      ≡ location_cb (some r.fix) ∷ keep_if is_fix e.effects
override-unmutes w n pass ok r e override ready idle muted has_cb good satellite = grind (
  arith,
  request_ni-waits n pass ok e override ready idle,
  request_ni-effects n pass ok e,
  request_ni-callbacks n pass ok e,
  waiting-told w r (request_ni_handler n pass ok e),
)
