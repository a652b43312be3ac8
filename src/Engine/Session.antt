-- ===== src/Engine/Session.antt =====
-- Sessions: `loc_inform_gps_status`, `loc_eng_start_handler`, `loc_eng_stop_handler`,
-- `loc_eng_mute_one_session` and `loc_eng_report_status` of loc_eng.cpp.
use device_samsung_msm8660_c.Common.{Bool, true, false, ◌&&◌, not, [], ◌∷◌, ◌++◌, if◌then◌else◌}
use device_samsung_msm8660_c.Engine.Types.{
  GpsStatus, no_status, session_begin, session_end, engine_on, engine_off, Mute, mute_none,
  mute_wait, mute_in_session, AdapterErr, success, engine_down_err, other_err, Effect,
  adapter_start_fix, adapter_stop_fix, status_cb, Engine, World, Msg,
}

-- `msg_q_snd` to the deferred queue, which has memory and is not unblocked.
unfoldable pub post : Msg → Engine → Engine
post m e = record e { deferred_q = e.deferred_q ++ m ∷ [] }

unfoldable pub emit : Effect → Engine → Engine
emit f e = record e { effects = f ∷ e.effects }

unfoldable pub inform_gps_status : GpsStatus → Engine → Engine
unfolding emit
inform_gps_status status e = if e.callbacks.has_status then emit (status_cb status) e else e

-- The part of `loc_eng_start_handler` behind the call of `startFix`.
abbrev pub began : AdapterErr → Engine → Engine
began success e = inform_gps_status session_begin (record e { navigating = true })
began engine_down_err e = inform_gps_status session_begin (record e { navigating = true })
began other_err e = e

unfoldable pub start_handler : World → Engine → Engine
unfolding emit
start_handler w e = if e.navigating then e else began w.start_result (emit adapter_start_fix e)

abbrev pub ended : AdapterErr → Engine → Engine
ended success e = inform_gps_status session_end e
ended engine_down_err e = e
ended other_err e = e

unfoldable pub stop_handler : World → Engine → Engine
unfolding emit
stop_handler w e =
    let e' = ended w.stop_result (emit adapter_stop_fix e) in
    if e.navigating then record e' { navigating = false } else e

unfoldable pub mute_one_session : Engine → Engine
mute_one_session e = record e { mute_session_state = mute_wait }

-- `mute_session_state` after a status: the two changes at the head of `loc_eng_report_status`.
unfoldable pub mute_after : GpsStatus → Mute → Mute
mute_after session_begin mute_wait = mute_in_session
mute_after engine_on mute_wait = mute_in_session
mute_after session_end mute_in_session = mute_none
mute_after engine_off mute_in_session = mute_none
mute_after _ m = m

abbrev pub is_muted : Mute → Bool
is_muted mute_in_session = true
is_muted _ = false

-- Whether a status is one to be reported, by whether the session flag is set.
unfoldable pub reportable : GpsStatus → (navigating : Bool) → Bool
reportable no_status navigating = false
reportable session_end navigating = not navigating
reportable session_begin navigating = navigating
reportable engine_on navigating = true
reportable engine_off navigating = true

abbrev pub engine_status_after : GpsStatus → GpsStatus → GpsStatus
engine_status_after engine_on old = engine_on
engine_status_after engine_off old = engine_off
engine_status_after _ old = old

abbrev pub fix_status_after : GpsStatus → GpsStatus → GpsStatus
fix_status_after session_begin old = session_begin
fix_status_after session_end old = session_end
fix_status_after _ old = old

-- `loc_eng_report_status`
unfoldable pub handle_status : GpsStatus → Engine → Engine
handle_status status e =
    let muted = record e { mute_session_state = mute_after status e.mute_session_state } in
    let told =
      if reportable status e.navigating && not (is_muted muted.mute_session_state)
      then inform_gps_status status muted
      else muted in
    record told {
      engine_status = engine_status_after status e.engine_status;
      fix_session_status = fix_status_after status e.fix_session_status;
    }
