-- ===== src/Engine/Reports.antt =====
-- Reports of positions and satellites, in `loc_eng_deferred_action_thread`.
use device_samsung_msm8660_c.Common.{
  ℕ, Bool, true, false, ◌&&◌, ◌||◌, not, Option, none, some, ◌==◌, if◌then◌else◌,
}
use device_samsung_msm8660_c.Engine.Types.{
  SessStatus, sess_success, sess_intermediate, sess_failure, Source, hybrid, gnss, Report,
  location_cb, adapter_stop_fix, nmea_of_position, free_raw_data, sv_cb, nmea_of_sv, Engine, World,
}
use device_samsung_msm8660_c.Engine.Session.{emit, is_muted}

abbrev pub is_success : SessStatus → Bool
is_success sess_success = true
is_success _ = false

abbrev pub is_intermediate : SessStatus → Bool
is_intermediate sess_intermediate = true
is_intermediate _ = false

abbrev pub is_failure : SessStatus → Bool
is_failure sess_failure = true
is_failure _ = false

abbrev pub is_hybrid : Source → Bool
is_hybrid hybrid = true
is_hybrid _ = false

abbrev pub is_gnss : Source → Bool
is_gnss gnss = true
is_gnss _ = false

-- The condition under which a fix that is no failure is reported: it is good, or intermediate fixes
-- are wanted (1 is `LOC_SESS_INTERMEDIATE`) and the accuracy is not beyond what is tolerated.
unfoldable pub acceptable : Report → Engine → Bool
acceptable r e =
    (is_success r.status
      && ((r.has_source_info && is_hybrid r.position_source) || (r.satellite || r.sensors)))
    || ((e.intermediate_fix == 1)
        && not (
            r.has_accuracy
            && (not (e.conf.accuracy_thres == 0) && r.exceeds e.conf.accuracy_thres)))

-- What `location_cb` is called with, if it is called.
unfoldable pub location_report : Report → Engine → Option (Option ℕ)
unfolding acceptable
location_report r e =
    if not e.callbacks.has_location
    then none
    else if is_failure r.status
    then some none
    else if acceptable r e
    then some (some r.fix)
    else none

-- After a report of a single shot the session is over.
unfoldable pub end_single_shot : World → Report → Engine → Engine
unfolding emit
end_single_shot w r e =
    if w.single_shot
    then record (if is_intermediate r.status then emit adapter_stop_fix e else e) {
      navigating = false;
    }
    else e

abbrev pub told_location : World → Report → Option (Option ℕ) → Engine → Engine
told_location w r none e = e
told_location w r (some fix) e = end_single_shot w r (emit (location_cb fix) e)

unfoldable pub report_position_handler : World → Report → Engine → Engine
unfolding emit location_report end_single_shot
report_position_handler w r e =
    let told = told_location w r (location_report r e) e in
    let nmea =
      if e.generate_nmea && is_gnss r.position_source
      then emit (nmea_of_position r.fix) told
      else told in
    let freed = if r.raw_data then emit (free_raw_data r.fix) nmea else nmea in
    if is_muted e.mute_session_state then e else freed

unfoldable pub report_sv_handler : ℕ → Engine → Engine
unfolding emit
report_sv_handler payload e =
    let told = if e.callbacks.has_sv then emit (sv_cb payload) e else e in
    let nmea = if e.generate_nmea then emit (nmea_of_sv payload) told else told in
    if is_muted e.mute_session_state then e else nmea
