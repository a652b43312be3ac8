-- ===== src/Engine/Tests.antt =====
-- The engine's theorems at a run: the interfaces are initialised, a server is set, a fix starts, a
-- request overrides privacy, the modem reports and goes down and up again.
use device_samsung_msm8660_c.Common.{◌≡◌, refl, true, false, List, [], ◌∷◌, none, some, keep_if}
use device_samsung_msm8660_c.Agps.Types.{AgpsType}
use device_samsung_msm8660_c.NiSession.{Notif, loc_eng_ni_init}
use device_samsung_msm8660_c.NiSession
use device_samsung_msm8660_c.Engine.Types.{
  Report, gnss, sess_success, session_begin, Msg, location_cb, nmea_cb, Engine, World, success,
  supl_server, Config, Callbacks, mute_in_session,
}
use device_samsung_msm8660_c.Engine.Server.{
  cleared, agps_reinit, loc_eng_init, saved_callbacks, reinit_loop, reinit, post_settings,
  loc_eng_agps_init, set_server_proxy, save_server,
}
use device_samsung_msm8660_c.Engine.Session.{
  post, emit, start_handler, stop_handler, inform_gps_status,
}
use device_samsung_msm8660_c.Engine.Reports.{report_position_handler}
use device_samsung_msm8660_c.Engine.Handler.{
  stop_fix_handler, request_ni_handler, round, handle, settle_stop, settle_aiding,
}
use device_samsung_msm8660_c.Engine.Api.{
  Event, init, agps_init, server, from_adapter, take_message, run, step, take_round,
}
use device_samsung_msm8660_c.Engine.Saved.{run-agps_reinit, run-stop_fix_handler}
use device_samsung_msm8660_c.Engine.Lives.{AllSound, run-AllSound}
use device_samsung_msm8660_c.Engine.Muted.{is_position, rounds, rounds-silent}
use device_samsung_msm8660_c.Engine.Told.{last_told, run-IsTold}
use device_samsung_msm8660_c.Engine.Override.{is_fix, override-unmutes}

abbrev plain : Config
plain = record {
  intermediate_pos = 0;
  accuracy_thres = 0;
  supl_ver = 65536;
  lpp_profile = 0;
  sensor_usage = 0;
  any_sensor_property = false;
  ulp_capability = false;
  nmea_by_ap = false;
}

abbrev all_set : Callbacks
all_set = record {
  has_location = true;
  has_status = true;
  has_sv = true;
  has_nmea = true;
  has_time = true;
}

-- A world in which all succeeds; 49 is the digit one.
abbrev well : World
well = record {
  start_result = success;
  stop_result = success;
  reinit_result = λ n. success;
  single_shot = false;
  resolve = λ host. none;
  print_unsigned = λ n. 49 ∷ [];
}

abbrev good_fix : Report
good_fix = record {
  status = sess_success;
  has_source_info = true;
  position_source = gnss;
  satellite = true;
  sensors = false;
  has_accuracy = false;
  exceeds = λ n. false;
  raw_data = false;
  fix = 7;
}

abbrev ready : List (World × Event)
ready =
    (well, server supl_server (115 ∷ 108 ∷ []) 7275)
    ∷ (well, init all_set false true)
    ∷ (well, agps_init 0 0 0)
    ∷ (
      well,
      from_adapter (Msg.request_atl 3 AgpsType.supl [] (record { elem_ok = true; junk = [] })),
    )
    ∷ (well, take_message)
    ∷ []

abbrev started : List (World × Event)
started =
    (well, init all_set false true)
    ∷ (well, from_adapter Msg.start_fix)
    ∷ (well, take_message)
    ∷ (well, take_message)
    ∷ (well, take_message)
    ∷ (well, take_message)
    ∷ (well, take_message)
    ∷ []

run-agps_reinit_example : agps_reinit well (run ready (cleared plain)) ≡ run ready (cleared plain)
unfolding run step set_server_proxy save_server loc_eng_init saved_callbacks cleared reinit_loop
    reinit post_settings post emit loc_eng_agps_init agps_reinit take_round round handle settle_stop
    settle_aiding
run-agps_reinit_example = run-agps_reinit plain ready well refl

run-stop_fix_handler_example :
    stop_fix_handler well (run started (cleared plain))
    ≡ stop_handler well (run started (cleared plain))
run-stop_fix_handler_example = run-stop_fix_handler plain started well

run-AllSound_example : AllSound (run ready (cleared plain)).nifs
run-AllSound_example = run-AllSound plain ready

run-IsTold_example : last_told (run started (cleared plain)).effects ≡ some session_begin
unfolding run step loc_eng_init saved_callbacks cleared reinit_loop reinit post_settings post emit
    take_round round handle start_handler inform_gps_status settle_stop settle_aiding
run-IsTold_example = run-IsTold plain started refl refl

-- An engine whose session is muted.
unfoldable muted_engine : Engine
unfolding cleared
muted_engine = record (cleared plain) {
  context = true;
  callbacks = all_set;
  navigating = true;
  mute_session_state = mute_in_session;
  ni = record NiSession.fresh { ni_notify_cb = true };
}

abbrev reports : List (World × Msg)
reports =
    (well, Msg.report_position good_fix)
    ∷ (well, Msg.report_nmea 31)
    ∷ (well, Msg.report_sv 5)
    ∷ (well, Msg.report_status session_begin)
    ∷ (well, Msg.report_position good_fix)
    ∷ []

rounds-silent_example :
    ((rounds reports muted_engine).mute_session_state ≡ mute_in_session)
    × (keep_if is_position (rounds reports muted_engine).effects ≡ nmea_cb 31 ∷ [])
unfolding muted_engine cleared
rounds-silent_example =
    rounds-silent reports muted_engine refl refl (refl, (refl, (refl, (refl, (refl, tt)))))

abbrev override : Notif
override = record { timeout = 20; privacy_override = true }

override-unmutes_example :
    keep_if is_fix
      (report_position_handler well good_fix
        (request_ni_handler override (some 90) true muted_engine)).effects
    ≡ location_cb (some 7) ∷ []
unfolding muted_engine cleared
override-unmutes_example =
    override-unmutes well override (some 90) true good_fix muted_engine refl refl refl refl refl
      refl refl
