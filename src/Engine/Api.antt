-- ===== src/Engine/Api.antt =====
-- The functions of loc_eng.cpp that the framework calls, and the life of the engine: calls, rounds of
-- its thread, messages of the adapter and steps of the NI threads, in any order.
use device_samsung_msm8660_c.Common.{
  ℕ, Bool, true, ◌&&◌, not, Option, none, some, List, [], ◌∷◌, ◌++◌, if◌then◌else◌, is_some, length,
  take, ltb,
}
use device_samsung_msm8660_c.Agps.Types.{AgpsType, Text}
use device_samsung_msm8660_c.NiSession.{
  Response, Inform, take_at, loc_eng_ni_init, loc_eng_ni_respond, thread_start, thread_wake,
  thread_leave,
}
use device_samsung_msm8660_c.Engine.Types.{
  ServerType, Setting, ext_power, Msg, setting, UlpMsg, ulp_start_fix, ulp_stop_fix,
  ulp_phone_settings, ulp_network_position, Callbacks, Engine, World,
}
use device_samsung_msm8660_c.Engine.Session.{post}
use device_samsung_msm8660_c.Engine.Server.{set_server_proxy, loc_eng_init, loc_eng_agps_init}
use device_samsung_msm8660_c.Engine.Handler.{round}

-- `msg_q_snd` to the queue of the ULP module.
unfoldable pub post_ulp : UlpMsg → Engine → Engine
post_ulp m e = record e { ulp_q = e.ulp_q ++ m ∷ [] }

-- Whether the ULP module takes part.
abbrev pub has_ulp : Engine → Bool
has_ulp e = e.ulp_initialized && e.conf.ulp_capability

-- `INIT_CHECK` in front of a message.
unfoldable pub post_checked : Msg → Engine → Engine
unfolding post
post_checked m e = if e.context then post m e else e

unfoldable pub loc_eng_start : Engine → Engine
unfolding post post_ulp
loc_eng_start e =
    let posted = if has_ulp e then post_ulp ulp_start_fix e else post Msg.start_fix e in
    if e.context then posted else e

unfoldable pub loc_eng_stop : Engine → Engine
unfolding post post_ulp
loc_eng_stop e =
    let posted = if has_ulp e then post_ulp ulp_stop_fix e else post Msg.stop_fix e in
    if e.context then posted else e

-- `loc_eng_cleanup` stops a fix, and leaves the rest.
unfoldable pub loc_eng_cleanup : Engine → Engine
unfolding loc_eng_stop
loc_eng_cleanup e = if e.context && e.navigating then loc_eng_stop e else e

-- The first bytes of an APN, `MAX_APN_LEN` at most.
abbrev pub apn_len : Text → ℕ
apn_len apn = if ltb (length apn) 100 then length apn else 100

unfoldable pub loc_eng_agps_open : AgpsType → Option Text → (bearer : ℕ) → Engine → Engine
unfolding post
loc_eng_agps_open type none bearer e = e
loc_eng_agps_open type (some apn) bearer e =
    if e.context && is_some e.nifs
    then post (Msg.atl_open_success type apn (apn_len apn) bearer) e
    else e

unfoldable pub loc_eng_agps_closed : AgpsType → Engine → Engine
unfolding post
loc_eng_agps_closed type e = if e.context && is_some e.nifs then post (Msg.atl_closed type) e else e

unfoldable pub loc_eng_agps_open_failed : AgpsType → Engine → Engine
unfolding post
loc_eng_agps_open_failed type e =
    if e.context && is_some e.nifs then post (Msg.atl_open_failed type) e else e

unfoldable pub loc_eng_agps_ril_update : (available : ℕ) → Option Text → Engine → Engine
unfolding post_checked
loc_eng_agps_ril_update available none e = e
loc_eng_agps_ril_update available (some apn) e =
    post_checked (Msg.enable_data available (take (apn_len apn) apn)) e

unfoldable pub loc_eng_ulp_init : (has_interface : Bool) → Engine → Engine
loc_eng_ulp_init has_interface e = if has_interface then record e { ulp_initialized = true } else e

-- `loc_eng_inject_raw_command` and `loc_eng_update_criteria`.
unfoldable pub post_ulp_checked : UlpMsg → Engine → Engine
unfolding post_ulp
post_ulp_checked m e = if e.context && has_ulp e then post_ulp m e else e

-- `loc_eng_ulp_send_network_position` does not check the context.
unfoldable pub loc_eng_ulp_send_network_position : ℕ → Engine → Engine
unfolding post_ulp
loc_eng_ulp_send_network_position payload e =
    if has_ulp e then post_ulp (ulp_network_position payload) e else e

unfoldable pub loc_eng_ulp_phone_context_settings_update :
    ℕ → (charging : Option ℕ) → Engine → Engine
unfolding post_ulp post
loc_eng_ulp_phone_context_settings_update payload charging e =
    let told = if has_ulp e then post_ulp (ulp_phone_settings payload) e else e in
    elim charging [ none ↦ told | some c ↦ post (setting ext_power c) told ]

-- The message that an NI thread sends when it leaves.
abbrev pub informs : Option (Option Inform × List (Option Inform)) → List Msg
informs (some (some i, rest)) = Msg.inform_ni_response i ∷ []
informs _ = []

-- A step of an NI thread.
unfoldable pub ni_leave : ℕ → Engine → Engine
ni_leave n e = record e {
  ni = thread_leave n e.ni;
  deferred_q = e.deferred_q ++ informs (take_at n e.ni.leaving);
}

-- `from_adapter` is a message that the adapter posts.
pub data Event : Type 0 where
  init : Callbacks → (nmea_1hz adapter_ok : Bool) → Event
  agps_init : (b1 b2 b3 : ℕ) → Event
  ni_init : (has_cb : Bool) → Event
  start stop cleanup : Event
  set : Setting → ℕ → Event
  delete_aiding : (mask : ℕ) → Event
  agps_open : AgpsType → Option Text → (bearer : ℕ) → Event
  agps_closed agps_open_failed : AgpsType → Event
  server : ServerType → Text → (port : ℕ) → Event
  ril_update : (available : ℕ) → Option Text → Event
  ulp_init : (has_interface : Bool) → Event
  to_ulp : UlpMsg → Event
  network_position : ℕ → Event
  phone_settings : ℕ → (charging : Option ℕ) → Event
  callbacks_set : (has_xtra has_network has_phone_context : Bool) → Event
  ni_respond : ℕ → Response → Event
  ni_start : Event
  ni_wake : (timed_out : Bool) → Event
  ni_leaves : ℕ → Event
  from_adapter : Msg → Event
  take_message : Event

-- The thread takes the oldest message, if it still runs and there is one.
unfoldable pub take_round : World → List Msg → Engine → Engine
unfolding round
take_round w [] e = e
take_round w (m ∷ ms) e =
    if e.running && not e.crashed then round w m (record e { deferred_q = ms }) else e

unfoldable pub step : World → Event → Engine → Engine
step w (init cs nmea adapter_ok) e = loc_eng_init w cs nmea adapter_ok 30 e
step w (agps_init b1 b2 b3) e = loc_eng_agps_init w b1 b2 b3 e
step w (ni_init has_cb) e = record e { ni = loc_eng_ni_init has_cb e.ni }
step w start e = loc_eng_start e
step w stop e = loc_eng_stop e
step w cleanup e = loc_eng_cleanup e
step w (set s payload) e = post_checked (setting s payload) e
step w (delete_aiding mask) e = post_checked (Msg.delete_aiding_data mask) e
step w (agps_open type apn b) e = loc_eng_agps_open type apn b e
step w (agps_closed type) e = loc_eng_agps_closed type e
step w (agps_open_failed type) e = loc_eng_agps_open_failed type e
step w (server type host port) e = (set_server_proxy w type host port e).1
step w (ril_update available apn) e = loc_eng_agps_ril_update available apn e
step w (ulp_init present) e = loc_eng_ulp_init present e
step w (to_ulp m) e = post_ulp_checked m e
step w (network_position payload) e = loc_eng_ulp_send_network_position payload e
step w (phone_settings payload charging) e =
    loc_eng_ulp_phone_context_settings_update payload charging e
step w (callbacks_set x n p) e = record e { has_xtra = x; has_network = n; has_phone_context = p }
step w (ni_respond id r) e = record e { ni = loc_eng_ni_respond id r e.ni }
step w ni_start e = record e { ni = thread_start e.ni }
step w (ni_wake t) e = record e { ni = thread_wake t e.ni }
step w (ni_leaves n) e = ni_leave n e
step w (from_adapter m) e = post m e
step w take_message e = take_round w e.deferred_q e

-- Each event comes with the answers that the world gives to it.
unfoldable pub run : List (World × Event) → Engine → Engine
run [] e = e
run ((w, v) ∷ vs) e = run vs (step w v e)
