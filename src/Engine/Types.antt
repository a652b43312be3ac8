-- ===== src/Engine/Types.antt =====
-- The engine's data: the messages of loc_eng_msg.h, `loc_eng_data_s_type` of loc_eng.h, and the
-- calls that leave the engine. Fields that are only handed on are a payload, given by a number.
use device_samsung_msm8660_c.Common.{ℕ, Bool, Option, List}
use device_samsung_msm8660_c.Agps.Types.{AgpsType, Text, Machine}
use device_samsung_msm8660_c.Agps.Machine.{Alloc}
use device_samsung_msm8660_c.NiSession.{Ni, Notif, Inform}

-- `GpsStatusValue`
pub data GpsStatus : Type 0 where
  no_status session_begin session_end engine_on engine_off : GpsStatus

-- `loc_mute_session_e_type`
pub data Mute : Type 0 where
  mute_none mute_wait mute_in_session : Mute

-- `loc_api_adapter_err`, as far as the engine tells its values apart.
pub data AdapterErr : Type 0 where
  success engine_down_err other_err : AdapterErr

-- `LocServerType`
pub data ServerType : Type 0 where
  supl_server cdma_pde_server custom_pde_server mpc_server other_server : ServerType

-- `loc_sess_status`, and `position_source` as far as it is looked at.
pub data SessStatus : Type 0 where
  sess_success sess_intermediate sess_failure : SessStatus

pub data Source : Type 0 where
  hybrid gnss other_source : Source

-- What the engine reads of `loc_eng_msg_report_position`. `exceeds` says whether the accuracy is above
-- a threshold.
pub record Report : Type 0 where
  pub status : SessStatus
  pub has_source_info : Bool
  pub position_source : Source
  pub satellite : Bool
  pub sensors : Bool
  pub has_accuracy : Bool
  pub exceeds : ℕ → Bool
  pub raw_data : Bool
  pub fix : ℕ

-- The messages whose fields go to one method of the adapter, and to it only.
pub data Setting : Type 0 where
  position_mode time location supl_version lpp_config sensor_control : Setting
  sensor_properties sensor_perf_control ext_power xtra_data : Setting

-- The interface that a data connection is for: the three state machines.
pub data Nif : Type 0 where
  agnss internet wifi : Nif

-- `LOC_ENG_IF_REQUEST_TYPE_SUPL`, `LOC_ENG_IF_REQUEST_TYPE_ANY`, and any other.
pub data IfType : Type 0 where
  if_supl if_any if_other : IfType

-- Which of the two daemons that may ask for WIFI sends, or any other.
pub data Sender : Type 0 where
  quipc msapm other_sender : Sender

-- `Alloc` is what the heap does when a subscriber is added, and `junk` the bytes that a subscriber on
-- the stack lies over; `thread_ok` says whether `pthread_create` succeeds.
pub data Msg : Type 0 where
  quit start_fix stop_fix : Msg
  request_ni : Notif → Option ℕ → (thread_ok : Bool) → Msg
  inform_ni_response : Inform → Msg
  setting : Setting → ℕ → Msg
  set_server_ipv4 : (ip port : ℕ) → ServerType → Msg
  set_server_url : Text → Msg
  report_position : Report → Msg
  report_sv : (payload : ℕ) → Msg
  report_status : GpsStatus → Msg
  report_nmea : (payload : ℕ) → Msg
  request_bit : IfType → (ipv4 : ℕ) (ipv6 : List ℕ) → Alloc → Msg
  release_bit : IfType → (ipv4 : ℕ) (ipv6 : List ℕ) → Msg
  request_atl : (handle : ℕ) → AgpsType → (junk : List ℕ) → Alloc → Msg
  release_atl : (handle : ℕ) (junk : List ℕ) → Msg
  request_wifi : Sender → (ssid password : Option Text) (id : ℕ) (junk : List ℕ) → Alloc → Msg
  release_wifi : (ssid password : Option Text) (id : ℕ) (junk : List ℕ) → Msg
  request_xtra_data request_time request_position : Msg
  delete_aiding_data : (mask : ℕ) → Msg
  enable_data : (enable : ℕ) → Text → Msg
  atl_open_success : AgpsType → Text → (len bearer : ℕ) → Msg
  atl_closed atl_open_failed : AgpsType → Msg
  engine_down engine_up : Msg
  request_network_position request_phone_context : (payload : ℕ) → Msg
  unsupported : Msg

-- The messages of the queue of the ULP module.
pub data UlpMsg : Type 0 where
  ulp_start_fix ulp_stop_fix : UlpMsg
  ulp_raw_command ulp_criteria ulp_phone_settings ulp_network_position : (payload : ℕ) → UlpMsg

-- The calls of the adapter, and the callbacks. `give` is the adapter's method for a setting.
pub data Effect : Type 0 where
  adapter_start_fix adapter_stop_fix adapter_reinit : Effect
  give : Setting → ℕ → Effect
  adapter_position_mode_null : Effect
  adapter_server_ipv4 : (ip port : ℕ) → ServerType → Effect
  adapter_server_url : Text → Effect
  adapter_inform_ni : Inform → Effect
  adapter_enable_data : ℕ → Effect
  adapter_apn : Text → Effect
  adapter_delete_aiding : (mask : ℕ) → Effect
  status_cb : GpsStatus → Effect
  location_cb : Option ℕ → Effect
  sv_cb nmea_cb nmea_of_position nmea_of_sv free_raw_data : ℕ → Effect
  xtra_download_cb time_cb : Effect
  network_cb phone_context_cb : ℕ → Effect

-- Which callbacks are set.
pub record Callbacks : Type 0 where
  pub has_location : Bool
  pub has_status : Bool
  pub has_sv : Bool
  pub has_nmea : Bool
  pub has_time : Bool

-- The part of `gps_conf` that the engine reads.
pub record Config : Type 0 where
  pub intermediate_pos : ℕ
  pub accuracy_thres : ℕ
  pub supl_ver : ℕ
  pub lpp_profile : ℕ
  pub sensor_usage : ℕ
  pub any_sensor_property : Bool
  pub ulp_capability : Bool
  pub nmea_by_ap : Bool

pub record Nifs : Type 0 where
  pub agnss_nif : Machine
  pub internet_nif : Machine
  pub wifi_nif : Machine

-- `loc_eng_data_s_type`, with the adapter's `navigating`, the two queues, oldest message first, and
-- the calls made, the latest first. `nifs` is none before `loc_eng_agps_init`, which also sets
-- `agps_status_cb`. The thread is no longer `running` after it has returned, and `crashed` after it
-- has gone through a null pointer.
pub record Engine : Type 0 where
  pub conf : Config
  pub context : Bool
  pub callbacks : Callbacks
  pub has_xtra : Bool
  pub has_network : Bool
  pub has_phone_context : Bool
  pub intermediate_fix : ℕ
  pub generate_nmea : Bool
  pub navigating : Bool
  pub agps_request_pending : Bool
  pub stop_request_pending : Bool
  pub engine_status : GpsStatus
  pub fix_session_status : GpsStatus
  pub aiding_data_for_deletion : ℕ
  pub mute_session_state : Mute
  pub supl_host : Option (Text × ℕ)
  pub c2k_host : Option (Text × ℕ)
  pub ulp_initialized : Bool
  pub ni : Ni
  pub nifs : Option Nifs
  pub deferred_q : List Msg
  pub ulp_q : List UlpMsg
  pub running : Bool
  pub crashed : Bool
  pub effects : List Effect

-- What the adapter, the resolver and `snprintf` answer while one message or call is handled:
-- the results of `startFix` and `stopFix` and of the attempts of `reinit`, whether the position mode
-- is a single shot, a host's address in network order, and "%u".
pub record World : Type 0 where
  pub start_result : AdapterErr
  pub stop_result : AdapterErr
  pub reinit_result : ℕ → AdapterErr
  pub single_shot : Bool
  pub resolve : Text → Option ℕ
  pub print_unsigned : ℕ → Text
