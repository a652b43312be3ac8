-- ===== src/Engine/Server.antt =====
-- Server addresses and the start of the interface: `loc_eng_set_server`, its proxy,
-- `loc_eng_agps_reinit`, `loc_eng_reinit`, `loc_eng_init` and `loc_eng_agps_init` of loc_eng.cpp.
use device_samsung_msm8660_c.Common.{
  ℕ, zero, suc, ◌+◌, Bool, true, false, ◌&&◌, not, Option, none, some, [], ◌∷◌, ◌++◌, ltb, ◌%◌, ◌^◌,
  if◌then◌else◌, length, take, is_some,
}
use device_samsung_msm8660_c.Agps.Types.{AgpsType, Text}
use device_samsung_msm8660_c.Agps.Machine.{new_machine}
use device_samsung_msm8660_c.NiSession.{Ni}
use device_samsung_msm8660_c.NiSession
use device_samsung_msm8660_c.Engine.Types.{
  no_status, mute_none, AdapterErr, success, engine_down_err, other_err, ServerType, supl_server,
  cdma_pde_server, custom_pde_server, mpc_server, other_server, supl_version, lpp_config,
  sensor_control, sensor_properties, sensor_perf_control, setting, set_server_ipv4, set_server_url,
  adapter_reinit, Callbacks, Config, Nifs, Engine, World,
}
use device_samsung_msm8660_c.Engine.Session.{post, emit}

-- `MAX_URL_LEN`, and the room of `supl_host_buf` and `c2k_host_buf` without the end of the string.
abbrev pub max_url_len : ℕ
max_url_len = 256

abbrev pub host_len : ℕ
host_len = 100

-- `snprintf(url, sizeof(url), "%s:%u", hostname, port)` before it is cut; 58 is the colon.
abbrev pub url_of : World → Text → ℕ → Text
url_of w host port = host ++ 58 ∷ w.print_unsigned port

-- The branches of `loc_eng_set_server`, with its result: 0, or true for the -2 of a failed look-up.
abbrev pub set_server_url_of : World → Text → ℕ → Engine → Bool × Engine
set_server_url_of w host port e =
    let url = url_of w host port in
    (false, if ltb (length url) max_url_len then post (set_server_url url) e else e)

abbrev pub set_server_address : World → ServerType → Text → ℕ → Engine → Bool × Engine
set_server_address w type host port e = elim (w.resolve host) [
  | none ↦ (true, e)
  | some ip ↦ (false, post (set_server_ipv4 ip port type) e)
]

unfoldable pub set_server : World → ServerType → Text → ℕ → Engine → Bool × Engine
unfolding post
set_server w supl_server host port e = set_server_url_of w host port e
set_server w cdma_pde_server host port e = set_server_address w cdma_pde_server host port e
set_server w custom_pde_server host port e = set_server_address w custom_pde_server host port e
set_server w mpc_server host port e = set_server_address w mpc_server host port e
set_server w other_server host port e = (false, e)

-- `loc_eng_set_server_proxy` before `loc_eng_init`: the address is stored in `loc_eng_data`.
unfoldable pub save_server : ServerType → Text → ℕ → Engine → Engine
save_server supl_server host port e = record e { supl_host = some (take host_len host, port) }
save_server cdma_pde_server host port e = record e { c2k_host = some (take host_len host, port) }
save_server _ host port e = e

unfoldable pub set_server_proxy : World → ServerType → Text → ℕ → Engine → Bool × Engine
set_server_proxy w type host port e =
    if e.context then set_server w type host port e else (false, save_server type host port e)

abbrev set_saved : World → ServerType → Option (Text × ℕ) → Engine → Engine
set_saved w type none e = e
set_saved w type (some (host, port)) e = (set_server w type host port e).1

unfoldable pub agps_reinit : World → Engine → Engine
unfolding set_server
agps_reinit w e = set_saved w cdma_pde_server e.c2k_host (set_saved w supl_server e.supl_host e)

-- What `loc_eng_reinit` posts after the adapter's `reinit` succeeded. The two messages of many fields
-- have the configuration for a payload, which is not told apart further.
unfoldable pub post_settings : Engine → Engine
unfolding post
post_settings e =
    let e1 = post (setting supl_version e.conf.supl_ver) e in
    let e2 = post (setting lpp_config e.conf.lpp_profile) e1 in
    let e3 = post (setting sensor_control e.conf.sensor_usage) e2 in
    let e4 = if e.conf.any_sensor_property then post (setting sensor_properties 0) e3 else e3 in
    post (setting sensor_perf_control 0) e4

abbrev pub reinit_done : AdapterErr → Engine → Engine
reinit_done success e = post_settings e
reinit_done engine_down_err e = e
reinit_done other_err e = e

-- `loc_eng_reinit`: its result is that of the adapter's attempt `n`.
unfoldable pub reinit : (n : ℕ) → World → Engine → Engine
unfolding emit post_settings
reinit n w e = reinit_done (w.reinit_result n) (emit adapter_reinit e)

-- The loop of `loc_eng_init`: attempts until one succeeds or `tries` are spent.
unfoldable pub reinit_loop : (tries n : ℕ) → World → Engine → Engine
reinit_loop zero n w e = e
reinit_loop (suc tries) n w e = elim (w.reinit_result n) [
  | success ↦ reinit n w e
  | engine_down_err ↦ reinit_loop tries (n + 1) w (reinit n w e)
  | other_err ↦ reinit_loop tries (n + 1) w (reinit n w e)
]

-- What `memset` leaves of `loc_eng_data`, with the queues of a new context. The adapter and the
-- configuration do not lie in it.
unfoldable pub cleared : Config → Engine
cleared conf = record {
  conf = conf;
  context = false;
  callbacks = record {
    has_location = false;
    has_status = false;
    has_sv = false;
    has_nmea = false;
    has_time = false;
  };
  has_xtra = false;
  has_network = false;
  has_phone_context = false;
  intermediate_fix = 0;
  generate_nmea = false;
  navigating = false;
  agps_request_pending = false;
  stop_request_pending = false;
  engine_status = no_status;
  fix_session_status = no_status;
  aiding_data_for_deletion = 0;
  mute_session_state = mute_none;
  supl_host = none;
  c2k_host = none;
  ulp_initialized = false;
  ni = NiSession.fresh;
  nifs = none;
  deferred_q = [];
  ulp_q = [];
  running = true;
  crashed = false;
  effects = [];
}

-- `loc_eng_data` before the adapter is asked for: `nmea_1hz` says whether the event mask asks for the
-- modem's NMEA.
unfoldable pub saved_callbacks : Callbacks → (nmea_1hz : Bool) → Engine → Engine
unfolding cleared
saved_callbacks callbacks nmea_1hz e = record (cleared e.conf) {
  callbacks = callbacks;
  intermediate_fix = e.conf.intermediate_pos % 2 ^ 8;
  generate_nmea = nmea_1hz && e.conf.nmea_by_ap;
  effects = e.effects;
}

-- `loc_eng_init` behind the check of its parameters; `adapter_ok` says whether there is an adapter.
-- Without one the new context is dropped. `tries` is 30.
unfoldable pub loc_eng_init :
    World → Callbacks → (nmea_1hz adapter_ok : Bool) → (tries : ℕ) → Engine → Engine
loc_eng_init w callbacks nmea_1hz adapter_ok tries e =
    let fresh = saved_callbacks callbacks nmea_1hz e in
    let opened = reinit_loop tries 0 w (record fresh { context = true }) in
    if e.context then e else if adapter_ok then opened else fresh

-- The machines of `loc_eng_agps_init`; the bearers are what their memory holds.
unfoldable pub new_nifs : (b1 b2 b3 : ℕ) → Nifs
unfolding new_machine
new_nifs b1 b2 b3 = record {
  agnss_nif = new_machine AgpsType.supl false b1;
  internet_nif = new_machine AgpsType.wwan_any false b2;
  wifi_nif = new_machine AgpsType.wifi true b3;
}

unfoldable pub loc_eng_agps_init : World → (b1 b2 b3 : ℕ) → Engine → Engine
loc_eng_agps_init w b1 b2 b3 e =
    let ready = agps_reinit w (record e { nifs = some (new_nifs b1 b2 b3) }) in
    if e.context && not (is_some e.nifs) then ready else e
