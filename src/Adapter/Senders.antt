-- ===== src/Adapter/Senders.antt =====
-- What the adapter makes of the modem's indications: messages, and the queue each goes to.
use device_samsung_msm8660_c.Common.{ℕ, Bool, List, [], ◌∷◌, if◌then◌else◌, Option}
use device_samsung_msm8660_c.Agps.Types.{AgpsType}
use device_samsung_msm8660_c.Agps.Machine.{Alloc}
use device_samsung_msm8660_c.NiSession.{Notif}
use device_samsung_msm8660_c.Engine.Types.{Report, GpsStatus, Msg}

-- `sendMsge`, which is the engine's queue, or `sendUlpMsg`, which is the ULP module's.
pub data Receiver : Type 0 where
  engine_queue ulp_module : Receiver

-- The methods of the adapter that the modem's side calls. `Alloc`, the junk and `thread_ok` go with the
-- engine's messages and are not the adapter's.
pub data Indication : Type 0 where
  report_position : Report → Indication
  report_sv : (payload : ℕ) → Indication
  report_status : GpsStatus → Indication
  report_nmea : (payload : ℕ) → Indication
  request_atl : (handle : ℕ) → AgpsType → (junk : List ℕ) → Alloc → Indication
  release_atl : (handle : ℕ) (junk : List ℕ) → Indication
  request_xtra_data request_time request_location : Indication
  request_ni_notify : Notif → Option ℕ → (thread_ok : Bool) → Indication
  handle_engine_down_event handle_engine_up_event : Indication

-- Positions and satellites go by way of the ULP module where it takes part.
abbrev pub by_ulp : (has_ulp_sender : Bool) → Receiver
by_ulp has_ulp_sender = if has_ulp_sender then ulp_module else engine_queue

-- The message of an indication; `requestLocation` sends none. A notification gets the timeout
-- `LOC_NI_NO_RESPONSE_TIME`.
unfoldable pub indicate : (has_ulp_sender : Bool) → Indication → List (Receiver × Msg)
indicate u (report_position r) = (by_ulp u, Msg.report_position r) ∷ []
indicate u (report_sv payload) = (by_ulp u, Msg.report_sv payload) ∷ []
indicate u (report_status s) = (engine_queue, Msg.report_status s) ∷ []
indicate u (report_nmea payload) = (engine_queue, Msg.report_nmea payload) ∷ []
indicate u (request_atl h type junk a) = (engine_queue, Msg.request_atl h type junk a) ∷ []
indicate u (release_atl h junk) = (engine_queue, Msg.release_atl h junk) ∷ []
indicate u request_xtra_data = (engine_queue, Msg.request_xtra_data) ∷ []
indicate u request_time = (engine_queue, Msg.request_time) ∷ []
indicate u request_location = []
indicate u (request_ni_notify n pass ok) =
    (engine_queue, Msg.request_ni (record n { timeout = 20 }) pass ok) ∷ []
indicate u handle_engine_down_event = (engine_queue, Msg.engine_down) ∷ []
indicate u handle_engine_up_event = (engine_queue, Msg.engine_up) ∷ []
