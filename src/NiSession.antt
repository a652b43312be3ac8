-- ===== src/NiSession.antt =====
-- A session of a network-initiated request: gps/libloc_api_50001/loc_eng_ni.cpp. The handlers run on
-- the engine's thread and are one step each in `run`; NiSession/Restart.antt has the steps of the
-- restart handler, which a session's thread may come between. That thread (`ni_thread_proc`) has three
-- steps: it takes `tLock`, it wakes from `pthread_cond_timedwait`, and it does what follows the unlock.
-- Threads in the same phase are alike, so they are counted. Time is not modelled: a wait may end in
-- a timeout at any step.
mod Restart
mod Owned
mod Answers
mod Stuck
mod Tests
use device_samsung_msm8660_c.Common.{
  ℕ, zero, suc, ◌+◌, ◌-◌, ◌%◌, ◌^◌, ◌<◌, Bool, true, false, ◌&&◌, not, Option, none, some, List, [],
  ◌∷◌, ◌++◌, ltb, ◌==◌, if◌then◌else◌, is_some,
}

-- `GpsUserResponseType`; `unset` is the 0 of cleared memory.
pub data Response : Type 0 where
  accept deny noresp unset : Response

-- What `loc_eng_msg_inform_ni_response` carries: the response and the address of the raw request.
pub record Inform : Type 0 where
  pub response : Response
  pub raw : ℕ

-- The handler's view of a `GpsNiNotification`.
pub record Notif : Type 0 where
  pub timeout : ℕ
  pub privacy_override : Bool

-- `ni_notify_cb` (whether it is set) and `loc_eng_ni_data`. `starting` threads have yet to take
-- `tLock`, `waiting` ones wait on `tCond`, and `leaving` ones have unlocked with the message they
-- made, if any. `arrived`, `freed`, `informed` and `notified` say what has been passed in, given to
-- `free`, sent to the engine and shown to the user; `dropped` is what the handler has returned from
-- without taking.
pub record Ni : Type 0 where
  pub ni_notify_cb : Bool
  pub resp_time_left : ℕ
  pub resp_recvd : Bool
  pub raw_request : Option ℕ
  pub req_id : ℕ
  pub resp : Response
  pub muted : Bool
  pub starting : ℕ
  pub waiting : ℕ
  pub leaving : List (Option Inform)
  pub arrived : List ℕ
  pub freed : List ℕ
  pub dropped : List ℕ
  pub informed : List Inform
  pub notified : List ℕ

abbrev pub listed : Option ℕ → List ℕ → List ℕ
listed none rs = rs
listed (some r) rs = r ∷ rs

-- `loc_eng_ni_init`, by whether the callbacks have a `notify_cb`.
unfoldable pub loc_eng_ni_init : (has_cb : Bool) → Ni → Ni
loc_eng_ni_init has_cb s = if not has_cb then s else if s.ni_notify_cb then s else record s {
  resp_time_left = 0;
  resp_recvd = false;
  raw_request = none;
  req_id = 0;
  ni_notify_cb = true;
}

-- A request is taken: all of the branch for a session that is not busy.
unfoldable pub begin_session : Notif → Option ℕ → (thread_ok : Bool) → Ni → Ni
begin_session n pass_through thread_ok s = record s {
  raw_request = pass_through;
  muted = if n.privacy_override then true else s.muted;
  resp_time_left = 5 + (if n.timeout == 0 then 20 else n.timeout);
  starting = if thread_ok then s.starting + 1 else s.starting;
  notified = s.req_id ∷ s.notified;
}

-- `loc_eng_ni_request_handler`; `pass_through` is none where it is null, and `thread_ok` says whether
-- `pthread_create` succeeds.
unfoldable pub loc_eng_ni_request_handler : Notif → Option ℕ → (thread_ok : Bool) → Ni → Ni
loc_eng_ni_request_handler n pass_through thread_ok s =
    let t = record s { arrived = listed pass_through s.arrived } in
    if not s.ni_notify_cb
    then record t { dropped = listed pass_through s.dropped }
    else if is_some s.raw_request
    then record t { freed = listed pass_through s.freed }
    else begin_session n pass_through thread_ok t

-- `loc_eng_ni_respond`; a signal to a waiting thread lets it wake, as it may at any time.
unfoldable pub loc_eng_ni_respond : (notif_id : ℕ) → Response → Ni → Ni
loc_eng_ni_respond notif_id user_response s =
    if s.ni_notify_cb && (notif_id == s.req_id && is_some s.raw_request)
    then record s { resp = user_response; resp_recvd = true }
    else s

-- The restart handler's steps: `free` and the reset of the pointer, without `tLock`, and then, with it,
-- the response that is to end the wait.
abbrev pub restart_free : Ni → Ni
restart_free s = record s { freed = listed s.raw_request s.freed }

abbrev pub restart_null : Ni → Ni
restart_null s = record s { raw_request = none }

abbrev pub restart_wake : Ni → Ni
restart_wake s = record s { resp_recvd = true }

-- `loc_eng_ni_reset_on_engine_restart` where no thread comes between its steps.
unfoldable pub loc_eng_ni_reset_on_engine_restart : Ni → Ni
loc_eng_ni_reset_on_engine_restart s =
    if s.ni_notify_cb && is_some s.raw_request
    then restart_wake (restart_null (restart_free s))
    else s

-- The message of a thread that leaves its wait.
abbrev pub inform_of : Response → Option ℕ → Option Inform
inform_of resp none = none
inform_of resp (some raw) = some (record { response = resp; raw = raw })

-- `ni_thread_proc` from the end of its wait loop to the unlock.
unfoldable pub finish_wait : Ni → Ni
finish_wait s = record s {
  resp_recvd = false;
  raw_request = none;
  leaving = inform_of s.resp s.raw_request ∷ s.leaving;
}

-- The test of the wait loop.
unfoldable pub wait_or_finish : Ni → Ni
wait_or_finish s = if s.resp_recvd then finish_wait s else record s { waiting = s.waiting + 1 }

-- A new thread takes `tLock`.
unfoldable pub thread_start : Ni → Ni
thread_start s =
    if ltb 0 s.starting then wait_or_finish (record s { starting = s.starting - 1 }) else s

-- A thread returns from `pthread_cond_timedwait`.
unfoldable pub thread_wake : (timed_out : Bool) → Ni → Ni
thread_wake timed_out s =
    let t = record s { waiting = s.waiting - 1 } in
    if ltb 0 s.waiting
    then if timed_out then finish_wait (record t { resp = noresp }) else wait_or_finish t
    else s

abbrev pub sent : Option Inform → List Inform → List Inform
sent none is = is
sent (some i) is = i ∷ is

-- What `ni_thread_proc` does after the unlock; `reqID` is a 32-bit word.
unfoldable pub after_unlock : Option Inform → Ni → Ni
after_unlock msg s = record s {
  resp_time_left = 0;
  req_id = (s.req_id + 1) % 2 ^ 32;
  informed = sent msg s.informed;
}

-- The leaving thread at an index.
abbrev pub take_at : ℕ → List (Option Inform) → Option (Option Inform × List (Option Inform))
take_at n [] = none
take_at zero (m ∷ ms) = some (m, ms)
take_at (suc n) (m ∷ ms) = elim (take_at n ms) [ none ↦ none | some (k, ks) ↦ some (k, m ∷ ks) ]

unfoldable pub thread_leave : ℕ → Ni → Ni
thread_leave n s = elim (take_at n s.leaving) [
  | none ↦ s
  | some (m, ms) ↦ after_unlock m (record s { leaving = ms })
]

pub data Event : Type 0 where
  init : (has_cb : Bool) → Event
  request : Notif → Option ℕ → (thread_ok : Bool) → Event
  respond : (notif_id : ℕ) → Response → Event
  restart start : Event
  wake : (timed_out : Bool) → Event
  leave : ℕ → Event

unfoldable pub step : Event → Ni → Ni
step (init has_cb) s = loc_eng_ni_init has_cb s
step (request n p ok) s = loc_eng_ni_request_handler n p ok s
step (respond id r) s = loc_eng_ni_respond id r s
step restart s = loc_eng_ni_reset_on_engine_restart s
step start s = thread_start s
step (wake t) s = thread_wake t s
step (leave n) s = thread_leave n s

unfoldable pub run : List Event → Ni → Ni
run [] s = s
run (e ∷ es) s = run es (step e s)

-- Memory before `loc_eng_ni_init`, which the engine has cleared.
abbrev pub fresh : Ni
fresh = record {
  ni_notify_cb = false;
  resp_time_left = 0;
  resp_recvd = false;
  raw_request = none;
  req_id = 0;
  resp = unset;
  muted = false;
  starting = 0;
  waiting = 0;
  leaving = [];
  arrived = [];
  freed = [];
  dropped = [];
  informed = [];
  notified = [];
}
