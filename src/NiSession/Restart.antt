-- ===== src/NiSession/Restart.antt =====
-- The restart handler of loc_eng_ni.cpp step by step, with session threads between the steps.
use device_samsung_msm8660_c.Common.{ℕ, ◌<◌, ◌≡◌, true, some, List, [], ◌∷◌, arith, if◌then◌else◌}
use device_samsung_msm8660_c.NiSession.{
  Ni, noresp, Event, wake, leave, step, run, restart_free, restart_null, restart_wake, thread_wake,
  finish_wait, thread_leave, after_unlock,
}

-- The events of a session where the restart handler is not one step: it empties the session, and
-- later sets the response. It may do so at any moment, which covers all moments at which it does.
pub data FineEvent : Type 0 where
  whole : Event → FineEvent
  restart_empties restart_wakes : FineEvent

-- `free(NULL)` does nothing, where a thread has taken the request since the handler's test.
unfoldable pub fine_step : FineEvent → Ni → Ni
unfolding step
fine_step (whole e) s = step e s
fine_step restart_empties s = if s.ni_notify_cb then restart_null (restart_free s) else s
fine_step restart_wakes s = restart_wake s

unfoldable pub fine_run : List FineEvent → Ni → Ni
unfolding fine_step
fine_run [] s = s
fine_run (e ∷ es) s = fine_run es (fine_step e s)

-- When the wait of a session's thread times out between the restart handler's `free` and its reset of
-- the pointer, the raw request is freed, and its address is sent to the engine as well, with no
-- response.
pub restart-races :
    (r : ℕ) (s : Ni)
    → s.ni_notify_cb ≡ true
    → s.raw_request ≡ some r
    → s.leaving ≡ []
    → 0 < s.waiting
    → let t = restart_wake (restart_null (run (wake true ∷ leave 0 ∷ []) (restart_free s))) in
      (t.freed ≡ r ∷ s.freed)
      × (t.informed ≡ record { response = noresp; raw = r } ∷ s.informed)
      × (t.arrived ≡ s.arrived)
unfolding run step thread_wake finish_wait thread_leave after_unlock
restart-races r s ready holds free waiting = ground (arith, ready, holds, free, waiting)
