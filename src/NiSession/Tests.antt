-- ===== src/NiSession/Tests.antt =====
-- The session's theorems at small runs.
use device_samsung_msm8660_c.Common.{◌≡◌, refl, true, false, none, some, List, [], ◌∷◌, arith}
use device_samsung_msm8660_c.NiSession.{
  Ni, Notif, accept, deny, noresp, restart_free, restart_null, restart_wake, init, request, respond,
  restart, start, wake, leave, step, run, fresh,
}
use device_samsung_msm8660_c.NiSession.Restart.{
  FineEvent, whole, restart_empties, restart_wakes, restart-races,
}
use device_samsung_msm8660_c.NiSession.Answers.{
  IsIdle, Answered, session-Answered, spurious, ended, overtaken-ignored, restart-answers,
}
use device_samsung_msm8660_c.NiSession.Stuck.{IsStuck, failed-thread-IsStuck}

abbrev notif : Notif
notif = record { timeout = 10; privacy_override = false }

abbrev ready : Ni
ready = record fresh { ni_notify_cb = true; req_id = 3 }

ready-IsIdle : IsIdle ready
ready-IsIdle = record {
  ready = refl;
  no_request = refl;
  no_response = refl;
  no_starting = refl;
  no_waiting = refl;
  no_leaving = refl;
}

abbrev restarted : List FineEvent
restarted =
    whole (init true)
    ∷ whole (request notif (some 7) true)
    ∷ whole start
    ∷ restart_empties
    ∷ whole (request notif (some 8) true)
    ∷ whole (wake true)
    ∷ restart_wakes
    ∷ whole (leave 0)
    ∷ []

abbrev session_waits : Ni
session_waits = record ready { raw_request = some 7; waiting = 1 }

restart-races_example :
    let t =
      restart_wake (restart_null (run (wake true ∷ leave 0 ∷ []) (restart_free session_waits))) in
    (t.freed ≡ 7 ∷ [])
    × (t.informed ≡ record { response = noresp; raw = 7 } ∷ [])
    × (t.arrived ≡ [])
restart-races_example = restart-races 7 session_waits refl refl refl (omega arith)

session-Answered_example :
    Answered 7 accept ready
      (run (request notif (some 7) true ∷ start ∷ spurious 2 (ended (some accept) 3)) ready)
session-Answered_example = session-Answered notif 7 2 (some accept) ready ready-IsIdle

abbrev unlocked : Ni
unlocked = record ready { leaving = none ∷ [] }

abbrev overtaken : Ni
overtaken = run (request notif (some 7) true ∷ leave 0 ∷ []) unlocked

overtaken-ignored_example :
    (overtaken.notified ≡ 3 ∷ [])
    × (overtaken.raw_request ≡ some 7)
    × (step (respond 3 deny) overtaken ≡ overtaken)
overtaken-ignored_example =
    overtaken-ignored notif 7 unlocked 3 none [] deny refl refl refl refl (omega arith)

abbrev interrupted : Ni
interrupted = record ready { raw_request = some 7; resp = accept; waiting = 1 }

restart-answers_example :
    let t = run (restart ∷ request notif (some 8) true ∷ wake false ∷ leave 0 ∷ []) interrupted in
    (t.informed ≡ record { response = accept; raw = 8 } ∷ []) × (t.raw_request ≡ none)
restart-answers_example = restart-answers notif 8 interrupted 7 accept refl refl refl (omega arith)

failed-thread-IsStuck_example :
    IsStuck 7 (3 ∷ []) (run (request notif (some 7) false ∷ start ∷ wake true ∷ []) ready)
failed-thread-IsStuck_example =
    failed-thread-IsStuck notif 7 ready (start ∷ wake true ∷ []) refl refl refl refl refl
