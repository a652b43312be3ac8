-- ===== src/NiSession/Stuck.antt =====
-- A session whose thread could not be created.
use device_samsung_msm8660_c.Common.{
  ℕ, ◌≡◌, Bool, true, false, none, some, List, [], ◌∷◌, arith, any,
}
use device_samsung_msm8660_c.NiSession.{
  Ni, Notif, Event, request, restart, step, run, loc_eng_ni_init, begin_session,
  loc_eng_ni_request_handler, loc_eng_ni_respond, thread_start, thread_wake, after_unlock,
  thread_leave,
}

abbrev pub is_restart : Event → Bool
is_restart restart = true
is_restart _ = false

-- The session holds a request and has no thread that could answer it.
pub record IsStuck (r : ℕ) (shown : List ℕ) (s : Ni) : Type 0 where
  pub ready : s.ni_notify_cb ≡ true
  pub holds : s.raw_request ≡ some r
  pub no_starting : s.starting ≡ 0
  pub no_waiting : s.waiting ≡ 0
  pub same_shown : s.notified ≡ shown

step-IsStuck :
    (e : Event) {r : ℕ} {shown : List ℕ} (s : Ni)
    → is_restart e ≡ false
    → IsStuck r shown s
    → IsStuck r shown (step e s)
unfolding step loc_eng_ni_init loc_eng_ni_request_handler loc_eng_ni_respond thread_start
    thread_wake thread_leave after_unlock
step-IsStuck e s other h =
    ground (arith, other, h.ready, h.holds, h.no_starting, h.no_waiting, h.same_shown)

run-IsStuck :
    (es : List Event) {r : ℕ} {shown : List ℕ} (s : Ni)
    → any is_restart es ≡ false
    → IsStuck r shown s
    → IsStuck r shown (run es s)
unfolding run
run-IsStuck [] s none_ h = h
run-IsStuck (e ∷ es) s none_ h =
    run-IsStuck es (step e s) (ground arith) (step-IsStuck e s (ground arith) h)

-- When `pthread_create` fails for a request that comes to an interface without live threads, the
-- session holds it for ever: until the engine restarts no other request is shown to the user, and
-- this one stays.
pub failed-thread-IsStuck :
    (n : Notif) (r : ℕ) (s : Ni) (es : List Event)
    → s.ni_notify_cb ≡ true
    → s.raw_request ≡ none
    → s.starting ≡ 0
    → s.waiting ≡ 0
    → any is_restart es ≡ false
    → IsStuck r (s.req_id ∷ s.notified) (run (request n (some r) false ∷ es) s)
unfolding run step loc_eng_ni_request_handler begin_session
failed-thread-IsStuck n r s es ready free no_starting no_waiting none_ =
    run-IsStuck es (step (request n (some r) false) s) none_
      (ground (arith, ready, free, no_starting, no_waiting))
