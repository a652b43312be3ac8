-- ===== src/NiSession/Answers.antt =====
-- What the engine is told of a session, and the sessions that go wrong.
use device_samsung_msm8660_c.Common.{
  ℕ, zero, suc, ◌+◌, ◌%◌, ◌^◌, ◌<◌, ◌≡◌, true, false, Option, none, some, List, [], ◌∷◌, arith,
  ==_refl,
}
use device_samsung_msm8660_c.NiSession.{
  Ni, Notif, Inform, Response, noresp, Event, request, respond, restart, start, wake, leave, step,
  run, begin_session, loc_eng_ni_request_handler, loc_eng_ni_respond,
  loc_eng_ni_reset_on_engine_restart, finish_wait, wait_or_finish, thread_start, thread_wake,
  after_unlock, thread_leave,
}

-- The interface is initialised and no session is in progress.
pub record IsIdle (s : Ni) : Type 0 where
  pub ready : s.ni_notify_cb ≡ true
  pub no_request : s.raw_request ≡ none
  pub no_response : s.resp_recvd ≡ false
  pub no_starting : s.starting ≡ 0
  pub no_waiting : s.waiting ≡ 0
  pub no_leaving : s.leaving ≡ []

abbrev pub spurious : ℕ → List Event → List Event
spurious zero es = es
spurious (suc n) es = wake false ∷ spurious n es

-- How the user deals with a notification: a response, or nothing until the timeout.
abbrev pub ended : Option Response → ℕ → List Event
ended none id = wake true ∷ leave 0 ∷ []
ended (some x) id = respond id x ∷ wake false ∷ leave 0 ∷ []

abbrev pub answer : Option Response → Response
answer none = noresp
answer (some x) = x

-- What a session makes of an idle interface.
pub record Answered (r : ℕ) (x : Response) (s s' : Ni) : Type 0 where
  pub told : s'.informed ≡ record { response = x; raw = r } ∷ s.informed
  pub shown : s'.notified ≡ s.req_id ∷ s.notified
  pub next_id : s'.req_id ≡ (s.req_id + 1) % 2 ^ 32
  pub idle : IsIdle s'
  pub kept : s'.freed ≡ s.freed

-- A session whose thread waits.
pub record IsWaiting (r : ℕ) (s t : Ni) : Type 0 where
  pub ready : t.ni_notify_cb ≡ true
  pub holds : t.raw_request ≡ some r
  pub no_response : t.resp_recvd ≡ false
  pub no_starting : t.starting ≡ 0
  pub one_waiting : t.waiting ≡ 1
  pub no_leaving : t.leaving ≡ []
  pub same_id : t.req_id ≡ s.req_id
  pub same_informed : t.informed ≡ s.informed
  pub same_freed : t.freed ≡ s.freed
  pub shown : t.notified ≡ s.req_id ∷ s.notified

begun :
    (n : Notif) (r : ℕ) (s : Ni)
    → IsIdle s
    → IsWaiting r s (step start (step (request n (some r) true) s))
unfolding step loc_eng_ni_request_handler begin_session thread_start wait_or_finish
begun n r s i =
    ground (arith, i.ready, i.no_request, i.no_response, i.no_starting, i.no_waiting, i.no_leaving)

still : (r : ℕ) (s t : Ni) → IsWaiting r s t → IsWaiting r s (step (wake false) t)
unfolding step thread_wake wait_or_finish
still r s t w = ground (
  arith, w.ready, w.holds, w.no_response, w.no_starting, w.one_waiting, w.no_leaving, w.same_id,
  w.same_informed, w.same_freed, w.shown,
)

finished :
    (o : Option Response) (r : ℕ) (s t : Ni)
    → IsWaiting r s t
    → Answered r (answer o) s (run (ended o s.req_id) t)
unfolding run step thread_wake wait_or_finish finish_wait thread_leave after_unlock
    loc_eng_ni_respond
finished none r s t w = ground (
  arith, w.ready, w.holds, w.no_response, w.no_starting, w.one_waiting, w.no_leaving, w.same_id,
  w.same_informed, w.same_freed, w.shown,
)
finished (some x) r s t w = ground (
  arith,
  w.ready,
  w.holds,
  w.no_response,
  w.no_starting,
  w.one_waiting,
  w.no_leaving,
  w.same_id,
  w.same_informed,
  w.same_freed,
  w.shown,
  ==_refl s.req_id,
)

waited :
    (k : ℕ) (o : Option Response) (r : ℕ) (s t : Ni)
    → IsWaiting r s t
    → Answered r (answer o) s (run (spurious k (ended o s.req_id)) t)
unfolding run
waited zero o r s t w = finished o r s t w
waited (suc k) o r s t w = waited k o r s (step (wake false) t) (still r s t w)

-- A request that comes to an idle interface is shown to the user under the current id and answered
-- once, with the response that the user gives to that id or with no response after the timeout,
-- however often the waiting thread wakes for no reason; then the interface is idle with the next id.
pub session-Answered :
    (n : Notif) (r k : ℕ) (o : Option Response) (s : Ni)
    → IsIdle s
    → Answered r
        (answer o)
        s
        (run (request n (some r) true ∷ start ∷ spurious k (ended o s.req_id)) s)
unfolding run
session-Answered n r k o s i =
    waited k o r s (step start (step (request n (some r) true) s)) (begun n r s i)

module _ (n : Notif) (r : ℕ) (s : Ni) where
  -- A request that comes between the unlock of the last session's thread and what the thread does
  -- after it is shown under an id that the session no longer has: no response to the id shown has
  -- an effect.
  pub overtaken-ignored :
      (id : ℕ) (m : Option Inform) (ms : List (Option Inform)) (x : Response)
      → s.ni_notify_cb ≡ true
      → s.raw_request ≡ none
      → s.leaving ≡ m ∷ ms
      → s.req_id ≡ id
      → id < 2 ^ 32
      → let t = run (request n (some r) true ∷ leave 0 ∷ []) s in
        (t.notified ≡ id ∷ s.notified) × (t.raw_request ≡ some r) × (step (respond id x) t ≡ t)
  unfolding run step loc_eng_ni_request_handler begin_session thread_leave after_unlock
      loc_eng_ni_respond
  overtaken-ignored id m ms x ready free leaving same small =
      ground (arith, ready, free, leaving, same, small)

  -- After a restart a request that comes before the old session's thread wakes is answered by that
  -- thread, though the user was not asked: with the response that was in memory.
  pub restart-answers :
      (q : ℕ) (x : Response)
      → s.ni_notify_cb ≡ true
      → s.raw_request ≡ some q
      → s.resp ≡ x
      → 0 < s.waiting
      → let t = run (restart ∷ request n (some r) true ∷ wake false ∷ leave 0 ∷ []) s in
        (t.informed ≡ record { response = x; raw = r } ∷ s.informed) × (t.raw_request ≡ none)
  unfolding run step loc_eng_ni_request_handler begin_session loc_eng_ni_reset_on_engine_restart
      thread_wake wait_or_finish finish_wait thread_leave after_unlock
  restart-answers q x ready holds same waiting = ground (arith, ready, holds, same, waiting)
