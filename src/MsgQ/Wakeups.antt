-- ===== src/MsgQ/Wakeups.antt =====
-- No receiver sleeps while there is a message for it, nor after the queue was unblocked.
use device_samsung_msm8660_c.Common.{
  ℕ, ◌+◌, ◌-◌, ◌≤◌, ◌<◌, ◌≡◌, ap, Bool, false, List, [], ◌∷◌, ◌++◌, arith, length, inl, inr,
  length-append,
}
use device_samsung_msm8660_c.LinkedList.Abstract
use device_samsung_msm8660_c.LinkedList.Search.{Object}
use device_samsung_msm8660_c.LinkedList.Tail.{unsnoc}
use device_samsung_msm8660_c.MsgQ.{
  convert_linked_list_err_type, msg_q_snd, take_message, rcv_turn, msg_q_rcv, msg_q_flush,
  msg_q_unblock,
}
use device_samsung_msm8660_c.MsgQ.Fifo.{turn-snoc}
use device_samsung_msm8660_c.MsgQ.Threads.{
  System, Event, send, enter, resume, spurious, flush, unblock, wake, end_turn, step, run, idle,
}

-- While a receiver sleeps the queue is not unblocked, and every queued message has a receiver that
-- is awake and about to take it.
pub record NoneForgotten (s : System) : Type 0 where
  pub blocked : 0 < s.waiting → s.queue.unblocked ≡ false
  pub covered : 0 < s.waiting → length s.queue.msg_list ≤ s.woken

send-NoneForgotten :
    (malloc_ok : Bool) (o : Object) (s : System)
    → NoneForgotten s
    → NoneForgotten (step (send malloc_ok o) s)
unfolding step msg_q_snd wake convert_linked_list_err_type
send-NoneForgotten malloc_ok o s h = ground (arith, h.blocked, h.covered)

turn-nil :
    (s : System)
    → s.queue.msg_list ≡ []
    → (0 < s.waiting → s.queue.unblocked ≡ false)
    → NoneForgotten (end_turn (rcv_turn s.queue) s)
unfolding end_turn rcv_turn take_message Abstract.remove
turn-nil s empty blocked = ground (arith, blocked)

shorter :
    (os : List Object) (o : Object) (all : List Object)
    → all ≡ os ++ o ∷ []
    → {n : ℕ} → length all ≤ n + 1
    → length os ≤ n
shorter os o all e h = omega (arith, length-append os (o ∷ []), ap length e)

-- A turn of a receiver that was counted in `woken` or has just come.
turn-covered :
    (s : System)
    → (0 < s.waiting → s.queue.unblocked ≡ false)
    → (0 < s.waiting → length s.queue.msg_list ≤ s.woken + 1)
    → NoneForgotten (end_turn (rcv_turn s.queue) s)
turn-covered s blocked covered = elim (unsnoc s.queue.msg_list) [
  | inl empty ↦ turn-nil s empty blocked
  | inr (os, o, e) ↦
      rw (turn-snoc s os o e)
        record { blocked = blocked; covered = λ p. shorter os o s.queue.msg_list e (covered p) }
]

resume-covered :
    (s : System)
    → NoneForgotten s
    → 0 < s.woken
    → NoneForgotten (end_turn (rcv_turn s.queue) (record s { woken = s.woken - 1 }))
resume-covered s h lt =
    turn-covered (record s { woken = s.woken - 1 }) h.blocked (λ p. omega (arith, h.covered p, lt))

step-NoneForgotten : (e : Event) (s : System) → NoneForgotten s → NoneForgotten (step e s)
unfolding step msg_q_rcv msg_q_flush msg_q_unblock end_turn wake
step-NoneForgotten (send malloc_ok o) s h = send-NoneForgotten malloc_ok o s h
step-NoneForgotten enter s h =
    ground (arith, h.blocked, turn-covered s h.blocked (λ p. omega (arith, h.covered p)))
step-NoneForgotten resume s h = ground (arith, h.blocked, h.covered, resume-covered s h)
step-NoneForgotten spurious s h = ground (arith, h.blocked, h.covered)
step-NoneForgotten flush s h = ground (arith, h.blocked, h.covered)
step-NoneForgotten unblock s h = ground (arith, h.blocked, h.covered)

run-from-NoneForgotten : (es : List Event) (s : System) → NoneForgotten s → NoneForgotten (run es s)
unfolding run
run-from-NoneForgotten [] s h = h
run-from-NoneForgotten (e ∷ es) s h =
    run-from-NoneForgotten es (step e s) (step-NoneForgotten e s h)

-- However the calls interleave on a queue from its start on, while a receiver sleeps the queue is
-- not unblocked, and each queued message has a receiver that was woken and has yet to take the mutex.
pub run-NoneForgotten : (es : List Event) → NoneForgotten (run es idle)
run-NoneForgotten es = run-from-NoneForgotten es idle (ground arith)
