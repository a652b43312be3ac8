-- ===== src/MsgQ/Fifo.antt =====
-- Messages leave the queue once each, in the order in which they were accepted.
use device_samsung_msm8660_c.Common.{
  ◌-◌, ◌≡◌, refl, ap, subst, Bool, false, List, [], ◌∷◌, ◌++◌, arith, is_nil, inl, inr,
}
use mathlib.Core.List.{map, append_assoc, append-nil, map-append}
use device_samsung_msm8660_c.LinkedList.Abstract
use device_samsung_msm8660_c.LinkedList.Search.{Object}
use device_samsung_msm8660_c.LinkedList.Tail.{oldest_first, oldest_first-snoc, remove-snoc, unsnoc}
use device_samsung_msm8660_c.MsgQ.{
  convert_linked_list_err_type, msg_q_snd, take_message, rcv_turn, msg_q_rcv, msg_q_flush,
  msg_q_unblock,
}
use device_samsung_msm8660_c.MsgQ.Threads.{
  System, Departure, received, flushed, message, Event, send, enter, resume, spurious, flush,
  unblock, wake, end_turn, step, run, idle,
}

-- All that was accepted has left or is still queued, in order.
abbrev pub IsFifo : System → Type 0
IsFifo s = s.sent ≡ map message s.gone ++ oldest_first s.queue.msg_list

turn-IsFifo-nil :
    (s : System) → s.queue.msg_list ≡ [] → IsFifo s → IsFifo (end_turn (rcv_turn s.queue) s)
unfolding end_turn rcv_turn take_message Abstract.remove
turn-IsFifo-nil s empty h = ground arith

messages-flushed : (os : List Object) → map message (map flushed os) ≡ os
messages-flushed [] = refl
messages-flushed (o ∷ os) = ap (λ r. o ∷ r) (messages-flushed os)

is_nil-snoc : (os : List Object) (o : Object) → is_nil (os ++ o ∷ []) ≡ false
is_nil-snoc [] o = refl
is_nil-snoc (p ∷ os) o = refl

pub turn-snoc :
    (s : System) (os : List Object) (o : Object)
    → s.queue.msg_list ≡ os ++ o ∷ []
    → end_turn (rcv_turn s.queue) s ≡ record s {
      queue = record { msg_list = os; unblocked = s.queue.unblocked };
      gone = s.gone ++ received o ∷ [];
    }
unfolding end_turn rcv_turn take_message
turn-snoc s os o e = ground (arith, remove-snoc os o, is_nil-snoc os o)

fifo-snoc :
    (gone : List Departure) (sent os : List Object) (o : Object)
    → sent ≡ map message gone ++ oldest_first (os ++ o ∷ [])
    → sent ≡ map message (gone ++ received o ∷ []) ++ oldest_first os
fifo-snoc gone sent os o h = rw (
  map-append message gone (received o ∷ []),
  append_assoc (map message gone) (o ∷ []) (oldest_first os),
  h,
  oldest_first-snoc os o,
)

turn-IsFifo : (s : System) → IsFifo s → IsFifo (end_turn (rcv_turn s.queue) s)
turn-IsFifo s h = elim (unsnoc s.queue.msg_list) [
  | inl empty ↦ turn-IsFifo-nil s empty h
  | inr (os, o, e) ↦ rw (turn-snoc s os o e) (
      fifo-snoc s.gone s.sent os o (subst (λ l. s.sent ≡ map message s.gone ++ oldest_first l) e h))
]

send-IsFifo :
    (malloc_ok : Bool) (o : Object) (s : System) → IsFifo s → IsFifo (step (send malloc_ok o) s)
unfolding step msg_q_snd convert_linked_list_err_type wake
send-IsFifo malloc_ok o s h =
    let e = append_assoc (map message s.gone) (oldest_first s.queue.msg_list) (o ∷ []) in
    ground (arith, e)

flush-IsFifo : (s : System) → IsFifo s → IsFifo (step flush s)
unfolding step msg_q_flush
flush-IsFifo s h = rw (
  map-append message s.gone (map flushed (oldest_first s.queue.msg_list)),
  messages-flushed (oldest_first s.queue.msg_list),
  append-nil (map message s.gone ++ oldest_first s.queue.msg_list),
  h,
)

pub step-IsFifo : (e : Event) (s : System) → IsFifo s → IsFifo (step e s)
unfolding step msg_q_rcv end_turn msg_q_unblock wake
step-IsFifo (send malloc_ok o) s h = send-IsFifo malloc_ok o s h
step-IsFifo enter s h = ground (arith, turn-IsFifo s h)
step-IsFifo resume s h = ground (arith, turn-IsFifo (record s { woken = s.woken - 1 }) h)
step-IsFifo spurious s h = ground arith
step-IsFifo flush s h = flush-IsFifo s h
step-IsFifo unblock s h = ground arith

run-from-IsFifo : (es : List Event) (s : System) → IsFifo s → IsFifo (run es s)
unfolding run
run-from-IsFifo [] s h = h
run-from-IsFifo (e ∷ es) s h = run-from-IsFifo es (step e s) (step-IsFifo e s h)

-- However senders, receivers, flushes and unblocking interleave on a queue from its start on, the
-- messages accepted are those that were received or flushed, in the order in which they left,
-- followed by those still queued, the oldest first: none is lost, repeated or overtaken.
pub run-IsFifo :
    (es : List Event)
    → (run es idle).sent
      ≡ map message (run es idle).gone ++ oldest_first (run es idle).queue.msg_list
run-IsFifo es = run-from-IsFifo es idle refl
