-- ===== src/MsgQ/Threads.antt =====
-- Any number of senders and receivers on one queue, one critical section at a time. A condition
-- variable keeps its waiters asleep until it is signalled, or until they wake for no reason.
use device_samsung_msm8660_c.Common.{
  ℕ, ◌+◌, ◌-◌, Bool, false, none, some, List, [], ◌∷◌, ◌++◌, ltb, if◌then◌else◌,
}
use mathlib.Core.List.{map}
use device_samsung_msm8660_c.LinkedList.Tail.{oldest_first}
use device_samsung_msm8660_c.LinkedList.Search.{Object}
use device_samsung_msm8660_c.MsgQ.{
  MsgQ, MsgQErr, q_success, Wake, wake_none, wake_one, wake_all, Turn, sleeps, returns, msg_q_snd,
  rcv_turn, msg_q_rcv, msg_q_flush, msg_q_unblock,
}

-- How a message leaves the queue.
pub data Departure : Type 0 where
  received flushed : Object → Departure

abbrev pub message : Departure → Object
message (received o) = o
message (flushed o) = o

-- `waiting` receivers sleep in `pthread_cond_wait`; `woken` ones have left it and are about to take
-- the mutex. `sent` is the messages accepted and `gone` those that left the queue, the first one
-- first; `turned_away` counts the receivers that returned without a message.
pub record System : Type 0 where
  pub queue : MsgQ
  pub waiting : ℕ
  pub woken : ℕ
  pub sent : List Object
  pub gone : List Departure
  pub turned_away : ℕ

-- What may happen next.
pub data Event : Type 0 where
  send : (malloc_ok : Bool) → Object → Event
  enter resume spurious flush unblock : Event

unfoldable pub wake : Wake → System → System
wake wake_none s = s
wake wake_one s =
    if ltb 0 s.waiting then record s { waiting = s.waiting - 1; woken = s.woken + 1 } else s
wake wake_all s = record s { waiting = 0; woken = s.woken + s.waiting }

-- A receiver's turn ends.
unfoldable pub end_turn : Turn → System → System
end_turn sleeps s = record s { waiting = s.waiting + 1 }
end_turn (returns err none q) s = record s { queue = q; turned_away = s.turned_away + 1 }
end_turn (returns err (some o) q) s = record s { queue = q; gone = s.gone ++ received o ∷ [] }

abbrev accepted : MsgQErr → Object → List Object → List Object
accepted q_success o sent = sent ++ o ∷ []
accepted _ o sent = sent

unfoldable pub step : Event → System → System
step (send malloc_ok o) s =
    let (err, q, w) = msg_q_snd malloc_ok o s.queue in
    wake w (record s { queue = q; sent = accepted err o s.sent })
step enter s = end_turn (msg_q_rcv s.queue) s
step resume s =
    if ltb 0 s.woken then end_turn (rcv_turn s.queue) (record s { woken = s.woken - 1 }) else s
step spurious s =
    if ltb 0 s.waiting then record s { waiting = s.waiting - 1; woken = s.woken + 1 } else s
step flush s = record s {
  queue = (msg_q_flush s.queue).1;
  gone = s.gone ++ map flushed (oldest_first s.queue.msg_list);
}
step unblock s = let (err, q, w) = msg_q_unblock s.queue in wake w (record s { queue = q })

unfoldable pub run : List Event → System → System
run [] s = s
run (e ∷ es) s = run es (step e s)

abbrev pub idle : System
idle = record {
  queue = record { msg_list = []; unblocked = false };
  waiting = 0;
  woken = 0;
  sent = [];
  gone = [];
  turned_away = 0;
}
