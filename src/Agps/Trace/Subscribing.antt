-- ===== src/Agps/Trace/Subscribing.antt =====
-- What a subscription and an unsubscription do to the list.
use device_samsung_msm8660_c.Common.{
  ◌≡◌, ◌≢◌, refl, ◌∙◌, ap, Bool, true, false, ◌&&◌, not, List, arith, is_some, keep_if, find?, inl,
  inr, some, if◌then◌else◌, Bool-cases,
}
use device_samsung_msm8660_c.Agps.Types.{
  RsrcStatus, Subscriber, State, released, pending, acquired, releasing, Machine, request_data_conn,
}
use device_samsung_msm8660_c.Agps.Subscriber.{
  equals, for_me, asking_one, to_one, wait_for_close_complete,
}
use device_samsung_msm8660_c.Agps.Notify.{find_subscriber, has_subscribers}
use device_samsung_msm8660_c.Agps.Notify.Rounds.{notify_subscribers-deletes}
use device_samsung_msm8660_c.Agps.Facts.{find_subscriber_lem, equals-clone, stay-one}
use device_samsung_msm8660_c.Agps.Machine.{Alloc, add_subscriber}
use device_samsung_msm8660_c.Agps.Machine.Kept.{subscribers-send_rsrc_request}
use device_samsung_msm8660_c.Agps.States.{
  subscribe, unsubscribe, to_state, drop_subscriber, on_released, on_pending, on_acquired,
  on_releasing, on_state_event, subscribe_rsrc, unsubscribe_rsrc,
}
use device_samsung_msm8660_c.Agps.States.Leaving.{subscribers-leave_if_unused}

-- Whether a machine's list has a subscriber that equals `s`.
abbrev pub lists : Machine → Subscriber → Bool
lists m s = is_some (find? (λ t. equals t s) m.subscribers)

lists-find : (m : Machine) (s : Subscriber) → is_some (find_subscriber m (asking_one s)) ≡ lists m s
unfolding for_me
lists-find m s = ap is_some (find_subscriber_lem m (asking_one s))

add_subscriber-lists :
    (a : Alloc) (s : Subscriber) (m : Machine)
    → a.elem_ok ≡ true
    → lists (add_subscriber a s m) s ≡ true
unfolding add_subscriber
add_subscriber-lists a s m ok = ground (arith, lists-find m s, equals-clone m.next_addr a.junk s)

on_state_event-lists :
    (q : State) (a : Alloc) (s : Subscriber) (m : Machine)
    → a.elem_ok ≡ true
    → lists (on_state_event q (subscribe a s) m) s ≡ true
unfolding on_state_event on_released on_pending on_acquired on_releasing to_state
on_state_event-lists released a s m ok =
    rw (subscribers-send_rsrc_request request_data_conn (add_subscriber a s m))
      (add_subscriber-lists a s m ok)
on_state_event-lists pending a s m ok = add_subscriber-lists a s m ok
on_state_event-lists acquired a s m ok = add_subscriber-lists a s _ ok
on_state_event-lists releasing a s m ok = add_subscriber-lists a s m ok

-- In every state a subscription whose allocation succeeds leaves an equal subscriber in the list,
-- unless the machine takes one subscriber only and has one: then the list stays as it is.
pub subscribe_rsrc-lists :
    (a : Alloc) (s : Subscriber) (m : Machine)
    → a.elem_ok ≡ true
    → if m.enforce_single && has_subscribers m
      then (subscribe_rsrc a s m).subscribers ≡ m.subscribers
      else lists (subscribe_rsrc a s m) s ≡ true
unfolding subscribe_rsrc
subscribe_rsrc-lists a s m ok = elim (Bool-cases (m.enforce_single && has_subscribers m)) [
  | inl busy ↦ rw (busy, subscribe_rsrc) refl
  | inr free ↦ rw (free, subscribe_rsrc) (on_state_event-lists m.state a s m ok)
]

abbrev without : Subscriber → List Subscriber → List Subscriber
without t xs = keep_if (λ x. not (equals x t)) xs

drop_subscriber-removes :
    (t : Subscriber) (m : Machine)
    → wait_for_close_complete t ≡ false
    → (drop_subscriber t m).subscribers ≡ without t m.subscribers
unfolding drop_subscriber
drop_subscriber-removes t m now = rw now (
    ap (λ (k : Machine). k.subscribers)
      (notify_subscribers-deletes m (to_one t RsrcStatus.unsubscribe true) refl)
    ∙ stay-one RsrcStatus.unsubscribe true t m.subscribers refl)

on_state_event-removes :
    (q : State) (t : Subscriber) (m : Machine)
    → wait_for_close_complete t ≡ false
    → q ≢ released
    → (on_state_event q (unsubscribe t) m).subscribers ≡ without t m.subscribers
unfolding on_state_event on_pending on_acquired on_releasing to_state
on_state_event-removes released t m now live = absurd (live refl)
on_state_event-removes pending t m now live =
    subscribers-leave_if_unused (drop_subscriber t m) ∙ drop_subscriber-removes t m now
on_state_event-removes acquired t m now live =
    subscribers-leave_if_unused (drop_subscriber t m) ∙ drop_subscriber-removes t m now
on_state_event-removes releasing t m now live = ground (arith, drop_subscriber-removes t m now)

-- Where the machine is not released, the unsubscription of a subscriber that is found in the list and
-- needs no confirmed close reports that it was found, and leaves the list without it and whatever
-- equals it; the others stay, in order.
pub unsubscribe_rsrc-removes :
    (s t : Subscriber) (m : Machine)
    → find_subscriber m (asking_one s) ≡ some t
    → wait_for_close_complete t ≡ false
    → m.state ≢ released
    → ((unsubscribe_rsrc s m).1 ≡ true)
      × ((unsubscribe_rsrc s m).0.subscribers ≡ keep_if (λ x. not (equals x t)) m.subscribers)
unfolding unsubscribe_rsrc
unsubscribe_rsrc-removes s t m there now live =
    rw (there, unsubscribe_rsrc) (refl, on_state_event-removes m.state t m now live)
