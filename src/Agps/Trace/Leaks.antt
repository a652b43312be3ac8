-- ===== src/Agps/Trace/Leaks.antt =====
-- Which subscriber objects the machine destroys.
use device_samsung_msm8660_c.Common.{
  ◌≡◌, ◌≢◌, refl, ◌∙◌, ap, true, false, List, [], ◌∷◌, arith, inl, inr, ℕ, Option, none, some,
  Bool-cases, Option-cases,
}
use device_samsung_msm8660_c.Agps.Types.{
  RsrcStatus, Text, SubscriberClass, Subscriber, Notification, Call, data_conn, close_status,
  open_status, service, delete, State, released, pending, acquired, releasing, Machine, StatusValue,
  request_data_conn, release_data_conn,
}
use device_samsung_msm8660_c.Agps.Subscriber.{
  asking_one, to_group, to_one, broadcast_inactive, broadcast_all,
}
use device_samsung_msm8660_c.Agps.Notify.{
  answer, notify_rsrc_status, notify_subscriber, notify_subscribers, find_subscriber,
}
use device_samsung_msm8660_c.Agps.Notify.Told.{tell_all}
use device_samsung_msm8660_c.Agps.Notify.Rounds.{
  notify_subscribers-deletes, notify_subscribers-keeps,
}
use device_samsung_msm8660_c.Agps.Machine.{
  Alloc, set_apn, set_bearer, add_subscriber, send_rsrc_request,
}
use device_samsung_msm8660_c.Agps.States.{
  RsrcEvent, subscribe, unsubscribe, grant, release, deny, to_state, drop_subscriber,
  set_inactive_at, leave_if_unused, on_released, on_pending, on_acquired, finish_release,
  on_releasing, on_state_event, on_rsrc_event, subscribe_rsrc, unsubscribe_rsrc,
}
use device_samsung_msm8660_c.Agps.Trace.{Op, step}

-- The subscriber objects destroyed in a list of calls.
unfoldable pub deletions : List Call → List ℕ
deletions [] = []
deletions (delete a ∷ calls) = a ∷ deletions calls
deletions (service _ ∷ calls) = deletions calls
deletions (data_conn _ _ ∷ calls) = deletions calls
deletions (close_status _ _ ∷ calls) = deletions calls
deletions (open_status _ _ _ _ _ ∷ calls) = deletions calls

deletions-answer :
    (m : Machine) (c : SubscriberClass) (id : ℕ) (status : RsrcStatus) (calls : List Call)
    → deletions (answer m c id status calls).1 ≡ deletions calls
unfolding answer deletions
deletions-answer m c id status calls = ground arith

deletions-notify :
    (m : Machine) (n : Notification) (s : Subscriber) (calls : List Call)
    → deletions (notify_rsrc_status m n s calls).1 ≡ deletions calls
unfolding notify_rsrc_status
deletions-notify m n s calls =
    ground (arith, deletions-answer m s.subclass s.id n.rsrc_status calls)

deletions-tell_all :
    (m : Machine) (n : Notification) (xs : List Subscriber) (calls : List Call)
    → deletions (tell_all m n xs calls) ≡ deletions calls
unfolding tell_all
deletions-tell_all m n [] calls = refl
deletions-tell_all m n (x ∷ xs) calls = deletions-tell_all m n xs _ ∙ deletions-notify m n x calls

deletions-notify_subscribers :
    (m : Machine) (n : Notification) → deletions (notify_subscribers m n).calls ≡ deletions m.calls
deletions-notify_subscribers m n =
    let told = deletions-tell_all m n m.subscribers m.calls in
    elim (Bool-cases n.post_notify_delete) [
      | inl e ↦ ap (λ (k : Machine). deletions k.calls) (notify_subscribers-deletes m n e) ∙ told
      | inr e ↦ ap (λ (k : Machine). deletions k.calls) (notify_subscribers-keeps m n e) ∙ told
    ]

deletions-send :
    (action : StatusValue) (m : Machine)
    → deletions (send_rsrc_request action m).calls ≡ deletions m.calls
unfolding send_rsrc_request deletions
deletions-send action m = ground arith

deletions-add :
    (a : Alloc) (s : Subscriber) (m : Machine)
    → deletions (add_subscriber a s m).calls ≡ deletions m.calls
unfolding add_subscriber
deletions-add a s m = ground arith

deletions-drop :
    (s : Subscriber) (m : Machine) → deletions (drop_subscriber s m).calls ≡ deletions m.calls
unfolding drop_subscriber set_inactive_at
deletions-drop s m =
    ground (arith, deletions-notify_subscribers m (to_one s RsrcStatus.unsubscribe true))

deletions-leave : (m : Machine) → deletions (leave_if_unused m).calls ≡ deletions m.calls
unfolding leave_if_unused to_state
deletions-leave m = ground (arith, deletions-send release_data_conn m)

deletions-finish :
    (status : RsrcStatus) (m : Machine)
    → deletions (finish_release status m).calls ≡ deletions m.calls
unfolding finish_release to_state
deletions-finish status m =
    let n = to_group broadcast_inactive status true in
    let m' = notify_subscribers m n in
    ground (arith, deletions-send request_data_conn m', deletions-notify_subscribers m n)

on_state_event-deletions :
    (q : State) (e : RsrcEvent) (m : Machine)
    → deletions (on_state_event q e m).calls ≡ deletions m.calls
unfolding on_state_event on_released on_pending on_acquired on_releasing to_state
on_state_event-deletions released (subscribe a s) m =
    deletions-send request_data_conn (add_subscriber a s m) ∙ deletions-add a s m
on_state_event-deletions released (unsubscribe s) m =
    deletions-notify m (to_one s RsrcStatus.unsubscribe false) s m.calls
on_state_event-deletions pending (subscribe a s) m = deletions-add a s m
on_state_event-deletions pending (unsubscribe s) m =
    deletions-leave (drop_subscriber s m) ∙ deletions-drop s m
on_state_event-deletions pending grant m = deletions-notify_subscribers m _
on_state_event-deletions pending deny m = deletions-notify_subscribers m _
on_state_event-deletions acquired (subscribe a s) m =
    deletions-add a s _ ∙ deletions-notify m (to_one s RsrcStatus.granted false) s m.calls
on_state_event-deletions acquired (unsubscribe s) m =
    deletions-leave (drop_subscriber s m) ∙ deletions-drop s m
on_state_event-deletions acquired release m = deletions-notify_subscribers m _
on_state_event-deletions releasing (subscribe a s) m = deletions-add a s m
on_state_event-deletions releasing (unsubscribe s) m = ground (arith, deletions-drop s m)
on_state_event-deletions releasing deny m = deletions-finish RsrcStatus.denied m
on_state_event-deletions releasing release m = deletions-finish RsrcStatus.released m
on_state_event-deletions _ _ m = refl

set_apn-calls :
    (bytes : Option Text) (len : ℕ) (m : Machine) → (set_apn bytes len m).calls ≡ m.calls
unfolding set_apn
set_apn-calls none len m = refl
set_apn-calls (some t) len m = refl

-- No call but the reset of the whole list ever destroys a subscriber object, so that every clone
-- taken out of the list by a notification is leaked.
pub step-deletions :
    (o : Op) (m : Machine) → o ≢ Op.drop_all → deletions (step o m).calls ≡ deletions m.calls
unfolding step subscribe_rsrc unsubscribe_rsrc on_rsrc_event set_bearer notify_subscriber
step-deletions (Op.subscribe a s) m ne = ground (
  arith,
  on_state_event-deletions m.state (subscribe a s) m,
  deletions-notify m (to_group broadcast_all RsrcStatus.denied true) s m.calls,
)
step-deletions (Op.unsubscribe s) m ne = elim (Option-cases (find_subscriber m (asking_one s))) [
  | inl absent ↦ rw (absent, step)
  | inr (t, there) ↦ rw (there, step) (on_state_event-deletions m.state (unsubscribe t) m)
]
step-deletions (Op.event grant) m ne = on_state_event-deletions m.state grant m
step-deletions (Op.event release) m ne = on_state_event-deletions m.state release m
step-deletions (Op.event deny) m ne = on_state_event-deletions m.state deny m
step-deletions (Op.event _) m ne = refl
step-deletions (Op.apn bytes len) m ne = rw (set_apn-calls bytes len m)
step-deletions (Op.bearer b) m ne = refl
step-deletions Op.drop_all m ne = absurd (ne refl)
