-- ===== src/Agps/Trace/Settled.antt =====
-- In the released state nobody is subscribed, after any calls.
use device_samsung_msm8660_c.Common.{
  ◌≡◌, ◌≢◌, refl, Bool, true, List, [], ◌∷◌, arith, is_nil, inl, inr, Option-cases, ℕ, Option, none,
  some,
}
use device_samsung_msm8660_c.Agps.Types.{
  RsrcStatus, AgpsType, Text, State, released, pending, acquired, releasing, Machine,
}
use device_samsung_msm8660_c.Agps.Subscriber.{asking_one}
use device_samsung_msm8660_c.Agps.Notify.{has_subscribers, find_subscriber}
use device_samsung_msm8660_c.Agps.Notify.Told.{is_news}
use device_samsung_msm8660_c.Agps.Facts.{is_active, any-keep_if}
use device_samsung_msm8660_c.Agps.Machine.{new_machine, set_apn, set_bearer, drop_all_subscribers}
use device_samsung_msm8660_c.Agps.Machine.Kept.{state-add_subscriber}
use device_samsung_msm8660_c.Agps.States.{
  RsrcEvent, subscribe, unsubscribe, grant, release, deny, to_state, drop_subscriber,
  leave_if_unused, on_released, on_pending, on_acquired, finish_release, on_releasing,
  on_state_event, on_rsrc_event, subscribe_rsrc, unsubscribe_rsrc,
}
use device_samsung_msm8660_c.Agps.States.Leaving.{
  state-drop_subscriber, subscribers-notify_all, state-leave_if_unused, subscribers-leave_if_unused,
  state-finish_release, subscribers-finish_release,
}
use device_samsung_msm8660_c.Agps.Trace.{Op, step, run}

abbrev pub IsSettled : Machine → Type 0
IsSettled m = m.state ≡ released → is_nil m.subscribers ≡ true

leave_if_unused-IsSettled : (m : Machine) → m.state ≢ released → IsSettled (leave_if_unused m)
leave_if_unused-IsSettled m ne =
    rw (state-leave_if_unused m, subscribers-leave_if_unused m) (ground arith)

finish_release-IsSettled :
    (m : Machine) (status : RsrcStatus)
    → is_news status ≡ true
    → IsSettled (finish_release status m)
finish_release-IsSettled m status news =
    rw (state-finish_release m status news, subscribers-finish_release m status news)
      (ground (arith, any-keep_if is_active m.subscribers))

on_state_event-IsSettled :
    (q : State) (e : RsrcEvent) (m : Machine)
    → m.state ≡ q
    → IsSettled m
    → IsSettled (on_state_event q e m)
unfolding on_state_event on_released on_pending on_acquired on_releasing to_state has_subscribers
on_state_event-IsSettled released (subscribe a s) m at h = ground arith
on_state_event-IsSettled pending (subscribe a s) m at h = ground (arith, state-add_subscriber a s m)
on_state_event-IsSettled pending (unsubscribe s) m at h =
    leave_if_unused-IsSettled (drop_subscriber s m) (ground (arith, state-drop_subscriber s m))
on_state_event-IsSettled pending deny m at h =
    ground (arith, subscribers-notify_all m RsrcStatus.denied refl)
on_state_event-IsSettled acquired (subscribe a s) m at h = grind (arith, state-add_subscriber)
on_state_event-IsSettled acquired (unsubscribe s) m at h =
    leave_if_unused-IsSettled (drop_subscriber s m) (ground (arith, state-drop_subscriber s m))
on_state_event-IsSettled acquired release m at h =
    ground (arith, subscribers-notify_all m RsrcStatus.released refl)
on_state_event-IsSettled releasing (subscribe a s) m at h =
    ground (arith, state-add_subscriber a s m)
on_state_event-IsSettled releasing (unsubscribe s) m at h =
    ground (arith, state-drop_subscriber s m)
on_state_event-IsSettled releasing deny m at h = finish_release-IsSettled m RsrcStatus.denied refl
on_state_event-IsSettled releasing release m at h =
    finish_release-IsSettled m RsrcStatus.released refl
on_state_event-IsSettled _ _ m at h = ground arith

set_apn-IsSettled :
    (bytes : Option Text) (len : ℕ) (m : Machine) → IsSettled m → IsSettled (set_apn bytes len m)
unfolding set_apn
set_apn-IsSettled none len m h = h
set_apn-IsSettled (some t) len m h = h

step-IsSettled : (o : Op) (m : Machine) → IsSettled m → IsSettled (step o m)
unfolding step subscribe_rsrc unsubscribe_rsrc on_rsrc_event set_bearer drop_all_subscribers
step-IsSettled (Op.subscribe a s) m h =
    ground (arith, on_state_event-IsSettled m.state (subscribe a s) m refl h)
step-IsSettled (Op.unsubscribe s) m h = elim (Option-cases (find_subscriber m (asking_one s))) [
  | inl absent ↦ rw (absent, step) h
  | inr (t, there) ↦ rw (there, step) (on_state_event-IsSettled m.state (unsubscribe t) m refl h)
]
step-IsSettled (Op.event grant) m h = on_state_event-IsSettled m.state grant m refl h
step-IsSettled (Op.event release) m h = on_state_event-IsSettled m.state release m refl h
step-IsSettled (Op.event deny) m h = on_state_event-IsSettled m.state deny m refl h
step-IsSettled (Op.event _) m h = h
step-IsSettled (Op.apn bytes len) m h = set_apn-IsSettled bytes len m h
step-IsSettled (Op.bearer b) m h = h
step-IsSettled Op.drop_all m h = λ e. refl

run_from-IsSettled : (os : List Op) (m : Machine) → IsSettled m → IsSettled (run os m)
unfolding run
run_from-IsSettled [] m h = h
run_from-IsSettled (o ∷ os) m h = run_from-IsSettled os (step o m) (step-IsSettled o m h)

-- From construction on, whatever calls are made and whichever allocations fail, a machine in the
-- released state has no subscribers.
pub run-IsSettled :
    (type : AgpsType) (enforce : Bool) (bearer : ℕ) (os : List Op)
    → IsSettled (run os (new_machine type enforce bearer))
unfolding new_machine
run-IsSettled type enforce bearer os = run_from-IsSettled os _ (λ e. refl)
