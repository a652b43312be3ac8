-- ===== src/Agps/Trace/Served.antt =====
-- While the resource is asked for or held, somebody wants it.
use device_samsung_msm8660_c.Common.{
  ◌≡◌, ◌≢◌, ◌⊎◌, refl, Bool, true, List, [], ◌∷◌, arith, any, inl, inr, Option-cases, ℕ, Option,
  none, some, All,
}
use device_samsung_msm8660_c.Agps.Types.{
  RsrcStatus, AgpsType, Text, State, released, pending, acquired, releasing, Machine,
  request_data_conn,
}
use device_samsung_msm8660_c.Agps.Subscriber.{asking_one, broadcast_active}
use device_samsung_msm8660_c.Agps.Notify.{has_subscribers, find_subscriber}
use device_samsung_msm8660_c.Agps.Notify.Told.{is_news}
use device_samsung_msm8660_c.Agps.Facts.{is_active, any-keep_if}
use device_samsung_msm8660_c.Agps.Machine.{new_machine, set_apn, set_bearer, add_subscriber}
use device_samsung_msm8660_c.Agps.Machine.Kept.{
  state-add_subscriber, active-add_subscriber, active-add_subscriber_first, add_subscriber-ne_nil,
  subscribers-send_rsrc_request,
}
use device_samsung_msm8660_c.Agps.States.{
  RsrcEvent, subscribe, unsubscribe, grant, release, deny, to_state, drop_subscriber,
  leave_if_unused, on_released, on_pending, on_acquired, finish_release, on_releasing,
  on_state_event, on_rsrc_event, subscribe_rsrc, unsubscribe_rsrc,
}
use device_samsung_msm8660_c.Agps.States.Leaving.{
  state-drop_subscriber, subscribers-notify_all, subscribers-notify_kept, state-leave_if_unused,
  subscribers-leave_if_unused, state-finish_release, subscribers-finish_release,
}
use device_samsung_msm8660_c.Agps.Trace.{Op, step, run}

pub record IsServed (m : Machine) : Type 0 where
  pub settled : m.state ≡ released → m.subscribers ≡ []
  pub asked : m.state ≡ pending → any is_active m.subscribers ≡ true
  pub held : m.state ≡ acquired → any is_active m.subscribers ≡ true
  pub closing : m.state ≡ releasing → m.subscribers ≢ []

-- The list's `malloc` succeeds where the event makes it.
abbrev pub Allocated : RsrcEvent → Type 0
Allocated (subscribe a s) = a.elem_ok ≡ true
Allocated _ = Unit

leave_if_unused-IsServed :
    (m : Machine) → (m.state ≡ pending) ⊎ (m.state ≡ acquired) → IsServed (leave_if_unused m)
leave_if_unused-IsServed m live =
    let e = state-leave_if_unused m in let f = subscribers-leave_if_unused m in ground arith

finish_release-IsServed :
    (m : Machine) (status : RsrcStatus) → is_news status ≡ true → IsServed (finish_release status m)
finish_release-IsServed m status news =
    let e = state-finish_release m status news in
    let f = subscribers-finish_release m status news in
    ground (arith, any-keep_if is_active m.subscribers)

pub on_state_event-IsServed :
    (q : State) (e : RsrcEvent) (m : Machine)
    → m.state ≡ q
    → Allocated e
    → IsServed m
    → IsServed (on_state_event q e m)
unfolding on_state_event on_released on_pending on_acquired on_releasing to_state has_subscribers
on_state_event-IsServed released (subscribe a s) m at ok h =
    let m' = add_subscriber a s m in
    ground (
      arith,
      active-add_subscriber_first a s m ok (h.settled at),
      subscribers-send_rsrc_request request_data_conn m',
    )
on_state_event-IsServed pending (subscribe a s) m at ok h =
    ground (arith, state-add_subscriber a s m, active-add_subscriber a s m)
on_state_event-IsServed pending (unsubscribe s) m at ok h =
    leave_if_unused-IsServed (drop_subscriber s m) (ground (arith, state-drop_subscriber s m))
on_state_event-IsServed pending grant m at ok h =
    ground (arith, subscribers-notify_kept m broadcast_active RsrcStatus.granted)
on_state_event-IsServed pending deny m at ok h =
    ground (arith, subscribers-notify_all m RsrcStatus.denied refl)
on_state_event-IsServed acquired (subscribe a s) m at ok h =
    grind (arith, state-add_subscriber, active-add_subscriber)
on_state_event-IsServed acquired (unsubscribe s) m at ok h =
    leave_if_unused-IsServed (drop_subscriber s m) (ground (arith, state-drop_subscriber s m))
on_state_event-IsServed acquired release m at ok h =
    ground (arith, subscribers-notify_all m RsrcStatus.released refl)
on_state_event-IsServed releasing (subscribe a s) m at ok h =
    ground (arith, state-add_subscriber a s m, add_subscriber-ne_nil a s m)
on_state_event-IsServed releasing (unsubscribe s) m at ok h =
    ground (arith, state-drop_subscriber s m)
on_state_event-IsServed releasing deny m at ok h = finish_release-IsServed m RsrcStatus.denied refl
on_state_event-IsServed releasing release m at ok h =
    finish_release-IsServed m RsrcStatus.released refl
on_state_event-IsServed _ _ m at ok h = ground arith

-- A call that allocates with success, and that is not the reset after an engine restart.
abbrev pub Undisturbed : Op → Type 0
Undisturbed (Op.subscribe a s) = a.elem_ok ≡ true
Undisturbed Op.drop_all = ⊥
Undisturbed _ = Unit

set_apn-IsServed :
    (bytes : Option Text) (len : ℕ) (m : Machine) → IsServed m → IsServed (set_apn bytes len m)
unfolding set_apn
set_apn-IsServed none len m h = ground arith
set_apn-IsServed (some t) len m h = ground arith

pub step-IsServed : (o : Op) (m : Machine) → Undisturbed o → IsServed m → IsServed (step o m)
unfolding step subscribe_rsrc unsubscribe_rsrc on_rsrc_event set_bearer
step-IsServed (Op.subscribe a s) m ok h =
    ground (arith, on_state_event-IsServed m.state (subscribe a s) m refl ok h)
step-IsServed (Op.unsubscribe s) m ok h = elim (Option-cases (find_subscriber m (asking_one s))) [
  | inl absent ↦ rw (absent, step) h
  | inr (t, there) ↦ rw (there, step) (on_state_event-IsServed m.state (unsubscribe t) m refl tt h)
]
step-IsServed (Op.event grant) m ok h = on_state_event-IsServed m.state grant m refl tt h
step-IsServed (Op.event release) m ok h = on_state_event-IsServed m.state release m refl tt h
step-IsServed (Op.event deny) m ok h = on_state_event-IsServed m.state deny m refl tt h
step-IsServed (Op.event _) m ok h = h
step-IsServed (Op.apn bytes len) m ok h = set_apn-IsServed bytes len m h
step-IsServed (Op.bearer b) m ok h = ground arith
step-IsServed Op.drop_all m ok h = absurd ok

run_from-IsServed :
    (os : List Op) (m : Machine) → All Undisturbed os → IsServed m → IsServed (run os m)
unfolding run
run_from-IsServed [] m ok h = h
run_from-IsServed (o ∷ os) m ok h = run_from-IsServed os (step o m) ok.1 (step-IsServed o m ok.0 h)

-- From construction on, while no allocation of the list fails and the list is not reset, the machine
-- is released exactly as long as it has no subscribers, a releasing machine has some, and a machine
-- that is pending or has acquired the resource has one that is active.
pub run-IsServed :
    (type : AgpsType) (enforce : Bool) (bearer : ℕ) (os : List Op)
    → All Undisturbed os
    → IsServed (run os (new_machine type enforce bearer))
unfolding new_machine
run-IsServed type enforce bearer os ok = run_from-IsServed os _ ok (ground arith)
