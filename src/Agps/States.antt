-- ===== src/Agps/States.antt =====
-- `onRsrcEvent` of the four states and of the machine, `subscribeRsrc` and `unsubscribeRsrc`, in
-- loc_eng_agps.cpp.
pub mod Leaving
use device_samsung_msm8660_c.Common.{Bool, true, false, ◌&&◌, none, some, ◌==◌, if◌then◌else◌}
use mathlib.Core.List.{map}
use device_samsung_msm8660_c.Agps.Types.{
  RsrcStatus, Subscriber, request_data_conn, release_data_conn, State, released, pending, acquired,
  releasing, Machine,
}
use device_samsung_msm8660_c.Agps.Subscriber.{
  wait_for_close_complete, set_inactive, to_group, to_one, asking_one, broadcast_all,
  broadcast_active, broadcast_inactive,
}
use device_samsung_msm8660_c.Agps.Notify.{
  notify_rsrc_status, notify_subscriber, notify_subscribers, find_subscriber, has_subscribers,
  has_active_subscribers,
}
use device_samsung_msm8660_c.Agps.Machine.{Alloc, add_subscriber, send_rsrc_request}

-- An event with its `data`. The subscriber of an `unsubscribe` is the one in the list.
pub data RsrcEvent : Type 0 where
  subscribe : Alloc → Subscriber → RsrcEvent
  unsubscribe : Subscriber → RsrcEvent
  grant release deny unknown : RsrcEvent

unfoldable pub to_state : State → Machine → Machine
to_state q m = record m { state = q }

-- `subscriber->setInactive()` through a pointer into the list.
unfoldable pub set_inactive_at : Subscriber → Machine → Machine
set_inactive_at s m = record m {
  subscribers = map (λ t. if t.addr == s.addr then set_inactive t else t) m.subscribers;
}

-- How the pending, acquired and releasing states begin with an `RSRC_UNSUBSCRIBE`.
unfoldable pub drop_subscriber : Subscriber → Machine → Machine
drop_subscriber s m =
    if wait_for_close_complete s
    then set_inactive_at s m
    else notify_subscribers m (to_one s RsrcStatus.unsubscribe true)

-- How the pending and acquired states end it.
unfoldable pub leave_if_unused : Machine → Machine
leave_if_unused m =
    if has_subscribers m
    then if has_active_subscribers m
      then m
      else to_state releasing (send_rsrc_request release_data_conn m)
    else to_state released (send_rsrc_request release_data_conn m)

-- `AgpsReleasedState::onRsrcEvent`; an unexpected subscriber is told that it is unsubscribed.
unfoldable pub on_released : RsrcEvent → Machine → Machine
on_released (subscribe a s) m =
    to_state pending (send_rsrc_request request_data_conn (add_subscriber a s m))
on_released (unsubscribe s) m = record m {
  calls = (notify_rsrc_status m (to_one s RsrcStatus.unsubscribe false) s m.calls).1;
}
on_released _ m = m

-- `AgpsPendingState::onRsrcEvent`
unfoldable pub on_pending : RsrcEvent → Machine → Machine
on_pending (subscribe a s) m = add_subscriber a s m
on_pending (unsubscribe s) m = leave_if_unused (drop_subscriber s m)
on_pending grant m =
    to_state acquired (notify_subscribers m (to_group broadcast_active RsrcStatus.granted false))
on_pending deny m =
    to_state released (notify_subscribers m (to_group broadcast_all RsrcStatus.denied true))
on_pending _ m = m

-- `AgpsAcquiredState::onRsrcEvent`
unfoldable pub on_acquired : RsrcEvent → Machine → Machine
on_acquired (subscribe a s) m =
    let granted = (notify_rsrc_status m (to_one s RsrcStatus.granted false) s m.calls).1 in
    add_subscriber a s (record m { calls = granted })
on_acquired (unsubscribe s) m = leave_if_unused (drop_subscriber s m)
on_acquired release m =
    to_state released (notify_subscribers m (to_group broadcast_all RsrcStatus.released true))
on_acquired _ m = m

-- How the releasing state ends a release or a denial.
unfoldable pub finish_release : RsrcStatus → Machine → Machine
finish_release status m =
    let m' = notify_subscribers m (to_group broadcast_inactive status true) in
    if has_subscribers m'
    then to_state pending (send_rsrc_request request_data_conn m')
    else to_state released m'

-- `AgpsReleasingState::onRsrcEvent`
unfoldable pub on_releasing : RsrcEvent → Machine → Machine
on_releasing (subscribe a s) m = add_subscriber a s m
on_releasing (unsubscribe s) m =
    let m' = drop_subscriber s m in if has_subscribers m' then m' else to_state released m'
on_releasing deny m = finish_release RsrcStatus.denied m
on_releasing release m = finish_release RsrcStatus.released m
on_releasing _ m = m

-- The virtual call `mStatePtr->onRsrcEvent(event, data)`.
unfoldable pub on_state_event : State → RsrcEvent → Machine → Machine
on_state_event released e m = on_released e m
on_state_event pending e m = on_pending e m
on_state_event acquired e m = on_acquired e m
on_state_event releasing e m = on_releasing e m

-- `AgpsStateMachine::onRsrcEvent` lets three events through.
unfoldable pub on_rsrc_event : RsrcEvent → Machine → Machine
on_rsrc_event grant m = on_state_event m.state grant m
on_rsrc_event release m = on_state_event m.state release m
on_rsrc_event deny m = on_state_event m.state deny m
on_rsrc_event _ m = m

-- `subscribeRsrc`
unfoldable pub subscribe_rsrc : Alloc → Subscriber → Machine → Machine
subscribe_rsrc a s m =
    if m.enforce_single && has_subscribers m
    then record m {
      calls = (notify_subscriber m (to_group broadcast_all RsrcStatus.denied true) s m.calls).1;
    }
    else on_state_event m.state (subscribe a s) m

-- `unsubscribeRsrc`
unfoldable pub unsubscribe_rsrc : Subscriber → Machine → Machine × Bool
unsubscribe_rsrc s m = elim (find_subscriber m (asking_one s)) [
  | none ↦ (m, false)
  | some t ↦ (on_state_event m.state (unsubscribe t) m, true)
]
