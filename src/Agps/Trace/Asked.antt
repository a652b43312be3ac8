-- ===== src/Agps/Trace/Asked.antt =====
-- The requests made by each call of the machine, and what the last one says of the state.
use device_samsung_msm8660_c.Common.{
  ◌≡◌, ◌⊎◌, refl, ◌∙◌, ap, true, false, List, [], ◌∷◌, ◌++◌, arith, inl, inr, Option-cases, ℕ,
  Option, none, some,
}
use device_samsung_msm8660_c.Agps.Types.{
  RsrcStatus, Text, Subscriber, State, released, pending, acquired, releasing, Machine, StatusValue,
  request_data_conn, release_data_conn,
}
use device_samsung_msm8660_c.Agps.Subscriber.{
  to_group, to_one, asking_one, broadcast_active, broadcast_inactive, broadcast_all,
}
use device_samsung_msm8660_c.Agps.Notify.{
  notify_subscriber, notify_subscribers, has_subscribers, find_subscriber,
}
use device_samsung_msm8660_c.Agps.Notify.Told.{is_news}
use device_samsung_msm8660_c.Agps.Facts.{is_active, any-keep_if, has_active_subscribers_lem}
use device_samsung_msm8660_c.Agps.Machine.{set_apn, set_bearer, add_subscriber}
use device_samsung_msm8660_c.Agps.Machine.Kept.{active-add_subscriber_first, state-add_subscriber}
use device_samsung_msm8660_c.Agps.States.{
  RsrcEvent, subscribe, unsubscribe, grant, release, deny, to_state, drop_subscriber,
  leave_if_unused, on_released, on_pending, on_acquired, finish_release, on_releasing,
  on_state_event, on_rsrc_event, subscribe_rsrc, unsubscribe_rsrc,
}
use device_samsung_msm8660_c.Agps.States.Leaving.{
  state-drop_subscriber, subscribers-notify_inactive,
}
use device_samsung_msm8660_c.Agps.Trace.{Op, step}
use device_samsung_msm8660_c.Agps.Trace.Served.{IsServed, Undisturbed, Allocated}
use device_samsung_msm8660_c.Agps.Trace.Requests.{
  requests, requests-notify, requests-notify_subscribers, requests-add_subscriber,
  requests-drop_subscriber, requests-send,
}

-- The requests that an event makes, by the state that it meets and the one that it leaves.
abbrev pub asked : RsrcEvent → State → State → List StatusValue
asked (unsubscribe s) pending released = release_data_conn ∷ []
asked (unsubscribe s) pending releasing = release_data_conn ∷ []
asked (unsubscribe s) acquired released = release_data_conn ∷ []
asked (unsubscribe s) acquired releasing = release_data_conn ∷ []
asked _ released pending = request_data_conn ∷ []
asked _ releasing pending = request_data_conn ∷ []
asked _ _ _ = []

requests-leave_if_unused :
    (s : Subscriber) (q : State) (m : Machine)
    → m.state ≡ q
    → (q ≡ pending) ⊎ (q ≡ acquired)
    → requests (leave_if_unused m).calls
      ≡ asked (unsubscribe s) q (leave_if_unused m).state ++ requests m.calls
unfolding leave_if_unused to_state has_subscribers
requests-leave_if_unused s q m at live =
    ground (arith, has_active_subscribers_lem m, requests-send release_data_conn m)

requests-finish_release :
    (e : RsrcEvent) (status : RsrcStatus) (m : Machine)
    → is_news status ≡ true
    → (e ≡ deny) ⊎ (e ≡ release)
    → requests (finish_release status m).calls
      ≡ asked e releasing (finish_release status m).state ++ requests m.calls
unfolding finish_release to_state has_subscribers
requests-finish_release e status m news which =
    let n = to_group broadcast_inactive status true in
    let m' = notify_subscribers m n in
    ground (
      arith,
      requests-notify_subscribers m n,
      subscribers-notify_inactive m status news,
      any-keep_if is_active m.subscribers,
      requests-send request_data_conn m',
    )

on_state_event-asked :
    (q : State) (e : RsrcEvent) (m : Machine)
    → m.state ≡ q
    → Allocated e
    → IsServed m
    → requests (on_state_event q e m).calls
      ≡ asked e q (on_state_event q e m).state ++ requests m.calls
unfolding on_state_event on_released on_pending on_acquired on_releasing to_state has_subscribers
on_state_event-asked released (subscribe a s) m at ok h = ground (
  arith,
  active-add_subscriber_first a s m ok (h.settled at),
  requests-add_subscriber a s m,
  requests-send request_data_conn (add_subscriber a s m),
)
on_state_event-asked released (unsubscribe s) m at ok h =
    ground (arith, requests-notify m (to_one s RsrcStatus.unsubscribe false) s m.calls)
on_state_event-asked pending (subscribe a s) m at ok h =
    ground (arith, state-add_subscriber a s m, requests-add_subscriber a s m)
on_state_event-asked pending (unsubscribe s) m at ok h =
    requests-leave_if_unused s pending (drop_subscriber s m)
      (ground (arith, state-drop_subscriber s m)) (inl refl)
    ∙ ap (λ r. asked (unsubscribe s) pending (leave_if_unused (drop_subscriber s m)).state ++ r)
        (requests-drop_subscriber s m)
on_state_event-asked pending grant m at ok h =
    requests-notify_subscribers m (to_group broadcast_active RsrcStatus.granted false)
on_state_event-asked pending deny m at ok h =
    requests-notify_subscribers m (to_group broadcast_all RsrcStatus.denied true)
on_state_event-asked acquired (subscribe a s) m at ok h =
    grind (arith, state-add_subscriber, requests-add_subscriber, requests-notify)
on_state_event-asked acquired (unsubscribe s) m at ok h =
    requests-leave_if_unused s acquired (drop_subscriber s m)
      (ground (arith, state-drop_subscriber s m)) (inr refl)
    ∙ ap (λ r. asked (unsubscribe s) acquired (leave_if_unused (drop_subscriber s m)).state ++ r)
        (requests-drop_subscriber s m)
on_state_event-asked acquired release m at ok h =
    requests-notify_subscribers m (to_group broadcast_all RsrcStatus.released true)
on_state_event-asked releasing (subscribe a s) m at ok h =
    ground (arith, state-add_subscriber a s m, requests-add_subscriber a s m)
on_state_event-asked releasing (unsubscribe s) m at ok h =
    ground (arith, state-drop_subscriber s m, requests-drop_subscriber s m)
on_state_event-asked releasing deny m at ok h =
    requests-finish_release deny RsrcStatus.denied m refl (inl refl)
on_state_event-asked releasing release m at ok h =
    requests-finish_release release RsrcStatus.released m refl (inr refl)
on_state_event-asked _ _ m at ok h = ground arith

abbrev pub asked_by : Op → State → State → List StatusValue
asked_by (Op.unsubscribe s) q q' = asked (unsubscribe s) q q'
asked_by _ q q' = asked grant q q'

set_apn-asked :
    (bytes : Option Text) (len : ℕ) (m : Machine)
    → requests (set_apn bytes len m).calls
      ≡ asked grant m.state (set_apn bytes len m).state ++ requests m.calls
unfolding set_apn
set_apn-asked none len m = ground arith
set_apn-asked (some t) len m = ground arith

unchanged-asked : (e : RsrcEvent) (q : State) → asked e q q ≡ []
unchanged-asked e q = ground arith

-- Each call sends at most one request: the connection is requested exactly on the way from released
-- or releasing to pending, and its release is requested exactly when an unsubscription takes a
-- pending or acquired machine to releasing or released. This supposes a served machine, and that the
-- call's allocation succeeds and it is not the reset.
pub step-asked :
    (o : Op) (m : Machine)
    → Undisturbed o
    → IsServed m
    → requests (step o m).calls ≡ asked_by o m.state (step o m).state ++ requests m.calls
unfolding step subscribe_rsrc unsubscribe_rsrc on_rsrc_event set_bearer notify_subscriber
step-asked (Op.subscribe a s) m ok h = ground (
  arith,
  on_state_event-asked m.state (subscribe a s) m refl ok h,
  requests-notify m (to_group broadcast_all RsrcStatus.denied true) s m.calls,
  unchanged-asked grant m.state,
)
step-asked (Op.unsubscribe s) m ok h = elim (Option-cases (find_subscriber m (asking_one s))) [
  | inl absent ↦ rw (absent, step) (rw (unchanged-asked (unsubscribe s) m.state))
  | inr (t, there) ↦ rw (there, step) (on_state_event-asked m.state (unsubscribe t) m refl tt h)
]
step-asked (Op.event grant) m ok h = on_state_event-asked m.state grant m refl tt h
step-asked (Op.event release) m ok h =
    ground (arith, on_state_event-asked m.state release m refl tt h)
step-asked (Op.event deny) m ok h = ground (arith, on_state_event-asked m.state deny m refl tt h)
step-asked (Op.event _) m ok h = rw (unchanged-asked grant m.state)
step-asked (Op.apn bytes len) m ok h = set_apn-asked bytes len m
step-asked (Op.bearer b) m ok h = ground (arith, unchanged-asked grant m.state)
step-asked Op.drop_all m ok h = absurd ok
