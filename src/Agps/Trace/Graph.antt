-- ===== src/Agps/Trace/Graph.antt =====
-- The transition diagram of the machine.
use device_samsung_msm8660_c.Common.{
  ◌≡◌, refl, Bool, true, false, ◌||◌, arith, inl, inr, Option-cases, ℕ, Option, none, some,
}
use device_samsung_msm8660_c.Agps.Types.{
  RsrcStatus, Text, State, released, pending, acquired, releasing, Machine,
}
use device_samsung_msm8660_c.Agps.Subscriber.{asking_one}
use device_samsung_msm8660_c.Agps.Notify.{find_subscriber}
use device_samsung_msm8660_c.Agps.Machine.{set_apn, set_bearer, drop_all_subscribers}
use device_samsung_msm8660_c.Agps.Machine.Kept.{state-add_subscriber}
use device_samsung_msm8660_c.Agps.States.{
  RsrcEvent, subscribe, unsubscribe, grant, release, deny, to_state, drop_subscriber, on_released,
  on_pending, on_acquired, on_releasing, on_state_event, on_rsrc_event, subscribe_rsrc,
  unsubscribe_rsrc,
}
use device_samsung_msm8660_c.Agps.States.Leaving.{
  state-drop_subscriber, state-leave_if_unused, state-finish_release,
}
use device_samsung_msm8660_c.Agps.Trace.{Op, step}

abbrev is_same : State → State → Bool
is_same released released = true
is_same pending pending = true
is_same acquired acquired = true
is_same releasing releasing = true
is_same _ _ = false

-- The arrows of the diagram, by event, those that leave the state as it is aside.
abbrev arrow : RsrcEvent → State → State → Bool
arrow (subscribe a s) released pending = true
arrow (unsubscribe s) pending released = true
arrow (unsubscribe s) pending releasing = true
arrow (unsubscribe s) acquired released = true
arrow (unsubscribe s) acquired releasing = true
arrow (unsubscribe s) releasing released = true
arrow grant pending acquired = true
arrow deny pending released = true
arrow deny releasing pending = true
arrow deny releasing released = true
arrow release acquired released = true
arrow release releasing pending = true
arrow release releasing released = true
arrow _ _ _ = false

abbrev pub arrow_by : Op → State → State → Bool
arrow_by (Op.subscribe a s) q q' = arrow (subscribe a s) q q' || is_same q q'
arrow_by (Op.unsubscribe s) q q' = arrow (unsubscribe s) q q' || is_same q q'
arrow_by (Op.event (subscribe a s)) q q' = is_same q q'
arrow_by (Op.event (unsubscribe s)) q q' = is_same q q'
arrow_by (Op.event e) q q' = arrow e q q' || is_same q q'
arrow_by _ q q' = is_same q q'

same_lem : (q : State) → is_same q q ≡ true
same_lem q = ground arith

on_state_event-arrow :
    (q : State) (e : RsrcEvent) (m : Machine)
    → m.state ≡ q
    → (arrow e q (on_state_event q e m).state || is_same q (on_state_event q e m).state) ≡ true
unfolding on_state_event on_released on_pending on_acquired on_releasing to_state
on_state_event-arrow pending (subscribe a s) m at = ground (arith, state-add_subscriber a s m)
on_state_event-arrow pending (unsubscribe s) m at =
    ground (arith, state-leave_if_unused (drop_subscriber s m), state-drop_subscriber s m)
on_state_event-arrow acquired (subscribe a s) m at = grind (arith, state-add_subscriber)
on_state_event-arrow acquired (unsubscribe s) m at =
    ground (arith, state-leave_if_unused (drop_subscriber s m), state-drop_subscriber s m)
on_state_event-arrow releasing (subscribe a s) m at = ground (arith, state-add_subscriber a s m)
on_state_event-arrow releasing (unsubscribe s) m at = ground (arith, state-drop_subscriber s m)
on_state_event-arrow releasing deny m at =
    ground (arith, state-finish_release m RsrcStatus.denied refl)
on_state_event-arrow releasing release m at =
    ground (arith, state-finish_release m RsrcStatus.released refl)
on_state_event-arrow _ _ m at = ground arith

set_apn-state :
    (bytes : Option Text) (len : ℕ) (m : Machine) → (set_apn bytes len m).state ≡ m.state
unfolding set_apn
set_apn-state none len m = refl
set_apn-state (some t) len m = refl

-- Every call of the machine follows an arrow of the diagram or leaves the state as it is.
pub step-arrow : (o : Op) (m : Machine) → arrow_by o m.state (step o m).state ≡ true
unfolding step subscribe_rsrc unsubscribe_rsrc on_rsrc_event set_bearer drop_all_subscribers
step-arrow (Op.subscribe a s) m =
    ground (arith, on_state_event-arrow m.state (subscribe a s) m refl, same_lem m.state)
step-arrow (Op.unsubscribe s) m = elim (Option-cases (find_subscriber m (asking_one s))) [
  | inl absent ↦ rw (absent, step) (ground (arith, same_lem m.state))
  | inr (t, there) ↦ rw (there, step) (on_state_event-arrow m.state (unsubscribe t) m refl)
]
step-arrow (Op.event grant) m = on_state_event-arrow m.state grant m refl
step-arrow (Op.event release) m = on_state_event-arrow m.state release m refl
step-arrow (Op.event deny) m = on_state_event-arrow m.state deny m refl
step-arrow (Op.event _) m = ground (arith, same_lem m.state)
step-arrow (Op.apn bytes len) m = rw (set_apn-state bytes len m) (same_lem m.state)
step-arrow (Op.bearer b) m = same_lem m.state
step-arrow Op.drop_all m = same_lem m.state
