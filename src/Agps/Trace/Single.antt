-- ===== src/Agps/Trace/Single.antt =====
-- What a machine is for stays, and one that takes a single subscriber has no more.
use device_samsung_msm8660_c.Common.{
  ◌≡◌, refl, ◌+◌, ◌≤◌, Bool, true, false, not, List, [], ◌∷◌, arith, length, inl, inr, Bool-cases,
  Option-cases, ℕ, none, some, if◌then◌else◌, subst, sym, ◌==◌, length-keep_if,
}
use mathlib.Core.List.{map}
use device_samsung_msm8660_c.Agps.Types.{
  RsrcStatus, AgpsType, Subscriber, Notification, StatusValue, State, released, pending, acquired,
  releasing, Machine, request_data_conn, release_data_conn,
}
use device_samsung_msm8660_c.Agps.Subscriber.{
  asking_one, to_one, to_group, broadcast_all, broadcast_active, broadcast_inactive, set_inactive,
}
use device_samsung_msm8660_c.Agps.Notify.{
  has_subscribers, find_subscriber, notify_subscribers, notify_rsrc_status,
}
use device_samsung_msm8660_c.Agps.Notify.Told.{takes}
use device_samsung_msm8660_c.Agps.Notify.Rounds.{
  notify_subscribers-deletes, notify_subscribers-keeps,
}
use device_samsung_msm8660_c.Agps.Machine.{
  Alloc, new_machine, add_subscriber, send_rsrc_request, set_apn, set_bearer, drop_all_subscribers,
}
use device_samsung_msm8660_c.Agps.States.{
  RsrcEvent, subscribe, unsubscribe, grant, release, deny, to_state, set_inactive_at,
  drop_subscriber, leave_if_unused, on_released, on_pending, on_acquired, finish_release,
  on_releasing, on_state_event, on_rsrc_event, subscribe_rsrc, unsubscribe_rsrc,
}
use device_samsung_msm8660_c.Agps.Trace.{Op, step, run}

-- A machine is for the same, and has at most so many subscribers.
record Bounded (m : Machine) (n : ℕ) (m' : Machine) : Type 0 where
  type_same : m'.type ≡ m.type
  single_same : m'.enforce_single ≡ m.enforce_single
  bounded : length m'.subscribers ≤ n

abbrev Shrinks : Machine → Machine → Type 0
Shrinks m m' = Bounded m (length m.subscribers) m'

Shrinks-trans : (m m' m'' : Machine) → Shrinks m m' → Shrinks m' m'' → Shrinks m m''
Shrinks-trans m m' m'' h k = record {
  type_same = ground (arith, h.type_same, k.type_same);
  single_same = ground (arith, h.single_same, k.single_same);
  bounded = omega (arith, h.bounded, k.bounded);
}

notify-Shrinks : (m : Machine) (n : Notification) → Shrinks m (notify_subscribers m n)
notify-Shrinks m n = elim (Bool-cases n.post_notify_delete) [
  | inl e ↦ subst (Shrinks m) (sym (notify_subscribers-deletes m n e)) (record {
    type_same = refl;
    single_same = refl;
    bounded = length-keep_if (λ s. not (takes n s)) m.subscribers;
  })
  | inr e ↦
      subst (Shrinks m) (sym (notify_subscribers-keeps m n e))
        (record { type_same = refl; single_same = refl; bounded = omega arith })
]

send-Shrinks : (action : StatusValue) (m : Machine) → Shrinks m (send_rsrc_request action m)
unfolding send_rsrc_request
send-Shrinks action m = ground arith

length-set_inactive :
    (s : Subscriber) (xs : List Subscriber)
    → length (map (λ t. if t.addr == s.addr then set_inactive t else t) xs) ≡ length xs
length-set_inactive s [] = refl
length-set_inactive s (x ∷ xs) = omega (arith, length-set_inactive s xs)

drop_subscriber-Shrinks : (s : Subscriber) (m : Machine) → Shrinks m (drop_subscriber s m)
unfolding drop_subscriber set_inactive_at
drop_subscriber-Shrinks s m =
    let h = notify-Shrinks m (to_one s RsrcStatus.unsubscribe true) in
    ground (arith, h.type_same, h.single_same, h.bounded, length-set_inactive s m.subscribers)

leave_if_unused-Shrinks : (m : Machine) → Shrinks m (leave_if_unused m)
unfolding leave_if_unused to_state
leave_if_unused-Shrinks m =
    let h = send-Shrinks release_data_conn m in
    ground (arith, h.type_same, h.single_same, h.bounded)

finish_release-Shrinks : (status : RsrcStatus) (m : Machine) → Shrinks m (finish_release status m)
unfolding finish_release to_state
finish_release-Shrinks status m =
    let m' = notify_subscribers m (to_group broadcast_inactive status true) in
    let h = notify-Shrinks m (to_group broadcast_inactive status true) in
    let k = send-Shrinks request_data_conn m' in
    ground (arith, h.type_same, h.single_same, h.bounded, k.type_same, k.single_same, k.bounded)

add_subscriber-Bounded :
    (a : Alloc) (s : Subscriber) (m : Machine)
    → Bounded m (length m.subscribers + 1) (add_subscriber a s m)
unfolding add_subscriber
add_subscriber-Bounded a s m = ground arith

to_state-Shrinks : (q : State) (m m' : Machine) → Shrinks m m' → Shrinks m (to_state q m')
unfolding to_state
to_state-Shrinks q m m' h = record {
  type_same = h.type_same;
  single_same = h.single_same;
  bounded = h.bounded;
}

abbrev is_subscribe : RsrcEvent → Bool
is_subscribe (subscribe a s) = true
is_subscribe _ = false

on_state_event-Shrinks :
    (q : State) (e : RsrcEvent) (m : Machine)
    → is_subscribe e ≡ false
    → Shrinks m (on_state_event q e m)
unfolding on_state_event on_released on_pending on_acquired on_releasing to_state
on_state_event-Shrinks q (subscribe a s) m other = ground arith
on_state_event-Shrinks released e m other = ground arith
on_state_event-Shrinks pending (unsubscribe s) m other =
    Shrinks-trans m (drop_subscriber s m) _ (drop_subscriber-Shrinks s m)
      (leave_if_unused-Shrinks (drop_subscriber s m))
on_state_event-Shrinks acquired (unsubscribe s) m other =
    Shrinks-trans m (drop_subscriber s m) _ (drop_subscriber-Shrinks s m)
      (leave_if_unused-Shrinks (drop_subscriber s m))
on_state_event-Shrinks releasing (unsubscribe s) m other =
    let h = drop_subscriber-Shrinks s m in ground (arith, h.type_same, h.single_same, h.bounded)
on_state_event-Shrinks releasing deny m other = finish_release-Shrinks RsrcStatus.denied m
on_state_event-Shrinks releasing release m other = finish_release-Shrinks RsrcStatus.released m
on_state_event-Shrinks pending grant m other =
    to_state-Shrinks acquired m _
      (notify-Shrinks m (to_group broadcast_active RsrcStatus.granted false))
on_state_event-Shrinks pending deny m other =
    to_state-Shrinks released m _ (notify-Shrinks m (to_group broadcast_all RsrcStatus.denied true))
on_state_event-Shrinks acquired release m other =
    to_state-Shrinks released m _
      (notify-Shrinks m (to_group broadcast_all RsrcStatus.released true))
on_state_event-Shrinks _ _ m other = ground arith

on_state_event-Bounded :
    (q : State) (a : Alloc) (s : Subscriber) (m : Machine)
    → Bounded m (length m.subscribers + 1) (on_state_event q (subscribe a s) m)
unfolding on_state_event on_released on_pending on_acquired on_releasing to_state
on_state_event-Bounded released a s m =
    let m' = add_subscriber a s m in
    let h = add_subscriber-Bounded a s m in
    let k = send-Shrinks request_data_conn m' in
    ground (arith, h.type_same, h.single_same, h.bounded, k.type_same, k.single_same, k.bounded)
on_state_event-Bounded pending a s m = add_subscriber-Bounded a s m
on_state_event-Bounded acquired a s m =
    let granted = (notify_rsrc_status m (to_one s RsrcStatus.granted false) s m.calls).1 in
    let h = add_subscriber-Bounded a s (record m { calls = granted }) in
    record { type_same = h.type_same; single_same = h.single_same; bounded = h.bounded }
on_state_event-Bounded releasing a s m = add_subscriber-Bounded a s m

-- A machine is for a type, and if it takes a single subscriber it has one at most.
pub record IsFor (type : AgpsType) (single : Bool) (m : Machine) : Type 0 where
  pub has_type : m.type ≡ type
  pub has_single : m.enforce_single ≡ single
  pub at_most_one : single ≡ true → length m.subscribers ≤ 1

module _ {type : AgpsType} {single : Bool} where
  shrunk-IsFor : (m m' : Machine) → Shrinks m m' → IsFor type single m → IsFor type single m'
  shrunk-IsFor m m' k h =
      ground (arith, k.type_same, k.single_same, k.bounded, h.has_type, h.has_single, h.at_most_one)

  subscribe-IsFor :
      (a : Alloc) (s : Subscriber) (m : Machine)
      → IsFor type single m
      → IsFor type single (subscribe_rsrc a s m)
  unfolding subscribe_rsrc has_subscribers
  subscribe-IsFor a s m h =
      let k = on_state_event-Bounded m.state a s m in
      ground (arith, k.type_same, k.single_same, k.bounded, h.has_type, h.has_single, h.at_most_one)

  unsubscribe-IsFor :
      (s : Subscriber) (m : Machine)
      → IsFor type single m
      → IsFor type single (unsubscribe_rsrc s m).0
  unfolding unsubscribe_rsrc
  unsubscribe-IsFor s m h = elim (Option-cases (find_subscriber m (asking_one s))) [
    | inl absent ↦ rw (absent, unsubscribe_rsrc) h
    | inr (t, there) ↦
        rw (there, unsubscribe_rsrc)
          (shrunk-IsFor m (on_state_event m.state (unsubscribe t) m)
            (on_state_event-Shrinks m.state (unsubscribe t) m refl) h)
  ]

  step-IsFor : (o : Op) (m : Machine) → IsFor type single m → IsFor type single (step o m)
  unfolding step on_rsrc_event set_apn set_bearer drop_all_subscribers
  step-IsFor (Op.subscribe a s) m h = subscribe-IsFor a s m h
  step-IsFor (Op.unsubscribe s) m h = unsubscribe-IsFor s m h
  step-IsFor (Op.event grant) m h = shrunk-IsFor m _ (on_state_event-Shrinks m.state grant m refl) h
  step-IsFor (Op.event release) m h =
      shrunk-IsFor m _ (on_state_event-Shrinks m.state release m refl) h
  step-IsFor (Op.event deny) m h = shrunk-IsFor m _ (on_state_event-Shrinks m.state deny m refl) h
  step-IsFor (Op.event _) m h = h
  step-IsFor (Op.apn none len) m h = record {
    has_type = h.has_type;
    has_single = h.has_single;
    at_most_one = h.at_most_one;
  }
  step-IsFor (Op.apn (some t) len) m h = record {
    has_type = h.has_type;
    has_single = h.has_single;
    at_most_one = h.at_most_one;
  }
  step-IsFor (Op.bearer b) m h = record {
    has_type = h.has_type;
    has_single = h.has_single;
    at_most_one = h.at_most_one;
  }
  step-IsFor Op.drop_all m h = record {
    has_type = h.has_type;
    has_single = h.has_single;
    at_most_one = λ e. omega arith;
  }

  run-from-IsFor : (os : List Op) (m : Machine) → IsFor type single m → IsFor type single (run os m)
  unfolding run
  run-from-IsFor [] m h = h
  run-from-IsFor (o ∷ os) m h = run-from-IsFor os (step o m) (step-IsFor o m h)

-- From construction on a machine stays what it was made for, after any calls.
pub run-IsFor :
    (type : AgpsType) (single : Bool) (bearer : ℕ) (os : List Op)
    → IsFor type single (run os (new_machine type single bearer))
unfolding new_machine
run-IsFor type single bearer os =
    run-from-IsFor os _
      (record { has_type = refl; has_single = refl; at_most_one = λ e. omega arith })
