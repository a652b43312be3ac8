-- ===== src/Agps/Tests.antt =====
-- Runs of the machine, and its theorems at concrete inputs.
use device_samsung_msm8660_c.Common.{
  ◌≡◌, refl, true, false, not, List, [], ◌∷◌, arith, keep_if, none, some,
}
use mathlib.Core.List.{map}
use device_samsung_msm8660_c.LinkedList.Abstract
use device_samsung_msm8660_c.Agps.Types.{
  RsrcStatus, AgpsType, atl, wifi_client, Subscriber, pending, releasing, Machine,
  request_data_conn, release_data_conn,
}
use device_samsung_msm8660_c.Agps.Subscriber.{
  strn_eq, equals, is_inactive, wait_for_close_complete, set_inactive, for_me, clone, to_group,
  broadcast_all,
}
use device_samsung_msm8660_c.Agps.Notify.{
  answer, notify_rsrc_status, delete_obj, has_subscriber, notify_subscriber, has_subscribers,
  find_subscriber, has_active_subscribers, notify_search, after_search, notify_rounds,
  notify_subscribers,
}
use device_samsung_msm8660_c.Agps.Notify.Rounds.{told_from, notify_subscribers-deletes}
use device_samsung_msm8660_c.Agps.Machine.{
  Alloc, new_machine, set_apn, set_bearer, drop_all_subscribers, add_subscriber, nif_request_for,
  nif_request, send_rsrc_request,
}
use device_samsung_msm8660_c.Agps.States.{
  grant, to_state, set_inactive_at, drop_subscriber, leave_if_unused, on_released, on_pending,
  on_acquired, finish_release, on_releasing, on_state_event, on_rsrc_event, subscribe_rsrc,
  unsubscribe_rsrc,
}
use device_samsung_msm8660_c.Agps.Trace.{Op, step, run}
use device_samsung_msm8660_c.Agps.Trace.Settled.{IsSettled, run-IsSettled}
use device_samsung_msm8660_c.Agps.Trace.Served.{IsServed, run-IsServed}
use device_samsung_msm8660_c.Agps.Trace.Requests.{requests}
use device_samsung_msm8660_c.Agps.Trace.Asked.{step-asked}
use device_samsung_msm8660_c.Agps.Trace.Graph.{arrow_by, step-arrow}
use device_samsung_msm8660_c.Agps.Trace.Current.{IsCurrent, run-IsCurrent}
use device_samsung_msm8660_c.Agps.Trace.Subscribing.{
  lists, subscribe_rsrc-lists, unsubscribe_rsrc-removes,
}
use device_samsung_msm8660_c.Agps.Trace.Leaks.{deletions}
use device_samsung_msm8660_c.Agps.Trace.Lost.{subscription, first-starves}

abbrev memory : Alloc
memory = record { elem_ok = true; junk = [] }

abbrev no_memory : Alloc
no_memory = record { elem_ok = false; junk = [] }

abbrev modem : Subscriber
modem = record { addr = 90; id = 7; ipv6_addr = []; subclass = atl false }

abbrev quipc : Subscriber
quipc = record {
  addr = 91;
  id = 0;
  ipv6_addr = [];
  subclass = wifi_client (some (65 ∷ [])) none 0 false;
}

abbrev new_supl : Machine
new_supl = new_machine AgpsType.supl false 0

-- The machine after a run, with all that computes it.
after : List Op → Machine
unfolding strn_eq equals is_inactive wait_for_close_complete set_inactive for_me clone answer
    notify_rsrc_status delete_obj has_subscriber notify_subscriber has_subscribers find_subscriber
    has_active_subscribers notify_search after_search notify_rounds notify_subscribers new_machine
    set_apn set_bearer drop_all_subscribers add_subscriber nif_request_for nif_request
    send_rsrc_request to_state set_inactive_at drop_subscriber leave_if_unused on_released
    on_pending on_acquired finish_release on_releasing on_state_event on_rsrc_event subscribe_rsrc
    unsubscribe_rsrc step run Abstract.search Abstract.flush requests deletions
after os = run os new_supl

abbrev session : List Op
session =
    Op.subscribe memory modem
    ∷ Op.event grant
    ∷ Op.unsubscribe modem
    ∷ Op.subscribe memory quipc
    ∷ Op.unsubscribe quipc
    ∷ []

-- One client comes and goes, and the next leaves before it is served.
session_runs :
    ((after session).state ≡ releasing)
    × (requests (after session).calls
        ≡ release_data_conn ∷ request_data_conn ∷ release_data_conn ∷ request_data_conn ∷ [])
unfolding after
session_runs = (refl, refl)

run-IsSettled_example : IsSettled (run session new_supl)
run-IsSettled_example = run-IsSettled AgpsType.supl false 0 session

run-IsServed_example : IsServed (run session new_supl)
run-IsServed_example =
    run-IsServed AgpsType.supl false 0 session (refl, (tt, (tt, (refl, (tt, tt)))))

run-IsCurrent_example : IsCurrent (run session new_supl)
run-IsCurrent_example =
    run-IsCurrent AgpsType.supl false 0 session (refl, (tt, (tt, (refl, (tt, tt)))))

abbrev waiting : List Op
waiting = Op.subscribe memory modem ∷ Op.subscribe memory quipc ∷ []

notify_subscribers-deletes_example :
    notify_subscribers (after waiting) (to_group broadcast_all RsrcStatus.denied true)
    ≡ told_from
        (after waiting)
        (to_group broadcast_all RsrcStatus.denied true)
        (after waiting).subscribers
        (after waiting).calls
notify_subscribers-deletes_example =
    notify_subscribers-deletes (after waiting) (to_group broadcast_all RsrcStatus.denied true) refl

step-asked_example :
    requests (step (Op.subscribe memory modem) new_supl).calls ≡ request_data_conn ∷ []
unfolding after
step-asked_example = step-asked (Op.subscribe memory modem) new_supl refl (ground arith)

step-arrow_example :
    arrow_by (Op.event grant) (after waiting).state (step (Op.event grant) (after waiting)).state
    ≡ true
step-arrow_example = step-arrow (Op.event grant) (after waiting)

subscribe_rsrc-lists_example : lists (subscribe_rsrc memory quipc (after waiting)) quipc ≡ true
unfolding after
subscribe_rsrc-lists_example = subscribe_rsrc-lists memory quipc (after waiting) refl

unsubscribe_rsrc-removes_example :
    ((unsubscribe_rsrc modem (after waiting)).1 ≡ true)
    × ((unsubscribe_rsrc modem (after waiting)).0.subscribers
        ≡ keep_if (λ x. not (equals x (clone 0 [] modem))) (after waiting).subscribers)
unfolding after
unsubscribe_rsrc-removes_example =
    unsubscribe_rsrc-removes modem (clone 0 [] modem) (after waiting) refl refl (λ e. cc)

abbrev gone : List Op
gone = Op.subscribe memory quipc ∷ Op.unsubscribe quipc ∷ []

first-starves_example :
    let m' =
      run (map subscription ((memory, modem) ∷ [])) (subscribe_rsrc no_memory quipc new_supl) in
    (m'.state ≡ pending) × (requests m'.calls ≡ requests new_supl.calls)
unfolding new_machine
first-starves_example = first-starves no_memory quipc new_supl ((memory, modem) ∷ []) refl refl refl
