-- ===== src/Agps/Trace/Lost.antt =====
-- Two subscriptions that the machine accepts and never serves.
use device_samsung_msm8660_c.Common.{◌≡◌, refl, ◌∙◌, true, false, List, [], ◌∷◌, arith}
use device_samsung_msm8660_c.Agps.Types.{
  RsrcStatus, Subscriber, released, pending, Machine, request_data_conn,
}
use device_samsung_msm8660_c.Agps.Subscriber.{asking_one, to_group, broadcast_all}
use device_samsung_msm8660_c.Agps.Notify.{has_subscribers, notify_subscriber}
use device_samsung_msm8660_c.Agps.Facts.{find_subscriber_lem}
use device_samsung_msm8660_c.Agps.Machine.{Alloc, add_subscriber}
use device_samsung_msm8660_c.Agps.Machine.Kept.{state-add_subscriber, subscribers-send_rsrc_request}
use device_samsung_msm8660_c.Agps.States.{
  to_state, on_state_event, on_released, on_pending, subscribe_rsrc,
}
use device_samsung_msm8660_c.Agps.Trace.{Op, step, run}
use device_samsung_msm8660_c.Agps.Trace.Requests.{
  requests, requests-send, requests-add_subscriber, requests-notify,
}
use mathlib.Core.List.{map}

-- A machine that has nobody to serve takes the first subscription for pending.
starved-first :
    (a : Alloc) (s : Subscriber) (m : Machine)
    → m.state ≡ released
    → m.subscribers ≡ []
    → a.elem_ok ≡ false
    → let m' = subscribe_rsrc a s m in
      (m'.state ≡ pending) × (m'.subscribers ≡ []) × (requests m'.calls ≡ requests m.calls)
unfolding subscribe_rsrc on_state_event on_released to_state has_subscribers add_subscriber
starved-first a s m at empty failed =
    let m' = add_subscriber a s m in
    ground (
      arith,
      find_subscriber_lem m (asking_one s),
      requests-add_subscriber a s m,
      subscribers-send_rsrc_request request_data_conn m',
      requests-send request_data_conn m',
    )

-- The calls that are subscriptions.
abbrev pub subscription : Alloc × Subscriber → Op
subscription (a, s) = Op.subscribe a s

starved-step :
    (b : Alloc) (t : Subscriber) (m : Machine)
    → m.state ≡ pending
    → let m' = step (Op.subscribe b t) m in
      (m'.state ≡ pending) × (requests m'.calls ≡ requests m.calls)
unfolding step subscribe_rsrc on_state_event on_pending notify_subscriber
starved-step b t m at = ground (
  arith,
  state-add_subscriber b t m,
  requests-add_subscriber b t m,
  requests-notify m (to_group broadcast_all RsrcStatus.denied true) t m.calls,
)

starved-run :
    (later : List (Alloc × Subscriber)) (m : Machine)
    → m.state ≡ pending
    → let m' = run (map subscription later) m in
      (m'.state ≡ pending) × (requests m'.calls ≡ requests m.calls)
unfolding run
starved-run [] m at = (at, refl)
starved-run ((b, t) ∷ later) m at =
    let (still, same) = starved-step b t m at in
    let rest = starved-run later (step (Op.subscribe b t) m) still in (rest.0, rest.1 ∙ same)

-- When the list's allocation fails for the first subscription, the machine waits as if it had asked
-- for the connection, without having asked, and however many subscriptions follow, it never asks.
pub first-starves :
    (a : Alloc) (s : Subscriber) (m : Machine) (later : List (Alloc × Subscriber))
    → m.state ≡ released
    → m.subscribers ≡ []
    → a.elem_ok ≡ false
    → let m' = run (map subscription later) (subscribe_rsrc a s m) in
      (m'.state ≡ pending) × (requests m'.calls ≡ requests m.calls)
first-starves a s m later at empty failed =
    let first = starved-first a s m at empty failed in
    let rest = starved-run later (subscribe_rsrc a s m) first.0 in (rest.0, rest.1 ∙ first.2)
