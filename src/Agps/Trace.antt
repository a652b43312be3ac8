-- ===== src/Agps/Trace.antt =====
-- Sequences of calls of the state machine by its users, and its life from construction.
pub mod Settled
pub mod Single
pub mod Served
pub mod Asked
pub mod Subscribing
pub mod Leaks
pub mod Lost
pub mod Graph
pub mod Current
pub mod Requests
use device_samsung_msm8660_c.Common.{ℕ, Bool, Option, List, [], ◌∷◌, ◌≡◌, true}
use device_samsung_msm8660_c.Agps.Types.{AgpsType, Text, Subscriber, Machine}
use device_samsung_msm8660_c.Agps.Machine.{
  Alloc, new_machine, set_apn, set_bearer, drop_all_subscribers,
}
use device_samsung_msm8660_c.Agps.States.{
  RsrcEvent, on_rsrc_event, subscribe_rsrc, unsubscribe_rsrc,
}

-- The public methods that change a machine.
pub data Op : Type 0 where
  subscribe : Alloc → Subscriber → Op
  unsubscribe : Subscriber → Op
  event : RsrcEvent → Op
  apn : Option Text → ℕ → Op
  bearer : ℕ → Op
  drop_all : Op

unfoldable pub step : Op → Machine → Machine
step (subscribe a s) m = subscribe_rsrc a s m
step (unsubscribe s) m = (unsubscribe_rsrc s m).0
step (event e) m = on_rsrc_event e m
step (apn bytes len) m = set_apn bytes len m
step (bearer b) m = set_bearer b m
step drop_all m = drop_all_subscribers m

unfoldable pub run : List Op → Machine → Machine
run [] m = m
run (o ∷ os) m = run os (step o m)
