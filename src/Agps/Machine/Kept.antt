-- ===== src/Agps/Machine/Kept.antt =====
-- What the machine's methods leave unchanged.
use device_samsung_msm8660_c.Common.{◌≡◌, ◌≢◌, true, [], arith, any}
use device_samsung_msm8660_c.Agps.Types.{StatusValue, Subscriber, Machine}
use device_samsung_msm8660_c.Agps.Subscriber.{asking_one}
use device_samsung_msm8660_c.Agps.Machine.{Alloc, add_subscriber, send_rsrc_request}
use device_samsung_msm8660_c.Agps.Facts.{find_subscriber_lem, is_active, clone-active}

module _ (action : StatusValue) (m : Machine) where
  pub subscribers-send_rsrc_request : (send_rsrc_request action m).subscribers ≡ m.subscribers
  unfolding send_rsrc_request
  subscribers-send_rsrc_request = ground arith

  pub state-send_rsrc_request : (send_rsrc_request action m).state ≡ m.state
  unfolding send_rsrc_request
  state-send_rsrc_request = ground arith

module _ (a : Alloc) (s : Subscriber) (m : Machine) where
  pub state-add_subscriber : (add_subscriber a s m).state ≡ m.state
  unfolding add_subscriber
  state-add_subscriber = ground arith

  -- Adding leaves an active subscriber where there was one.
  pub active-add_subscriber :
      any is_active m.subscribers ≡ true → any is_active (add_subscriber a s m).subscribers ≡ true
  unfolding add_subscriber
  active-add_subscriber h = ground (arith, clone-active m.next_addr a.junk s)

  -- To an empty list the subscriber is added, and it is active.
  pub active-add_subscriber_first :
      a.elem_ok ≡ true
      → m.subscribers ≡ []
      → any is_active (add_subscriber a s m).subscribers ≡ true
  unfolding add_subscriber
  active-add_subscriber_first ok empty =
      ground (arith, find_subscriber_lem m (asking_one s), clone-active m.next_addr a.junk s)

  pub add_subscriber-ne_nil : m.subscribers ≢ [] → (add_subscriber a s m).subscribers ≢ []
  unfolding add_subscriber
  add_subscriber-ne_nil h = ground arith
