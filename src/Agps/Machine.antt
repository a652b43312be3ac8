-- ===== src/Agps/Machine.antt =====
-- The methods of `AgpsStateMachine` and `onRsrcEvent` of its four states, in loc_eng_agps.cpp.
pub mod Kept
use device_samsung_msm8660_c.Common.{
  ℕ, ◌+◌, Bool, true, false, Option, none, some, List, [], ◌∷◌, if◌then◌else◌, is_some, not,
}
use device_samsung_msm8660_c.LinkedList.Abstract
use device_samsung_msm8660_c.Agps.Types.{
  AgpsType, Text, SubscriberClass, bit, atl, wifi_client, Subscriber, StatusValue,
  request_data_conn, release_data_conn, NifRequest, service, released, Machine,
}
use device_samsung_msm8660_c.Agps.Subscriber.{
  clone, asking_one, asking_group, broadcast_active, inaddr_none,
}
use device_samsung_msm8660_c.Agps.Notify.{find_subscriber, delete_obj}

-- What the environment chooses when a subscriber is added: whether the list's `malloc` succeeds,
-- and the bytes that the new object's memory held.
pub record Alloc : Type 0 where
  pub elem_ok : Bool
  pub junk : List ℕ

-- `AgpsStateMachine::AgpsStateMachine`; `mBearer` is not initialised, so its value is given.
unfoldable pub new_machine : AgpsType → Bool → (bearer : ℕ) → Machine
new_machine type enforce bearer = record {
  type = type;
  state = released;
  subscribers = [];
  apn = none;
  apn_len = 0;
  bearer = bearer;
  enforce_single = enforce;
  next_addr = 0;
  calls = [];
}

-- `setAPN`, with the `len` bytes at `apn`, and `setBearer`.
unfoldable pub set_apn : Option Text → ℕ → Machine → Machine
set_apn none len m = record m { apn = none; apn_len = 0 }
set_apn (some bytes) len m = record m { apn = some bytes; apn_len = len }

unfoldable pub set_bearer : ℕ → Machine → Machine
set_bearer b m = record m { bearer = b }

unfoldable pub drop_all_subscribers : Machine → Machine
drop_all_subscribers m = record m {
  subscribers = [];
  calls = Abstract.flush delete_obj m.subscribers m.calls;
}

unfoldable pub add_subscriber : Alloc → Subscriber → Machine → Machine
add_subscriber a s m = if is_some (find_subscriber m (asking_one s)) then m else record m {
  subscribers = if a.elem_ok then clone m.next_addr a.junk s ∷ m.subscribers else m.subscribers;
  next_addr = m.next_addr + 1;
}

abbrev text_or_empty : Option Text → Text
text_or_empty none = []
text_or_empty (some t) = t

-- The request for a found subscriber: `setIPAddresses` and `setWifiInfo` of its class.
unfoldable pub nif_request_for : SubscriberClass → Subscriber → AgpsType → StatusValue → NifRequest
nif_request_for bit s type action = record {
  type = type;
  status = action;
  ipv4_addr = some s.id;
  ipv6_addr = some s.ipv6_addr;
  ssid = [];
  password = [];
}
nif_request_for (atl c) s type action = record {
  type = type;
  status = action;
  ipv4_addr = some inaddr_none;
  ipv6_addr = some [];
  ssid = [];
  password = [];
}
nif_request_for (wifi_client ssid password sender off) s type action = record {
  type = type;
  status = action;
  ipv4_addr = none;
  ipv6_addr = none;
  ssid = text_or_empty ssid;
  password = text_or_empty password;
}

unfoldable pub nif_request : Option Subscriber → AgpsType → StatusValue → NifRequest
nif_request none type action = record {
  type = type;
  status = action;
  ipv4_addr = some inaddr_none;
  ipv6_addr = some [];
  ssid = [];
  password = [];
}
nif_request (some s) type action = nif_request_for s.subclass s type action

abbrev is_release : StatusValue → Bool
is_release request_data_conn = false
is_release release_data_conn = true

abbrev bool_eq : Bool → Bool → Bool
bool_eq true b = b
bool_eq false b = not b

unfoldable pub send_rsrc_request : StatusValue → Machine → Machine
send_rsrc_request action m =
    let s = find_subscriber m (asking_group broadcast_active) in
    if bool_eq (not (is_some s)) (is_release action)
    then record m { calls = service (nif_request s m.type action) ∷ m.calls }
    else m
