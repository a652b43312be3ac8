-- ===== src/Agps/Notify.antt =====
-- `notifyRsrcStatus` of the three classes, the callbacks for the list, and the searches of
-- `AgpsStateMachine`, in loc_eng_agps.cpp.
pub mod Told
pub mod Rounds
use device_samsung_msm8660_c.Common.{
  ℕ, zero, suc, Bool, true, false, ◌&&◌, Option, List, ◌∷◌, if◌then◌else◌, is_some, length, is_nil,
  not,
}
use device_samsung_msm8660_c.LinkedList.Abstract
use device_samsung_msm8660_c.LinkedList.Abstract.{Search}
use device_samsung_msm8660_c.Agps.Types.{
  RsrcStatus, AgpsType, SubscriberClass, bit, atl, wifi_client, Subscriber, Notification,
  request_success, release_success, failure, Call, data_conn, close_status, open_status, delete,
  Machine,
}
use device_samsung_msm8660_c.Agps.Subscriber.{for_me, asking_group, broadcast_active}

-- `LOC_ENG_IF_REQUEST_SENDER_ID_GPSONE_DAEMON`
abbrev pub gpsone_daemon : ℕ
gpsone_daemon = 2

abbrev open_type : Bool → AgpsType → AgpsType
open_type compatible type = if compatible then AgpsType.invalid else type

-- The `switch` of the three `notifyRsrcStatus`: whether the subscriber takes the status as news,
-- and the calls made so far, the latest first.
unfoldable pub answer : Machine → SubscriberClass → ℕ → RsrcStatus → List Call → Bool × List Call
answer m bit id RsrcStatus.unsubscribe calls =
    (true, data_conn gpsone_daemon release_success ∷ calls)
answer m bit id RsrcStatus.released calls = (true, data_conn gpsone_daemon release_success ∷ calls)
answer m bit id RsrcStatus.denied calls = (true, data_conn gpsone_daemon failure ∷ calls)
answer m bit id RsrcStatus.granted calls = (true, data_conn gpsone_daemon request_success ∷ calls)
answer m bit id _ calls = (false, calls)
answer m (atl c) id RsrcStatus.unsubscribe calls = (true, close_status id 1 ∷ calls)
answer m (atl c) id RsrcStatus.released calls = (true, close_status id 1 ∷ calls)
answer m (atl c) id RsrcStatus.denied calls =
    (true, open_status id 0 m.apn m.bearer (open_type c m.type) ∷ calls)
answer m (atl c) id RsrcStatus.granted calls =
    (true, open_status id 1 m.apn m.bearer (open_type c m.type) ∷ calls)
answer m (atl c) id _ calls = (false, calls)
answer m (wifi_client ssid pass sender off) id RsrcStatus.unsubscribe calls = (true, calls)
answer m (wifi_client ssid pass sender off) id RsrcStatus.released calls =
    (true, data_conn sender release_success ∷ calls)
answer m (wifi_client ssid pass sender off) id RsrcStatus.denied calls =
    (true, data_conn sender failure ∷ calls)
answer m (wifi_client ssid pass sender off) id RsrcStatus.granted calls =
    (true, data_conn sender request_success ∷ calls)
answer m (wifi_client ssid pass sender off) id _ calls = (false, calls)

unfoldable pub notify_rsrc_status :
    Machine → Notification → Subscriber → List Call → Bool × List Call
notify_rsrc_status m n s calls =
    if for_me n s then answer m s.subclass s.id n.rsrc_status calls else (false, calls)

-- `deleteObj`, `hasSubscriber` and `notifySubscriber`: the callbacks given to the list.
unfoldable pub delete_obj : Subscriber → List Call → List Call
delete_obj s calls = delete s.addr ∷ calls

unfoldable pub has_subscriber : Notification → Subscriber → List Call → Bool × List Call
has_subscriber n s calls = (for_me n s, calls)

unfoldable pub notify_subscriber :
    Machine → Notification → Subscriber → List Call → Bool × List Call
notify_subscriber m n s calls =
    let (told, calls') = notify_rsrc_status m n s calls in (told && n.post_notify_delete, calls')

unfoldable pub has_subscribers : Machine → Bool
has_subscribers m = not (is_nil m.subscribers)

-- The search that asks for the first subscriber which a notification is for.
unfoldable pub find_subscriber : Machine → Notification → Option Subscriber
find_subscriber m n =
    (Abstract.search true (has_subscriber n) false delete_obj m.subscribers m.calls).found

unfoldable pub has_active_subscribers : Machine → Bool
has_active_subscribers m = is_some (find_subscriber m (asking_group broadcast_active))

-- One `linked_list_search` of `notifySubscribers`, with the result stored or not.
unfoldable pub notify_search :
    (copy_out rm : Bool) → Machine → Notification → Search Subscriber (List Call)
notify_search copy_out rm m n =
    Abstract.search copy_out (notify_subscriber m n) rm delete_obj m.subscribers m.calls

unfoldable pub after_search : Machine → Search Subscriber (List Call) → Machine
after_search m r = record m { subscribers = r.objects; calls = r.world }

-- The loop of `notifySubscribers`, with fuel: each round but the last takes one subscriber out.
unfoldable pub notify_rounds : ℕ → Machine → Notification → Machine
notify_rounds zero m n = m
notify_rounds (suc k) m n =
    let r = notify_search true true m n in
    let m' = after_search m r in
    let rest = notify_rounds k m' n in if is_some r.found then rest else m'

unfoldable pub notify_subscribers : Machine → Notification → Machine
notify_subscribers m n =
    if n.post_notify_delete
    then notify_rounds (suc (length m.subscribers)) m n
    else after_search m (notify_search false false m n)
