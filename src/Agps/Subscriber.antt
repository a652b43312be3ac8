-- ===== src/Agps/Subscriber.antt =====
-- The methods of `Subscriber`, `BITSubscriber`, `ATLSubscriber`, `WIFISubscriber` and the
-- constructors of `Notification`, in loc_eng_agps.h and loc_eng_agps.cpp.
use device_samsung_msm8660_c.Common.{
  ℕ, zero, suc, Bool, true, false, ◌&&◌, ◌||◌, not, Option, none, some, List, [], ◌∷◌, ◌==◌,
}
use device_samsung_msm8660_c.Agps.Types.{
  RsrcStatus, Text, SubscriberClass, bit, atl, wifi_client, Subscriber, Notification,
}

-- `Notification::BROADCAST_ALL` and the two others, and the group of a notification to one receiver.
abbrev pub broadcast_all : ℕ
broadcast_all = 0x80000000

abbrev pub broadcast_active : ℕ
broadcast_active = 0x80000001

abbrev pub broadcast_inactive : ℕ
broadcast_inactive = 0x80000002

abbrev pub no_group : ℕ
no_group = 0xffffffff

abbrev pub inaddr_none : ℕ
inaddr_none = 0xffffffff

abbrev pub to_group : ℕ → RsrcStatus → Bool → Notification
to_group g status after = record {
  rcver = none;
  group_id = g;
  rsrc_status = status;
  post_notify_delete = after;
}

abbrev pub to_one : Subscriber → RsrcStatus → Bool → Notification
to_one s status after = record {
  rcver = some s;
  group_id = no_group;
  rsrc_status = status;
  post_notify_delete = after;
}

-- `Notification(broadcast)` and `Notification(subscriber)`, which only ask whom they concern.
abbrev pub asking_group : ℕ → Notification
asking_group g = to_group g RsrcStatus.status_max false

abbrev pub asking_one : Subscriber → Notification
asking_one s = to_one s RsrcStatus.status_max false

-- `strncmp(a, b, n) == 0`: equal up to the end of the string or to `n` bytes. A byte behind what the
-- list gives is read as the end of the string.
unfoldable pub strn_eq : ℕ → List ℕ → List ℕ → Bool
strn_eq zero a b = true
strn_eq (suc n) [] [] = true
strn_eq (suc n) [] (d ∷ b) = d == 0
strn_eq (suc n) (c ∷ a) [] = c == 0
strn_eq (suc n) (c ∷ a) (d ∷ b) = (c == d) && ((c == 0) || strn_eq n a b)

-- `s->equals(t)`, by the class of `s`.
equals_as : SubscriberClass → Subscriber → Subscriber → Bool
unfolding strn_eq
equals_as bit s t =
    (s.id == t.id) && (not (s.id == inaddr_none) || strn_eq 16 s.ipv6_addr t.ipv6_addr)
equals_as (atl c) s t = s.id == t.id
equals_as (wifi_client ssid password sender is_inactive) s t = s.id == t.id

unfoldable pub equals : Subscriber → Subscriber → Bool
unfolding equals_as
equals s t = equals_as s.subclass s t

inactive_as : SubscriberClass → Bool
inactive_as bit = false
inactive_as (atl c) = false
inactive_as (wifi_client ssid password sender is_inactive) = is_inactive

unfoldable pub is_inactive : Subscriber → Bool
unfolding inactive_as
is_inactive s = inactive_as s.subclass

closes_late_as : SubscriberClass → Bool
closes_late_as bit = false
closes_late_as (atl c) = false
closes_late_as (wifi_client ssid password sender is_inactive) = true

-- `waitForCloseComplete`
unfoldable pub wait_for_close_complete : Subscriber → Bool
unfolding closes_late_as
wait_for_close_complete s = closes_late_as s.subclass

inactivate_as : SubscriberClass → SubscriberClass
inactivate_as bit = bit
inactivate_as (atl c) = atl c
inactivate_as (wifi_client ssid password sender is_inactive) = wifi_client ssid password sender true

unfoldable pub set_inactive : Subscriber → Subscriber
unfolding inactivate_as
set_inactive s = record s { subclass = inactivate_as s.subclass }

-- `Subscriber::forMe`
unfoldable pub for_me : Notification → Subscriber → Bool
for_me n s = elim n.rcver [
  | some r ↦ equals s r
  | none ↦
      (n.group_id == broadcast_all)
      || ((n.group_id == broadcast_active) && not (is_inactive s))
      || ((n.group_id == broadcast_inactive) && is_inactive s)
]

-- `strlcpy` into a buffer of `SSID_BUF_SIZE`, given `size` of them: a string without its terminator.
abbrev pub take : ℕ → Text → Text
take zero t = []
take (suc n) [] = []
take (suc n) (c ∷ t) = c ∷ take n t

abbrev pub ssid_len : ℕ
ssid_len = 32

copy_text : Option Text → Option Text
copy_text none = none
copy_text (some t) = some (take ssid_len t)

-- The class of the object that the constructors make: a `WIFISubscriber` starts active.
construct_as : SubscriberClass → SubscriberClass
unfolding copy_text
construct_as bit = bit
construct_as (atl c) = atl c
construct_as (wifi_client ssid password sender inactive) =
    wifi_client (copy_text ssid) (copy_text password) sender false

ipv6_as : SubscriberClass → (own junk : List ℕ) → List ℕ
ipv6_as bit own junk = own
ipv6_as (atl c) own junk = junk
ipv6_as (wifi_client ssid password sender inactive) own junk = junk

-- `clone`: a new object at `addr`, whose memory held `junk` where a `BITSubscriber` has its address.
unfoldable pub clone : (addr : ℕ) (junk : List ℕ) → Subscriber → Subscriber
unfolding construct_as ipv6_as
clone addr junk s = record {
  addr = addr;
  id = s.id;
  ipv6_addr = ipv6_as s.subclass s.ipv6_addr junk;
  subclass = construct_as s.subclass;
}
