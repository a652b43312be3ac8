-- ===== src/Agps/Notify/Told.antt =====
-- What `notifySubscribers` does to the subscribers and which calls it makes.
use device_samsung_msm8660_c.Common.{ℕ, ◌≡◌, refl, Bool, true, false, ◌&&◌, List, [], ◌∷◌, arith}
use device_samsung_msm8660_c.Agps.Types.{
  RsrcStatus, SubscriberClass, Subscriber, Notification, Call, Machine,
}
use device_samsung_msm8660_c.Agps.Subscriber.{for_me}
use device_samsung_msm8660_c.Agps.Notify.{answer, notify_rsrc_status}

-- The statuses that a subscriber takes as news.
abbrev pub is_news : RsrcStatus → Bool
is_news RsrcStatus.subscribe = false
is_news RsrcStatus.unsubscribe = true
is_news RsrcStatus.granted = true
is_news RsrcStatus.released = true
is_news RsrcStatus.denied = true
is_news RsrcStatus.status_max = false

-- The subscribers that a notification is for, and that take it as news.
abbrev pub takes : Notification → Subscriber → Bool
takes n s = for_me n s && is_news n.rsrc_status

-- The calls made when every subscriber of a list is notified once, in order.
unfoldable pub tell_all : Machine → Notification → List Subscriber → List Call → List Call
tell_all m n [] calls = calls
tell_all m n (s ∷ ss) calls = tell_all m n ss (notify_rsrc_status m n s calls).1

answer-news :
    (m : Machine) (c : SubscriberClass) (id : ℕ) (status : RsrcStatus) (calls : List Call)
    → (answer m c id status calls).0 ≡ is_news status
unfolding answer
answer-news m c id status calls = ground arith

answer-ignored :
    (m : Machine) (c : SubscriberClass) (id : ℕ) (status : RsrcStatus) (calls : List Call)
    → is_news status ≡ false
    → (answer m c id status calls).1 ≡ calls
unfolding answer
answer-ignored m c id status calls h = ground arith

module _ (m : Machine) (n : Notification) where
  pub notify-takes :
      (s : Subscriber) (calls : List Call) → (notify_rsrc_status m n s calls).0 ≡ takes n s
  unfolding notify_rsrc_status
  notify-takes s calls = ground (arith, answer-news m s.subclass s.id n.rsrc_status calls)

  pub notify-ignored :
      (s : Subscriber) (calls : List Call)
      → takes n s ≡ false
      → (notify_rsrc_status m n s calls).1 ≡ calls
  unfolding notify_rsrc_status
  notify-ignored s calls h = ground (arith, answer-ignored m s.subclass s.id n.rsrc_status calls)

-- Notifying depends on the machine's network interface, and on nothing that notifying changes.
answer-after :
    (m : Machine) (xs : List Subscriber) (w calls : List Call) (c : SubscriberClass) (id : ℕ)
    (status : RsrcStatus)
    → answer (record m { subscribers = xs; calls = w }) c id status calls
      ≡ answer m c id status calls
unfolding answer
answer-after m xs w calls c id status = ground arith

pub tell_all-after :
    (m : Machine) (n : Notification) (xs ys : List Subscriber) (w calls : List Call)
    → tell_all (record m { subscribers = xs; calls = w }) n ys calls ≡ tell_all m n ys calls
unfolding tell_all notify_rsrc_status
tell_all-after m n xs [] w calls = refl
tell_all-after m n xs (y ∷ ys) w calls =
    rw (answer-after m xs w calls y.subclass y.id n.rsrc_status) (tell_all-after m n xs ys w _)
