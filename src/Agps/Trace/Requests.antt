-- ===== src/Agps/Trace/Requests.antt =====
-- Which requests the machine sends to its servicer, and when.
use device_samsung_msm8660_c.Common.{
  ◌≡◌, refl, ◌∙◌, ap, Bool, true, not, List, [], ◌∷◌, arith, any, inl, inr, Bool-cases, ℕ, Option,
  none, some, if◌then◌else◌,
}
use device_samsung_msm8660_c.Agps.Types.{
  RsrcStatus, SubscriberClass, Subscriber, Notification, Call, service, Machine, StatusValue,
  request_data_conn, release_data_conn, data_conn, close_status, open_status, delete,
}
use device_samsung_msm8660_c.Agps.Subscriber.{to_one, asking_group, broadcast_active}
use device_samsung_msm8660_c.Agps.Notify.{
  answer, notify_rsrc_status, notify_subscribers, has_active_subscribers, find_subscriber,
}
use device_samsung_msm8660_c.Agps.Notify.Told.{tell_all}
use device_samsung_msm8660_c.Agps.Notify.Rounds.{
  notify_subscribers-deletes, notify_subscribers-keeps,
}
use device_samsung_msm8660_c.Agps.Facts.{is_active, has_active_subscribers_lem}
use device_samsung_msm8660_c.Agps.Machine.{
  Alloc, add_subscriber, send_rsrc_request, nif_request, nif_request_for,
}
use device_samsung_msm8660_c.Agps.States.{drop_subscriber, set_inactive_at}

-- The statuses asked of the servicer in a list of calls, in the order of the list.
unfoldable pub requests : List Call → List StatusValue
requests [] = []
requests (service r ∷ calls) = r.status ∷ requests calls
requests (data_conn _ _ ∷ calls) = requests calls
requests (close_status _ _ ∷ calls) = requests calls
requests (open_status _ _ _ _ _ ∷ calls) = requests calls
requests (delete _ ∷ calls) = requests calls

requests-answer :
    (m : Machine) (c : SubscriberClass) (id : ℕ) (status : RsrcStatus) (calls : List Call)
    → requests (answer m c id status calls).1 ≡ requests calls
unfolding answer requests
requests-answer m c id status calls = ground arith

pub requests-notify :
    (m : Machine) (n : Notification) (s : Subscriber) (calls : List Call)
    → requests (notify_rsrc_status m n s calls).1 ≡ requests calls
unfolding notify_rsrc_status
requests-notify m n s calls = ground (arith, requests-answer m s.subclass s.id n.rsrc_status calls)

requests-tell_all :
    (m : Machine) (n : Notification) (xs : List Subscriber) (calls : List Call)
    → requests (tell_all m n xs calls) ≡ requests calls
unfolding tell_all
requests-tell_all m n [] calls = refl
requests-tell_all m n (x ∷ xs) calls = requests-tell_all m n xs _ ∙ requests-notify m n x calls

pub requests-notify_subscribers :
    (m : Machine) (n : Notification) → requests (notify_subscribers m n).calls ≡ requests m.calls
requests-notify_subscribers m n =
    let told = requests-tell_all m n m.subscribers m.calls in
    elim (Bool-cases n.post_notify_delete) [
      | inl e ↦ ap (λ (k : Machine). requests k.calls) (notify_subscribers-deletes m n e) ∙ told
      | inr e ↦ ap (λ (k : Machine). requests k.calls) (notify_subscribers-keeps m n e) ∙ told
    ]

pub requests-add_subscriber :
    (a : Alloc) (s : Subscriber) (m : Machine)
    → requests (add_subscriber a s m).calls ≡ requests m.calls
unfolding add_subscriber
requests-add_subscriber a s m = ground arith

pub requests-drop_subscriber :
    (s : Subscriber) (m : Machine) → requests (drop_subscriber s m).calls ≡ requests m.calls
unfolding drop_subscriber set_inactive_at
requests-drop_subscriber s m =
    ground (arith, requests-notify_subscribers m (to_one s RsrcStatus.unsubscribe true))

status-nif_request_for :
    (s : Subscriber) (c : SubscriberClass) (t : _) (action : StatusValue)
    → (nif_request_for c s t action).status ≡ action
unfolding nif_request_for
status-nif_request_for s c t action = ground arith

status-nif_request :
    (o : Option Subscriber) (t : _) (action : StatusValue)
    → (nif_request o t action).status ≡ action
unfolding nif_request
status-nif_request none t action = refl
status-nif_request (some s) t action = status-nif_request_for s s.subclass t action

-- A release is sent when nobody wants the resource, a request when somebody does.
abbrev pub wanted_for : StatusValue → Bool → Bool
wanted_for request_data_conn active = active
wanted_for release_data_conn active = not active

pub requests-send :
    (action : StatusValue) (m : Machine)
    → requests (send_rsrc_request action m).calls ≡ (
        if wanted_for action (any is_active m.subscribers)
        then action ∷ requests m.calls
        else requests m.calls)
unfolding send_rsrc_request requests has_active_subscribers
requests-send action m =
    let s = find_subscriber m (asking_group broadcast_active) in
    ground (arith, status-nif_request s m.type action, has_active_subscribers_lem m)
