-- ===== src/Agps/States/Leaving.antt =====
-- Where the shared parts of the state handlers lead.
use device_samsung_msm8660_c.Common.{
  ◌≡◌, refl, ◌∙◌, ap, true, false, [], arith, is_nil, any, keep_if, if◌then◌else◌, Bool-cases, inl,
  inr,
}
use device_samsung_msm8660_c.Agps.Types.{
  RsrcStatus, Subscriber, Notification, released, pending, releasing, Machine, release_data_conn,
  request_data_conn,
}
use device_samsung_msm8660_c.Agps.Subscriber.{to_group, to_one, broadcast_all, broadcast_inactive}
use device_samsung_msm8660_c.Agps.Notify.{has_subscribers, notify_subscribers}
use device_samsung_msm8660_c.Agps.Notify.Told.{is_news}
use device_samsung_msm8660_c.Agps.Notify.Rounds.{
  notify_subscribers-deletes, notify_subscribers-keeps,
}
use device_samsung_msm8660_c.Agps.Facts.{
  stay-all, stay-inactive, any-keep_if, is_active, has_active_subscribers_lem,
}
use device_samsung_msm8660_c.Agps.Machine.Kept.{subscribers-send_rsrc_request}
use device_samsung_msm8660_c.Agps.States.{
  to_state, set_inactive_at, drop_subscriber, leave_if_unused, finish_release,
}

pub state-notify_subscribers :
    (m : Machine) (n : Notification) → (notify_subscribers m n).state ≡ m.state
state-notify_subscribers m n = elim (Bool-cases n.post_notify_delete) [
  | inl e ↦ ap (λ (k : Machine). k.state) (notify_subscribers-deletes m n e)
  | inr e ↦ ap (λ (k : Machine). k.state) (notify_subscribers-keeps m n e)
]

pub state-drop_subscriber : (s : Subscriber) (m : Machine) → (drop_subscriber s m).state ≡ m.state
unfolding drop_subscriber set_inactive_at
state-drop_subscriber s m =
    ground (arith, state-notify_subscribers m (to_one s RsrcStatus.unsubscribe true))

-- Telling everybody and deleting leaves nobody.
pub subscribers-notify_all :
    (m : Machine) (status : RsrcStatus)
    → is_news status ≡ true
    → (notify_subscribers m (to_group broadcast_all status true)).subscribers ≡ []
subscribers-notify_all m status news =
    ap (λ (k : Machine). k.subscribers)
      (notify_subscribers-deletes m (to_group broadcast_all status true) refl)
    ∙ stay-all status true m.subscribers news

-- Telling without deleting leaves everybody.
pub subscribers-notify_kept :
    (m : Machine) (g : _) (status : RsrcStatus)
    → (notify_subscribers m (to_group g status false)).subscribers ≡ m.subscribers
subscribers-notify_kept m g status =
    ap (λ (k : Machine). k.subscribers) (notify_subscribers-keeps m (to_group g status false) refl)

pub subscribers-notify_inactive :
    (m : Machine) (status : RsrcStatus)
    → is_news status ≡ true
    → (notify_subscribers m (to_group broadcast_inactive status true)).subscribers
      ≡ keep_if is_active m.subscribers
subscribers-notify_inactive m status news =
    ap (λ (k : Machine). k.subscribers)
      (notify_subscribers-deletes m (to_group broadcast_inactive status true) refl)
    ∙ stay-inactive status true m.subscribers news

module _ (m : Machine) where
  -- The state that is left depends on who is still subscribed.
  pub state-leave_if_unused : (leave_if_unused m).state ≡ (
      if is_nil m.subscribers
      then released
      else if any is_active m.subscribers
      then m.state
      else releasing)
  unfolding leave_if_unused to_state has_subscribers
  state-leave_if_unused = ground (arith, has_active_subscribers_lem m)

  pub subscribers-leave_if_unused : (leave_if_unused m).subscribers ≡ m.subscribers
  unfolding leave_if_unused to_state
  subscribers-leave_if_unused = ground (arith, subscribers-send_rsrc_request release_data_conn m)

module _ (m : Machine) (status : RsrcStatus) (news : is_news status ≡ true) where
  -- A finished release goes on for those that still want the resource, if there are any.
  pub state-finish_release :
      (finish_release status m).state
      ≡ (if any is_active (keep_if is_active m.subscribers) then pending else released)
  unfolding finish_release to_state has_subscribers
  state-finish_release =
      rw (subscribers-notify_inactive m status news)
        (ground (arith, any-keep_if is_active m.subscribers))

  pub subscribers-finish_release :
      (finish_release status m).subscribers ≡ keep_if is_active m.subscribers
  unfolding finish_release to_state has_subscribers
  subscribers-finish_release =
      let m' = notify_subscribers m (to_group broadcast_inactive status true) in
      ground (
        arith,
        subscribers-notify_inactive m status news,
        subscribers-send_rsrc_request request_data_conn m',
      )
