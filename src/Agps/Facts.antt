-- ===== src/Agps/Facts.antt =====
-- Whom a notification is for, what a search finds, and which subscribers an operation leaves.
use device_samsung_msm8660_c.Common.{
  ℕ, zero, suc, ◌≡◌, refl, Bool, true, false, not, List, [], ◌∷◌, arith, is_some, is_nil, any,
  find?, keep_if,
}
use device_samsung_msm8660_c.LinkedList.Lookup.{search-found}
use device_samsung_msm8660_c.Agps.Types.{RsrcStatus, Subscriber, Notification, Machine}
use device_samsung_msm8660_c.Agps.Subscriber.{
  strn_eq, equals, is_inactive, for_me, to_group, to_one, clone, broadcast_all, broadcast_active,
  broadcast_inactive,
}
use device_samsung_msm8660_c.Agps.Notify.{
  has_subscriber, delete_obj, find_subscriber, has_active_subscribers,
}
use device_samsung_msm8660_c.Agps.Notify.Told.{is_news}
use device_samsung_msm8660_c.Agps.Notify.Rounds.{stay}

strn_eq_refl : (n : ℕ) (a : List ℕ) → strn_eq n a a ≡ true
unfolding strn_eq
strn_eq_refl zero a = refl
strn_eq_refl (suc n) [] = refl
strn_eq_refl (suc n) (c ∷ a) = ground (arith, strn_eq_refl n a)

pub equals_refl : (s : Subscriber) → equals s s ≡ true
unfolding equals
equals_refl s = ground (arith, strn_eq_refl 16 s.ipv6_addr)

module _ (status : RsrcStatus) (after : Bool) (s : Subscriber) where
  pub for_me-all : for_me (to_group broadcast_all status after) s ≡ true
  unfolding for_me
  for_me-all = refl

  pub for_me-active : for_me (to_group broadcast_active status after) s ≡ not (is_inactive s)
  unfolding for_me
  for_me-active = ground arith

  pub for_me-inactive : for_me (to_group broadcast_inactive status after) s ≡ is_inactive s
  unfolding for_me
  for_me-inactive = ground arith

  pub for_me-one : (t : Subscriber) → for_me (to_one t status after) s ≡ equals s t
  unfolding for_me
  for_me-one t = refl

pub find_subscriber_lem :
    (m : Machine) (n : Notification) → find_subscriber m n ≡ find? (for_me n) m.subscribers
unfolding find_subscriber has_subscriber
find_subscriber_lem m n = search-found true (for_me n) delete_obj m.subscribers m.calls

-- A subscriber that wants the resource.
abbrev pub is_active : Subscriber → Bool
is_active s = not (is_inactive s)

find?-any {ℓ} :
    {A : Type ℓ} (p q : A → Bool) (xs : List A)
    → ((x : A) → p x ≡ q x)
    → is_some (find? p xs) ≡ any q xs
find?-any p q [] same = refl
find?-any p q (x ∷ xs) same = ground (arith, same x, find?-any p q xs same)

pub has_active_subscribers_lem :
    (m : Machine) → has_active_subscribers m ≡ any is_active m.subscribers
unfolding has_active_subscribers
has_active_subscribers_lem m =
    rw find_subscriber_lem
      (find?-any _ is_active m.subscribers (for_me-active RsrcStatus.status_max false))

-- A broadcast to all empties the list.
pub stay-all :
    (status : RsrcStatus) (after : Bool) (xs : List Subscriber)
    → is_news status ≡ true
    → stay (to_group broadcast_all status after) xs ≡ []
stay-all status after [] news = refl
stay-all status after (x ∷ xs) news =
    ground (arith, for_me-all status after x, stay-all status after xs)

-- A broadcast to the inactive leaves only active subscribers.
pub stay-inactive :
    (status : RsrcStatus) (after : Bool) (xs : List Subscriber)
    → is_news status ≡ true
    → stay (to_group broadcast_inactive status after) xs ≡ keep_if is_active xs
stay-inactive status after [] news = refl
stay-inactive status after (x ∷ xs) news =
    ground (arith, for_me-inactive status after x, stay-inactive status after xs)

pub any-keep_if {ℓ} :
    {A : Type ℓ} (p : A → Bool) (xs : List A) → any p (keep_if p xs) ≡ not (is_nil (keep_if p xs))
any-keep_if p [] = refl
any-keep_if p (x ∷ xs) = ground (arith, any-keep_if p xs)

pub clone-active :
    (addr : ℕ) (junk : List ℕ) (s : Subscriber) → is_active (clone addr junk s) ≡ true
unfolding clone is_inactive
clone-active addr junk s = ground arith

-- A clone equals what it was made from.
pub equals-clone : (addr : ℕ) (junk : List ℕ) (s : Subscriber) → equals (clone addr junk s) s ≡ true
unfolding clone equals
equals-clone addr junk s = ground (arith, strn_eq_refl 16 s.ipv6_addr)

-- A notification to one subscriber leaves those that do not equal it.
pub stay-one :
    (status : RsrcStatus) (after : Bool) (t : Subscriber) (xs : List Subscriber)
    → is_news status ≡ true
    → stay (to_one t status after) xs ≡ keep_if (λ x. not (equals x t)) xs
stay-one status after t [] news = refl
stay-one status after t (x ∷ xs) news =
    ground (arith, for_me-one status after x t, stay-one status after t xs)
