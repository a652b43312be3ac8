-- ===== src/Engine/Machines.antt =====
-- The engine drives its state machines by their public methods, so that what holds of a machine in
-- all sequences of calls holds of the engine's.
use device_samsung_msm8660_c.Common.{
  ℕ, Option, none, some, List, [], ◌∷◌, ◌++◌, ◌≡◌, refl, ◌∙◌, sym, ap, Bool-cases, inl, inr,
}
use device_samsung_msm8660_c.Agps.Types.{Text, Subscriber, Machine}
use device_samsung_msm8660_c.Agps.Machine.{Alloc, set_apn, set_bearer, drop_all_subscribers}
use device_samsung_msm8660_c.Agps.States.{
  grant, release, deny, on_rsrc_event, subscribe_rsrc, unsubscribe_rsrc,
}
use device_samsung_msm8660_c.Agps.Trace.{Op}
use device_samsung_msm8660_c.Agps.Trace
use device_samsung_msm8660_c.Engine.Types.{Nif, agnss, internet, wifi, Nifs, Engine}
use device_samsung_msm8660_c.Engine.Connections.{
  nif_of, set_nif, with_nif, map_nifs, release_atl_nifs, drop_subscribers, unsubscribed,
}

-- A machine is left as calls of its methods leave it.
abbrev pub Called : Machine → Machine → Type 0
Called m m' = (os : List Op) × (m' ≡ Trace.run os m)

run-append :
    (os ps : List Op) (m : Machine) → Trace.run (os ++ ps) m ≡ Trace.run ps (Trace.run os m)
unfolding Trace.run
run-append [] ps m = refl
run-append (o ∷ os) ps m = run-append os ps (Trace.step o m)

pub Called-refl : (m : Machine) → Called m m
unfolding Trace.run
Called-refl m = ([], refl)

pub Called-trans : (m m' m'' : Machine) → Called m m' → Called m' m'' → Called m m''
Called-trans m m' m'' (os, e) (ps, d) =
    (os ++ ps, d ∙ ap (Trace.run ps) e ∙ sym (run-append os ps m))

-- The three machines, where there are any.
pub record NifsCalled (n n' : Nifs) : Type 0 where
  pub agnss_called : Called n.agnss_nif n'.agnss_nif
  pub internet_called : Called n.internet_nif n'.internet_nif
  pub wifi_called : Called n.wifi_nif n'.wifi_nif

-- An engine's machines are there and left by calls, or are still not there.
abbrev pub MachinesCalled : Option Nifs → Option Nifs → Type 0
MachinesCalled none none = Unit
MachinesCalled none (some n) = ⊥
MachinesCalled (some n) none = ⊥
MachinesCalled (some n) (some n') = NifsCalled n n'

pub MachinesCalled-refl : (o : Option Nifs) → MachinesCalled o o
MachinesCalled-refl none = tt
MachinesCalled-refl (some n) = record {
  agnss_called = Called-refl n.agnss_nif;
  internet_called = Called-refl n.internet_nif;
  wifi_called = Called-refl n.wifi_nif;
}

pub MachinesCalled-trans :
    (o o' o'' : Option Nifs) → MachinesCalled o o' → MachinesCalled o' o'' → MachinesCalled o o''
MachinesCalled-trans none none none h k = tt
MachinesCalled-trans none none (some n) h k = absurd k
MachinesCalled-trans none (some n) o h k = absurd h
MachinesCalled-trans (some n) none o h k = absurd h
MachinesCalled-trans (some n) (some n') none h k = absurd k
MachinesCalled-trans (some n) (some n') (some n'') h k = record {
  agnss_called = Called-trans n.agnss_nif n'.agnss_nif n''.agnss_nif h.agnss_called k.agnss_called;
  internet_called =
      Called-trans n.internet_nif n'.internet_nif n''.internet_nif h.internet_called
        k.internet_called;
  wifi_called = Called-trans n.wifi_nif n'.wifi_nif n''.wifi_nif h.wifi_called k.wifi_called;
}

set_nif-NifsCalled :
    (i : Nif) (m : Machine) (n : Nifs) → Called (nif_of i n) m → NifsCalled n (set_nif i m n)
set_nif-NifsCalled agnss m n c = record {
  agnss_called = c;
  internet_called = Called-refl n.internet_nif;
  wifi_called = Called-refl n.wifi_nif;
}
set_nif-NifsCalled internet m n c = record {
  agnss_called = Called-refl n.agnss_nif;
  internet_called = c;
  wifi_called = Called-refl n.wifi_nif;
}
set_nif-NifsCalled wifi m n c = record {
  agnss_called = Called-refl n.agnss_nif;
  internet_called = Called-refl n.internet_nif;
  wifi_called = c;
}

pub map_nifs-called :
    (f : Nifs → Nifs) (o : Option Nifs)
    → ((n : Nifs) → NifsCalled n (f n))
    → MachinesCalled o (map_nifs f o)
map_nifs-called f none c = tt
map_nifs-called f (some n) c = c n

-- A call of one machine.
pub with_nif-Called :
    (i : Nif) (f : Machine → Machine) (e : Engine)
    → ((m : Machine) → Called m (f m))
    → MachinesCalled e.nifs (with_nif i f e).nifs
unfolding with_nif
with_nif-Called i f e c =
    map_nifs-called (λ n. set_nif i (f (nif_of i n)) n) e.nifs
      (λ n. set_nif-NifsCalled i (f (nif_of i n)) n (c (nif_of i n)))

-- The calls that the messages make.
module _ (m : Machine) where
  pub subscribe-Called : (a : Alloc) (s : Subscriber) → Called m (subscribe_rsrc a s m)
  unfolding Trace.run Trace.step
  subscribe-Called a s = (Op.subscribe a s ∷ [], refl)

  pub unsubscribe-Called : (s : Subscriber) → Called m (unsubscribed s m)
  unfolding Trace.run Trace.step
  unsubscribe-Called s = (Op.unsubscribe s ∷ [], refl)

  pub grant-Called :
      (apn : Text) (len b : ℕ)
      → Called m (on_rsrc_event grant (set_apn (some apn) len (set_bearer b m)))
  unfolding Trace.run Trace.step
  grant-Called apn len b = (Op.bearer b ∷ Op.apn (some apn) len ∷ Op.event grant ∷ [], refl)

  pub release-Called : Called m (on_rsrc_event release m)
  unfolding Trace.run Trace.step
  release-Called = (Op.event release ∷ [], refl)

  pub deny-Called : Called m (on_rsrc_event deny m)
  unfolding Trace.run Trace.step
  deny-Called = (Op.event deny ∷ [], refl)

  pub drop-Called : Called m (drop_all_subscribers m)
  unfolding Trace.run Trace.step
  drop-Called = (Op.drop_all ∷ [], refl)

pub release_atl_nifs-called : (s : Subscriber) (n : Nifs) → NifsCalled n (release_atl_nifs s n)
unfolding release_atl_nifs
release_atl_nifs-called s n = elim (Bool-cases (unsubscribe_rsrc s n.agnss_nif).1) [
  | inl found ↦
      rw (found, release_atl_nifs)
        (record {
          agnss_called = unsubscribe-Called n.agnss_nif s;
          internet_called = Called-refl n.internet_nif;
          wifi_called = Called-refl n.wifi_nif;
        })
  | inr missing ↦
      rw (missing, release_atl_nifs)
        (record {
          agnss_called = unsubscribe-Called n.agnss_nif s;
          internet_called = unsubscribe-Called n.internet_nif s;
          wifi_called = Called-refl n.wifi_nif;
        })
]

pub drop-NifsCalled : (n : Nifs) → NifsCalled n (drop_subscribers n)
unfolding drop_subscribers
drop-NifsCalled n = record {
  agnss_called = drop-Called n.agnss_nif;
  internet_called = drop-Called n.internet_nif;
  wifi_called = Called-refl n.wifi_nif;
}
