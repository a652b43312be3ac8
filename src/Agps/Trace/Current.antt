-- ===== src/Agps/Trace/Current.antt =====
-- The last request sent to the servicer agrees with the machine's state.
use device_samsung_msm8660_c.Common.{
  ◌≡◌, refl, List, [], ◌∷◌, ◌++◌, arith, ℕ, Bool, true, Option, none, some, All,
}
use device_samsung_msm8660_c.Agps.Types.{
  AgpsType, State, released, pending, acquired, releasing, Machine, StatusValue, request_data_conn,
  release_data_conn,
}
use device_samsung_msm8660_c.Agps.Machine.{new_machine}
use device_samsung_msm8660_c.Agps.Trace.{Op, step, run}
use device_samsung_msm8660_c.Agps.Trace.Served.{IsServed, Undisturbed, step-IsServed}
use device_samsung_msm8660_c.Agps.Trace.Requests.{requests}
use device_samsung_msm8660_c.Agps.Trace.Asked.{asked_by, step-asked}
use device_samsung_msm8660_c.Agps.Trace.Graph.{arrow_by, step-arrow}

abbrev pub latest : List StatusValue → Option StatusValue
latest [] = none
latest (r ∷ rs) = some r

-- What the last request says: a pending or acquired machine asked for the connection, a releasing
-- one asked for its release.
pub record IsCurrent (m : Machine) : Type 0 where
  pub asking : m.state ≡ pending → latest (requests m.calls) ≡ some request_data_conn
  pub holding : m.state ≡ acquired → latest (requests m.calls) ≡ some request_data_conn
  pub closing : m.state ≡ releasing → latest (requests m.calls) ≡ some release_data_conn

-- What a call's requests and its arrow make of the last request.
abbrev LastFits : State → List StatusValue → Type 0
LastFits released rs = Unit
LastFits pending rs = latest rs ≡ some request_data_conn
LastFits acquired rs = latest rs ≡ some request_data_conn
LastFits releasing rs = latest rs ≡ some release_data_conn

asked-fits :
    (o : Op) (q q' : State) (rs : List StatusValue)
    → arrow_by o q q' ≡ true
    → LastFits q rs
    → LastFits q' (asked_by o q q' ++ rs)
asked-fits o q q' rs way fits = ground arith

IsCurrent-fits : (m : Machine) → IsCurrent m → LastFits m.state (requests m.calls)
IsCurrent-fits m h = ground arith

fits-IsCurrent :
    (m : Machine) (q : State) → m.state ≡ q → LastFits q (requests m.calls) → IsCurrent m
fits-IsCurrent m q at fits = ground arith

step-IsCurrent :
    (o : Op) (m : Machine) → Undisturbed o → IsServed m → IsCurrent m → IsCurrent (step o m)
step-IsCurrent o m ok served h = fits-IsCurrent (step o m) (step o m).state refl (
    rw (step-asked o m ok served) (
      asked-fits o m.state (step o m).state (requests m.calls) (step-arrow o m)
        (IsCurrent-fits m h)))

run_from-IsCurrent :
    (os : List Op) (m : Machine)
    → All Undisturbed os
    → IsServed m
    → IsCurrent m
    → IsCurrent (run os m)
unfolding run
run_from-IsCurrent [] m ok served h = h
run_from-IsCurrent (o ∷ os) m ok served h =
    run_from-IsCurrent os (step o m) ok.1 (step-IsServed o m ok.0 served)
      (step-IsCurrent o m ok.0 served h)

-- From construction on, while no allocation of the list fails and the list is not reset, the last
-- request sent asks for the connection in a pending or acquired machine, and for its release in a
-- releasing one.
pub run-IsCurrent :
    (type : AgpsType) (enforce : Bool) (bearer : ℕ) (os : List Op)
    → All Undisturbed os
    → IsCurrent (run os (new_machine type enforce bearer))
unfolding new_machine
run-IsCurrent type enforce bearer os ok = run_from-IsCurrent os _ ok (ground arith) (ground arith)
