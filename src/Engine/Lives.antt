-- ===== src/Engine/Lives.antt =====
-- The machines from the engine's first moment on.
use device_samsung_msm8660_c.Common.{
  ℕ, zero, suc, ◌+◌, Bool, true, false, ◌&&◌, not, Option, none, some, List, [], ◌∷◌, ◌≡◌, refl,
  sym, subst, arith, is_some, Bool-cases, inl, inr, ◌⊎◌,
}
use device_samsung_msm8660_c.Agps.Types.{AgpsType, Machine}
use device_samsung_msm8660_c.Agps.Machine.{new_machine}
use device_samsung_msm8660_c.Agps.Trace.Settled.{IsSettled, run-IsSettled}
use device_samsung_msm8660_c.Agps.Trace.Single.{IsFor, run-IsFor}
use device_samsung_msm8660_c.Engine.Types.{Msg, Nifs, Engine, World, Callbacks, Config}
use device_samsung_msm8660_c.Engine.Session.{post}
use device_samsung_msm8660_c.Engine.Server.{
  set_server, reinit, reinit_loop, cleared, saved_callbacks, loc_eng_init, new_nifs,
  loc_eng_agps_init, set_server_proxy, save_server,
}
use device_samsung_msm8660_c.Engine.Handler.{round}
use device_samsung_msm8660_c.Engine.Driven.{
  same-called, round-called, agps_reinit-nifs, reinit-nifs,
}
use device_samsung_msm8660_c.Engine.Machines.{
  Called, MachinesCalled, MachinesCalled-refl, Called-trans, Called-refl,
}
use device_samsung_msm8660_c.Engine.Api.{
  Event, init, agps_init, take_message, step, run, take_round, post_checked, post_ulp,
  loc_eng_start, loc_eng_stop, loc_eng_cleanup, loc_eng_agps_open, loc_eng_agps_closed,
  loc_eng_agps_open_failed, loc_eng_agps_ril_update, loc_eng_ulp_init, post_ulp_checked,
  loc_eng_ulp_send_network_position, loc_eng_ulp_phone_context_settings_update, ni_leave,
}

-- A machine is one that was made by the constructor and called since.
abbrev pub Lives : AgpsType → Bool → Machine → Type 0
Lives type enforce m = (bearer : ℕ) × (Called (new_machine type enforce bearer) m)

pub record NifsLive (n : Nifs) : Type 0 where
  pub agnss_lives : Lives AgpsType.supl false n.agnss_nif
  pub internet_lives : Lives AgpsType.wwan_any false n.internet_nif
  pub wifi_lives : Lives AgpsType.wifi true n.wifi_nif

abbrev pub AllLive : Option Nifs → Type 0
AllLive none = Unit
AllLive (some n) = NifsLive n

Lives-on :
    (type : AgpsType) (enforce : Bool) (m m' : Machine)
    → Lives type enforce m
    → Called m m'
    → Lives type enforce m'
Lives-on type enforce m m' (b, c) d = (b, Called-trans (new_machine type enforce b) m m' c d)

called-AllLive : (o o' : Option Nifs) → MachinesCalled o o' → AllLive o → AllLive o'
called-AllLive none none c h = tt
called-AllLive none (some n) c h = absurd c
called-AllLive (some n) none c h = absurd c
called-AllLive (some n) (some n') c h = record {
  agnss_lives = Lives-on AgpsType.supl false n.agnss_nif n'.agnss_nif h.agnss_lives c.agnss_called;
  internet_lives =
      Lives-on AgpsType.wwan_any false n.internet_nif n'.internet_nif h.internet_lives
        c.internet_called;
  wifi_lives = Lives-on AgpsType.wifi true n.wifi_nif n'.wifi_nif h.wifi_lives c.wifi_called;
}

new_nifs-NifsLive : (b1 b2 b3 : ℕ) → NifsLive (new_nifs b1 b2 b3)
unfolding new_nifs
new_nifs-NifsLive b1 b2 b3 = record {
  agnss_lives = (b1, Called-refl (new_machine AgpsType.supl false b1));
  internet_lives = (b2, Called-refl (new_machine AgpsType.wwan_any false b2));
  wifi_lives = (b3, Called-refl (new_machine AgpsType.wifi true b3));
}

reinit_loop-nifs : (tries n : ℕ) (w : World) (e : Engine) → (reinit_loop tries n w e).nifs ≡ e.nifs
unfolding reinit_loop
reinit_loop-nifs zero n w e = refl
reinit_loop-nifs (suc tries) n w e =
    ground (arith, reinit-nifs e n w, reinit_loop-nifs tries (n + 1) w (reinit n w e))

init-nifs :
    (w : World) (cs : Callbacks) (nmea ok : Bool) (tries : ℕ) (e : Engine)
    → ((loc_eng_init w cs nmea ok tries e).nifs ≡ e.nifs)
      ⊎ ((loc_eng_init w cs nmea ok tries e).nifs ≡ none)
unfolding loc_eng_init saved_callbacks cleared
init-nifs w cs nmea ok tries e = elim (Bool-cases e.context) [
  | inl ready ↦ inl (ground (arith, ready))
  | inr new ↦ inr (
      ground (
        arith,
        new,
        reinit_loop-nifs tries 0 w (record (saved_callbacks cs nmea e) { context = true }),
      ))
]

agps_init-nifs :
    (w : World) (b1 b2 b3 : ℕ) (e : Engine)
    → ((loc_eng_agps_init w b1 b2 b3 e).nifs ≡ e.nifs)
      ⊎ ((loc_eng_agps_init w b1 b2 b3 e).nifs ≡ some (new_nifs b1 b2 b3))
unfolding loc_eng_agps_init
agps_init-nifs w b1 b2 b3 e = elim (Bool-cases (e.context && not (is_some e.nifs))) [
  | inl now ↦
      inr (ground (arith, now, agps_reinit-nifs (record e { nifs = some (new_nifs b1 b2 b3) }) w))
  | inr not_now ↦ inl (ground (arith, not_now))
]

take-nifs :
    (w : World) (m : Msg) (ms : List Msg) (e : Engine)
    → ((take_round w (m ∷ ms) e).nifs ≡ e.nifs)
      ⊎ ((take_round w (m ∷ ms) e).nifs ≡ (round w m (record e { deferred_q = ms })).nifs)
unfolding take_round
take-nifs w m ms e = elim (Bool-cases (e.running && not e.crashed)) [
  | inl alive ↦ inr (ground (arith, alive))
  | inr over ↦ inl (ground (arith, over))
]

take-called :
    (w : World) (ms : List Msg) (e : Engine) → MachinesCalled e.nifs (take_round w ms e).nifs
unfolding take_round
take-called w [] e = MachinesCalled-refl e.nifs
take-called w (m ∷ ms) e = elim (take-nifs w m ms e) [
  | inl same ↦ same-called e (take_round w (m ∷ ms) e) same
  | inr same ↦
      subst (λ o. MachinesCalled e.nifs o) (sym same)
        (round-called w m (record e { deferred_q = ms }))
]

same-AllLive : (o o' : Option Nifs) → o' ≡ o → AllLive o → AllLive o'
same-AllLive o o' same h = subst AllLive (sym same) h

step-AllLive : (w : World) (v : Event) (e : Engine) → AllLive e.nifs → AllLive (step w v e).nifs
unfolding step post_checked post_ulp loc_eng_start loc_eng_stop loc_eng_cleanup loc_eng_agps_open
    loc_eng_agps_closed loc_eng_agps_open_failed loc_eng_agps_ril_update loc_eng_ulp_init
    post_ulp_checked loc_eng_ulp_send_network_position loc_eng_ulp_phone_context_settings_update
    ni_leave post set_server_proxy set_server save_server
step-AllLive w (init cs nmea ok) e h = elim (init-nifs w cs nmea ok 30 e) [
  | inl same ↦ same-AllLive e.nifs (loc_eng_init w cs nmea ok 30 e).nifs same h
  | inr gone ↦ subst AllLive (sym gone) tt
]
step-AllLive w (agps_init b1 b2 b3) e h = elim (agps_init-nifs w b1 b2 b3 e) [
  | inl same ↦ same-AllLive e.nifs (loc_eng_agps_init w b1 b2 b3 e).nifs same h
  | inr new ↦ subst AllLive (sym new) (new_nifs-NifsLive b1 b2 b3)
]
step-AllLive w take_message e h =
    called-AllLive e.nifs (take_round w e.deferred_q e).nifs (take-called w e.deferred_q e) h
step-AllLive w v e h = same-AllLive e.nifs (step w v e).nifs (ground arith) h

run-from-AllLive :
    (vs : List (World × Event)) (e : Engine) → AllLive e.nifs → AllLive (run vs e).nifs
unfolding run
run-from-AllLive [] e h = h
run-from-AllLive ((w, v) ∷ vs) e h = run-from-AllLive vs (step w v e) (step-AllLive w v e h)

run-AllLive : (conf : Config) (vs : List (World × Event)) → AllLive (run vs (cleared conf)).nifs
unfolding cleared
run-AllLive conf vs = run-from-AllLive vs (cleared conf) tt

-- A machine of a type has no subscribers while it is released, and if it takes a single subscriber, it
-- has one at most at any time.
pub record IsSound (type : AgpsType) (single : Bool) (m : Machine) : Type 0 where
  pub is_for : IsFor type single m
  pub settled : IsSettled m

pub record NifsSound (n : Nifs) : Type 0 where
  pub agnss_sound : IsSound AgpsType.supl false n.agnss_nif
  pub internet_sound : IsSound AgpsType.wwan_any false n.internet_nif
  pub wifi_sound : IsSound AgpsType.wifi true n.wifi_nif

abbrev pub AllSound : Option Nifs → Type 0
AllSound none = Unit
AllSound (some n) = NifsSound n

Lives-IsSound :
    (type : AgpsType) (single : Bool) (m : Machine) → Lives type single m → IsSound type single m
Lives-IsSound type single m (b, (os, e)) = record {
  is_for = subst (IsFor type single) (sym e) (run-IsFor type single b os);
  settled = subst IsSettled (sym e) (run-IsSettled type single b os);
}

AllLive-AllSound : (o : Option Nifs) → AllLive o → AllSound o
AllLive-AllSound none h = tt
AllLive-AllSound (some n) h = record {
  agnss_sound = Lives-IsSound AgpsType.supl false n.agnss_nif h.agnss_lives;
  internet_sound = Lives-IsSound AgpsType.wwan_any false n.internet_nif h.internet_lives;
  wifi_sound = Lives-IsSound AgpsType.wifi true n.wifi_nif h.wifi_lives;
}

-- Whatever happened since the memory was cleared, each of the engine's three machines is still of the
-- type that it was made for, in its place, and has no subscribers while it is in the released state;
-- and the wifi machine has at most one subscriber.
pub run-AllSound :
    (conf : Config) (vs : List (World × Event)) → AllSound (run vs (cleared conf)).nifs
run-AllSound conf vs = AllLive-AllSound (run vs (cleared conf)).nifs (run-AllLive conf vs)
