-- ===== src/Engine/Connections.antt =====
-- The messages about data connections: the cases of `loc_eng_deferred_action_thread` that call the
-- three state machines.
use device_samsung_msm8660_c.Common.{
  ℕ, Bool, true, false, Option, none, some, List, [], if◌then◌else◌, ◌||◌, not, is_some,
}
use device_samsung_msm8660_c.Agps.Types.{
  AgpsType, Text, SubscriberClass, bit, atl, wifi_client, Subscriber, Machine,
}
use device_samsung_msm8660_c.Agps.Subscriber.{clone}
use device_samsung_msm8660_c.Agps.Machine.{Alloc, set_apn, set_bearer, drop_all_subscribers}
use device_samsung_msm8660_c.Agps.States.{
  grant, release, deny, on_rsrc_event, subscribe_rsrc, unsubscribe_rsrc,
}
use device_samsung_msm8660_c.Engine.Types.{
  Nif, agnss, internet, wifi, IfType, if_supl, if_any, if_other, Sender, other_sender, Nifs, Engine,
}

abbrev pub nif_of : Nif → Nifs → Machine
nif_of agnss n = n.agnss_nif
nif_of internet n = n.internet_nif
nif_of wifi n = n.wifi_nif

abbrev pub set_nif : Nif → Machine → Nifs → Nifs
set_nif agnss m n = record n { agnss_nif = m }
set_nif internet m n = record n { internet_nif = m }
set_nif wifi m n = record n { wifi_nif = m }

-- A change of the machines; before `loc_eng_agps_init` their pointers are null.
abbrev pub map_nifs : (Nifs → Nifs) → Option Nifs → Option Nifs
map_nifs f none = none
map_nifs f (some n) = some (f n)

unfoldable pub on_nifs : (Nifs → Nifs) → Engine → Engine
on_nifs f e = record e { nifs = map_nifs f e.nifs; crashed = e.crashed || not (is_some e.nifs) }

-- A call of one machine.
unfoldable pub with_nif : Nif → (Machine → Machine) → Engine → Engine
unfolding on_nifs
with_nif i f e = on_nifs (λ n. set_nif i (f (nif_of i n)) n) e

-- A subscriber on the stack: what the constructor of its class makes, over the bytes `junk`.
abbrev pub on_stack : ℕ → List ℕ → List ℕ → SubscriberClass → Subscriber
on_stack id ipv6 junk c =
    clone 0 junk (record { addr = 0; id = id; ipv6_addr = ipv6; subclass = c })

unfoldable pub request_bit_handler : IfType → ℕ → List ℕ → Alloc → Engine → Engine
request_bit_handler if_supl ipv4 ipv6 a e =
    with_nif agnss (subscribe_rsrc a (on_stack ipv4 ipv6 [] bit)) e
request_bit_handler if_any ipv4 ipv6 a e =
    with_nif internet (subscribe_rsrc a (on_stack ipv4 ipv6 [] bit)) e
request_bit_handler if_other ipv4 ipv6 a e = e

abbrev pub unsubscribed : Subscriber → Machine → Machine
unsubscribed s m = (unsubscribe_rsrc s m).0

unfoldable pub release_bit_handler : IfType → ℕ → List ℕ → Engine → Engine
release_bit_handler if_supl ipv4 ipv6 e =
    with_nif agnss (unsubscribed (on_stack ipv4 ipv6 [] bit)) e
release_bit_handler if_any ipv4 ipv6 e =
    with_nif internet (unsubscribed (on_stack ipv4 ipv6 [] bit)) e
release_bit_handler if_other ipv4 ipv6 e = e

-- The machine and the compatible mode for a request by the modem.
abbrev pub atl_nif : AgpsType → Nif
atl_nif AgpsType.supl = agnss
atl_nif AgpsType.invalid = agnss
atl_nif _ = internet

abbrev pub compatible : AgpsType → Bool
compatible AgpsType.invalid = true
compatible _ = false

unfoldable pub request_atl_handler : ℕ → AgpsType → List ℕ → Alloc → Engine → Engine
request_atl_handler handle type junk a e =
    with_nif (atl_nif type) (subscribe_rsrc a (on_stack handle [] junk (atl (compatible type)))) e

-- The first machine that has the subscriber lets it go.
unfoldable pub release_atl_nifs : Subscriber → Nifs → Nifs
release_atl_nifs s n =
    let (m, found) = unsubscribe_rsrc s n.agnss_nif in
    let first = record n { agnss_nif = m } in
    if found then first else record first { internet_nif = unsubscribed s n.internet_nif }

unfoldable pub release_atl_handler : ℕ → List ℕ → Engine → Engine
unfolding on_nifs
release_atl_handler handle junk e =
    on_nifs (release_atl_nifs (on_stack handle [] junk (atl false))) e

unfoldable pub request_wifi_handler :
    Sender → (ssid password : Option Text) → ℕ → List ℕ → Alloc → Engine → Engine
request_wifi_handler other_sender ssid password id junk a e = e
request_wifi_handler _ ssid password id junk a e =
    with_nif wifi (subscribe_rsrc a (on_stack id [] junk (wifi_client ssid password id false))) e

unfoldable pub release_wifi_handler : (ssid password : Option Text) → ℕ → List ℕ → Engine → Engine
release_wifi_handler ssid password id junk e =
    with_nif wifi (unsubscribed (on_stack id [] junk (wifi_client ssid password id false))) e

-- The machine for an answer by the framework.
abbrev pub answer_nif : AgpsType → Nif
answer_nif AgpsType.wifi = wifi
answer_nif AgpsType.supl = agnss
answer_nif _ = internet

unfoldable pub atl_open_success_handler : AgpsType → Text → (len bearer : ℕ) → Engine → Engine
atl_open_success_handler type apn len bearer e =
    with_nif (answer_nif type)
      (λ m. on_rsrc_event grant (set_apn (some apn) len (set_bearer bearer m))) e

unfoldable pub atl_closed_handler : AgpsType → Engine → Engine
atl_closed_handler type e = with_nif (answer_nif type) (on_rsrc_event release) e

unfoldable pub atl_open_failed_handler : AgpsType → Engine → Engine
atl_open_failed_handler type e = with_nif (answer_nif type) (on_rsrc_event deny) e

-- The two machines that are cleared when the modem is back.
unfoldable pub drop_subscribers : Nifs → Nifs
drop_subscribers n = record n {
  agnss_nif = drop_all_subscribers n.agnss_nif;
  internet_nif = drop_all_subscribers n.internet_nif;
}
