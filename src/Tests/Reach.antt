-- ===== src/Tests/Reach.antt =====
-- A bridge after two calls.
use switchd_fpa_plugin.Prelude.{ℕ, ◌≡◌, refl, true, Option, none, some, arith}
use switchd_fpa_plugin.Ofproto.Ports.{get_ofport_by_pid, insert_ofport}
use switchd_fpa_plugin.Ofproto.Bundles.{find_bundle}
use switchd_fpa_plugin.Ofproto.Bundles.Set.{
  OfprotoState, bundle_set, configure, create_bundle, set_l2,
}
use switchd_fpa_plugin.Calls.Sound.{IsSound}
use switchd_fpa_plugin.Calls.Hosts.{L3IdentLaws}
use switchd_fpa_plugin.Calls.Ofproto.{AreProper, IsSafe}
use switchd_fpa_plugin.Calls.Reach.{with_vlan, Step, Reached, Reached-IsSafe}
use switchd_fpa_plugin.Tests.Setting.{F, blank, O, E, key, inet_addr}
use switchd_fpa_plugin.Tests.Switch.{L, G, R, I}
use switchd_fpa_plugin.Tests.Bundles.{settings, bridge}

pub I3 : L3IdentLaws F
I3 = record { build_l3 = λ i small. refl }

abbrev result : Option (ℕ × OfprotoState F O key E inet_addr) → ℕ × OfprotoState F O key E inet_addr
result none = (99, bridge)
result (some r) = r

abbrev configured : ℕ × OfprotoState F O key E inet_addr
configured = result (bundle_set F O key E inet_addr 1 (some settings) bridge)

configure_runs : bundle_set F O key E inet_addr 1 (some settings) bridge ≡ some configured
unfolding bundle_set find_bundle configure create_bundle set_l2 get_ofport_by_pid insert_ofport
configure_runs = refl

settings-AreProper : AreProper settings
settings-AreProper = record {
  vlans = record { internal = omega arith; access = omega arith };
  port = (_, refl, omega arith);
}

two_calls : Reached F O key E inet_addr bridge (with_vlan F O key E inet_addr 6 true configured.1)
two_calls =
    Reached.later
      (Reached.later Reached.start
        (Step.sets_bundle 1 settings configured settings-AreProper configure_runs refl))
      (Step.sets_vlan 6 true (omega arith) refl)

pub bridge-IsSafe : IsSafe F O L G R I I3 key E inet_addr bridge
bridge-IsSafe = record {
  host = record { ports = tt; indices = refl; hosts = refl };
  bundles = tt;
  no_vlan_0 = refl;
}

pub blank-IsSound : IsSound F L G R I blank
blank-IsSound = record { form = λ s. record { vlan_flows = tt; l2_groups = tt }; order = λ s. tt }

Reached-IsSafe_example :
    let end = with_vlan F O key E inet_addr 6 true configured.1 in
    IsSafe F O L G R I I3 key E inet_addr end × IsSound F L G R I end.host.hw
Reached-IsSafe_example =
    Reached-IsSafe F O L G R I I3 key E inet_addr bridge
      (with_vlan F O key E inet_addr 6 true configured.1) two_calls bridge-IsSafe blank-IsSound
