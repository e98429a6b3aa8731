-- ===== src/Tests/Bundles.antt =====
-- A bundle of port 3 on the simulated switch.
use switchd_fpa_plugin.Prelude.{refl, true, false, none, some, [], ◌∷◌, arith}
use switchd_fpa_plugin.Prelude.Bitmap.{empty}
use switchd_fpa_plugin.Netdev.{NetdevClass}
use switchd_fpa_plugin.Ofproto.Bundles.{BundleSettings, OfprotoType, find_bundle}
use switchd_fpa_plugin.Ofproto.Bundles.Set.{OfprotoState, bundle_set}
use switchd_fpa_plugin.Ofproto.Bundles.L2.{Applies, bundle_set-l2_state}
use switchd_fpa_plugin.Ofproto.Bundles.Configure.{IsFor}
use switchd_fpa_plugin.Tests.Switch.{
  L, G, R, I, blank-IsL2, in_5, port_3, access_5, enabled_5, access_5-IsQuiet, access_5_accepted,
}
use switchd_fpa_plugin.Tests.Setting.{F, blank, O, inet_addr, E, key}

abbrev pub settings : BundleSettings
settings = record {
  name = b'3' ∷ [];
  n_slaves = 1;
  slave = some (port_3, NetdevClass.system);
  vlans = access_5;
  internal_vlan_id = 0;
  enable = true;
  ip = record {
    primary_ipv4_changed = false;
    secondary_ipv4_changed = false;
    ip4_address = none;
    ip4_address_secondary = [];
  };
}

-- A bridge without bundles, on which VLAN 5 is enabled.
abbrev pub bridge : OfprotoState F O key E inet_addr
bridge = record {
  kind = OfprotoType.system;
  name = b'b' ∷ b'r' ∷ [];
  switch_id = 0;
  vlans = enabled_5;
  bundles = [];
  host = record {
    hw = blank;
    internal_vlans = empty;
    ports = record { mask = 0; nodes = [] };
    ml = none;
    arp_indices = 1 ∷ 0 ∷ [];
    host_mask = 0;
    host_table = [];
  };
  world = 0;
}

bridge-IsFor : IsFor F O key E inet_addr (find_bundle 1 bridge.bundles) settings bridge.host port_3
unfolding find_bundle
bridge-IsFor = (NetdevClass.system, refl, refl, refl)

bundle_set-l2_state_example :
    Applies F L G R I O key E inet_addr 1 settings port_3 bridge in_5 0 4 in_5
      (bundle_set F O key E inet_addr 1 (some settings) bridge)
bundle_set-l2_state_example =
    bundle_set-l2_state F L G R I O key E inet_addr 1 settings port_3 bridge refl refl refl
      bridge-IsFor (omega arith) refl (omega arith) (omega arith) tt blank-IsL2 access_5-IsQuiet
      access_5_accepted in_5 0 4 in_5 (omega arith) refl
