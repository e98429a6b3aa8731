-- ===== src/Tests/Interfaces.antt =====
-- A VRF's bundle of the VLAN interface of VLAN 7.
use switchd_fpa_plugin.Prelude.{◌≡◌, refl, false, none, some, [], ◌++◌, arith}
use switchd_fpa_plugin.Fpa.{FlowTable}
use switchd_fpa_plugin.Netdev.{NetdevClass}
use switchd_fpa_plugin.Routing.{
  L3Intf, vlan_set_arp_bcast, set_arp_fwd, vlan_set_udp_dhcp, vlan_enable_unicast_routing,
  enable_routing_vlan,
}
use switchd_fpa_plugin.Routing.Flows.{routing_flows, IsUnrouted}
use switchd_fpa_plugin.Ofproto.Bundles.{BundleSettings, OfprotoType, find_bundle}
use switchd_fpa_plugin.Ofproto.Bundles.Set.{OfprotoState, bundle_set, rm_bundle}
use switchd_fpa_plugin.Ofproto.Bundles.L3.{IsVlanInterface, routing, rm_bundle-bundle_set}
use switchd_fpa_plugin.Tests.Setting.{F, blank, O, inet_addr, E, key}
use switchd_fpa_plugin.Tests.Switch.{L, port_3}
use switchd_fpa_plugin.Tests.Bundles.{settings, bridge}

abbrev vlan_7 : BundleSettings
vlan_7 = record settings {
  slave = some (port_3, NetdevClass.internal);
  vlans = record settings.vlans { vlan = 7 };
}

vlan_7-IsVlanInterface : IsVlanInterface vlan_7 port_3
vlan_7-IsVlanInterface = record {
  one = refl;
  slave = refl;
  on = refl;
  vlan = refl;
  no_primary = refl;
  no_secondary = refl;
}

abbrev vrf : OfprotoState F O key E inet_addr
vrf = record bridge { kind = OfprotoType.vrf }

abbrev intf_7 : L3Intf
intf_7 = record {
  switch_id = 0;
  intf_id = 0;
  vlan_id = 7;
  mac = 0x112233445566;
  vlan_intf = false;
  routes_count = 0;
}

no_bundle : find_bundle 1 vrf.bundles ≡ none
unfolding find_bundle
no_bundle = refl

starts : (enable_routing_vlan F 0 7 0x112233445566 blank).0 ≡ some intf_7
unfolding enable_routing_vlan vlan_set_arp_bcast set_arp_fwd vlan_set_udp_dhcp
    vlan_enable_unicast_routing
starts = refl

blank-IsUnrouted : IsUnrouted F L 0 7 blank
blank-IsUnrouted = record { no_arp = refl; no_udp = refl; no_fwd = refl; no_unicast = refl }

abbrev routed : OfprotoState F O key E inet_addr
routed = routing F O key E inet_addr 1 vlan_7 port_3 intf_7 vrf

rm_bundle-bundle_set_example :
    (bundle_set F O key E inet_addr 1 (some vlan_7) vrf ≡ some (0, routed))
    × (L.flows 0 FlowTable.control_pkt routed.host.hw
        ≡ [] ++ routing_flows F 0 7 0x112233445566 FlowTable.control_pkt)
    × ((rm_bundle F O key E inet_addr 1 routed).0 ≡ 0)
    × ((rm_bundle F O key E inet_addr 1 routed).1.bundles ≡ [])
    × (L.flows 0 FlowTable.control_pkt (rm_bundle F O key E inet_addr 1 routed).1.host.hw ≡ [])
rm_bundle-bundle_set_example =
    rm_bundle-bundle_set F L O key E inet_addr 1 vlan_7 port_3 intf_7 vrf vlan_7-IsVlanInterface
      (omega arith) refl no_bundle starts blank-IsUnrouted (λ t c h. refl) FlowTable.control_pkt
