-- ===== src/Tests/Routes.antt =====
-- Routing on a VLAN of the simulated switch.
use switchd_fpa_plugin.Prelude.{◌≡◌, refl, none, some, [], ◌++◌, ◌==◌, if◌then◌else◌, false, arith}
use switchd_fpa_plugin.Fpa.{FlowTable, Fpa}
use switchd_fpa_plugin.Fpa.Sim.{sim, sim_flow}
use switchd_fpa_plugin.Routing.{
  L3Intf, vlan_set_arp_bcast, set_arp_fwd, vlan_set_udp_dhcp, vlan_enable_unicast_routing,
  enable_routing_vlan,
}
use switchd_fpa_plugin.Routing.Flows.{routing_flows, IsUnrouted, enable_routing_vlan-flows}
use switchd_fpa_plugin.Routing.Undo.{enable_routing_vlan-undone}
use switchd_fpa_plugin.Tests.Setting.{blank}

-- The switch has room for one entry in a table, or for ten.
abbrev small : Fpa
small = sim 1

abbrev large : Fpa
large = sim 10

small-IsUnrouted : IsUnrouted small (sim_flow 1) 0 7 blank
small-IsUnrouted = record { no_arp = refl; no_udp = refl; no_fwd = refl; no_unicast = refl }

abbrev intf_7 : L3Intf
intf_7 = record {
  switch_id = 0;
  intf_id = 0;
  vlan_id = 7;
  mac = 0x112233445566;
  vlan_intf = false;
  routes_count = 0;
}

small_fails : (enable_routing_vlan small 0 7 0x112233445566 blank).0 ≡ none
unfolding enable_routing_vlan vlan_set_arp_bcast set_arp_fwd vlan_set_udp_dhcp
    vlan_enable_unicast_routing
small_fails = refl

large_succeeds : (enable_routing_vlan large 0 7 0x112233445566 blank).0 ≡ some intf_7
unfolding enable_routing_vlan vlan_set_arp_bcast set_arp_fwd vlan_set_udp_dhcp
    vlan_enable_unicast_routing
large_succeeds = refl

enable_routing_vlan-undone_example :
    (sim_flow 1).flows 0 FlowTable.control_pkt
      (enable_routing_vlan small 0 7 0x112233445566 blank).1
    ≡ []
enable_routing_vlan-undone_example =
    enable_routing_vlan-undone small (sim_flow 1) 0 7 0x112233445566 blank (omega arith)
      small-IsUnrouted (λ t c h. refl) small_fails 0 FlowTable.control_pkt

enable_routing_vlan-flows_example :
    (sim_flow 10).flows 0 FlowTable.control_pkt
      (enable_routing_vlan large 0 7 0x112233445566 blank).1
    ≡ (if 0 == 0 then [] ++ routing_flows large 0 7 0x112233445566 FlowTable.control_pkt else [])
enable_routing_vlan-flows_example =
    enable_routing_vlan-flows large (sim_flow 10) 0 7 0x112233445566 blank intf_7 large_succeeds 0
      FlowTable.control_pkt
