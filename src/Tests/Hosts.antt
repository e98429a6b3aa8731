-- ===== src/Tests/Hosts.antt =====
-- Next-hop indices: the first host of a switch, and its removal.
use switchd_fpa_plugin.Prelude.{
  any, ◌==◌, ◌++◌, ℕ, ◌≡◌, refl, true, false, Option, none, some, [], ◌∷◌, arith,
}
use switchd_fpa_plugin.Prelude.Bitmap.{empty, set1}
use mathlib.Core.List.{Permᴰ}
use switchd_fpa_plugin.Fpa.{FlowTable}
use switchd_fpa_plugin.Fpa.Laws.{drop_cookie}
use switchd_fpa_plugin.Fpa.Sim.{sim, sim_flow, sim_group, sim_frame}
use switchd_fpa_plugin.Route.{
  add_l2_group, add_l3_group, add_route, del_route, del_group, route_ipv4_cookie, route_entry,
}
use switchd_fpa_plugin.Routing.{L3Intf}
use switchd_fpa_plugin.Ofproto.Ports.{get_ofport_by_pid}
use switchd_fpa_plugin.Ofproto.ArpIndices.{IsFreeList, alloc_arp_index}
use switchd_fpa_plugin.Ofproto.Hosts.{
  HostEntry, HostState, HostResult, Bundle, NextHopMac, add_l3_host_entry, host_of, host_table_find,
  find_egress, install_host, route_to_host, host_table_add, remove_host,
}
use switchd_fpa_plugin.Ofproto.Hosts.Indices.{IsSeparate, install_host-loses_index}
use switchd_fpa_plugin.Ofproto.Hosts.Owned.{holds}
use switchd_fpa_plugin.Ofproto.Hosts.Undo.{all_removed, remove_host-install_host}
use switchd_fpa_plugin.Ofproto.Hosts.Routes.{route_to_host-flows}
use switchd_fpa_plugin.Tests.Setting.{F, blank, E, key}
use switchd_fpa_plugin.Prelude.Errno.{einval}

abbrev pub intf : L3Intf
intf = record {
  switch_id = 0;
  intf_id = 3;
  vlan_id = 7;
  mac = 0x112233445566;
  vlan_intf = true;
  routes_count = 0;
}

abbrev pub bundle : Bundle
bundle = record { intf_id = 3; l3_intf = some intf }

-- Four indices are free; VLAN 7 is internal.
abbrev pub start : HostState F
start = record {
  hw = blank;
  internal_vlans = set1 empty 7;
  ports = record {
    mask = 0;
    nodes =
        record {
          hash = 3;
          port = record { pid = 3; ofp_port = 3; mac = 0x112233445566; mtu = 1500; vmap = empty };
        }
        ∷ [];
  };
  ml = none;
  arp_indices = 1 ∷ 2 ∷ 3 ∷ 0 ∷ [];
  host_mask = 0;
  host_table = [];
}

abbrev pub host : Option (ℕ × ℕ)
host = some (0x0100000a, 32)

start-IsFreeList : IsFreeList (1 ∷ 2 ∷ 3 ∷ 0 ∷ []) (1 ∷ 2 ∷ 3 ∷ [])
start-IsFreeList = ground arith

pub start-IsSeparate : IsSeparate F (1 ∷ 2 ∷ 3 ∷ []) start
start-IsSeparate = record { free_list = start-IsFreeList; owned = tt }

abbrev pub added : Option (HostResult F)
added = add_l3_host_entry F key E bundle false host (NextHopMac.eth_addr 0xaabb) 0 start

abbrev pub fall_back : HostResult F
fall_back = record { err = 99; l3_egress_id = 0; bundle = bundle; state = start }

abbrev pub result : Option (HostResult F) → HostResult F
result none = fall_back
result (some r) = r

pub added_runs : added ≡ some (result added)
unfolding add_l3_host_entry host_of get_ofport_by_pid find_egress
added_runs = refl

add_succeeds : (result added).err ≡ 0
unfolding add_l3_host_entry host_of get_ofport_by_pid find_egress install_host add_l2_group
    add_l3_group add_route alloc_arp_index
add_succeeds = refl

-- A switch whose flow tables have no room: the route is refused.
abbrev full : HostState (sim 0)
full = record {
  hw = blank;
  internal_vlans = set1 empty 7;
  ports = start.ports;
  ml = none;
  arp_indices = 1 ∷ 2 ∷ 3 ∷ 0 ∷ [];
  host_mask = 0;
  host_table = [];
}

full-IsSeparate : IsSeparate (sim 0) (1 ∷ 2 ∷ 3 ∷ []) full
full-IsSeparate = record { free_list = start-IsFreeList; owned = tt }

full_grouped : (add_l2_group (sim 0) 0 3 7 false blank).0 ≡ 0
unfolding add_l2_group
full_grouped = refl

full_refused :
    (install_host (sim 0) key intf 3 1500 0x112233445566 0xaabb 0x0100000a full).0 ≡ einval
unfolding install_host add_l2_group add_l3_group add_route alloc_arp_index
full_refused = refl

install_host-loses_index_example :
    let done = (install_host (sim 0) key intf 3 1500 0x112233445566 0xaabb 0x0100000a full).1 in
    IsSeparate (sim 0) (2 ∷ 3 ∷ []) done
    × (any (λ y. y == 1) (2 ∷ 3 ∷ []) ≡ false)
    × (any (holds 1) done.host_table ≡ false)
install_host-loses_index_example =
    install_host-loses_index (sim 0) key intf 3 1500 0x112233445566 0xaabb 0x0100000a 1 (2 ∷ 3 ∷ [])
      full full-IsSeparate full_grouped (λ ok. omega (arith, full_refused, ok))

abbrev next_hop : HostEntry
next_hop = record {
  ipv4_addr = 0x0100000a;
  arp_index = 1;
  l3_group = 0x20000001;
  l2_group = 0x70003;
}

abbrev with_host : HostState F
with_host = record start { host_table = record { hash = 0x0100000a; entry = next_hop } ∷ [] }

next_hop_found : host_table_find key 0x0100000a with_host.host_table ≡ some next_hop
unfolding host_table_find
next_hop_found = refl

route_set : (route_to_host F key 0 0x14 8 (some (0x0100000a, 32)) with_host).0 ≡ 0
unfolding route_to_host del_route add_route host_table_find
route_set = refl

route_to_host-flows_example :
    (sim_flow 100).flows 0 FlowTable.l3_unicast
      (route_to_host F key 0 0x14 8 (some (0x0100000a, 32)) with_host).1.hw
    ≡ drop_cookie (route_ipv4_cookie 0x14 8) []
      ++ (route_entry F 0x20000001 0 0x14 8 (F.flow_entry_init 0 FlowTable.l3_unicast).1 ∷ [])
route_to_host-flows_example =
    route_to_host-flows F (sim_flow 100) key 0 0x14 8 (0x0100000a, 32) next_hop with_host
      next_hop_found refl route_set

-- The entry that the installation makes.
installed_found :
    host_table_find key 0x0100000a
      (install_host F key intf 3 1500 0x112233445566 0xaabb 0x0100000a start).1.host_table
    ≡ some next_hop
unfolding install_host add_l2_group add_l3_group add_route alloc_arp_index host_table_find
    host_table_add
installed_found = refl

unknown : host_table_find key 0x0100000a start.host_table ≡ none
unfolding host_table_find
unknown = refl

install_runs : (install_host F key intf 3 1500 0x112233445566 0xaabb 0x0100000a start).0 ≡ 0
unfolding install_host add_l2_group add_l3_group add_route alloc_arp_index
install_runs = refl

remove_runs :
    all_removed F 0 next_hop
      (install_host F key intf 3 1500 0x112233445566 0xaabb 0x0100000a start).1.hw
    ≡ true
unfolding all_removed install_host add_l2_group add_l3_group add_route alloc_arp_index del_route
    del_group
remove_runs = refl

remove_host-install_host_example :
    let host = install_host F key intf 3 1500 0x112233445566 0xaabb 0x0100000a start in
    let back = remove_host F key 0 next_hop host.1 in
    (back.arp_indices ≡ 1 ∷ 2 ∷ 3 ∷ 0 ∷ [])
    × Permᴰ back.host_table []
    × ((sim_group 100).groups 0 back.hw ≡ [])
    × ((sim_flow 100).flows 0 FlowTable.l3_unicast back.hw ≡ [])
remove_host-install_host_example =
    remove_host-install_host F (sim_flow 100) (sim_group 100) (sim_frame 100) key intf 3 1500
      0x112233445566 0xaabb 0x0100000a (1 ∷ 2 ∷ 3 ∷ []) start next_hop 0 FlowTable.l3_unicast
      start-IsFreeList unknown install_runs installed_found remove_runs
