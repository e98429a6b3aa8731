-- ===== src/Routing.antt =====
-- src/ops-fpa-routing.c and include/ops-fpa-routing.h: the flow entries that make a VLAN routed.
-- An allocation succeeds; the pointer that a function returns is an `Option`.
pub mod Flows
pub mod Undo
use switchd_fpa_plugin.Prelude.{
  ℕ, ◌*◌, Bool, true, false, Option, none, some, ◌==◌, if◌then◌else◌, bit_or,
}
use switchd_fpa_plugin.Fpa.{FlowTable, FlowEntry, Fpa}
use switchd_fpa_plugin.Wrap.{wrap_flow_entry_add, wrap_flow_table_cookie_delete}
use switchd_fpa_plugin.Vlan.{VlanState, vlan_add_internal, vlan_del_internal}

-- `ETHERTYPE_ARP` and `ETHERTYPE_IP`.
abbrev pub ethertype_arp : ℕ
ethertype_arp = 0x806

abbrev pub ethertype_ip : ℕ
ethertype_ip = 0x800

-- The MAC address of six bytes 0xFF.
abbrev pub broadcast : ℕ
broadcast = 0xffffffffffff

-- `OPS_FPA_CONTROL_PKT_COOKIE`.
unfoldable pub control_pkt_cookie : ℕ → ℕ → ℕ
control_pkt_cookie type vlan_id = bit_or (type * 0x10000) vlan_id

-- `struct fpa_l3_intf`.
pub record L3Intf : Type 0 where
  pub switch_id : ℕ
  pub intf_id : ℕ
  pub vlan_id : ℕ
  pub mac : ℕ
  pub vlan_intf : Bool
  pub routes_count : ℕ

module _ (F : Fpa) where
  unfoldable pub arp_bcast_entry : ℕ → FlowEntry → FlowEntry
  arp_bcast_entry vlan_id entry = record entry {
    cookie = control_pkt_cookie ethertype_arp vlan_id;
    control_pkt = record entry.control_pkt {
      entry_type = F.arp_request_messages;
      dst_mac = broadcast;
      dst_mac_mask = broadcast;
      vlan_id = vlan_id;
      vlan_id_mask = 0xffff;
      ether_type = ethertype_arp;
      ether_type_mask = 0xffff;
      output_port = F.output_controller;
    };
  }

  -- An entry that could not be initialised is filled and added all the same.
  unfoldable pub vlan_set_arp_bcast : ℕ → ℕ → F.Hw → ℕ × F.Hw
  unfolding arp_bcast_entry wrap_flow_entry_add
  vlan_set_arp_bcast sid vlan_id hw =
      let (err, entry) = F.flow_entry_init sid FlowTable.control_pkt in
      wrap_flow_entry_add F sid FlowTable.control_pkt (arp_bcast_entry vlan_id entry) hw

  unfoldable pub vlan_unset_arp_bcast : ℕ → ℕ → F.Hw → ℕ × F.Hw
  unfolding wrap_flow_table_cookie_delete
  vlan_unset_arp_bcast sid vlan_id hw =
      wrap_flow_table_cookie_delete F sid FlowTable.control_pkt
        (control_pkt_cookie ethertype_arp vlan_id) hw

  unfoldable pub arp_fwd_entry : ℕ → ℕ → FlowEntry → FlowEntry
  arp_fwd_entry vlan_id mac entry = record entry {
    cookie = vlan_id;
    l2_bridging = record {
      vlan_id = vlan_id;
      vlan_id_mask = 0xffff;
      dest_mac = mac;
      dest_mac_mask = broadcast;
      group_id = 0xffffffff;
      output_port = F.output_controller;
    };
  }

  unfoldable pub set_arp_fwd : ℕ → ℕ → ℕ → F.Hw → ℕ × F.Hw
  unfolding arp_fwd_entry wrap_flow_entry_add
  set_arp_fwd sid vlan_id mac hw =
      let (err, entry) = F.flow_entry_init sid FlowTable.l2_bridging in
      wrap_flow_entry_add F sid FlowTable.l2_bridging (arp_fwd_entry vlan_id mac entry) hw

  unfoldable pub unset_arp_fwd : ℕ → ℕ → ℕ → F.Hw → ℕ × F.Hw
  unfolding wrap_flow_table_cookie_delete
  unset_arp_fwd sid vlan_id mac hw =
      wrap_flow_table_cookie_delete F sid FlowTable.l2_bridging vlan_id hw

  unfoldable pub unicast_entry : ℕ → ℕ → FlowEntry → FlowEntry
  unicast_entry vlan_id mac entry = record entry {
    cookie = vlan_id;
    termination = record {
      ether_type = ethertype_ip;
      ether_type_mask = 0xffff;
      vlan_id = vlan_id;
      vlan_id_mask = 0xffff;
      dest_mac = mac;
      dest_mac_mask = broadcast;
      metadata_value = F.mac2me_bit;
      metadata_mask = F.mac2me_bit;
    };
  }

  unfoldable pub vlan_enable_unicast_routing : ℕ → ℕ → ℕ → F.Hw → ℕ × F.Hw
  unfolding unicast_entry wrap_flow_entry_add
  vlan_enable_unicast_routing sid vlan_id mac hw =
      let (err, entry) = F.flow_entry_init sid FlowTable.termination in
      wrap_flow_entry_add F sid FlowTable.termination (unicast_entry vlan_id mac entry) hw

  unfoldable pub vlan_disable_unicast_routing : ℕ → ℕ → ℕ → F.Hw → ℕ × F.Hw
  unfolding wrap_flow_table_cookie_delete
  vlan_disable_unicast_routing sid vlan_id mac hw =
      wrap_flow_table_cookie_delete F sid FlowTable.termination vlan_id hw

  unfoldable pub udp_dhcp_entry : ℕ → FlowEntry → FlowEntry
  udp_dhcp_entry vlan_id entry = record entry {
    cookie = control_pkt_cookie ethertype_ip vlan_id;
    control_pkt = record {
      entry_type = F.udp_broadcast_ctrl;
      dst_mac = broadcast;
      dst_mac_mask = broadcast;
      vlan_id = vlan_id;
      vlan_id_mask = 0xffff;
      ether_type = ethertype_ip;
      ether_type_mask = 0xffff;
      ip_protocol = 17;
      ip_protocol_mask = 0xffff;
      icmp_v6_type_mask = 0;
      dst_l4_port = 67;
      dst_l4_port_mask = 0xffff;
      output_port = F.output_controller;
    };
  }

  unfoldable pub vlan_set_udp_dhcp : ℕ → ℕ → F.Hw → ℕ × F.Hw
  unfolding udp_dhcp_entry wrap_flow_entry_add
  vlan_set_udp_dhcp sid vlan_id hw =
      let (err, entry) = F.flow_entry_init sid FlowTable.control_pkt in
      wrap_flow_entry_add F sid FlowTable.control_pkt (udp_dhcp_entry vlan_id entry) hw

  unfoldable pub vlan_unset_udp_dhcp : ℕ → ℕ → F.Hw → ℕ × F.Hw
  unfolding wrap_flow_table_cookie_delete
  vlan_unset_udp_dhcp sid vlan_id hw =
      wrap_flow_table_cookie_delete F sid FlowTable.control_pkt
        (control_pkt_cookie ethertype_ip vlan_id) hw

  -- The three labels at the end of `ops_fpa_enable_routing_vlan`, each running on into the next.
  unfoldable pub fail_set_arp_fwd : ℕ → ℕ → F.Hw → F.Hw
  unfolding vlan_unset_arp_bcast
  fail_set_arp_fwd sid vlan_id hw = (vlan_unset_arp_bcast sid vlan_id hw).1

  unfoldable pub fail_set_dhcp : ℕ → ℕ → ℕ → F.Hw → F.Hw
  unfolding fail_set_arp_fwd unset_arp_fwd
  fail_set_dhcp sid vlan_id mac hw =
      fail_set_arp_fwd sid vlan_id (unset_arp_fwd sid vlan_id mac hw).1

  unfoldable pub fail_vlan_enable_unicast_routing : ℕ → ℕ → ℕ → F.Hw → F.Hw
  unfolding fail_set_dhcp vlan_unset_udp_dhcp
  fail_vlan_enable_unicast_routing sid vlan_id mac hw =
      fail_set_dhcp sid vlan_id mac (vlan_unset_udp_dhcp sid vlan_id hw).1

  unfoldable pub enable_routing_vlan : ℕ → ℕ → ℕ → F.Hw → Option L3Intf × F.Hw
  unfolding vlan_set_arp_bcast set_arp_fwd vlan_set_udp_dhcp vlan_enable_unicast_routing
      fail_set_arp_fwd fail_set_dhcp fail_vlan_enable_unicast_routing
  enable_routing_vlan sid vlan_id mac hw =
      let (err1, hw1) = vlan_set_arp_bcast sid vlan_id hw in
      let (err2, hw2) = set_arp_fwd sid vlan_id mac hw1 in
      let (err3, hw3) = vlan_set_udp_dhcp sid vlan_id hw2 in
      let (err4, hw4) = vlan_enable_unicast_routing sid vlan_id mac hw3 in
      if err1 == 0
      then (if err2 == 0
          then (if err3 == 0
              then (if err4 == 0
                  then (
                    some (record {
                      switch_id = sid;
                      intf_id = 0;
                      vlan_id = vlan_id;
                      mac = mac;
                      vlan_intf = false;
                      routes_count = 0;
                    }),
                    hw4,
                  )
                  else (none, fail_vlan_enable_unicast_routing sid vlan_id mac hw4))
              else (none, fail_set_dhcp sid vlan_id mac hw3))
          else (none, fail_set_arp_fwd sid vlan_id hw2))
      else (none, hw1)

  unfoldable pub enable_routing_interface :
      ℕ → ℕ → ℕ → ℕ → VlanState F → Option L3Intf × VlanState F
  unfolding vlan_add_internal vlan_del_internal enable_routing_vlan
  enable_routing_interface sid port_num vlan_id mac st =
      let (err, st1) = vlan_add_internal F sid port_num vlan_id st in
      let (l3_intf, hw2) = enable_routing_vlan sid vlan_id mac st1.hw in
      let st2 = record st1 { hw = hw2 } in
      if err == 0
      then elim l3_intf [
        | none ↦ (none, (vlan_del_internal F sid port_num vlan_id st2).1)
        | some intf ↦ (some (record intf { intf_id = port_num; vlan_intf = true }), st2)
      ]
      else (none, st1)

  -- The calls of `ops_fpa_disable_routing` on the flow tables, up to the first that fails.
  unfoldable pub disable_routing_flows : L3Intf → F.Hw → F.Hw
  unfolding vlan_unset_arp_bcast unset_arp_fwd vlan_unset_udp_dhcp vlan_disable_unicast_routing
  disable_routing_flows intf hw =
      let (err1, hw1) = vlan_unset_arp_bcast intf.switch_id intf.vlan_id hw in
      let (err2, hw2) = unset_arp_fwd intf.switch_id intf.vlan_id intf.mac hw1 in
      let (err3, hw3) = vlan_unset_udp_dhcp intf.switch_id intf.vlan_id hw2 in
      let (err4, hw4) = vlan_disable_unicast_routing intf.switch_id intf.vlan_id intf.mac hw3 in
      if err1 == 0 then (if err2 == 0 then (if err3 == 0 then hw4 else hw3) else hw2) else hw1

  unfoldable pub disable_routing : L3Intf → VlanState F → VlanState F
  unfolding vlan_del_internal disable_routing_flows
  disable_routing intf st =
      let st1 =
        if intf.vlan_intf
        then (vlan_del_internal F intf.switch_id intf.intf_id intf.vlan_id st).1
        else st in
      record st1 { hw = disable_routing_flows intf st1.hw }
