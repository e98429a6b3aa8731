-- ===== src/Calls/Routing.antt =====
-- Routing on a VLAN, in src/ops-fpa-routing.c, as calls on the switch.
use switchd_fpa_plugin.Prelude.{ℕ, ◌<◌, ◌≡◌, refl, false, arith}
use switchd_fpa_plugin.Fpa.{FlowTable, FlowEntry, same_table, Fpa}
use switchd_fpa_plugin.Fpa.Laws.{FlowLaws, GroupLaws, FrameLaws, IdentLaws}
use switchd_fpa_plugin.Vlan.{VlanState, vlan_add_internal, vlan_del_internal}
use switchd_fpa_plugin.Wrap.{wrap_flow_entry_add, wrap_flow_table_cookie_delete}
use switchd_fpa_plugin.Routing.{
  L3Intf, vlan_set_arp_bcast, set_arp_fwd, vlan_set_udp_dhcp, vlan_enable_unicast_routing,
  vlan_unset_arp_bcast, unset_arp_fwd, vlan_unset_udp_dhcp, vlan_disable_unicast_routing,
  fail_set_arp_fwd, fail_set_dhcp, fail_vlan_enable_unicast_routing, enable_routing_vlan,
  enable_routing_interface, disable_routing_flows, disable_routing,
}
use switchd_fpa_plugin.Calls.{Call, Calls, Calls-append, one}
use switchd_fpa_plugin.Calls.Vlans.{vlan_add_internal-Calls, vlan_del_internal-Calls}

module _ (F : Fpa) where
  add-Calls :
      (sid : ℕ) (t : FlowTable) (e : FlowEntry) (hw : F.Hw)
      → same_table FlowTable.vlan t ≡ false
      → Calls F hw (wrap_flow_entry_add F sid t e hw).1
  unfolding wrap_flow_entry_add
  add-Calls sid t e hw other = one F (Call.flow_add sid t e other refl)

  delete-Calls :
      (sid : ℕ) (t : FlowTable) (c : ℕ) (hw : F.Hw)
      → Calls F hw (wrap_flow_table_cookie_delete F sid t c hw).1
  unfolding wrap_flow_table_cookie_delete
  delete-Calls sid t c hw = one F (Call.cookie_delete sid t c refl)

  set_arp_bcast-Calls :
      (sid vlan_id : ℕ) (hw : F.Hw) → Calls F hw (vlan_set_arp_bcast F sid vlan_id hw).1
  unfolding vlan_set_arp_bcast
  set_arp_bcast-Calls sid vlan_id hw = add-Calls sid FlowTable.control_pkt _ hw refl

  unset_arp_bcast-Calls :
      (sid vlan_id : ℕ) (hw : F.Hw) → Calls F hw (vlan_unset_arp_bcast F sid vlan_id hw).1
  unfolding vlan_unset_arp_bcast
  unset_arp_bcast-Calls sid vlan_id hw = delete-Calls sid FlowTable.control_pkt _ hw

  set_arp_fwd-Calls :
      (sid vlan_id mac : ℕ) (hw : F.Hw) → Calls F hw (set_arp_fwd F sid vlan_id mac hw).1
  unfolding set_arp_fwd
  set_arp_fwd-Calls sid vlan_id mac hw = add-Calls sid FlowTable.l2_bridging _ hw refl

  unset_arp_fwd-Calls :
      (sid vlan_id mac : ℕ) (hw : F.Hw) → Calls F hw (unset_arp_fwd F sid vlan_id mac hw).1
  unfolding unset_arp_fwd
  unset_arp_fwd-Calls sid vlan_id mac hw = delete-Calls sid FlowTable.l2_bridging _ hw

  set_udp_dhcp-Calls :
      (sid vlan_id : ℕ) (hw : F.Hw) → Calls F hw (vlan_set_udp_dhcp F sid vlan_id hw).1
  unfolding vlan_set_udp_dhcp
  set_udp_dhcp-Calls sid vlan_id hw = add-Calls sid FlowTable.control_pkt _ hw refl

  unset_udp_dhcp-Calls :
      (sid vlan_id : ℕ) (hw : F.Hw) → Calls F hw (vlan_unset_udp_dhcp F sid vlan_id hw).1
  unfolding vlan_unset_udp_dhcp
  unset_udp_dhcp-Calls sid vlan_id hw = delete-Calls sid FlowTable.control_pkt _ hw

  enable_unicast-Calls :
      (sid vlan_id mac : ℕ) (hw : F.Hw)
      → Calls F hw (vlan_enable_unicast_routing F sid vlan_id mac hw).1
  unfolding vlan_enable_unicast_routing
  enable_unicast-Calls sid vlan_id mac hw = add-Calls sid FlowTable.termination _ hw refl

  disable_unicast-Calls :
      (sid vlan_id mac : ℕ) (hw : F.Hw)
      → Calls F hw (vlan_disable_unicast_routing F sid vlan_id mac hw).1
  unfolding vlan_disable_unicast_routing
  disable_unicast-Calls sid vlan_id mac hw = delete-Calls sid FlowTable.termination _ hw

  fail_arp_fwd-Calls :
      (sid vlan_id : ℕ) (hw : F.Hw) → Calls F hw (fail_set_arp_fwd F sid vlan_id hw)
  unfolding fail_set_arp_fwd
  fail_arp_fwd-Calls = unset_arp_bcast-Calls

  fail_dhcp-Calls :
      (sid vlan_id mac : ℕ) (hw : F.Hw) → Calls F hw (fail_set_dhcp F sid vlan_id mac hw)
  unfolding fail_set_dhcp
  fail_dhcp-Calls sid vlan_id mac hw =
      Calls-append F (unset_arp_fwd-Calls sid vlan_id mac hw) (fail_arp_fwd-Calls sid vlan_id _)

  fail_unicast-Calls :
      (sid vlan_id mac : ℕ) (hw : F.Hw)
      → Calls F hw (fail_vlan_enable_unicast_routing F sid vlan_id mac hw)
  unfolding fail_vlan_enable_unicast_routing
  fail_unicast-Calls sid vlan_id mac hw =
      Calls-append F (unset_udp_dhcp-Calls sid vlan_id hw) (fail_dhcp-Calls sid vlan_id mac _)

  pub enable_routing_vlan-Calls :
      (sid vlan_id mac : ℕ) (hw : F.Hw) → Calls F hw (enable_routing_vlan F sid vlan_id mac hw).1
  unfolding enable_routing_vlan
  enable_routing_vlan-Calls sid vlan_id mac hw =
      let hw1 = (vlan_set_arp_bcast F sid vlan_id hw).1 in
      let hw2 = (set_arp_fwd F sid vlan_id mac hw1).1 in
      let hw3 = (vlan_set_udp_dhcp F sid vlan_id hw2).1 in
      let hw4 = (vlan_enable_unicast_routing F sid vlan_id mac hw3).1 in
      let c1 = set_arp_bcast-Calls sid vlan_id hw in
      let c2 = Calls-append F c1 (set_arp_fwd-Calls sid vlan_id mac hw1) in
      let c3 = Calls-append F c2 (set_udp_dhcp-Calls sid vlan_id hw2) in
      let c4 = Calls-append F c3 (enable_unicast-Calls sid vlan_id mac hw3) in
      ground (
        arith,
        c1,
        c4,
        Calls-append F c2 (fail_arp_fwd-Calls sid vlan_id hw2),
        Calls-append F c3 (fail_dhcp-Calls sid vlan_id mac hw3),
        Calls-append F c4 (fail_unicast-Calls sid vlan_id mac hw4),
      )

  disable_routing_flows-Calls :
      (intf : L3Intf) (hw : F.Hw) → Calls F hw (disable_routing_flows F intf hw)
  unfolding disable_routing_flows
  disable_routing_flows-Calls intf hw =
      let hw1 = (vlan_unset_arp_bcast F intf.switch_id intf.vlan_id hw).1 in
      let hw2 = (unset_arp_fwd F intf.switch_id intf.vlan_id intf.mac hw1).1 in
      let hw3 = (vlan_unset_udp_dhcp F intf.switch_id intf.vlan_id hw2).1 in
      let c1 = unset_arp_bcast-Calls intf.switch_id intf.vlan_id hw in
      let c2 = Calls-append F c1 (unset_arp_fwd-Calls intf.switch_id intf.vlan_id intf.mac hw1) in
      let c3 = Calls-append F c2 (unset_udp_dhcp-Calls intf.switch_id intf.vlan_id hw2) in
      let c4 = Calls-append F c3 (disable_unicast-Calls intf.switch_id intf.vlan_id intf.mac hw3) in
      ground (arith, c1, c2, c3, c4)

module _ (F : Fpa) (L : FlowLaws F) (G : GroupLaws F) (R : FrameLaws F L G) (I : IdentLaws F) where
  pub enable_routing_interface-Calls :
      (sid pid vlan_id mac : ℕ) (st : VlanState F)
      → pid < 0x10000
      → 0 < vlan_id
      → vlan_id < 0x1000
      → Calls F st.hw (enable_routing_interface F sid pid vlan_id mac st).1.hw
  unfolding enable_routing_interface
  enable_routing_interface-Calls sid pid vlan_id mac st p16 v1 v12 =
      let (err, st1) = vlan_add_internal F sid pid vlan_id st in
      let (l3_intf, hw2) = enable_routing_vlan F sid vlan_id mac st1.hw in
      let st2 : VlanState F = record st1 { hw = hw2 } in
      let c1 = vlan_add_internal-Calls F L G R I sid pid vlan_id st p16 v1 v12 in
      let c2 = Calls-append F c1 (enable_routing_vlan-Calls F sid vlan_id mac st1.hw) in
      let c3 = Calls-append F c2 (vlan_del_internal-Calls F L G R I sid pid vlan_id st2) in
      ground (arith, c1, c2, c3)

  pub disable_routing-Calls :
      (intf : L3Intf) (st : VlanState F) → Calls F st.hw (disable_routing F intf st).hw
  unfolding disable_routing
  disable_routing-Calls intf st =
      let st1 = (vlan_del_internal F intf.switch_id intf.intf_id intf.vlan_id st).1 in
      ground (
        arith,
        disable_routing_flows-Calls F intf st.hw,
        Calls-append F
            (vlan_del_internal-Calls F L G R I intf.switch_id intf.intf_id intf.vlan_id st)
            (disable_routing_flows-Calls F intf st1.hw),
      )
