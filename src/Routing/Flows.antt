-- ===== src/Routing/Flows.antt =====
-- The flow tables after a VLAN is made routed, or is not, and after routing is disabled.
use switchd_fpa_plugin.Prelude.{
  ℕ, ◌<◌, ◌≡◌, refl, ◌∙◌, ap, false, not, some, List, [], ◌∷◌, ◌++◌, arith, ◌==◌, if◌then◌else◌,
  keep-append,
}
use switchd_fpa_plugin.Prelude.Bits.{bit_or-disjoint}
use switchd_fpa_plugin.Fpa.{FlowTable, same_table, FlowEntry, Fpa}
use switchd_fpa_plugin.Fpa.Laws.{FlowLaws, drop_cookie}
use switchd_fpa_plugin.Routing.{
  L3Intf, ethertype_arp, ethertype_ip, control_pkt_cookie, arp_bcast_entry, arp_fwd_entry,
  udp_dhcp_entry, unicast_entry, vlan_set_arp_bcast, set_arp_fwd, vlan_set_udp_dhcp,
  vlan_enable_unicast_routing, enable_routing_vlan,
}

pub control_pkt_cookie-ne :
    (vlan_id : ℕ)
    → vlan_id < 0x10000
    → (control_pkt_cookie ethertype_arp vlan_id == control_pkt_cookie ethertype_ip vlan_id) ≡ false
unfolding control_pkt_cookie
control_pkt_cookie-ne v h = ground (
  arith,
  bit_or-disjoint 16 ethertype_arp v (omega arith),
  bit_or-disjoint 16 ethertype_ip v (omega arith),
)

pub append_nil : (xs : List FlowEntry) → xs ++ [] ≡ xs
append_nil [] = refl
append_nil (x ∷ xs) = ap (λ ys. x ∷ ys) (append_nil xs)

append_two :
    (xs : List FlowEntry) (a b : FlowEntry) → (xs ++ (a ∷ [])) ++ (b ∷ []) ≡ xs ++ (a ∷ b ∷ [])
append_two [] a b = refl
append_two (x ∷ xs) a b = ap (λ ys. x ∷ ys) (append_two xs a b)

pub drop-last :
    (xs : List FlowEntry) (e : FlowEntry) (c : ℕ)
    → drop_cookie c xs ≡ xs
    → drop_cookie c (xs ++ (e ∷ [])) ≡ (if e.cookie == c then xs else xs ++ (e ∷ []))
drop-last xs e c h =
    keep-append (λ x. not (x.cookie == c)) xs (e ∷ []) ∙ rw h (ground (arith, append_nil xs))

module _ (F : Fpa) where
  -- The entries of routing on a VLAN, table by table.
  unfoldable pub routing_flows : ℕ → ℕ → ℕ → FlowTable → List FlowEntry
  unfolding arp_bcast_entry udp_dhcp_entry arp_fwd_entry unicast_entry
  routing_flows sid vlan_id mac t =
      if same_table t FlowTable.control_pkt
      then arp_bcast_entry F vlan_id (F.flow_entry_init sid FlowTable.control_pkt).1
        ∷ udp_dhcp_entry F vlan_id (F.flow_entry_init sid FlowTable.control_pkt).1
        ∷ []
      else (if same_table t FlowTable.l2_bridging
          then arp_fwd_entry F vlan_id mac (F.flow_entry_init sid FlowTable.l2_bridging).1 ∷ []
          else (if same_table t FlowTable.termination
              then unicast_entry F vlan_id mac (F.flow_entry_init sid FlowTable.termination).1 ∷ []
              else []))

module _ (F : Fpa) (L : FlowLaws F) where
  -- The tables hold no entry with a cookie of routing on the VLAN.
  pub record IsUnrouted (sid vlan_id : ℕ) (hw : F.Hw) : Type 0 where
    pub no_arp :
        drop_cookie
          (control_pkt_cookie ethertype_arp vlan_id)
          (L.flows sid FlowTable.control_pkt hw)
        ≡ L.flows sid FlowTable.control_pkt hw
    pub no_udp :
        drop_cookie (control_pkt_cookie ethertype_ip vlan_id) (L.flows sid FlowTable.control_pkt hw)
        ≡ L.flows sid FlowTable.control_pkt hw
    pub no_fwd :
        drop_cookie vlan_id (L.flows sid FlowTable.l2_bridging hw)
        ≡ L.flows sid FlowTable.l2_bridging hw
    pub no_unicast :
        drop_cookie vlan_id (L.flows sid FlowTable.termination hw)
        ≡ L.flows sid FlowTable.termination hw

  -- Making a VLAN routed, when it succeeds, appends to the flow tables of the switch exactly the
  -- entries of routing, the one for ARP requests before the one for DHCP, and changes no other
  -- table and no other switch.
  pub enable_routing_vlan-flows :
      (sid vlan_id mac : ℕ) (hw : F.Hw) (intf : L3Intf)
      → (enable_routing_vlan F sid vlan_id mac hw).0 ≡ some intf
      → (s : ℕ) (t : FlowTable)
      → L.flows s t (enable_routing_vlan F sid vlan_id mac hw).1
        ≡ (if s == sid then L.flows s t hw ++ routing_flows F sid vlan_id mac t else L.flows s t hw)
  unfolding enable_routing_vlan vlan_set_arp_bcast set_arp_fwd vlan_set_udp_dhcp
      vlan_enable_unicast_routing routing_flows
  enable_routing_vlan-flows sid vlan_id mac hw intf ok s t =
      let arp = arp_bcast_entry F vlan_id (F.flow_entry_init sid FlowTable.control_pkt).1 in
      let udp = udp_dhcp_entry F vlan_id (F.flow_entry_init sid FlowTable.control_pkt).1 in
      let fwd = arp_fwd_entry F vlan_id mac (F.flow_entry_init sid FlowTable.l2_bridging).1 in
      let uni = unicast_entry F vlan_id mac (F.flow_entry_init sid FlowTable.termination).1 in
      let hw1 = (vlan_set_arp_bcast F sid vlan_id hw).1 in
      let hw2 = (set_arp_fwd F sid vlan_id mac hw1).1 in
      let hw3 = (vlan_set_udp_dhcp F sid vlan_id hw2).1 in
      ground (
        arith,
        ok,
        append_nil (L.flows s t hw),
        append_two (L.flows s t hw) arp udp,
        L.flows-add sid FlowTable.control_pkt arp hw s t,
        L.flows-add sid FlowTable.l2_bridging fwd hw1 s t,
        L.flows-add sid FlowTable.control_pkt udp hw2 s t,
        L.flows-add sid FlowTable.termination uni hw3 s t,
      )
