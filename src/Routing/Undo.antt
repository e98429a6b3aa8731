-- ===== src/Routing/Undo.antt =====
-- The clean-up after routing could not be enabled, and the end of routing: the flow tables are as
-- they were before.
use switchd_fpa_plugin.Prelude.{
  ℕ, ◌<◌, ◌≡◌, refl, sym, ◌∙◌, ap, subst, true, false, not, ◌&&◌, none, some, List, [], ◌∷◌, ◌++◌,
  arith, ◌==◌, ==_refl, ==_iff, if◌then◌else◌, Bool-cases, inl, inr, keep-append,
}
use switchd_fpa_plugin.Fpa.{FlowTable, same_table, FlowEntry, Fpa}
use switchd_fpa_plugin.Fpa.Laws.{FlowLaws, drop_cookie}
use switchd_fpa_plugin.Routing.{
  L3Intf, ethertype_arp, ethertype_ip, control_pkt_cookie, arp_bcast_entry, arp_fwd_entry,
  udp_dhcp_entry, unicast_entry, vlan_set_arp_bcast, set_arp_fwd, vlan_set_udp_dhcp,
  vlan_enable_unicast_routing, vlan_unset_arp_bcast, unset_arp_fwd, vlan_unset_udp_dhcp,
  vlan_disable_unicast_routing, fail_set_arp_fwd, fail_set_dhcp, fail_vlan_enable_unicast_routing,
  enable_routing_vlan, disable_routing_flows,
}
use switchd_fpa_plugin.Routing.Flows.{
  control_pkt_cookie-ne, append_nil, drop-last, routing_flows, IsUnrouted,
  enable_routing_vlan-flows,
}
use switchd_fpa_plugin.Fpa.Tables.{same_table→≡}

module _ (F : Fpa) (L : FlowLaws F) (sid vlan_id mac : ℕ) (hw : F.Hw) where
  abbrev c_arp : ℕ
  c_arp = control_pkt_cookie ethertype_arp vlan_id

  abbrev c_udp : ℕ
  c_udp = control_pkt_cookie ethertype_ip vlan_id

  abbrev arp : FlowEntry
  arp = arp_bcast_entry F vlan_id (F.flow_entry_init sid FlowTable.control_pkt).1

  abbrev udp : FlowEntry
  udp = udp_dhcp_entry F vlan_id (F.flow_entry_init sid FlowTable.control_pkt).1

  abbrev fwd : FlowEntry
  fwd = arp_fwd_entry F vlan_id mac (F.flow_entry_init sid FlowTable.l2_bridging).1

  abbrev uni : FlowEntry
  uni = unicast_entry F vlan_id mac (F.flow_entry_init sid FlowTable.termination).1

  drop-arp :
      (t : FlowTable)
      → IsUnrouted F L sid vlan_id hw
      → same_table t FlowTable.control_pkt ≡ true
      → drop_cookie c_arp (L.flows sid t hw ++ (arp ∷ [])) ≡ L.flows sid t hw
  unfolding arp_bcast_entry
  drop-arp t new h = rw (same_table→≡ t FlowTable.control_pkt h) (
      drop-last (L.flows sid FlowTable.control_pkt hw) arp c_arp new.no_arp
      ∙ rw (==_refl c_arp) refl)

  drop-udp :
      (t : FlowTable)
      → vlan_id < 0x10000
      → IsUnrouted F L sid vlan_id hw
      → same_table t FlowTable.control_pkt ≡ true
      → drop_cookie c_udp ((L.flows sid t hw ++ (arp ∷ [])) ++ (udp ∷ []))
        ≡ L.flows sid t hw ++ (arp ∷ [])
  unfolding udp_dhcp_entry arp_bcast_entry
  drop-udp t v16 new h = rw (same_table→≡ t FlowTable.control_pkt h) (
      drop-last (L.flows sid FlowTable.control_pkt hw ++ (arp ∷ [])) udp c_udp (
        drop-last (L.flows sid FlowTable.control_pkt hw) arp c_udp new.no_udp
        ∙ rw (control_pkt_cookie-ne vlan_id v16) refl)
      ∙ rw (==_refl c_udp) refl)

  drop-fwd :
      (t : FlowTable)
      → IsUnrouted F L sid vlan_id hw
      → same_table t FlowTable.l2_bridging ≡ true
      → drop_cookie vlan_id (L.flows sid t hw ++ (fwd ∷ [])) ≡ L.flows sid t hw
  unfolding arp_fwd_entry
  drop-fwd t new h = rw (same_table→≡ t FlowTable.l2_bridging h) (
      drop-last (L.flows sid FlowTable.l2_bridging hw) fwd vlan_id new.no_fwd
      ∙ rw (==_refl vlan_id) refl)

  drop-uni :
      (t : FlowTable)
      → IsUnrouted F L sid vlan_id hw
      → same_table t FlowTable.termination ≡ true
      → drop_cookie vlan_id (L.flows sid t hw ++ (uni ∷ [])) ≡ L.flows sid t hw
  unfolding unicast_entry
  drop-uni t new h = rw (same_table→≡ t FlowTable.termination h) (
      drop-last (L.flows sid FlowTable.termination hw) uni vlan_id new.no_unicast
      ∙ rw (==_refl vlan_id) refl)

  -- What each label leaves of a table, where every deletion succeeds.
  undo_arp :
      (h : F.Hw) (s : ℕ) (t : FlowTable)
      → ((t : FlowTable) (c : ℕ) (h : F.Hw) → (F.flow_table_cookie_delete sid t c h).0 ≡ 0)
      → L.flows s t (fail_set_arp_fwd F sid vlan_id h) ≡ (
          if s == sid && same_table t FlowTable.control_pkt
          then drop_cookie c_arp (L.flows s t h)
          else L.flows s t h)
  unfolding fail_set_arp_fwd vlan_unset_arp_bcast
  undo_arp h s t deletes = ground (
    arith,
    deletes FlowTable.control_pkt c_arp h,
    L.flows-cookie_delete sid FlowTable.control_pkt c_arp h s t,
  )

  undo_fwd :
      (h : F.Hw) (s : ℕ) (t : FlowTable)
      → ((t : FlowTable) (c : ℕ) (h : F.Hw) → (F.flow_table_cookie_delete sid t c h).0 ≡ 0)
      → L.flows s t (unset_arp_fwd F sid vlan_id mac h).1 ≡ (
          if s == sid && same_table t FlowTable.l2_bridging
          then drop_cookie vlan_id (L.flows s t h)
          else L.flows s t h)
  unfolding unset_arp_fwd
  undo_fwd h s t deletes = ground (
    arith,
    deletes FlowTable.l2_bridging vlan_id h,
    L.flows-cookie_delete sid FlowTable.l2_bridging vlan_id h s t,
  )

  undo_udp :
      (h : F.Hw) (s : ℕ) (t : FlowTable)
      → ((t : FlowTable) (c : ℕ) (h : F.Hw) → (F.flow_table_cookie_delete sid t c h).0 ≡ 0)
      → L.flows s t (vlan_unset_udp_dhcp F sid vlan_id h).1 ≡ (
          if s == sid && same_table t FlowTable.control_pkt
          then drop_cookie c_udp (L.flows s t h)
          else L.flows s t h)
  unfolding vlan_unset_udp_dhcp
  undo_udp h s t deletes = ground (
    arith,
    deletes FlowTable.control_pkt c_udp h,
    L.flows-cookie_delete sid FlowTable.control_pkt c_udp h s t,
  )

  undo_uni :
      (h : F.Hw) (s : ℕ) (t : FlowTable)
      → ((t : FlowTable) (c : ℕ) (h : F.Hw) → (F.flow_table_cookie_delete sid t c h).0 ≡ 0)
      → L.flows s t (vlan_disable_unicast_routing F sid vlan_id mac h).1 ≡ (
          if s == sid && same_table t FlowTable.termination
          then drop_cookie vlan_id (L.flows s t h)
          else L.flows s t h)
  unfolding vlan_disable_unicast_routing
  undo_uni h s t deletes = ground (
    arith,
    deletes FlowTable.termination vlan_id h,
    L.flows-cookie_delete sid FlowTable.termination vlan_id h s t,
  )

  undone :
      (t : FlowTable)
      → vlan_id < 0x10000
      → IsUnrouted F L sid vlan_id hw
      → ((t : FlowTable) (c : ℕ) (h : F.Hw) → (F.flow_table_cookie_delete sid t c h).0 ≡ 0)
      → (enable_routing_vlan F sid vlan_id mac hw).0 ≡ none
      → L.flows sid t (enable_routing_vlan F sid vlan_id mac hw).1 ≡ L.flows sid t hw
  unfolding enable_routing_vlan vlan_set_arp_bcast set_arp_fwd vlan_set_udp_dhcp
      vlan_enable_unicast_routing fail_vlan_enable_unicast_routing fail_set_dhcp
  undone t v16 new deletes failed =
      let hw1 = (vlan_set_arp_bcast F sid vlan_id hw).1 in
      let hw2 = (set_arp_fwd F sid vlan_id mac hw1).1 in
      let hw3 = (vlan_set_udp_dhcp F sid vlan_id hw2).1 in
      let hw4 = (vlan_enable_unicast_routing F sid vlan_id mac hw3).1 in
      let hw5 = (vlan_unset_udp_dhcp F sid vlan_id hw4).1 in
      ground (
        arith,
        failed,
        drop-arp t new,
        drop-udp t v16 new,
        drop-fwd t new,
        L.flows-add sid FlowTable.control_pkt arp hw sid t,
        L.flows-add sid FlowTable.l2_bridging fwd hw1 sid t,
        L.flows-add sid FlowTable.control_pkt udp hw2 sid t,
        L.flows-add sid FlowTable.termination uni hw3 sid t,
        undo_arp hw2 sid t deletes,
        undo_fwd hw3 sid t deletes,
        undo_arp (unset_arp_fwd F sid vlan_id mac hw3).1 sid t deletes,
        undo_udp hw4 sid t deletes,
        undo_fwd hw5 sid t deletes,
        undo_arp (unset_arp_fwd F sid vlan_id mac hw5).1 sid t deletes,
      )

  elsewhere :
      (s : ℕ) (t : FlowTable)
      → ((t : FlowTable) (c : ℕ) (h : F.Hw) → (F.flow_table_cookie_delete sid t c h).0 ≡ 0)
      → (s == sid) ≡ false
      → (enable_routing_vlan F sid vlan_id mac hw).0 ≡ none
      → L.flows s t (enable_routing_vlan F sid vlan_id mac hw).1 ≡ L.flows s t hw
  unfolding enable_routing_vlan vlan_set_arp_bcast set_arp_fwd vlan_set_udp_dhcp
      vlan_enable_unicast_routing fail_vlan_enable_unicast_routing fail_set_dhcp
  elsewhere s t deletes other failed =
      let hw1 = (vlan_set_arp_bcast F sid vlan_id hw).1 in
      let hw2 = (set_arp_fwd F sid vlan_id mac hw1).1 in
      let hw3 = (vlan_set_udp_dhcp F sid vlan_id hw2).1 in
      let hw4 = (vlan_enable_unicast_routing F sid vlan_id mac hw3).1 in
      let hw5 = (vlan_unset_udp_dhcp F sid vlan_id hw4).1 in
      ground (
        arith,
        failed,
        other,
        L.flows-add sid FlowTable.control_pkt arp hw s t,
        L.flows-add sid FlowTable.l2_bridging fwd hw1 s t,
        L.flows-add sid FlowTable.control_pkt udp hw2 s t,
        L.flows-add sid FlowTable.termination uni hw3 s t,
        undo_arp hw2 s t deletes,
        undo_fwd hw3 s t deletes,
        undo_arp (unset_arp_fwd F sid vlan_id mac hw3).1 s t deletes,
        undo_udp hw4 s t deletes,
        undo_fwd hw5 s t deletes,
        undo_arp (unset_arp_fwd F sid vlan_id mac hw5).1 s t deletes,
      )

  pub built :
      (intf : L3Intf)
      → (enable_routing_vlan F sid vlan_id mac hw).0 ≡ some intf
      → intf ≡ record {
        switch_id = sid;
        intf_id = 0;
        vlan_id = vlan_id;
        mac = mac;
        vlan_intf = false;
        routes_count = 0;
      }
  unfolding enable_routing_vlan
  built intf ok = ground (arith, ok)

  -- The entries for control packets are deleted in the order in which they were added.
  drop-both :
      (t : FlowTable)
      → vlan_id < 0x10000
      → IsUnrouted F L sid vlan_id hw
      → same_table t FlowTable.control_pkt ≡ true
      → drop_cookie c_udp (drop_cookie c_arp (L.flows sid t hw ++ (arp ∷ udp ∷ [])))
        ≡ L.flows sid t hw
  unfolding udp_dhcp_entry arp_bcast_entry
  drop-both t v16 new h = rw (same_table→≡ t FlowTable.control_pkt h) (
      ap (drop_cookie c_udp) (
        keep-append (λ x. not (x.cookie == c_arp)) control (arp ∷ udp ∷ [])
        ∙ rw new.no_arp (ground (arith, control_pkt_cookie-ne vlan_id v16)))
      ∙ drop-last control udp c_udp new.no_udp
      ∙ rw (==_refl c_udp) refl)
    where
      control : List FlowEntry
      control = L.flows sid FlowTable.control_pkt hw

  disabled :
      (t : FlowTable) (intf : L3Intf)
      → vlan_id < 0x10000
      → IsUnrouted F L sid vlan_id hw
      → ((t : FlowTable) (c : ℕ) (h : F.Hw) → (F.flow_table_cookie_delete sid t c h).0 ≡ 0)
      → (enable_routing_vlan F sid vlan_id mac hw).0 ≡ some intf
      → L.flows sid t (
          disable_routing_flows F
            (record {
              switch_id = sid;
              intf_id = 0;
              vlan_id = vlan_id;
              mac = mac;
              vlan_intf = false;
              routes_count = 0;
            })
            (enable_routing_vlan F sid vlan_id mac hw).1)
        ≡ L.flows sid t hw
  unfolding disable_routing_flows vlan_unset_arp_bcast routing_flows arp_bcast_entry arp_fwd_entry
      udp_dhcp_entry unicast_entry
  disabled t intf v16 new deletes ok =
      let hw1 = (enable_routing_vlan F sid vlan_id mac hw).1 in
      let hw2 = (vlan_unset_arp_bcast F sid vlan_id hw1).1 in
      let hw3 = (unset_arp_fwd F sid vlan_id mac hw2).1 in
      let hw4 = (vlan_unset_udp_dhcp F sid vlan_id hw3).1 in
      ground (
        arith,
        deletes FlowTable.control_pkt c_arp hw1,
        deletes FlowTable.l2_bridging vlan_id hw2,
        deletes FlowTable.control_pkt c_udp hw3,
        append_nil (L.flows sid t hw),
        drop-both t v16 new,
        drop-fwd t new,
        drop-uni t new,
        L.flows-cookie_delete sid FlowTable.control_pkt c_arp hw1 sid t,
        undo_fwd hw2 sid t deletes,
        undo_udp hw3 sid t deletes,
        undo_uni hw4 sid t deletes,
        enable_routing_vlan-flows F L sid vlan_id mac hw intf ok sid t,
      )

module _ (F : Fpa) (L : FlowLaws F) where
  -- If a VLAN with a number below 2^16 whose routing cookies are not in use cannot be made
  -- routed, and every deletion succeeds, then every flow table of every switch is as it was
  -- before: each label of the clean-up removes exactly what has been added.
  pub enable_routing_vlan-undone :
      (sid vlan_id mac : ℕ) (hw : F.Hw)
      → vlan_id < 0x10000
      → IsUnrouted F L sid vlan_id hw
      → ((t : FlowTable) (c : ℕ) (h : F.Hw) → (F.flow_table_cookie_delete sid t c h).0 ≡ 0)
      → (enable_routing_vlan F sid vlan_id mac hw).0 ≡ none
      → (s : ℕ) (t : FlowTable)
      → L.flows s t (enable_routing_vlan F sid vlan_id mac hw).1 ≡ L.flows s t hw
  enable_routing_vlan-undone sid vlan_id mac hw v16 new deletes failed s t =
      elim (Bool-cases (s == sid)) [
        | inl same ↦
            rw ((==_iff s sid).0 same) (undone F L sid vlan_id mac hw t v16 new deletes failed)
        | inr other ↦ elsewhere F L sid vlan_id mac hw s t deletes other failed
      ]

  -- Disabling routing on a VLAN with a number below 2^16 after it has been enabled gives back
  -- every flow table of the switch as it was, provided that the routing cookies of the VLAN were
  -- not in use and that every deletion succeeds.
  pub disable_routing_flows-enable_routing_vlan :
      (sid vlan_id mac : ℕ) (hw : F.Hw) (intf : L3Intf) (t : FlowTable)
      → vlan_id < 0x10000
      → IsUnrouted F L sid vlan_id hw
      → ((t : FlowTable) (c : ℕ) (h : F.Hw) → (F.flow_table_cookie_delete sid t c h).0 ≡ 0)
      → (enable_routing_vlan F sid vlan_id mac hw).0 ≡ some intf
      → L.flows sid t (disable_routing_flows F intf (enable_routing_vlan F sid vlan_id mac hw).1)
        ≡ L.flows sid t hw
  disable_routing_flows-enable_routing_vlan sid vlan_id mac hw intf t v16 new deletes ok =
      subst
        (λ i.
          L.flows sid t (disable_routing_flows F i (enable_routing_vlan F sid vlan_id mac hw).1)
          ≡ L.flows sid t hw)
        (sym (built F L sid vlan_id mac hw intf ok))
        (disabled F L sid vlan_id mac hw t intf v16 new deletes ok)
