-- ===== src/Calls/Hosts.antt =====
-- Hosts and routes of src/ops-fpa-route.c and src/ops-fpa-ofproto.c, as calls on the switch.
use switchd_fpa_plugin.Ofproto.Hosts.{HostKey}
use switchd_fpa_plugin.Prelude.{ℕ, ◌+◌, ◌<◌, ◌≡◌, refl, false, arith, Option-cases, inl, inr, some}
use switchd_fpa_plugin.Fpa.{FlowTable, Fpa}
use switchd_fpa_plugin.Fpa.Laws.{FlowLaws, GroupLaws, FrameLaws, IdentLaws}
use switchd_fpa_plugin.Wrap.{
  wrap_flow_entry_add, wrap_flow_table_cookie_delete, wrap_group_table_entry_add,
  wrap_group_table_entry_delete, wrap_group_entry_bucket_add,
}
use switchd_fpa_plugin.Route.{
  add_l2_group, add_l3_group, add_route, add_route_trap, del_route, del_group, indirect, l3_ident,
  l3_bucket, route_ipv4_cookie, route_entry,
}
use switchd_fpa_plugin.Routing.{L3Intf}
use switchd_fpa_plugin.Vlan.{gid_vlan}
use switchd_fpa_plugin.Vlan.Add.{gid_vlan-eq}
use switchd_fpa_plugin.Ofproto.ArpIndices.{alloc_arp_index}
use switchd_fpa_plugin.Ofproto.Hosts.{
  HostEntry, HostState, Bundle, host_table_find, install_host, remove_host, uncount_route,
  dec_ulong,
}
use switchd_fpa_plugin.Ofproto.Hosts.Indices.{install_host-IsSeparate, uncount_route-IsSeparate}
use switchd_fpa_plugin.Ofproto.Hosts.Separate.{AreSeparate, remove_host-AreSeparate}
use switchd_fpa_plugin.Calls.{Call, Calls, Calls-append, one}
use switchd_fpa_plugin.Calls.Indices.{
  AreIndices, AreHosts, alloc_arp_index-small, release_arp_index-small, host_table_delete-AreHosts,
  host_table_add-AreHosts,
}
use switchd_fpa_plugin.Calls.Ports.{AreSmall}
use switchd_fpa_plugin.Calls.Vlans.{add_l2_group-Calls}
use switchd_fpa_plugin.Calls.Routing.{disable_routing-Calls}

-- What is assumed of the library beside `IdentLaws`: the identifier of an L3 unicast group has the
-- type 2 in the four bits at the top and the index below.
pub record L3IdentLaws (F : Fpa) : Type 0 where
  pub build_l3 :
      (index : ℕ)
      → index < 0x10000000
      → F.group_identifier_build (l3_ident index) ≡ (0, 0x20000000 + index)

module _ (F : Fpa) where
  pub add_route-Calls :
      (sid group ipv4 mask_len : ℕ) (hw : F.Hw)
      → Calls F hw (add_route F sid group ipv4 mask_len hw).1
  unfolding add_route wrap_flow_entry_add
  add_route-Calls sid group ipv4 mask_len hw =
      let e = route_entry F group 0 ipv4 mask_len (F.flow_entry_init sid FlowTable.l3_unicast).1 in
      let c : Calls F hw (F.flow_entry_add sid FlowTable.l3_unicast e hw).1 =
        one F (Call.flow_add sid FlowTable.l3_unicast e refl refl) in
      let same : Calls F hw hw = Calls.start in ground (arith, c, same)

  pub add_route_trap-Calls :
      (sid ipv4 mask_len : ℕ) (hw : F.Hw) → Calls F hw (add_route_trap F sid ipv4 mask_len hw).1
  unfolding add_route_trap wrap_flow_entry_add
  add_route_trap-Calls sid ipv4 mask_len hw =
      let e =
        route_entry F 0xffffffff F.output_controller ipv4 mask_len
          (F.flow_entry_init sid FlowTable.l3_unicast).1 in
      let c : Calls F hw (F.flow_entry_add sid FlowTable.l3_unicast e hw).1 =
        one F (Call.flow_add sid FlowTable.l3_unicast e refl refl) in
      let same : Calls F hw hw = Calls.start in ground (arith, c, same)

  pub del_route-Calls :
      (sid ipv4 mask_len : ℕ) (hw : F.Hw) → Calls F hw (del_route F sid ipv4 mask_len hw).1
  unfolding del_route wrap_flow_table_cookie_delete
  del_route-Calls sid ipv4 mask_len hw =
      one F (Call.cookie_delete sid FlowTable.l3_unicast (route_ipv4_cookie ipv4 mask_len) refl)

  del_group-Calls : (sid g : ℕ) (hw : F.Hw) → Calls F hw (del_group F sid g hw).1
  unfolding del_group wrap_group_table_entry_delete
  del_group-Calls sid g hw = one F (Call.group_delete sid g refl)

  add_l3_group-Calls :
      (I3 : L3IdentLaws F) (sid l2 x vid mtu src dst : ℕ) (hw : F.Hw)
      → x < 0x10000
      → Calls F hw (add_l3_group F sid l2 x vid mtu src dst hw).2
  unfolding add_l3_group wrap_group_table_entry_add wrap_group_entry_bucket_add
      wrap_group_table_entry_delete
  add_l3_group-Calls I3 sid l2 x vid mtu src dst hw x16 =
      let g = 0x20000000 + x in
      let b = l3_bucket g l2 vid mtu src dst in
      let hw1 = (F.group_table_entry_add sid (indirect F g) hw).1 in
      let hw2 = (F.group_entry_bucket_add sid b hw1).1 in
      let hw3 = (F.group_table_entry_delete sid g hw2).1 in
      let none_of_vlan : gid_vlan g ≡ 0 = omega (arith, gid_vlan-eq g) in
      let c0 : Calls F hw hw = Calls.start in
      let c1 : Calls F hw hw1 =
        one F (Call.group_add sid g (omega arith) (inr none_of_vlan) refl) in
      let c2 : Calls F hw hw2 = Calls.later c1 (Call.bucket_add sid b refl) in
      let c3 : Calls F hw hw3 = Calls.later c2 (Call.group_delete sid g refl) in
      rw (I3.build_l3 x (omega arith), add_l3_group) (ground (arith, c0, c1, c2, c3))

  -- The state of the hosts: small numbers everywhere.
  pub record AreBounded (st : HostState F) : Type 0 where
    pub ports : AreSmall st.ports.nodes
    pub indices : AreIndices st.arp_indices
    pub hosts : AreHosts st.host_table

  -- From one state of the hosts to another by calls on the switch.
  pub record HostGoes (st new : HostState F) : Type 0 where
    pub calls : Calls F st.hw new.hw
    pub bounded : AreBounded new
    pub separate : AreSeparate F st → AreSeparate F new

module _ (F : Fpa) (L : FlowLaws F) (G : GroupLaws F) (R : FrameLaws F L G) (I : IdentLaws F)
    (I3 : L3IdentLaws F) where
  pub install_host-HostGoes :
      (key : HostKey) (intf : L3Intf) (egress mtu src dst ip : ℕ) (st : HostState F)
      → egress < 0x10000
      → 0 < intf.vlan_id
      → intf.vlan_id < 0x1000
      → AreBounded F st
      → HostGoes F st (install_host F key intf egress mtu src dst ip st).1
  unfolding install_host
  install_host-HostGoes key intf egress mtu src dst ip st e16 v1 v12 sound =
      let sid = intf.switch_id in
      let l2 = add_l2_group F sid egress intf.vlan_id false st.hw in
      let c2 = add_l2_group-Calls F L G R I sid egress intf.vlan_id false st.hw e16 v1 v12 in
      let u2 = Calls-append F c2 (del_group-Calls F sid l2.1 l2.2) in
      elim (Option-cases (alloc_arp_index st.arp_indices)) [
        | inl empty ↦ record {
          calls = ground (arith, empty, c2, u2);
          bounded = record {
            ports = ground (arith, empty, sound.ports);
            indices = ground (arith, empty, sound.indices);
            hosts = ground (arith, empty, sound.hosts);
          };
          separate = λ s. install_host-IsSeparate F key intf egress mtu src dst ip s.0 st s.1;
        }
        | inr (r, taken) ↦
            let small = alloc_arp_index-small st.arp_indices r taken sound.indices in
            let l3 = add_l3_group F sid l2.1 r.0 intf.vlan_id mtu src dst l2.2 in
            let route = add_route F sid l3.1 ip 32 l3.2 in
            let more =
              host_table_add-AreHosts key ip r.0 l3.1 l2.1 st.host_mask st.host_table small.0
                sound.hosts in
            let c3 =
              Calls-append F c2
                (add_l3_group-Calls F I3 sid l2.1 r.0 intf.vlan_id mtu src dst l2.2 small.0) in
            let u3 = Calls-append F c3 (del_group-Calls F sid l2.1 l3.2) in
            let c4 = Calls-append F c3 (add_route-Calls F sid l3.1 ip 32 l3.2) in
            let u4 =
              Calls-append F (Calls-append F c4 (del_group-Calls F sid l2.1 route.1))
                (del_group-Calls F sid l3.1 (del_group F sid l2.1 route.1).1) in
            record {
              calls = ground (arith, taken, c2, u3, c4, u4);
              bounded = record {
                ports = ground (arith, taken, sound.ports);
                indices = ground (arith, taken, small, sound.indices);
                hosts = ground (arith, taken, sound.hosts, more);
              };
              separate = λ s. install_host-IsSeparate F key intf egress mtu src dst ip s.0 st s.1;
            }
      ]

  pub remove_host-HostGoes :
      (key : HostKey) (sid ip : ℕ) (entry : HostEntry) (st : HostState F)
      → host_table_find key ip st.host_table ≡ some entry
      → entry.arp_index < 0x10000
      → AreBounded F st
      → HostGoes F st (remove_host F key sid entry st)
  unfolding remove_host
  remove_host-HostGoes key sid ip entry st found x16 sound =
      let hw1 = (del_route F sid entry.ipv4_addr 32 st.hw).1 in
      let hw2 = (del_group F sid entry.l3_group hw1).1 in
      record {
        calls =
            Calls-append F
              (Calls-append F (del_route-Calls F sid entry.ipv4_addr 32 st.hw)
                (del_group-Calls F sid entry.l3_group hw1))
              (del_group-Calls F sid entry.l2_group hw2);
        bounded = record {
          ports = sound.ports;
          indices = release_arp_index-small entry.arp_index st.arp_indices x16 sound.indices;
          hosts = host_table_delete-AreHosts key entry.ipv4_addr st.host_table sound.hosts;
        };
        separate = remove_host-AreSeparate F key sid ip entry st found;
      }

  pub uncount_route-HostGoes :
      (intf : L3Intf) (bundle : Bundle) (st : HostState F)
      → AreBounded F st
      → HostGoes F st (uncount_route F intf bundle st).1
  unfolding uncount_route
  uncount_route-HostGoes intf bundle st sound =
      let same : Calls F st.hw st.hw = Calls.start in
      record {
        calls = ground (
          arith,
          same,
          disable_routing-Calls F L G R I
              (record intf { routes_count = dec_ulong intf.routes_count })
              (record { hw = st.hw; internal_vlans = st.internal_vlans }),
        );
        bounded = record {
          ports = ground (arith, sound.ports);
          indices = ground (arith, sound.indices);
          hosts = ground (arith, sound.hosts);
        };
        separate = λ s. (s.0, uncount_route-IsSeparate F intf bundle s.0 st s.1);
      }
