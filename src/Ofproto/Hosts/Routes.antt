-- ===== src/Ofproto/Hosts/Routes.antt =====
-- The unicast routing table after a route to a host has been set.
use switchd_fpa_plugin.Ofproto.Hosts.{HostKey}
use switchd_fpa_plugin.Prelude.{ℕ, ◌≡◌, some, [], ◌∷◌, ◌++◌, arith}
use switchd_fpa_plugin.Fpa.{FlowTable, Fpa}
use switchd_fpa_plugin.Fpa.Laws.{FlowLaws, drop_cookie}
use switchd_fpa_plugin.Route.{route_ipv4_cookie, route_entry, add_route, del_route}
use switchd_fpa_plugin.Wrap.{wrap_flow_entry_add, wrap_flow_table_cookie_delete}
use switchd_fpa_plugin.Ofproto.Hosts.{HostEntry, HostState, host_table_find, route_to_host}

module _ (F : Fpa) (L : FlowLaws F) where
  -- A route to a host that is found, where the deletion succeeds and the status is 0: the unicast
  -- table of the switch then holds what it held without the entries of the route's cookie, and at
  -- the end one entry of the route with the group of the host.
  pub route_to_host-flows :
      (key : HostKey) (sid ipv4 mask_len : ℕ) (host : ℕ × ℕ) (entry : HostEntry) (st : HostState F)
      → host_table_find key host.0 st.host_table ≡ some entry
      → (F.flow_table_cookie_delete sid FlowTable.l3_unicast
          (route_ipv4_cookie ipv4 mask_len)
          st.hw).0
        ≡ 0
      → (route_to_host F key sid ipv4 mask_len (some host) st).0 ≡ 0
      → L.flows sid FlowTable.l3_unicast (route_to_host F key sid ipv4 mask_len (some host) st).1.hw
        ≡ drop_cookie (route_ipv4_cookie ipv4 mask_len) (L.flows sid FlowTable.l3_unicast st.hw)
          ++ (route_entry F entry.l3_group 0 ipv4 mask_len
                (F.flow_entry_init sid FlowTable.l3_unicast).1
              ∷ [])
  unfolding route_to_host add_route del_route wrap_flow_entry_add wrap_flow_table_cookie_delete
  route_to_host-flows key sid ipv4 mask_len host entry st found deleted ok =
      let c = route_ipv4_cookie ipv4 mask_len in
      let hw1 = (F.flow_table_cookie_delete sid FlowTable.l3_unicast c st.hw).1 in
      let e =
        route_entry F entry.l3_group 0 ipv4 mask_len
          (F.flow_entry_init sid FlowTable.l3_unicast).1 in
      ground (
        arith,
        found,
        deleted,
        ok,
        L.flows-cookie_delete sid FlowTable.l3_unicast c st.hw sid FlowTable.l3_unicast,
        L.flows-add sid FlowTable.l3_unicast e hw1 sid FlowTable.l3_unicast,
      )
