-- ===== src/Ofproto/Bundles/L2.antt =====
-- `ops_fpa_ofproto_bundle_set` of src/ops-fpa-ofproto.c from end to end, for an ofproto that does
-- not route.
use switchd_fpa_plugin.Ofproto.Hosts.{HostKey}
use switchd_fpa_plugin.Prelude.{
  ℕ, ◌<◌, ◌≤◌, ◌≡◌, refl, sym, subst, true, false, not, ◌&&◌, Option, none, some, ◌==◌,
  if◌then◌else◌, length,
}
use switchd_fpa_plugin.Prelude.Bitmap.{empty, diff}
use switchd_fpa_plugin.Fpa.{Fpa, FlowTable}
use switchd_fpa_plugin.Fpa.Laws.{FlowLaws, GroupLaws, FrameLaws, IdentLaws, Ascending}
use switchd_fpa_plugin.Os.{Os}
use switchd_fpa_plugin.Vlan.{vlan_fetch}
use switchd_fpa_plugin.Vlan.Vidx.{vmap_bits, vidx_vid}
use switchd_fpa_plugin.Vlan.Fetch.{l2_state}
use switchd_fpa_plugin.Vlan.Delete.{IsL2}
use switchd_fpa_plugin.Strings.{Chars}
use switchd_fpa_plugin.Netdev.{bytes_eq}
use switchd_fpa_plugin.MacLearning.{Env}
use switchd_fpa_plugin.Ofproto.Ports.{Ofport, get_ofport_by_pid}
use switchd_fpa_plugin.Ofproto.Vlans.{reconfigure, wanted}
use switchd_fpa_plugin.Ofproto.Vlans.Reconfigure.{IsQuiet, all_accepted, reconfigure-l2_state}
use switchd_fpa_plugin.Ofproto.Bundles.{FpaBundle, BundleSettings, find_bundle}
use switchd_fpa_plugin.Ofproto.Bundles.Set.{OfprotoState, create_bundle, configure, bundle_set}
use switchd_fpa_plugin.Ofproto.Ports.Found.{get_ofport_by_pid-set_ofport}
use switchd_fpa_plugin.Ofproto.Bundles.Found.{find_bundle-set_bundle}
use switchd_fpa_plugin.Ofproto.Bundles.Configure.{
  is_vrf, IsFor, Placed, after_l2, configure-l2, begins, begins-Placed, bundle_set-configure,
}

module _ (F : Fpa) (L : FlowLaws F) (G : GroupLaws F) (R : FrameLaws F L G) (I : IdentLaws F)
    (O : Os) (key : HostKey) (E : Env) (inet_addr : Chars → ℕ) where
  -- How a call ends that is to apply the VLANs of `set` to `port` in `st`: with status 0, in a state
  -- in which the bundle is found and its number stands for the port, the port's bit `j` in the switch
  -- and among the pending ones is as wanted, and another port's bit `k` as it was.
  abbrev pub Applies :
      ℕ
      → BundleSettings
      → Ofport
      → OfprotoState F O key E inet_addr
      → ℕ
      → ℕ
      → ℕ
      → ℕ
      → Option (ℕ × OfprotoState F O key E inet_addr)
      → Type 0
  Applies aux set port st j s p k result =
      (next : OfprotoState F O key E inet_addr) × (result ≡ some (0, next))
      × (b : FpaBundle) × (find_bundle aux next.bundles ≡ some b)
      × (after : Ofport) × (get_ofport_by_pid next.host.ports b.base.intf_id ≡ some after)
      × (l2_state F L G st.switch_id port.pid next.host.hw j ≡ (
          if st.vlans (vidx_vid j)
          then wanted set.vlans j
          else l2_state F L G st.switch_id port.pid st.host.hw j))
      × (after.vmap j ≡ (
          not (st.vlans (vidx_vid j))
          && wanted set.vlans j
          && not (l2_state F L G st.switch_id port.pid st.host.hw j)))
      × (l2_state F L G s p next.host.hw k ≡ l2_state F L G s p st.host.hw k)

  -- The switch, the bundle and the port after `configure`.
  applied :
      (aux : ℕ) (set : BundleSettings) (b : FpaBundle) (port : Ofport)
      (st : OfprotoState F O key E inet_addr)
      → is_vrf st.kind ≡ false
      → bytes_eq st.name set.name ≡ false
      → Placed F O key E inet_addr aux b port st
      → port.pid < 0x10000
      → st.vlans 0 ≡ false
      → length (L.flows st.switch_id FlowTable.vlan st.host.hw) ≤ F.table_capacity
      → length (G.groups st.switch_id st.host.hw) ≤ F.table_capacity
      → Ascending 0 (G.groups st.switch_id st.host.hw)
      → IsL2 F L G R I st.switch_id st.host.hw
      → IsQuiet st.vlans (vlan_fetch F st.switch_id port.pid st.host.hw) (wanted set.vlans)
      → all_accepted F st.switch_id port.pid st.vlans
          (wanted set.vlans)
          (diff (vlan_fetch F st.switch_id port.pid st.host.hw) (wanted set.vlans))
          vmap_bits
          0
          (record { hw = st.host.hw; vmap = empty })
        ≡ true
      → (j s p k : ℕ) → j < vmap_bits
      → (s == st.switch_id && p == port.pid) ≡ false
      → Applies aux set port st j s p k (configure F O key E inet_addr set b st)
  applied aux set b port st l2 external placed p16 no_vlan_0 few_flows few_groups up wf quiet ok j s
        p k lt other =
      let new = reconfigure F st.switch_id port st.vlans set.vlans st.host.hw in
      let done =
        reconfigure-l2_state F L G R I st.switch_id port st.vlans set.vlans st.host.hw p16 no_vlan_0
          few_flows few_groups up wf quiet ok j s p k lt other in
      (
        after_l2 F O key E inet_addr set b port st,
        configure-l2 F O key E inet_addr set b port st aux l2 external placed,
        b,
        find_bundle-set_bundle aux placed.bundle_found.0 b st.bundles placed.bundle_found.1
            placed.key_kept,
        record port { vmap = new.vmap },
        get_ofport_by_pid-set_ofport st.host.ports b.base.intf_id (record port { vmap = new.vmap })
            port placed.port_found,
        done.0,
        done.1,
        done.2,
      )

  pub bundle_set-l2_state :
      (aux : ℕ) (set : BundleSettings) (port : Ofport) (st : OfprotoState F O key E inet_addr)
      → is_vrf st.kind ≡ false
      → set.n_slaves ≡ 1
      → bytes_eq st.name set.name ≡ false
      → IsFor F O key E inet_addr (find_bundle aux st.bundles) set st.host port
      → port.pid < 0x10000
      → st.vlans 0 ≡ false
      → length (L.flows st.switch_id FlowTable.vlan st.host.hw) ≤ F.table_capacity
      → length (G.groups st.switch_id st.host.hw) ≤ F.table_capacity
      → Ascending 0 (G.groups st.switch_id st.host.hw)
      → IsL2 F L G R I st.switch_id st.host.hw
      → IsQuiet st.vlans (vlan_fetch F st.switch_id port.pid st.host.hw) (wanted set.vlans)
      → all_accepted F st.switch_id port.pid st.vlans
          (wanted set.vlans)
          (diff (vlan_fetch F st.switch_id port.pid st.host.hw) (wanted set.vlans))
          vmap_bits
          0
          (record { hw = st.host.hw; vmap = empty })
        ≡ true
      → (j s p k : ℕ) → j < vmap_bits
      → (s == st.switch_id && p == port.pid) ≡ false
      → Applies aux set port st j s p k (bundle_set F O key E inet_addr aux (some set) st)
  unfolding create_bundle
  bundle_set-l2_state aux set port st l2 one external is p16 no_vlan_0 few_flows few_groups up wf
        quiet ok j s p k lt other =
      by_bundle (find_bundle aux st.bundles) refl is
    where
      by_bundle :
          (o : Option FpaBundle)
          → find_bundle aux st.bundles ≡ o
          → IsFor F O key E inet_addr o set st.host port
          → Applies aux set port st j s p k (bundle_set F O key E inet_addr aux (some set) st)
      by_bundle o h for_port =
          subst (Applies aux set port st j s p k)
            (sym (bundle_set-configure F O key E inet_addr aux set st o one h))
            (ends o (begins-Placed F O key E inet_addr aux set port st o h for_port))
        where
          ends :
              (o : Option FpaBundle)
              → Placed F O key E inet_addr aux
                  (begins F O key E inet_addr aux set o st).0
                  port
                  (begins F O key E inet_addr aux set o st).1
              → Applies aux set port st j s p k (
                  configure F O key E inet_addr set
                    (begins F O key E inet_addr aux set o st).0
                    (begins F O key E inet_addr aux set o st).1)
          ends none placed =
              applied aux set (begins F O key E inet_addr aux set none st).0 port
                (begins F O key E inet_addr aux set none st).1 l2 external placed p16 no_vlan_0
                few_flows few_groups up wf quiet ok j s p k lt other
          ends (some b) placed =
              applied aux set (begins F O key E inet_addr aux set (some b) st).0 port
                (begins F O key E inet_addr aux set (some b) st).1 l2 external placed p16 no_vlan_0
                few_flows few_groups up wf quiet ok j s p k lt other
