-- ===== src/Calls/Configured.antt =====
-- `ops_fpa_ofproto_bundle_set` of src/ops-fpa-ofproto.c after whatever calls of the bridge.
use switchd_fpa_plugin.Ofproto.Hosts.{HostKey}
use switchd_fpa_plugin.Prelude.{ℕ, ◌<◌, ◌≤◌, ◌≡◌, true, false, ◌&&◌, some, ◌==◌, length}
use switchd_fpa_plugin.Prelude.Bitmap.{empty, diff}
use switchd_fpa_plugin.Fpa.{Fpa, FlowTable}
use switchd_fpa_plugin.Fpa.Laws.{FlowLaws, GroupLaws, FrameLaws, IdentLaws}
use switchd_fpa_plugin.Os.{Os}
use switchd_fpa_plugin.Vlan.{vlan_fetch}
use switchd_fpa_plugin.Vlan.Vidx.{vmap_bits}
use switchd_fpa_plugin.Strings.{Chars}
use switchd_fpa_plugin.Netdev.{bytes_eq}
use switchd_fpa_plugin.MacLearning.{Env}
use switchd_fpa_plugin.Ofproto.Ports.{Ofport}
use switchd_fpa_plugin.Ofproto.Vlans.{wanted}
use switchd_fpa_plugin.Ofproto.Vlans.Reconfigure.{IsQuiet, all_accepted}
use switchd_fpa_plugin.Ofproto.Bundles.{BundleSettings, find_bundle}
use switchd_fpa_plugin.Ofproto.Bundles.Set.{OfprotoState, bundle_set}
use switchd_fpa_plugin.Ofproto.Bundles.Configure.{is_vrf, IsFor}
use switchd_fpa_plugin.Ofproto.Bundles.L2.{Applies, bundle_set-l2_state}
use switchd_fpa_plugin.Calls.Sound.{IsSound}
use switchd_fpa_plugin.Calls.Hosts.{L3IdentLaws}
use switchd_fpa_plugin.Calls.Ofproto.{IsSafe}
use switchd_fpa_plugin.Calls.Reach.{Reached, Reached-IsSafe}

module _ (F : Fpa) (O : Os) (L : FlowLaws F) (G : GroupLaws F) (R : FrameLaws F L G)
    (I : IdentLaws F) (I3 : L3IdentLaws F) (key : HostKey) (E : Env) (inet_addr : Chars → ℕ) where
  -- Whatever the bridge has asked of an ofproto before, in whatever order and whether the library
  -- accepted the single calls or not, from a safe ofproto over sound switches on: setting a
  -- bundle with one port, below 2^16, on an ofproto that does not route and has another name than
  -- the bundle, whether the bundle is there already, with a valid number under which its port is
  -- found, or comes now, with a valid port number in whose bucket no other port is after the
  -- insertion, where the tables are within their capacity, no deletion clears another identifier
  -- that the switch held for the port, or a wanted one of an enabled VLAN that comes before the
  -- deleted one, and every call is accepted, returns 0; the bundle is found under its key
  -- afterwards and its number stands for the port; the switch holds for the port exactly the
  -- wanted identifiers of the enabled VLANs and of the others what it held; the port's pending
  -- bits are the wanted identifiers of the others that the switch does not hold; and no bit of
  -- another port has changed.
  pub Reached-bundle_set :
      (start st : OfprotoState F O key E inet_addr)
      → Reached F O key E inet_addr start st
      → IsSafe F O L G R I I3 key E inet_addr start
      → IsSound F L G R I start.host.hw
      → (aux : ℕ) (set : BundleSettings) (port : Ofport) → is_vrf st.kind ≡ false
      → set.n_slaves ≡ 1
      → bytes_eq st.name set.name ≡ false
      → IsFor F O key E inet_addr (find_bundle aux st.bundles) set st.host port
      → port.pid < 0x10000
      → length (L.flows st.switch_id FlowTable.vlan st.host.hw) ≤ F.table_capacity
      → length (G.groups st.switch_id st.host.hw) ≤ F.table_capacity
      → IsQuiet st.vlans (vlan_fetch F st.switch_id port.pid st.host.hw) (wanted set.vlans)
      → all_accepted F st.switch_id port.pid st.vlans
          (wanted set.vlans)
          (diff (vlan_fetch F st.switch_id port.pid st.host.hw) (wanted set.vlans))
          vmap_bits
          0
          (record { hw = st.host.hw; vmap = empty })
        ≡ true
      → (j s p k : ℕ) → j < vmap_bits
      → (s == st.switch_id && p == port.pid) ≡ false
      → Applies F L G R I O key E inet_addr aux set port st j s p k
          (bundle_set F O key E inet_addr aux (some set) st)
  Reached-bundle_set start st path safe sound aux set port l2 one external is p16 few_flows
        few_groups quiet ok j s p k lt other =
      let (safe_now, sound_now) =
        Reached-IsSafe F O L G R I I3 key E inet_addr start st path safe sound in
      bundle_set-l2_state F L G R I O key E inet_addr aux set port st l2 one external is p16
        safe_now.no_vlan_0 few_flows few_groups (sound_now.order st.switch_id)
        (sound_now.form st.switch_id) quiet ok j s p k lt other
