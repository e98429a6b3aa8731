-- ===== src/Ofproto/Bundles/L3.antt =====
-- A bundle of a VRF in src/ops-fpa-ofproto.c, for a VLAN interface: routing starts and ends with it.
use switchd_fpa_plugin.Ofproto.Hosts.{HostKey}
use switchd_fpa_plugin.Prelude.{
  ℕ, ◌<◌, ◌≡◌, refl, ap, ◌∙◌, true, false, none, some, ◌∷◌, ◌++◌, arith, ◌==◌, ==_refl,
}
use switchd_fpa_plugin.Fpa.{Fpa, FlowTable}
use switchd_fpa_plugin.Fpa.Laws.{FlowLaws}
use switchd_fpa_plugin.Os.{Os}
use switchd_fpa_plugin.Strings.{Chars}
use switchd_fpa_plugin.Netdev.{NetdevClass}
use switchd_fpa_plugin.MacLearning.{Env}
use switchd_fpa_plugin.Routing.{L3Intf, enable_routing_vlan, disable_routing_flows, disable_routing}
use switchd_fpa_plugin.Routing.Flows.{routing_flows, IsUnrouted, enable_routing_vlan-flows}
use switchd_fpa_plugin.Routing.Undo.{built, disable_routing_flows-enable_routing_vlan}
use switchd_fpa_plugin.Ofproto.Ports.{Ofport}
use switchd_fpa_plugin.Ofproto.Hosts.{HostState}
use switchd_fpa_plugin.Ofproto.Bundles.{
  FpaBundle, OfprotoType, BundleSettings, find_bundle, set_bundle, remove_bundle,
  bundle_ip_reconfigure,
}
use switchd_fpa_plugin.Ofproto.Bundles.Set.{
  OfprotoState, stop_routing, rm_bundle, create_bundle, l3_disable, l3_enable, set_l3, configure,
  bundle_set,
}

-- The settings ask for routing on a VLAN interface, and change no address.
pub record IsVlanInterface (set : BundleSettings) (port : Ofport) : Type 0 where
  pub one : (set.n_slaves == 1) ≡ true
  pub slave : set.slave ≡ some (port, NetdevClass.internal)
  pub on : set.enable ≡ true
  pub vlan : (set.vlans.vlan == 0) ≡ false
  pub no_primary : set.ip.primary_ipv4_changed ≡ false
  pub no_secondary : set.ip.secondary_ipv4_changed ≡ false

module _ (F : Fpa) (O : Os) (key : HostKey) (E : Env) (inet_addr : Chars → ℕ) where
  abbrev pub routes : FpaBundle → L3Intf → FpaBundle
  routes b intf = record b { base = record b.base { l3_intf = some intf } }

  set_l3-starts :
      (set : BundleSettings) (port : Ofport) (sid : ℕ) (b : FpaBundle) (st : HostState F)
      (intf : L3Intf)
      → IsVlanInterface set port
      → b.base.l3_intf ≡ none
      → (enable_routing_vlan F sid set.vlans.vlan port.mac st.hw).0 ≡ some intf
      → set_l3 F O key E inet_addr set sid b st
        ≡ some (
          0,
          record b { base = record b.base { l3_intf = some intf } },
          record st { hw = (enable_routing_vlan F sid set.vlans.vlan port.mac st.hw).1 },
        )
  unfolding set_l3 l3_disable l3_enable bundle_ip_reconfigure
  set_l3-starts set port sid b st intf w quiet enabled =
      ground (arith, w.slave, w.on, w.vlan, w.no_primary, w.no_secondary, quiet, enabled)

  -- The ofproto in which the new bundle routes.
  abbrev pub routing :
      ℕ
      → BundleSettings
      → Ofport
      → L3Intf
      → OfprotoState F O key E inet_addr
      → OfprotoState F O key E inet_addr
  routing aux set port intf st =
      let made = create_bundle F O key E inet_addr aux set st in
      let b = routes (record made.0 { name = some set.name }) intf in
      record made.1 {
        host = record made.1.host {
          hw = (enable_routing_vlan F st.switch_id set.vlans.vlan port.mac st.host.hw).1;
        };
        bundles = set_bundle b made.1.bundles;
      }

  create_bundle-quiet :
      (aux : ℕ) (set : BundleSettings) (st : OfprotoState F O key E inet_addr)
      → let made = create_bundle F O key E inet_addr aux set st in
        (made.0.base.l3_intf ≡ none)
        × (made.1.host.hw ≡ st.host.hw)
        × (made.1.switch_id ≡ st.switch_id)
        × (made.1.kind ≡ st.kind)
        × (made.0.aux ≡ aux)
        × (made.1.bundles ≡ made.0 ∷ st.bundles)
  unfolding create_bundle
  create_bundle-quiet aux set st = (refl, refl, refl, refl, refl, refl)

  configure-routes :
      (aux : ℕ) (set : BundleSettings) (port : Ofport) (intf : L3Intf)
      (st : OfprotoState F O key E inet_addr)
      → IsVlanInterface set port
      → st.kind ≡ OfprotoType.vrf
      → (enable_routing_vlan F st.switch_id set.vlans.vlan port.mac st.host.hw).0 ≡ some intf
      → let made = create_bundle F O key E inet_addr aux set st in
        configure F O key E inet_addr set (record made.0 { name = some set.name }) made.1
        ≡ some (0, routing aux set port intf st)
  unfolding configure create_bundle
  configure-routes aux set port intf st w vrf enabled =
      let made = create_bundle F O key E inet_addr aux set st in
      let b = record made.0 { name = some set.name } in
      let starts = set_l3-starts set port st.switch_id b made.1.host intf w refl enabled in
      ground (arith, vrf, starts)

  bundle_set-routes :
      (aux : ℕ) (set : BundleSettings) (port : Ofport) (intf : L3Intf)
      (st : OfprotoState F O key E inet_addr)
      → IsVlanInterface set port
      → st.kind ≡ OfprotoType.vrf
      → find_bundle aux st.bundles ≡ none
      → (enable_routing_vlan F st.switch_id set.vlans.vlan port.mac st.host.hw).0 ≡ some intf
      → bundle_set F O key E inet_addr aux (some set) st ≡ some (0, routing aux set port intf st)
  unfolding bundle_set
  bundle_set-routes aux set port intf st w vrf absent enabled =
      ground (arith, w.one, absent, configure-routes aux set port intf st w vrf enabled)

  routing-bundles :
      (aux : ℕ) (set : BundleSettings) (port : Ofport) (intf : L3Intf)
      (st : OfprotoState F O key E inet_addr)
      → let made = create_bundle F O key E inet_addr aux set st in
        (routing aux set port intf st).bundles
        ≡ routes (record made.0 { name = some set.name }) intf ∷ st.bundles
  unfolding create_bundle set_bundle
  routing-bundles aux set port intf st = ground (arith, ==_refl aux)

module _ (F : Fpa) (L : FlowLaws F) (O : Os) (key : HostKey) (E : Env) (inet_addr : Chars → ℕ) where
  rm_bundle-routing :
      (aux : ℕ) (set : BundleSettings) (port : Ofport) (intf : L3Intf)
      (st : OfprotoState F O key E inet_addr)
      → intf.vlan_intf ≡ false
      → let new = routing F O key E inet_addr aux set port intf st in
        let gone = rm_bundle F O key E inet_addr aux new in
        (gone.0 ≡ 0)
        × (gone.1.bundles ≡ st.bundles)
        × (gone.1.host.hw
            ≡ disable_routing_flows F intf
                (enable_routing_vlan F st.switch_id set.vlans.vlan port.mac st.host.hw).1)
  unfolding rm_bundle find_bundle remove_bundle stop_routing disable_routing create_bundle
      set_bundle
  rm_bundle-routing aux set port intf st plain = ground (arith, ==_refl aux, plain)

  -- Setting a bundle that a VRF does not know yet for the VLAN interface of a VLAN from 1 to 2^16
  -- - 1, with routing asked for and no address changed, where the VLAN's routing cookies are not
  -- in use and the switch accepts the entries: the call returns 0 and appends exactly the entries
  -- of routing to the flow tables of the switch; and removing the bundle then, where every
  -- deletion succeeds, returns 0 and gives back the bundles and every flow table of the switch as
  -- they were.
  pub rm_bundle-bundle_set :
      (aux : ℕ) (set : BundleSettings) (port : Ofport) (intf : L3Intf)
      (st : OfprotoState F O key E inet_addr)
      → IsVlanInterface set port
      → set.vlans.vlan < 0x10000
      → st.kind ≡ OfprotoType.vrf
      → find_bundle aux st.bundles ≡ none
      → (enable_routing_vlan F st.switch_id set.vlans.vlan port.mac st.host.hw).0 ≡ some intf
      → IsUnrouted F L st.switch_id set.vlans.vlan st.host.hw
      → ((t : FlowTable) (c : ℕ) (h : F.Hw) → (F.flow_table_cookie_delete st.switch_id t c h).0 ≡ 0)
      → (t : FlowTable)
      → let new = routing F O key E inet_addr aux set port intf st in
        let gone = rm_bundle F O key E inet_addr aux new in
        (bundle_set F O key E inet_addr aux (some set) st ≡ some (0, new))
        × (L.flows st.switch_id t new.host.hw
            ≡ L.flows st.switch_id t st.host.hw
              ++ routing_flows F st.switch_id set.vlans.vlan port.mac t)
        × (gone.0 ≡ 0)
        × (gone.1.bundles ≡ st.bundles)
        × (L.flows st.switch_id t gone.1.host.hw ≡ L.flows st.switch_id t st.host.hw)
  rm_bundle-bundle_set aux set port intf st w v16 vrf absent enabled new deletes t =
      let sid = st.switch_id in
      let plain =
        ap (λ i. i.vlan_intf) (built F L sid set.vlans.vlan port.mac st.host.hw intf enabled) in
      let gone = rm_bundle-routing aux set port intf st plain in
      (
        bundle_set-routes F O key E inet_addr aux set port intf st w vrf absent enabled,
        enable_routing_vlan-flows F L sid set.vlans.vlan port.mac st.host.hw intf enabled sid t
            ∙ rw (==_refl sid) refl,
        gone.0,
        gone.1,
        ap (L.flows sid t) gone.2
            ∙ disable_routing_flows-enable_routing_vlan F L sid set.vlans.vlan port.mac st.host.hw
                intf t v16 new deletes enabled,
      )
