-- ===== src/Calls/Bundles.antt =====
-- `ops_fpa_ofproto_bundle_set` of src/ops-fpa-ofproto.c as calls on the switch: routing.
use switchd_fpa_plugin.Ofproto.Hosts.{HostKey}
use switchd_fpa_plugin.Prelude.{
  ℕ, ◌<◌, ◌≡◌, refl, subst, Bool, true, false, not, ◌&&◌, ◌⊎◌, Option, none, some, arith, ◌==◌,
  if◌then◌else◌, Bool-cases, Option-cases, inl, inr,
}
use switchd_fpa_plugin.Fpa.{Fpa}
use switchd_fpa_plugin.Fpa.Laws.{FlowLaws, GroupLaws, FrameLaws, IdentLaws}
use switchd_fpa_plugin.Os.{Os}
use switchd_fpa_plugin.Strings.{Chars}
use switchd_fpa_plugin.Netdev.{NetdevClass}
use switchd_fpa_plugin.MacLearning.{Env}
use switchd_fpa_plugin.Vlan.{VlanState, vlan_add_internal}
use switchd_fpa_plugin.Routing.{L3Intf, enable_routing_interface, enable_routing_vlan}
use switchd_fpa_plugin.Ofproto.Hosts.{HostState}
use switchd_fpa_plugin.Ofproto.Bundles.{FpaBundle, BundleSettings, bundle_ip_reconfigure}
use switchd_fpa_plugin.Ofproto.Bundles.Set.{
  vlan_state, with_vlan_state, stop_routing, RoutedVlan, routed_vlan, l3_disable, l3_enable, set_l3,
}
use switchd_fpa_plugin.Ofproto.Hosts.Separate.{unmoved}
use switchd_fpa_plugin.Calls.{Calls}
use switchd_fpa_plugin.Calls.Routing.{
  enable_routing_vlan-Calls, enable_routing_interface-Calls, disable_routing-Calls,
}
use switchd_fpa_plugin.Calls.Hosts.{L3IdentLaws, AreBounded, HostGoes}
use switchd_fpa_plugin.Calls.HostEntries.{IsRouted}
use switchd_fpa_plugin.Calls.Addresses.{
  IsFit, IpGoes, IpGoes-append, same, bundle_ip_reconfigure-IpGoes,
}

enable_routing_vlan-IsRouted :
    (F : Fpa) (sid vlan_id mac : ℕ) (hw : F.Hw)
    → 0 < vlan_id
    → vlan_id < 0x1000
    → IsRouted (enable_routing_vlan F sid vlan_id mac hw).0
unfolding enable_routing_vlan
enable_routing_vlan-IsRouted F sid vlan_id mac hw v1 v12 = ground (arith, v1, v12)

enable_routing_interface-IsRouted :
    (F : Fpa) (sid pid vlan_id mac : ℕ) (st : VlanState F)
    → pid < 0x10000
    → 0 < vlan_id
    → vlan_id < 0x1000
    → IsRouted (enable_routing_interface F sid pid vlan_id mac st).0
unfolding enable_routing_interface
enable_routing_interface-IsRouted F sid pid vlan_id mac st p16 v1 v12 =
    let hw1 = (vlan_add_internal F sid pid vlan_id st).1.hw in
    let inner = enable_routing_vlan-IsRouted F sid vlan_id mac hw1 v1 v12 in
    elim (Option-cases (enable_routing_vlan F sid vlan_id mac hw1).0) [
      | inl failed ↦ ground (arith, failed)
      | inr (intf, on) ↦
          let own : IsRouted (some intf) = subst IsRouted on inner in
          ground (arith, on, own.0, own.1, p16)
    ]

-- The VLANs of the settings have 12 bits.
pub record AreVlans (set : BundleSettings) : Type 0 where
  pub internal : set.internal_vlan_id < 0x1000
  pub access : set.vlans.vlan < 0x1000

module _ (F : Fpa) (O : Os) (L : FlowLaws F) (G : GroupLaws F) (R : FrameLaws F L G)
    (I : IdentLaws F) (I3 : L3IdentLaws F) (key : HostKey) (E : Env) (inet_addr : Chars → ℕ) where
  abbrev Goes : HostState F → FpaBundle × HostState F → Type 0
  Goes = IpGoes F L G R I I3 key E inet_addr

  hw_only :
      (st new : HostState F)
      → AreBounded F st
      → Calls F st.hw new.hw
      → new.ports ≡ st.ports
      → new.arp_indices ≡ st.arp_indices
      → new.host_table ≡ st.host_table
      → HostGoes F st new
  hw_only st new sound calls p a h = record {
    calls = calls;
    bounded = record {
      ports = rw p sound.ports;
      indices = rw a sound.indices;
      hosts = rw h sound.hosts;
    };
    separate = unmoved F st new a h;
  }

  pub stop_routing-HostGoes :
      (intf : Option L3Intf) (st : HostState F)
      → AreBounded F st
      → HostGoes F st (stop_routing F O key E inet_addr intf st)
  unfolding stop_routing
  stop_routing-HostGoes none st sound = record {
    calls = Calls.start;
    bounded = sound;
    separate = λ s. s;
  }
  stop_routing-HostGoes (some intf) st sound =
      hw_only st _ sound (disable_routing-Calls F L G R I intf (vlan_state F O key E inet_addr st))
        refl refl refl

  l3_disable-Goes :
      (enable : Bool) (b : FpaBundle) (st : HostState F)
      → AreBounded F st
      → IsFit b
      → Goes st (l3_disable F O key E inet_addr enable b st)
  unfolding l3_disable
  l3_disable-Goes enable b st sound fit = elim (Option-cases b.base.l3_intf) [
    | inl off ↦ ground (arith, off, same F L G R I I3 key E inet_addr st b sound fit)
    | inr (intf, on) ↦
        let stopped : Goes st (
          record b { base = record b.base { l3_intf = none } },
          stop_routing F O key E inet_addr (some intf) st,
        ) =
          record {
            fit = record { port = fit.port; routed = tt };
            host = stop_routing-HostGoes (some intf) st sound;
          } in
        ground (arith, on, stopped, same F L G R I I3 key E inet_addr st b sound fit)
  ]

  l3_enable-Goes :
      (sid : ℕ) (class : NetdevClass) (vlan_id mac : ℕ) (b : FpaBundle) (st : HostState F)
      → AreBounded F st
      → IsFit b
      → 0 < vlan_id
      → vlan_id < 0x1000
      → let done = l3_enable F O key E inet_addr sid class vlan_id mac b st in
        Goes st (done.1, done.2)
  unfolding l3_enable
  l3_enable-Goes sid NetdevClass.system vlan_id mac b st sound fit v1 v12 =
      let vs = vlan_state F O key E inet_addr st in
      let (intf, vs1) = enable_routing_interface F sid b.base.intf_id vlan_id mac vs in
      let host : HostGoes F st (with_vlan_state F O key E inet_addr vs1 st) =
        hw_only st _ sound
          (enable_routing_interface-Calls F L G R I sid b.base.intf_id vlan_id mac vs fit.port v1
            v12)
          refl refl refl in
      let routed =
        enable_routing_interface-IsRouted F sid b.base.intf_id vlan_id mac vs fit.port v1 v12 in
      let started : Goes st (
        record b { base = record b.base { l3_intf = intf } },
        with_vlan_state F O key E inet_addr vs1 st,
      ) =
        record { fit = record { port = fit.port; routed = routed }; host = host } in
      elim (Option-cases intf) [
        | inl off ↦ ground (arith, off, started)
        | inr (i, on) ↦ ground (arith, on, started)
      ]
  l3_enable-Goes sid NetdevClass.internal vlan_id mac b st sound fit v1 v12 = record {
    fit = record {
      port = fit.port;
      routed = enable_routing_vlan-IsRouted F sid vlan_id mac st.hw v1 v12;
    };
    host = hw_only st _ sound (enable_routing_vlan-Calls F sid vlan_id mac st.hw) refl refl refl;
  }
  l3_enable-Goes sid NetdevClass.vlansubint vlan_id mac b st sound fit v1 v12 =
      same F L G R I I3 key E inet_addr st b sound fit
  l3_enable-Goes sid NetdevClass.loopback vlan_id mac b st sound fit v1 v12 =
      same F L G R I I3 key E inet_addr st b sound fit

  Goes-append :
      (st : HostState F) (r : FpaBundle × HostState F) (r' : FpaBundle × HostState F)
      → Goes st r
      → Goes r.1 r'
      → Goes st r'
  Goes-append st r r' p q = IpGoes-append F L G R I I3 key E inet_addr st r.1 r' p.host q

  routed_vlan-small :
      (class : NetdevClass) (set : BundleSettings) (v : ℕ)
      → routed_vlan F O key E inet_addr class set ≡ RoutedVlan.vlan v
      → AreVlans set
      → v < 0x1000
  routed_vlan-small NetdevClass.system set v h vlans = ground (arith, h, vlans)
  routed_vlan-small NetdevClass.internal set v h vlans = ground (arith, h, vlans)
  routed_vlan-small NetdevClass.loopback set v h vlans = ground (arith, h)
  routed_vlan-small NetdevClass.vlansubint set v h vlans = ground (arith, h)

  routed_vlan-cases :
      (r : RoutedVlan F O key E inet_addr)
      → ((e : ℕ) × (r ≡ RoutedVlan.done e)) ⊎ ((v : ℕ) × (r ≡ RoutedVlan.vlan v))
  routed_vlan-cases (RoutedVlan.done e) = inl (e, refl)
  routed_vlan-cases (RoutedVlan.vlan v) = inr (v, refl)

  abbrev started :
      ℕ → NetdevClass → ℕ → ℕ → FpaBundle → HostState F → Bool → ℕ × FpaBundle × HostState F
  started sid class v mac b st wants =
      if wants then l3_enable F O key E inet_addr sid class v mac b st else (0, b, st)

  l3_start-Goes :
      (sid : ℕ) (class : NetdevClass) (v mac : ℕ) (b : FpaBundle) (st : HostState F) (wants : Bool)
      → AreBounded F st
      → IsFit b
      → (wants ≡ true → 0 < v)
      → v < 0x1000
      → Goes st ((started sid class v mac b st wants).1, (started sid class v mac b st wants).2)
  l3_start-Goes sid class v mac b st true sound fit v1 v12 =
      l3_enable-Goes sid class v mac b st sound fit (v1 refl) v12
  l3_start-Goes sid class v mac b st false sound fit v1 v12 =
      same F L G R I I3 key E inet_addr st b sound fit

  -- The addresses, where routing has been seen to.
  finish :
      (set : BundleSettings) (st : HostState F) (r s : ℕ × FpaBundle × HostState F)
      → Goes st (s.1, s.2)
      → (if s.0 == 0
          then (elim (bundle_ip_reconfigure F key E inet_addr set.ip s.1 s.2) [
            | none ↦ none
            | some a ↦ some (0, a.0, a.1)
          ])
          else some s)
        ≡ some r
      → Goes st (r.1, r.2)
  finish set st r s goes h = elim (Bool-cases (s.0 == 0)) [
    | inr failed ↦ ground (arith, failed, h, goes)
    | inl ok ↦ elim (Option-cases (bundle_ip_reconfigure F key E inet_addr set.ip s.1 s.2)) [
      | inl stuck ↦ absurd (ground (arith, ok, stuck, h))
      | inr (a, done) ↦
          let next =
            bundle_ip_reconfigure-IpGoes F L G R I I3 key E inet_addr set.ip s.1 s.2 a done
              goes.host.bounded goes.fit in
          let both = Goes-append st (s.1, s.2) a goes next in ground (arith, ok, done, h, both)
    ]
  ]

  pub set_l3-Goes :
      (set : BundleSettings) (sid : ℕ) (b : FpaBundle) (st : HostState F)
      (r : ℕ × FpaBundle × HostState F)
      → set_l3 F O key E inet_addr set sid b st ≡ some r
      → AreVlans set
      → AreBounded F st
      → IsFit b
      → Goes st (r.1, r.2)
  unfolding set_l3
  set_l3-Goes set sid b st r h vlans sound fit =
      let stays = same F L G R I I3 key E inet_addr st b sound fit in
      elim (Option-cases set.slave) [
        | inl no_port ↦ ground (arith, no_port, h, stays)
        | inr ((port, class), slave) ↦
            elim (routed_vlan-cases (routed_vlan F O key E inet_addr class set)) [
              | inl (e, done) ↦ ground (arith, slave, done, h, stays)
              | inr (v, routes) ↦
                  let first = l3_disable-Goes set.enable b st sound fit in
                  let off = l3_disable F O key E inet_addr set.enable b st in
                  let no_intf : Bool = elim off.0.base.l3_intf [ none ↦ true | some i ↦ false ] in
                  let wants = not (v == 0) && no_intf && set.enable in
                  let v12 = routed_vlan-small class set v routes vlans in
                  let second =
                    l3_start-Goes sid class v port.mac off.0 off.1 wants first.host.bounded
                      first.fit (λ on. ground (arith, on)) v12 in
                  finish set st r (started sid class v port.mac off.0 off.1 wants)
                    (Goes-append st off _ first second) (ground (arith, slave, routes, h))
            ]
      ]
