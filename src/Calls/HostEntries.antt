-- ===== src/Calls/HostEntries.antt =====
-- The calls of src/ops-fpa-ofproto.c that add and delete hosts and routes, as calls on the switch.
use switchd_fpa_plugin.Ofproto.Hosts.{HostKey}
use switchd_fpa_plugin.Prelude.{
  ℕ, ◌<◌, ◌≡◌, refl, subst, Bool, Option, none, some, arith, Option-cases, inl, inr,
}
use switchd_fpa_plugin.Fpa.{Fpa}
use switchd_fpa_plugin.Fpa.Laws.{FlowLaws, GroupLaws, FrameLaws, IdentLaws}
use switchd_fpa_plugin.Route.{add_route, add_route_trap, del_route}
use switchd_fpa_plugin.Routing.{L3Intf}
use switchd_fpa_plugin.MacLearning.{Env}
use switchd_fpa_plugin.Ofproto.Ports.{get_ofport_by_pid}
use switchd_fpa_plugin.Ofproto.Hosts.{
  HostState, HostResult, Bundle, NextHopMac, RouteAction, OfprotoRoute, host_table_find,
  find_egress, install_host, remove_host, uncount_route, host_of, count_route, add_l3_host_entry,
  delete_l3_host_entry, route_to_host, route_to_cpu, l3_route_action,
}
use switchd_fpa_plugin.Ofproto.Hosts.Separate.{unmoved}
use switchd_fpa_plugin.Calls.{Calls, Calls-append}
use switchd_fpa_plugin.Calls.Indices.{host_table_find-small}
use switchd_fpa_plugin.Calls.Hosts.{
  L3IdentLaws, AreBounded, HostGoes, install_host-HostGoes, remove_host-HostGoes,
  uncount_route-HostGoes, add_route-Calls, add_route_trap-Calls, del_route-Calls,
}

-- An interface that routes does so on a VLAN from 1 to 0xfff and, if on a port, one below 2^16.
abbrev pub IsRouted : Option L3Intf → Type 0
IsRouted none = Unit
IsRouted (some intf) = (0 < intf.vlan_id) × (intf.vlan_id < 0x1000) × (intf.intf_id < 0x10000)

module _ (F : Fpa) where
  -- The port that `find_egress` gives is below 2^16.
  abbrev pub IsSmallEgress : Env → Bundle → NextHopMac → HostState F → Type 0
  IsSmallEgress E bundle (NextHopMac.eth_addr dst) st =
      (intf : L3Intf) (out : ℕ × ℕ)
      → bundle.l3_intf ≡ some intf
      → find_egress F E intf dst st ≡ some out
      → out.1 < 0x10000
  IsSmallEgress E bundle NextHopMac.null st = Unit
  IsSmallEgress E bundle NextHopMac.bad st = Unit

  pub add_l3_host_entry-intf_id :
      (key : HostKey) (E : Env) (bundle : Bundle) (v6 : Bool) (ip : Option (ℕ × ℕ))
      (mac : NextHopMac) (egress : ℕ) (st : HostState F) (r : HostResult F)
      → add_l3_host_entry F key E bundle v6 ip mac egress st ≡ some r
      → r.bundle.intf_id ≡ bundle.intf_id
  unfolding add_l3_host_entry
  add_l3_host_entry-intf_id key E bundle v6 ip NextHopMac.null egress st r h = ground (arith, h)
  add_l3_host_entry-intf_id key E bundle v6 ip NextHopMac.bad egress st r h = ground (arith, h)
  add_l3_host_entry-intf_id key E bundle v6 ip (NextHopMac.eth_addr dst) egress st r h =
      ground (arith, h)

module _ (F : Fpa) (L : FlowLaws F) (G : GroupLaws F) (R : FrameLaws F L G) (I : IdentLaws F)
    (I3 : L3IdentLaws F) where
  -- A bundle and the state of the hosts after a call.
  pub record BundleGoes (st : HostState F) (intf : Option L3Intf) (new : HostState F) : Type 0 where
    pub host : HostGoes F st new
    pub routed : IsRouted intf

  unchanged :
      (st : HostState F) (intf : Option L3Intf)
      → AreBounded F st
      → IsRouted intf
      → BundleGoes st intf st
  unchanged st intf sound routed = record {
    host = record { calls = Calls.start; bounded = sound; separate = λ s. s };
    routed = routed;
  }

  pub add_l3_host_entry-BundleGoes :
      (key : HostKey) (E : Env) (bundle : Bundle) (v6 : Bool) (ip : Option (ℕ × ℕ))
      (mac : NextHopMac) (egress : ℕ) (st : HostState F) (r : HostResult F)
      → add_l3_host_entry F key E bundle v6 ip mac egress st ≡ some r
      → IsSmallEgress F E bundle mac st
      → AreBounded F st
      → IsRouted bundle.l3_intf
      → BundleGoes st r.bundle.l3_intf r.state
  unfolding add_l3_host_entry
  add_l3_host_entry-BundleGoes key E bundle v6 ip NextHopMac.null egress st r h small sound routed =
      ground (arith, h, unchanged st bundle.l3_intf sound routed)
  add_l3_host_entry-BundleGoes key E bundle v6 ip NextHopMac.bad egress st r h small sound routed =
      ground (arith, h, unchanged st bundle.l3_intf sound routed)
  add_l3_host_entry-BundleGoes key E bundle v6 ip (NextHopMac.eth_addr dst) egress st r h small
        sound routed =
      let same = unchanged st bundle.l3_intf sound routed in
      elim (Option-cases bundle.l3_intf) [
        | inl off ↦ ground (arith, h, off, same)
        | inr (intf, on) ↦ elim (Option-cases (get_ofport_by_pid st.ports bundle.intf_id)) [
          | inl no_port ↦ ground (arith, h, on, no_port, same)
          | inr (port, there) ↦ elim (Option-cases (find_egress F E intf dst st)) [
            | inl unknown ↦ ground (arith, h, on, there, unknown, same)
            | inr (out, found) ↦ elim (Option-cases (host_of F ip)) [
              | inl no_host ↦ ground (arith, h, on, there, found, no_host, same)
              | inr (ipv4, host) ↦
                  let own : IsRouted (some intf) = subst IsRouted on routed in
                  let goes =
                    install_host-HostGoes F L G R I I3 key intf out.1 port.mtu port.mac dst ipv4 st
                      (small intf out on found) own.0 own.1 sound in
                  let st1 = (install_host F key intf out.1 port.mtu port.mac dst ipv4 st).1 in
                  let counted : BundleGoes st (some (count_route F intf)) st1 = record {
                    host = goes;
                    routed = own;
                  } in
                  let kept : BundleGoes st bundle.l3_intf st1 = record {
                    host = goes;
                    routed = routed;
                  } in
                  ground (arith, h, on, there, found, host, same, counted, kept)
            ]
          ]
        ]
      ]

  pub HostGoes-append : (a b c : HostState F) → HostGoes F a b → HostGoes F b c → HostGoes F a c
  HostGoes-append a b c p q = record {
    calls = Calls-append F p.calls q.calls;
    bounded = q.bounded;
    separate = λ s. q.separate (p.separate s);
  }

  uncounted :
      (intf : L3Intf) (bundle : Bundle) (st st1 : HostState F)
      → HostGoes F st st1
      → IsRouted (some intf)
      → let done = uncount_route F intf bundle st1 in BundleGoes st done.0.l3_intf done.1
  unfolding uncount_route
  uncounted intf bundle st st1 gone own =
      let rest = uncount_route-HostGoes F L G R I I3 intf bundle st1 gone.bounded in
      record {
        host = HostGoes-append st st1 (uncount_route F intf bundle st1).1 gone rest;
        routed = ground (arith, own);
      }

  pub delete_l3_host_entry-BundleGoes :
      (key : HostKey) (bundle : Bundle) (v6 : Bool) (ip : Option (ℕ × ℕ)) (st : HostState F)
      → AreBounded F st
      → IsRouted bundle.l3_intf
      → let done = delete_l3_host_entry F key bundle v6 ip st in BundleGoes st done.1.l3_intf done.2
  unfolding delete_l3_host_entry
  delete_l3_host_entry-BundleGoes key bundle v6 ip st sound routed =
      let same = unchanged st bundle.l3_intf sound routed in
      elim (Option-cases bundle.l3_intf) [
        | inl off ↦ ground (arith, off, same)
        | inr (intf, on) ↦ elim (Option-cases (host_of F ip)) [
          | inl no_host ↦ ground (arith, on, no_host, same)
          | inr (ipv4, host) ↦ elim (Option-cases (host_table_find key ipv4 st.host_table)) [
            | inl absent ↦ ground (arith, on, host, absent, same)
            | inr (entry, found) ↦
                let x16 = host_table_find-small key ipv4 st.host_table entry found sound.hosts in
                let gone =
                  remove_host-HostGoes F L G R I I3 key intf.switch_id ipv4 entry st found x16
                    sound in
                let st1 = remove_host F key intf.switch_id entry st in
                let own : IsRouted (some intf) = subst IsRouted on routed in
                let goes = uncounted intf bundle st st1 gone own in
                ground (arith, on, host, found, same, goes)
          ]
        ]
      ]

  HostGoes-hw :
      (st : HostState F) (hw : F.Hw)
      → AreBounded F st
      → Calls F st.hw hw
      → HostGoes F st (record st { hw = hw })
  HostGoes-hw st hw sound calls = record {
    calls = calls;
    bounded = record { ports = sound.ports; indices = sound.indices; hosts = sound.hosts };
    separate = unmoved F st (record st { hw = hw }) refl refl;
  }

  route_to_host-HostGoes :
      (key : HostKey) (sid ipv4 len : ℕ) (id : Option (ℕ × ℕ)) (st : HostState F)
      → AreBounded F st
      → HostGoes F st (route_to_host F key sid ipv4 len id st).1
  unfolding route_to_host
  route_to_host-HostGoes key sid ipv4 len none st sound = record {
    calls = Calls.start;
    bounded = sound;
    separate = λ s. s;
  }
  route_to_host-HostGoes key sid ipv4 len (some host) st sound =
      let stays : HostGoes F st st = record {
        calls = Calls.start;
        bounded = sound;
        separate = λ s. s;
      } in
      elim (Option-cases (host_table_find key host.0 st.host_table)) [
        | inl absent ↦ ground (arith, absent, stays)
        | inr (entry, found) ↦
            let hw1 = (del_route F sid ipv4 len st.hw).1 in
            let goes = HostGoes-hw st (add_route F sid entry.l3_group ipv4 len hw1).1 sound (
              Calls-append F (del_route-Calls F sid ipv4 len st.hw)
                (add_route-Calls F sid entry.l3_group ipv4 len hw1)) in
            ground (arith, found, goes)
      ]

  route_to_cpu-HostGoes :
      (sid ipv4 len : ℕ) (st : HostState F)
      → AreBounded F st
      → HostGoes F st (route_to_cpu F sid ipv4 len st).1
  unfolding route_to_cpu
  route_to_cpu-HostGoes sid ipv4 len st sound =
      let hw1 = (del_route F sid ipv4 len st.hw).1 in
      HostGoes-hw st (add_route_trap F sid ipv4 len hw1).1 sound (
        Calls-append F (del_route-Calls F sid ipv4 len st.hw)
          (add_route_trap-Calls F sid ipv4 len hw1))

  -- A route comes and goes by calls on the switch.
  pub l3_route_action-HostGoes :
      (key : HostKey) (sid : ℕ) (action : RouteAction) (route : OfprotoRoute) (st : HostState F)
      → AreBounded F st
      → HostGoes F st (l3_route_action F key sid action route st).1
  unfolding l3_route_action
  l3_route_action-HostGoes key sid action route st sound =
      let stays : HostGoes F st st = record {
        calls = Calls.start;
        bounded = sound;
        separate = λ s. s;
      } in
      elim (Option-cases route.prefix) [
        | inl absent ↦ ground (arith, absent, stays)
        | inr (p, there) ↦ ground (
          arith,
          there,
          stays,
          HostGoes-hw st (del_route F sid p.0 p.1 st.hw).1 sound
              (del_route-Calls F sid p.0 p.1 st.hw),
          route_to_host-HostGoes key sid p.0 p.1 route.nexthop.id st sound,
          route_to_cpu-HostGoes sid p.0 p.1 st sound,
        )
      ]

  pub delete_l3_host_entry-intf_id :
      (key : HostKey) (bundle : Bundle) (v6 : Bool) (ip : Option (ℕ × ℕ)) (st : HostState F)
      → (delete_l3_host_entry F key bundle v6 ip st).1.intf_id ≡ bundle.intf_id
  unfolding delete_l3_host_entry uncount_route
  delete_l3_host_entry-intf_id key bundle v6 ip st = ground arith
