-- ===== src/Tests/Indices.antt =====
-- The next-hop indices of a VRF after a host has come and gone.
use switchd_fpa_plugin.Prelude.{◌≡◌, refl, false, none, some, [], ◌∷◌, arith}
use switchd_fpa_plugin.Ofproto.Hosts.{NextHopMac, find_egress}
use switchd_fpa_plugin.Ofproto.Hosts.Separate.{AreSeparate}
use switchd_fpa_plugin.Ofproto.Bundles.{FpaBundle, OfprotoType, find_bundle, set_bundle}
use switchd_fpa_plugin.Ofproto.Bundles.Set.{OfprotoState}
use switchd_fpa_plugin.Calls.HostEntries.{IsSmallEgress}
use switchd_fpa_plugin.Calls.Ofproto.{IsSafe}
use switchd_fpa_plugin.Calls.Reach.{without_host, Step, Reached, Reached-AreSeparate}
use switchd_fpa_plugin.Tests.Setting.{F, O, E, key, inet_addr}
use switchd_fpa_plugin.Tests.Switch.{L, G, R, I}
use switchd_fpa_plugin.Tests.Bundles.{bridge}
use switchd_fpa_plugin.Tests.Hosts.{
  bundle, start, host, added_runs, result, added, start-IsSeparate,
}
use switchd_fpa_plugin.Tests.Reach.{I3}

abbrev routing_3 : FpaBundle
routing_3 = record { aux = 1; name = none; base = bundle; ip4addr = none; secondary_ip4addr = [] }

abbrev vrf : OfprotoState F O key E inet_addr
vrf = record bridge { kind = OfprotoType.vrf; bundles = routing_3 ∷ []; host = start }

abbrev with_host : FpaBundle
with_host = record routing_3 { base = (result added).bundle }

abbrev one_host : OfprotoState F O key E inet_addr
one_host = record vrf { host = (result added).state; bundles = set_bundle with_host vrf.bundles }

known : find_bundle 1 vrf.bundles ≡ some routing_3
unfolding find_bundle
known = refl

known_after : find_bundle 1 one_host.bundles ≡ some with_host
unfolding find_bundle set_bundle
known_after = refl

small : IsSmallEgress F E bundle (NextHopMac.eth_addr 0xaabb) start
unfolding find_egress
small intf out on found = ground (arith, on, found)

comes_and_goes :
    Reached F O key E inet_addr vrf (without_host F O key E inet_addr with_host false host one_host)
comes_and_goes =
    Reached.later
      (Reached.later Reached.start (
        Step.adds_host 1 routing_3 false host (NextHopMac.eth_addr 0xaabb) 0 (result added) known
          small added_runs refl))
      (Step.deletes_host 1 with_host false host known_after refl)

vrf-IsSafe : IsSafe F O L G R I I3 key E inet_addr vrf
vrf-IsSafe = record {
  host = record { ports = (omega arith, tt); indices = refl; hosts = refl };
  bundles = (record { port = omega arith; routed = (omega arith, omega arith, omega arith) }, tt);
  no_vlan_0 = refl;
}

Reached-AreSeparate_example :
    AreSeparate F (without_host F O key E inet_addr with_host false host one_host).host
Reached-AreSeparate_example =
    Reached-AreSeparate F O L G R I I3 key E inet_addr vrf
      (without_host F O key E inet_addr with_host false host one_host) comes_and_goes vrf-IsSafe
      (1 ∷ 2 ∷ 3 ∷ [], start-IsSeparate)
