-- ===== src/Calls/Addresses.antt =====
-- The addresses of a bundle in src/ops-fpa-ofproto.c, as calls on the switch.
use switchd_fpa_plugin.Ofproto.Hosts.{HostKey}
use switchd_fpa_plugin.Prelude.{
  ℕ, ◌<◌, ◌≡◌, false, Option, none, some, List, [], ◌∷◌, arith, Bool-cases, Option-cases, inl, inr,
  keep, not,
}
use switchd_fpa_plugin.Fpa.{Fpa}
use switchd_fpa_plugin.Fpa.Laws.{FlowLaws, GroupLaws, FrameLaws, IdentLaws}
use switchd_fpa_plugin.Strings.{Chars}
use switchd_fpa_plugin.Netdev.{bytes_eq}
use switchd_fpa_plugin.MacLearning.{Env}
use switchd_fpa_plugin.Ofproto.Hosts.{HostState, add_l3_host_entry}
use switchd_fpa_plugin.Ofproto.Bundles.{
  FpaBundle, IpSettings, mem_name, once, parse, add_ip, delete_ip, drop_secondary, add_secondary,
  bundle_ipv4_secondary_reconfigure, primary_reconfigure, bundle_ip_reconfigure,
}
use switchd_fpa_plugin.Calls.{Calls}
use switchd_fpa_plugin.Calls.Hosts.{L3IdentLaws, AreBounded, HostGoes}
use switchd_fpa_plugin.Calls.HostEntries.{
  IsRouted, delete_l3_host_entry-BundleGoes, HostGoes-append, delete_l3_host_entry-intf_id,
}

-- A bundle stands for a port below 2^16, and routes as it should.
pub record IsFit (b : FpaBundle) : Type 0 where
  pub port : b.base.intf_id < 0x10000
  pub routed : IsRouted b.base.l3_intf

module _ (F : Fpa) (L : FlowLaws F) (G : GroupLaws F) (R : FrameLaws F L G) (I : IdentLaws F)
    (I3 : L3IdentLaws F) (key : HostKey) (E : Env) (inet_addr : Chars → ℕ) where
  -- A bundle and the state of the hosts after a call.
  pub record IpGoes (st : HostState F) (r : FpaBundle × HostState F) : Type 0 where
    pub fit : IsFit r.0
    pub host : HostGoes F st r.1

  pub IpGoes-append :
      (a b : HostState F) (r : FpaBundle × HostState F) → HostGoes F a b → IpGoes b r → IpGoes a r
  IpGoes-append a b r p q = record {
    fit = q.fit;
    host = HostGoes-append F L G R I I3 a b r.1 p q.host;
  }

  pub same : (st : HostState F) (b : FpaBundle) → AreBounded F st → IsFit b → IpGoes st (b, st)
  same st b sound fit = record {
    fit = fit;
    host = record { calls = Calls.start; bounded = sound; separate = λ s. s };
  }

  -- Adding an address is refused, since there is no next hop.
  add_ip-IpGoes :
      (address : Chars) (b : FpaBundle) (st : HostState F) (r : FpaBundle × HostState F)
      → add_ip F key E inet_addr address b st ≡ some r
      → AreBounded F st
      → IsFit b
      → IpGoes st r
  unfolding add_ip add_l3_host_entry
  add_ip-IpGoes address b st r h sound fit =
      let stays : IpGoes st (b, st) = same st b sound fit in ground (arith, h, stays)

  delete_ip-IpGoes :
      (address : Chars) (b : FpaBundle) (st : HostState F)
      → AreBounded F st
      → IsFit b
      → IpGoes st (delete_ip F key E inet_addr address b st)
  unfolding delete_ip
  delete_ip-IpGoes address b st sound fit =
      let ip = parse F key E inet_addr address in
      let gone =
        delete_l3_host_entry-BundleGoes F L G R I I3 key b.base false ip st sound fit.routed in
      let id = delete_l3_host_entry-intf_id F L G R I I3 key b.base false ip st in
      record { fit = record { port = rw id fit.port; routed = gone.routed }; host = gone.host }

  abbrev gone_b : Chars → FpaBundle → HostState F → FpaBundle
  gone_b address b st = (delete_ip F key E inet_addr address b st).0

  abbrev gone_st : Chars → FpaBundle → HostState F → HostState F
  gone_st address b st = (delete_ip F key E inet_addr address b st).1

  add_secondary-IpGoes :
      (new : List Chars) (b : FpaBundle) (st : HostState F) (r : FpaBundle × HostState F)
      → add_secondary F key E inet_addr new b st ≡ some r
      → AreBounded F st
      → IsFit b
      → IpGoes st r
  unfolding add_secondary
  add_secondary-IpGoes [] b st r h sound fit =
      let stays : IpGoes st (b, st) = same st b sound fit in ground (arith, h, stays)
  add_secondary-IpGoes (s ∷ new) b st r h sound fit =
      let longer : FpaBundle = record b { secondary_ip4addr = s ∷ b.secondary_ip4addr } in
      elim (Bool-cases (mem_name s b.secondary_ip4addr)) [
        | inl known ↦ add_secondary-IpGoes new b st r (ground (arith, known, h)) sound fit
        | inr unknown ↦ elim (Option-cases b.ip4addr) [
          | inl no_primary ↦ absurd (ground (arith, unknown, no_primary, h))
          | inr (primary, there) ↦
              elim (Option-cases (add_ip F key E inet_addr primary longer st)) [
                | inl stuck ↦ absurd (ground (arith, unknown, there, stuck, h))
                | inr (r1, added) ↦
                    let first =
                      add_ip-IpGoes primary longer st r1 added sound
                        (record { port = fit.port; routed = fit.routed }) in
                    IpGoes-append st r1.1 r first.host (
                      add_secondary-IpGoes new r1.0 r1.1 r
                        (ground (arith, unknown, there, added, h)) first.host.bounded first.fit)
              ]
        ]
      ]

  drop_secondary-IpGoes :
      (new old : List Chars) (b : FpaBundle) (st : HostState F) (r : FpaBundle × HostState F)
      → drop_secondary F key E inet_addr new old b st ≡ some r
      → AreBounded F st
      → IsFit b
      → IpGoes st r
  unfolding drop_secondary
  drop_secondary-IpGoes new [] b st r h sound fit =
      let stays : IpGoes st (b, st) = same st b sound fit in ground (arith, h, stays)
  drop_secondary-IpGoes new (s ∷ old) b st r h sound fit = elim (Option-cases b.ip4addr) [
    | inl no_primary ↦ elim (Bool-cases (mem_name s new)) [
      | inl stays ↦
          drop_secondary-IpGoes new old b st r (ground (arith, no_primary, stays, h)) sound fit
      | inr goes ↦ absurd (ground (arith, no_primary, goes, h))
    ]
    | inr (primary, there) ↦ elim (Bool-cases (mem_name s new)) [
      | inl stays ↦ drop_secondary-IpGoes new old b st r (ground (arith, there, stays, h)) sound fit
      | inr goes ↦
          let shorter : FpaBundle = record b {
            secondary_ip4addr = keep (λ t. not (bytes_eq s t)) b.secondary_ip4addr;
          } in
          let first =
            delete_ip-IpGoes primary shorter st sound
              (record { port = fit.port; routed = fit.routed }) in
          IpGoes-append st (gone_st primary shorter st) r first.host (
            drop_secondary-IpGoes new old (gone_b primary shorter st) (gone_st primary shorter st) r
              (ground (arith, there, goes, h)) first.host.bounded first.fit)
    ]
  ]

  primary_reconfigure-IpGoes :
      (new old : Option Chars) (b : FpaBundle) (st : HostState F) (r : FpaBundle × HostState F)
      → primary_reconfigure F key E inet_addr new old b st ≡ some r
      → AreBounded F st
      → IsFit b
      → IpGoes st r
  unfolding primary_reconfigure
  primary_reconfigure-IpGoes none none b st r h sound fit =
      let stays : IpGoes st (b, st) = same st b sound fit in ground (arith, h, stays)
  primary_reconfigure-IpGoes none (some old) b st r h sound fit =
      let gone = delete_ip-IpGoes old b st sound fit in
      let fit1 : IsFit (record (gone_b old b st) { ip4addr = none }) = record {
        port = gone.fit.port;
        routed = gone.fit.routed;
      } in
      let stays : IpGoes st (record (gone_b old b st) { ip4addr = none }, gone_st old b st) =
        record { fit = fit1; host = gone.host } in
      ground (arith, h, stays)
  primary_reconfigure-IpGoes (some new) none b st r h sound fit =
      add_ip-IpGoes new (record b { ip4addr = some new }) st r h sound
        (record { port = fit.port; routed = fit.routed })
  primary_reconfigure-IpGoes (some new) (some old) b st r h sound fit =
      let gone = delete_ip-IpGoes old b st sound fit in
      elim (Bool-cases (bytes_eq old new)) [
        | inl kept ↦
            let stays : IpGoes st (b, st) = same st b sound fit in ground (arith, kept, h, stays)
        | inr changed ↦ IpGoes-append st (gone_st old b st) r gone.host (
            add_ip-IpGoes new (record (gone_b old b st) { ip4addr = some new }) (gone_st old b st) r
              (ground (arith, changed, h)) gone.host.bounded
              (record { port = gone.fit.port; routed = gone.fit.routed }))
      ]

  pub bundle_ip_reconfigure-IpGoes :
      (set : IpSettings) (b : FpaBundle) (st : HostState F) (r : FpaBundle × HostState F)
      → bundle_ip_reconfigure F key E inet_addr set b st ≡ some r
      → AreBounded F st
      → IsFit b
      → IpGoes st r
  unfolding bundle_ip_reconfigure bundle_ipv4_secondary_reconfigure
  bundle_ip_reconfigure-IpGoes set b st r h sound fit = elim (Bool-cases set.primary_ipv4_changed) [
    | inl first ↦
        primary_reconfigure-IpGoes set.ip4_address b.ip4addr b st r (ground (arith, first, h)) sound
          fit
    | inr keep_first ↦ elim (Bool-cases set.secondary_ipv4_changed) [
      | inr neither ↦
          let stays : IpGoes st (b, st) = same st b sound fit in
          ground (arith, keep_first, neither, h, stays)
      | inl second ↦
          let new = once set.ip4_address_secondary [] in
          elim (Option-cases (drop_secondary F key E inet_addr new b.secondary_ip4addr b st)) [
            | inl stuck ↦ absurd (ground (arith, keep_first, second, stuck, h))
            | inr (r1, dropped) ↦
                let before =
                  drop_secondary-IpGoes new b.secondary_ip4addr b st r1 dropped sound fit in
                IpGoes-append st r1.1 r before.host (
                  add_secondary-IpGoes new r1.0 r1.1 r
                    (ground (arith, keep_first, second, dropped, h)) before.host.bounded before.fit)
          ]
    ]
  ]
