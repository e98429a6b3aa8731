-- ===== src/Calls/Ofproto.antt =====
-- `ops_fpa_ofproto_bundle_set` of src/ops-fpa-ofproto.c as calls on the switch: the whole function.
use switchd_fpa_plugin.Ofproto.Hosts.{HostKey}
use switchd_fpa_plugin.Prelude.{
  ℕ, ◌<◌, ◌≡◌, refl, subst, false, Option, none, some, List, [], ◌∷◌, arith, ◌==◌, Bool-cases,
  Option-cases, inl, inr,
}
use switchd_fpa_plugin.Fpa.{Fpa}
use switchd_fpa_plugin.Fpa.Laws.{FlowLaws, GroupLaws, FrameLaws, IdentLaws}
use switchd_fpa_plugin.Os.{Os}
use switchd_fpa_plugin.Strings.{Chars}
use switchd_fpa_plugin.Netdev.{NetdevClass}
use switchd_fpa_plugin.MacLearning.{Env}
use switchd_fpa_plugin.Ofproto.Ports.{Ofport, get_ofport_by_pid, set_ofport}
use switchd_fpa_plugin.Ofproto.Vlans.{reconfigure}
use switchd_fpa_plugin.Ofproto.Hosts.{HostState}
use switchd_fpa_plugin.Ofproto.Bundles.{
  FpaBundle, OfprotoType, BundleSettings, find_bundle, set_bundle, remove_bundle, has_aux,
}
use switchd_fpa_plugin.Ofproto.Bundles.Set.{
  OfprotoState, stop_routing, rm_bundle, create_bundle, set_l2, set_l3, configure, bundle_set,
}
use switchd_fpa_plugin.Ofproto.Hosts.Separate.{AreSeparate, unmoved}
use switchd_fpa_plugin.Calls.{Calls, Calls-append}
use switchd_fpa_plugin.Calls.Ports.{
  insert_ofport-AreSmall, get_ofport_by_pid-small, set_ofport-AreSmall, reconfigure-Calls,
}
use switchd_fpa_plugin.Calls.Hosts.{L3IdentLaws, AreBounded, HostGoes}
use switchd_fpa_plugin.Calls.Addresses.{IsFit}
use switchd_fpa_plugin.Calls.Bundles.{AreVlans, stop_routing-HostGoes, set_l3-Goes}

abbrev pub AreFit : List FpaBundle → Type 0
AreFit [] = Unit
AreFit (b ∷ bs) = IsFit b × AreFit bs

pub find_bundle-IsFit :
    (aux : ℕ) (b : FpaBundle) (bs : List FpaBundle)
    → find_bundle aux bs ≡ some b
    → AreFit bs
    → IsFit b
unfolding find_bundle
find_bundle-IsFit aux b [] h fit = cc
find_bundle-IsFit aux b (x ∷ xs) h fit = elim (Bool-cases (has_aux aux x)) [
  | inl hit ↦ let first : x ≡ b = ground (arith, hit, h) in subst IsFit first fit.0
  | inr miss ↦ find_bundle-IsFit aux b xs (ground (arith, miss, h)) fit.1
]

set_bundle-AreFit :
    (b : FpaBundle) (bs : List FpaBundle) → IsFit b → AreFit bs → AreFit (set_bundle b bs)
unfolding set_bundle
set_bundle-AreFit b [] own fit = tt
set_bundle-AreFit b (x ∷ xs) own fit = ground (arith, own, fit, set_bundle-AreFit b xs own fit.1)

remove_bundle-AreFit : (aux : ℕ) (bs : List FpaBundle) → AreFit bs → AreFit (remove_bundle aux bs)
unfolding remove_bundle
remove_bundle-AreFit aux [] fit = tt
remove_bundle-AreFit aux (x ∷ xs) fit = ground (arith, fit, remove_bundle-AreFit aux xs fit.1)

-- The settings name a port below 2^16, and VLANs of 12 bits.
pub record AreProper (set : BundleSettings) : Type 0 where
  pub vlans : AreVlans set
  pub port : (p : Ofport × NetdevClass) × (set.slave ≡ some p) × (p.0.pid < 0x10000)

module _ (F : Fpa) (O : Os) (L : FlowLaws F) (G : GroupLaws F) (R : FrameLaws F L G)
    (I : IdentLaws F) (I3 : L3IdentLaws F) (key : HostKey) (E : Env) (inet_addr : Chars → ℕ) where
  abbrev State : Type 0
  State = OfprotoState F O key E inet_addr

  -- Numbers are small wherever an ofproto keeps them, and VLAN 0 is not enabled.
  pub record IsSafe (st : State) : Type 0 where
    pub host : AreBounded F st.host
    pub bundles : AreFit st.bundles
    pub no_vlan_0 : st.vlans 0 ≡ false

  -- From one ofproto to another by calls on the switch.
  pub record Goes (st new : State) : Type 0 where
    pub calls : Calls F st.host.hw new.host.hw
    pub safe : IsSafe new
    pub separate : AreSeparate F st.host → AreSeparate F new.host

  pub rm_bundle-Goes :
      (aux : ℕ) (st : State) → IsSafe st → Goes st (rm_bundle F O key E inet_addr aux st).1
  unfolding rm_bundle
  rm_bundle-Goes aux st safe =
      let stays : Goes st st = record { calls = Calls.start; safe = safe; separate = λ s. s } in
      elim (Option-cases (find_bundle aux st.bundles)) [
        | inl absent ↦ ground (arith, absent, stays)
        | inr (b, found) ↦
            let stop =
              stop_routing-HostGoes F O L G R I I3 key E inet_addr b.base.l3_intf st.host
                safe.host in
            let gone : Goes st (record st {
              host = stop_routing F O key E inet_addr b.base.l3_intf st.host;
              bundles = remove_bundle aux st.bundles;
            }) =
              record {
                calls = stop.calls;
                safe = record {
                  host = stop.bounded;
                  bundles = remove_bundle-AreFit aux st.bundles safe.bundles;
                  no_vlan_0 = safe.no_vlan_0;
                };
                separate = stop.separate;
              } in
            ground (arith, found, gone)
      ]

  set_l2-HostGoes :
      (set : BundleSettings) (this : State) (b : FpaBundle) (st new : HostState F)
      → set_l2 F O key E inet_addr set this b st ≡ some new
      → AreBounded F st
      → this.vlans 0 ≡ false
      → HostGoes F st new
  unfolding set_l2
  set_l2-HostGoes set this b st new h sound no_vlan_0 =
      let stays : HostGoes F st st = record {
        calls = Calls.start;
        bounded = sound;
        separate = λ s. s;
      } in
      elim (Option-cases (get_ofport_by_pid st.ports b.base.intf_id)) [
        | inl absent ↦ ground (arith, absent, h, stays)
        | inr (port, found) ↦
            let p16 = get_ofport_by_pid-small st.ports b.base.intf_id port found sound.ports in
            let done = reconfigure F this.switch_id port this.vlans set.vlans st.hw in
            let goes : HostGoes F st (record st {
              hw = done.hw;
              ports = set_ofport st.ports b.base.intf_id (record port { vmap = done.vmap });
            }) =
              record {
                calls =
                    reconfigure-Calls F L G R I this.switch_id port this.vlans set.vlans st.hw p16
                      no_vlan_0;
                bounded = record {
                  ports = set_ofport-AreSmall st.ports b.base.intf_id _ p16 sound.ports;
                  indices = sound.indices;
                  hosts = sound.hosts;
                };
                separate = unmoved F st _ refl refl;
              } in
            ground (arith, found, h, stays, goes)
      ]

  pub Goes-append : (a b c : State) → Goes a b → Goes b c → Goes a c
  Goes-append a b c p q = record {
    calls = Calls-append F p.calls q.calls;
    safe = q.safe;
    separate = λ s. q.separate (p.separate s);
  }

  -- A new bundle stands for the port of the settings.
  create_bundle-Goes :
      (aux : ℕ) (set : BundleSettings) (st : State)
      → AreProper set
      → IsSafe st
      → let made = create_bundle F O key E inet_addr aux set st in Goes st made.1 × IsFit made.0
  unfolding create_bundle
  create_bundle-Goes aux set st proper safe =
      let (p, slave, p16) = proper.port in
      (
        record {
          calls = Calls.start;
          safe = record {
            host = record {
              ports = ground (
                arith,
                slave,
                safe.host.ports,
                insert_ofport-AreSmall E.hmap st.host.ports p.0.pid p.0 p16 safe.host.ports,
              );
              indices = safe.host.indices;
              hosts = safe.host.hosts;
            };
            bundles = (record { port = rw slave p16; routed = tt }, safe.bundles);
            no_vlan_0 = safe.no_vlan_0;
          };
          separate = unmoved F st.host _ refl refl;
        },
        record { port = rw slave p16; routed = tt },
      )

  -- The result of either half of the function, with the bundle written back.
  pub written :
      (st : State) (b : FpaBundle) (host : HostState F)
      → HostGoes F st.host host
      → IsFit b
      → IsSafe st
      → Goes st (record st { host = host; bundles = set_bundle b st.bundles })
  written st b host goes fit safe = record {
    calls = goes.calls;
    safe = record {
      host = goes.bounded;
      bundles = set_bundle-AreFit b st.bundles fit safe.bundles;
      no_vlan_0 = safe.no_vlan_0;
    };
    separate = goes.separate;
  }

  l2_done :
      (set : BundleSettings) (b : FpaBundle) (st : State) (r : ℕ × State)
      → (elim (set_l2 F O key E inet_addr set st b st.host) [
        | none ↦ none
        | some host ↦ some (0, record st { host = host; bundles = set_bundle b st.bundles })
      ])
        ≡ some r
      → IsFit b
      → IsSafe st
      → Goes st r.1
  l2_done set b st r h fit safe =
      elim (Option-cases (set_l2 F O key E inet_addr set st b st.host)) [
        | inl stuck ↦ absurd (ground (arith, stuck, h))
        | inr (host, done) ↦
            let goes = set_l2-HostGoes set st b st.host host done safe.host safe.no_vlan_0 in
            ground (arith, done, h, written st b host goes fit safe)
      ]

  l3_done :
      (set : BundleSettings) (b : FpaBundle) (st : State) (r : ℕ × State)
      → (elim (set_l3 F O key E inet_addr set st.switch_id b st.host) [
        | none ↦ none
        | some a ↦ some (a.0, record st { host = a.2; bundles = set_bundle a.1 st.bundles })
      ])
        ≡ some r
      → AreVlans set
      → IsFit b
      → IsSafe st
      → Goes st r.1
  l3_done set b st r h vlans fit safe =
      elim (Option-cases (set_l3 F O key E inet_addr set st.switch_id b st.host)) [
        | inl stuck ↦ absurd (ground (arith, stuck, h))
        | inr (a, done) ↦
            let goes =
              set_l3-Goes F O L G R I I3 key E inet_addr set st.switch_id b st.host a done vlans
                safe.host fit in
            ground (arith, done, h, written st a.1 a.2 goes.host goes.fit safe)
      ]

  abbrev l2_result : BundleSettings → FpaBundle → State → Option (ℕ × State)
  l2_result set b st = elim (set_l2 F O key E inet_addr set st b st.host) [
    | none ↦ none
    | some host ↦ some (0, record st { host = host; bundles = set_bundle b st.bundles })
  ]

  abbrev l3_result : BundleSettings → FpaBundle → State → Option (ℕ × State)
  l3_result set b st = elim (set_l3 F O key E inet_addr set st.switch_id b st.host) [
    | none ↦ none
    | some a ↦ some (a.0, record st { host = a.2; bundles = set_bundle a.1 st.bundles })
  ]

  by_kind :
      (set : BundleSettings) (b : FpaBundle) (st : State) (r : ℕ × State) (kind : OfprotoType)
      → (elim kind [
        | OfprotoType.vrf ↦ l3_result set b st
        | OfprotoType.system ↦ l2_result set b st
        | OfprotoType.other ↦ l2_result set b st
      ])
        ≡ some r
      → AreVlans set
      → IsFit b
      → IsSafe st
      → Goes st r.1
  by_kind set b st r OfprotoType.vrf h vlans fit safe = l3_done set b st r h vlans fit safe
  by_kind set b st r OfprotoType.system h vlans fit safe = l2_done set b st r h fit safe
  by_kind set b st r OfprotoType.other h vlans fit safe = l2_done set b st r h fit safe

  configure-Goes :
      (set : BundleSettings) (b : FpaBundle) (st : State) (r : ℕ × State)
      → configure F O key E inet_addr set b st ≡ some r
      → AreVlans set
      → IsFit b
      → IsSafe st
      → Goes st r.1
  unfolding configure
  configure-Goes set b st r h = by_kind set b st r st.kind h

  pub bundle_set-Goes :
      (aux : ℕ) (set : BundleSettings) (st : State) (r : ℕ × State)
      → bundle_set F O key E inet_addr aux (some set) st ≡ some r
      → AreProper set
      → IsSafe st
      → Goes st r.1
  unfolding bundle_set
  bundle_set-Goes aux set st r h proper safe =
      let stays : Goes st st = record { calls = Calls.start; safe = safe; separate = λ s. s } in
      elim (Bool-cases (set.n_slaves == 1)) [
        | inr wrong ↦ ground (arith, wrong, h, stays)
        | inl one ↦ elim (Option-cases (find_bundle aux st.bundles)) [
          | inr (b, found) ↦
              let fit = find_bundle-IsFit aux b st.bundles found safe.bundles in
              configure-Goes set (record b { name = some set.name }) st r
                (ground (arith, one, found, h)) proper.vlans
                (record { port = fit.port; routed = fit.routed }) safe
          | inl absent ↦
              let made = create_bundle F O key E inet_addr aux set st in
              let (goes, fit) = create_bundle-Goes aux set st proper safe in
              Goes-append st made.1 r.1 goes (
                configure-Goes set (record made.0 { name = some set.name }) made.1 r
                  (ground (arith, one, absent, h)) proper.vlans
                  (record { port = fit.port; routed = fit.routed }) goes.safe)
        ]
      ]
