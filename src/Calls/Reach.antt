-- ===== src/Calls/Reach.antt =====
-- The calls of the bridge on an ofproto of src/ops-fpa-ofproto.c, in any order: bundles, VLANs,
-- hosts and routes.
use switchd_fpa_plugin.Ofproto.Hosts.{HostKey}
use switchd_fpa_plugin.Prelude.{
  ℕ, ◌<◌, ◌≡◌, refl, sym, subst, Bool, false, Option, none, some, List, [], ◌∷◌, arith,
}
use switchd_fpa_plugin.Fpa.{Fpa}
use switchd_fpa_plugin.Fpa.Laws.{FlowLaws, GroupLaws, FrameLaws, IdentLaws}
use switchd_fpa_plugin.Os.{Os}
use switchd_fpa_plugin.Strings.{Chars}
use switchd_fpa_plugin.MacLearning.{Env}
use switchd_fpa_plugin.Ofproto.Vlans.{L2State, set_vlan}
use switchd_fpa_plugin.Ofproto.Hosts.{
  HostResult, NextHopMac, RouteAction, OfprotoRoute, add_l3_host_entry, delete_l3_host_entry,
  l3_route_action,
}
use switchd_fpa_plugin.Ofproto.Bundles.{FpaBundle, BundleSettings, find_bundle, set_bundle}
use switchd_fpa_plugin.Ofproto.Bundles.Set.{OfprotoState, rm_bundle, bundle_set}
use switchd_fpa_plugin.Ofproto.Hosts.Separate.{AreSeparate, unmoved}
use switchd_fpa_plugin.Ofproto.Vlans.OneBundle.{bundles-vlans}
use switchd_fpa_plugin.Calls.{Calls}
use switchd_fpa_plugin.Calls.Sound.{IsSound, Calls-IsSound}
use switchd_fpa_plugin.Calls.Ports.{set_vlan-Goes}
use switchd_fpa_plugin.Calls.Hosts.{L3IdentLaws}
use switchd_fpa_plugin.Calls.HostEntries.{
  IsSmallEgress, add_l3_host_entry-BundleGoes, delete_l3_host_entry-BundleGoes,
  add_l3_host_entry-intf_id, delete_l3_host_entry-intf_id, l3_route_action-HostGoes,
}
use switchd_fpa_plugin.Calls.Ofproto.{
  AreProper, IsSafe, Goes, rm_bundle-Goes, bundle_set-Goes, find_bundle-IsFit, written, Goes-append,
}

-- The `intf_id`s of the bundles, in the order of the loop over them.
abbrev pub intf_ids : List FpaBundle → List ℕ
intf_ids [] = []
intf_ids (b ∷ bs) = b.base.intf_id ∷ intf_ids bs

module _ (F : Fpa) (O : Os) (key : HostKey) (E : Env) (inet_addr : Chars → ℕ) where
  abbrev State : Type 0
  State = OfprotoState F O key E inet_addr

  -- `ops_fpa_ofproto_set_vlan` on the ofproto.
  abbrev pub with_vlan : ℕ → Bool → State → State
  with_vlan vid add st =
      let new =
        set_vlan F st.switch_id vid add (intf_ids st.bundles)
          (record { hw = st.host.hw; ports = st.host.ports; vlans = st.vlans }) in
      record st { host = record st.host { hw = new.hw; ports = new.ports }; vlans = new.vlans }

  -- A host of a bundle deleted.
  abbrev pub without_host : FpaBundle → Bool → Option (ℕ × ℕ) → State → State
  without_host b v6 ip st =
      let (err, base, host) = delete_l3_host_entry F key b.base v6 ip st.host in
      record st { host = host; bundles = set_bundle (record b { base = base }) st.bundles }

  -- One call that returns: the settings of a bundle name a port below 2^16 and VLANs of 12 bits, a
  -- VLAN is not 0, and a host is reached over a port below 2^16.
  pub data Step (st t : State) : Type 0 where
    sets_bundle :
        (aux : ℕ) (set : BundleSettings) (r : ℕ × State)
        → AreProper set
        → bundle_set F O key E inet_addr aux (some set) st ≡ some r
        → t ≡ r.1
        → Step st t
    removes_bundle :
        (aux : ℕ) (r : ℕ × State)
        → bundle_set F O key E inet_addr aux none st ≡ some r
        → t ≡ r.1
        → Step st t
    sets_vlan : (vid : ℕ) (add : Bool) → 0 < vid → t ≡ with_vlan vid add st → Step st t
    adds_host :
        (aux : ℕ) (b : FpaBundle) (v6 : Bool) (ip : Option (ℕ × ℕ)) (mac : NextHopMac) (egress : ℕ)
        (r : HostResult F)
        → find_bundle aux st.bundles ≡ some b
        → IsSmallEgress F E b.base mac st.host
        → add_l3_host_entry F key E b.base v6 ip mac egress st.host ≡ some r
        → t ≡ record st {
          host = r.state;
          bundles = set_bundle (record b { base = r.bundle }) st.bundles;
        }
        → Step st t
    deletes_host :
        (aux : ℕ) (b : FpaBundle) (v6 : Bool) (ip : Option (ℕ × ℕ))
        → find_bundle aux st.bundles ≡ some b
        → t ≡ without_host b v6 ip st
        → Step st t
    routes :
        (action : RouteAction) (route : OfprotoRoute)
        → t ≡ record st { host = (l3_route_action F key st.switch_id action route st.host).1 }
        → Step st t

  pub data Reached (st : State) : State → Type 0 where
    start : Reached st st
    later : {t u : State} → Reached st t → Step t u → Reached st u

module _ (F : Fpa) (O : Os) (L : FlowLaws F) (G : GroupLaws F) (R : FrameLaws F L G)
    (I : IdentLaws F) (I3 : L3IdentLaws F) (key : HostKey) (E : Env) (inet_addr : Chars → ℕ) where
  abbrev Safe : OfprotoState F O key E inet_addr → Type 0
  Safe = IsSafe F O L G R I I3 key E inet_addr

  abbrev To : OfprotoState F O key E inet_addr → OfprotoState F O key E inet_addr → Type 0
  To = Goes F O L G R I I3 key E inet_addr

  no_vlan_0 :
      (vid : ℕ) (add : Bool) (st : OfprotoState F O key E inet_addr)
      → 0 < vid
      → st.vlans 0 ≡ false
      → (with_vlan F O key E inet_addr vid add st).vlans 0 ≡ false
  unfolding set_vlan
  no_vlan_0 vid add st v1 off = ground (
    arith,
    off,
    bundles-vlans F st.switch_id vid add (intf_ids st.bundles)
        (record { hw = st.host.hw; ports = st.host.ports; vlans = st.vlans }) 0,
  )

  with_vlan-Goes :
      (vid : ℕ) (add : Bool) (st : OfprotoState F O key E inet_addr)
      → 0 < vid
      → Safe st
      → To st (with_vlan F O key E inet_addr vid add st)
  with_vlan-Goes vid add st v1 safe =
      let pids = intf_ids st.bundles in
      let l2 : L2State F = record { hw = st.host.hw; ports = st.host.ports; vlans = st.vlans } in
      let goes = set_vlan-Goes F L G R I st.switch_id vid add pids l2 v1 safe.host.ports in
      record {
        calls = goes.calls;
        safe = record {
          host = record {
            ports = goes.small;
            indices = safe.host.indices;
            hosts = safe.host.hosts;
          };
          bundles = safe.bundles;
          no_vlan_0 = no_vlan_0 vid add st v1 safe.no_vlan_0;
        };
        separate = unmoved F st.host (with_vlan F O key E inet_addr vid add st).host refl refl;
      }

  removed :
      (aux : ℕ) (st : OfprotoState F O key E inet_addr) (r : ℕ × OfprotoState F O key E inet_addr)
      → bundle_set F O key E inet_addr aux none st ≡ some r
      → Safe st
      → To st r.1
  unfolding bundle_set
  removed aux st r h safe =
      let same : rm_bundle F O key E inet_addr aux st ≡ r = ground (arith, h) in
      subst (λ (x : ℕ × OfprotoState F O key E inet_addr). To st x.1) same
        (rm_bundle-Goes F O L G R I I3 key E inet_addr aux st safe)

  added :
      (aux : ℕ) (b : FpaBundle) (v6 : Bool) (ip : Option (ℕ × ℕ)) (mac : NextHopMac) (egress : ℕ)
      (st : OfprotoState F O key E inet_addr) (r : HostResult F)
      → find_bundle aux st.bundles ≡ some b
      → IsSmallEgress F E b.base mac st.host
      → add_l3_host_entry F key E b.base v6 ip mac egress st.host ≡ some r
      → Safe st
      → To st (record st {
        host = r.state;
        bundles = set_bundle (record b { base = r.bundle }) st.bundles;
      })
  added aux b v6 ip mac egress st r found small h safe =
      let fit = find_bundle-IsFit aux b st.bundles found safe.bundles in
      let goes =
        add_l3_host_entry-BundleGoes F L G R I I3 key E b.base v6 ip mac egress st.host r h small
          safe.host fit.routed in
      let id = add_l3_host_entry-intf_id F key E b.base v6 ip mac egress st.host r h in
      written F O L G R I I3 key E inet_addr st (record b { base = r.bundle }) r.state goes.host
        (record { port = rw id fit.port; routed = goes.routed }) safe

  deleted :
      (aux : ℕ) (b : FpaBundle) (v6 : Bool) (ip : Option (ℕ × ℕ))
      (st : OfprotoState F O key E inet_addr)
      → find_bundle aux st.bundles ≡ some b
      → Safe st
      → To st (without_host F O key E inet_addr b v6 ip st)
  deleted aux b v6 ip st found safe =
      let fit = find_bundle-IsFit aux b st.bundles found safe.bundles in
      let done = delete_l3_host_entry F key b.base v6 ip st.host in
      let goes =
        delete_l3_host_entry-BundleGoes F L G R I I3 key b.base v6 ip st.host safe.host
          fit.routed in
      let id = delete_l3_host_entry-intf_id F L G R I I3 key b.base v6 ip st.host in
      written F O L G R I I3 key E inet_addr st (record b { base = done.1 }) done.2 goes.host
        (record { port = rw id fit.port; routed = goes.routed }) safe

  routed :
      (action : RouteAction) (route : OfprotoRoute) (st : OfprotoState F O key E inet_addr)
      → Safe st
      → To st (record st { host = (l3_route_action F key st.switch_id action route st.host).1 })
  routed action route st safe =
      let goes =
        l3_route_action-HostGoes F L G R I I3 key st.switch_id action route st.host safe.host in
      record {
        calls = goes.calls;
        safe = record { host = goes.bounded; bundles = safe.bundles; no_vlan_0 = safe.no_vlan_0 };
        separate = goes.separate;
      }

  Step-Goes :
      (st t : OfprotoState F O key E inet_addr) → Step F O key E inet_addr st t → Safe st → To st t
  Step-Goes st t (Step.sets_bundle aux set r proper h e) safe =
      subst (To st) (sym e)
        (bundle_set-Goes F O L G R I I3 key E inet_addr aux set st r h proper safe)
  Step-Goes st t (Step.removes_bundle aux r h e) safe =
      subst (To st) (sym e) (removed aux st r h safe)
  Step-Goes st t (Step.sets_vlan vid add v1 e) safe =
      subst (To st) (sym e) (with_vlan-Goes vid add st v1 safe)
  Step-Goes st t (Step.adds_host aux b v6 ip mac egress r found small h e) safe =
      subst (To st) (sym e) (added aux b v6 ip mac egress st r found small h safe)
  Step-Goes st t (Step.deletes_host aux b v6 ip found e) safe =
      subst (To st) (sym e) (deleted aux b v6 ip st found safe)
  Step-Goes st t (Step.routes action route e) safe =
      subst (To st) (sym e) (routed action route st safe)

  Reached-Goes :
      (st t : OfprotoState F O key E inet_addr)
      → Reached F O key E inet_addr st t
      → Safe st
      → To st t
  Reached-Goes st t Reached.start safe = record {
    calls = Calls.start;
    safe = safe;
    separate = λ s. s;
  }
  Reached-Goes st u (Reached.later {t = t} path step) safe =
      let before = Reached-Goes st t path safe in
      Goes-append F O L G R I I3 key E inet_addr st t u before (Step-Goes t u step before.safe)

  -- Whatever the bridge asks of an ofproto in whatever order - bundles with proper settings set
  -- and removed, VLANs other than 0 switched on and off, hosts added over ports below 2^16 and
  -- deleted, routes added and deleted - and whether the library accepts the single calls or not,
  -- as long as each call returns: from an ofproto whose port numbers, next-hop indices and groups
  -- of hosts are within their bounds and on which VLAN 0 is not enabled, over switches on which
  -- the VLAN and group tables have the form that deletion relies on and the groups are in order,
  -- the same holds of the ofproto and of every switch afterwards.
  pub Reached-IsSafe :
      (st t : OfprotoState F O key E inet_addr)
      → Reached F O key E inet_addr st t
      → IsSafe F O L G R I I3 key E inet_addr st
      → IsSound F L G R I st.host.hw
      → IsSafe F O L G R I I3 key E inet_addr t × IsSound F L G R I t.host.hw
  Reached-IsSafe st t path safe sound =
      let goes = Reached-Goes st t path safe in
      (goes.safe, Calls-IsSound F L G R I st.host.hw t.host.hw goes.calls sound)

  -- Whatever the bridge asks of an ofproto in whatever order, and whether the library accepts the
  -- single calls or not, as long as each call returns, from a safe ofproto on: if no next-hop
  -- index is both free and a host's and no two hosts share one, the same holds afterwards.
  pub Reached-AreSeparate :
      (st t : OfprotoState F O key E inet_addr)
      → Reached F O key E inet_addr st t
      → IsSafe F O L G R I I3 key E inet_addr st
      → AreSeparate F st.host
      → AreSeparate F t.host
  Reached-AreSeparate st t path safe = (Reached-Goes st t path safe).separate
