-- ===== src/Ofproto/Bundles/Set.antt =====
-- `ops_fpa_ofproto_bundle_set` of src/ops-fpa-ofproto.c.
use switchd_fpa_plugin.Ofproto.Hosts.{HostKey}
use switchd_fpa_plugin.Prelude.{
  ℕ, Bool, true, false, not, ◌&&◌, Option, none, some, List, [], ◌∷◌, ◌==◌, if◌then◌else◌,
}
use switchd_fpa_plugin.Prelude.Bitmap.{Bitmap}
use switchd_fpa_plugin.Fpa.{Fpa}
use switchd_fpa_plugin.Os.{Name, Os}
use switchd_fpa_plugin.Vlan.{VlanState}
use switchd_fpa_plugin.Routing.{
  L3Intf, disable_routing, enable_routing_interface, enable_routing_vlan,
}
use switchd_fpa_plugin.Strings.{Chars}
use switchd_fpa_plugin.Netdev.{NetdevClass, bytes_eq}
use switchd_fpa_plugin.Tap.Interfaces.{bridge_port_add, bridge_port_rm}
use switchd_fpa_plugin.MacLearning.{Env}
use switchd_fpa_plugin.Ofproto.Ports.{Ofport, PortMap, get_ofport_by_pid, insert_ofport, set_ofport}
use switchd_fpa_plugin.Ofproto.Vlans.{reconfigure}
use switchd_fpa_plugin.Ofproto.Hosts.{HostState}
use switchd_fpa_plugin.Ofproto.Bundles.{
  FpaBundle, OfprotoType, BundleSettings, find_bundle, set_bundle, remove_bundle,
  bundle_ip_reconfigure,
}
use switchd_fpa_plugin.Prelude.Errno.{efault, einval, enosys}

module _ (F : Fpa) (O : Os) (key : HostKey) (E : Env) (inet_addr : Chars → ℕ) where
  -- An ofproto with the globals.
  pub record OfprotoState : Type 0 where
    pub kind : OfprotoType
    pub name : Name
    pub switch_id : ℕ
    pub vlans : Bitmap
    pub bundles : List FpaBundle
    pub host : HostState F
    pub world : O.World

  abbrev pub vlan_state : HostState F → VlanState F
  vlan_state st = record { hw = st.hw; internal_vlans = st.internal_vlans }

  abbrev pub with_vlan_state : VlanState F → HostState F → HostState F
  with_vlan_state vs st = record st { hw = vs.hw; internal_vlans = vs.internal_vlans }

  -- Routing goes with an interface that is there.
  unfoldable pub stop_routing : Option L3Intf → HostState F → HostState F
  stop_routing none st = st
  stop_routing (some intf) st = with_vlan_state (disable_routing F intf (vlan_state st)) st

  unfoldable pub rm_bundle : ℕ → OfprotoState → ℕ × OfprotoState
  unfolding find_bundle remove_bundle stop_routing
  rm_bundle aux st = elim (find_bundle aux st.bundles) [
    | none ↦ (efault, st)
    | some b ↦ (
      0,
      record st {
        host = stop_routing b.base.l3_intf st.host;
        bundles = remove_bundle aux st.bundles;
      },
    )
  ]

  abbrev pub pid_of : Option (Ofport × NetdevClass) → ℕ
  pid_of none = F.invalid_intf_id
  pid_of (some p) = p.0.pid

  -- A bundle is created, its port gets its number, and its interface joins or leaves the bridge.
  unfoldable pub create_bundle : ℕ → BundleSettings → OfprotoState → FpaBundle × OfprotoState
  unfolding insert_ofport bridge_port_add bridge_port_rm
  create_bundle aux set st =
      let b : FpaBundle = record {
        aux = aux;
        name = none;
        base = record { intf_id = pid_of set.slave; l3_intf = none };
        ip4addr = none;
        secondary_ip4addr = [];
      } in
      let ports : PortMap = elim set.slave [
        | none ↦ st.host.ports
        | some p ↦
            if p.0.pid == F.invalid_intf_id
            then st.host.ports
            else insert_ofport E.hmap st.host.ports p.0.pid p.0
      ] in
      let w : O.World = elim st.kind [
        | OfprotoType.system ↦ (bridge_port_add O set.name st.world).1
        | OfprotoType.vrf ↦ (bridge_port_rm O set.name st.world).1
        | OfprotoType.other ↦ st.world
      ] in
      (
        b,
        record st { bundles = b ∷ st.bundles; host = record st.host { ports = ports }; world = w },
      )

  -- The VLAN on which a bundle of a VRF routes, or the status with which the function ends.
  pub data RoutedVlan : Type 0 where
    vlan : ℕ → RoutedVlan
    done : ℕ → RoutedVlan

  abbrev pub routed_vlan : NetdevClass → BundleSettings → RoutedVlan
  routed_vlan NetdevClass.system set = vlan set.internal_vlan_id
  routed_vlan NetdevClass.internal set = vlan set.vlans.vlan
  routed_vlan NetdevClass.loopback set = done 0
  routed_vlan NetdevClass.vlansubint set = done enosys

  -- An interface that is disabled and has no route stops routing.
  unfoldable pub l3_disable : Bool → FpaBundle → HostState F → FpaBundle × HostState F
  unfolding stop_routing
  l3_disable enable b st = elim b.base.l3_intf [
    | none ↦ (b, st)
    | some intf ↦
        if not enable && intf.routes_count == 0
        then (record b { base = record b.base { l3_intf = none } }, stop_routing (some intf) st)
        else (b, st)
  ]

  -- Routing starts where it is wanted; the status is not 0 where the whole function ends.
  unfoldable pub l3_enable :
      ℕ → NetdevClass → ℕ → ℕ → FpaBundle → HostState F → ℕ × FpaBundle × HostState F
  l3_enable sid NetdevClass.system vlan_id mac b st =
      let (intf, vs) = enable_routing_interface F sid b.base.intf_id vlan_id mac (vlan_state st) in
      let b1 = record b { base = record b.base { l3_intf = intf } } in
      elim intf [
        | none ↦ (einval, b1, with_vlan_state vs st)
        | some i ↦ (0, b1, with_vlan_state vs st)
      ]
  l3_enable sid NetdevClass.internal vlan_id mac b st =
      let (intf, hw) = enable_routing_vlan F sid vlan_id mac st.hw in
      (0, record b { base = record b.base { l3_intf = intf } }, record st { hw = hw })
  l3_enable sid NetdevClass.vlansubint vlan_id mac b st = (enosys, b, st)
  l3_enable sid NetdevClass.loopback vlan_id mac b st = (einval, b, st)

  -- The part of `ops_fpa_ofproto_bundle_set` for the type "vrf".
  unfoldable pub set_l3 :
      BundleSettings → ℕ → FpaBundle → HostState F → Option (ℕ × FpaBundle × HostState F)
  unfolding l3_disable l3_enable bundle_ip_reconfigure
  set_l3 set sid b st = elim set.slave [
    | none ↦ some (0, b, st)
    | some (port, class) ↦ elim (routed_vlan class set) [
      | done err ↦ some (err, b, st)
      | vlan vlan_id ↦
          let (b1, st1) = l3_disable set.enable b st in
          let no_intf : Bool = elim b1.base.l3_intf [ none ↦ true | some i ↦ false ] in
          let started =
            if not (vlan_id == 0) && no_intf && set.enable
            then l3_enable sid class vlan_id port.mac b1 st1
            else (0, b1, st1) in
          if started.0 == 0
          then (elim (bundle_ip_reconfigure F key E inet_addr set.ip started.1 started.2) [
            | none ↦ none
            | some r ↦ some (0, r.0, r.1)
          ])
          else some started
    ]
  ]

  -- The part for the other types.
  unfoldable pub set_l2 :
      BundleSettings → OfprotoState → FpaBundle → HostState F → Option (HostState F)
  unfolding get_ofport_by_pid set_ofport
  set_l2 set this b st =
      if b.base.intf_id == F.invalid_intf_id
      then some st
      else if bytes_eq this.name set.name
      then some st
      else (elim (get_ofport_by_pid st.ports b.base.intf_id) [
        | none ↦ none
        | some port ↦
            let new = reconfigure F this.switch_id port this.vlans set.vlans st.hw in
            some (record st {
              hw = new.hw;
              ports = set_ofport st.ports b.base.intf_id (record port { vmap = new.vmap });
            })
      ])

  -- The bundle is there, and has its name.
  unfoldable pub configure : BundleSettings → FpaBundle → OfprotoState → Option (ℕ × OfprotoState)
  unfolding set_l3 set_l2 set_bundle
  configure set b st =
      let l2 : Option (ℕ × OfprotoState) = elim (set_l2 set st b st.host) [
        | none ↦ none
        | some host ↦ some (0, record st { host = host; bundles = set_bundle b st.bundles })
      ] in
      elim st.kind [
        | OfprotoType.vrf ↦ elim (set_l3 set st.switch_id b st.host) [
          | none ↦ none
          | some r ↦ some (r.0, record st { host = r.2; bundles = set_bundle r.1 st.bundles })
        ]
        | OfprotoType.system ↦ l2
        | OfprotoType.other ↦ l2
      ]

  unfoldable pub bundle_set : ℕ → Option BundleSettings → OfprotoState → Option (ℕ × OfprotoState)
  unfolding rm_bundle find_bundle create_bundle configure
  bundle_set aux none st = some (rm_bundle aux st)
  bundle_set aux (some set) st =
      let made = create_bundle aux set st in
      if set.n_slaves == 1
      then (elim (find_bundle aux st.bundles) [
        | none ↦ configure set (record made.0 { name = some set.name }) made.1
        | some b ↦ configure set (record b { name = some set.name }) st
      ])
      else some (einval, st)
