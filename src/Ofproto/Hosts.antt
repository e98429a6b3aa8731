-- ===== src/Ofproto/Hosts.antt =====
-- Hosts and routes of src/ops-fpa-ofproto.c. An address comes as `ops_fpa_str2ip` reads it, `none`
-- where that fails; an `in_addr_t` is a number, and an allocation succeeds. A function returns
-- `none` where it follows a NULL pointer.
pub mod Owned
pub mod Indices
pub mod Separate
pub mod Routes
pub mod Undo
use switchd_fpa_plugin.Prelude.{
  ℕ, ◌+◌, ◌%◌, Bool, true, false, not, ◌&&◌, Option, none, some, List, [], ◌∷◌, ◌==◌, ltb,
  if◌then◌else◌, find, get_elem?,
}
use switchd_fpa_plugin.Prelude.Bitmap.{Bitmap}
use switchd_fpa_plugin.Hmap.{Hmap}
use switchd_fpa_plugin.Fpa.{Fpa}
use switchd_fpa_plugin.Route.{
  add_l2_group, add_l3_group, add_route, add_route_trap, del_route, del_group,
}
use switchd_fpa_plugin.Routing.{L3Intf, disable_routing}
use switchd_fpa_plugin.MacLearning.{MacLearning, Env, entry_at, lookup_by_vlan_and_mac}
use switchd_fpa_plugin.Ofproto.Ports.{Ofport, PortMap, get_ofport_by_pid}
use switchd_fpa_plugin.Ofproto.ArpIndices.{alloc_arp_index, release_arp_index}
use switchd_fpa_plugin.Prelude.Errno.{einval}

-- `struct host_table_entry`.
pub record HostEntry : Type 0 where
  pub ipv4_addr : ℕ
  pub arp_index : ℕ
  pub l3_group : ℕ
  pub l2_group : ℕ

-- The part of `struct fpa_bundle` that these functions use.
pub record Bundle : Type 0 where
  pub intf_id : ℕ
  pub l3_intf : Option L3Intf

-- `next_hop_mac_addr`: NULL, a string that `eth_addr_from_string` refuses, or an address.
pub data NextHopMac : Type 0 where
  null bad : NextHopMac
  eth_addr : ℕ → NextHopMac

-- A host table entry and its node's hash.
pub record HostNode : Type 0 where
  pub hash : ℕ
  pub entry : HostEntry

-- `enum ofproto_route_action` and the part of `struct ofproto_route` that is read.
pub data RouteAction : Type 0 where
  route_add route_delete route_delete_nh route_other : RouteAction

pub record NextHop : Type 0 where
  pub resolved : Bool
  pub id : Option (ℕ × ℕ)

pub record OfprotoRoute : Type 0 where
  pub is_ipv4 : Bool
  pub prefix : Option (ℕ × ℕ)
  pub n_nexthops : ℕ
  pub nexthop : NextHop

-- What the host table takes from elsewhere: `hash_bytes` of an address, and the hash map.
pub record HostKey : Type 1 where
  pub hash : ℕ → ℕ
  pub hmap : Hmap

-- The number of buckets less 1 and the nodes.
unfoldable pub host_table_add : HostKey → ℕ → ℕ → ℕ → ℕ → ℕ → List HostNode → ℕ × List HostNode
host_table_add key ipv4_addr arp_index l3_group l2_group mask table =
    key.hmap.insert (λ n. n.hash) mask
      (record {
        hash = key.hash ipv4_addr;
        entry = record {
          ipv4_addr = ipv4_addr;
          arp_index = arp_index;
          l3_group = l3_group;
          l2_group = l2_group;
        };
      })
      table

abbrev pub is_host : HostKey → ℕ → HostNode → Bool
is_host key ipv4_addr n = n.hash == key.hash ipv4_addr && n.entry.ipv4_addr == ipv4_addr

unfoldable pub host_table_find : HostKey → ℕ → List HostNode → Option HostEntry
host_table_find key ipv4_addr table = elim (find (is_host key ipv4_addr) table) [
  | none ↦ none
  | some n ↦ some n.entry
]

-- `host_table_delete` of the entry that `host_table_find` returns.
unfoldable pub host_table_delete : HostKey → ℕ → List HostNode → List HostNode
host_table_delete key ipv4_addr [] = []
host_table_delete key ipv4_addr (n ∷ ns) =
    if is_host key ipv4_addr n then ns else n ∷ host_table_delete key ipv4_addr ns

-- Decrementing an `unsigned long`.
abbrev pub dec_ulong : ℕ → ℕ
dec_ulong n = (n + 0xffffffffffffffff) % 0x10000000000000000

module _ (F : Fpa) where
  -- The globals that these functions use; `ml` is NULL where `ops_fpa_dev_by_id` finds no device.
  pub record HostState : Type 0 where
    pub hw : F.Hw
    pub internal_vlans : Bitmap
    pub ports : PortMap
    pub ml : Option MacLearning
    pub arp_indices : List ℕ
    -- The number of buckets of the map less 1, and its nodes.
    pub host_mask : ℕ
    pub host_table : List HostNode

  -- The status, `*l3_egress_id`, the bundle and the globals.
  pub record HostResult : Type 0 where
    pub err : ℕ
    pub l3_egress_id : ℕ
    pub bundle : Bundle
    pub state : HostState

  -- From the L2 group on: the groups, the index and the route of a host.
  unfoldable pub install_host : HostKey → L3Intf → ℕ → ℕ → ℕ → ℕ → ℕ → HostState → ℕ × HostState
  unfolding add_l2_group add_l3_group add_route del_group alloc_arp_index host_table_add
  install_host key intf egress mtu src_mac dst_mac ipv4_addr st =
      let sid = intf.switch_id in
      let (err2, l2_group, hw1) = add_l2_group F sid egress intf.vlan_id false st.hw in
      if err2 == 0
      then (elim (alloc_arp_index st.arp_indices) [
        | none ↦ (einval, record st { hw = (del_group F sid l2_group hw1).1 })
        | some r ↦
            let (err3, l3_group, hw2) =
              add_l3_group F sid l2_group r.0 intf.vlan_id mtu src_mac dst_mac hw1 in
            let (err4, hw3) = add_route F sid l3_group ipv4_addr 32 hw2 in
            let st1 = record st { arp_indices = r.1 } in
            if err3 == 0
            then (if err4 == 0
                then (
                  0,
                  record st1 {
                    hw = hw3;
                    host_mask =
                        (host_table_add key ipv4_addr r.0 l3_group l2_group st.host_mask
                          st.host_table).0;
                    host_table =
                        (host_table_add key ipv4_addr r.0 l3_group l2_group st.host_mask
                          st.host_table).1;
                  },
                )
                else (
                  einval,
                  record st1 { hw = (del_group F sid l3_group (del_group F sid l2_group hw3).1).1 },
                ))
            else (einval, record st1 { hw = (del_group F sid l2_group hw2).1 })
      ])
      else (einval, record st { hw = hw1 })

  -- `*l3_egress_id`, or the status with which the function returns; `none` where no learned address
  -- is found, which the function does not test.
  unfoldable pub find_egress : Env → L3Intf → ℕ → HostState → Option (ℕ × ℕ)
  unfolding lookup_by_vlan_and_mac
  find_egress E intf dst_mac st =
      if st.internal_vlans intf.vlan_id then some (0, intf.intf_id) else (elim st.ml [
        | none ↦ some (F.bad_param, 0)
        | some ml ↦
            elim (lookup_by_vlan_and_mac E intf.switch_id st.ports ml intf.vlan_id dst_mac) [
              | none ↦ none
              | some i ↦ elim (entry_at ml.table i) [
                | none ↦ none
                | some e ↦ some (0, e.fdb_entry.port_num)
              ]
            ]
      ])

  -- The number of routes of a bundle's interface goes up.
  abbrev pub count_route : L3Intf → L3Intf
  count_route intf = record intf { routes_count = (intf.routes_count + 1) % 0x10000000000000000 }

  -- The address, which has to be that of a host.
  unfoldable pub host_of : Option (ℕ × ℕ) → Option ℕ
  host_of none = none
  host_of (some r) = if r.1 == 32 then some r.0 else none

  abbrev pub refuse : ℕ → ℕ → Bundle → HostState → HostResult
  refuse err egress bundle st = record {
    err = err;
    l3_egress_id = egress;
    bundle = bundle;
    state = st;
  }

  -- `add_l3_host_entry`, with the bundle that `ops_fpa_find_bundle` returns.
  unfoldable pub add_l3_host_entry :
      HostKey
      → Env
      → Bundle
      → Bool
      → Option (ℕ × ℕ)
      → NextHopMac
      → ℕ
      → HostState
      → Option HostResult
  unfolding install_host find_egress get_ofport_by_pid host_of
  add_l3_host_entry key E bundle is_ipv6 ip_addr NextHopMac.null egress st =
      some (refuse einval egress bundle st)
  add_l3_host_entry key E bundle is_ipv6 ip_addr NextHopMac.bad egress st =
      if is_ipv6 then some (refuse einval egress bundle st) else (elim bundle.l3_intf [
        | none ↦ some (refuse einval egress bundle st)
        | some intf ↦ elim (get_ofport_by_pid st.ports bundle.intf_id) [
          | none ↦ none
          | some port ↦ some (refuse einval egress bundle st)
        ]
      ])
  add_l3_host_entry key E bundle is_ipv6 ip_addr (NextHopMac.eth_addr dst_mac) egress st =
      if is_ipv6 then some (refuse einval egress bundle st) else (elim bundle.l3_intf [
        | none ↦ some (refuse einval egress bundle st)
        | some intf ↦ elim (get_ofport_by_pid st.ports bundle.intf_id) [
          | none ↦ none
          | some port ↦ elim (find_egress E intf dst_mac st) [
            | none ↦ none
            | some out ↦
                if out.0 == 0
                then (elim (host_of ip_addr) [
                  | none ↦ some (refuse einval out.1 bundle st)
                  | some ipv4_addr ↦
                      let (err, st1) =
                        install_host key intf out.1 port.mtu port.mac dst_mac ipv4_addr st in
                      some (
                        refuse err out.1
                          (if err == 0
                            then record bundle { l3_intf = some (count_route intf) }
                            else bundle)
                          st1)
                ])
                else some (refuse out.0 egress bundle st)
          ]
        ]
      ])

  -- What is left of an interface after a route of it has gone.
  unfoldable pub uncount_route : L3Intf → Bundle → HostState → Bundle × HostState
  unfolding disable_routing
  uncount_route intf bundle st =
      let intf1 = record intf { routes_count = dec_ulong intf.routes_count } in
      let vs =
        disable_routing F intf1 (record { hw = st.hw; internal_vlans = st.internal_vlans }) in
      if intf1.routes_count == 0
      then (
        record bundle { l3_intf = none },
        record st { hw = vs.hw; internal_vlans = vs.internal_vlans },
      )
      else (record bundle { l3_intf = some intf1 }, st)

  unfoldable pub remove_host : HostKey → ℕ → HostEntry → HostState → HostState
  unfolding del_route del_group release_arp_index host_table_delete
  remove_host key sid entry st =
      let hw1 = (del_route F sid entry.ipv4_addr 32 st.hw).1 in
      let hw2 = (del_group F sid entry.l3_group hw1).1 in
      record st {
        hw = (del_group F sid entry.l2_group hw2).1;
        arp_indices = release_arp_index entry.arp_index st.arp_indices;
        host_table = host_table_delete key entry.ipv4_addr st.host_table;
      }

  unfoldable pub delete_l3_host_entry :
      HostKey → Bundle → Bool → Option (ℕ × ℕ) → HostState → ℕ × Bundle × HostState
  unfolding host_table_find remove_host uncount_route host_of
  delete_l3_host_entry key bundle is_ipv6 ip_addr st =
      if is_ipv6 then (einval, bundle, st) else (elim bundle.l3_intf [
        | none ↦ (einval, bundle, st)
        | some intf ↦ elim (host_of ip_addr) [
          | none ↦ (einval, bundle, st)
          | some ipv4_addr ↦ elim (host_table_find key ipv4_addr st.host_table) [
            | none ↦ (einval, bundle, st)
            | some entry ↦
                let (bundle1, st1) =
                  uncount_route intf bundle (remove_host key intf.switch_id entry st) in
                (0, bundle1, st1)
          ]
        ]
      ])

  -- The status, and `*hit_bit` where that is 0.
  unfoldable pub get_l3_host_hit : HostKey → ℕ → Bool → Option (ℕ × ℕ) → HostState → ℕ × Bool
  unfolding host_table_find host_of
  get_l3_host_hit key sid is_ipv6 ip_addr st =
      if is_ipv6 then (einval, false) else (elim (host_of ip_addr) [
        | none ↦ (einval, false)
        | some ipv4_addr ↦ elim (host_table_find key ipv4_addr st.host_table) [
          | none ↦ (einval, false)
          | some entry ↦
              let (err, reference_count) = F.group_entry_statistics_get sid entry.l3_group st.hw in
              if err == 0 then (0, ltb 1 reference_count) else (einval, false)
        ]
      ])

  -- A route is replaced by a delete and an add.
  unfoldable pub route_to_host : HostKey → ℕ → ℕ → ℕ → Option (ℕ × ℕ) → HostState → ℕ × HostState
  unfolding host_table_find del_route add_route
  route_to_host key sid ipv4 mask_len none st = (einval, st)
  route_to_host key sid ipv4 mask_len (some host) st =
      elim (host_table_find key host.0 st.host_table) [
        | none ↦ (einval, st)
        | some entry ↦
            let hw1 = (del_route F sid ipv4 mask_len st.hw).1 in
            let (err, hw2) = add_route F sid entry.l3_group ipv4 mask_len hw1 in
            (if err == 0 then 0 else einval, record st { hw = hw2 })
      ]

  unfoldable pub route_to_cpu : ℕ → ℕ → ℕ → HostState → ℕ × HostState
  unfolding del_route add_route_trap
  route_to_cpu sid ipv4 mask_len st =
      let hw1 = (del_route F sid ipv4 mask_len st.hw).1 in
      let (err, hw2) = add_route_trap F sid ipv4 mask_len hw1 in
      (if err == 0 then 0 else einval, record st { hw = hw2 })

  unfoldable pub l3_route_action :
      HostKey → ℕ → RouteAction → OfprotoRoute → HostState → ℕ × HostState
  unfolding route_to_host route_to_cpu del_route
  l3_route_action key sid action route st =
      if route.is_ipv4
      then (elim route.prefix [
        | none ↦ (einval, st)
        | some p ↦ elim action [
          | route_add ↦
              if route.n_nexthops == 1
              then (if route.nexthop.resolved
                  then route_to_host key sid p.0 p.1 route.nexthop.id st
                  else route_to_cpu sid p.0 p.1 st)
              else (einval, st)
          | route_delete ↦ (0, record st { hw = (del_route F sid p.0 p.1 st.hw).1 })
          | route_delete_nh ↦ (einval, st)
          | route_other ↦ (einval, st)
        ]
      ])
      else (einval, st)
