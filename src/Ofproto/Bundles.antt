-- ===== src/Ofproto/Bundles.antt =====
-- Bundles of src/ops-fpa-ofproto.c and their IP addresses. What is freed or logged is left out;
-- `none` is a NULL pointer that is followed.
pub mod Set
pub mod Addresses
pub mod Found
pub mod Configure
pub mod L2
pub mod L3
use switchd_fpa_plugin.Ofproto.Hosts.{HostKey}
use switchd_fpa_plugin.Prelude.{
  ℕ, zero, suc, Bool, true, false, not, ◌&&◌, ◌||◌, Option, none, some, List, [], ◌∷◌, ◌==◌,
  if◌then◌else◌, any, keep, find,
}
use switchd_fpa_plugin.Prelude.Bitmap.{Bitmap, empty}
use switchd_fpa_plugin.Fpa.{Fpa}
use switchd_fpa_plugin.Os.{Name, Os}
use switchd_fpa_plugin.Vlan.{VlanState}
use switchd_fpa_plugin.Routing.{
  L3Intf, disable_routing, enable_routing_interface, enable_routing_vlan,
}
use switchd_fpa_plugin.Strings.{Chars, ℤ, str2ip}
use switchd_fpa_plugin.Netdev.{NetdevClass, bytes_eq, to_word}
use switchd_fpa_plugin.Tap.Interfaces.{bridge_port_add, bridge_port_rm}
use switchd_fpa_plugin.MacLearning.{Env}
use switchd_fpa_plugin.Ofproto.Ports.{Ofport, PortMap, get_ofport_by_pid, insert_ofport, set_ofport}
use switchd_fpa_plugin.Ofproto.Vlans.{VlanSettings, PortState, reconfigure}
use switchd_fpa_plugin.Ofproto.Hosts.{
  Bundle, NextHopMac, HostState, HostResult, add_l3_host_entry, delete_l3_host_entry,
}

-- `struct fpa_bundle`; `base` has the members that the hosts use.
pub record FpaBundle : Type 0 where
  pub aux : ℕ
  pub name : Option Name
  pub base : Bundle
  pub ip4addr : Option Chars
  pub secondary_ip4addr : List Chars

-- The part of `struct ofproto_bundle_settings` that says what becomes of the addresses.
pub record IpSettings : Type 0 where
  pub primary_ipv4_changed : Bool
  pub secondary_ipv4_changed : Bool
  pub ip4_address : Option Chars
  pub ip4_address_secondary : List Chars

-- The type of an ofproto.
pub data OfprotoType : Type 0 where
  system vrf other : OfprotoType

-- The settings; `internal_vlan_id` is that of the port's options, `slave` the port that
-- `ofproto_get_port` finds for the first slave, with the class of its netdev.
pub record BundleSettings : Type 0 where
  pub name : Name
  pub n_slaves : ℕ
  pub slave : Option (Ofport × NetdevClass)
  pub vlans : VlanSettings
  pub internal_vlan_id : ℕ
  pub enable : Bool
  pub ip : IpSettings

abbrev pub has_aux : ℕ → FpaBundle → Bool
has_aux aux b = b.aux == aux

-- `ops_fpa_find_bundle`.
unfoldable pub find_bundle : ℕ → List FpaBundle → Option FpaBundle
find_bundle aux bundles = find (has_aux aux) bundles

-- A write through the pointer that it returns, and `hmap_remove` of that bundle.
unfoldable pub set_bundle : FpaBundle → List FpaBundle → List FpaBundle
set_bundle b [] = []
set_bundle b (x ∷ xs) = if has_aux b.aux x then b ∷ xs else x ∷ set_bundle b xs

unfoldable pub remove_bundle : ℕ → List FpaBundle → List FpaBundle
remove_bundle aux [] = []
remove_bundle aux (x ∷ xs) = if has_aux aux x then xs else x ∷ remove_bundle aux xs

abbrev pub mem_name : Chars → List Chars → Bool
mem_name s names = any (bytes_eq s) names

-- `shash_add_once` of each address, so that a name stands once.
unfoldable pub once : List Chars → List Chars → List Chars
once [] seen = seen
once (s ∷ names) seen = once names (if mem_name s seen then seen else s ∷ seen)

module _ (F : Fpa) (key : HostKey) (E : Env) (inet_addr : Chars → ℕ) where
  -- `ops_fpa_str2ip`, the length as its bit pattern.
  unfoldable pub parse : Chars → Option (ℕ × ℕ)
  unfolding str2ip
  parse s = elim (str2ip inet_addr s) [ none ↦ none | some (a, len) ↦ some (a, to_word len) ]

  -- The calls write to the bundle's `intf_id`.
  unfoldable pub add_ip : Chars → FpaBundle → HostState F → Option (FpaBundle × HostState F)
  unfolding add_l3_host_entry parse
  add_ip address b st =
      elim (add_l3_host_entry F key E b.base false (parse address) NextHopMac.null b.base.intf_id
        st) [
          | none ↦ none
          | some r ↦
              some (record b { base = record r.bundle { intf_id = r.l3_egress_id } }, r.state)
        ]

  unfoldable pub delete_ip : Chars → FpaBundle → HostState F → FpaBundle × HostState F
  unfolding delete_l3_host_entry parse
  delete_ip address b st =
      let (err, base, st1) = delete_l3_host_entry F key b.base false (parse address) st in
      (record b { base = base }, st1)

  -- The two loops of `bundle_ipv4_secondary_reconfigure`. Both pass the primary address.
  unfoldable pub drop_secondary :
      List Chars → List Chars → FpaBundle → HostState F → Option (FpaBundle × HostState F)
  unfolding delete_ip
  drop_secondary new [] b st = some (b, st)
  drop_secondary new (s ∷ old) b st = elim b.ip4addr [
    | none ↦ let rest = drop_secondary new old b st in if mem_name s new then rest else none
    | some primary ↦
        let gone = record b {
          secondary_ip4addr = keep (λ t. not (bytes_eq s t)) b.secondary_ip4addr;
        } in
        let (b1, st1) = delete_ip primary gone st in
        let stays = mem_name s new in
        drop_secondary new old (if stays then b else b1) (if stays then st else st1)
  ]

  unfoldable pub add_secondary :
      List Chars → FpaBundle → HostState F → Option (FpaBundle × HostState F)
  unfolding add_ip
  add_secondary [] b st = some (b, st)
  add_secondary (s ∷ new) b st =
      let added : Option (FpaBundle × HostState F) = elim b.ip4addr [
        | none ↦ none
        | some primary ↦
            add_ip primary (record b { secondary_ip4addr = s ∷ b.secondary_ip4addr }) st
      ] in
      elim (if mem_name s b.secondary_ip4addr then some (b, st) else added) [
        | none ↦ none
        | some r ↦ add_secondary new r.0 r.1
      ]

  unfoldable pub bundle_ipv4_secondary_reconfigure :
      IpSettings → FpaBundle → HostState F → Option (FpaBundle × HostState F)
  unfolding once drop_secondary add_secondary
  bundle_ipv4_secondary_reconfigure set b st =
      let new = once set.ip4_address_secondary [] in
      elim (drop_secondary new b.secondary_ip4addr b st) [
        | none ↦ none
        | some r ↦ add_secondary new r.0 r.1
      ]

  unfoldable pub primary_reconfigure :
      Option Chars → Option Chars → FpaBundle → HostState F → Option (FpaBundle × HostState F)
  unfolding add_ip delete_ip
  primary_reconfigure none none b st = some (b, st)
  primary_reconfigure none (some old) b st =
      let (b1, st1) = delete_ip old b st in some (record b1 { ip4addr = none }, st1)
  primary_reconfigure (some new) none b st = add_ip new (record b { ip4addr = some new }) st
  primary_reconfigure (some new) (some old) b st =
      let (b1, st1) = delete_ip old b st in
      if bytes_eq old new then some (b, st) else add_ip new (record b1 { ip4addr = some new }) st1

  unfoldable pub bundle_ip_reconfigure :
      IpSettings → FpaBundle → HostState F → Option (FpaBundle × HostState F)
  unfolding primary_reconfigure bundle_ipv4_secondary_reconfigure
  bundle_ip_reconfigure set b st =
      if set.primary_ipv4_changed
      then primary_reconfigure set.ip4_address b.ip4addr b st
      else if set.secondary_ipv4_changed
      then bundle_ipv4_secondary_reconfigure set b st
      else some (b, st)
