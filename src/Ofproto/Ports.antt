-- ===== src/Ofproto/Ports.antt =====
-- `struct fpa_ofport` and the map `ports_by_pid` of src/ops-fpa-ofproto.c.
pub mod Found
use switchd_fpa_plugin.Prelude.{
  ℕ, Option, none, some, List, [], ◌∷◌, ◌==◌, if◌then◌else◌, bit_and, find, Bool,
}
use switchd_fpa_plugin.Prelude.Bitmap.{Bitmap}
use switchd_fpa_plugin.Hmap.{Hmap}

-- `pid` is what `netdev_get_ifindex` returns for the port's netdev, `mac` its Ethernet address.
pub record Ofport : Type 0 where
  pub pid : ℕ
  pub ofp_port : ℕ
  pub mac : ℕ
  pub mtu : ℕ
  -- Pending VLANs, not applied to the switch.
  pub vmap : Bitmap

-- A node of `ports_by_pid`: the hash under which the port was inserted, and the port.
pub record PortNode : Type 0 where
  pub hash : ℕ
  pub port : Ofport

-- The hmap: the nodes of each bucket stand in the order of the list; `mask` is the number of buckets
-- less 1.
pub record PortMap : Type 0 where
  pub mask : ℕ
  pub nodes : List PortNode

abbrev pub same_bucket : ℕ → ℕ → PortNode → Bool
same_bucket mask hash n = bit_and n.hash mask == bit_and hash mask

abbrev pub port_of : Option PortNode → Option Ofport
port_of none = none
port_of (some n) = some n.port

-- `ops_fpa_get_ofport_by_pid`: the first node of the bucket of `pid`.
unfoldable pub get_ofport_by_pid : PortMap → ℕ → Option Ofport
get_ofport_by_pid m pid = port_of (find (same_bucket m.mask pid) m.nodes)

-- A write through the pointer that it returns.
unfoldable pub set_first : (PortNode → Bool) → Ofport → List PortNode → List PortNode
set_first test p [] = []
set_first test p (n ∷ ns) = if test n then record n { port = p } ∷ ns else n ∷ set_first test p ns

unfoldable pub set_ofport : PortMap → ℕ → Ofport → PortMap
unfolding set_first
set_ofport m pid p = record m { nodes = set_first (same_bucket m.mask pid) p m.nodes }

-- `hmap_insert(&ports_by_pid, &port->node, pid)`.
unfoldable pub insert_ofport : Hmap → PortMap → ℕ → Ofport → PortMap
insert_ofport H m pid p =
    let (mask, nodes) = H.insert (λ n. n.hash) m.mask (record { hash = pid; port = p }) m.nodes in
    record { mask = mask; nodes = nodes }
