-- ===== src/Ofproto/Vlans.antt =====
-- The VLANs of a port in src/ops-fpa-ofproto.c: the second half of `ops_fpa_ofproto_bundle_set`,
-- and `ops_fpa_ofproto_set_vlan`.
pub mod Reconfigure
pub mod Enable
pub mod Disable
pub mod OneBundle
pub mod Everywhere
pub mod Flap
use switchd_fpa_plugin.Prelude.{
  ℕ, Bool, true, false, not, Option, none, some, List, [], ◌∷◌, ◌==◌, if◌then◌else◌,
}
use switchd_fpa_plugin.Prelude.Bitmap.{Bitmap, empty, put, set1, set0, diff, for_each_1}
use switchd_fpa_plugin.Fpa.{Fpa}
use switchd_fpa_plugin.Vlan.Vidx.{vmap_bits, vidx_ingress, vidx_egress, vidx_vid}
use switchd_fpa_plugin.Vlan.{vlan_fetch, vlan_add, vlan_del}
use switchd_fpa_plugin.Ofproto.Ports.{Ofport, PortMap, get_ofport_by_pid, set_ofport}

-- `enum port_vlan_mode`.
pub data VlanMode : Type 0 where
  access trunk native_tagged native_untagged : VlanMode

abbrev pub is_trunk : VlanMode → Bool
is_trunk VlanMode.trunk = true
is_trunk m = false

abbrev pub is_native_tagged : VlanMode → Bool
is_native_tagged VlanMode.native_tagged = true
is_native_tagged m = false

-- The part of `struct ofproto_bundle_settings` that these functions read.
pub record VlanSettings : Type 0 where
  pub vlan_mode : VlanMode
  pub vlan : ℕ
  pub trunks : Option Bitmap

-- `VLAN_BITMAP_SIZE`.
abbrev pub vlan_bitmap_size : ℕ
vlan_bitmap_size = 0x1000

-- One round of the loop over `set->trunks`.
abbrev pub trunk_bits : ℕ → Bitmap → Bitmap
trunk_bits vid vnew = set1 (set1 vnew (vidx_ingress vid true)) (vidx_egress vid false)

-- `vnew`: trunks, `vlan_mode` and `vlan` as a bitmap of identifiers.
unfoldable pub wanted : VlanSettings → Bitmap
unfolding for_each_1
wanted set =
    let trunks : Bitmap = elim set.trunks [
      | none ↦ empty
      | some t ↦ for_each_1 vlan_bitmap_size 0 (λ s. t) trunk_bits empty
    ] in
    if is_trunk set.vlan_mode
    then trunks
    else set1 (set1 trunks (vidx_ingress set.vlan false))
        (vidx_egress set.vlan (not (is_native_tagged set.vlan_mode)))

module _ (F : Fpa) where
  -- The switch and the pending VLANs of one port.
  pub record PortState : Type 0 where
    pub hw : F.Hw
    pub vmap : Bitmap

  -- One round of the loop that applies the difference. Status codes are not looked at.
  unfoldable pub apply_vidx : ℕ → ℕ → Bitmap → Bitmap → ℕ → PortState → PortState
  apply_vidx sid pid vlans vnew vidx st =
      if vlans (vidx_vid vidx)
      then (if vnew vidx
          then record st { hw = (vlan_add F sid pid vidx st.hw).1 }
          else record st { hw = (vlan_del F sid pid vidx st.hw).1 })
      else (if vnew vidx then record st { vmap = set1 st.vmap vidx } else st)

  -- The loop over `vdiff`, from the switch as it is.
  unfoldable pub apply_diff : ℕ → ℕ → Bitmap → Bitmap → Bitmap → F.Hw → PortState
  unfolding for_each_1 apply_vidx
  apply_diff sid pid vlans vnew vdiff hw =
      for_each_1 vmap_bits 0 (λ st. vdiff) (apply_vidx sid pid vlans vnew)
        (record { hw = hw; vmap = empty })

  -- From `vnew` to the new switch and the new `port->vmap`.
  unfoldable pub reconfigure : ℕ → Ofport → Bitmap → VlanSettings → F.Hw → PortState
  unfolding wanted vlan_fetch apply_diff
  reconfigure sid port vlans set hw =
      let vnew = wanted set in
      let vdiff = diff (vlan_fetch F sid port.pid hw) vnew in
      apply_diff sid port.pid vlans vnew vdiff hw

  -- `add`: one round of the loop over `port->vmap`.
  unfoldable pub enable_vidx : ℕ → ℕ → ℕ → ℕ → PortState → PortState
  enable_vidx sid pid vid vidx st =
      if vidx_vid vidx == vid
      then record { hw = (vlan_add F sid pid vidx st.hw).1; vmap = set0 st.vmap vidx }
      else st

  unfoldable pub enable_port : ℕ → Ofport → ℕ → F.Hw → PortState
  unfolding for_each_1 enable_vidx
  enable_port sid port vid hw =
      for_each_1 vmap_bits 0 (λ st. st.vmap) (enable_vidx sid port.pid vid)
        (record { hw = hw; vmap = port.vmap })

  -- Not `add`: one round of the loop over the bits read from the switch.
  unfoldable pub disable_vidx : ℕ → ℕ → ℕ → ℕ → PortState → PortState
  disable_vidx sid pid vid vidx st =
      if vidx_vid vidx == vid
      then record { hw = (vlan_del F sid pid vidx st.hw).1; vmap = set1 st.vmap vidx }
      else st

  -- The bits are read for `up.ofp_port`, and deleted for the netdev's index.
  unfoldable pub disable_port : ℕ → Ofport → ℕ → F.Hw → PortState
  unfolding for_each_1 vlan_fetch disable_vidx
  disable_port sid port vid hw =
      let l2asic = vlan_fetch F sid port.ofp_port hw in
      for_each_1 vmap_bits 0 (λ st. l2asic) (disable_vidx sid port.pid vid)
        (record { hw = hw; vmap = port.vmap })

  -- The switch, `ports_by_pid` and the bitmap `vlans` of the ofproto.
  pub record L2State : Type 0 where
    pub hw : F.Hw
    pub ports : PortMap
    pub vlans : Bitmap

  -- One round of the loop over the bundles; `pid` is the bundle's `intf_id`.
  unfoldable pub set_vlan_bundle : ℕ → ℕ → Bool → ℕ → L2State → L2State
  unfolding get_ofport_by_pid set_ofport
  set_vlan_bundle sid vid add pid st = elim (get_ofport_by_pid st.ports pid) [
    | none ↦ st
    | some port ↦
        let new = if add then enable_port sid port vid st.hw else disable_port sid port vid st.hw in
        record st { hw = new.hw; ports = set_ofport st.ports pid (record port { vmap = new.vmap }) }
  ]

  unfoldable pub set_vlan_bundles : ℕ → ℕ → Bool → List ℕ → L2State → L2State
  unfolding set_vlan_bundle
  set_vlan_bundles sid vid add [] st = st
  set_vlan_bundles sid vid add (pid ∷ pids) st =
      set_vlan_bundles sid vid add pids (set_vlan_bundle sid vid add pid st)

  -- `ops_fpa_ofproto_set_vlan`, with the `intf_id`s of the ofproto's bundles.
  unfoldable pub set_vlan : ℕ → ℕ → Bool → List ℕ → L2State → L2State
  unfolding set_vlan_bundles
  set_vlan sid vid add pids st =
      let done = set_vlan_bundles sid vid add pids st in
      record done { vlans = put done.vlans vid add }
