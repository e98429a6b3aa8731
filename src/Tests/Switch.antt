-- ===== src/Tests/Switch.antt =====
-- VLANs and routing on the simulated switch.
use switchd_fpa_plugin.Prelude.{
  ◌%◌, ℕ, ◌≡◌, refl, true, false, none, ◌==◌, not, ◌&&◌, ◌||◌, if◌then◌else◌, arith,
}
use switchd_fpa_plugin.Prelude.Bitmap.{Bitmap, empty, set1, diff}
use switchd_fpa_plugin.Fpa.Laws.{FlowLaws, GroupLaws, FrameLaws, IdentLaws}
use switchd_fpa_plugin.Fpa.Sim.{Switch, sim_flow, sim_group, sim_frame, sim_ident}
use switchd_fpa_plugin.Vlan.Fetch.{l2_state, vlan_fetch-eq-l2_state}
use switchd_fpa_plugin.Vlan.{vlan_add, vlan_del, vlan_fetch, VlanState, vlan_add_internal}
use switchd_fpa_plugin.Vlan.Vidx.{
  vmap_bits, vidx_ingress, vidx_egress, vidx_vid, vidx_is_egress, vidx_arg,
}
use switchd_fpa_plugin.Vlan.Add.{vlan_add-l2_state}
use switchd_fpa_plugin.Vlan.Delete.{IsL2, clears, vlan_del-l2_state}
use switchd_fpa_plugin.Vlan.Keep.{vlan_add-IsL2}
use switchd_fpa_plugin.Route.{route_mask, add_l2_group}
use switchd_fpa_plugin.Route.Mask.{network_mask, route_mask-network_mask}
use switchd_fpa_plugin.Vlan.Internal.{both_accepted, vlan_add_internal-l2_state}
use switchd_fpa_plugin.Ofproto.Vlans.Disable.{all_taken_out, disable_port-l2_state}
use switchd_fpa_plugin.Ofproto.Ports.{Ofport}
use switchd_fpa_plugin.Ofproto.Vlans.{
  VlanMode, VlanSettings, reconfigure, wanted, apply_vidx, disable_port, disable_vidx,
}
use switchd_fpa_plugin.Ofproto.Vlans.Reconfigure.{all_accepted, IsQuiet, reconfigure-l2_state}
use switchd_fpa_plugin.Tests.Setting.{F, blank}

-- The identifier of untagged traffic that comes in on VLAN 5.
abbrev pub in_5 : ℕ
in_5 = 5

-- Port 3 with that identifier.
abbrev pub one_vlan : Switch
one_vlan = (vlan_add F 0 3 in_5 blank).1

abbrev pub L : FlowLaws F
L = sim_flow 100

abbrev pub G : GroupLaws F
G = sim_group 100

abbrev pub R : FrameLaws F L G
R = sim_frame 100

abbrev pub I : IdentLaws F
I = sim_ident 100

pub vid_5 : vidx_vid in_5 ≡ 5
unfolding vidx_vid
vid_5 = refl

pub blank-IsL2 : IsL2 F L G R I 0 blank
blank-IsL2 = record { vlan_flows = tt; l2_groups = tt }

vlan_add_runs : (vlan_add F 0 3 in_5 blank).0 ≡ 0
unfolding vlan_add vidx_is_egress
vlan_add_runs = refl

pub one_vlan-IsL2 : IsL2 F L G R I 0 one_vlan
one_vlan-IsL2 =
    vlan_add-IsL2 F L G R I 0 3 in_5 blank (omega arith) (omega (arith, vid_5)) blank-IsL2

vlan_add-l2_state_example : l2_state F L G 0 3 one_vlan in_5 ≡ (
    (vlan_add F 0 3 in_5 blank).0 == 0 && 0 == 0 && 3 == 3 && in_5 == in_5
    || l2_state F L G 0 3 blank in_5)
vlan_add-l2_state_example =
    vlan_add-l2_state F L G R I 0 3 in_5 blank 0 3 in_5 (omega arith) (omega arith)

vlan_del-l2_state_example : l2_state F L G 0 3 (vlan_del F 0 3 in_5 one_vlan).1 in_5 ≡ (
    not ((vlan_del F 0 3 in_5 one_vlan).0 == 0 && 0 == 0 && 3 == 3 && clears in_5 in_5)
    && l2_state F L G 0 3 one_vlan in_5)
vlan_del-l2_state_example =
    vlan_del-l2_state F L G R I 0 3 in_5 one_vlan 0 3 in_5 (omega arith) (omega arith)
      (omega (arith, vid_5)) one_vlan-IsL2

vlan_fetch-eq-l2_state_example : vlan_fetch F 0 3 one_vlan in_5 ≡ l2_state F L G 0 3 one_vlan in_5
unfolding vlan_add vidx_is_egress
vlan_fetch-eq-l2_state_example =
    vlan_fetch-eq-l2_state F L G 0 3 one_vlan in_5 (omega arith) (omega arith) tt

-- Access VLAN 5 on port 3, where VLAN 5 is enabled.
abbrev pub port_3 : Ofport
port_3 = record { pid = 3; ofp_port = 3; mac = 0x112233445566; mtu = 1500; vmap = empty }

abbrev pub access_5 : VlanSettings
access_5 = record { vlan_mode = VlanMode.access; vlan = 5; trunks = none }

abbrev pub enabled_5 : Bitmap
enabled_5 = set1 empty 5

pub nothing_read : (a : ℕ) → vlan_fetch F 0 3 blank a ≡ false
unfolding vlan_fetch
nothing_read a = refl

pub access_5-IsQuiet : IsQuiet enabled_5 (vlan_fetch F 0 3 blank) (wanted access_5)
access_5-IsQuiet a b lt gone cleared other = ground (arith, nothing_read a, gone)

pub access_5_accepted :
    all_accepted F 0 3 enabled_5
      (wanted access_5)
      (diff (vlan_fetch F 0 3 blank) (wanted access_5))
      vmap_bits
      0
      (record { hw = blank; vmap = empty })
    ≡ true
unfolding all_accepted wanted vlan_fetch vidx_vid vidx_arg vidx_is_egress vidx_ingress vidx_egress
    vlan_add vlan_del apply_vidx
access_5_accepted = refl

reconfigure-l2_state_example :
    let new = reconfigure F 0 port_3 enabled_5 access_5 blank in
    (l2_state F L G 0 3 new.hw in_5
      ≡ (if enabled_5 (vidx_vid in_5) then wanted access_5 in_5 else l2_state F L G 0 3 blank in_5))
    × (new.vmap in_5 ≡ (
        not (enabled_5 (vidx_vid in_5))
        && wanted access_5 in_5
        && not (l2_state F L G 0 3 blank in_5)))
    × (l2_state F L G 0 4 new.hw in_5 ≡ l2_state F L G 0 4 blank in_5)
reconfigure-l2_state_example =
    reconfigure-l2_state F L G R I 0 port_3 enabled_5 access_5 blank (omega arith) refl
      (omega arith) (omega arith) tt blank-IsL2 access_5-IsQuiet access_5_accepted in_5 0 4 in_5
      (omega arith) refl

-- VLAN 5 is pending on port 3.
abbrev pub waiting : Ofport
waiting = record port_3 { vmap = set1 empty in_5 }

pub one_vlan_deleted :
    all_taken_out F 0 3 5
      (vlan_fetch F 0 3 one_vlan)
      vmap_bits
      0
      (record { hw = one_vlan; vmap = empty })
    ≡ true
unfolding all_taken_out vidx_vid vidx_arg vidx_is_egress vlan_add vlan_del disable_vidx vlan_fetch
    vidx_ingress
one_vlan_deleted = refl

disable_port-l2_state_example :
    let new = disable_port F 0 port_3 5 one_vlan in
    (new.vmap in_5 ≡ (l2_state F L G 0 3 one_vlan in_5 && vidx_vid in_5 == 5 || empty in_5))
    × ((l2_state F L G 0 3 one_vlan in_5 && vidx_vid in_5 == 5 && l2_state F L G 0 3 new.hw in_5)
        ≡ false)
    × ((not (0 == 0 && 4 == 3) && l2_state F L G 0 4 new.hw in_5)
        ≡ (not (0 == 0 && 4 == 3) && l2_state F L G 0 4 one_vlan in_5))
unfolding vlan_add vidx_is_egress
disable_port-l2_state_example =
    disable_port-l2_state F L G R I 0 port_3 5 one_vlan 0 4 in_5 (omega arith) refl (omega arith)
      one_vlan-IsL2 (omega arith) (omega arith) tt one_vlan_deleted (omega arith)

route_mask-network_mask_example : (route_mask F 20 == network_mask 20) ≡ (20 % 8 == 0)
route_mask-network_mask_example = route_mask-network_mask F 20 (omega arith) (omega arith)

-- VLAN 5 is internal already.
abbrev internal_5 : VlanState F
internal_5 = record { hw = blank; internal_vlans = set1 empty 5 }

internal_5_accepted : both_accepted F 0 3 5 blank ≡ true
unfolding vidx_vid vidx_arg vidx_is_egress vidx_ingress vidx_egress vlan_add add_l2_group
internal_5_accepted = refl

vlan_add_internal-l2_state_example :
    let done = vlan_add_internal F 0 3 5 internal_5 in
    (done.0 ≡ (if internal_5.internal_vlans 5 then 1 else 0))
    × (done.1.internal_vlans 5 ≡ (5 == 5 || internal_5.internal_vlans 5))
    × (l2_state F L G 0 3 done.1.hw in_5 ≡ (
        0 == 0 && 3 == 3 && (in_5 == vidx_ingress 5 false || in_5 == vidx_egress 5 false)
        || l2_state F L G 0 3 blank in_5))
vlan_add_internal-l2_state_example =
    vlan_add_internal-l2_state F L G R I 0 3 5 internal_5 0 3 in_5 (omega arith) (omega arith)
      internal_5_accepted
