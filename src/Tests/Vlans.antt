-- ===== src/Tests/Vlans.antt =====
-- VLANs that are enabled, disabled and configured one call after the other, on the simulated switch.
use switchd_fpa_plugin.Prelude.{
  ℕ, ◌≡◌, refl, true, false, not, ◌&&◌, ◌||◌, ◌==◌, ==_iff, [], ◌∷◌, arith, Bool-cases, inl, inr,
  if◌then◌else◌, some,
}
use switchd_fpa_plugin.Prelude.Bitmap.{empty, put, diff}
use switchd_fpa_plugin.Vlan.Fetch.{l2_state}
use switchd_fpa_plugin.Vlan.{vlan_add, vlan_del, vlan_fetch}
use switchd_fpa_plugin.Vlan.Vidx.{
  vmap_bits, vidx_vid, vidx_is_egress, vidx_arg, vidx_ingress, vidx_egress,
}
use switchd_fpa_plugin.Vlan.Add.{vlan_add-l2_state}
use switchd_fpa_plugin.Ofproto.Ports.{Ofport, get_ofport_by_pid}
use switchd_fpa_plugin.Ofproto.Vlans.{
  reconfigure, wanted, apply_vidx, enable_port, enable_vidx, disable_port, disable_vidx, L2State,
  set_vlan,
}
use switchd_fpa_plugin.Ofproto.Vlans.Enable.{all_taken_in}
use switchd_fpa_plugin.Ofproto.Vlans.Disable.{IsAlone}
use switchd_fpa_plugin.Ofproto.Vlans.OneBundle.{all_enabled, pending}
use switchd_fpa_plugin.Ofproto.Vlans.Everywhere.{set_vlan-l2_state}
use switchd_fpa_plugin.Ofproto.Vlans.Flap.{left, enable_port-disable_port, enable_port-reconfigure}
use switchd_fpa_plugin.Ofproto.Vlans.Reconfigure.{IsQuiet, all_accepted}
use switchd_fpa_plugin.Tests.Setting.{F, blank}
use switchd_fpa_plugin.Tests.Switch.{
  L, G, R, I, in_5, one_vlan, one_vlan-IsL2, one_vlan_deleted, vid_5, waiting, port_3, access_5,
  blank-IsL2,
}

-- One bundle, for port 3.
abbrev one_bundle : L2State F
one_bundle = record {
  hw = blank;
  ports = record { mask = 3; nodes = record { hash = 3; port = waiting } ∷ [] };
  vlans = empty;
}

own_3 : (port : Ofport) → get_ofport_by_pid one_bundle.ports 3 ≡ some port → port.pid ≡ 3
unfolding get_ofport_by_pid
own_3 port h = ground (arith, h)

one_bundle_enabled : all_enabled F 0 5 (3 ∷ []) one_bundle ≡ true
unfolding all_enabled get_ofport_by_pid all_taken_in vidx_vid vidx_arg vidx_is_egress vlan_add
    enable_vidx
one_bundle_enabled = refl

set_vlan-l2_state_example :
    let new = set_vlan F 0 5 true (3 ∷ []) one_bundle in
    (l2_state F L G 0 3 new.hw in_5 ≡ (
      true && pending one_bundle.ports 3 in_5 && vidx_vid in_5 == 5
      || l2_state F L G 0 3 blank in_5))
    × ((true && pending new.ports 3 in_5)
        ≡ (true && (pending one_bundle.ports 3 in_5 && not (vidx_vid in_5 == 5))))
    × (new.vlans 5 ≡ true)
set_vlan-l2_state_example =
    set_vlan-l2_state F L G R I 0 5 (3 ∷ []) one_bundle 0 3 in_5 5
      ((λ port h. (own_3 port h, omega arith)), refl, tt) one_bundle_enabled (omega arith)

nothing_held : (p j : ℕ) → l2_state F L G 0 p blank j ≡ false
unfolding l2_state
nothing_held p j = refl

-- The switch holds one identifier of port 3.
only_in_5 : (j : ℕ) → l2_state F L G 0 3 one_vlan j ≡ true → (vidx_vid j == 5) ≡ true
only_in_5 j on = elim (Bool-cases (j == in_5)) [
  | inl same ↦ rw ((==_iff j in_5).0 same, vid_5) refl
  | inr differ ↦ ground (
    arith,
    differ,
    on,
    nothing_held 3 j,
    vlan_add-l2_state F L G R I 0 3 in_5 blank 0 3 j (omega arith) (omega arith),
  )
]

one_vlan-IsAlone : IsAlone F L G 0 3 5 (vlan_fetch F 0 3 one_vlan) one_vlan
one_vlan-IsAlone a j held cleared on = only_in_5 j on

in_again : all_taken_in F 0 3 5 vmap_bits 0 (disable_port F 0 port_3 5 one_vlan) ≡ true
unfolding all_taken_in vidx_vid vidx_arg vidx_is_egress vlan_add vlan_del enable_vidx disable_vidx
    disable_port vlan_fetch vidx_ingress
in_again = refl

enable_port-disable_port_example :
    let off = disable_port F 0 port_3 5 one_vlan in
    let on = enable_port F 0 (left F L G R I port_3 off) 5 off.hw in
    (l2_state F L G 0 3 on.hw in_5 ≡ l2_state F L G 0 3 one_vlan in_5) × (on.vmap in_5 ≡ false)
unfolding vlan_add vidx_is_egress
enable_port-disable_port_example =
    enable_port-disable_port F L G R I 0 port_3 5 one_vlan 0 3 in_5 (omega arith) refl (omega arith)
      one_vlan-IsL2 (omega arith) (omega arith) tt one_vlan-IsAlone (λ k. refl) one_vlan_deleted
      in_again (omega arith)

access_5_waits : IsQuiet empty (vlan_fetch F 0 3 blank) (wanted access_5)
access_5_waits a b lt gone cleared other = absurd (ground (arith, gone))

access_5_pending :
    all_accepted F 0 3 empty
      (wanted access_5)
      (diff (vlan_fetch F 0 3 blank) (wanted access_5))
      vmap_bits
      0
      (record { hw = blank; vmap = empty })
    ≡ true
unfolding all_accepted wanted vlan_fetch vidx_vid vidx_arg vidx_is_egress vidx_ingress vidx_egress
    vlan_add vlan_del apply_vidx
access_5_pending = refl

access_5_in : all_taken_in F 0 3 5 vmap_bits 0 (reconfigure F 0 port_3 empty access_5 blank) ≡ true
unfolding all_taken_in reconfigure wanted vlan_fetch vidx_vid vidx_arg vidx_is_egress vidx_ingress
    vidx_egress vlan_add vlan_del apply_vidx enable_vidx
access_5_in = refl

enable_port-reconfigure_example :
    let first = reconfigure F 0 port_3 empty access_5 blank in
    let new = enable_port F 0 (left F L G R I port_3 first) 5 first.hw in
    (l2_state F L G 0 3 new.hw in_5 ≡ (
      if put empty 5 true (vidx_vid in_5)
      then wanted access_5 in_5
      else l2_state F L G 0 3 blank in_5))
    × (new.vmap in_5 ≡ (
        not (put empty 5 true (vidx_vid in_5))
        && wanted access_5 in_5
        && not (l2_state F L G 0 3 blank in_5)))
    × (l2_state F L G 0 4 new.hw in_5 ≡ l2_state F L G 0 4 blank in_5)
enable_port-reconfigure_example =
    enable_port-reconfigure F L G R I 0 port_3 5 empty access_5 blank (omega arith) refl
      (omega arith) (omega arith) tt blank-IsL2 access_5_waits access_5_pending access_5_in refl
      (λ k. ground (arith, nothing_held 3 k)) in_5 0 4 (omega arith) refl
