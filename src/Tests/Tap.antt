-- ===== src/Tests/Tap.antt =====
-- TAP interfaces: two interfaces and their packets on the simulated switch.
use switchd_fpa_plugin.Prelude.{
  ℕ, ◌≡◌, ◌==◌, refl, true, false, none, some, [], ◌∷◌, arith, if◌then◌else◌,
}
use switchd_fpa_plugin.Fpa.Laws.{Ascending}
use switchd_fpa_plugin.Fpa.Sim.{Switch}
use switchd_fpa_plugin.Vlan.{VlanState, vlan_add, vlan_internal, gid_port, gid_vlan}
use switchd_fpa_plugin.Vlan.Vidx.{vidx_egress, vidx_vid, vidx_is_egress, vidx_arg}
use switchd_fpa_plugin.Vlan.Fetch.{l2_state}
use switchd_fpa_plugin.Vlan.Delete.{IsL2}
use switchd_fpa_plugin.Vlan.Keep.{vlan_add-IsL2}
use switchd_fpa_plugin.Prelude.Bitmap.{empty}
use switchd_fpa_plugin.Tap.Frame.{Packet, get_eth_type, get_tci, add_tag, strip_tag, ethertype_vlan}
use switchd_fpa_plugin.Tap.Maps.{
  TapIfEntry, TapMap, CtrlCmd, get_if_entry, register, notify_all, send_ctrl_cmd, insert_if,
  tap_command, asic_command, drain,
}
use switchd_fpa_plugin.Tap.Sync.{System, Step, Reached, Reached-drain, Reached-routes, fresh}
use switchd_fpa_plugin.Tap.Turned.{turned}
use switchd_fpa_plugin.Tap.Listeners.{asic_packet, send_frame}
use switchd_fpa_plugin.Tap.Egress.{send_frame-l2_state}
use switchd_fpa_plugin.Tap.Echo.{AreSame, send_frame-asic_packet}
use switchd_fpa_plugin.Tests.Switch.{L, G, R, I, blank-IsL2}
use switchd_fpa_plugin.Tests.Setting.{F, blank}

-- Interface "a" of port 3 has descriptor 7, interface "b" of port 9 descriptor 8. The thread that
-- reads the TAP interfaces has heard of the first.
abbrev one_if : System
one_if = record (fresh 0) { info = register 16 7 3 (b'a' ∷ []) 0xaa (fresh 0).info }

abbrev heard : System
heard = record one_if {
  info = record one_if.info { tap_pipe = [] };
  tap_map = tap_command (CtrlCmd.add_if (b'a' ∷ []) 7 3 0xaa) [];
}

abbrev two_ifs : System
two_ifs = record heard { info = register 16 8 9 (b'b' ∷ []) 0xbb heard.info }

two_ifs-Reached : Reached 16 (fresh 0) two_ifs
unfolding register notify_all send_ctrl_cmd insert_if
two_ifs-Reached =
    Reached.later
      (Reached.later
        (Reached.later Reached.start
          (Step.creates 7 3 (b'a' ∷ []) 0xaa (omega arith) (omega arith) refl refl refl))
        (Step.tap_reads (CtrlCmd.add_if (b'a' ∷ []) 7 3 0xaa) [] refl refl))
      (Step.creates 8 9 (b'b' ∷ []) 0xbb (omega arith) (omega arith) refl refl refl)

Reached-drain_example :
    (drain tap_command two_ifs.info.tap_pipe two_ifs.tap_map
      ≡ record { map = two_ifs.info.fd_to_tap_if_map; rest = []; exits = false })
    × (drain asic_command two_ifs.info.asic_pipe two_ifs.asic_map
        ≡ record { map = turned two_ifs.info.fd_to_tap_if_map; rest = []; exits = false })
Reached-drain_example = Reached-drain 0 two_ifs-Reached

abbrev if_b : TapIfEntry
if_b = record { name = b'b' ∷ []; number = 9; mac = 0xbb }

found_b : get_if_entry two_ifs.info.fd_to_tap_if_map 8 ≡ some if_b
unfolding get_if_entry register notify_all insert_if
found_b = refl

Reached-routes_example :
    (get_if_entry (drain tap_command two_ifs.info.tap_pipe two_ifs.tap_map).map 8 ≡ some if_b)
    × (get_if_entry (drain asic_command two_ifs.info.asic_pipe two_ifs.asic_map).map 9
        ≡ some (record if_b { number = 8 }))
Reached-routes_example = Reached-routes 0 two_ifs-Reached 8 if_b found_b

-- Port 3 sends VLAN 5 without a tag.
abbrev out_5 : ℕ
out_5 = vidx_egress 5 true

abbrev untagging : Switch
untagging = (vlan_add F 0 3 out_5 blank).1

vid_out_5 : vidx_vid out_5 ≡ 5
unfolding vidx_vid vidx_egress
vid_out_5 = refl

untagging-IsL2 : IsL2 F L G R I 0 untagging
untagging-IsL2 =
    vlan_add-IsL2 F L G R I 0 3 out_5 blank (omega arith) (omega (arith, vid_out_5)) blank-IsL2

untagging-Ascending : Ascending 0 (G.groups 0 untagging)
unfolding vlan_add vidx_is_egress vidx_egress vidx_vid
untagging-Ascending = (omega arith, tt)

sends_popped : l2_state F L G 0 3 untagging out_5 ≡ true
unfolding vlan_add vidx_is_egress vidx_egress vidx_vid vidx_arg l2_state gid_port gid_vlan
sends_popped = refl

-- A frame without a tag, and the frame that the interface gets.
abbrev plain : Packet
plain = record { mem = λ i. i; data_ptr = 32; data_size = 64 }

abbrev if_a : TapIfEntry
if_a = record { name = b'a' ∷ []; number = 3; mac = 0xaa }

abbrev echo : Packet
echo = add_tag 5 plain

echo_type : get_eth_type echo ≡ ethertype_vlan
unfolding get_eth_type add_tag
echo_type = refl

echo_tci : get_tci echo ≡ 5
unfolding get_tci add_tag
echo_tci = refl

send_frame-l2_state_example : send_frame F 0 if_a echo untagging ≡ (
    if l2_state F L G 0 3 untagging (vidx_egress 5 true)
    then some (record { to = 3; packet = strip_tag echo })
    else if l2_state F L G 0 3 untagging (vidx_egress 5 false)
    then some (record { to = 3; packet = echo })
    else none)
send_frame-l2_state_example =
    send_frame-l2_state F L G R I 0 5 if_a echo untagging (omega arith) (omega arith) (omega arith)
      untagging-IsL2 untagging-Ascending echo_type echo_tci

abbrev asic_map : TapMap
asic_map = record { key = 3; entry = record if_a { number = 7 } } ∷ []

abbrev state : VlanState F
state = record { hw = untagging; internal_vlans = empty }

outside : vlan_internal F 5 state ≡ false
unfolding vlan_internal
outside = refl

plain_type : (get_eth_type plain == ethertype_vlan) ≡ false
unfolding get_eth_type
plain_type = refl

found_a : get_if_entry asic_map 3 ≡ some (record if_a { number = 7 })
unfolding get_if_entry
found_a = refl

echo-AreSame : AreSame echo (add_tag 5 plain)
echo-AreSame = record { bytes = λ i. refl; size = refl }

send_frame-asic_packet_example :
    (asic_packet F asic_map 0 3 5 plain state ≡ some (record { to = 7; packet = add_tag 5 plain }))
    × (send_frame F 0 if_a echo untagging ≡ some (record { to = 3; packet = strip_tag echo }))
    × AreSame (strip_tag echo) plain
send_frame-asic_packet_example =
    send_frame-asic_packet F L G R I asic_map 0 3 5 plain echo state (record if_a { number = 7 })
      if_a outside plain_type (omega arith) (omega arith) found_a (omega arith) (omega arith)
      (omega arith) untagging-IsL2 untagging-Ascending sends_popped echo-AreSame
