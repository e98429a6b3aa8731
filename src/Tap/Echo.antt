-- ===== src/Tap/Echo.antt =====
-- A packet on its way up through `asic_listener` and down again through `tap_listener`.
use switchd_fpa_plugin.Prelude.{
  ℕ, ◌+◌, ◌*◌, ◌<◌, ◌≤◌, ◌≡◌, refl, ◌∙◌, ap, true, false, some, arith, ◌==◌,
}
use switchd_fpa_plugin.Fpa.{Fpa}
use switchd_fpa_plugin.Fpa.Laws.{FlowLaws, GroupLaws, FrameLaws, IdentLaws, Ascending}
use switchd_fpa_plugin.Vlan.{VlanState, vlan_internal}
use switchd_fpa_plugin.Vlan.Vidx.{vidx_egress}
use switchd_fpa_plugin.Vlan.Fetch.{l2_state}
use switchd_fpa_plugin.Vlan.Delete.{IsL2}
use switchd_fpa_plugin.Tap.Frame.{
  Packet, dot1q_len, ethertype_vlan, byte, get_eth_type, get_tci, add_tag, strip_tag,
  strip_tag-byte, add_tag-byte, strip_tag-add_tag,
}
use switchd_fpa_plugin.Tap.Maps.{TapIfEntry, TapMap, get_if_entry}
use switchd_fpa_plugin.Tap.Listeners.{asic_packet, send_frame}
use switchd_fpa_plugin.Tap.Egress.{send_frame-l2_state}

-- Two packets with the same bytes and the same size.
pub record AreSame (p q : Packet) : Type 0 where
  pub bytes : (i : ℕ) → byte p i ≡ byte q i
  pub size : p.data_size ≡ q.data_size

eth_type-bytes : (p : Packet) → get_eth_type p ≡ byte p 12 * 256 + byte p 13
unfolding get_eth_type byte
eth_type-bytes p = ap (λ a. p.mem (p.data_ptr + 12) * 256 + p.mem a) (omega arith)

tci-bytes : (p : Packet) → get_tci p ≡ byte p 14 * 256 + byte p 15
unfolding get_tci byte
tci-bytes p = ap (λ a. p.mem (p.data_ptr + 14) * 256 + p.mem a) (omega arith)

strip_tag-AreSame : (p q : Packet) → AreSame p q → AreSame (strip_tag p) (strip_tag q)
unfolding strip_tag
strip_tag-AreSame p q same = record {
  bytes =
      λ i. ground (arith, strip_tag-byte p i, strip_tag-byte q i, same.bytes i, same.bytes (i + 4));
  size = omega (arith, same.size);
}

-- What `asic_listener` writes for a packet without a tag of a VLAN that is not internal.
asic_packet-out :
    (F : Fpa) (map : TapMap) (in_port vid : ℕ) (p : Packet) (st : VlanState F) (entry : TapIfEntry)
    → vlan_internal F vid st ≡ false
    → (get_eth_type p == ethertype_vlan) ≡ false
    → get_if_entry map in_port ≡ some entry
    → asic_packet F map 0 in_port vid p st
      ≡ some (record { to = entry.number; packet = add_tag vid p })
unfolding asic_packet
asic_packet-out F map in_port vid p st entry outside untagged found =
    rw (found, asic_packet) (ground (arith, outside, untagged))

module _ (F : Fpa) (L : FlowLaws F) (G : GroupLaws F) (R : FrameLaws F L G) (I : IdentLaws F) where
  -- A packet without a tag, of a VLAN from 1 to 4095 that is not internal and with room for a tag
  -- in front, that comes from the switch is written to the interface of its port with the tag of
  -- the VLAN; and if a packet with the same bytes is read from an interface whose port, below
  -- 2^16, sends the VLAN without its tag, on a switch whose tables are as the plugin fills them
  -- and the groups in order, it is sent to the port with the bytes and the size that the packet
  -- first had.
  pub send_frame-asic_packet :
      (asic_map : TapMap) (sid in_port vid : ℕ) (p r : Packet) (st : VlanState F)
      (up_entry down_entry : TapIfEntry)
      → vlan_internal F vid st ≡ false
      → (get_eth_type p == ethertype_vlan) ≡ false
      → dot1q_len ≤ p.data_ptr
      → p.data_size + dot1q_len < 0x100000000
      → get_if_entry asic_map in_port ≡ some up_entry
      → down_entry.number < 0x10000
      → vid < 0x1000
      → 0 < vid
      → IsL2 F L G R I sid st.hw
      → Ascending 0 (G.groups sid st.hw)
      → l2_state F L G sid down_entry.number st.hw (vidx_egress vid true) ≡ true
      → AreSame r (add_tag vid p)
      → (asic_packet F asic_map 0 in_port vid p st
          ≡ some (record { to = up_entry.number; packet = add_tag vid p }))
        × (send_frame F sid down_entry r st.hw
            ≡ some (record { to = down_entry.number; packet = strip_tag r }))
        × AreSame (strip_tag r) p
  send_frame-asic_packet asic_map sid in_port vid p r st up_entry down_entry outside untagged room
        small found p16 v12 v1 wf up popped same =
      (
        asic_packet-out F asic_map in_port vid p st up_entry outside untagged found,
        send_frame-l2_state F L G R I sid vid down_entry r st.hw p16 v12 v1 wf up tagged tci
            ∙ rw popped refl,
        record {
          bytes = λ i. there.bytes i ∙ (strip_tag-add_tag vid p i room small).0;
          size = there.size ∙ (strip_tag-add_tag vid p 0 room small).2;
        },
      )
    where
      there : AreSame (strip_tag r) (strip_tag (add_tag vid p))
      there = strip_tag-AreSame r (add_tag vid p) same

      tagged : get_eth_type r ≡ ethertype_vlan
      tagged = omega (
        arith,
        eth_type-bytes r,
        same.bytes 12,
        same.bytes 13,
        add_tag-byte vid p 12 (omega arith) room,
        add_tag-byte vid p 13 (omega arith) room,
      )

      tci : get_tci r ≡ vid
      tci = omega (
        arith,
        tci-bytes r,
        same.bytes 14,
        same.bytes 15,
        add_tag-byte vid p 14 (omega arith) room,
        add_tag-byte vid p 15 (omega arith) room,
      )
