-- ===== src/Tap/Frame.antt =====
-- The packet buffers of the two listeners of src/ops-fpa-tap.c, and the 802.1Q tag that one adds
-- and the other takes away. Memory is a function from an address in the buffer to its byte.
use switchd_fpa_plugin.Prelude.{
  ℕ, ◌+◌, ◌-◌, ◌*◌, ◌/◌, ◌%◌, ◌≤◌, ◌<◌, ◌≡◌, ◌&&◌, arith, ◌==◌, leb, ltb, if◌then◌else◌,
}

abbrev pub Mem : Type 0
Mem = ℕ → ℕ

-- `pktDataPtr` as an offset into the buffer, and `pktDataSize`, a `uint32_t`.
pub record Packet : Type 0 where
  pub mem : Mem
  pub data_ptr : ℕ
  pub data_size : ℕ

-- `FPA_PKT_SAFEGUARD`, `DOT1Q_LEN`, twice `ETH_ALEN`, the size of `struct ether_header`,
-- `ETHERTYPE_VLAN`.
abbrev pub fpa_pkt_safeguard : ℕ
fpa_pkt_safeguard = 32

abbrev pub dot1q_len : ℕ
dot1q_len = 4

abbrev pub two_macs : ℕ
two_macs = 12

abbrev pub ether_header_size : ℕ
ether_header_size = 14

abbrev pub ethertype_vlan : ℕ
ethertype_vlan = 0x8100

unfoldable pub memmove : ℕ → ℕ → ℕ → Mem → Mem
memmove dst src n m a = if leb dst a && ltb a (dst + n) then m (a - dst + src) else m a

-- A 16-bit number in network order, read and written.
unfoldable pub load16 : ℕ → Mem → ℕ
load16 a m = m a * 256 + m (a + 1)

unfoldable pub store16 : ℕ → ℕ → Mem → Mem
store16 a v m b = if b == a then v / 256 % 256 else if b == a + 1 then v % 256 else m b

-- Byte `i` of a packet.
unfoldable pub byte : Packet → ℕ → ℕ
byte p i = p.mem (p.data_ptr + i)

unfoldable pub get_eth_type : Packet → ℕ
unfolding load16
get_eth_type p = load16 (p.data_ptr + two_macs) p.mem

-- The two bytes after the Ethernet header.
unfoldable pub get_tci : Packet → ℕ
unfolding load16
get_tci p = load16 (p.data_ptr + ether_header_size) p.mem

-- `asic_listener`: a tag goes in front of the type.
unfoldable pub add_tag : ℕ → Packet → Packet
unfolding memmove store16
add_tag vid p =
    let ptr = p.data_ptr - dot1q_len in
    record {
      mem =
          store16 (ptr + ether_header_size) vid
            (store16 (ptr + two_macs) ethertype_vlan (memmove ptr p.data_ptr two_macs p.mem));
      data_ptr = ptr;
      data_size = (p.data_size + dot1q_len) % 0x100000000;
    }

-- `tap_listener`: the tag is overwritten by the two addresses.
unfoldable pub strip_tag : Packet → Packet
unfolding memmove
strip_tag p = record {
  mem = memmove (p.data_ptr + dot1q_len) p.data_ptr two_macs p.mem;
  data_ptr = p.data_ptr + dot1q_len;
  data_size = (p.data_size + 0x100000000 - dot1q_len) % 0x100000000;
}

-- A tagged frame is the frame with the four bytes of the tag after its addresses.
pub add_tag-byte :
    (vid : ℕ) (p : Packet) (i : ℕ)
    → vid < 0x10000
    → dot1q_len ≤ p.data_ptr
    → byte (add_tag vid p) i ≡ (
        if ltb i 12
        then byte p i
        else if i == 12
        then 0x81
        else if i == 13
        then 0x00
        else if i == 14
        then vid / 256
        else if i == 15
        then vid % 256
        else byte p (i - 4))
unfolding byte add_tag
add_tag-byte vid p i v16 room = ground arith

pub strip_tag-byte :
    (p : Packet) (i : ℕ) → byte (strip_tag p) i ≡ (if ltb i 12 then byte p i else byte p (i + 4))
unfolding byte strip_tag
strip_tag-byte p i = ground arith

-- Taking the tag away again gives the frame back.
pub strip_tag-add_tag :
    (vid : ℕ) (p : Packet) (i : ℕ)
    → dot1q_len ≤ p.data_ptr
    → p.data_size + dot1q_len < 0x100000000
    → (byte (strip_tag (add_tag vid p)) i ≡ byte p i)
      × ((strip_tag (add_tag vid p)).data_ptr ≡ p.data_ptr)
      × ((strip_tag (add_tag vid p)).data_size ≡ p.data_size)
unfolding byte add_tag strip_tag
strip_tag-add_tag vid p i room small = (ground arith, omega arith, omega arith)
