-- ===== src/Tap/Listeners.antt =====
-- What `tap_listener` and `asic_listener` of src/ops-fpa-tap.c do with one packet.
use switchd_fpa_plugin.Prelude.{
  ℕ, ◌+◌, ◌-◌, ◌*◌, ◌/◌, Bool, true, false, not, ◌&&◌, Option, none, some, ◌==◌, ltb, if◌then◌else◌,
}
use switchd_fpa_plugin.Fpa.{Fpa}
use switchd_fpa_plugin.Route.{l2_ident}
use switchd_fpa_plugin.Vlan.{VlanState, vlan_internal}
use switchd_fpa_plugin.Tap.Frame.{
  Mem, Packet, fpa_pkt_safeguard, ethertype_vlan, byte, get_eth_type, get_tci, add_tag, strip_tag,
}
use switchd_fpa_plugin.Tap.Maps.{TapIfEntry, TapMap, get_if_entry}
use switchd_fpa_plugin.Prelude.Errno.{enoent, efault}

-- `INIT_DRAIN_TIME`, in seconds.
abbrev pub init_drain_time : ℕ
init_drain_time = 5

-- What `read` gives, with the buffer after it.
pub data ReadResult : Type 0 where
  bytes : ℕ → Mem → ReadResult
  would_block : Mem → ReadResult
  failed : ReadResult

-- A call of `fpaLibPortPktSend`, or a `write` to a descriptor: where to, and the packet.
pub record Output : Type 0 where
  pub to : ℕ
  pub packet : Packet

-- `ether_shost` as a number.
unfoldable pub src_mac : Packet → ℕ
unfolding byte
src_mac p =
    ((((byte p 6 * 256 + byte p 7) * 256 + byte p 8) * 256 + byte p 9) * 256 + byte p 10) * 256
    + byte p 11

-- `timersub` rounds down, so less than 5 seconds after the first packet, or before it. Times are in
-- microseconds.
unfoldable pub draining : ℕ → ℕ → Bool
draining init_time cur_time =
    if ltb cur_time init_time then true else ltb ((cur_time - init_time) / 1000000) init_drain_time

module _ (F : Fpa) where
  -- The status, and `*pop_tag` where that is 0.
  unfoldable pub get_port_eg_tag_state : ℕ → ℕ → ℕ → F.Hw → ℕ × Bool
  get_port_eg_tag_state sid port_num vlan_id hw =
      let (err1, gid) = F.group_identifier_build (l2_ident port_num vlan_id) in
      let (err2, bucket) = F.group_entry_bucket_get sid gid 0 hw in
      if err1 == 0
      then (if err2 == 0 then (0, bucket.l2_interface.pop_vlan_tag_action) else (enoent, false))
      else (efault, false)

  -- A frame of the interface `entry`: dropped, or sent to its port with or without its tag.
  unfoldable pub send_frame : ℕ → TapIfEntry → Packet → F.Hw → Option Output
  unfolding get_port_eg_tag_state
  send_frame sid entry p hw =
      let (err, pop) = get_port_eg_tag_state sid entry.number (get_tci p) hw in
      if get_eth_type p == ethertype_vlan
      then (if err == 0
          then (if pop
              then some (record { to = entry.number; packet = strip_tag p })
              else some (record { to = entry.number; packet = p }))
          else none)
      else (if src_mac p == entry.mac
          then some (record { to = entry.number; packet = p })
          else none)

  -- The descriptor's interface is looked up, and the clock started by the first packet.
  unfoldable pub tap_packet :
      ℕ → TapMap → ℕ → Packet → ℕ → Option ℕ → F.Hw → Option ℕ × Option Output
  unfolding send_frame
  tap_packet sid map fd p cur_time started hw = elim (get_if_entry map fd) [
    | none ↦ (started, none)
    | some entry ↦
        let init_time : ℕ = elim started [ none ↦ cur_time | some t ↦ t ] in
        (some init_time, if draining init_time cur_time then none else send_frame sid entry p hw)
  ]

  -- One descriptor that is ready. A read that would block goes on with the size -1.
  unfoldable pub tap_ready :
      ℕ → TapMap → ℕ → ReadResult → ℕ → Option ℕ → F.Hw → Option ℕ × Option Output
  unfolding tap_packet
  tap_ready sid map fd ReadResult.failed cur_time started hw = (started, none)
  tap_ready sid map fd (ReadResult.would_block mem) cur_time started hw =
      tap_packet sid map fd
        (record { mem = mem; data_ptr = fpa_pkt_safeguard; data_size = 0xffffffff }) cur_time
        started hw
  tap_ready sid map fd (ReadResult.bytes n mem) cur_time started hw =
      tap_packet sid map fd (record { mem = mem; data_ptr = fpa_pkt_safeguard; data_size = n })
        cur_time started hw

  -- A packet from the switch, after the commands have been read.
  unfoldable pub asic_packet : TapMap → ℕ → ℕ → ℕ → Packet → VlanState F → Option Output
  unfolding vlan_internal
  asic_packet map err in_port vid p st =
      let tagged =
        if not (vlan_internal F vid st) && not (get_eth_type p == ethertype_vlan)
        then add_tag vid p
        else p in
      if err == 0
      then elim (get_if_entry map in_port) [
        | none ↦ none
        | some entry ↦ some (record { to = entry.number; packet = tagged })
      ]
      else none
