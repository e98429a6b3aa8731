-- ===== src/Tests/Classes.antt =====
-- The classes of netdevs at concrete devices.
use switchd_fpa_plugin.Prelude.{◌==◌, ◌≡◌, refl, false, some, [], ◌∷◌, ◌+◌, ◌<◌, ◌/◌, ◌%◌, arith}
use switchd_fpa_plugin.Os.{Os}
use switchd_fpa_plugin.Dev.{DevState, dev_mutex_lock, get_tap_info_by_switch_id, dev_by_id}
use switchd_fpa_plugin.Dev.Counts.{held}
use switchd_fpa_plugin.Strings.{
  str2int, strtol, skip_spaces, signed_part, unsigned_part, read_digits,
}
use switchd_fpa_plugin.Tap.Maps.{register}
use switchd_fpa_plugin.Tap.Interfaces.{if_name, tap_if_create, open_interface, tun_alloc}
use switchd_fpa_plugin.Netdev.{FpaNetdev, NetdevClass, HwIntfInfo, MacArg, construct}
use switchd_fpa_plugin.Netdev.Control.{set_hw_intf_info}
use switchd_fpa_plugin.Netdev.Macs.{construct_all, construct_all-mac}
use switchd_fpa_plugin.Netdev.Classes.{Handler}
use switchd_fpa_plugin.Netdev.Again.{handle_info, handle_info-again}
use switchd_fpa_plugin.Tests.Setting.{F, blank, O}
use switchd_fpa_plugin.Tests.Devices.{B, P, port_3, dev, info}

-- Two devices, the second after the counter has wrapped around.
abbrev first : FpaNetdev
first = (construct F NetdevClass.system (b'1' ∷ []) 0xffffffff).0

abbrev second : FpaNetdev
second = (construct F NetdevClass.internal (b'2' ∷ []) 0).0

construct_all-mac_example :
    ((first.mac == second.mac) ≡ false)
    × (first.mac < 0x1000000000000)
    × (first.mac / 0x10000000000 % 4 ≡ 2)
unfolding construct_all construct
construct_all-mac_example =
    construct_all-mac F ((NetdevClass.system, b'1' ∷ []) ∷ (NetdevClass.internal, b'2' ∷ []) ∷ [])
      0xffffffff 0 1 first second (omega arith) (omega arith) refl refl

-- A system on which an interface gets the descriptor 9.
abbrev with_tun : Os
with_tun = record O { open_tun = λ n. (some 9, n + 1) }

abbrev new : FpaNetdev
new = record port_3 { inited = false; tap_fd = 0 }

abbrev named : HwIntfInfo
named = record {
  switch_unit = some (b'0' ∷ []);
  switch_intf_id = some (b'3' ∷ []);
  mac_addr = MacArg.address 0xcc;
  bridge = false;
}

abbrev waiting : DevState F with_tun
waiting = held F with_tun dev false blank 0

abbrev created : FpaNetdev
created = record port_3 { mac = 0xcc; tap_fd = 9 }

info_runs :
    handle_info F with_tun P B 16 Handler.hardware named new waiting
    ≡ some (
      0,
      created,
      held F with_tun
          (record dev { tap_if_info = some (register 16 9 3 (if_name (b'3' ∷ [])) 0xcc info) })
          false
          blank
          6,
    )
unfolding handle_info set_hw_intf_info tap_if_create dev_mutex_lock get_tap_info_by_switch_id
    dev_by_id open_interface tun_alloc str2int strtol skip_spaces signed_part unsigned_part
    read_digits
info_runs = refl

handle_info-again_example :
    handle_info F with_tun P B 16 Handler.hardware
      (record named { switch_intf_id = some (b'4' ∷ []) })
      created
      waiting
    ≡ some (0, created, waiting)
handle_info-again_example =
    handle_info-again F with_tun P B 16 Handler.hardware named
      (record named { switch_intf_id = some (b'4' ∷ []) }) new created waiting
      (held F with_tun
        (record dev { tap_if_info = some (register 16 9 3 (if_name (b'3' ∷ [])) 0xcc info) }) false
        blank 6)
      waiting info_runs
