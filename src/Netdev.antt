-- ===== src/Netdev.antt =====
-- src/ops-fpa-netdev.c: the network devices of the plugin. A setting comes as it is parsed, and
-- the state of the devices that a call uses besides its own is that of Dev.
pub mod Features
pub mod Config
pub mod Control
pub mod Macs
pub mod Classes
pub mod Again
use switchd_fpa_plugin.Prelude.{
  ℕ, ◌+◌, ◌-◌, ◌*◌, ◌/◌, ◌%◌, Bool, true, false, not, ◌&&◌, ◌||◌, Option, none, some, List, [], ◌∷◌,
  ◌==◌, if◌then◌else◌,
}
use switchd_fpa_plugin.Prelude.Bitmap.{Bitmap, empty, set1}
use switchd_fpa_plugin.Fpa.{Fpa}
use switchd_fpa_plugin.Fpa.Ports.{
  Feature, NetdevFeature, FeatureBits, PortFlags, PortProperties, PortCalls,
}
use switchd_fpa_plugin.Os.{Name, Os}
use switchd_fpa_plugin.Strings.{Chars, ℤ, str2int}
use switchd_fpa_plugin.Dev.{DevState, ◌>>=◌}
use switchd_fpa_plugin.Tap.Interfaces.{
  bridge_create, bridge_delete, bridge_normal, tap_if_create, tap_if_delete,
}

-- The four classes.
pub data NetdevClass : Type 0 where
  system internal vlansubint loopback : NetdevClass

abbrev pub is_system : NetdevClass → Bool
is_system NetdevClass.system = true
is_system c = false

-- `struct fpa_netdev`; of `flags` only `NETDEV_UP` is used. `changes` counts the calls of
-- `netdev_change_seq_changed`.
pub record FpaNetdev : Type 0 where
  pub class : NetdevClass
  pub name : Name
  pub sid : ℕ
  pub pid : ℕ
  pub mac : ℕ
  pub inited : Bool
  pub link_status : Bool
  pub link_resets : ℕ
  pub tap_fd : ℕ
  pub up : Bool
  pub changes : ℕ

-- An int as its bit pattern.
abbrev pub to_word : ℤ → ℕ
to_word (ℤ.pos n) = n
to_word (ℤ.negsuc n) = 0xffffffff - n

-- The MAC address that `ops_fpa_netdev_construct` makes of a counter: aa:55 and its four bytes.
unfoldable pub mac_of_counter : ℕ → ℕ
mac_of_counter n =
    ((((0xaa * 0x100 + 0x55) * 0x100 + n / 0x1000000 % 0x100) * 0x100 + n / 0x10000 % 0x100) * 0x100
        + n / 0x100 % 0x100)
      * 0x100
    + n % 0x100

-- The new device, and the counter after it: an `unsigned int`, which starts at 0xaa550000.
unfoldable pub construct : Fpa → NetdevClass → Name → ℕ → FpaNetdev × ℕ
unfolding mac_of_counter
construct F class name next_n = (
  record {
    class = class;
    name = name;
    sid = F.invalid_switch_id;
    pid = F.invalid_intf_id;
    mac = mac_of_counter next_n;
    inited = false;
    link_status = false;
    link_resets = 0;
    tap_fd = 0;
    up = false;
    changes = 0;
  },
  (next_n + 1) % 0x100000000,
)

abbrev pub changed : FpaNetdev → FpaNetdev
changed dev = record dev { changes = dev.changes + 1 }

unfoldable pub set_etheraddr : ℕ → FpaNetdev → FpaNetdev
set_etheraddr mac dev = if dev.mac == mac then dev else changed (record dev { mac = mac })

abbrev pub bytes_eq : Name → Name → Bool
bytes_eq [] [] = true
bytes_eq [] (d ∷ t) = false
bytes_eq (c ∷ s) [] = false
bytes_eq (c ∷ s) (d ∷ t) = c == d && bytes_eq s t

-- `mac_addr` of the settings: absent, refused by `str_to_mac`, or an address.
pub data MacArg : Type 0 where
  null bad : MacArg
  address : ℕ → MacArg

pub record HwIntfInfo : Type 0 where
  pub switch_unit : Option Chars
  pub switch_intf_id : Option Chars
  pub mac_addr : MacArg
  pub bridge : Bool

-- `pause` of the settings.
pub data Pause : Type 0 where
  rx tx rxtx other : Pause

pub record HwIntfConfig : Type 0 where
  pub enable : Bool
  pub duplex_is_full : Bool
  pub speeds : Option Chars
  pub autoneg_is_on : Bool
  pub pause : Pause

abbrev pub speed_of : Option ℤ → ℕ
speed_of none = 1000
speed_of (some v) = to_word v

module _ (B : FeatureBits) where
  unfoldable pub get_interface_speed_features : HwIntfConfig → Bitmap
  unfolding str2int
  get_interface_speed_features args =
      let speed = speed_of (str2int args.speeds) in
      let bit = λ (f : Feature). set1 empty (B.fpa_bit f) in
      let of_duplex = λ (fd hd : Feature). if args.duplex_is_full then bit fd else bit hd in
      if speed == 10
      then of_duplex Feature.mb10_fd Feature.mb10_hd
      else if speed == 100
      then of_duplex Feature.mb100_fd Feature.mb100_hd
      else if speed == 1000
      then of_duplex Feature.gb1_fd Feature.gb1_hd
      else if speed == 2500
      then bit Feature.gb2_5_fd
      else if speed == 10000
      then bit Feature.gb10_fd
      else if speed == 20000
      then bit Feature.gb20_fd
      else if speed == 40000
      then bit Feature.gb40_fd
      else if speed == 100000
      then bit Feature.gb100_fd
      else if speed == 1000000
      then bit Feature.tb1_fd
      else of_duplex Feature.gb1_fd Feature.gb1_hd

  unfoldable pub get_interface_autoneg_features : HwIntfConfig → Bitmap
  get_interface_autoneg_features args =
      if args.autoneg_is_on then set1 empty (B.fpa_bit Feature.autoneg) else empty

  unfoldable pub pause_features : Pause → Bitmap
  pause_features Pause.rx = set1 empty (B.fpa_bit Feature.pause)
  pause_features Pause.tx = set1 empty (B.fpa_bit Feature.pause_asym)
  pause_features Pause.rxtx =
      set1 (set1 empty (B.fpa_bit Feature.pause)) (B.fpa_bit Feature.pause_asym)
  pause_features Pause.other = empty

  -- The features that the settings ask for, without those that the port does not support.
  unfoldable pub wanted_features : HwIntfConfig → Bitmap → Bitmap
  unfolding get_interface_speed_features get_interface_autoneg_features pause_features
  wanted_features args supported i =
      (get_interface_speed_features args i
        || get_interface_autoneg_features args i
        || pause_features args.pause i)
      && supported i
