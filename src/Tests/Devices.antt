-- ===== src/Tests/Devices.antt =====
-- Devices, strings, netdevs and the addresses of a bundle at concrete inputs.
use switchd_fpa_plugin.Prelude.{
  ℕ, length, ◌≡◌, ◌≢◌, refl, Bool, true, false, not, ◌&&◌, Option, none, some, [], ◌∷◌, ◌++◌, arith,
  ◌==◌, ==_refl, if◌then◌else◌,
}
use switchd_fpa_plugin.Prelude.Bitmap.{Bitmap, empty, set1}
use switchd_fpa_plugin.Fpa.Ports.{
  Feature, NetdevFeature, FeatureBits, PortProperties, PortCalls, feature_no, netdev_feature_no,
}
use switchd_fpa_plugin.Fpa.Sim.{Switch}
use switchd_fpa_plugin.Tap.Maps.{TapInfo}
use switchd_fpa_plugin.Tap.Interfaces.{tap_if_create, tap_if_delete, open_interface, tun_alloc}
use switchd_fpa_plugin.Dev.{FpaDev, DevState, dev_mutex_lock, get_tap_info_by_switch_id, dev_by_id}
use switchd_fpa_plugin.Dev.Lifetime.{dev_init, dev_deinit}
use switchd_fpa_plugin.Dev.Counts.{held, closed, dev_deinit-last}
use switchd_fpa_plugin.Dev.Stuck.{tap_if_create-stuck}
use switchd_fpa_plugin.Strings.{Chars, ℤ, str2ip}
use switchd_fpa_plugin.Strings.Parse.{str2ip-digits}
use switchd_fpa_plugin.Netdev.{FpaNetdev, NetdevClass, HwIntfConfig, Pause}
use switchd_fpa_plugin.Netdev.Control.{set_hw_intf_config, run_one, update_flags, no_flags}
use switchd_fpa_plugin.Netdev.Features.{
  fpa_to_netdev_features, netdev_to_fpa_features, features-there_and_back,
}
use switchd_fpa_plugin.Netdev.Config.{PortLaws, run_one-set_hw_intf_config}
use switchd_fpa_plugin.Ofproto.Hosts.{HostState, host_table_find}
use switchd_fpa_plugin.Ofproto.Bundles.{FpaBundle, IpSettings, bundle_ip_reconfigure}
use switchd_fpa_plugin.Ofproto.Bundles.Addresses.{NoHost, bundle_ip_reconfigure-primary}
use switchd_fpa_plugin.Ofproto.Bundles.{OfprotoType}
use switchd_fpa_plugin.Ofproto.Protos.{ProtoState, construct}
use switchd_fpa_plugin.Ofproto.Protos.Counted.{
  openings, is_open, is_empty, Step, Reached, Reached-IsCounted,
}
use switchd_fpa_plugin.Tests.Setting.{F, blank, O, no_ml, inet_addr, E, key}
use switchd_fpa_plugin.Prelude.Errno.{efault}

abbrev pub info : TapInfo
info = record {
  switch_id = 0;
  fd_to_tap_if_map = [];
  tap_pipe = [];
  asic_pipe = [];
  ctrl_fds = 4 ∷ 5 ∷ 6 ∷ 7 ∷ [];
}

abbrev pub dev : FpaDev
dev = record { switch_id = 0; ref_cnt = 2; tap_if_info = some info; ml = none }

abbrev opened : DevState F O
opened = held F O dev false blank 0

abbrev stuck : DevState F O
stuck = held F O dev true blank 1

create_fails : tap_if_create F O 16 0 3 (b'a' ∷ []) 0xaa opened ≡ some (efault, none, stuck)
unfolding tap_if_create dev_mutex_lock get_tap_info_by_switch_id dev_by_id open_interface tun_alloc
create_fails = refl

efault_ne_0 : efault ≢ 0
efault_ne_0 = omega arith

tap_if_create-stuck_example :
    (tap_if_create F O 16 0 4 (b'b' ∷ []) 0xbb stuck ≡ none)
    × (tap_if_delete F O 16 0 7 stuck ≡ none)
    × (dev_init F O 16 no_ml 0 stuck ≡ none)
    × (dev_deinit F O 16 no_ml 0 stuck ≡ none)
tap_if_create-stuck_example =
    tap_if_create-stuck F O 16 no_ml 0 3 (b'a' ∷ []) 0xaa opened stuck efault none 0 4 (b'b' ∷ [])
      0xbb 7 create_fails efault_ne_0

dev_deinit-last_example :
    dev_deinit F O 16 no_ml 0 (held F O (record dev { ref_cnt = 1 }) false blank 0)
    ≡ some (record { locked = false; dev = none; hw = blank; world = closed O (some info) 0 })
dev_deinit-last_example = dev_deinit-last F O 16 no_ml dev blank 0 refl

abbrev address : Chars
address = b'1' ∷ b'.' ∷ b'2' ∷ []

-- A length of 8, and one of -8, which is accepted too.
str2ip-digits_example :
    (str2ip inet_addr (address ++ (b'/' ∷ b'0' ∷ b'8' ∷ [])) ≡ some (0x02000001, ℤ.pos 8))
    × (str2ip inet_addr (address ++ (b'/' ∷ b'-' ∷ b'0' ∷ b'8' ∷ []))
        ≡ some (0x02000001, ℤ.negsuc 7))
str2ip-digits_example = str2ip-digits inet_addr address b'0' (b'8' ∷ []) refl (omega arith) refl

abbrev pub B : FeatureBits
B = record {
  fpa_bit = feature_no;
  netdev_bit = netdev_feature_no;
  fpa_distinct = λ a b. refl;
  netdev_distinct = λ a b. refl;
}

abbrev one_gb : Bitmap
one_gb = set1 empty 4

features-there_and_back_example :
    (fpa_to_netdev_features B (netdev_to_fpa_features B one_gb) 4 ≡ true)
    × (netdev_to_fpa_features B (fpa_to_netdev_features B one_gb) 6 ≡ false)
features-there_and_back_example =
    features-there_and_back B one_gb one_gb NetdevFeature.gb1_hd Feature.gb2_5_fd

-- Ports that are read as they have been set.
abbrev pub P : PortCalls Switch
P = record {
  properties_get = λ sid pid props hw. (0, record props { down = hw.down sid pid });
  properties_set = λ sid pid props hw.
      (0, record hw { down = λ s p. if s == sid && p == pid then props.down else hw.down s p });
}

port-down :
    (sid pid : ℕ) (props asked : PortProperties) (hw : Switch)
    → (P.properties_get sid pid asked (P.properties_set sid pid props hw).1).1.down ≡ props.down
port-down sid pid props asked hw = rw (==_refl sid, ==_refl pid) refl

W : PortLaws F.Hw P
W = record { down-set = λ sid pid props asked hw config accepted. port-down sid pid props asked hw }

abbrev pub zeroed : PortProperties
zeroed = record {
  flags = no_flags;
  down = false;
  features_bmp = empty;
  supported_bmp = empty;
  advert_bmp = empty;
  peer_bmp = empty;
}

abbrev pub shutdown : HwIntfConfig
shutdown = record {
  enable = false;
  duplex_is_full = true;
  speeds = none;
  autoneg_is_on = false;
  pause = Pause.other;
}

abbrev pub port_3 : FpaNetdev
port_3 = record {
  class = NetdevClass.system;
  name = b'3' ∷ [];
  sid = 0;
  pid = 3;
  mac = 0xaa;
  inited = true;
  link_status = true;
  link_resets = 1;
  tap_fd = 7;
  up = true;
  changes = 0;
}

abbrev pub any_set : Bitmap → Bool
any_set w = w 0

abbrev configured : ℕ × FpaNetdev × F.Hw
configured = set_hw_intf_config F O P B 16 any_set zeroed shutdown port_3 blank

config_runs : configured ≡ (0, configured.1, configured.2)
unfolding set_hw_intf_config
config_runs = refl

config_sid : (configured.1.sid == F.invalid_switch_id) ≡ false
unfolding set_hw_intf_config
config_sid = refl

run_one-set_hw_intf_config_example :
    (configured.1.up ≡ false)
    × ((run_one F O P B 16 zeroed configured.2 configured.1).link_status ≡ false)
    × (update_flags F O P B 16 zeroed false false configured.1 configured.2
        ≡ (0, false, configured.2))
run_one-set_hw_intf_config_example =
    run_one-set_hw_intf_config F O P W B 16 any_set zeroed zeroed zeroed shutdown port_3
      configured.1 blank configured.2 config_runs refl refl config_sid

abbrev hosts : HostState F
hosts = record {
  hw = blank;
  internal_vlans = empty;
  ports = record { mask = 0; nodes = [] };
  ml = none;
  arp_indices = 1 ∷ 0 ∷ [];
  host_mask = 0;
  host_table = [];
}

abbrev bundle : FpaBundle
bundle = record {
  aux = 1;
  name = none;
  base = record { intf_id = 3; l3_intf = none };
  ip4addr = some address;
  secondary_ip4addr = [];
}

abbrev no_address : IpSettings
no_address = record {
  primary_ipv4_changed = true;
  secondary_ipv4_changed = false;
  ip4_address = none;
  ip4_address_secondary = [];
}

no_hosts : (s : Chars) → bundle.ip4addr ≡ some s → NoHost F key E inet_addr s hosts
unfolding host_table_find
no_hosts s e a h = refl

bundle_ip_reconfigure-primary_example :
    bundle_ip_reconfigure F key E inet_addr no_address bundle hosts
    ≡ some (record bundle { ip4addr = none }, hosts)
bundle_ip_reconfigure-primary_example =
    bundle_ip_reconfigure-primary F key E inet_addr no_address bundle hosts refl no_hosts

-- The first ofproto opens the device.
abbrev no_protos : ProtoState F O 16 0 no_ml
no_protos = record {
  protos = [];
  devs = record { locked = false; dev = none; hw = blank; world = 0 };
}

abbrev after : Option (ℕ × ProtoState F O 16 0 no_ml) → ProtoState F O 16 0 no_ml
after none = no_protos
after (some r) = r.1

abbrev one_proto : ProtoState F O 16 0 no_ml
one_proto = after (construct F O 16 0 no_ml OfprotoType.system (b'b' ∷ []) no_protos)

construct_runs :
    construct F O 16 0 no_ml OfprotoType.system (b'b' ∷ []) no_protos ≡ some (0, one_proto)
unfolding construct dev_init
construct_runs = refl

one_proto-Reached : Reached F O 16 0 no_ml no_protos one_proto
one_proto-Reached =
    Reached.later Reached.start
      (Step.constructs OfprotoType.system (b'b' ∷ []) 0 (omega arith) construct_runs)

Reached-IsCounted_example :
    (openings one_proto.devs.dev ≡ length one_proto.protos)
    × (is_open one_proto.devs.dev ≡ not (is_empty one_proto.protos))
Reached-IsCounted_example =
    Reached-IsCounted F O 16 0 no_ml no_protos.devs one_proto refl one_proto-Reached
