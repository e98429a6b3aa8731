-- ===== src/Netdev/Classes.antt =====
-- The four classes of src/ops-fpa-netdev.c: the handlers that each names, and the queries.
use switchd_fpa_plugin.Prelude.{ℕ, Bool, true, false, Option, none, some, ◌==◌, if◌then◌else◌}
use switchd_fpa_plugin.Fpa.Ports.{PortCounters}
use switchd_fpa_plugin.Prelude.Errno.{einval, eopnotsupp}
use switchd_fpa_plugin.Netdev.{FpaNetdev, NetdevClass}

-- Of two implementations of a handler, the one that reaches the switch or the internal one.
pub data Handler : Type 0 where
  hardware software : Handler

-- `struct netdev_class`. `alloc`, `construct`, `destruct`, `dealloc`, `set_etheraddr` and
-- `get_etheraddr` are the same functions in every class, and the members that are left out are
-- NULL in every class.
pub record ClassOps : Type 0 where
  pub runs : Bool
  pub set_hw_intf_info : Option Handler
  pub set_hw_intf_config : Option Handler
  pub get_ifindex : Bool
  pub get_carrier : Bool
  pub get_carrier_resets : Bool
  pub get_stats : Bool
  pub get_features : Bool
  pub set_advertisements : Bool
  pub update_flags : Handler

abbrev pub fpa_netdev_system : ClassOps
fpa_netdev_system = record {
  runs = true;
  set_hw_intf_info = some Handler.hardware;
  set_hw_intf_config = some Handler.hardware;
  get_ifindex = true;
  get_carrier = true;
  get_carrier_resets = true;
  get_stats = true;
  get_features = true;
  set_advertisements = true;
  update_flags = Handler.hardware;
}

abbrev pub fpa_netdev_internal : ClassOps
fpa_netdev_internal = record {
  runs = false;
  set_hw_intf_info = some Handler.software;
  set_hw_intf_config = some Handler.software;
  get_ifindex = true;
  get_carrier = false;
  get_carrier_resets = false;
  get_stats = false;
  get_features = false;
  set_advertisements = false;
  update_flags = Handler.software;
}

abbrev pub fpa_netdev_vlansubint : ClassOps
fpa_netdev_vlansubint = record {
  runs = false;
  set_hw_intf_info = some Handler.hardware;
  set_hw_intf_config = some Handler.hardware;
  get_ifindex = false;
  get_carrier = true;
  get_carrier_resets = false;
  get_stats = false;
  get_features = false;
  set_advertisements = false;
  update_flags = Handler.hardware;
}

abbrev pub fpa_netdev_l3_loopback : ClassOps
fpa_netdev_l3_loopback = record {
  runs = false;
  set_hw_intf_info = none;
  set_hw_intf_config = none;
  get_ifindex = false;
  get_carrier = false;
  get_carrier_resets = false;
  get_stats = false;
  get_features = false;
  set_advertisements = false;
  update_flags = Handler.software;
}

-- The providers that `netdev_register` registers.
abbrev pub class_ops : NetdevClass → ClassOps
class_ops NetdevClass.system = fpa_netdev_system
class_ops NetdevClass.internal = fpa_netdev_internal
class_ops NetdevClass.vlansubint = fpa_netdev_vlansubint
class_ops NetdevClass.loopback = fpa_netdev_l3_loopback

abbrev pub get_etheraddr : FpaNetdev → ℕ × ℕ
get_etheraddr dev = (0, dev.mac)

abbrev pub get_mtu : FpaNetdev → ℕ
get_mtu dev = eopnotsupp

abbrev pub set_mtu : ℕ → FpaNetdev → ℕ
set_mtu mtu dev = eopnotsupp

-- An int as its bit pattern.
abbrev pub get_ifindex : FpaNetdev → ℕ
get_ifindex dev = dev.pid

abbrev pub get_carrier : FpaNetdev → ℕ × Bool
get_carrier dev = (0, dev.link_status)

abbrev pub get_carrier_resets : FpaNetdev → ℕ
get_carrier_resets dev = dev.link_resets

abbrev pub internal_update_flags : FpaNetdev → ℕ × Bool
internal_update_flags dev = (0, dev.up)

-- `struct netdev_stats`; each member that the plugin never sets has the value of `others`.
pub record NetdevStats : Type 0 where
  pub rx_packets : ℕ
  pub tx_packets : ℕ
  pub rx_bytes : ℕ
  pub tx_bytes : ℕ
  pub rx_dropped : ℕ
  pub tx_dropped : ℕ
  pub rx_errors : ℕ
  pub tx_errors : ℕ
  pub rx_frame_errors : ℕ
  pub rx_fifo_errors : ℕ
  pub rx_crc_errors : ℕ
  pub collisions : ℕ
  pub others : ℕ

-- The bytes 0xFF in each member of 64 bits.
abbrev pub unset : ℕ
unset = 0xffffffffffffffff

abbrev pub no_stats : NetdevStats
no_stats = record {
  rx_packets = unset;
  tx_packets = unset;
  rx_bytes = unset;
  tx_bytes = unset;
  rx_dropped = unset;
  tx_dropped = unset;
  rx_errors = unset;
  tx_errors = unset;
  rx_frame_errors = unset;
  rx_fifo_errors = unset;
  rx_crc_errors = unset;
  collisions = unset;
  others = unset;
}

-- The counters of a port, member by member.
abbrev pub stats_of : PortCounters → NetdevStats
stats_of counters = record no_stats {
  rx_packets = counters.rx_packets;
  tx_packets = counters.tx_packets;
  rx_bytes = counters.rx_bytes;
  tx_bytes = counters.tx_bytes;
  rx_dropped = counters.rx_dropped;
  tx_dropped = counters.tx_dropped;
  rx_errors = counters.rx_errors;
  tx_errors = counters.tx_errors;
  rx_frame_errors = counters.rx_frame_errors;
  rx_fifo_errors = counters.rx_over_errors;
  rx_crc_errors = counters.rx_crc_errors;
  collisions = counters.collisions;
}

abbrev pub is_internal : NetdevClass → Bool
is_internal NetdevClass.internal = true
is_internal c = false

-- `fpaLibPortStatisticsGet` is a parameter. `*stats` is left alone where the call fails.
unfoldable pub get_stats :
    {Hw : Type 0} → (ℕ → ℕ → Hw → ℕ × PortCounters) → FpaNetdev → NetdevStats → Hw → ℕ × NetdevStats
get_stats statistics_get dev stats hw =
    let (err, counters) = statistics_get dev.sid dev.pid hw in
    if is_internal dev.class
    then (0, no_stats)
    else if err == 0
    then (0, stats_of counters)
    else (einval, stats)
