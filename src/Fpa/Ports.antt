-- ===== src/Fpa/Ports.antt =====
-- The calls of the FPA library on the properties of ports, as src/ops-fpa-netdev.c uses them. A
-- word of flags is a bitmap, and a flag the index of its bit.
use switchd_fpa_plugin.Prelude.{ℕ, ◌≡◌, Bool, ◌==◌}
use switchd_fpa_plugin.Prelude.Bitmap.{Bitmap}

-- `FPA_PORT_FEAT_...`.
pub data Feature : Type 0 where
  mb10_hd mb10_fd mb100_hd mb100_fd gb1_hd gb1_fd gb2_5_fd gb10_fd gb20_fd gb40_fd gb100_fd tb1_fd
        other copper fiber autoneg pause pause_asym :
      Feature

-- `NETDEV_F_...`.
pub data NetdevFeature : Type 0 where
  mb10_hd mb10_fd mb100_hd mb100_fd gb1_hd gb1_fd gb10_fd gb40_fd gb100_fd tb1_fd other copper fiber
        autoneg pause pause_asym :
      NetdevFeature

abbrev pub feature_no : Feature → ℕ
feature_no Feature.mb10_hd = 0
feature_no Feature.mb10_fd = 1
feature_no Feature.mb100_hd = 2
feature_no Feature.mb100_fd = 3
feature_no Feature.gb1_hd = 4
feature_no Feature.gb1_fd = 5
feature_no Feature.gb2_5_fd = 6
feature_no Feature.gb10_fd = 7
feature_no Feature.gb20_fd = 8
feature_no Feature.gb40_fd = 9
feature_no Feature.gb100_fd = 10
feature_no Feature.tb1_fd = 11
feature_no Feature.other = 12
feature_no Feature.copper = 13
feature_no Feature.fiber = 14
feature_no Feature.autoneg = 15
feature_no Feature.pause = 16
feature_no Feature.pause_asym = 17

abbrev pub netdev_feature_no : NetdevFeature → ℕ
netdev_feature_no NetdevFeature.mb10_hd = 0
netdev_feature_no NetdevFeature.mb10_fd = 1
netdev_feature_no NetdevFeature.mb100_hd = 2
netdev_feature_no NetdevFeature.mb100_fd = 3
netdev_feature_no NetdevFeature.gb1_hd = 4
netdev_feature_no NetdevFeature.gb1_fd = 5
netdev_feature_no NetdevFeature.gb10_fd = 6
netdev_feature_no NetdevFeature.gb40_fd = 7
netdev_feature_no NetdevFeature.gb100_fd = 8
netdev_feature_no NetdevFeature.tb1_fd = 9
netdev_feature_no NetdevFeature.other = 10
netdev_feature_no NetdevFeature.copper = 11
netdev_feature_no NetdevFeature.fiber = 12
netdev_feature_no NetdevFeature.autoneg = 13
netdev_feature_no NetdevFeature.pause = 14
netdev_feature_no NetdevFeature.pause_asym = 15

-- Which bits the headers give the features: two features never share one.
pub record FeatureBits : Type 0 where
  pub fpa_bit : Feature → ℕ
  pub netdev_bit : NetdevFeature → ℕ
  pub fpa_distinct : (a b : Feature) → (fpa_bit a == fpa_bit b) ≡ (feature_no a == feature_no b)
  pub netdev_distinct :
      (a b : NetdevFeature)
      → (netdev_bit a == netdev_bit b) ≡ (netdev_feature_no a == netdev_feature_no b)

-- `FPA_PORT_PROPERTIES_STC`; of `config` only `FPA_PORT_CONFIG_DOWN` is used, of `flags` the five
-- below.
pub record PortFlags : Type 0 where
  pub config : Bool
  pub features : Bool
  pub advertised : Bool
  pub supported : Bool
  pub peer : Bool

pub record PortProperties : Type 0 where
  pub flags : PortFlags
  pub down : Bool
  pub features_bmp : Bitmap
  pub supported_bmp : Bitmap
  pub advert_bmp : Bitmap
  pub peer_bmp : Bitmap

-- `fpaLibPortPropertiesGet`, which reads and fills the record that it is given, and
-- `fpaLibPortPropertiesSet`.
pub record PortCalls (Hw : Type 0) : Type 0 where
  pub properties_get : ℕ → ℕ → PortProperties → Hw → ℕ × PortProperties
  pub properties_set : ℕ → ℕ → PortProperties → Hw → ℕ × Hw

-- The counters of `FPA_PORT_COUNTERS_STC` that are read.
pub record PortCounters : Type 0 where
  pub rx_packets : ℕ
  pub tx_packets : ℕ
  pub rx_bytes : ℕ
  pub tx_bytes : ℕ
  pub rx_dropped : ℕ
  pub tx_dropped : ℕ
  pub rx_errors : ℕ
  pub tx_errors : ℕ
  pub rx_frame_errors : ℕ
  pub rx_over_errors : ℕ
  pub rx_crc_errors : ℕ
  pub collisions : ℕ
