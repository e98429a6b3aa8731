-- ===== src/Netdev/Control.antt =====
-- The devices of src/ops-fpa-netdev.c at work: configuration, features, flags and the link.
use switchd_fpa_plugin.Prelude.{
  ℕ, ◌+◌, Bool, true, false, not, ◌||◌, Option, none, some, ◌==◌, if◌then◌else◌,
}
use switchd_fpa_plugin.Prelude.Bitmap.{Bitmap, empty}
use switchd_fpa_plugin.Fpa.{Fpa}
use switchd_fpa_plugin.Fpa.Ports.{FeatureBits, PortFlags, PortProperties, PortCalls}
use switchd_fpa_plugin.Os.{Os}
use switchd_fpa_plugin.Strings.{str2int}
use switchd_fpa_plugin.Dev.{DevState, ◌>>=◌}
use switchd_fpa_plugin.Tap.Interfaces.{
  bridge_create, bridge_delete, bridge_normal, tap_if_create, tap_if_delete,
}
use switchd_fpa_plugin.Netdev.Features.{fpa_to_netdev_features, netdev_to_fpa_features}
use switchd_fpa_plugin.Netdev.{
  is_system, FpaNetdev, changed, to_word, bytes_eq, MacArg, HwIntfInfo, HwIntfConfig,
  wanted_features,
}
use switchd_fpa_plugin.Prelude.Errno.{eperm, einval, eopnotsupp}

abbrev pub no_flags : PortFlags
no_flags = record {
  config = false;
  features = false;
  advertised = false;
  supported = false;
  peer = false;
}

module _ (F : Fpa) (O : Os) (P : PortCalls F.Hw) (B : FeatureBits) (room : ℕ) where
  -- One device of the loop of `ops_fpa_netdev_run`; `props` is the record that is passed.
  unfoldable pub run_one : PortProperties → F.Hw → FpaNetdev → FpaNetdev
  run_one props hw dev =
      let (err, got) = P.properties_get dev.sid dev.pid props hw in
      let link_status = not got.down in
      let seen = changed (record dev {
        link_status = link_status;
        link_resets = if link_status then dev.link_resets + 1 else dev.link_resets;
      }) in
      if err == 0
      then (if link_status
          then (if dev.link_status then dev else seen)
          else (if dev.link_status then seen else dev))
      else dev

  -- The interface is created once the settings have been read.
  unfoldable pub create_tap :
      FpaNetdev → MacArg → DevState F O → Option (ℕ × FpaNetdev × DevState F O)
  unfolding tap_if_create
  create_tap dev MacArg.null st = none
  create_tap dev MacArg.bad st = some (einval, dev, st)
  create_tap dev (MacArg.address mac) st = do
    made ← tap_if_create F O room dev.sid dev.pid dev.name mac st
    let dev1 = record dev { mac = mac }
    elim made.1 [
      | none ↦ some (einval, dev1, made.2)
      | some fd ↦ some (0, record dev1 { tap_fd = fd; inited = true }, made.2)
    ]

  -- `ops_fpa_netdev_set_hw_intf_info`. The fields are written as they are read.
  unfoldable pub set_hw_intf_info :
      HwIntfInfo → FpaNetdev → DevState F O → Option (ℕ × FpaNetdev × DevState F O)
  unfolding create_tap str2int
  set_hw_intf_info args dev st =
      if dev.inited
      then some (0, dev, st)
      else if is_system dev.class
      then (elim (str2int args.switch_unit) [
        | none ↦ some (einval, dev, st)
        | some sid ↦
            if to_word sid == F.invalid_switch_id
            then none
            else (elim (str2int args.switch_intf_id) [
              | none ↦ some (einval, record dev { sid = to_word sid }, st)
              | some pid ↦
                  if to_word pid == F.invalid_intf_id
                  then none
                  else create_tap (record dev { sid = to_word sid; pid = to_word pid })
                      args.mac_addr st
            ])
      ])
      else some (0, record dev { inited = true }, st)

  -- `internal_netdev_set_hw_intf_info`.
  unfoldable pub internal_set_hw_intf_info :
      HwIntfInfo → FpaNetdev → O.World → ℕ × FpaNetdev × O.World
  unfolding bridge_create
  internal_set_hw_intf_info args dev w =
      let (ret, w1) = bridge_create O dev.name dev.mac w in
      if dev.inited
      then (0, dev, w)
      else if args.bridge
      then (if ret == 0 then (0, record dev { inited = true }, w1) else (einval, dev, w1))
      else (0, record dev { inited = true }, w)

  unfoldable pub destruct : FpaNetdev → DevState F O → Option (DevState F O)
  unfolding tap_if_delete bridge_delete
  destruct dev st = do
    st1 ←
        (if dev.tap_fd == 0
          then some st
          else (tap_if_delete F O room dev.sid dev.tap_fd st >>= λ r. some r.1))
    some (
        if bytes_eq dev.name bridge_normal
        then record st1 { world = (bridge_delete O bridge_normal st1.world).1 }
        else st1)

  -- The record that `ops_fpa_netdev_set_hw_intf_config` passes to the library; the test is whether
  -- a feature is left.
  unfoldable pub config_props : HwIntfConfig → Bool → PortProperties → PortProperties
  unfolding wanted_features
  config_props args some_left got =
      if args.enable
      then record got {
        flags = record no_flags { config = true; features = some_left };
        down = false;
        features_bmp = wanted_features B args got.supported_bmp;
      }
      else record got { flags = record no_flags { config = true }; down = true }

  -- `any_set` tells whether a word has a bit.
  unfoldable pub set_hw_intf_config :
      (Bitmap → Bool) → PortProperties → HwIntfConfig → FpaNetdev → F.Hw → ℕ × FpaNetdev × F.Hw
  unfolding config_props
  set_hw_intf_config any_set props args dev hw =
      let (err, got) =
        P.properties_get dev.sid dev.pid
          (record props { flags = record no_flags { supported = true } }) hw in
      let left = any_set (wanted_features B args got.supported_bmp) in
      let dev1 = record dev { up = args.enable } in
      let (err2, hw2) = P.properties_set dev.sid dev.pid (config_props args left got) hw in
      if dev.inited
      then (if err == 0
          then (if err2 == 0 then (0, changed dev1, hw2) else (einval, dev1, hw2))
          else (einval, dev, hw))
      else (eperm, dev, hw)

  unfoldable pub internal_set_hw_intf_config : HwIntfConfig → FpaNetdev → ℕ × FpaNetdev
  internal_set_hw_intf_config args dev =
      if dev.inited then (0, changed (record dev { up = args.enable })) else (eperm, dev)

  -- The four words: current, advertised, supported and peer.
  unfoldable pub get_features :
      PortProperties → FpaNetdev → F.Hw → ℕ × Bitmap × Bitmap × Bitmap × Bitmap
  unfolding fpa_to_netdev_features
  get_features props dev hw =
      let (err, got) = P.properties_get dev.sid dev.pid props hw in
      let word = λ (b : Bool) (w : Bitmap). if b then fpa_to_netdev_features B w else empty in
      if err == 0
      then (
        0,
        word got.flags.features got.features_bmp,
        word got.flags.advertised got.advert_bmp,
        word got.flags.supported got.supported_bmp,
        word got.flags.peer got.peer_bmp,
      )
      else (einval, empty, empty, empty, empty)

  unfoldable pub set_advertisements : PortProperties → Bitmap → FpaNetdev → F.Hw → ℕ × F.Hw
  unfolding netdev_to_fpa_features
  set_advertisements zeroed advertise dev hw =
      let (err, hw1) =
        P.properties_set dev.sid dev.pid
          (record zeroed {
            flags = record no_flags { advertised = true };
            advert_bmp = netdev_to_fpa_features B advertise;
          })
          hw in
      (if err == 0 then 0 else einval, hw1)

  -- `off` and `on` say whether they hold `NETDEV_UP`; the second result is whether `*old_flags`
  -- does.
  unfoldable pub update_flags : PortProperties → Bool → Bool → FpaNetdev → F.Hw → ℕ × Bool × F.Hw
  update_flags zeroed off on dev hw =
      let (err, got) =
        P.properties_get dev.sid dev.pid
          (record zeroed { flags = record no_flags { config = true }; down = false }) hw in
      let (err2, hw2) =
        P.properties_set dev.sid dev.pid (record got { down = if on then false else true }) hw in
      if dev.sid == F.invalid_switch_id
      then (eopnotsupp, false, hw)
      else if err == 0
      then (if on || off
          then (if err2 == 0 then (0, not got.down, hw2) else (einval, not got.down, hw2))
          else (0, not got.down, hw))
      else (einval, false, hw)
