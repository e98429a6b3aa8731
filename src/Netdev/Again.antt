-- ===== src/Netdev/Again.antt =====
-- Setting the hardware information of a device of src/ops-fpa-netdev.c once more.
use switchd_fpa_plugin.Prelude.{
  ℕ, ◌≡◌, true, Option, some, arith, Bool-cases, Option-cases, inl, inr,
}
use switchd_fpa_plugin.Fpa.{Fpa}
use switchd_fpa_plugin.Fpa.Ports.{FeatureBits, PortCalls}
use switchd_fpa_plugin.Os.{Os}
use switchd_fpa_plugin.Dev.{DevState}
use switchd_fpa_plugin.Strings.{str2int}
use switchd_fpa_plugin.Tap.Interfaces.{tap_if_create}
use switchd_fpa_plugin.Netdev.{is_system, to_word, FpaNetdev, HwIntfInfo, MacArg}
use switchd_fpa_plugin.Netdev.Control.{create_tap, set_hw_intf_info, internal_set_hw_intf_info}
use switchd_fpa_plugin.Netdev.Classes.{Handler}

module _ (F : Fpa) (O : Os) (P : PortCalls F.Hw) (B : FeatureBits) (room : ℕ) where
  -- A handler of either kind, on the state of the devices.
  unfoldable pub handle_info :
      Handler → HwIntfInfo → FpaNetdev → DevState F O → Option (ℕ × FpaNetdev × DevState F O)
  unfolding set_hw_intf_info internal_set_hw_intf_info
  handle_info Handler.hardware args dev st = set_hw_intf_info F O P B room args dev st
  handle_info Handler.software args dev st =
      let (err, dev', w) = internal_set_hw_intf_info F O P B room args dev st.world in
      some (err, dev', record st { world = w })

  create_tap-inited :
      (dev dev' : FpaNetdev) (mac : MacArg) (st st' : DevState F O)
      → create_tap F O P B room dev mac st ≡ some (0, dev', st')
      → dev'.inited ≡ true
  unfolding create_tap
  create_tap-inited dev dev' MacArg.null st st' h = cc
  create_tap-inited dev dev' MacArg.bad st st' h = ground (arith, h)
  create_tap-inited dev dev' (MacArg.address mac) st st' h =
      elim (Option-cases (tap_if_create F O room dev.sid dev.pid dev.name mac st)) [
        | inl stuck ↦ absurd (ground (arith, h, stuck))
        | inr (made, done) ↦ elim (Option-cases made.1) [
          | inl failed ↦ absurd (ground (arith, h, done, failed))
          | inr (fd, there) ↦ ground (arith, h, done, there)
        ]
      ]

  info-inited :
      (args : HwIntfInfo) (dev dev' : FpaNetdev) (st st' : DevState F O)
      → set_hw_intf_info F O P B room args dev st ≡ some (0, dev', st')
      → dev'.inited ≡ true
  unfolding set_hw_intf_info
  info-inited args dev dev' st st' h = elim (Bool-cases dev.inited) [
    | inl inited ↦ ground (arith, h, inited)
    | inr new ↦ elim (Bool-cases (is_system dev.class)) [
      | inr other ↦ ground (arith, h, new, other)
      | inl system ↦ elim (Option-cases (str2int args.switch_unit)) [
        | inl bad_unit ↦ absurd (ground (arith, h, new, system, bad_unit))
        | inr (sid, unit) ↦ elim (Option-cases (str2int args.switch_intf_id)) [
          | inl bad_id ↦ absurd (ground (arith, h, new, system, unit, bad_id))
          | inr (pid, id) ↦
              create_tap-inited (record dev { sid = to_word sid; pid = to_word pid }) dev'
                args.mac_addr st st' (ground (arith, h, new, system, unit, id))
        ]
      ]
    ]
  ]

  handled-inited :
      (handler : Handler) (args : HwIntfInfo) (dev dev' : FpaNetdev) (st st' : DevState F O)
      → handle_info handler args dev st ≡ some (0, dev', st')
      → dev'.inited ≡ true
  unfolding handle_info internal_set_hw_intf_info
  handled-inited Handler.hardware args dev dev' st st' h = info-inited args dev dev' st st' h
  handled-inited Handler.software args dev dev' st st' h = ground (arith, h)

  -- After the hardware information of a device has been set with status 0, by the handler of the
  -- hardware or by the internal one, setting it again, to whatever it is, returns 0 and changes
  -- neither the device nor the devices' state.
  pub handle_info-again :
      (handler : Handler) (args again : HwIntfInfo) (dev dev' : FpaNetdev)
      (st st' later : DevState F O)
      → handle_info handler args dev st ≡ some (0, dev', st')
      → handle_info handler again dev' later ≡ some (0, dev', later)
  unfolding handle_info set_hw_intf_info internal_set_hw_intf_info
  handle_info-again Handler.hardware args again dev dev' st st' later h =
      ground (arith, info-inited args dev dev' st st' h)
  handle_info-again Handler.software args again dev dev' st st' later h =
      ground (arith, handled-inited Handler.software args dev dev' st st' h)
