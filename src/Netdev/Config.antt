-- ===== src/Netdev/Config.antt =====
-- Configuring a port in src/ops-fpa-netdev.c, and what is then read of it.
use switchd_fpa_plugin.Prelude.{
  ℕ, ◌+◌, ◌≡◌, refl, ap, ◌∙◌, Bool, true, false, not, arith, ◌==◌, Bool-cases, inl, inr,
}
use switchd_fpa_plugin.Prelude.Bitmap.{Bitmap}
use switchd_fpa_plugin.Fpa.{Fpa}
use switchd_fpa_plugin.Fpa.Ports.{FeatureBits, PortProperties, PortCalls}
use switchd_fpa_plugin.Os.{Os}
use switchd_fpa_plugin.Netdev.{FpaNetdev, HwIntfConfig, wanted_features}
use switchd_fpa_plugin.Netdev.Control.{
  config_props, set_hw_intf_config, run_one, update_flags, no_flags,
}

-- What is assumed of the library: where a port has been set with the configuration flag, it is read
-- as it was set.
pub record PortLaws (Hw : Type 0) (P : PortCalls Hw) : Type 0 where
  pub down-set :
      (sid pid : ℕ) (props asked : PortProperties) (hw : Hw)
      → props.flags.config ≡ true
      → (P.properties_set sid pid props hw).0 ≡ 0
      → (P.properties_get sid pid asked (P.properties_set sid pid props hw).1).1.down ≡ props.down

module _ (F : Fpa) (O : Os) (P : PortCalls F.Hw) (W : PortLaws F.Hw P) (B : FeatureBits) (room : ℕ)
    (any_set : Bitmap → Bool) where
  config_props-down :
      (args : HwIntfConfig) (left : Bool) (got : PortProperties)
      → ((config_props F O P B room args left got).down ≡ not args.enable)
        × ((config_props F O P B room args left got).flags.config ≡ true)
  unfolding config_props
  config_props-down args left got = elim (Bool-cases args.enable) [
    | inl on ↦ rw on (refl, refl)
    | inr off ↦ rw off (refl, refl)
  ]

  -- The record that a configuration passes to the library.
  abbrev passed : PortProperties → HwIntfConfig → FpaNetdev → F.Hw → PortProperties
  passed props args dev hw =
      let got =
        (P.properties_get dev.sid dev.pid
          (record props { flags = record no_flags { supported = true } }) hw).1 in
      config_props F O P B room args (any_set (wanted_features B args got.supported_bmp)) got

  configured :
      (props : PortProperties) (args : HwIntfConfig) (dev dev' : FpaNetdev) (hw hw' : F.Hw)
      → set_hw_intf_config F O P B room any_set props args dev hw ≡ (0, dev', hw')
      → (dev' ≡ record dev { up = args.enable; changes = dev.changes + 1 })
        × (hw' ≡ (P.properties_set dev.sid dev.pid (passed props args dev hw) hw).1)
        × ((P.properties_set dev.sid dev.pid (passed props args dev hw) hw).0 ≡ 0)
  unfolding set_hw_intf_config
  configured props args dev dev' hw hw' h = ground (arith, h)

  -- After the settings of a port with a valid switch have been applied with status 0, where the
  -- library reads a port as it was set: the flag of the device, the link that a run then sees, if
  -- it can read the port, and the flags that a query reports, if it can, all say whether the
  -- settings enable the port; the query changes nothing.
  pub run_one-set_hw_intf_config :
      (props asked zeroed : PortProperties) (args : HwIntfConfig) (dev dev' : FpaNetdev)
      (hw hw' : F.Hw)
      → set_hw_intf_config F O P B room any_set props args dev hw ≡ (0, dev', hw')
      → (P.properties_get dev'.sid dev'.pid asked hw').0 ≡ 0
      → (P.properties_get dev'.sid dev'.pid
          (record zeroed { flags = record no_flags { config = true }; down = false })
          hw').0
        ≡ 0
      → (dev'.sid == F.invalid_switch_id) ≡ false
      → (dev'.up ≡ args.enable)
        × ((run_one F O P B room asked hw' dev').link_status ≡ args.enable)
        × (update_flags F O P B room zeroed false false dev' hw' ≡ (0, args.enable, hw'))
  unfolding run_one update_flags
  run_one-set_hw_intf_config props asked zeroed args dev dev' hw hw' done reads reads2 valid =
      let c = configured props args dev dev' hw hw' done in
      let same_sid : dev'.sid ≡ dev.sid = ap (λ (d : FpaNetdev). d.sid) c.0 in
      let same_pid : dev'.pid ≡ dev.pid = ap (λ (d : FpaNetdev). d.pid) c.0 in
      let at = config_props-down args _ _ in
      let down = λ (x : PortProperties).
        W.down-set dev.sid dev.pid (passed props args dev hw) x hw at.1 c.2 ∙ at.0 in
      let z : PortProperties = record zeroed {
        flags = record no_flags { config = true };
        down = false;
      } in
      (
        ap (λ (d : FpaNetdev). d.up) c.0,
        ground (arith, reads, seen asked (down asked) c.1 same_sid same_pid),
        ground (arith, reads2, seen z (down z) c.1 same_sid same_pid, valid),
      )
    where
      seen :
          (x : PortProperties) {h : F.Hw}
          → (P.properties_get dev.sid dev.pid x h).1.down ≡ not args.enable
          → hw' ≡ h
          → dev'.sid ≡ dev.sid
          → dev'.pid ≡ dev.pid
          → (P.properties_get dev'.sid dev'.pid x hw').1.down ≡ not args.enable
      seen x d e s p = rw (e, s, p) d
