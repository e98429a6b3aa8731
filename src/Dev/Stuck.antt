-- ===== src/Dev/Stuck.antt =====
-- What `ops_fpa_tap_if_create` of src/ops-fpa-tap.c does to the lock of the device.
use switchd_fpa_plugin.Prelude.{
  ℕ, ◌≡◌, ◌≢◌, refl, true, false, Option, none, some, arith, ◌==◌, if◌then◌else◌,
}
use switchd_fpa_plugin.Fpa.{Fpa}
use switchd_fpa_plugin.Os.{Name, Os}
use switchd_fpa_plugin.MacLearning.{MacLearning}
use switchd_fpa_plugin.Dev.{
  DevState, dev_mutex_lock, dev_mutex_unlock, dev_by_id, get_tap_info_by_switch_id, set_tap_info,
}
use switchd_fpa_plugin.Tap.Interfaces.{tap_if_create, tap_if_delete}
use switchd_fpa_plugin.Dev.Lifetime.{dev_init, dev_deinit}
use switchd_fpa_plugin.Dev.Counts.{tap_if_delete-locked}

module _ (F : Fpa) (O : Os) (room : ℕ) (ml_create : ℕ → F.Hw → ℕ × Option MacLearning × F.Hw) where
  created_or_stuck :
      (sid port : ℕ) (name : Name) (mac : ℕ) (st st' : DevState F O) (rc : ℕ) (fd : Option ℕ)
      → tap_if_create F O room sid port name mac st ≡ some (rc, fd, st')
      → st'.locked ≡ (if rc == 0 then false else true)
  unfolding tap_if_create dev_mutex_lock dev_mutex_unlock get_tap_info_by_switch_id dev_by_id
      set_tap_info
  created_or_stuck sid port name mac st st' rc fd h = ground (arith, h)

  -- After a call that creates an interface has returned a status other than 0, no further call
  -- that creates or deletes an interface or opens or closes the device returns: the lock stays
  -- taken.
  pub tap_if_create-stuck :
      (sid port : ℕ) (name : Name) (mac : ℕ) (st st' : DevState F O) (rc : ℕ) (fd : Option ℕ)
      (sid2 port2 : ℕ) (name2 : Name) (mac2 fd2 : ℕ)
      → tap_if_create F O room sid port name mac st ≡ some (rc, fd, st')
      → rc ≢ 0
      → (tap_if_create F O room sid2 port2 name2 mac2 st' ≡ none)
        × (tap_if_delete F O room sid2 fd2 st' ≡ none)
        × (dev_init F O room ml_create sid2 st' ≡ none)
        × (dev_deinit F O room ml_create sid2 st' ≡ none)
  unfolding dev_mutex_lock tap_if_create dev_init dev_deinit
  tap_if_create-stuck sid port name mac st st' rc fd sid2 port2 name2 mac2 fd2 created failed =
      let locked : st'.locked ≡ true =
        ground (arith, created_or_stuck sid port name mac st st' rc fd created) in
      (
        ground (arith, locked),
        tap_if_delete-locked F O room ml_create sid2 fd2 st' locked,
        rw locked refl,
        rw locked refl,
      )
