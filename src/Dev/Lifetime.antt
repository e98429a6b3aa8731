-- ===== src/Dev/Lifetime.antt =====
-- Opening and closing the device: `ops_fpa_dev_init` and `ops_fpa_dev_deinit` of
-- src/ops-fpa-dev.c.
use switchd_fpa_plugin.Prelude.{Bool, true, ℕ, ◌+◌, ◌%◌, Option, none, some, ◌==◌, if◌then◌else◌}
use switchd_fpa_plugin.Fpa.{Fpa}
use switchd_fpa_plugin.Os.{Os}
use switchd_fpa_plugin.MacLearning.{MacLearning}
use switchd_fpa_plugin.Dev.{FpaDev, ◌>>=◌, DevState, dev_mutex_lock, dev_mutex_unlock, dev_by_id}
use switchd_fpa_plugin.Tap.Interfaces.{tap_init, tap_deinit}
use switchd_fpa_plugin.Prelude.Errno.{eagain}

-- The condition of the loop of `mac_learning_asic_events_handler`, with the exit latch set or not: the
-- test of the latch is commented out.
unfoldable pub goes_on : Bool → Bool
goes_on exit_latch = true

-- `ops_fpa_mac_learning_unref`. There is one reference, from `ops_fpa_mac_learning_create`, so the
-- last goes: the exit latch is set, and the call waits for the end of the thread.
unfoldable pub mac_learning_unref : Option MacLearning → Option (Unit {0})
unfolding goes_on
mac_learning_unref none = some tt
mac_learning_unref (some ml) = if goes_on true then none else some tt

-- `ml_create` is `ops_fpa_mac_learning_create`, `MacLearning.create` with its environment.
module _ (F : Fpa) (O : Os) (room : ℕ) (ml_create : ℕ → F.Hw → ℕ × Option MacLearning × F.Hw) where
  -- The device that is not there yet; what `ops_fpa_dev_init` does after the test.
  unfoldable pub first_init : ℕ → DevState F O → Option (ℕ × DevState F O)
  unfolding tap_init
  first_init sid st = do
    let d : FpaDev = record { switch_id = sid; ref_cnt = 1; tap_if_info = none; ml = none }
    tap ← tap_init F O room sid (record st { dev = some d })
    let (err, ml, hw) = ml_create sid tap.1.hw
    some (
      if err == 0 then 0 else eagain,
      record tap.1 { dev = some (record d { tap_if_info = tap.0; ml = ml }); hw = hw },
    )

  -- The status; `*fdev` is the device of the new state.
  unfoldable pub dev_init : ℕ → DevState F O → Option (ℕ × DevState F O)
  unfolding dev_mutex_lock dev_mutex_unlock first_init
  dev_init sid st = do
    st1 ← dev_mutex_lock F O st
    elim st1.dev [
      | none ↦ do done ← first_init sid st1; some (done.0, dev_mutex_unlock F O done.1)
      | some d ↦ some (
        0,
        dev_mutex_unlock F O
            (record st1 { dev = some (record d { ref_cnt = (d.ref_cnt + 1) % 0x100000000 }) }),
      )
    ]

  -- What follows when the count has come to 0.
  unfoldable pub last_deinit : ℕ → FpaDev → DevState F O → Option (DevState F O)
  unfolding mac_learning_unref tap_deinit
  last_deinit sid d st = do
    joined ← mac_learning_unref d.ml
    done ← tap_deinit F O room sid st
    some (record done { dev = none })

  unfoldable pub dev_deinit : ℕ → DevState F O → Option (DevState F O)
  unfolding dev_mutex_lock dev_mutex_unlock dev_by_id last_deinit
  dev_deinit sid st = do
    st1 ← dev_mutex_lock F O st
    found ← dev_by_id F O sid st1
    let d : FpaDev = record found { ref_cnt = (found.ref_cnt + 0xffffffff) % 0x100000000 }
    let st2 = record st1 { dev = some d }
    st3 ← (if d.ref_cnt == 0 then last_deinit sid d st2 else some st2)
    some (dev_mutex_unlock F O st3)
