-- ===== src/Dev.antt =====
-- `struct fpa_dev` of include/ops-fpa-dev.h and the state that src/ops-fpa-dev.c and
-- src/ops-fpa-tap.c share: the one device of the plugin and the lock that guards it.
pub mod Lifetime
pub mod Counts
pub mod Stuck
use switchd_fpa_plugin.Prelude.{ℕ, Bool, true, false, Option, none, some, ◌==◌, if◌then◌else◌}
use switchd_fpa_plugin.Fpa.{Fpa}
use switchd_fpa_plugin.Os.{Os}
use switchd_fpa_plugin.MacLearning.{MacLearning}
use switchd_fpa_plugin.Tap.Maps.{TapInfo}

pub record FpaDev : Type 0 where
  pub switch_id : ℕ
  pub ref_cnt : ℕ
  pub tap_if_info : Option TapInfo
  pub ml : Option MacLearning

-- `none` as a result of what follows: a failed assertion, a lock that is taken for good, or a NULL
-- pointer that is followed.
infixl 5 ◌>>=◌
abbrev pub ◌>>=◌ {ℓ κ} : {A : Type ℓ} {B : Type κ} → Option A → (A → Option B) → Option B
none >>= f = none
some a >>= f = f a

module _ (F : Fpa) (O : Os) where
  pub record DevState : Type 0 where
    pub locked : Bool
    pub dev : Option FpaDev
    pub hw : F.Hw
    pub world : O.World

  unfoldable pub dev_mutex_lock : DevState → Option DevState
  dev_mutex_lock st = if st.locked then none else some (record st { locked = true })

  unfoldable pub dev_mutex_unlock : DevState → DevState
  dev_mutex_unlock st = record st { locked = false }

  -- `OVS_NOT_REACHED` where the device is not there.
  unfoldable pub dev_by_id : ℕ → DevState → Option FpaDev
  dev_by_id sid st = elim st.dev [
    | none ↦ none
    | some d ↦ if d.switch_id == sid then some d else none
  ]

  -- The pointer, which may be NULL.
  unfoldable pub get_tap_info_by_switch_id : ℕ → DevState → Option (Option TapInfo)
  unfolding dev_by_id
  get_tap_info_by_switch_id sid st = do d ← dev_by_id sid st; some d.tap_if_info

  unfoldable pub set_tap_info : TapInfo → DevState → DevState
  set_tap_info info st = record st {
    dev = elim st.dev [ none ↦ none | some d ↦ some (record d { tap_if_info = some info }) ];
  }
