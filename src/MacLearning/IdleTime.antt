-- ===== src/MacLearning/IdleTime.antt =====
-- The ageing time of learned addresses.
use switchd_fpa_plugin.Prelude.{ℕ, ◌≤◌, ◌≡◌, arith, ◌==◌, ltb, if◌then◌else◌}
use switchd_fpa_plugin.Fpa.{Fpa}
use switchd_fpa_plugin.MacLearning.{MacLearning, normalize_idle_time, set_idle_time}

-- The value nearest to the one given that lies between two bounds.
abbrev pub clamp : ℕ → ℕ → ℕ → ℕ
clamp low high t = if ltb t low then low else (if ltb high t then high else t)

module _ (F : Fpa) where
  -- Where the ageing time is from 10 to 3600 seconds, it is so after a call that sets it; it is
  -- then the nearest value in that range to the one asked for if the status is 0 and as before
  -- otherwise, and that nearest value is what the switch has been asked to take.
  pub set_idle_time-bounds :
      (sid t : ℕ) (ml : MacLearning) (hw : F.Hw)
      → 10 ≤ ml.idle_time
      → ml.idle_time ≤ 3600
      → let (err, done, hw') = set_idle_time F sid t ml hw in
        (10 ≤ done.idle_time)
        × (done.idle_time ≤ 3600)
        × (done.idle_time ≡ (if err == 0 then clamp 10 3600 t else ml.idle_time))
        × (hw' ≡ (F.switch_aging_timeout_set sid (clamp 10 3600 t) hw).1)
  unfolding set_idle_time normalize_idle_time
  set_idle_time-bounds sid t ml hw low high = ground (arith, low, high)
