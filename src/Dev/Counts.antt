-- ===== src/Dev/Counts.antt =====
-- The count of openings of the device.
use switchd_fpa_plugin.Prelude.{
  ℕ, zero, suc, ◌+◌, ◌%◌, ◌<◌, ◌≡◌, refl, Bool, true, false, Option, none, some, List, [], ◌∷◌, ◌∙◌,
  ◌&&◌, ◌||◌, any, any-append, ltb, length, Bool-cases, inl, inr, arith, ◌==◌, ==_refl,
  if◌then◌else◌,
}
use switchd_fpa_plugin.Fpa.{Fpa}
use switchd_fpa_plugin.Os.{Os}
use switchd_fpa_plugin.MacLearning.{MacLearning}
use switchd_fpa_plugin.Dev.{
  FpaDev, ◌>>=◌, DevState, dev_mutex_lock, dev_mutex_unlock, dev_by_id, get_tap_info_by_switch_id,
}
use switchd_fpa_plugin.Tap.Maps.{
  TapMap, TapInfo, CtrlCmd, send_ctrl_cmd, drain, tap_command, asic_command,
}
use switchd_fpa_plugin.Tap.Interfaces.{
  tap_if_delete, delete_all, tap_deinit, close_all, stop_listener,
}
use switchd_fpa_plugin.Dev.Lifetime.{dev_init, dev_deinit, last_deinit, mac_learning_unref, goes_on}

abbrev pub is_empty : TapMap → Bool
is_empty [] = true
is_empty (n ∷ ns) = false

abbrev pub is_exit : CtrlCmd → Bool
is_exit CtrlCmd.thread_exit = true
is_exit c = false

-- A control pipe that takes the command to end a thread, or has it already.
abbrev pub can_end : ℕ → List CtrlCmd → Bool
can_end room pipe = any is_exit pipe || ltb (length pipe) room

-- Nothing keeps the last close from returning: no learning thread, no interface, and no control pipe
-- that is full.
abbrev pub is_idle : ℕ → Option MacLearning → Option TapInfo → Bool
is_idle room (some ml) tap = false
is_idle room none none = true
is_idle room none (some info) =
    is_empty info.fd_to_tap_if_map && (can_end room info.tap_pipe && can_end room info.asic_pipe)

drain-exits :
    (command : CtrlCmd → TapMap → TapMap) (pipe : List CtrlCmd) (map : TapMap)
    → (drain command pipe map).exits ≡ any is_exit pipe
unfolding drain
drain-exits command [] map = refl
drain-exits command (CtrlCmd.thread_exit ∷ cmds) map = refl
drain-exits command (CtrlCmd.add_if n fd p m ∷ cmds) map =
    drain-exits command cmds (command (CtrlCmd.add_if n fd p m) map)
drain-exits command (CtrlCmd.del_if fd p ∷ cmds) map =
    drain-exits command cmds (command (CtrlCmd.del_if fd p) map)

stop_listener-can_end :
    (F : Fpa) (O : Os) (room : ℕ) (command : CtrlCmd → TapMap → TapMap) (pipe : List CtrlCmd)
    → stop_listener F O room command pipe ≡ can_end room pipe
unfolding stop_listener send_ctrl_cmd
stop_listener-can_end F O room command pipe =
    drain-exits command (send_ctrl_cmd room CtrlCmd.thread_exit pipe) []
    ∙ elim (Bool-cases (ltb (length pipe) room)) [
      | inl fits ↦ rw fits (any-append is_exit pipe (CtrlCmd.thread_exit ∷ []) ∙ ground arith)
      | inr full ↦ rw full (ground arith)
    ]

module _ (F : Fpa) (O : Os) where
  abbrev pub held : FpaDev → Bool → F.Hw → O.World → DevState F O
  held d locked hw w = record { locked = locked; dev = some d; hw = hw; world = w }

-- The ends of the control pipes are closed.
abbrev pub closed : (O : Os) → Option TapInfo → O.World → O.World
closed O none w = w
closed O (some info) w = close_all O info.ctrl_fds w

module _ (F : Fpa) (O : Os) (room : ℕ) (ml_create : ℕ → F.Hw → ℕ × Option MacLearning × F.Hw) where
  -- Deleting an interface while the lock is held does not return.
  pub tap_if_delete-locked :
      (sid fd : ℕ) (st : DevState F O) → st.locked ≡ true → tap_if_delete F O room sid fd st ≡ none
  unfolding tap_if_delete dev_mutex_lock
  tap_if_delete-locked sid zero st h = refl
  tap_if_delete-locked sid (suc n) st h = ground (arith, h)

  delete_all-locked :
      (sid : ℕ) (map : TapMap) (st : DevState F O)
      → st.locked ≡ true
      → delete_all F O room sid map st ≡ (if is_empty map then some st else none)
  unfolding delete_all
  delete_all-locked sid [] st h = refl
  delete_all-locked sid (n ∷ ns) st h = rw (tap_if_delete-locked sid n.entry.number st h) refl

  closing :
      (sid : ℕ) (ml : Option MacLearning) (tap : Option TapInfo) (hw : F.Hw) (w : O.World)
      → (sid == F.invalid_switch_id) ≡ false
      → let d : FpaDev = record { switch_id = sid; ref_cnt = 0; tap_if_info = tap; ml = ml } in
        last_deinit F O room ml_create sid d (held F O d true hw w) ≡ (
          if is_idle room ml tap
          then some (record { locked = true; dev = none; hw = hw; world = closed O tap w })
          else none)
  unfolding last_deinit mac_learning_unref goes_on tap_deinit get_tap_info_by_switch_id dev_by_id
  closing sid (some ml) tap hw w valid = refl
  closing sid none none hw w valid = rw (valid, ==_refl sid) refl
  closing sid none (some info) hw w valid =
      let d : FpaDev = record {
        switch_id = sid;
        ref_cnt = 0;
        tap_if_info = some info;
        ml = none;
      } in
      rw (valid, ==_refl sid)
        (rw (delete_all-locked sid info.fd_to_tap_if_map (held F O d true hw w) refl) (
          ground (
            arith,
            stop_listener-can_end F O room tap_command info.tap_pipe,
            stop_listener-can_end F O room asic_command info.asic_pipe,
          )))

  -- The last close of a device with a valid number returns exactly if the device has no learning
  -- table and, where it has the data of the TAP threads, no interface is registered and each
  -- control pipe has room for one more command or holds already the one that ends its listener;
  -- the device is gone then, the control pipes are closed and the lock is free.
  pub dev_deinit-last :
      (d : FpaDev) (hw : F.Hw) (w : O.World)
      → (d.switch_id == F.invalid_switch_id) ≡ false
      → dev_deinit F O room ml_create d.switch_id (held F O (record d { ref_cnt = 1 }) false hw w)
        ≡ (if is_idle room d.ml d.tap_if_info
            then some
                (record { locked = false; dev = none; hw = hw; world = closed O d.tap_if_info w })
            else none)
  unfolding dev_deinit dev_mutex_lock dev_mutex_unlock dev_by_id
  dev_deinit-last d hw w valid =
      rw (==_refl d.switch_id, closing d.switch_id d.ml d.tap_if_info hw w valid) (ground arith)

  -- Opening a device that is open, fewer than 2^32 - 1 times, and then closing it gives the state
  -- back.
  dev_deinit-dev_init :
      (sid : ℕ) (d : FpaDev) (hw : F.Hw) (w : O.World)
      → 0 < d.ref_cnt
      → d.ref_cnt < 0xffffffff
      → (dev_init F O room ml_create sid (held F O d false hw w) >>= λ r.
          dev_deinit F O room ml_create d.switch_id r.1)
        ≡ some (held F O d false hw w)
  unfolding dev_init dev_deinit dev_mutex_lock dev_mutex_unlock dev_by_id
  dev_deinit-dev_init sid d hw w some_open few =
      let back : ((d.ref_cnt + 1) % 0x100000000 + 0xffffffff) % 0x100000000 ≡ d.ref_cnt =
        omega arith in
      let more : (d.ref_cnt == 0) ≡ false = ground (arith, some_open) in
      rw (==_refl d.switch_id, back, more) refl
