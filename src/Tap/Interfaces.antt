-- ===== src/Tap/Interfaces.antt =====
-- Creating and deleting TAP interfaces, and what starts and ends with a device, in
-- src/ops-fpa-tap.c. A status comes first in a result; `none` is a call that does not return.
use switchd_fpa_plugin.Prelude.{
  ◌&&◌, ℕ, zero, suc, Bool, true, false, Option, none, some, List, [], ◌∷◌, ◌==◌, if◌then◌else◌,
  take,
}
use switchd_fpa_plugin.Os.{Name, Command, Os, fpa_system}
use switchd_fpa_plugin.Fpa.{Fpa}
use switchd_fpa_plugin.Tap.Maps.{
  drain, tap_command, asic_command, send_ctrl_cmd, CtrlCmd, TapMap, TapMap, TapInfo, get_if_entry,
  register, unregister,
}
use switchd_fpa_plugin.Dev.{
  ◌>>=◌, DevState, dev_mutex_lock, dev_mutex_unlock, get_tap_info_by_switch_id, set_tap_info,
}
use switchd_fpa_plugin.Prelude.Errno.{eperm, enoent, efault}

-- `DEFAULT_BRIDGE_NAME`: the bytes of bridge_normal.
abbrev pub bridge_normal : Name
bridge_normal =
    b'b' ∷ b'r' ∷ b'i' ∷ b'd' ∷ b'g' ∷ b'e' ∷ b'_' ∷ b'n' ∷ b'o' ∷ b'r' ∷ b'm' ∷ b'a' ∷ b'l' ∷ []

-- A name cut to `IFNAMSIZ` bytes with the NUL at its end.
abbrev pub if_name : Name → Name
if_name name = take 15 name

module _ (O : Os) where
  unfoldable pub net_if_setup : Name → ℕ → O.World → ℕ × O.World
  unfolding fpa_system
  net_if_setup name mac w =
      let (rc1, w1) = fpa_system O (Command.ifconfig_down name) w in
      let (rc2, w2) = fpa_system O (Command.ip_set_address name mac) w1 in
      let (rc3, w3) = fpa_system O (Command.ifconfig_up name) w2 in
      if rc1 == 0
      then (if rc2 == 0 then (if rc3 == 0 then (0, w3) else (efault, w3)) else (efault, w2))
      else (efault, w1)

  -- The bridge may be there already, so that the first status is not looked at.
  unfoldable pub bridge_create : Name → ℕ → O.World → ℕ × O.World
  unfolding fpa_system net_if_setup
  bridge_create name mac w =
      let (rc1, w1) = fpa_system O (Command.ip_add_bridge name) w in
      let (rc2, w2) = net_if_setup name mac w1 in
      let (rc3, w3) = fpa_system O (Command.ip_set_up name) w2 in
      if rc2 == 0 then (if rc3 == 0 then (0, w3) else (eperm, w3)) else (eperm, w2)

  unfoldable pub bridge_delete : Name → O.World → ℕ × O.World
  unfolding fpa_system
  bridge_delete name w =
      let (rc, w1) = fpa_system O (Command.ip_delete_bridge name) w in
      if rc == 0 then (0, w1) else (efault, w1)

  unfoldable pub bridge_port_add : Name → O.World → ℕ × O.World
  unfolding fpa_system
  bridge_port_add name w =
      let (rc, w1) = fpa_system O (Command.ip_set_master name bridge_normal) w in
      if rc == 0 then (0, w1) else (efault, w1)

  unfoldable pub bridge_port_rm : Name → O.World → ℕ × O.World
  unfolding fpa_system
  bridge_port_rm name w = (0, (fpa_system O (Command.ip_set_nomaster name) w).1)

  -- The descriptor, `none` where the C function returns a negative number, and the name.
  unfoldable pub tun_alloc : Name → O.World → Option (ℕ × Name) × O.World
  tun_alloc name w =
      let (opened, w1) = O.open_tun w in
      elim opened [
        | none ↦ (none, w1)
        | some fd ↦
            let (named, w2) = O.tunsetiff fd name w1 in
            elim named [ none ↦ (none, O.close fd w2) | some name' ↦ (some (fd, name'), w2) ]
      ]

  -- A descriptor that is there and not 0 is made ready; else all that was opened is closed.
  unfoldable pub open_interface : Name → ℕ → O.World → Option (ℕ × Name) × O.World
  unfolding tun_alloc net_if_setup
  open_interface name mac w =
      let (made, w1) = tun_alloc (if_name name) w in
      elim made [
        | none ↦ (none, w1)
        | some (fd, name') ↦
            let (rc1, w2) = O.set_nonblocking fd w1 in
            let (rc2, w3) = net_if_setup name' mac w2 in
            if fd == 0
            then (none, w1)
            else if rc1 == 0
            then (if rc2 == 0 then (some (fd, name'), w3) else (none, O.close fd w3))
            else (none, O.close fd w2)
      ]

  -- The ends of a pipe made not blocking; the first that fails is closed.
  unfoldable pub open_ends : List ℕ → O.World → Bool × O.World
  open_ends [] w = (true, w)
  open_ends (fd ∷ fds) w =
      let (rc, w1) = O.set_nonblocking fd w in
      let rest = open_ends fds w1 in if rc == 0 then rest else (false, O.close fd w1)

  -- `n` pipes, for as many threads: the descriptors of their ends, `none` where the function
  -- returns NULL.
  unfoldable pub open_pipes : ℕ → O.World → Option (List ℕ) × O.World
  unfolding open_ends
  open_pipes zero w = (some [], w)
  open_pipes (suc n) w =
      let (ends, w1) = O.pipe w in
      let (opened, w2) = open_ends (ends.0 ∷ ends.1 ∷ []) w1 in
      let (rest, w3) = open_pipes n w2 in
      if opened
      then (elim rest [ none ↦ none | some fds ↦ some (ends.0 ∷ ends.1 ∷ fds) ], w3)
      else (none, w2)

  unfoldable pub close_all : List ℕ → O.World → O.World
  close_all [] w = w
  close_all (fd ∷ fds) w = close_all fds (O.close fd w)

module _ (F : Fpa) (O : Os) (room : ℕ) where
  -- The assertion of each operation.
  abbrev asserted : {A : Type 0} → ℕ → Option A → Option A
  asserted sid r = if sid == F.invalid_switch_id then none else r

  -- The result of `ops_fpa_tap_init`: NULL, or the information of the switch.
  unfoldable pub tap_init : ℕ → DevState F O → Option (Option TapInfo × DevState F O)
  unfolding get_tap_info_by_switch_id open_pipes
  tap_init sid st = asserted sid (do
    there ← get_tap_info_by_switch_id F O sid st
    let made = open_pipes O 2 st.world
    let info : List ℕ → TapInfo = λ fds. record {
      switch_id = sid;
      fd_to_tap_if_map = [];
      tap_pipe = [];
      asic_pipe = [];
      ctrl_fds = fds;
    }
    elim there [
      | some info ↦ some (some info, st)
      | none ↦ elim made.0 [
        | some fds ↦ some (some (info fds), record st { world = made.1 })
        | none ↦ some (none, record st { world = made.1 })
      ]
    ])

  -- The early returns leave the lock taken.
  unfoldable pub tap_if_create :
      ℕ → ℕ → Name → ℕ → DevState F O → Option (ℕ × Option ℕ × DevState F O)
  unfolding dev_mutex_lock dev_mutex_unlock get_tap_info_by_switch_id open_interface register
      set_tap_info
  tap_if_create sid port_num name mac st = asserted sid (do
    st1 ← dev_mutex_lock F O st
    there ← get_tap_info_by_switch_id F O sid st1
    elim there [
      | none ↦ some (efault, none, st1)
      | some info ↦
          let (made, w) = open_interface O name mac st1.world in
          elim made [
            | none ↦ some (efault, none, record st1 { world = w })
            | some (fd, name') ↦ some (
              0,
              some fd,
              dev_mutex_unlock F O (
                  set_tap_info F O (register room fd port_num name' mac info)
                    (record st1 { world = w })),
            )
          ]
    ])

  unfoldable pub tap_if_delete : ℕ → ℕ → DevState F O → Option (ℕ × DevState F O)
  unfolding dev_mutex_lock dev_mutex_unlock get_tap_info_by_switch_id get_if_entry unregister
      set_tap_info bridge_port_rm fpa_system
  tap_if_delete sid zero st = none
  tap_if_delete sid (suc n) st = asserted sid (do
    st1 ← dev_mutex_lock F O st
    there ← get_tap_info_by_switch_id F O sid st1
    elim there [
      | none ↦ some (efault, st1)
      | some info ↦ elim (get_if_entry info.fd_to_tap_if_map (suc n)) [
        | none ↦ some (enoent, st1)
        | some entry ↦
            let st2 =
              dev_mutex_unlock F O (set_tap_info F O (unregister room (suc n) entry info) st1) in
            let w1 = (bridge_port_rm O entry.name st2.world).1 in
            let w2 = (fpa_system O (Command.ifconfig_down entry.name) w1).1 in
            some (0, record st2 { world = O.close (suc n) w2 })
      ]
    ])

  -- The loop over the entries, which reads the union as a descriptor.
  unfoldable pub delete_all : ℕ → TapMap → DevState F O → Option (DevState F O)
  unfolding tap_if_delete
  delete_all sid [] st = some st
  delete_all sid (n ∷ ns) st = do
    done ← tap_if_delete sid n.entry.number st
    delete_all sid ns done.1

  -- Each thread is told to exit and waited for, its pipe is closed, and the information is freed.
  -- A listener is sent the command to end and is waited for. It reads its pipe and leaves its loop
  -- where it meets that command; else the wait does not end.
  unfoldable pub stop_listener : (CtrlCmd → TapMap → TapMap) → List CtrlCmd → Bool
  unfolding send_ctrl_cmd drain
  stop_listener command pipe =
      (drain command (send_ctrl_cmd room CtrlCmd.thread_exit pipe) []).exits

  unfoldable pub tap_deinit : ℕ → DevState F O → Option (DevState F O)
  unfolding get_tap_info_by_switch_id delete_all close_all stop_listener
  tap_deinit sid st = asserted sid (do
    there ← get_tap_info_by_switch_id F O sid st
    elim there [
      | none ↦ some st
      | some info ↦ do
        done ← delete_all sid info.fd_to_tap_if_map st
        after ← get_tap_info_by_switch_id F O sid done
        elim after [
          | none ↦ none
          | some left ↦
              if stop_listener tap_command left.tap_pipe
                && stop_listener asic_command left.asic_pipe
              then some (record done { world = close_all O left.ctrl_fds done.world })
              else none
        ]
    ])
