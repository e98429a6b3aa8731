-- ===== src/Tap/Sync.antt =====
-- The maps of the two listeners of src/ops-fpa-tap.c follow the map of the interfaces, whatever
-- the order in which the threads run.
use switchd_fpa_plugin.Prelude.{
  ℕ, ◌<◌, ◌≡◌, refl, ◌∙◌, ap, sym, Bool, true, false, some, List, [], ◌∷◌, ◌++◌, arith, any,
  any-append, length, lt→ltb,
}
use switchd_fpa_plugin.Os.{Name}
use switchd_fpa_plugin.Tap.Maps.{
  TapIfEntry, TapMap, get_if_entry, insert_if, remove_if, CtrlCmd, TapInfo, send_ctrl_cmd,
  notify_all, register, unregister, tap_command, asic_command, Drained, drain,
}
use switchd_fpa_plugin.Tap.Turned.{
  turned, uses_key, AreDistinct, drop_first-AreDistinct, drop_first-AreDistinct_turned,
  turned-drop_first, turned-found,
}

-- The commands of a pipe applied in order.
abbrev replay : (CtrlCmd → TapMap → TapMap) → List CtrlCmd → TapMap → TapMap
replay command [] map = map
replay command (c ∷ cs) map = replay command cs (command c map)

-- The registry, with the maps of the two threads.
pub record System : Type 0 where
  pub info : TapInfo
  pub tap_map : TapMap
  pub asic_map : TapMap

-- What the threads do, in any order: the main thread creates an interface with a descriptor and a
-- port that no other interface has, or deletes one; a listener takes the next command from its
-- pipe. Before the main thread writes, neither pipe is full.
pub data Step (room : ℕ) (s : System) (t : System) : Type 0 where
  creates :
      (fd port_num : ℕ) (name : Name) (mac : ℕ)
      → length s.info.tap_pipe < room
      → length s.info.asic_pipe < room
      → uses_key fd s.info.fd_to_tap_if_map ≡ false
      → uses_key port_num (turned s.info.fd_to_tap_if_map) ≡ false
      → t ≡ record s { info = register room fd port_num name mac s.info }
      → Step room s t
  deletes :
      (fd : ℕ) (entry : TapIfEntry)
      → length s.info.tap_pipe < room
      → length s.info.asic_pipe < room
      → get_if_entry s.info.fd_to_tap_if_map fd ≡ some entry
      → t ≡ record s { info = unregister room fd entry s.info }
      → Step room s t
  tap_reads :
      (c : CtrlCmd) (cs : List CtrlCmd)
      → s.info.tap_pipe ≡ c ∷ cs
      → t ≡ record s { info = record s.info { tap_pipe = cs }; tap_map = tap_command c s.tap_map }
      → Step room s t
  asic_reads :
      (c : CtrlCmd) (cs : List CtrlCmd)
      → s.info.asic_pipe ≡ c ∷ cs
      → t
        ≡ record s { info = record s.info { asic_pipe = cs }; asic_map = asic_command c s.asic_map }
      → Step room s t

pub data Reached (room : ℕ) (s : System) : System → Type 0 where
  start : Reached room s s
  later : {t u : System} → Reached room s t → Step room t u → Reached room s u

replay-append :
    (command : CtrlCmd → TapMap → TapMap) (cs : List CtrlCmd) (c : CtrlCmd) (map : TapMap)
    → replay command (cs ++ (c ∷ [])) map ≡ command c (replay command cs map)
replay-append command [] c map = refl
replay-append command (d ∷ cs) c map = replay-append command cs c (command d map)

abbrev pub is_exit : CtrlCmd → Bool
is_exit CtrlCmd.thread_exit = true
is_exit (CtrlCmd.add_if name fd port mac) = false
is_exit (CtrlCmd.del_if fd port) = false

abbrev pub has_exit : List CtrlCmd → Bool
has_exit = any is_exit

-- In every reached state: what each listener knows, with the commands that wait in its pipe, is
-- the map of the interfaces.
pub record Agrees (s : System) : Type 0 where
  pub tap : replay tap_command s.info.tap_pipe s.tap_map ≡ s.info.fd_to_tap_if_map
  pub asic : replay asic_command s.info.asic_pipe s.asic_map ≡ turned s.info.fd_to_tap_if_map
  pub fds : AreDistinct s.info.fd_to_tap_if_map
  pub ports : AreDistinct (turned s.info.fd_to_tap_if_map)
  tap_stays : has_exit s.info.tap_pipe ≡ false
  asic_stays : has_exit s.info.asic_pipe ≡ false

-- A command that is sent comes last.
replay-send :
    (command : CtrlCmd → TapMap → TapMap) (room : ℕ) (c : CtrlCmd) (pipe : List CtrlCmd)
    (map : TapMap)
    → length pipe < room
    → replay command (send_ctrl_cmd room c pipe) map ≡ command c (replay command pipe map)
unfolding send_ctrl_cmd
replay-send command room c pipe map h =
    rw (lt→ltb (length pipe) room h) (replay-append command pipe c map)

send-stays :
    (room : ℕ) (c : CtrlCmd) (pipe : List CtrlCmd)
    → is_exit c ≡ false
    → has_exit pipe ≡ false
    → has_exit (send_ctrl_cmd room c pipe) ≡ false
unfolding send_ctrl_cmd
send-stays room c pipe hc hp = ground (arith, any-append is_exit pipe (c ∷ []), hc, hp)

Step-Agrees : {room : ℕ} {s t : System} → Step room s t → Agrees s → Agrees t
unfolding register unregister notify_all tap_command asic_command insert_if remove_if
Step-Agrees {room} {s} (creates fd port name mac r1 r2 free_fd free_port e) a =
    let c = CtrlCmd.add_if name fd port mac in
    rw e (record {
      tap = replay-send tap_command room c s.info.tap_pipe s.tap_map r1 ∙ ap (tap_command c) a.tap;
      asic =
          replay-send asic_command room c s.info.asic_pipe s.asic_map r2
          ∙ ap (asic_command c) a.asic;
      fds = (free_fd, a.fds);
      ports = (free_port, a.ports);
      tap_stays = send-stays room c s.info.tap_pipe refl a.tap_stays;
      asic_stays = send-stays room c s.info.asic_pipe refl a.asic_stays;
    })
Step-Agrees {room} {s} (deletes fd entry r1 r2 found e) a =
    let c = CtrlCmd.del_if fd entry.number in
    let map = s.info.fd_to_tap_if_map in
    rw e (record {
      tap = replay-send tap_command room c s.info.tap_pipe s.tap_map r1 ∙ ap (tap_command c) a.tap;
      asic =
          replay-send asic_command room c s.info.asic_pipe s.asic_map r2
          ∙ ap (asic_command c) a.asic
          ∙ sym (turned-drop_first fd map entry a.ports found);
      fds = drop_first-AreDistinct fd map a.fds;
      ports = drop_first-AreDistinct_turned fd map a.ports;
      tap_stays = send-stays room c s.info.tap_pipe refl a.tap_stays;
      asic_stays = send-stays room c s.info.asic_pipe refl a.asic_stays;
    })
Step-Agrees {s} (tap_reads c cs waits e) a = rw e (record {
  tap = ap (λ q. replay tap_command q s.tap_map) (sym waits) ∙ a.tap;
  asic = a.asic;
  fds = a.fds;
  ports = a.ports;
  tap_stays = ground (arith, a.tap_stays, ap has_exit waits);
  asic_stays = a.asic_stays;
})
Step-Agrees {s} (asic_reads c cs waits e) a = rw e (record {
  tap = a.tap;
  asic = ap (λ q. replay asic_command q s.asic_map) (sym waits) ∙ a.asic;
  fds = a.fds;
  ports = a.ports;
  tap_stays = a.tap_stays;
  asic_stays = ground (arith, a.asic_stays, ap has_exit waits);
})

Reached-Agrees : {room : ℕ} {s t : System} → Agrees s → Reached room s t → Agrees t
Reached-Agrees a start = a
Reached-Agrees a (later r st) = Step-Agrees st (Reached-Agrees a r)

-- No interfaces, no commands.
abbrev pub fresh : ℕ → System
fresh sid = record {
  info = record {
    switch_id = sid;
    fd_to_tap_if_map = [];
    tap_pipe = [];
    asic_pipe = [];
    ctrl_fds = [];
  };
  tap_map = [];
  asic_map = [];
}

fresh-Agrees : (sid : ℕ) → Agrees (fresh sid)
fresh-Agrees sid = record {
  tap = refl;
  asic = refl;
  fds = tt;
  ports = tt;
  tap_stays = refl;
  asic_stays = refl;
}

drain-replay :
    (command : CtrlCmd → TapMap → TapMap) (pipe : List CtrlCmd) (map : TapMap)
    → has_exit pipe ≡ false
    → drain command pipe map ≡ record { map = replay command pipe map; rest = []; exits = false }
unfolding drain
drain-replay command [] map h = refl
drain-replay command (CtrlCmd.thread_exit ∷ cs) map h = cc
drain-replay command (CtrlCmd.add_if n fd p m ∷ cs) map h =
    drain-replay command cs (command (CtrlCmd.add_if n fd p m) map) h
drain-replay command (CtrlCmd.del_if fd p ∷ cs) map h =
    drain-replay command cs (command (CtrlCmd.del_if fd p) map) h

module _ {room : ℕ} (sid : ℕ) {s : System} (r : Reached room (fresh sid) s) where
  -- In such a state each listener comes to the end of its pipe without leaving its loop, and its
  -- map is then exactly the map of the registered interfaces, for the listener of the switch with
  -- descriptors and ports exchanged.
  pub Reached-drain :
      (drain tap_command s.info.tap_pipe s.tap_map
        ≡ record { map = s.info.fd_to_tap_if_map; rest = []; exits = false })
      × (drain asic_command s.info.asic_pipe s.asic_map
          ≡ record { map = turned s.info.fd_to_tap_if_map; rest = []; exits = false })
  Reached-drain =
      let a = Reached-Agrees (fresh-Agrees sid) r in
      (
        drain-replay tap_command s.info.tap_pipe s.tap_map a.tap_stays
            ∙ ap (λ m. record { map = m; rest = []; exits = false }) a.tap,
        drain-replay asic_command s.info.asic_pipe s.asic_map a.asic_stays
            ∙ ap (λ m. record { map = m; rest = []; exits = false }) a.asic,
      )

  -- Whatever interfaces have been created and deleted and whatever commands the two listeners
  -- have read, in any order, where no two interfaces share a descriptor or a port and a command
  -- is only sent to pipes with room: for every interface that is registered, the listener of the
  -- TAP interfaces finds it under its descriptor, and the listener of the switch under its port,
  -- with its descriptor, once each has read the commands that wait for it.
  pub Reached-routes :
      (fd : ℕ) (e : TapIfEntry)
      → get_if_entry s.info.fd_to_tap_if_map fd ≡ some e
      → (get_if_entry (drain tap_command s.info.tap_pipe s.tap_map).map fd ≡ some e)
        × (get_if_entry (drain asic_command s.info.asic_pipe s.asic_map).map e.number
            ≡ some (record e { number = fd }))
  Reached-routes fd e found =
      let a = Reached-Agrees (fresh-Agrees sid) r in
      (
        ap (λ (d : Drained). get_if_entry d.map fd) Reached-drain.0 ∙ found,
        ap (λ (d : Drained). get_if_entry d.map e.number) Reached-drain.1
            ∙ turned-found s.info.fd_to_tap_if_map fd e a.ports found,
      )
