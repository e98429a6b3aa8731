-- ===== src/Tap/Maps.antt =====
-- The maps of TAP interfaces of src/ops-fpa-tap.c, and the commands by which the threads that
-- handle packets hear of new and deleted interfaces.
use switchd_fpa_plugin.Os.{Name}
use switchd_fpa_plugin.Prelude.{
  ℕ, Bool, Option, none, some, List, [], ◌∷◌, ◌++◌, ◌==◌, ltb, if◌then◌else◌, find, drop_first,
  length,
}

-- `struct tap_if_entry`; `number` is the union of the descriptor and the port number.
pub record TapIfEntry : Type 0 where
  pub name : Name
  pub number : ℕ
  pub mac : ℕ

-- A node of an hmap of interfaces: the key under which it was inserted, and its entry.
pub record TapNode : Type 0 where
  pub key : ℕ
  pub entry : TapIfEntry

-- `hmap_first_with_hash` compares the whole hash. A new node comes first; the growth of a map, which
-- may exchange nodes, is not modelled, so that the order stands for that of the program only where
-- no two nodes have one key.
abbrev pub TapMap : Type 0
TapMap = List TapNode

abbrev pub has_key : ℕ → TapNode → Bool
has_key key n = n.key == key

abbrev pub entry_of : Option TapNode → Option TapIfEntry
entry_of none = none
entry_of (some n) = some n.entry

unfoldable pub get_if_entry : TapMap → ℕ → Option TapIfEntry
get_if_entry map key = entry_of (find (has_key key) map)

-- `hmap_insert`, and `hmap_remove` of the entry that `get_if_entry` returns.
unfoldable pub insert_if : ℕ → TapIfEntry → TapMap → TapMap
insert_if key entry map = record { key = key; entry = entry } ∷ map

unfoldable pub remove_if : ℕ → TapMap → TapMap
remove_if key map = drop_first (has_key key) map

-- `struct ctrl_cmd`.
pub data CtrlCmd : Type 0 where
  thread_exit : CtrlCmd
  add_if : Name → ℕ → ℕ → ℕ → CtrlCmd
  del_if : ℕ → ℕ → CtrlCmd

-- A control pipe, first command first. It is not blocking, and holds `room` commands: a write to
-- a full pipe writes nothing, and its result is not looked at.
unfoldable pub send_ctrl_cmd : ℕ → CtrlCmd → List CtrlCmd → List CtrlCmd
send_ctrl_cmd room cmd pipe = if ltb (length pipe) room then pipe ++ (cmd ∷ []) else pipe

-- `struct tap_info`, without the threads: the two pipes by what waits in them, and the descriptors
-- of their ends.
pub record TapInfo : Type 0 where
  pub switch_id : ℕ
  pub fd_to_tap_if_map : TapMap
  pub tap_pipe : List CtrlCmd
  pub asic_pipe : List CtrlCmd
  pub ctrl_fds : List ℕ

-- The loop over the threads that notifies each.
unfoldable pub notify_all : ℕ → CtrlCmd → TapInfo → TapInfo
unfolding send_ctrl_cmd
notify_all room cmd info = record info {
  tap_pipe = send_ctrl_cmd room cmd info.tap_pipe;
  asic_pipe = send_ctrl_cmd room cmd info.asic_pipe;
}

-- What `ops_fpa_tap_if_create` does once the interface is there.
unfoldable pub register : ℕ → ℕ → ℕ → Name → ℕ → TapInfo → TapInfo
unfolding insert_if notify_all
register room fd port_num name mac info =
    let entry : TapIfEntry = record { name = name; number = port_num; mac = mac } in
    notify_all room (CtrlCmd.add_if name fd port_num mac)
      (record info { fd_to_tap_if_map = insert_if fd entry info.fd_to_tap_if_map })

-- What `ops_fpa_tap_if_delete` does under the lock, once the entry is found.
unfoldable pub unregister : ℕ → ℕ → TapIfEntry → TapInfo → TapInfo
unfolding remove_if notify_all
unregister room fd entry info =
    let told = notify_all room (CtrlCmd.del_if fd entry.number) info in
    record told { fd_to_tap_if_map = remove_if fd told.fd_to_tap_if_map }

-- The maps of the two threads: the key and the number of an entry change places.
unfoldable pub tap_command : CtrlCmd → TapMap → TapMap
unfolding insert_if remove_if
tap_command CtrlCmd.thread_exit map = map
tap_command (CtrlCmd.add_if name fd port_num mac) map =
    insert_if fd (record { name = name; number = port_num; mac = mac }) map
tap_command (CtrlCmd.del_if fd port_num) map = remove_if fd map

unfoldable pub asic_command : CtrlCmd → TapMap → TapMap
unfolding insert_if remove_if
asic_command CtrlCmd.thread_exit map = map
asic_command (CtrlCmd.add_if name fd port_num mac) map =
    insert_if port_num (record { name = name; number = fd; mac = mac }) map
asic_command (CtrlCmd.del_if fd port_num) map = remove_if port_num map

-- The loop that reads the pipe until it is empty or the thread is to exit.
pub record Drained : Type 0 where
  pub map : TapMap
  pub rest : List CtrlCmd
  pub exits : Bool

unfoldable pub drain : (CtrlCmd → TapMap → TapMap) → List CtrlCmd → TapMap → Drained
drain command [] map = record { map = map; rest = []; exits = Bool.false }
drain command (CtrlCmd.thread_exit ∷ cmds) map = record {
  map = map;
  rest = cmds;
  exits = Bool.true;
}
drain command (CtrlCmd.add_if n fd p m ∷ cmds) map =
    drain command cmds (command (CtrlCmd.add_if n fd p m) map)
drain command (CtrlCmd.del_if fd p ∷ cmds) map =
    drain command cmds (command (CtrlCmd.del_if fd p) map)
