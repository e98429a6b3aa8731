-- ===== src/MacLearning.antt =====
-- src/ops-fpa-mac-learning.c and include/ops-fpa-mac-learning.h: the table of learned addresses
-- and the two buffers of events for the bridge. Each function runs under the table's lock, so it is
-- one step. A hash map is the list of its nodes, in the order in which it is walked. `none` is a failed `ovs_assert`,
-- which ends the process; memory, the log, the thread and the timer are left out.
pub mod Events
pub mod Table
pub mod Reach
pub mod Flush
pub mod IdleTime
use switchd_fpa_plugin.Prelude.{
  ℕ, zero, suc, get_elem?, ◌+◌, Bool, true, false, not, ◌&&◌, Option, none, some, List, [], ◌∷◌,
  ◌++◌, ◌==◌, ltb, leb, if◌then◌else◌, length, find,
}
use switchd_fpa_plugin.Hmap.{Hmap}
use switchd_fpa_plugin.Fpa.{Fpa}
use switchd_fpa_plugin.Ofproto.Ports.{Ofport, PortMap, get_ofport_by_pid}
use switchd_fpa_plugin.Prelude.Errno.{eperm}

-- `FPA_EVENT_ADDRESS_UPDATE_NEW_E`, `..._AGED_E`, and any other type.
pub data AddressUpdate : Type 0 where
  update_new update_aged update_other : AddressUpdate

-- `FPA_EVENT_ADDRESS_MSG_STC`; an address is a number below 2^48.
pub record AddressMsg : Type 0 where
  pub type : AddressUpdate
  pub port_num : ℕ
  pub vid : ℕ
  pub address : ℕ

-- `struct fpa_mac_entry`, with the hash of its node. `port.p` is always NULL.
pub record MacEntry : Type 0 where
  pub hash : ℕ
  pub fdb_entry : AddressMsg

-- `mac_event`: `MLEARN_ADD` and `MLEARN_DEL`.
pub data MacEvent : Type 0 where
  mlearn_add mlearn_del : MacEvent

-- `struct mlearn_hmap_node`.
pub record MlearnNode : Type 0 where
  pub hash : ℕ
  pub mac : ℕ
  pub port : ℕ
  pub vlan : ℕ
  pub hw_unit : ℕ
  pub oper : MacEvent
  pub port_name : List ℕ

-- `struct mlearn_hmap`: the nodes of the table stand in the buffer, in the order of the list.
pub record MlearnHmap : Type 0 where
  pub nodes : List MlearnNode
  pub actual_size : ℕ
  pub size : ℕ

-- `struct fpa_mac_learning`. The index `curr_mlearn_table_in_use`, which is 0 or 1, is a Bool, and
-- `mlearn_event_tables` has one field for each index. `triggers` counts the calls of the plugin's
-- `mac_learning_trigger_callback`.
pub record MacLearning : Type 0 where
  -- The number of buckets of the map less 1, and its nodes.
  pub table_mask : ℕ
  pub table : List MacEntry
  pub idle_time : ℕ
  pub max_entries : ℕ
  pub event_table_0 : MlearnHmap
  pub event_table_1 : MlearnHmap
  pub curr_mlearn_table_in_use : Bool
  pub plugin_interface : Bool
  pub triggers : ℕ

abbrev pub event_table : MacLearning → Bool → MlearnHmap
event_table ml i = if i then ml.event_table_1 else ml.event_table_0

abbrev pub set_event_table : MacLearning → Bool → MlearnHmap → MacLearning
set_event_table ml i mhmap =
    if i then record ml { event_table_1 = mhmap } else record ml { event_table_0 = mhmap }

unfoldable pub normalize_idle_time : ℕ → ℕ
normalize_idle_time idle_time =
    if ltb idle_time 10 then 10 else (if ltb 3600 idle_time then 3600 else idle_time)

unfoldable pub set_max_entries : ℕ → MacLearning → MacLearning
set_max_entries max_entries ml = record ml {
  max_entries =
      if ltb max_entries 10 then 10 else (if ltb 1000000 max_entries then 1000000 else max_entries);
}

unfoldable pub mlearn_table_is_full : MlearnHmap → Bool
mlearn_table_is_full mhmap = mhmap.actual_size == mhmap.size

-- What the plugin takes from elsewhere: `hash_bytes` over a VLAN and an address, `BUFFER_SIZE`, the
-- copy of a netdev's name that `strncpy` makes, and the hash map.
pub record Env : Type 1 where
  pub hash_bytes : ℕ → ℕ → ℕ
  pub buffer_size : ℕ
  pub port_name : Ofport → List ℕ
  pub hmap : Hmap

module _ (E : Env) where
  unfoldable pub hash_fdb_entry : AddressMsg → ℕ
  hash_fdb_entry fdb_entry = E.hash_bytes fdb_entry.vid fdb_entry.address

  unfoldable pub clear_mlearn_hmap : MlearnHmap
  clear_mlearn_hmap = record { nodes = []; actual_size = 0; size = E.buffer_size }

  unfoldable pub process_mlearn : MacLearning → MacLearning
  unfolding clear_mlearn_hmap
  process_mlearn ml =
      let next = not ml.curr_mlearn_table_in_use in
      if ml.plugin_interface
      then (if length (event_table ml ml.curr_mlearn_table_in_use).nodes == 0
          then ml
          else set_event_table
              (record ml { curr_mlearn_table_in_use = next; triggers = ml.triggers + 1 }) next
              clear_mlearn_hmap)
      else ml

  -- The node that an event fills, under its hash.
  unfoldable pub mlearn_entry_fill_data :
      ℕ → PortMap → ℕ → AddressMsg → MacEvent → Option MlearnNode
  unfolding get_ofport_by_pid
  mlearn_entry_fill_data sid ports hash fdb_entry event =
      elim (get_ofport_by_pid ports fdb_entry.port_num) [
        | none ↦ none
        | some port ↦ some (record {
          hash = hash;
          mac = fdb_entry.address;
          port = fdb_entry.port_num;
          vlan = fdb_entry.vid;
          hw_unit = sid;
          oper = event;
          port_name = E.port_name port;
        })
      ]

-- The node of a hash is filled again where it stands.
abbrev pub refill : MlearnNode → List MlearnNode → List MlearnNode
refill e [] = []
refill e (x ∷ xs) = if x.hash == e.hash then e ∷ xs else x ∷ refill e xs

abbrev pub with_node : (MlearnNode → MlearnHmap) → Option MlearnNode → Option MlearnHmap
with_node f none = none
with_node f (some e) = some (f e)

-- Putting an event into a buffer: over the node of its hash if there is one, else into the buffer
-- if it has room; without room it is dropped. Only a node that is filled needs its port.
unfoldable pub mlearn_insert : ℕ → Option MlearnNode → MlearnHmap → Option MlearnHmap
mlearn_insert index filled mhmap = elim (find (λ x. x.hash == index) mhmap.nodes) [
  | some old ↦ with_node (λ e. record mhmap { nodes = refill e mhmap.nodes }) filled
  | none ↦
      if ltb mhmap.actual_size mhmap.size
      then with_node
          (λ e. record mhmap {
            nodes = mhmap.nodes ++ (e ∷ []);
            actual_size = mhmap.actual_size + 1;
          })
          filled
      else some mhmap
]

abbrev pub entry_at : List MacEntry → ℕ → Option MacEntry
entry_at = get_elem?

-- The first entry that passes a test, as its place in the table.
abbrev pub place_of : (MacEntry → Bool) → List MacEntry → Option ℕ
place_of p [] = none
place_of p (e ∷ es) = if p e then some 0 else next (place_of p es)
  where
    next : Option ℕ → Option ℕ
    next none = none
    next (some i) = some (suc i)

-- `hmap_remove`.
abbrev pub remove_at : List MacEntry → ℕ → List MacEntry
remove_at [] i = []
remove_at (e ∷ es) zero = es
remove_at (e ∷ es) (suc i) = e ∷ remove_at es i

module _ (E : Env) (sid : ℕ) (ports : PortMap) where
  -- The buffer in use with its new contents; a full one is handed over at once.
  unfoldable pub notify : MacLearning → MlearnHmap → MacLearning
  unfolding mlearn_table_is_full process_mlearn
  notify ml mhmap =
      let ml' = set_event_table ml ml.curr_mlearn_table_in_use mhmap in
      if mlearn_table_is_full mhmap then process_mlearn E ml' else ml'

  unfoldable pub mlearn_action_add : AddressMsg → ℕ → MacEvent → MacLearning → Option MacLearning
  unfolding mlearn_entry_fill_data mlearn_insert notify
  mlearn_action_add fdb_entry index event ml =
      let mhmap = event_table ml ml.curr_mlearn_table_in_use in
      elim (mlearn_insert index (mlearn_entry_fill_data E sid ports index fdb_entry event) mhmap) [
        | none ↦ none
        | some new ↦ some (notify ml new)
      ]

  -- The table with a new entry.
  abbrev pub with_entry : AddressMsg → MacLearning → MacLearning
  with_entry fdb_entry ml =
      let (mask, table) =
        E.hmap.insert (λ (e : MacEntry). e.hash) ml.table_mask
          (record { hash = hash_fdb_entry E fdb_entry; fdb_entry = fdb_entry }) ml.table in
      record ml { table_mask = mask; table = table }

  unfoldable pub insert : AddressMsg → MacLearning → Option (ℕ × MacLearning)
  unfolding hash_fdb_entry mlearn_action_add
  insert fdb_entry ml =
      let index = hash_fdb_entry E fdb_entry in
      let ml' = with_entry fdb_entry ml in
      if leb ml.max_entries (length ml.table)
      then some (eperm, ml)
      else (elim (mlearn_action_add fdb_entry index MacEvent.mlearn_add ml') [
        | none ↦ none
        | some new ↦ some (0, new)
      ])

  -- The entry's VLAN and address.
  abbrev pub same_address : ℕ → ℕ → MacEntry → Bool
  same_address vid address e = e.fdb_entry.address == address && e.fdb_entry.vid == vid

  unfoldable pub lookup : MacLearning → AddressMsg → Option ℕ
  unfolding hash_fdb_entry
  lookup ml fdb_entry =
      let hash = hash_fdb_entry E fdb_entry in
      place_of (λ e. e.hash == hash && same_address fdb_entry.vid fdb_entry.address e) ml.table

  unfoldable pub lookup_by_vlan_and_mac : MacLearning → ℕ → ℕ → Option ℕ
  lookup_by_vlan_and_mac ml vlan_id mac = place_of (same_address vlan_id mac) ml.table

  -- Expiring the entry at a place of the table.
  unfoldable pub expire : ℕ → MacLearning → Option MacLearning
  unfolding mlearn_action_add
  expire i ml = elim (entry_at ml.table i) [
    | none ↦ some ml
    | some e ↦
        mlearn_action_add e.fdb_entry e.hash MacEvent.mlearn_del
          (record ml { table = remove_at ml.table i })
  ]

  -- As many rounds as the table has entries when the loop starts.
  unfoldable pub flush_entries : ℕ → MacLearning → Option MacLearning
  unfolding expire
  flush_entries zero ml = some ml
  flush_entries (suc n) ml = elim (expire 0 ml) [ none ↦ none | some ml' ↦ flush_entries n ml' ]

  unfoldable pub flush : MacLearning → Option MacLearning
  unfolding flush_entries
  flush ml = flush_entries (length ml.table) ml

  unfoldable pub may_learn : MacLearning → ℕ → ℕ → Bool
  may_learn ml src_mac vlan = true

  unfoldable pub learn : AddressMsg → MacLearning → Option (ℕ × MacLearning)
  unfolding get_ofport_by_pid may_learn insert
  learn fdb_entry ml = elim (get_ofport_by_pid ports fdb_entry.port_num) [
    | none ↦ some (eperm, ml)
    | some port ↦
        if may_learn ml fdb_entry.address fdb_entry.vid
        then insert fdb_entry ml
        else some (eperm, ml)
  ]

  unfoldable pub age_by_entry : AddressMsg → MacLearning → Option MacLearning
  unfolding lookup expire
  age_by_entry fdb_entry ml = elim (lookup ml fdb_entry) [ none ↦ some ml | some i ↦ expire i ml ]

  unfoldable pub age_by_vlan_and_mac : ℕ → ℕ → MacLearning → Option (ℕ × MacLearning)
  unfolding lookup_by_vlan_and_mac expire
  age_by_vlan_and_mac vlan mac ml = elim (lookup_by_vlan_and_mac ml vlan mac) [
    | none ↦ some (eperm, ml)
    | some i ↦ elim (expire i ml) [ none ↦ none | some new ↦ some (0, new) ]
  ]

  -- One message of the handler thread's loop.
  unfoldable pub handle_msg : AddressMsg → MacLearning → Option MacLearning
  unfolding learn age_by_entry
  handle_msg msg ml = elim msg.type [
    | AddressUpdate.update_new ↦ elim (learn msg ml) [ none ↦ none | some r ↦ some r.1 ]
    | AddressUpdate.update_aged ↦ age_by_entry msg ml
    | AddressUpdate.update_other ↦ some ml
  ]

  unfoldable pub on_mlearn_timer_expired : MacLearning → MacLearning
  unfolding process_mlearn
  on_mlearn_timer_expired ml = process_mlearn E ml

-- `ops_fpa_ml_hmap_get`: the buffer that is not in use, unless it is empty.
unfoldable pub ml_hmap_get : MacLearning → Option MlearnHmap
ml_hmap_get ml =
    let mhmap = event_table ml (not ml.curr_mlearn_table_in_use) in
    if length mhmap.nodes == 0 then none else some mhmap

module _ (F : Fpa) where
  -- `ops_fpa_mac_learning_set_idle_time` and `..._get_idle_time`.
  unfoldable pub set_idle_time : ℕ → ℕ → MacLearning → F.Hw → ℕ × MacLearning × F.Hw
  unfolding normalize_idle_time
  set_idle_time sid idle_time ml hw =
      let idle = normalize_idle_time idle_time in
      let (err, hw') = F.switch_aging_timeout_set sid idle hw in
      if err == 0 then (0, record ml { idle_time = idle }, hw') else (eperm, ml, hw')

  unfoldable pub get_idle_time : ℕ → F.Hw → ℕ × ℕ
  get_idle_time sid hw =
      let (err, idle_time) = F.switch_aging_timeout_get sid hw in
      (if err == 0 then 0 else eperm, idle_time)

  -- `ops_fpa_mac_learning_create`, with `MAC_DEFAULT_MAX`, `MAC_ENTRY_DEFAULT_IDLE_TIME`,
  -- `fpaLibSwitchSrcMacLearningSet`, and whether the plugin interface is found. Where it fails,
  -- `*p_ml` is not written.
  unfoldable pub create :
      Env → ℕ → ℕ → (ℕ → F.Hw → ℕ × F.Hw) → Bool → ℕ → F.Hw → ℕ × Option MacLearning × F.Hw
  unfolding normalize_idle_time clear_mlearn_hmap
  create E default_max default_idle src_mac_learning_set plugin sid hw =
      let ml : MacLearning = record {
        table_mask = 0;
        table = [];
        idle_time = normalize_idle_time default_idle;
        max_entries = default_max;
        event_table_0 = clear_mlearn_hmap E;
        event_table_1 = clear_mlearn_hmap E;
        curr_mlearn_table_in_use = false;
        plugin_interface = plugin;
        triggers = 0;
      } in
      let (err1, hw1) = F.switch_aging_timeout_set sid ml.idle_time hw in
      let (err2, hw2) = src_mac_learning_set sid hw1 in
      if err1 == 0
      then (if err2 == 0 then (0, some ml, hw2) else (eperm, none, hw2))
      else (eperm, none, hw1)
