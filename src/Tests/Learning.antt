-- ===== src/Tests/Learning.antt =====
-- MAC learning with buffers of two events.
use switchd_fpa_plugin.Prelude.{
  ◌+◌, ◌≡◌, refl, ap, ◌≤◌, true, false, none, some, [], ◌∷◌, ◌==◌, ◌&&◌, if◌then◌else◌, ◌⊎◌, arith,
  find,
}
use switchd_fpa_plugin.Prelude.Bitmap.{empty}
use mathlib.Core.List.{Permᴰ}
use switchd_fpa_plugin.Fpa.Sim.{Switch}
use switchd_fpa_plugin.Ofproto.Ports.{Ofport, PortMap, get_ofport_by_pid}
use switchd_fpa_plugin.MacLearning.{
  AddressUpdate, AddressMsg, MacEvent, MacLearning, event_table, create, learn, insert,
  age_by_entry, flush, expire, lookup, lookup_by_vlan_and_mac, hash_fdb_entry, mlearn_action_add,
  mlearn_entry_fill_data, mlearn_insert, notify, mlearn_table_is_full, clear_mlearn_hmap,
  normalize_idle_time, may_learn, ml_hmap_get, handle_msg, set_idle_time,
}
use switchd_fpa_plugin.MacLearning.Events.{IsReady, mlearn_action_add-delivers}
use switchd_fpa_plugin.MacLearning.Table.{times, found, learn-found, age_by_entry-learn}
use switchd_fpa_plugin.MacLearning.Reach.{
  Step, Reached, IsSound, Reached-IsSound, lookup-lookup_by_vlan_and_mac,
}
use switchd_fpa_plugin.MacLearning.IdleTime.{clamp, set_idle_time-bounds}
use switchd_fpa_plugin.MacLearning.Flush.{flush-total}
use switchd_fpa_plugin.Tests.Setting.{F, E}

abbrev blank : Switch
blank = record { flow = λ s t. []; group = λ s. []; aging = 0; down = λ s p. false }

abbrev port_3 : Ofport
port_3 = record { pid = 3; ofp_port = 3; mac = 0x112233445566; mtu = 1500; vmap = empty }

abbrev ports : PortMap
ports = record { mask = 0; nodes = record { hash = 3; port = port_3 } ∷ [] }

-- The ports after port 3 has gone.
abbrev no_ports : PortMap
no_ports = record { mask = 0; nodes = [] }

abbrev msg : AddressMsg
msg = record { type = AddressUpdate.update_new; port_num = 3; vid = 5; address = 0xaabb }

abbrev start : MacLearning
start = record {
  table_mask = 0;
  table = [];
  idle_time = 300;
  max_entries = 8;
  event_table_0 = record { nodes = []; actual_size = 0; size = 2 };
  event_table_1 = record { nodes = []; actual_size = 0; size = 2 };
  curr_mlearn_table_in_use = false;
  plugin_interface = true;
  triggers = 0;
}

-- After `msg` has been learned.
abbrev learned : MacLearning
learned = record start {
  table = record { hash = 0xaac0; fdb_entry = msg } ∷ [];
  event_table_0 = record {
    nodes =
        record {
          hash = 0xaac0;
          mac = 0xaabb;
          port = 3;
          vlan = 5;
          hw_unit = 0;
          oper = MacEvent.mlearn_add;
          port_name = [];
        }
        ∷ [];
    actual_size = 1;
    size = 2;
  };
}

-- And aged again: the event of its hash is overwritten.
abbrev aged : MacLearning
aged = record learned {
  table = [];
  event_table_0 = record {
    nodes =
        record {
          hash = 0xaac0;
          mac = 0xaabb;
          port = 3;
          vlan = 5;
          hw_unit = 0;
          oper = MacEvent.mlearn_del;
          port_name = [];
        }
        ∷ [];
    actual_size = 1;
    size = 2;
  };
}

learn_runs : learn E 0 ports msg start ≡ some (0, learned)
unfolding learn may_learn insert get_ofport_by_pid mlearn_action_add hash_fdb_entry
    mlearn_entry_fill_data mlearn_insert notify mlearn_table_is_full
learn_runs = refl

age_runs : age_by_entry E 0 ports msg learned ≡ some aged
unfolding age_by_entry lookup expire get_ofport_by_pid mlearn_action_add hash_fdb_entry
    mlearn_entry_fill_data mlearn_insert notify mlearn_table_is_full
age_runs = refl

start-Reached : Reached E F 0 start
unfolding create clear_mlearn_hmap normalize_idle_time
start-Reached = Reached.created 8 300 (λ s hw. (0, hw)) true blank refl

learned-Reached : Reached E F 0 learned
unfolding handle_msg
learned-Reached =
    Reached.later start-Reached
      (Step.message ports msg (ap (λ r. elim r [ none ↦ none | some p ↦ some p.1 ]) learn_runs))

learned-IsSound : IsSound E learned
learned-IsSound = Reached-IsSound E 0 (omega arith) F learned learned-Reached

Reached-IsSound_example : IsSound E learned
Reached-IsSound_example = Reached-IsSound E 0 (omega arith) F learned learned-Reached

lookup-lookup_by_vlan_and_mac_example :
    lookup E 0 ports learned msg ≡ lookup_by_vlan_and_mac E 0 ports learned 5 0xaabb
lookup-lookup_by_vlan_and_mac_example =
    lookup-lookup_by_vlan_and_mac E 0 (omega arith) F ports learned msg learned-Reached

learned_event :
    mlearn_action_add E 0 ports msg 0xaac0 MacEvent.mlearn_del (record learned { table = [] })
    ≡ some aged
unfolding get_ofport_by_pid mlearn_action_add mlearn_entry_fill_data mlearn_insert notify
    mlearn_table_is_full
learned_event = refl

learned-IsReady : IsReady E (record learned { table = [] })
learned-IsReady =
    let r = learned-IsSound.ready in
    record { buffer_0 = r.buffer_0; buffer_1 = r.buffer_1; not_full = refl }

mlearn_action_add-delivers_example :
    (find (λ y. y.hash == 0xaac0) (event_table aged false).nodes
      ≡ mlearn_entry_fill_data E 0 ports 0xaac0 msg MacEvent.mlearn_del)
    × ((false ≡ false)
        ⊎ ((ml_hmap_get aged ≡ some (event_table aged false))
            × (aged.triggers ≡ learned.triggers + 1)))
mlearn_action_add-delivers_example =
    mlearn_action_add-delivers E 0 ports (omega arith) msg 0xaac0 MacEvent.mlearn_del
      (record learned { table = [] }) aged learned_event learned-IsReady refl

not_yet : times E 0 ports start msg + 1 ≤ 1
unfolding times
not_yet = omega arith

learn-found_example :
    (found E 0 ports learned msg ≡ (
      if msg.address == msg.address && msg.vid == msg.vid
      then some (record { hash = hash_fdb_entry E msg; fdb_entry = msg })
      else found E 0 ports start msg))
    × (1 ≤ 8)
learn-found_example = learn-found E 0 ports msg start learned msg learn_runs not_yet

unknown : found E 0 ports start msg ≡ none
unfolding found lookup
unknown = refl

age_by_entry-learn_example : Permᴰ aged.table []
age_by_entry-learn_example =
    age_by_entry-learn E 0 ports msg start learned aged unknown learn_runs age_runs

flush-total_example :
    (done : MacLearning) × (flush E 0 ports learned ≡ some done) × (done.table ≡ [])
unfolding get_ofport_by_pid
flush-total_example = flush-total E 0 ports learned ((port_3, refl), tt)

set_idle_time-bounds_example :
    let (err, done, hw') = set_idle_time F 0 5 start blank in
    (10 ≤ done.idle_time)
    × (done.idle_time ≤ 3600)
    × (done.idle_time ≡ (if err == 0 then clamp 10 3600 5 else 300))
    × (hw' ≡ (F.switch_aging_timeout_set 0 (clamp 10 3600 5) blank).1)
set_idle_time-bounds_example = set_idle_time-bounds F 0 5 start blank (omega arith) (omega arith)
