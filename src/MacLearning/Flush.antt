-- ===== src/MacLearning/Flush.antt =====
-- Removing entries, with the ports that they were learned on and without.
use switchd_fpa_plugin.Prelude.{
  ℕ, ◌<◌, ◌≡◌, refl, ◌∙◌, ap, true, none, some, List, [], ◌∷◌, arith, ◌==◌, Option-cases, inl, inr,
  length, find,
}
use switchd_fpa_plugin.Ofproto.Ports.{Ofport, PortMap, get_ofport_by_pid}
use switchd_fpa_plugin.MacLearning.{
  AddressMsg, MacEvent, MacEntry, MlearnHmap, MacLearning, event_table, Env, mlearn_action_add,
  mlearn_insert, mlearn_entry_fill_data, entry_at, remove_at, lookup, expire, age_by_entry,
  flush_entries, flush,
}
use switchd_fpa_plugin.MacLearning.Events.{IsReady, in_use-IsBuffer, has_room}
use switchd_fpa_plugin.MacLearning.Table.{mlearn_action_add-total, expired}

-- The port of every entry is known.
abbrev pub AreKnown : PortMap → List MacEntry → Type 0
AreKnown ports [] = Unit {0}
AreKnown ports (e ∷ es) =
    ((port : Ofport) × (get_ofport_by_pid ports e.fdb_entry.port_num ≡ some port))
    × AreKnown ports es

module _ (E : Env) (sid : ℕ) (ports : PortMap) where
  expire-total :
      (e : MacEntry) (ml : MacLearning) (port : Ofport)
      → get_ofport_by_pid ports e.fdb_entry.port_num ≡ some port
      → entry_at ml.table 0 ≡ some e
      → (done : MacLearning) × (expire E sid ports 0 ml ≡ some done)
  unfolding expire
  expire-total e ml port known at = elim (Option-cases (expire E sid ports 0 ml)) [
    | inl failed ↦ absurd (
        mlearn_action_add-total E sid ports e.fdb_entry e.hash MacEvent.mlearn_del
          (record ml { table = remove_at ml.table 0 }) port known (ground (arith, failed, at)))
    | inr done ↦ done
  ]

  flush_entries-total :
      (es : List MacEntry) (ml : MacLearning)
      → ml.table ≡ es
      → AreKnown ports es
      → (done : MacLearning) × (flush_entries E sid ports (length es) ml ≡ some done)
        × (done.table ≡ [])
  unfolding flush_entries
  flush_entries-total [] ml same known = (ml, refl, same)
  flush_entries-total (e ∷ es) ml same known =
      let gone = expire-total e ml known.0.0 known.0.1 (ap (λ t. entry_at t 0) same) in
      let rest =
        flush_entries-total es gone.0
          ((expired E sid ports 0 ml gone.0 gone.1).0 ∙ ap (λ t. remove_at t 0) same) known.1 in
      (rest.0, rw (gone.1, flush_entries) rest.1, rest.2)

  -- A flush comes to its end and leaves the table empty, if the port of every entry is known.
  pub flush-total :
      (ml : MacLearning)
      → AreKnown ports ml.table
      → (done : MacLearning) × (flush E sid ports ml ≡ some done) × (done.table ≡ [])
  unfolding flush
  flush-total ml known = flush_entries-total ml.table ml refl known

  mlearn_insert-none :
      (index : ℕ) (mhmap : MlearnHmap)
      → mhmap.actual_size < mhmap.size
      → mlearn_insert index none mhmap ≡ none
  unfolding mlearn_insert
  mlearn_insert-none index mhmap room =
      elim (Option-cases (find (λ x. x.hash == index) mhmap.nodes)) [
        | inl absent ↦ ground (arith, absent, room)
        | inr present ↦ ground (arith, present.1)
      ]

  mlearn_action_add-unknown :
      (fdb_entry : AddressMsg) (index : ℕ) (event : MacEvent) (ml : MacLearning)
      → (event_table ml ml.curr_mlearn_table_in_use).actual_size
        < (event_table ml ml.curr_mlearn_table_in_use).size
      → get_ofport_by_pid ports fdb_entry.port_num ≡ none
      → mlearn_action_add E sid ports fdb_entry index event ml ≡ none
  unfolding mlearn_action_add mlearn_entry_fill_data
  mlearn_action_add-unknown fdb_entry index event ml room unknown =
      ground
        (arith, unknown, mlearn_insert-none index (event_table ml ml.curr_mlearn_table_in_use) room)

  -- Ageing an address that is found ends the process, if the port that it was learned on is not
  -- known, there is a plugin and the buffers are sound with room for one event at least: filling
  -- the event asserts the port.
  age_by_entry-aborts :
      (msg : AddressMsg) (ml : MacLearning) (i : ℕ) (e : MacEntry)
      → 0 < E.buffer_size
      → IsReady E ml
      → ml.plugin_interface ≡ true
      → lookup E sid ports ml msg ≡ some i
      → entry_at ml.table i ≡ some e
      → get_ofport_by_pid ports e.fdb_entry.port_num ≡ none
      → age_by_entry E sid ports msg ml ≡ none
  unfolding age_by_entry expire
  age_by_entry-aborts msg ml i e some_room ready plugin at held unknown =
      let wf = in_use-IsBuffer E sid ports some_room ml ready in
      ground (
        arith,
        at,
        held,
        mlearn_action_add-unknown e.fdb_entry e.hash MacEvent.mlearn_del
            (record ml { table = remove_at ml.table i })
            (omega (arith, wf.counts, wf.room, has_room E ml ready plugin)) unknown,
      )
