-- ===== src/MacLearning/Table.antt =====
-- The table of learned addresses: lookups after learning and ageing, flushing, and the bounds that
-- every sequence of steps keeps.
use switchd_fpa_plugin.Prelude.{
  ℕ, zero, suc, ◌≤◌, ◌<◌, ◌≡◌, ◌≢◌, refl, subst, ◌∙◌, ap, ap₂, Bool, ◌&&◌, Option, none, some, List,
  [], ◌∷◌, arith, ◌==◌, ==_iff, if◌then◌else◌, Bool-cases, Option-cases, inl, inr, length, find,
  keep, any, ◌+◌, true, false, sym,
}
use switchd_fpa_plugin.Hmap.{
  find-perm, find-none, find-insert, without_first, without_first-insert, length-perm,
}
use mathlib.Core.List.{Permᴰ}
use switchd_fpa_plugin.Ofproto.Ports.{Ofport, PortMap, get_ofport_by_pid}
use switchd_fpa_plugin.MacLearning.{
  AddressMsg, MacEvent, MacEntry, MlearnNode, MlearnHmap, MacLearning, event_table, Env,
  process_mlearn, mlearn_entry_fill_data, mlearn_insert, mlearn_table_is_full, notify,
  mlearn_action_add, hash_fdb_entry, place_of, entry_at, remove_at, insert, lookup, same_address,
  with_entry, expire, learn, may_learn, age_by_entry,
}

pub length-remove_at : (es : List MacEntry) (i : ℕ) → length (remove_at es i) ≤ length es
length-remove_at [] i = ground arith
length-remove_at (e ∷ es) zero = ground arith
length-remove_at (e ∷ es) (suc i) = ground (arith, length-remove_at es i)

remove_at_absent : (es : List MacEntry) (i : ℕ) → entry_at es i ≡ none → remove_at es i ≡ es
remove_at_absent [] i h = refl
remove_at_absent (e ∷ es) zero h = ground (arith, h)
remove_at_absent (e ∷ es) (suc i) h = ap (λ xs. e ∷ xs) (remove_at_absent es i h)

-- The entry at a place that may be none.
abbrev pub entry_at? : List MacEntry → Option ℕ → Option MacEntry
entry_at? es none = none
entry_at? es (some i) = entry_at es i

place_of-find :
    (p : MacEntry → Bool) (es : List MacEntry) → entry_at? es (place_of p es) ≡ find p es
place_of-find p [] = refl
place_of-find p (e ∷ es) = ground (arith, place_of-find p es)

module _ (E : Env) (sid : ℕ) (ports : PortMap) where
  -- What adding an event leaves alone.
  notify-table :
      (ml : MacLearning) (mhmap : MlearnHmap)
      → let done = notify E sid ports ml mhmap in
        (done.table ≡ ml.table)
        × (done.max_entries ≡ ml.max_entries)
        × (done.plugin_interface ≡ ml.plugin_interface)
  unfolding notify process_mlearn mlearn_table_is_full
  notify-table ml mhmap = elim (Bool-cases ml.curr_mlearn_table_in_use) [
    | inl second ↦ rw second (ground (arith, second))
    | inr first ↦ rw first (ground (arith, first))
  ]

  pub mlearn_action_add-table :
      (fdb_entry : AddressMsg) (index : ℕ) (event : MacEvent) (ml done : MacLearning)
      → mlearn_action_add E sid ports fdb_entry index event ml ≡ some done
      → (done.table ≡ ml.table)
        × (done.max_entries ≡ ml.max_entries)
        × (done.plugin_interface ≡ ml.plugin_interface)
  unfolding mlearn_action_add
  mlearn_action_add-table fdb_entry index event ml done ok =
      elim (Option-cases (
        mlearn_insert index (mlearn_entry_fill_data E sid ports index fdb_entry event)
          (event_table ml ml.curr_mlearn_table_in_use))) [
            | inl dropped ↦ ground (arith, ok, dropped)
            | inr kept ↦ ground (arith, ok, kept.1, notify-table ml kept.0)
          ]

  mlearn_insert-total :
      (e : MlearnNode) (index : ℕ) (mhmap : MlearnHmap) → mlearn_insert index (some e) mhmap ≢ none
  unfolding mlearn_insert
  mlearn_insert-total e index mhmap failed =
      elim (Option-cases (find (λ x. x.hash == index) mhmap.nodes)) [
        | inl absent ↦ ground (arith, failed, absent)
        | inr present ↦ ground (arith, failed, present.1)
      ]

  -- An event whose port is known is added.
  pub mlearn_action_add-total :
      (fdb_entry : AddressMsg) (index : ℕ) (event : MacEvent) (ml : MacLearning) (port : Ofport)
      → get_ofport_by_pid ports fdb_entry.port_num ≡ some port
      → mlearn_action_add E sid ports fdb_entry index event ml ≢ none
  unfolding mlearn_action_add mlearn_entry_fill_data
  mlearn_action_add-total fdb_entry index event ml port known failed =
      elim (Option-cases (mlearn_entry_fill_data E sid ports index fdb_entry event)) [
        | inl unknown ↦ ground (arith, known, unknown)
        | inr filled ↦
            elim (Option-cases (
              mlearn_insert index (mlearn_entry_fill_data E sid ports index fdb_entry event)
                (event_table ml ml.curr_mlearn_table_in_use))) [
                  | inl dropped ↦
                      mlearn_insert-total filled.0 index
                        (event_table ml ml.curr_mlearn_table_in_use)
                        (subst
                          (λ o.
                            mlearn_insert index o (event_table ml ml.curr_mlearn_table_in_use)
                            ≡ none)
                          filled.1 dropped)
                  | inr kept ↦ ground (arith, failed, kept.1)
                ]
      ]

  -- What a successful call of `learn` has done to the table.
  pub learned :
      (msg : AddressMsg) (ml done : MacLearning)
      → learn E sid ports msg ml ≡ some (0, done)
      → (length ml.table < ml.max_entries)
        × (mlearn_action_add E sid ports msg
              (hash_fdb_entry E msg)
              MacEvent.mlearn_add
              (with_entry E sid ports msg ml)
            ≡ some done)
  unfolding learn may_learn insert
  learned msg ml done ok = elim (Option-cases (get_ofport_by_pid ports msg.port_num)) [
    | inl unknown ↦ ground (arith, ok, unknown)
    | inr known ↦
        elim (Option-cases (
          mlearn_action_add E sid ports msg (hash_fdb_entry E msg) MacEvent.mlearn_add
            (with_entry E sid ports msg ml))) [
              | inl failed ↦ ground (arith, ok, known.1, failed)
              | inr added ↦ ground (arith, ok, known.1, added.1)
            ]
  ]

  pub expired :
      (i : ℕ) (ml done : MacLearning)
      → expire E sid ports i ml ≡ some done
      → (done.table ≡ remove_at ml.table i)
        × (done.max_entries ≡ ml.max_entries)
        × (done.plugin_interface ≡ ml.plugin_interface)
  unfolding expire
  expired i ml done ok = elim (Option-cases (entry_at ml.table i)) [
    | inl absent ↦ ground (arith, ok, absent, remove_at_absent ml.table i absent)
    | inr present ↦ ground (
      arith,
      ok,
      present.1,
      mlearn_action_add-table present.0.fdb_entry present.0.hash MacEvent.mlearn_del
          (record ml { table = remove_at ml.table i }) done,
    )
  ]

  -- The entry that `lookup` finds for a VLAN and an address.
  unfoldable pub found : MacLearning → AddressMsg → Option MacEntry
  unfolding lookup
  found ml key = entry_at? ml.table (lookup E sid ports ml key)

  abbrev new_entry : AddressMsg → MacEntry
  new_entry msg = record { hash = hash_fdb_entry E msg; fdb_entry = msg }

  abbrev is_key : AddressMsg → MacEntry → Bool
  is_key key e = e.hash == hash_fdb_entry E key && same_address E sid ports key.vid key.address e

  is_key-new_entry :
      (key msg : AddressMsg)
      → is_key key (new_entry msg) ≡ (msg.address == key.address && msg.vid == key.vid)
  unfolding hash_fdb_entry
  is_key-new_entry key msg = elim (Bool-cases (msg.address == key.address && msg.vid == key.vid)) [
    | inl same ↦ ground (
      arith,
      same,
      ap₂ E.hash_bytes ((==_iff msg.vid key.vid).0 (ground (arith, same)))
          ((==_iff msg.address key.address).0 (ground (arith, same))),
    )
    | inr differ ↦ ground (arith, differ)
  ]

  found-find : (ml : MacLearning) (key : AddressMsg) → found ml key ≡ find (is_key key) ml.table
  unfolding found lookup hash_fdb_entry
  found-find ml key = place_of-find (is_key key) ml.table

  table_perm :
      (msg : AddressMsg) (ml : MacLearning)
      → Permᴰ (with_entry E sid ports msg ml).table (new_entry msg ∷ ml.table)
  table_perm msg ml =
      E.hmap.insert-perm (λ (e : MacEntry). e.hash) ml.table_mask (new_entry msg) ml.table

  -- What a successful call has made of the table.
  pub learned-table :
      (msg : AddressMsg) (ml done : MacLearning)
      → learn E sid ports msg ml ≡ some (0, done)
      → (done.table ≡ (with_entry E sid ports msg ml).table)
        × (done.max_entries ≡ ml.max_entries)
        × (length ml.table < ml.max_entries)
  learned-table msg ml done ok =
      let added = learned msg ml done ok in
      let frame =
        mlearn_action_add-table msg (hash_fdb_entry E msg) MacEvent.mlearn_add
          (with_entry E sid ports msg ml) done added.1 in
      (frame.0, frame.1, added.0)

  -- How many entries of a VLAN and an address the table holds.
  unfoldable pub times : MacLearning → AddressMsg → ℕ
  unfolding hash_fdb_entry
  times ml key = length (keep (is_key key) ml.table)

  -- After an address has been learned with status 0 that was not in the table, whatever the hash
  -- map does to its order, it is looked up as it was learned; every other address that stands in
  -- the table at most once is looked up as before; and the table keeps to its maximum.
  pub learn-found :
      (msg : AddressMsg) (ml done : MacLearning) (key : AddressMsg)
      → learn E sid ports msg ml ≡ some (0, done)
      → (if msg.address == key.address && msg.vid == key.vid
          then times ml key + 1
          else times ml key)
        ≤ 1
      → (found done key ≡ (
          if msg.address == key.address && msg.vid == key.vid
          then some (record { hash = hash_fdb_entry E msg; fdb_entry = msg })
          else found ml key))
        × (length done.table ≤ done.max_entries)
  unfolding times hash_fdb_entry
  learn-found msg ml done key ok few =
      let table = learned-table msg ml done ok in
      let d = table_perm msg ml in
      let once : length (keep (is_key key) (new_entry msg ∷ ml.table)) ≤ 1 =
        ground (arith, few, is_key-new_entry key msg) in
      (
        found-find done key
            ∙ ap (find (is_key key)) table.0
            ∙ find-perm (is_key key) d once
            ∙ ground (arith, is_key-new_entry key msg, found-find ml key),
        omega (arith, ap length table.0, length-perm d, table.1, table.2),
      )

  place_of-without_first :
      (p : MacEntry → Bool) (es : List MacEntry) (i : ℕ)
      → place_of p es ≡ some i
      → remove_at es i ≡ without_first p es
  place_of-without_first p [] i h = cc
  place_of-without_first p (e ∷ es) i h = elim (Bool-cases (p e)) [
    | inl hit ↦
        let first : 0 ≡ i = ground (arith, h, hit) in
        subst (λ n. remove_at (e ∷ es) n ≡ without_first p (e ∷ es)) first (rw hit refl)
    | inr miss ↦ elim (Option-cases (place_of p es)) [
      | inl none_there ↦ absurd (ground (arith, h, miss, none_there))
      | inr (j, there) ↦
          let next : suc j ≡ i = ground (arith, h, miss, there) in
          subst (λ n. remove_at (e ∷ es) n ≡ without_first p (e ∷ es)) next
            (rw miss (ap (λ l. e ∷ l) (place_of-without_first p es j there)))
    ]
  ]

  absent :
      (msg : AddressMsg) (ml : MacLearning)
      → found ml msg ≡ none
      → any (is_key msg) ml.table ≡ false
  absent msg ml h = find-none (is_key msg) ml.table (sym (found-find ml msg) ∙ h)

  -- If an address that is not looked up is learned with status 0 and then aged, whatever the hash
  -- map does to its order, and neither call ends the process, the table holds the entries that it
  -- held, in some order.
  pub age_by_entry-learn :
      (msg : AddressMsg) (ml done gone : MacLearning)
      → found ml msg ≡ none
      → learn E sid ports msg ml ≡ some (0, done)
      → age_by_entry E sid ports msg done ≡ some gone
      → Permᴰ gone.table ml.table
  unfolding age_by_entry lookup hash_fdb_entry
  age_by_entry-learn msg ml done gone new ok aged =
      let table = learned-table msg ml done ok in
      let own : is_key msg (new_entry msg) ≡ true = ground (arith, is_key-new_entry msg msg) in
      let alone = absent msg ml new in
      let hash = λ (e : MacEntry). e.hash in
      let here =
        ap (find (is_key msg)) table.0
        ∙ find-insert E.hmap hash ml.table_mask (is_key msg) (new_entry msg) ml.table own alone in
      elim (Option-cases (place_of (is_key msg) done.table)) [
        | inl lost ↦ absurd (ground (arith, place_of-find (is_key msg) done.table ∙ here, lost))
        | inr (i, at) ↦
            let left =
              (expired i done gone (ground (arith, aged, at))).0
              ∙ place_of-without_first (is_key msg) done.table i at
              ∙ ap (without_first (is_key msg)) table.0 in
            subst (λ l. Permᴰ l ml.table) (sym left)
              (without_first-insert E.hmap hash ml.table_mask (is_key msg) (new_entry msg) ml.table
                own alone)
      ]
