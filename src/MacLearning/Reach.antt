-- ===== src/MacLearning/Reach.antt =====
-- Every state that the handler thread, the timer and the commands can reach.
use switchd_fpa_plugin.Prelude.{
  ℕ, zero, suc, ◌≤◌, ◌<◌, ◌≡◌, refl, sym, subst, ◌∙◌, ap, ap₂, Bool, true, ◌&&◌, some, List, [],
  ◌∷◌, arith, ◌==◌, ==_iff, ◌⊎◌, Bool-cases, Option-cases, inl, inr, length,
}
use switchd_fpa_plugin.Fpa.{Fpa}
use switchd_fpa_plugin.Hmap.{length-perm}
use mathlib.Core.List.{Permᴰ}
use switchd_fpa_plugin.Ofproto.Ports.{PortMap, get_ofport_by_pid}
use switchd_fpa_plugin.MacLearning.{
  AddressUpdate, AddressMsg, MacEvent, MacEntry, MacLearning, Env, clear_mlearn_hmap,
  process_mlearn, mlearn_action_add, hash_fdb_entry, create, age_by_vlan_and_mac, place_of,
  entry_at, remove_at, insert, lookup, lookup_by_vlan_and_mac, same_address, with_entry, expire,
  learn, may_learn, age_by_entry, flush_entries, flush, handle_msg, on_mlearn_timer_expired,
}
use switchd_fpa_plugin.MacLearning.Events.{IsReady, mlearn_action_add-IsReady}
use switchd_fpa_plugin.MacLearning.Table.{
  length-remove_at, mlearn_action_add-table, expired, learned,
}

module _ (E : Env) where
  -- Every entry stands under the hash of its VLAN and address.
  abbrev pub AreHashed : List MacEntry → Type 0
  AreHashed [] = Unit {0}
  AreHashed (e ∷ es) = (e.hash ≡ hash_fdb_entry E e.fdb_entry) × AreHashed es

  pub record IsSound (ml : MacLearning) : Type 0 where
    pub ready : IsReady E ml
    pub bounded : length ml.table ≤ ml.max_entries
    pub hashed : AreHashed ml.table

  remove_at-AreHashed : (es : List MacEntry) (i : ℕ) → AreHashed es → AreHashed (remove_at es i)
  remove_at-AreHashed [] i h = tt
  remove_at-AreHashed (e ∷ es) zero h = h.1
  remove_at-AreHashed (e ∷ es) (suc i) h = (h.0, remove_at-AreHashed es i h.1)

  AreHashed-perm : {xs ys : List MacEntry} → Permᴰ xs ys → AreHashed ys → AreHashed xs
  AreHashed-perm Permᴰ.nil h = tt
  AreHashed-perm (Permᴰ.cons e d) h = (
    subst (λ (x : MacEntry). x.hash ≡ hash_fdb_entry E x.fdb_entry) (sym e) h.0,
    AreHashed-perm d h.1,
  )
  AreHashed-perm (Permᴰ.swap e f) h = (
    subst (λ (x : MacEntry). x.hash ≡ hash_fdb_entry E x.fdb_entry) (sym e) h.1.0,
    (subst (λ (x : MacEntry). x.hash ≡ hash_fdb_entry E x.fdb_entry) (sym f) h.0, h.1.1),
  )
  AreHashed-perm (Permᴰ.trans d e) h = AreHashed-perm d (AreHashed-perm e h)

  -- The steps: a message of the handler thread, the timer, a flush, and the ageing of an address.
  -- The ports may differ from one step to the next.
  pub data Step (sid : ℕ) (ml : MacLearning) : MacLearning → Type 0 where
    message :
        (ports : PortMap) (msg : AddressMsg) {next : MacLearning}
        → handle_msg E sid ports msg ml ≡ some next
        → Step sid ml next
    timer : (ports : PortMap) → Step sid ml (on_mlearn_timer_expired E sid ports ml)
    flushed :
        (ports : PortMap) {next : MacLearning} → flush E sid ports ml ≡ some next → Step sid ml next
    aged :
        (ports : PortMap) (vlan mac : ℕ) {err : ℕ} {next : MacLearning}
        → age_by_vlan_and_mac E sid ports vlan mac ml ≡ some (err, next)
        → Step sid ml next

  pub data Reached (F : Fpa) (sid : ℕ) : MacLearning → Type 0 where
    created :
        (default_max default_idle : ℕ) (set : ℕ → F.Hw → ℕ × F.Hw) (plugin : Bool) (hw : F.Hw)
        {ml : MacLearning}
        → (create F E default_max default_idle set plugin sid hw).1 ≡ some ml
        → Reached F sid ml
    later : {ml next : MacLearning} → Reached F sid ml → Step sid ml next → Reached F sid next

  module _ (sid : ℕ) (some_room : 0 < E.buffer_size) where
    process_mlearn-IsSound : (ml : MacLearning) → IsSound ml → IsSound (process_mlearn E ml)
    unfolding process_mlearn
    process_mlearn-IsSound ml wf = elim (Bool-cases ml.curr_mlearn_table_in_use) [
      | inl second ↦ rw second (ground (arith, second))
      | inr first ↦ rw first (ground (arith, first))
    ]

    expire-IsReady :
        (ports : PortMap) (i : ℕ) (ml done : MacLearning)
        → expire E sid ports i ml ≡ some done
        → IsReady E ml
        → IsReady E done
    unfolding expire
    expire-IsReady ports i ml done ok ready = elim (Option-cases (entry_at ml.table i)) [
      | inl absent ↦ ground (arith, ok, absent, ready)
      | inr present ↦
          mlearn_action_add-IsReady E sid ports some_room present.0.fdb_entry present.0.hash
            MacEvent.mlearn_del (record ml { table = remove_at ml.table i }) done
            (ground (arith, ok, present.1))
            (record {
              buffer_0 = ready.buffer_0;
              buffer_1 = ready.buffer_1;
              not_full = ready.not_full;
            })
    ]

    expire-IsSound :
        (ports : PortMap) (i : ℕ) (ml done : MacLearning)
        → expire E sid ports i ml ≡ some done
        → IsSound ml
        → IsSound done
    expire-IsSound ports i ml done ok wf =
        let gone = expired E sid ports i ml done ok in
        record {
          ready = expire-IsReady ports i ml done ok wf.ready;
          bounded = rw (gone.0, gone.1) (omega (arith, length-remove_at ml.table i, wf.bounded));
          hashed = rw gone.0 (remove_at-AreHashed ml.table i wf.hashed);
        }

    learn-IsSound :
        (ports : PortMap) (msg : AddressMsg) (ml done : MacLearning)
        → learn E sid ports msg ml ≡ some (0, done)
        → IsSound ml
        → IsSound done
    learn-IsSound ports msg ml done ok wf =
        let entry : MacEntry = record { hash = hash_fdb_entry E msg; fdb_entry = msg } in
        let added = learned E sid ports msg ml done ok in
        let before = with_entry E sid ports msg ml in
        let d = E.hmap.insert-perm (λ (e : MacEntry). e.hash) ml.table_mask entry ml.table in
        let frame =
          mlearn_action_add-table E sid ports msg (hash_fdb_entry E msg) MacEvent.mlearn_add before
            done added.1 in
        record {
          ready =
              mlearn_action_add-IsReady E sid ports some_room msg (hash_fdb_entry E msg)
                MacEvent.mlearn_add before done added.1
                (record {
                  buffer_0 = wf.ready.buffer_0;
                  buffer_1 = wf.ready.buffer_1;
                  not_full = wf.ready.not_full;
                });
          bounded = omega (arith, ap length frame.0, length-perm d, frame.1, added.0);
          hashed = rw frame.0 (AreHashed-perm d (refl, wf.hashed));
        }

    -- A call of `learn` that does not return 0 changes nothing.
    learn-refused :
        (ports : PortMap) (msg : AddressMsg) (ml done : MacLearning) (err : ℕ)
        → learn E sid ports msg ml ≡ some (err, done)
        → (err ≡ 0) ⊎ (done ≡ ml)
    unfolding learn may_learn insert
    learn-refused ports msg ml done err ok =
        elim (Option-cases (get_ofport_by_pid ports msg.port_num)) [
          | inl unknown ↦ ground (arith, ok, unknown)
          | inr known ↦
              elim (Option-cases (
                mlearn_action_add E sid ports msg (hash_fdb_entry E msg) MacEvent.mlearn_add
                  (with_entry E sid ports msg ml))) [
                    | inl failed ↦ ground (arith, ok, known.1, failed)
                    | inr added ↦ ground (arith, ok, known.1, added.1)
                  ]
        ]

    flush_entries-IsSound :
        (ports : PortMap) (n : ℕ) (ml done : MacLearning)
        → flush_entries E sid ports n ml ≡ some done
        → IsSound ml
        → IsSound done
    unfolding flush_entries
    flush_entries-IsSound ports zero ml done ok wf = subst IsSound (ground (arith, ok)) wf
    flush_entries-IsSound ports (suc n) ml done ok wf =
        elim (Option-cases (expire E sid ports 0 ml)) [
          | inl failed ↦ ground (arith, ok, failed)
          | inr gone ↦
              flush_entries-IsSound ports n gone.0 done (ground (arith, ok, gone.1))
                (expire-IsSound ports 0 ml gone.0 gone.1 wf)
        ]

    age_by_entry-IsSound :
        (ports : PortMap) (msg : AddressMsg) (ml done : MacLearning)
        → age_by_entry E sid ports msg ml ≡ some done
        → IsSound ml
        → IsSound done
    unfolding age_by_entry
    age_by_entry-IsSound ports msg ml done ok wf = elim (Option-cases (lookup E sid ports ml msg)) [
      | inl absent ↦ subst IsSound (ground (arith, ok, absent)) wf
      | inr at ↦ expire-IsSound ports at.0 ml done (ground (arith, ok, at.1)) wf
    ]

    age_by_vlan_and_mac-IsSound :
        (ports : PortMap) (vlan mac err : ℕ) (ml done : MacLearning)
        → age_by_vlan_and_mac E sid ports vlan mac ml ≡ some (err, done)
        → IsSound ml
        → IsSound done
    unfolding age_by_vlan_and_mac
    age_by_vlan_and_mac-IsSound ports vlan mac err ml done ok wf =
        elim (Option-cases (lookup_by_vlan_and_mac E sid ports ml vlan mac)) [
          | inl absent ↦ subst IsSound (ground (arith, ok, absent)) wf
          | inr at ↦ elim (Option-cases (expire E sid ports at.0 ml)) [
            | inl failed ↦ ground (arith, ok, at.1, failed)
            | inr gone ↦
                subst IsSound (ground (arith, ok, at.1, gone.1))
                  (expire-IsSound ports at.0 ml gone.0 gone.1 wf)
          ]
        ]

    handle_msg-IsSound :
        (ports : PortMap) (msg : AddressMsg) (ml done : MacLearning) (type : AddressUpdate)
        → msg.type ≡ type
        → handle_msg E sid ports msg ml ≡ some done
        → IsSound ml
        → IsSound done
    unfolding handle_msg
    handle_msg-IsSound ports msg ml done AddressUpdate.update_new kind ok wf =
        elim (Option-cases (learn E sid ports msg ml)) [
          | inl failed ↦ ground (arith, kind, ok, failed)
          | inr at ↦
              let same : at.0.1 ≡ done = ground (arith, kind, ok, at.1) in
              elim (learn-refused ports msg ml at.0.1 at.0.0 at.1) [
                | inl good ↦ learn-IsSound ports msg ml done (at.1 ∙ ground (arith, good, same)) wf
                | inr kept ↦ subst IsSound (sym kept ∙ same) wf
              ]
        ]
    handle_msg-IsSound ports msg ml done AddressUpdate.update_aged kind ok wf =
        age_by_entry-IsSound ports msg ml done (ground (arith, kind, ok)) wf
    handle_msg-IsSound ports msg ml done AddressUpdate.update_other kind ok wf =
        subst IsSound (ground (arith, kind, ok)) wf

    Step-IsSound : (ml next : MacLearning) → Step sid ml next → IsSound ml → IsSound next
    unfolding flush on_mlearn_timer_expired
    Step-IsSound ml next (message ports msg ok) wf =
        handle_msg-IsSound ports msg ml next msg.type refl ok wf
    Step-IsSound ml next (timer ports) wf = process_mlearn-IsSound ml wf
    Step-IsSound ml next (flushed ports ok) wf =
        flush_entries-IsSound ports (length ml.table) ml next ok wf
    Step-IsSound ml next (aged ports vlan mac {err} ok) wf =
        age_by_vlan_and_mac-IsSound ports vlan mac err ml next ok wf

    created-IsSound :
        (F : Fpa) (default_max default_idle : ℕ) (set : ℕ → F.Hw → ℕ × F.Hw) (plugin : Bool)
        (hw : F.Hw) (ml : MacLearning)
        → (create F E default_max default_idle set plugin sid hw).1 ≡ some ml
        → IsSound ml
    unfolding create clear_mlearn_hmap
    created-IsSound F default_max default_idle set plugin hw ml ok = ground (arith, ok)

    -- Whatever messages, timers, flushes and ageings have come, and where a buffer has room for
    -- one event at least: the table holds no more entries than its maximum, each under the hash
    -- of its VLAN and address; both event buffers are sound, and with a plugin the one in use is
    -- not full.
    pub Reached-IsSound : (F : Fpa) (ml : MacLearning) → Reached F sid ml → IsSound ml
    Reached-IsSound F ml (created default_max default_idle set plugin hw ok) =
        created-IsSound F default_max default_idle set plugin hw ml ok
    Reached-IsSound F ml (later {ml = before} reached step) =
        Step-IsSound before ml step (Reached-IsSound F before reached)

    -- In a reached state, where a buffer has room for one event at least, the search of one hash
    -- bucket finds the entry that a search of the whole table finds.
    pub lookup-lookup_by_vlan_and_mac :
        (F : Fpa) (ports : PortMap) (ml : MacLearning) (key : AddressMsg)
        → Reached F sid ml
        → lookup E sid ports ml key ≡ lookup_by_vlan_and_mac E sid ports ml key.vid key.address
    unfolding lookup lookup_by_vlan_and_mac hash_fdb_entry
    lookup-lookup_by_vlan_and_mac F ports ml key reached =
        places ml.table ((Reached-IsSound F ml reached).hashed)
      where
        hash_eq :
            (e : MacEntry)
            → e.hash ≡ hash_fdb_entry E e.fdb_entry
            → same_address E sid ports key.vid key.address e ≡ true
            → (e.hash == hash_fdb_entry E key) ≡ true
        hash_eq e h same = (==_iff e.hash (E.hash_bytes key.vid key.address)).1 (
            h
            ∙ ap₂ E.hash_bytes ((==_iff e.fdb_entry.vid key.vid).0 (ground (arith, same)))
                ((==_iff e.fdb_entry.address key.address).0 (ground (arith, same))))

        places :
            (es : List MacEntry)
            → AreHashed es
            → place_of
                (λ e.
                  e.hash == hash_fdb_entry E key && same_address E sid ports key.vid key.address e)
                es
              ≡ place_of (same_address E sid ports key.vid key.address) es
        places [] h = refl
        places (e ∷ es) h = ground (arith, hash_eq e h.0, places es h.1)
