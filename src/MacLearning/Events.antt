-- ===== src/MacLearning/Events.antt =====
-- The event buffers of MAC learning: what they hold, and that no event is lost between the
-- handler and the bridge.
use switchd_fpa_plugin.Prelude.{
  ◌&&◌, leb, ℕ, ◌+◌, ◌≤◌, ◌<◌, ◌≡◌, refl, sym, subst, true, false, Option, none, some, List, [],
  ◌∷◌, ◌++◌, arith, ◌==◌, ◌⊎◌, if◌then◌else◌, Bool-cases, Option-cases, inl, inr, length, find, any,
  length-append,
}
use switchd_fpa_plugin.Ofproto.Ports.{PortMap, get_ofport_by_pid}
use switchd_fpa_plugin.MacLearning.{
  AddressMsg, MacEvent, MlearnNode, MlearnHmap, MacLearning, event_table, Env, clear_mlearn_hmap,
  process_mlearn, mlearn_entry_fill_data, refill, mlearn_insert, mlearn_table_is_full, notify,
  mlearn_action_add, ml_hmap_get,
}

-- No two nodes have the same hash.
abbrev pub AreDistinct : List MlearnNode → Type 0
AreDistinct [] = Unit {0}
AreDistinct (x ∷ xs) = (any (λ y. y.hash == x.hash) xs ≡ false) × AreDistinct xs

module _ (E : Env) where
  -- The buffer counts its nodes, and has room for as many as `BUFFER_SIZE`.
  pub record IsBuffer (mhmap : MlearnHmap) : Type 0 where
    pub counts : mhmap.actual_size ≡ length mhmap.nodes
    pub room : mhmap.size ≡ E.buffer_size
    pub fits : length mhmap.nodes ≤ E.buffer_size
    pub distinct : AreDistinct mhmap.nodes

  -- Both buffers are sound, and with a plugin the one in use has room for an event.
  pub record IsReady (ml : MacLearning) : Type 0 where
    pub buffer_0 : IsBuffer ml.event_table_0
    pub buffer_1 : IsBuffer ml.event_table_1
    pub not_full :
        (ml.plugin_interface
          && leb E.buffer_size (length (event_table ml ml.curr_mlearn_table_in_use).nodes))
        ≡ false

  pub has_room :
      (ml : MacLearning)
      → IsReady ml
      → ml.plugin_interface ≡ true
      → length (event_table ml ml.curr_mlearn_table_in_use).nodes < E.buffer_size
  has_room ml ready plugin = ground (arith, ready.not_full, plugin)

length-refill : (e : MlearnNode) (xs : List MlearnNode) → length (refill e xs) ≡ length xs
length-refill e [] = refl
length-refill e (x ∷ xs) = ground (arith, length-refill e xs)

any-refill :
    (e : MlearnNode) (h : ℕ) (xs : List MlearnNode)
    → any (λ y. y.hash == h) (refill e xs) ≡ any (λ y. y.hash == h) xs
any-refill e h [] = refl
any-refill e h (x ∷ xs) = ground (arith, any-refill e h xs)

refill-AreDistinct :
    (e : MlearnNode) (xs : List MlearnNode) → AreDistinct xs → AreDistinct (refill e xs)
refill-AreDistinct e [] d = tt
refill-AreDistinct e (x ∷ xs) d =
    ground (arith, any-refill e x.hash xs, refill-AreDistinct e xs d.1)

absent-any :
    (h : ℕ) (xs : List MlearnNode)
    → find (λ y. y.hash == h) xs ≡ none
    → any (λ y. y.hash == h) xs ≡ false
absent-any h [] e = refl
absent-any h (x ∷ xs) e = ground (arith, e, absent-any h xs)

append-AreDistinct :
    (xs : List MlearnNode) (e : MlearnNode)
    → any (λ y. y.hash == e.hash) xs ≡ false
    → AreDistinct xs
    → AreDistinct (xs ++ (e ∷ []))
append-AreDistinct [] e h d = (refl, tt)
append-AreDistinct (x ∷ xs) e h d = ground (arith, append-AreDistinct xs e, any-one x.hash xs, d, h)
  where
    any-one :
        (k : ℕ) (ys : List MlearnNode)
        → any (λ y. y.hash == k) (ys ++ (e ∷ []))
          ≡ (if e.hash == k then true else any (λ y. y.hash == k) ys)
    any-one k [] = ground arith
    any-one k (y ∷ ys) = ground (arith, any-one k ys)

find-refill :
    (e : MlearnNode) (xs : List MlearnNode) (old : MlearnNode)
    → find (λ y. y.hash == e.hash) xs ≡ some old
    → find (λ y. y.hash == e.hash) (refill e xs) ≡ some e
find-refill e [] old h = cc
find-refill e (x ∷ xs) old h = ground (arith, h, find-refill e xs old)

find-append :
    (e : MlearnNode) (xs : List MlearnNode)
    → find (λ y. y.hash == e.hash) xs ≡ none
    → find (λ y. y.hash == e.hash) (xs ++ (e ∷ [])) ≡ some e
find-append e [] h = ground arith
find-append e (x ∷ xs) h = ground (arith, h, find-append e xs)

module _ (E : Env) where
  mlearn_insert-IsBuffer :
      (e : MlearnNode) (mhmap new : MlearnHmap)
      → mlearn_insert e.hash (some e) mhmap ≡ some new
      → IsBuffer E mhmap
      → IsBuffer E new
  unfolding mlearn_insert
  mlearn_insert-IsBuffer e mhmap new ok wf =
      elim (Option-cases (find (λ x. x.hash == e.hash) mhmap.nodes)) [
        | inl absent ↦ ground (
          arith,
          ok,
          absent,
          length-append mhmap.nodes (e ∷ []),
          append-AreDistinct mhmap.nodes e (absent-any e.hash mhmap.nodes absent) wf.distinct,
        )
        | inr present ↦ ground (
          arith,
          ok,
          present,
          length-refill e mhmap.nodes,
          refill-AreDistinct e mhmap.nodes wf.distinct,
        )
      ]

  -- An event that is put into a buffer with room stands there under its hash.
  mlearn_insert-find :
      (e : MlearnNode) (mhmap new : MlearnHmap)
      → mlearn_insert e.hash (some e) mhmap ≡ some new
      → mhmap.actual_size < mhmap.size
      → find (λ y. y.hash == e.hash) new.nodes ≡ some e
  unfolding mlearn_insert
  mlearn_insert-find e mhmap new ok room =
      elim (Option-cases (find (λ x. x.hash == e.hash) mhmap.nodes)) [
        | inl absent ↦ ground (arith, ok, absent, room, find-append e mhmap.nodes absent)
        | inr present ↦ ground (arith, ok, present, find-refill e mhmap.nodes present.0 present.1)
      ]

module _ (E : Env) (sid : ℕ) (ports : PortMap) (some_room : 0 < E.buffer_size) where
  clear-IsBuffer : IsBuffer E (clear_mlearn_hmap E)
  unfolding clear_mlearn_hmap
  clear-IsBuffer = record { counts = refl; room = refl; fits = omega arith; distinct = tt }

  notify-IsReady :
      (ml : MacLearning) (mhmap : MlearnHmap)
      → IsReady E ml
      → IsBuffer E mhmap
      → IsReady E (notify E sid ports ml mhmap)
  unfolding notify process_mlearn mlearn_table_is_full
  notify-IsReady ml mhmap ready wf = elim (Bool-cases ml.curr_mlearn_table_in_use) [
    | inl second ↦ rw second (ground (arith, clear-IsBuffer, second))
    | inr first ↦ rw first (ground (arith, clear-IsBuffer, first))
  ]

  -- The buffer that was in use is the one with the new contents. If it is not in use any more, then
  -- the bridge reads it, and the other one has been cleared.
  notify-delivers :
      (ml : MacLearning) (mhmap : MlearnHmap)
      → ml.plugin_interface ≡ true
      → IsBuffer E mhmap
      → let done = notify E sid ports ml mhmap in
        (event_table done ml.curr_mlearn_table_in_use ≡ mhmap)
        × ((done.curr_mlearn_table_in_use ≡ ml.curr_mlearn_table_in_use)
            ⊎ ((ml_hmap_get done ≡ some mhmap) × (done.triggers ≡ ml.triggers + 1)))
  unfolding notify process_mlearn mlearn_table_is_full ml_hmap_get
  notify-delivers ml mhmap plugin wf = elim (Bool-cases ml.curr_mlearn_table_in_use) [
    | inl second ↦ rw second (ground (arith, plugin, second))
    | inr first ↦ rw first (ground (arith, plugin, first))
  ]

  -- The node that an event fills has the hash of the event.
  filled-hash :
      (index : ℕ) (fdb_entry : AddressMsg) (event : MacEvent) (e : MlearnNode)
      → mlearn_entry_fill_data E sid ports index fdb_entry event ≡ some e
      → e.hash ≡ index
  unfolding mlearn_entry_fill_data
  filled-hash index fdb_entry event e ok =
      elim (Option-cases (get_ofport_by_pid ports fdb_entry.port_num)) [
        | inl unknown ↦ ground (arith, ok, unknown)
        | inr known ↦ ground (arith, ok, known)
      ]

  -- What the buffer in use becomes.
  inserted :
      (index : ℕ) (fdb_entry : AddressMsg) (event : MacEvent) (ml : MacLearning)
      (done : MacLearning)
      → mlearn_action_add E sid ports fdb_entry index event ml ≡ some done
      → (new : MlearnHmap) × (mlearn_insert index
            (mlearn_entry_fill_data E sid ports index fdb_entry event)
            (event_table ml ml.curr_mlearn_table_in_use)
          ≡ some new)
        × (done ≡ notify E sid ports ml new)
  unfolding mlearn_action_add
  inserted index fdb_entry event ml done ok =
      elim (Option-cases (
        mlearn_insert index (mlearn_entry_fill_data E sid ports index fdb_entry event)
          (event_table ml ml.curr_mlearn_table_in_use))) [
            | inl dropped ↦ ground (arith, ok, dropped)
            | inr kept ↦ (kept.0, kept.1, ground (arith, ok, kept.1))
          ]

  pub in_use-IsBuffer :
      (ml : MacLearning) → IsReady E ml → IsBuffer E (event_table ml ml.curr_mlearn_table_in_use)
  in_use-IsBuffer ml ready = elim (Bool-cases ml.curr_mlearn_table_in_use) [
    | inl second ↦ rw second ready.buffer_1
    | inr first ↦ rw first ready.buffer_0
  ]

  insert-IsBuffer :
      (index : ℕ) (filled : Option MlearnNode) (mhmap new : MlearnHmap)
      → ((e : MlearnNode) → filled ≡ some e → e.hash ≡ index)
      → mlearn_insert index filled mhmap ≡ some new
      → IsBuffer E mhmap
      → IsBuffer E new
  unfolding mlearn_insert
  insert-IsBuffer index none mhmap new hash ok wf =
      elim (Option-cases (find (λ x. x.hash == index) mhmap.nodes)) [
        | inl absent ↦ ground (arith, ok, absent, wf)
        | inr present ↦ ground (arith, ok, present)
      ]
  insert-IsBuffer index (some e) mhmap new hash ok wf =
      mlearn_insert-IsBuffer E e mhmap new
        (subst (λ k. mlearn_insert k (some e) mhmap ≡ some new) (sym (hash e refl)) ok) wf

  insert-find :
      (index : ℕ) (filled : Option MlearnNode) (mhmap new : MlearnHmap)
      → ((e : MlearnNode) → filled ≡ some e → e.hash ≡ index)
      → mlearn_insert index filled mhmap ≡ some new
      → mhmap.actual_size < mhmap.size
      → find (λ y. y.hash == index) new.nodes ≡ filled
  unfolding mlearn_insert
  insert-find index none mhmap new hash ok room =
      elim (Option-cases (find (λ x. x.hash == index) mhmap.nodes)) [
        | inl absent ↦ ground (arith, ok, absent, room)
        | inr present ↦ ground (arith, ok, present)
      ]
  insert-find index (some e) mhmap new hash ok room =
      subst (λ k. find (λ y. y.hash == k) new.nodes ≡ some e) (hash e refl)
        (mlearn_insert-find E e mhmap new
          (subst (λ k. mlearn_insert k (some e) mhmap ≡ some new) (sym (hash e refl)) ok) room)

  -- Adding an event, where a buffer has room for one at least, keeps both buffers sound: each
  -- counts its nodes, holds no more than `BUFFER_SIZE` of them and no two of the same hash; and
  -- with a plugin the buffer in use has room for another event, since a full one has been handed
  -- over.
  pub mlearn_action_add-IsReady :
      (fdb_entry : AddressMsg) (index : ℕ) (event : MacEvent) (ml done : MacLearning)
      → mlearn_action_add E sid ports fdb_entry index event ml ≡ some done
      → IsReady E ml
      → IsReady E done
  mlearn_action_add-IsReady fdb_entry index event ml done ok ready =
      let put = inserted index fdb_entry event ml done ok in
      let filled = mlearn_entry_fill_data E sid ports index fdb_entry event in
      let wf =
        insert-IsBuffer index filled (event_table ml ml.curr_mlearn_table_in_use) put.0
          (filled-hash index fdb_entry event) put.1 (in_use-IsBuffer ml ready) in
      rw put.2 (notify-IsReady ml put.0 ready wf)

  -- With a plugin and sound buffers with room for one event at least, an event that is added is
  -- not lost: the buffer that was in use holds, under the hash, the node that the event fills;
  -- and either that buffer is in use still, or the plugin has been called once more and it is the
  -- buffer that the bridge gets.
  pub mlearn_action_add-delivers :
      (fdb_entry : AddressMsg) (index : ℕ) (event : MacEvent) (ml done : MacLearning)
      → mlearn_action_add E sid ports fdb_entry index event ml ≡ some done
      → IsReady E ml
      → ml.plugin_interface ≡ true
      → (find (λ y. y.hash == index) (event_table done ml.curr_mlearn_table_in_use).nodes
          ≡ mlearn_entry_fill_data E sid ports index fdb_entry event)
        × ((done.curr_mlearn_table_in_use ≡ ml.curr_mlearn_table_in_use)
            ⊎ ((ml_hmap_get done ≡ some (event_table done ml.curr_mlearn_table_in_use))
                × (done.triggers ≡ ml.triggers + 1)))
  mlearn_action_add-delivers fdb_entry index event ml done ok ready plugin =
      let put = inserted index fdb_entry event ml done ok in
      let filled = mlearn_entry_fill_data E sid ports index fdb_entry event in
      let in_use = event_table ml ml.curr_mlearn_table_in_use in
      let before = in_use-IsBuffer ml ready in
      let wf =
        insert-IsBuffer index filled in_use put.0 (filled-hash index fdb_entry event) put.1
          before in
      let held =
        insert-find index filled in_use put.0 (filled-hash index fdb_entry event) put.1
          (omega (arith, before.counts, before.room, has_room E ml ready plugin)) in
      let told = notify-delivers ml put.0 plugin wf in rw (put.2, told.0) (held, told.1)
