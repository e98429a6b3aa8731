-- ===== src/Fpa/Laws.antt =====
-- What the theorems assume of the FPA library: its flow and group tables read as lists, and each
-- call as what it does to them. A call that fails changes no table.
use switchd_fpa_plugin.Prelude.{
  ℕ, suc, ◌+◌, ◌*◌, ◌<◌, ◌≡◌, ◌≢◌, not, ◌&&◌, Option, none, some, List, [], ◌∷◌, ◌++◌, ◌==◌, ltb,
  if◌then◌else◌, get_elem?, find, keep,
}
use switchd_fpa_plugin.Fpa.{FlowTable, same_table, FlowEntry, GroupType, GroupEntry, Bucket, Fpa}

-- A group of the group table, and its bucket 0 once it has one.
pub record Group : Type 0 where
  pub id : ℕ
  pub bucket : Option Bucket

abbrev pub drop_cookie : ℕ → List FlowEntry → List FlowEntry
drop_cookie c = keep (λ e. not (e.cookie == c))

-- The group table is in the order of identifiers.
abbrev pub insert_group : ℕ → List Group → List Group
insert_group g [] = record { id = g; bucket = none } ∷ []
insert_group g (x ∷ xs) =
    if ltb g x.id then record { id = g; bucket = none } ∷ x ∷ xs else x ∷ insert_group g xs

abbrev pub drop_group : ℕ → List Group → List Group
drop_group g = keep (λ x. not (x.id == g))

abbrev pub set_bucket : ℕ → Bucket → List Group → List Group
set_bucket g b [] = []
set_bucket g b (x ∷ xs) =
    (if x.id == g then record x { bucket = some b } else x) ∷ set_bucket g b xs

abbrev pub bucket_of : ℕ → List Group → Option Bucket
bucket_of g [] = none
bucket_of g (x ∷ xs) = if x.id == g then x.bucket else bucket_of g xs

-- The identifiers rise along the table, from above `low` on.
abbrev pub Ascending : ℕ → List Group → Type 0
Ascending low [] = Unit {0}
Ascending low (x ∷ xs) = (low < x.id) × Ascending x.id xs

pub record FlowLaws (F : Fpa) : Type 0 where
  -- The entries of a flow table, in the order in which they are read.
  pub flows : ℕ → FlowTable → F.Hw → List FlowEntry
  pub flows-add :
      (sid : ℕ) (t : FlowTable) (e : FlowEntry) (hw : F.Hw) (s : ℕ) (u : FlowTable)
      → flows s u (F.flow_entry_add sid t e hw).1 ≡ (
          if (F.flow_entry_add sid t e hw).0 == 0 && s == sid && same_table u t
          then flows s u hw ++ (e ∷ [])
          else flows s u hw)
  -- The entries with the cookie go, and no others.
  pub flows-cookie_delete :
      (sid : ℕ) (t : FlowTable) (c : ℕ) (hw : F.Hw) (s : ℕ) (u : FlowTable)
      → flows s u (F.flow_table_cookie_delete sid t c hw).1 ≡ (
          if (F.flow_table_cookie_delete sid t c hw).0 == 0 && s == sid && same_table u t
          then drop_cookie c (flows s u hw)
          else flows s u hw)
  -- Entry number i + 1 of a table, as long as there are so many.
  pub get_next_some :
      (sid : ℕ) (t : FlowTable) (i : ℕ) (hw : F.Hw) (e : FlowEntry)
      → get_elem? (flows sid t hw) i ≡ some e
      → F.flow_table_get_next sid t (suc i) hw ≡ (0, e)
  pub get_next_none :
      (sid : ℕ) (t : FlowTable) (i : ℕ) (hw : F.Hw)
      → get_elem? (flows sid t hw) i ≡ none
      → (F.flow_table_get_next sid t (suc i) hw).0 ≢ 0
  pub tag_ne_untag : F.vlan_mask_tag ≢ F.vlan_mask_untag

pub record GroupLaws (F : Fpa) : Type 0 where
  pub groups : ℕ → F.Hw → List Group
  pub groups-add :
      (sid : ℕ) (e : GroupEntry) (hw : F.Hw) (s : ℕ)
      → groups s (F.group_table_entry_add sid e hw).1 ≡ (
          if (F.group_table_entry_add sid e hw).0 == 0 && s == sid
          then insert_group e.group_identifier (groups s hw)
          else groups s hw)
  -- A group that is there already is not added again.
  pub add_present :
      (sid : ℕ) (e : GroupEntry) (hw : F.Hw) {x : Group}
      → find (λ g. g.id == e.group_identifier) (groups sid hw) ≡ some x
      → (F.group_table_entry_add sid e hw).0 ≢ 0
  pub groups-delete :
      (sid g : ℕ) (hw : F.Hw) (s : ℕ)
      → groups s (F.group_table_entry_delete sid g hw).1 ≡ (
          if (F.group_table_entry_delete sid g hw).0 == 0 && s == sid
          then drop_group g (groups s hw)
          else groups s hw)
  pub groups-bucket_add :
      (sid : ℕ) (b : Bucket) (hw : F.Hw) (s : ℕ)
      → groups s (F.group_entry_bucket_add sid b hw).1 ≡ (
          if (F.group_entry_bucket_add sid b hw).0 == 0 && s == sid
          then set_bucket b.group_identifier b (groups s hw)
          else groups s hw)
  pub bucket_get_some :
      (sid g : ℕ) (hw : F.Hw) (b : Bucket)
      → bucket_of g (groups sid hw) ≡ some b
      → F.group_entry_bucket_get sid g 0 hw ≡ (0, b)
  pub bucket_get_none :
      (sid g : ℕ) (hw : F.Hw)
      → bucket_of g (groups sid hw) ≡ none
      → (F.group_entry_bucket_get sid g 0 hw).0 ≢ 0
  -- The next group is the one with the least identifier above the one given.
  pub group_next_some :
      (sid g : ℕ) (hw : F.Hw) {x : Group}
      → find (λ y. ltb g y.id) (groups sid hw) ≡ some x
      → ((F.group_table_get_next sid g hw).0 ≡ 0)
        × ((F.group_table_get_next sid g hw).1.group_identifier ≡ x.id)
  pub group_next_none :
      (sid g : ℕ) (hw : F.Hw)
      → find (λ y. ltb g y.id) (groups sid hw) ≡ none
      → (F.group_table_get_next sid g hw).0 ≢ 0

-- The calls on one kind of table leave the other kind alone.
pub record FrameLaws (F : Fpa) (L : FlowLaws F) (G : GroupLaws F) : Type 0 where
  pub groups-flow_add :
      (sid : ℕ) (t : FlowTable) (e : FlowEntry) (hw : F.Hw) (s : ℕ)
      → G.groups s (F.flow_entry_add sid t e hw).1 ≡ G.groups s hw
  pub groups-cookie_delete :
      (sid : ℕ) (t : FlowTable) (c : ℕ) (hw : F.Hw) (s : ℕ)
      → G.groups s (F.flow_table_cookie_delete sid t c hw).1 ≡ G.groups s hw
  pub flows-group_add :
      (sid : ℕ) (e : GroupEntry) (hw : F.Hw) (s : ℕ) (u : FlowTable)
      → L.flows s u (F.group_table_entry_add sid e hw).1 ≡ L.flows s u hw
  pub flows-group_delete :
      (sid g : ℕ) (hw : F.Hw) (s : ℕ) (u : FlowTable)
      → L.flows s u (F.group_table_entry_delete sid g hw).1 ≡ L.flows s u hw
  pub flows-bucket_add :
      (sid : ℕ) (b : Bucket) (hw : F.Hw) (s : ℕ) (u : FlowTable)
      → L.flows s u (F.group_entry_bucket_add sid b hw).1 ≡ L.flows s u hw

-- The identifier of an L2 interface group has the VLAN in bits 16 to 27 and the port below, as
-- `OPS_FPA_GID_VLAN` and `OPS_FPA_GID_PORT` read it; that of an L3 unicast group stands above.
pub record IdentLaws (F : Fpa) : Type 0 where
  pub build_l2 :
      (pid vid : ℕ)
      → pid < 0x10000
      → vid < 0x1000
      → F.group_identifier_build
          (record { group_type = GroupType.l2_interface; port_num = pid; vlan_id = vid; index = 0 })
        ≡ (0, vid * 0x10000 + pid)
