-- ===== src/Vlan/Keep.antt =====
-- The form of the VLAN table and of the group table that deletion relies on is kept by
-- `ops_fpa_vlan_add` and `ops_fpa_vlan_del`.
use switchd_fpa_plugin.Prelude.{ℕ, ◌+◌, ◌*◌, ◌<◌, ◌≡◌, ◌⊎◌, Bool, List, [], ◌∷◌, ◌++◌, arith, inl}
use switchd_fpa_plugin.Fpa.{FlowTable, FlowEntry, Bucket, Fpa}
use switchd_fpa_plugin.Fpa.Laws.{
  Group, FlowLaws, GroupLaws, FrameLaws, IdentLaws, insert_group, drop_group, set_bucket,
  drop_cookie,
}
use switchd_fpa_plugin.Route.{add_l2_group, l2_ident, l2_bucket, indirect}
use switchd_fpa_plugin.Vlan.Vidx.{vidx_vid, vidx_arg, vidx_vid-eq}
use switchd_fpa_plugin.Vlan.{gid_vlan, vlan_cookie, vlan_flow, vlan_add, vlan_del}
use switchd_fpa_plugin.Vlan.Add.{add_l2_group-flows}
use switchd_fpa_plugin.Vlan.Delete.{AreVlanFlows, AreGroups, IsL2}

pub append-AreVlanFlows :
    (F : Fpa) (es : List FlowEntry) (e : FlowEntry)
    → AreVlanFlows F es
    → AreVlanFlows F (e ∷ [])
    → AreVlanFlows F (es ++ (e ∷ []))
append-AreVlanFlows F [] e wf new = new
append-AreVlanFlows F (x ∷ es) e wf new =
    (wf.0, wf.1, wf.2, wf.3, append-AreVlanFlows F es e wf.4 new)

pub drop_cookie-AreVlanFlows :
    (F : Fpa) (c : ℕ) (es : List FlowEntry) → AreVlanFlows F es → AreVlanFlows F (drop_cookie c es)
drop_cookie-AreVlanFlows F c [] wf = tt
drop_cookie-AreVlanFlows F c (e ∷ es) wf = ground (arith, drop_cookie-AreVlanFlows F c es wf.4)

pub insert_group-AreGroups :
    (g : ℕ) (xs : List Group)
    → (g < 0x10000000) ⊎ (gid_vlan g ≡ 0)
    → AreGroups xs
    → AreGroups (insert_group g xs)
insert_group-AreGroups g [] h wf = (h, tt)
insert_group-AreGroups g (x ∷ xs) h wf = ground (arith, insert_group-AreGroups g xs h wf.1)

pub drop_group-AreGroups : (g : ℕ) (xs : List Group) → AreGroups xs → AreGroups (drop_group g xs)
drop_group-AreGroups g [] wf = tt
drop_group-AreGroups g (x ∷ xs) wf = ground (arith, drop_group-AreGroups g xs wf.1)

pub set_bucket-AreGroups :
    (g : ℕ) (b : Bucket) (xs : List Group) → AreGroups xs → AreGroups (set_bucket g b xs)
set_bucket-AreGroups g b [] wf = tt
set_bucket-AreGroups g b (x ∷ xs) wf = ground (arith, set_bucket-AreGroups g b xs wf.1)

module _ (F : Fpa) (L : FlowLaws F) (G : GroupLaws F) (R : FrameLaws F L G) (I : IdentLaws F) where
  entry_add-AreGroups :
      (sid g : ℕ) (hw : F.Hw)
      → g < 0x10000000
      → AreGroups (G.groups sid hw)
      → AreGroups (G.groups sid (F.group_table_entry_add sid (indirect F g) hw).1)
  entry_add-AreGroups sid g hw h wf = ground (
    arith,
    G.groups-add sid (indirect F g) hw sid,
    insert_group-AreGroups g (G.groups sid hw) (inl h) wf,
  )

  bucket_add-AreGroups :
      (sid : ℕ) (b : Bucket) (hw : F.Hw)
      → AreGroups (G.groups sid hw)
      → AreGroups (G.groups sid (F.group_entry_bucket_add sid b hw).1)
  bucket_add-AreGroups sid b hw wf = ground (
    arith,
    G.groups-bucket_add sid b hw sid,
    set_bucket-AreGroups b.group_identifier b (G.groups sid hw) wf,
  )

  entry_delete-AreGroups :
      (sid g : ℕ) (hw : F.Hw)
      → AreGroups (G.groups sid hw)
      → AreGroups (G.groups sid (F.group_table_entry_delete sid g hw).1)
  entry_delete-AreGroups sid g hw wf =
      ground (arith, G.groups-delete sid g hw sid, drop_group-AreGroups g (G.groups sid hw) wf)

  add_l2_group-AreGroups :
      (sid pid vid : ℕ) (pop : Bool) (hw : F.Hw)
      → pid < 0x10000
      → vid < 0x1000
      → AreGroups (G.groups sid hw)
      → AreGroups (G.groups sid (add_l2_group F sid pid vid pop hw).2)
  unfolding add_l2_group
  add_l2_group-AreGroups sid pid vid pop hw p16 v12 wf =
      let g = vid * 0x10000 + pid in
      let b = l2_bucket g pid pop in
      let hw1 = (F.group_table_entry_add sid (indirect F g) hw).1 in
      let hw2 = (F.group_entry_bucket_add sid b hw1).1 in
      let w1 = entry_add-AreGroups sid g hw (omega arith) wf in
      let w2 = bucket_add-AreGroups sid b hw1 w1 in
      let w3 = entry_delete-AreGroups sid g hw2 w2 in
      rw (I.build_l2 pid vid p16 v12, add_l2_group) (ground (arith, w1, w2, w3))

  pub flow-IsVlanFlow :
      (pid vidx : ℕ) (e : FlowEntry)
      → pid < 0x10000
      → 0 < vidx_vid vidx
      → AreVlanFlows F (vlan_flow F pid (vidx_vid vidx) (vidx_arg vidx) e ∷ [])
  unfolding vlan_flow
  flow-IsVlanFlow pid vidx e p16 v1 =
      (ground (arith, L.tag_ne_untag), p16, v1, rw vidx_vid-eq (omega arith), tt)

  -- Adding an identifier of a VLAN other than 0 for a port with a number below 2^16 keeps the
  -- VLAN table and the group table in the form on which deletion relies, whether it succeeds or
  -- not.
  pub vlan_add-IsL2 :
      (sid pid vidx : ℕ) (hw : F.Hw)
      → pid < 0x10000
      → 0 < vidx_vid vidx
      → IsL2 F L G R I sid hw
      → IsL2 F L G R I sid (vlan_add F sid pid vidx hw).1
  unfolding vlan_add
  vlan_add-IsL2 sid pid vidx hw p16 v1 wf =
      let v12 : vidx_vid vidx < 0x1000 = rw vidx_vid-eq (omega arith) in
      let init = (F.flow_entry_init sid FlowTable.vlan).1 in
      let flow = vlan_flow F pid (vidx_vid vidx) (vidx_arg vidx) init in
      let new = flow-IsVlanFlow pid vidx init p16 v1 in
      ground (
        arith,
        add_l2_group-flows F L G R I sid pid (vidx_vid vidx) (vidx_arg vidx) hw sid FlowTable.vlan,
        add_l2_group-AreGroups sid pid (vidx_vid vidx) (vidx_arg vidx) hw p16 v12 wf.l2_groups,
        L.flows-add sid FlowTable.vlan flow hw sid FlowTable.vlan,
        append-AreVlanFlows F (L.flows sid FlowTable.vlan hw) flow wf.vlan_flows new,
        R.groups-flow_add sid FlowTable.vlan flow hw sid,
      )

  -- Deleting an identifier keeps the VLAN table and the group table in the form on which deletion
  -- relies, whether it succeeds or not.
  pub vlan_del-IsL2 :
      (sid pid vidx : ℕ) (hw : F.Hw)
      → IsL2 F L G R I sid hw
      → IsL2 F L G R I sid (vlan_del F sid pid vidx hw).1
  unfolding vlan_del
  vlan_del-IsL2 sid pid vidx hw wf =
      let cookie = vlan_cookie pid (vidx_vid vidx) (vidx_arg vidx) in
      let g = (F.group_identifier_build (l2_ident pid (vidx_vid vidx))).1 in
      ground (
        arith,
        L.flows-cookie_delete sid FlowTable.vlan cookie hw sid FlowTable.vlan,
        drop_cookie-AreVlanFlows F cookie (L.flows sid FlowTable.vlan hw) wf.vlan_flows,
        R.groups-cookie_delete sid FlowTable.vlan cookie hw sid,
        R.flows-group_delete sid g hw sid FlowTable.vlan,
        entry_delete-AreGroups sid g hw wf.l2_groups,
      )
