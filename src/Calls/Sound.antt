-- ===== src/Calls/Sound.antt =====
-- The form of the tables on which the modules rely, kept by every call of the plugin.
use switchd_fpa_plugin.Prelude.{
  ℕ, ◌<◌, ◌≤◌, ◌≡◌, sym, ap, subst, ◌∙◌, true, none, List, [], ◌∷◌, ◌⊎◌, inl, inr, arith, ◌==◌, ltb,
  ==_iff, find, Bool-cases, Option-cases,
}
use switchd_fpa_plugin.Fpa.{FlowTable, FlowEntry, Bucket, Fpa}
use switchd_fpa_plugin.Fpa.Laws.{
  Group, FlowLaws, GroupLaws, FrameLaws, IdentLaws, insert_group, drop_group, set_bucket, Ascending,
}
use switchd_fpa_plugin.Route.{indirect}
use switchd_fpa_plugin.Vlan.{gid_vlan}
use switchd_fpa_plugin.Vlan.Delete.{AreVlanFlows, AreGroups, IsL2}
use switchd_fpa_plugin.Vlan.Keep.{
  append-AreVlanFlows, drop_cookie-AreVlanFlows, insert_group-AreGroups, drop_group-AreGroups,
  set_bucket-AreGroups,
}
use switchd_fpa_plugin.Calls.{Call, Calls}

insert_group-Ascending :
    (g low : ℕ) (xs : List Group)
    → low < g
    → find (λ x. x.id == g) xs ≡ none
    → Ascending low xs
    → Ascending low (insert_group g xs)
insert_group-Ascending g low [] above fresh up = (above, tt)
insert_group-Ascending g low (x ∷ xs) above fresh up = elim (Bool-cases (ltb g x.id)) [
  | inl before ↦ ground (arith, before, up, above)
  | inr after ↦
      let beyond : x.id < g = ground (arith, after, fresh) in
      ground (arith, after, up, fresh, insert_group-Ascending g x.id xs beyond)
]

Ascending-lower :
    (low low' : ℕ) (xs : List Group) → low ≤ low' → Ascending low' xs → Ascending low xs
Ascending-lower low low' [] le up = tt
Ascending-lower low low' (x ∷ xs) le up = (omega (arith, up.0), up.1)

drop_group-Ascending :
    (g low : ℕ) (xs : List Group) → Ascending low xs → Ascending low (drop_group g xs)
drop_group-Ascending g low [] up = tt
drop_group-Ascending g low (x ∷ xs) up =
    let rest = drop_group-Ascending g x.id xs up.1 in
    let lower = Ascending-lower low x.id (drop_group g xs) (omega (arith, up.0)) rest in
    ground (arith, up, rest, lower)

set_bucket-Ascending :
    (g low : ℕ) (b : Bucket) (xs : List Group)
    → Ascending low xs
    → Ascending low (set_bucket g b xs)
set_bucket-Ascending g low b [] up = tt
set_bucket-Ascending g low b (x ∷ xs) up = ground (arith, up, set_bucket-Ascending g x.id b xs up.1)

module _ (F : Fpa) (L : FlowLaws F) (G : GroupLaws F) (R : FrameLaws F L G) (I : IdentLaws F) where
  -- The tables of every switch are as the plugin fills them, the groups in order.
  pub record IsSound (hw : F.Hw) : Type 0 where
    pub form : (s : ℕ) → IsL2 F L G R I s hw
    pub order : (s : ℕ) → Ascending 0 (G.groups s hw)

  module _ (hw : F.Hw) (sound : IsSound hw) (s : ℕ) where
    abbrev flows : List FlowEntry
    flows = L.flows s FlowTable.vlan hw

    abbrev groups : List Group
    groups = G.groups s hw

    -- The two tables after a call.
    abbrev Kept : F.Hw → Type 0
    Kept hw' = IsL2 F L G R I s hw' × Ascending 0 (G.groups s hw')

    same_groups :
        (hw' : F.Hw)
        → AreVlanFlows F (L.flows s FlowTable.vlan hw')
        → G.groups s hw' ≡ groups
        → Kept hw'
    same_groups hw' wf e = (
      record { vlan_flows = wf; l2_groups = rw e (sound.form s).l2_groups },
      rw e (sound.order s),
    )

    same_flows :
        (hw' : F.Hw)
        → AreGroups (G.groups s hw')
        → Ascending 0 (G.groups s hw')
        → L.flows s FlowTable.vlan hw' ≡ flows
        → Kept hw'
    same_flows hw' wf up e =
        (record { vlan_flows = rw e (sound.form s).vlan_flows; l2_groups = wf }, up)

    fresh :
        (sid g : ℕ)
        → (F.group_table_entry_add sid (indirect F g) hw).0 ≡ 0
        → find (λ x. x.id == g) (G.groups sid hw) ≡ none
    fresh sid g ok = elim (Option-cases (find (λ x. x.id == g) (G.groups sid hw))) [
      | inl e ↦ e
      | inr (x, e) ↦ absurd (G.add_present sid (indirect F g) hw e ok)
    ]

    group_added :
        (sid g : ℕ)
        → 0 < g
        → (g < 0x10000000) ⊎ (gid_vlan g ≡ 0)
        → Kept (F.group_table_entry_add sid (indirect F g) hw).1
    group_added sid g pos small =
        let added = F.group_table_entry_add sid (indirect F g) hw in
        let at = G.groups-add sid (indirect F g) hw s in
        let wf = insert_group-AreGroups g groups small (sound.form s).l2_groups in
        let up : (added.0 == 0) ≡ true → s ≡ sid → Ascending 0 (insert_group g groups) = λ ok same.
          insert_group-Ascending g 0 groups pos
            (ap (λ q. find (λ x. x.id == g) (G.groups q hw)) same
              ∙ fresh sid g ((==_iff added.0 0).0 ok))
            (sound.order s) in
        same_flows added.1 (ground (arith, at, wf, (sound.form s).l2_groups))
          (ground (arith, at, up, (sound.order s)))
          (R.flows-group_add sid (indirect F g) hw s FlowTable.vlan)

    Call-Kept : (hw' : F.Hw) → Call F hw hw' → Kept hw'
    Call-Kept hw' (Call.vlan_add sid e wf h) = subst Kept (sym h) (
        same_groups _
          (ground (
            arith,
            L.flows-add sid FlowTable.vlan e hw s FlowTable.vlan,
            (sound.form s).vlan_flows,
            append-AreVlanFlows F flows e (sound.form s).vlan_flows wf,
          ))
          (R.groups-flow_add sid FlowTable.vlan e hw s))
    Call-Kept hw' (Call.flow_add sid t e other h) = subst Kept (sym h) (
        same_groups _
          (ground
            (arith, other, L.flows-add sid t e hw s FlowTable.vlan, (sound.form s).vlan_flows))
          (R.groups-flow_add sid t e hw s))
    Call-Kept hw' (Call.cookie_delete sid t c h) = subst Kept (sym h) (
        same_groups _
          (ground (
            arith,
            L.flows-cookie_delete sid t c hw s FlowTable.vlan,
            (sound.form s).vlan_flows,
            drop_cookie-AreVlanFlows F c flows (sound.form s).vlan_flows,
          ))
          (R.groups-cookie_delete sid t c hw s))
    Call-Kept hw' (Call.group_add sid g pos small h) =
        subst Kept (sym h) (group_added sid g pos small)
    Call-Kept hw' (Call.bucket_add sid b h) = subst Kept (sym h) (
        same_flows _
          (ground (
            arith,
            G.groups-bucket_add sid b hw s,
            (sound.form s).l2_groups,
            set_bucket-AreGroups b.group_identifier b groups (sound.form s).l2_groups,
          ))
          (ground (
            arith,
            G.groups-bucket_add sid b hw s,
            sound.order s,
            set_bucket-Ascending b.group_identifier 0 b groups (sound.order s),
          ))
          (R.flows-bucket_add sid b hw s FlowTable.vlan))
    Call-Kept hw' (Call.group_delete sid g h) = subst Kept (sym h) (
        same_flows _
          (ground (
            arith,
            G.groups-delete sid g hw s,
            (sound.form s).l2_groups,
            drop_group-AreGroups g groups (sound.form s).l2_groups,
          ))
          (ground (
            arith,
            G.groups-delete sid g hw s,
            sound.order s,
            drop_group-Ascending g 0 groups (sound.order s),
          ))
          (R.flows-group_delete sid g hw s FlowTable.vlan))

  -- Whatever the plugin calls, the tables keep their form.
  pub Calls-IsSound : (hw hw' : F.Hw) → Calls F hw hw' → IsSound hw → IsSound hw'
  Calls-IsSound hw hw' Calls.start sound = sound
  Calls-IsSound hw hw'' (Calls.later {hw' = hw'} p c) sound =
      let before = Calls-IsSound hw hw' p sound in
      record {
        form = λ s. (Call-Kept hw' before s hw'' c).0;
        order = λ s. (Call-Kept hw' before s hw'' c).1;
      }
