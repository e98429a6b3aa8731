-- ===== src/Calls/Vlans.antt =====
-- The VLANs of ports, in src/ops-fpa-vlan.c and src/ops-fpa-ofproto.c, as calls on the switch.
use switchd_fpa_plugin.Prelude.{ℕ, ◌+◌, ◌*◌, ◌<◌, ◌≡◌, refl, Bool, true, false, inl, arith}
use switchd_fpa_plugin.Fpa.{FlowTable, Fpa}
use switchd_fpa_plugin.Fpa.Laws.{FlowLaws, GroupLaws, FrameLaws, IdentLaws}
use switchd_fpa_plugin.Route.{add_l2_group, indirect, l2_ident, l2_bucket}
use switchd_fpa_plugin.Vlan.Vidx.{
  vidx_vid, vidx_arg, vidx_vid-eq, vidx_ingress, vidx_egress, vidx_fields,
}
use switchd_fpa_plugin.Vlan.{
  vlan_cookie, vlan_flow, vlan_add, vlan_del, VlanState, vlan_add_internal, vlan_del_internal,
}
use switchd_fpa_plugin.Vlan.Keep.{flow-IsVlanFlow}
use switchd_fpa_plugin.Calls.{Call, Calls, Calls-append, one}

module _ (F : Fpa) (L : FlowLaws F) (G : GroupLaws F) (R : FrameLaws F L G) (I : IdentLaws F) where
  pub add_l2_group-Calls :
      (sid pid vid : ℕ) (pop : Bool) (hw : F.Hw)
      → pid < 0x10000
      → 0 < vid
      → vid < 0x1000
      → Calls F hw (add_l2_group F sid pid vid pop hw).2
  unfolding add_l2_group
  add_l2_group-Calls sid pid vid pop hw p16 v1 v12 =
      let g = vid * 0x10000 + pid in
      let b = l2_bucket g pid pop in
      let hw1 = (F.group_table_entry_add sid (indirect F g) hw).1 in
      let hw2 = (F.group_entry_bucket_add sid b hw1).1 in
      let hw3 = (F.group_table_entry_delete sid g hw2).1 in
      let c1 : Calls F hw hw1 =
        one F (Call.group_add sid g (omega arith) (inl (omega arith)) refl) in
      let c2 : Calls F hw hw2 = Calls.later c1 (Call.bucket_add sid b refl) in
      let c3 : Calls F hw hw3 = Calls.later c2 (Call.group_delete sid g refl) in
      rw (I.build_l2 pid vid p16 v12, add_l2_group) (ground (arith, c1, c2, c3))

  pub vlan_add-Calls :
      (sid pid vidx : ℕ) (hw : F.Hw)
      → pid < 0x10000
      → 0 < vidx_vid vidx
      → Calls F hw (vlan_add F sid pid vidx hw).1
  unfolding vlan_add
  vlan_add-Calls sid pid vidx hw p16 v1 =
      let v12 : vidx_vid vidx < 0x1000 = rw vidx_vid-eq (omega arith) in
      let init = (F.flow_entry_init sid FlowTable.vlan).1 in
      let flow = vlan_flow F pid (vidx_vid vidx) (vidx_arg vidx) init in
      let c1 : Calls F hw (F.flow_entry_add sid FlowTable.vlan flow hw).1 =
        one F (Call.vlan_add sid flow (flow-IsVlanFlow F L G R I pid vidx init p16 v1) refl) in
      ground (arith, c1, add_l2_group-Calls sid pid (vidx_vid vidx) (vidx_arg vidx) hw p16 v1 v12)

  pub vlan_del-Calls : (sid pid vidx : ℕ) (hw : F.Hw) → Calls F hw (vlan_del F sid pid vidx hw).1
  unfolding vlan_del
  vlan_del-Calls sid pid vidx hw =
      let cookie = vlan_cookie pid (vidx_vid vidx) (vidx_arg vidx) in
      let g = (F.group_identifier_build (l2_ident pid (vidx_vid vidx))).1 in
      let c1 : Calls F hw (F.flow_table_cookie_delete sid FlowTable.vlan cookie hw).1 =
        one F (Call.cookie_delete sid FlowTable.vlan cookie refl) in
      let c2 : Calls F hw (F.group_table_entry_delete sid g hw).1 =
        one F (Call.group_delete sid g refl) in
      ground (arith, c1, c2)

  ingress_vid : (vid : ℕ) → vid < 0x1000 → vidx_vid (vidx_ingress vid false) ≡ vid
  ingress_vid vid v12 = (vidx_fields false vid false v12).0

  egress_vid : (vid : ℕ) → vid < 0x1000 → vidx_vid (vidx_egress vid false) ≡ vid
  egress_vid vid v12 = (vidx_fields true vid false v12).0

  pub vlan_add_internal-Calls :
      (sid pid vid : ℕ) (st : VlanState F)
      → pid < 0x10000
      → 0 < vid
      → vid < 0x1000
      → Calls F st.hw (vlan_add_internal F sid pid vid st).1.hw
  unfolding vlan_add_internal
  vlan_add_internal-Calls sid pid vid st p16 v1 v12 =
      let i = vidx_ingress vid false in
      let e = vidx_egress vid false in
      let hw1 = (vlan_add F sid pid i st.hw).1 in
      let hw2 = (vlan_add F sid pid e hw1).1 in
      let c1 = vlan_add-Calls sid pid i st.hw p16 (rw (ingress_vid vid v12) v1) in
      let c2 = Calls-append F c1 (vlan_add-Calls sid pid e hw1 p16 (rw (egress_vid vid v12) v1)) in
      let c3 = Calls-append F c2 (vlan_del-Calls sid pid i hw2) in ground (arith, c1, c2, c3)

  pub vlan_del_internal-Calls :
      (sid pid vid : ℕ) (st : VlanState F) → Calls F st.hw (vlan_del_internal F sid pid vid st).1.hw
  unfolding vlan_del_internal
  vlan_del_internal-Calls sid pid vid st =
      let i = vidx_ingress vid false in
      let e = vidx_egress vid false in
      let hw1 = (vlan_del F sid pid i st.hw).1 in
      Calls-append F (vlan_del-Calls sid pid i st.hw) (vlan_del-Calls sid pid e hw1)
