-- ===== src/Vlan.antt =====
-- src/ops-fpa-vlan.c: the VLANs of a port in the switch, and the internal VLANs. A `vmap` is a
-- bitmap of the identifiers of `Vidx`; log messages are left out.
pub mod Vidx
pub mod Fetch
pub mod Add
pub mod Delete
pub mod Keep
pub mod Internal
use switchd_fpa_plugin.Prelude.{
  ℕ, zero, suc, ◌+◌, ◌*◌, ◌/◌, Bool, true, false, ◌==◌, if◌then◌else◌, bit_and, bit_or,
}
use switchd_fpa_plugin.Prelude.Bitmap.{Bitmap, empty, set1, set0}
use switchd_fpa_plugin.Fpa.{FlowTable, FlowEntry, GroupEntry, Fpa}
use switchd_fpa_plugin.Route.{add_l2_group, l2_ident}
use Vidx.{vidx_ingress, vidx_egress, vidx_vid, vidx_is_egress, vidx_arg}

-- `OPS_FPA_VLAN_COOKIE`: the VLAN is part of the cookie only for tagged traffic.
unfoldable pub vlan_cookie : ℕ → ℕ → Bool → ℕ
vlan_cookie pid vid tagged = if tagged then bit_or (vid * 0x100000000) pid else pid

-- `OPS_FPA_GID_VLAN` and `OPS_FPA_GID_PORT`.
unfoldable pub gid_vlan : ℕ → ℕ
gid_vlan id = bit_and id 0x0FFF0000 / 0x10000

unfoldable pub gid_port : ℕ → ℕ
gid_port id = bit_and id 0x0000FFFF

module _ (F : Fpa) where
  -- One round of the first loop of `ops_fpa_vlan_fetch`.
  unfoldable pub fetch_flow : ℕ → FlowEntry → Bitmap → Bitmap
  fetch_flow pid flow vmap =
      if pid == flow.vlan.in_port
      then set1 vmap (vidx_ingress flow.vlan.vlan_id (flow.vlan.vlan_id_mask == F.vlan_mask_tag))
      else vmap

  -- The loop, from entry `i` on, with a bound on its rounds.
  unfoldable pub fetch_flows : ℕ → ℕ → ℕ → ℕ → F.Hw → Bitmap → Bitmap
  unfolding fetch_flow
  fetch_flows zero sid pid i hw vmap = vmap
  fetch_flows (suc fuel) sid pid i hw vmap =
      let (err, flow) = F.flow_table_get_next sid FlowTable.vlan i hw in
      let rest = fetch_flows fuel sid pid (suc i) hw (fetch_flow pid flow vmap) in
      if err == 0 then rest else vmap

  -- One round of the second loop; a bucket that cannot be read is passed over.
  unfoldable pub fetch_group : ℕ → ℕ → ℕ → F.Hw → Bitmap → Bitmap
  fetch_group sid pid id hw vmap =
      let (err, bucket) = F.group_entry_bucket_get sid id 0 hw in
      if pid == gid_port id
      then (if err == 0
          then set1 vmap (vidx_egress (gid_vlan id) bucket.l2_interface.pop_vlan_tag_action)
          else vmap)
      else vmap

  unfoldable pub fetch_groups : ℕ → ℕ → ℕ → ℕ → F.Hw → Bitmap → Bitmap
  unfolding fetch_group
  fetch_groups zero sid pid gid hw vmap = vmap
  fetch_groups (suc fuel) sid pid gid hw vmap =
      let (err, group) = F.group_table_get_next sid gid hw in
      let id = group.group_identifier in
      let rest = fetch_groups fuel sid pid id hw (fetch_group sid pid id hw vmap) in
      if err == 0 then rest else vmap

  -- `ops_fpa_vlan_fetch`: neither loop runs more often than the tables have entries, and once to
  -- see the end.
  unfoldable pub vlan_fetch : ℕ → ℕ → F.Hw → Bitmap
  unfolding fetch_flows fetch_groups
  vlan_fetch sid pid hw =
      fetch_groups (suc F.table_capacity) sid pid 0 hw
        (fetch_flows (suc F.table_capacity) sid pid 1 hw empty)

  -- The entry that `ops_fpa_vlan_add` fills for an ingress identifier.
  unfoldable pub vlan_flow : ℕ → ℕ → Bool → FlowEntry → FlowEntry
  unfolding vlan_cookie
  vlan_flow pid vid match_tagged flow = record flow {
    cookie = vlan_cookie pid vid match_tagged;
    vlan = record {
      in_port = pid;
      vlan_id = vid;
      vlan_id_mask = if match_tagged then F.vlan_mask_tag else F.vlan_mask_untag;
      new_tag_vid = if match_tagged then F.vlan_ignore_val else vid;
      new_tag_pcp = F.vlan_ignore_val;
    };
  }

  unfoldable pub vlan_add : ℕ → ℕ → ℕ → F.Hw → ℕ × F.Hw
  unfolding vlan_flow add_l2_group
  vlan_add sid pid vidx hw =
      let vid = vidx_vid vidx in
      let (err, dummy, hw') = add_l2_group F sid pid vid (vidx_arg vidx) hw in
      let flow = (F.flow_entry_init sid FlowTable.vlan).1 in
      if vidx_is_egress vidx
      then (err, hw')
      else F.flow_entry_add sid FlowTable.vlan (vlan_flow pid vid (vidx_arg vidx) flow) hw

  unfoldable pub vlan_del : ℕ → ℕ → ℕ → F.Hw → ℕ × F.Hw
  unfolding vlan_cookie
  vlan_del sid pid vidx hw =
      let vid = vidx_vid vidx in
      if vidx_is_egress vidx
      then F.group_table_entry_delete sid (F.group_identifier_build (l2_ident pid vid)).1 hw
      else F.flow_table_cookie_delete sid FlowTable.vlan (vlan_cookie pid vid (vidx_arg vidx)) hw

  -- The switch and the global bitmap `internal_vlans`.
  pub record VlanState : Type 0 where
    pub hw : F.Hw
    pub internal_vlans : Bitmap

  unfoldable pub vlan_internal : ℕ → VlanState → Bool
  vlan_internal vid st = st.internal_vlans vid

  unfoldable pub vlan_add_internal : ℕ → ℕ → ℕ → VlanState → ℕ × VlanState
  unfolding vlan_internal
  vlan_add_internal sid pid vid st =
      let (err1, hw1) = vlan_add sid pid (vidx_ingress vid false) st.hw in
      let (err2, hw2) = vlan_add sid pid (vidx_egress vid false) hw1 in
      let undone = (vlan_del sid pid (vidx_ingress vid false) hw2).1 in
      if err1 == 0
      then (if err2 == 0
          then (if vlan_internal vid st
              then (1, record st { hw = hw2 })
              else (0, record { hw = hw2; internal_vlans = set1 st.internal_vlans vid }))
          else (1, record st { hw = undone }))
      else (1, record st { hw = hw1 })

  unfoldable pub vlan_del_internal : ℕ → ℕ → ℕ → VlanState → ℕ × VlanState
  unfolding vlan_internal
  vlan_del_internal sid pid vid st =
      let (err1, hw1) = vlan_del sid pid (vidx_ingress vid false) st.hw in
      let (err2, hw2) = vlan_del sid pid (vidx_egress vid false) hw1 in
      let err =
        if err1 == 0
        then (if err2 == 0 then (if vlan_internal vid st then 0 else 1) else 1)
        else 1 in
      (err, record { hw = hw2; internal_vlans = set0 st.internal_vlans vid })
