-- ===== src/Route.antt =====
-- src/ops-fpa-route.c: groups and routes in the switch. A C function with an output argument
-- returns it beside its status; log messages are left out.
pub mod Mask
pub mod Undo
use switchd_fpa_plugin.Prelude.{
  ℕ, ◌-◌, ◌*◌, ◌/◌, ◌^◌, Bool, false, ◌&&◌, ◌==◌, leb, if◌then◌else◌, bit_and, bit_or,
}
use switchd_fpa_plugin.Fpa.{
  FlowTable, FlowEntry, GroupType, GroupIdent, GroupEntry, L2Bucket, L3Bucket, Bucket, Fpa,
}
use switchd_fpa_plugin.Wrap.{
  wrap_flow_entry_add, wrap_flow_table_cookie_delete, wrap_group_table_entry_add,
  wrap_group_table_entry_delete, wrap_group_entry_bucket_add,
}

-- `OPS_FPA_ROUTE_IPV4_COOKIE`.
unfoldable pub route_ipv4_cookie : ℕ → ℕ → ℕ
route_ipv4_cookie ipv4 mask_len = bit_or (ipv4 * 0x100) (bit_and 0xff mask_len)

abbrev pub l2_ident : ℕ → ℕ → GroupIdent
l2_ident pid vid = record {
  group_type = GroupType.l2_interface;
  port_num = pid;
  vlan_id = vid;
  index = 0;
}

abbrev pub l3_ident : ℕ → GroupIdent
l3_ident arp_index = record {
  group_type = GroupType.l3_unicast;
  port_num = 0;
  vlan_id = 0;
  index = arp_index;
}

abbrev no_l2 : L2Bucket
no_l2 = record { output_port = 0; pop_vlan_tag_action = false }

abbrev no_l3 : L3Bucket
no_l3 = record { dst_mac = 0; src_mac = 0; vlan_id = 0; mtu = 0; ref_group_id = 0 }

abbrev pub l2_bucket : ℕ → ℕ → Bool → Bucket
l2_bucket group pid pop_tag = record {
  group_identifier = group;
  index = 0;
  bucket_type = GroupType.l2_interface;
  l2_interface = record { output_port = pid; pop_vlan_tag_action = pop_tag };
  l3_unicast = no_l3;
}

abbrev pub l3_bucket : ℕ → ℕ → ℕ → ℕ → ℕ → ℕ → Bucket
l3_bucket group l2_group vid mtu src_mac dst_mac = record {
  group_identifier = group;
  index = 0;
  bucket_type = GroupType.l3_unicast;
  l2_interface = no_l2;
  l3_unicast = record {
    dst_mac = dst_mac;
    src_mac = src_mac;
    vlan_id = vid;
    mtu = mtu;
    ref_group_id = l2_group;
  };
}

module _ (F : Fpa) where
  abbrev pub indirect : ℕ → GroupEntry
  indirect group = record { group_identifier = group; group_type_semantics = F.group_indirect }

  -- The status, `*group` and the switch.
  unfoldable pub add_l2_group : ℕ → ℕ → ℕ → Bool → F.Hw → ℕ × ℕ × F.Hw
  add_l2_group sid pid vid pop_tag hw =
      let (err, group) = F.group_identifier_build (l2_ident pid vid) in
      let (err1, hw1) = F.group_table_entry_add sid (indirect group) hw in
      let (err2, hw2) = F.group_entry_bucket_add sid (l2_bucket group pid pop_tag) hw1 in
      if err == 0
      then (if err1 == 0
          then (if err2 == 0
              then (0, group, hw2)
              else (1, group, (F.group_table_entry_delete sid group hw2).1))
          else (1, group, hw1))
      else (1, group, hw)

  -- The status, `*l3_group` and the switch.
  unfoldable pub add_l3_group : ℕ → ℕ → ℕ → ℕ → ℕ → ℕ → ℕ → F.Hw → ℕ × ℕ × F.Hw
  unfolding wrap_group_table_entry_add wrap_group_entry_bucket_add wrap_group_table_entry_delete
  add_l3_group sid l2_group arp_index vid mtu src_mac dst_mac hw =
      let (err, group) = F.group_identifier_build (l3_ident arp_index) in
      let (err1, hw1) = wrap_group_table_entry_add F sid (indirect group) hw in
      let bucket = l3_bucket group l2_group vid mtu src_mac dst_mac in
      let (err2, hw2) = wrap_group_entry_bucket_add F sid bucket hw1 in
      if err == 0
      then (if (F.group_table_get_entry sid group hw).0 == 0
          then (1, group, hw)
          else (if err1 == 0
              then (if err2 == 0
                  then (0, group, hw2)
                  else (1, 0, (wrap_group_table_entry_delete F sid group hw2).1))
              else (1, group, hw1)))
      else (1, group, hw)

  -- `0xffffffff >> (32 - mask_len)`, with `mask_len` an `int`.
  unfoldable pub route_mask : ℕ → ℕ
  route_mask mask_len =
      if leb 1 mask_len && leb mask_len 32
      then 0xffffffff / 2 ^ (32 - mask_len)
      else F.undefined_shift

  -- The entry that both kinds of route fill.
  unfoldable pub route_entry : ℕ → ℕ → ℕ → ℕ → FlowEntry → FlowEntry
  unfolding route_mask
  route_entry group output_port ipv4 mask_len entry = record entry {
    cookie = route_ipv4_cookie ipv4 mask_len;
    l3_unicast = record {
      group_id = group;
      ether_type = 0x800;
      output_port = output_port;
      dst_ip4 = ipv4;
      dst_ip4_mask = route_mask mask_len;
    };
  }

  unfoldable pub add_route : ℕ → ℕ → ℕ → ℕ → F.Hw → ℕ × F.Hw
  unfolding route_entry wrap_flow_entry_add
  add_route sid l3_group ipv4 mask_len hw =
      let (err, entry) = F.flow_entry_init sid FlowTable.l3_unicast in
      if err == 0
      then wrap_flow_entry_add F sid FlowTable.l3_unicast
          (route_entry l3_group 0 ipv4 mask_len entry) hw
      else (1, hw)

  unfoldable pub add_route_trap : ℕ → ℕ → ℕ → F.Hw → ℕ × F.Hw
  unfolding route_entry wrap_flow_entry_add
  add_route_trap sid ipv4 mask_len hw =
      let (err, entry) = F.flow_entry_init sid FlowTable.l3_unicast in
      let trap = route_entry 0xffffffff F.output_controller ipv4 mask_len entry in
      if err == 0 then wrap_flow_entry_add F sid FlowTable.l3_unicast trap hw else (1, hw)

  unfoldable pub del_route : ℕ → ℕ → ℕ → F.Hw → ℕ × F.Hw
  unfolding wrap_flow_table_cookie_delete
  del_route sid ipv4 mask_len hw =
      let (err, hw') =
        wrap_flow_table_cookie_delete F sid FlowTable.l3_unicast (route_ipv4_cookie ipv4 mask_len)
          hw in
      (if err == 0 then 0 else 1, hw')

  unfoldable pub del_group : ℕ → ℕ → F.Hw → ℕ × F.Hw
  unfolding wrap_group_table_entry_delete
  del_group sid group hw =
      let (err, hw') = wrap_group_table_entry_delete F sid group hw in
      (if err == 0 then 0 else 1, hw')
