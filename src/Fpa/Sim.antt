-- ===== src/Fpa/Sim.antt =====
-- One library that meets the laws: a switch whose tables are lists. A flow table is full at
-- `cap` entries, and a group is added only once.
use switchd_fpa_plugin.Prelude.{
  ℕ, zero, suc, ◌+◌, ◌*◌, ◌≡◌, refl, Bool, true, false, ◌&&◌, Option, none, some, List, [], ◌∷◌,
  ◌++◌, arith, ◌==◌, ltb, leb, if◌then◌else◌, get_elem?, find, length, ap₂,
}
use switchd_fpa_plugin.Fpa.{
  FlowTable, same_table, FlowEntry, GroupType, GroupIdent, GroupEntry, Bucket, Fpa,
}
use switchd_fpa_plugin.Fpa.Tables.{same_table→≡}
use switchd_fpa_plugin.Fpa.Laws.{
  Group, drop_cookie, insert_group, drop_group, set_bucket, bucket_of, FlowLaws, GroupLaws,
  FrameLaws, IdentLaws,
}

pub record Switch : Type 0 where
  pub flow : ℕ → FlowTable → List FlowEntry
  pub group : ℕ → List Group
  pub aging : ℕ
  pub down : ℕ → ℕ → Bool

abbrev pub blank_flow : FlowEntry
blank_flow = record {
  cookie = 0;
  vlan = record { in_port = 0; vlan_id = 0; vlan_id_mask = 0; new_tag_vid = 0; new_tag_pcp = 0 };
  control_pkt = record {
    entry_type = 0;
    dst_mac = 0;
    dst_mac_mask = 0;
    vlan_id = 0;
    vlan_id_mask = 0;
    ether_type = 0;
    ether_type_mask = 0;
    ip_protocol = 0;
    ip_protocol_mask = 0;
    icmp_v6_type_mask = 0;
    dst_l4_port = 0;
    dst_l4_port_mask = 0;
    output_port = 0;
  };
  termination = record {
    ether_type = 0;
    ether_type_mask = 0;
    vlan_id = 0;
    vlan_id_mask = 0;
    dest_mac = 0;
    dest_mac_mask = 0;
    metadata_value = 0;
    metadata_mask = 0;
  };
  l2_bridging = record {
    vlan_id = 0;
    vlan_id_mask = 0;
    dest_mac = 0;
    dest_mac_mask = 0;
    group_id = 0;
    output_port = 0;
  };
  l3_unicast = record {
    ether_type = 0;
    dst_ip4 = 0;
    dst_ip4_mask = 0;
    group_id = 0;
    output_port = 0;
  };
}

abbrev pub blank_bucket : Bucket
blank_bucket = record {
  group_identifier = 0;
  index = 0;
  bucket_type = GroupType.l2_interface;
  l2_interface = record { output_port = 0; pop_vlan_tag_action = false };
  l3_unicast = record { dst_mac = 0; src_mac = 0; vlan_id = 0; mtu = 0; ref_group_id = 0 };
}

abbrev pub blank_group : ℕ → GroupEntry
blank_group g = record { group_identifier = g; group_type_semantics = 0 }

-- The type in bits 28 and up, the VLAN in bits 16 to 27, the port or the index below.
abbrev pub group_id : GroupIdent → ℕ
group_id i = elim i.group_type [
  | GroupType.l2_interface ↦ i.vlan_id * 0x10000 + i.port_num
  | GroupType.l3_unicast ↦ 0x20000000 + i.index
]

abbrev pub put_flow : ℕ → FlowTable → List FlowEntry → Switch → Switch
put_flow sid t l hw = record hw {
  flow = λ s u. if s == sid && same_table u t then l else hw.flow s u;
}

abbrev pub put_group : ℕ → List Group → Switch → Switch
put_group sid l hw = record hw { group = λ s. if s == sid then l else hw.group s }

module _ (cap : ℕ) where
  abbrev pub add_flow : ℕ → FlowTable → FlowEntry → Switch → ℕ × Switch
  add_flow sid t e hw =
      if leb cap (length (hw.flow sid t))
      then (1, hw)
      else (0, put_flow sid t (hw.flow sid t ++ (e ∷ [])) hw)

abbrev pub delete_cookie : ℕ → FlowTable → ℕ → Switch → ℕ × Switch
delete_cookie sid t c hw = (0, put_flow sid t (drop_cookie c (hw.flow sid t)) hw)

abbrev next_flow : ℕ → FlowTable → ℕ → Switch → ℕ × FlowEntry
next_flow sid t zero hw = (1, blank_flow)
next_flow sid t (suc i) hw = elim (get_elem? (hw.flow sid t) i) [
  | none ↦ (1, blank_flow)
  | some e ↦ (0, e)
]

abbrev found : Option Group → ℕ × GroupEntry
found none = (1, blank_group 0)
found (some x) = (0, blank_group x.id)

abbrev pub add_group : ℕ → GroupEntry → Switch → ℕ × Switch
add_group sid e hw = elim (find (λ g. g.id == e.group_identifier) (hw.group sid)) [
  | none ↦ (0, put_group sid (insert_group e.group_identifier (hw.group sid)) hw)
  | some x ↦ (1, hw)
]

abbrev delete_group : ℕ → ℕ → Switch → ℕ × Switch
delete_group sid g hw = (0, put_group sid (drop_group g (hw.group sid)) hw)

abbrev add_bucket : ℕ → Bucket → Switch → ℕ × Switch
add_bucket sid b hw = (0, put_group sid (set_bucket b.group_identifier b (hw.group sid)) hw)

abbrev get_bucket : ℕ → ℕ → ℕ → Switch → ℕ × Bucket
get_bucket sid g i hw = elim (bucket_of g (hw.group sid)) [
  | none ↦ (1, blank_bucket)
  | some b ↦ (0, b)
]

abbrev pub sim : ℕ → Fpa
sim cap = record {
  Hw = Switch;
  invalid_switch_id = 0xffff;
  invalid_intf_id = 0xffff;
  vlan_mask_tag = 0x1fff;
  vlan_mask_untag = 0x1000;
  vlan_ignore_val = 0xffff;
  output_controller = 0xfffffffd;
  group_indirect = 2;
  arp_request_messages = 1;
  udp_broadcast_ctrl = 2;
  mac2me_bit = 1;
  no_more = 16;
  bad_param = 4;
  undefined_shift = 0xffffffff;
  table_capacity = cap;
  flow_entry_init = λ sid t. (0, blank_flow);
  flow_entry_add = add_flow cap;
  flow_table_cookie_delete = delete_cookie;
  flow_table_get_next = next_flow;
  group_identifier_build = λ i. (0, group_id i);
  group_table_entry_add = add_group;
  group_table_entry_delete = delete_group;
  group_table_get_next = λ sid g hw. found (find (λ y. ltb g y.id) (hw.group sid));
  group_table_get_entry = λ sid g hw. found (find (λ y. y.id == g) (hw.group sid));
  group_entry_bucket_add = add_bucket;
  group_entry_bucket_get = get_bucket;
  group_entry_statistics_get = λ sid g hw. (0, 2);
  switch_aging_timeout_set = λ sid t hw. (0, record hw { aging = t });
  switch_aging_timeout_get = λ sid hw. (0, hw.aging);
}

flow_at :
    (s sid : ℕ) (u t : FlowTable) (f : ℕ → FlowTable → List FlowEntry)
    → (s == sid && same_table u t) ≡ true
    → f s u ≡ f sid t
flow_at s sid u t f h = ap₂ f (ground arith) (same_table→≡ u t (ground arith))

pub sim_flows-add :
    (cap sid : ℕ) (t : FlowTable) (e : FlowEntry) (hw : Switch) (s : ℕ) (u : FlowTable)
    → (add_flow cap sid t e hw).1.flow s u ≡ (
        if (add_flow cap sid t e hw).0 == 0 && s == sid && same_table u t
        then hw.flow s u ++ (e ∷ [])
        else hw.flow s u)
sim_flows-add cap sid t e hw s u = ground (arith, flow_at s sid u t hw.flow)

pub sim_flows-delete :
    (sid : ℕ) (t : FlowTable) (c : ℕ) (hw : Switch) (s : ℕ) (u : FlowTable)
    → (delete_cookie sid t c hw).1.flow s u
      ≡ (if s == sid && same_table u t then drop_cookie c (hw.flow s u) else hw.flow s u)
sim_flows-delete sid t c hw s u = ground (arith, flow_at s sid u t hw.flow)

abbrev pub sim_flow : (cap : ℕ) → FlowLaws (sim cap)
sim_flow cap = record {
  flows = λ s u hw. hw.flow s u;
  flows-add = sim_flows-add cap;
  flows-cookie_delete = sim_flows-delete;
  get_next_some = λ sid t i hw e h. ground arith;
  get_next_none = λ sid t i hw h. ground arith;
  tag_ne_untag = omega arith;
}

pub sim_groups-add :
    (sid : ℕ) (e : GroupEntry) (hw : Switch) (s : ℕ)
    → (add_group sid e hw).1.group s ≡ (
        if (add_group sid e hw).0 == 0 && s == sid
        then insert_group e.group_identifier (hw.group s)
        else hw.group s)
sim_groups-add sid e hw s = ground arith

abbrev pub sim_group : (cap : ℕ) → GroupLaws (sim cap)
sim_group cap = record {
  groups = λ s hw. hw.group s;
  groups-add = sim_groups-add;
  add_present = λ sid e hw h. ground arith;
  groups-delete = λ sid g hw s. ground arith;
  groups-bucket_add = λ sid b hw s. ground arith;
  bucket_get_some = λ sid g hw b h. ground arith;
  bucket_get_none = λ sid g hw h. ground arith;
  group_next_some = λ sid g hw h. (ground arith, ground arith);
  group_next_none = λ sid g hw h. ground arith;
}

abbrev pub sim_frame : (cap : ℕ) → FrameLaws (sim cap) (sim_flow cap) (sim_group cap)
sim_frame cap = record {
  groups-flow_add = λ sid t e hw s. ground arith;
  groups-cookie_delete = λ sid t c hw s. refl;
  flows-group_add = λ sid e hw s u. ground arith;
  flows-group_delete = λ sid g hw s u. refl;
  flows-bucket_add = λ sid b hw s u. refl;
}

abbrev pub sim_ident : (cap : ℕ) → IdentLaws (sim cap)
sim_ident cap = record { build_l2 = λ pid vid p v. refl }
