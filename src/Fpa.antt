-- ===== src/Fpa.antt =====
-- The FPA library (fpa/fpaLibApis.h, fpa/fpaLibTypes.h) as the plugin uses it. It is not part of
-- the repository: `Fpa` is a parameter of every definition that calls it, with the state `Hw` of
-- the switch and one field for each call. A call that changes the switch returns its status and
-- the new state; a status and any other C int is its bit pattern, and `FPA_OK` is 0.
pub mod Laws
pub mod Ports
pub mod Sim
pub mod Tables
use switchd_fpa_plugin.Prelude.{ℕ, ◌≡◌, refl, Bool, true, false, ◌==◌}

-- `FPA_FLOW_TABLE_TYPE_..._E`.
pub data FlowTable : Type 0 where
  control_pkt vlan termination pcl0 pcl1 pcl2 l2_bridging l3_unicast epcl : FlowTable

abbrev pub table_no : FlowTable → ℕ
table_no control_pkt = 0
table_no vlan = 1
table_no termination = 2
table_no pcl0 = 3
table_no pcl1 = 4
table_no pcl2 = 5
table_no l2_bridging = 6
table_no l3_unicast = 7
table_no epcl = 8

abbrev pub same_table : FlowTable → FlowTable → Bool
same_table t u = table_no t == table_no u

-- The members of the union `data` of `FPA_FLOW_TABLE_ENTRY_STC` that the plugin fills. A MAC
-- address is a number below 2^48, an IPv4 address the number that its four bytes have in memory
-- order on a little-endian host.
pub record VlanFlow : Type 0 where
  pub in_port : ℕ
  pub vlan_id : ℕ
  pub vlan_id_mask : ℕ
  pub new_tag_vid : ℕ
  pub new_tag_pcp : ℕ

pub record ControlPktFlow : Type 0 where
  pub entry_type : ℕ
  pub dst_mac : ℕ
  pub dst_mac_mask : ℕ
  pub vlan_id : ℕ
  pub vlan_id_mask : ℕ
  pub ether_type : ℕ
  pub ether_type_mask : ℕ
  pub ip_protocol : ℕ
  pub ip_protocol_mask : ℕ
  pub icmp_v6_type_mask : ℕ
  pub dst_l4_port : ℕ
  pub dst_l4_port_mask : ℕ
  pub output_port : ℕ

pub record TerminationFlow : Type 0 where
  pub ether_type : ℕ
  pub ether_type_mask : ℕ
  pub vlan_id : ℕ
  pub vlan_id_mask : ℕ
  pub dest_mac : ℕ
  pub dest_mac_mask : ℕ
  pub metadata_value : ℕ
  pub metadata_mask : ℕ

pub record L2BridgingFlow : Type 0 where
  pub vlan_id : ℕ
  pub vlan_id_mask : ℕ
  pub dest_mac : ℕ
  pub dest_mac_mask : ℕ
  pub group_id : ℕ
  pub output_port : ℕ

pub record L3UnicastFlow : Type 0 where
  pub ether_type : ℕ
  pub dst_ip4 : ℕ
  pub dst_ip4_mask : ℕ
  pub group_id : ℕ
  pub output_port : ℕ

-- `FPA_FLOW_TABLE_ENTRY_STC`; of the union only the member of the entry's table is used.
pub record FlowEntry : Type 0 where
  pub cookie : ℕ
  pub vlan : VlanFlow
  pub control_pkt : ControlPktFlow
  pub termination : TerminationFlow
  pub l2_bridging : L2BridgingFlow
  pub l3_unicast : L3UnicastFlow

-- `FPA_GROUP_L2_INTERFACE_E` and `FPA_GROUP_L3_UNICAST_E`.
pub data GroupType : Type 0 where
  l2_interface l3_unicast : GroupType

-- `FPA_GROUP_ENTRY_IDENTIFIER_STC`.
pub record GroupIdent : Type 0 where
  pub group_type : GroupType
  pub port_num : ℕ
  pub vlan_id : ℕ
  pub index : ℕ

-- `FPA_GROUP_TABLE_ENTRY_STC`.
pub record GroupEntry : Type 0 where
  pub group_identifier : ℕ
  pub group_type_semantics : ℕ

pub record L2Bucket : Type 0 where
  pub output_port : ℕ
  pub pop_vlan_tag_action : Bool

pub record L3Bucket : Type 0 where
  pub dst_mac : ℕ
  pub src_mac : ℕ
  pub vlan_id : ℕ
  pub mtu : ℕ
  pub ref_group_id : ℕ

-- `FPA_GROUP_BUCKET_ENTRY_STC`, with the members of its union side by side.
pub record Bucket : Type 0 where
  pub group_identifier : ℕ
  pub index : ℕ
  pub bucket_type : GroupType
  pub l2_interface : L2Bucket
  pub l3_unicast : L3Bucket

-- The calls and the constants of the library.
pub record Fpa : Type 1 where
  pub Hw : Type 0
  pub invalid_switch_id : ℕ
  pub invalid_intf_id : ℕ
  pub vlan_mask_tag : ℕ
  pub vlan_mask_untag : ℕ
  pub vlan_ignore_val : ℕ
  pub output_controller : ℕ
  pub group_indirect : ℕ
  pub arp_request_messages : ℕ
  pub udp_broadcast_ctrl : ℕ
  pub mac2me_bit : ℕ
  pub no_more : ℕ
  pub bad_param : ℕ
  -- What a shift by 32 bits or more gives, which C leaves undefined.
  pub undefined_shift : ℕ
  -- The number of entries that a table of the switch can hold.
  pub table_capacity : ℕ
  pub flow_entry_init : ℕ → FlowTable → ℕ × FlowEntry
  pub flow_entry_add : ℕ → FlowTable → FlowEntry → Hw → ℕ × Hw
  pub flow_table_cookie_delete : ℕ → FlowTable → ℕ → Hw → ℕ × Hw
  pub flow_table_get_next : ℕ → FlowTable → ℕ → Hw → ℕ × FlowEntry
  pub group_identifier_build : GroupIdent → ℕ × ℕ
  pub group_table_entry_add : ℕ → GroupEntry → Hw → ℕ × Hw
  pub group_table_entry_delete : ℕ → ℕ → Hw → ℕ × Hw
  pub group_table_get_next : ℕ → ℕ → Hw → ℕ × GroupEntry
  pub group_table_get_entry : ℕ → ℕ → Hw → ℕ × GroupEntry
  pub group_entry_bucket_add : ℕ → Bucket → Hw → ℕ × Hw
  pub group_entry_bucket_get : ℕ → ℕ → ℕ → Hw → ℕ × Bucket
  -- The `referenceCount` of the group's counters.
  pub group_entry_statistics_get : ℕ → ℕ → Hw → ℕ × ℕ
  pub switch_aging_timeout_set : ℕ → ℕ → Hw → ℕ × Hw
  pub switch_aging_timeout_get : ℕ → Hw → ℕ × ℕ
