-- ===== src/Calls.antt =====
-- What the modules src/ops-fpa-vlan.c, src/ops-fpa-route.c and src/ops-fpa-routing.c, and through
-- them src/ops-fpa-ofproto.c, ask of the switch: sequences of calls of the FPA library.
pub mod Sound
pub mod Vlans
pub mod Ports
pub mod Routing
pub mod Indices
pub mod Hosts
pub mod HostEntries
pub mod Addresses
pub mod Bundles
pub mod Ofproto
pub mod Reach
pub mod Configured
use switchd_fpa_plugin.Prelude.{ℕ, ◌<◌, ◌≡◌, refl, Bool, true, false, [], ◌∷◌, ◌⊎◌, if◌then◌else◌}
use switchd_fpa_plugin.Fpa.{FlowTable, same_table, FlowEntry, Bucket, Fpa}
use switchd_fpa_plugin.Route.{indirect}
use switchd_fpa_plugin.Vlan.{gid_vlan}
use switchd_fpa_plugin.Vlan.Delete.{AreVlanFlows}

module _ (F : Fpa) where
  -- One call that writes to the switch, with what the plugin sees to: an entry of the VLAN table
  -- has the cookie of its port and VLAN, and a group is that of a port and a VLAN or reads as one
  -- of VLAN 0. The call may fail.
  pub data Call (hw hw' : F.Hw) : Type 0 where
    vlan_add :
        (sid : ℕ) (e : FlowEntry)
        → AreVlanFlows F (e ∷ [])
        → hw' ≡ (F.flow_entry_add sid FlowTable.vlan e hw).1
        → Call hw hw'
    flow_add :
        (sid : ℕ) (t : FlowTable) (e : FlowEntry)
        → same_table FlowTable.vlan t ≡ false
        → hw' ≡ (F.flow_entry_add sid t e hw).1
        → Call hw hw'
    cookie_delete :
        (sid : ℕ) (t : FlowTable) (c : ℕ)
        → hw' ≡ (F.flow_table_cookie_delete sid t c hw).1
        → Call hw hw'
    group_add :
        (sid g : ℕ)
        → 0 < g
        → (g < 0x10000000) ⊎ (gid_vlan g ≡ 0)
        → hw' ≡ (F.group_table_entry_add sid (indirect F g) hw).1
        → Call hw hw'
    bucket_add : (sid : ℕ) (b : Bucket) → hw' ≡ (F.group_entry_bucket_add sid b hw).1 → Call hw hw'
    group_delete : (sid g : ℕ) → hw' ≡ (F.group_table_entry_delete sid g hw).1 → Call hw hw'

  -- Calls one after the other.
  pub data Calls (hw : F.Hw) : F.Hw → Type 0 where
    start : Calls hw hw
    later : {hw' hw'' : F.Hw} → Calls hw hw' → Call hw' hw'' → Calls hw hw''

  pub Calls-append : {a b c : F.Hw} → Calls a b → Calls b c → Calls a c
  Calls-append p Calls.start = p
  Calls-append p (Calls.later q c) = Calls.later (Calls-append p q) c

  pub one : {a b : F.Hw} → Call a b → Calls a b
  one c = Calls.later Calls.start c
