-- ===== src/Fpa/Tables.antt =====
-- A flow table of the FPA library is known by its number.
use switchd_fpa_plugin.Prelude.{ℕ, ◌≡◌, refl, sym, ap, ◌∙◌, true, List, [], ◌∷◌, ==_iff, get_or}
use switchd_fpa_plugin.Fpa.{FlowTable, table_no, same_table}

table_of : ℕ → FlowTable
table_of n = get_or tables n FlowTable.epcl
  where
    tables : List FlowTable
    tables =
        FlowTable.control_pkt ∷ FlowTable.vlan ∷ FlowTable.termination ∷ FlowTable.pcl0
        ∷ FlowTable.pcl1 ∷ FlowTable.pcl2 ∷ FlowTable.l2_bridging ∷ FlowTable.l3_unicast ∷ []

table_of-table_no : (t : FlowTable) → table_of (table_no t) ≡ t
unfolding table_of
table_of-table_no FlowTable.control_pkt = refl
table_of-table_no t = refl

pub same_table→≡ : (t u : FlowTable) → same_table t u ≡ true → t ≡ u
same_table→≡ t u h =
    sym (table_of-table_no t)
    ∙ ap table_of ((==_iff (table_no t) (table_no u)).0 h)
    ∙ table_of-table_no u
