-- ===== src/Wrap.antt =====
-- src/ops-fpa-wrap.c: the calls of the FPA library that the plugin wraps. The dumps to the log
-- and the lock round one call change no table, and are left out.
use switchd_fpa_plugin.Prelude.{ℕ}
use switchd_fpa_plugin.Fpa.{FlowTable, FlowEntry, GroupEntry, Bucket, Fpa}

module _ (F : Fpa) where
  unfoldable pub wrap_flow_entry_add : ℕ → FlowTable → FlowEntry → F.Hw → ℕ × F.Hw
  wrap_flow_entry_add sid t e hw = F.flow_entry_add sid t e hw

  unfoldable pub wrap_flow_table_cookie_delete : ℕ → FlowTable → ℕ → F.Hw → ℕ × F.Hw
  wrap_flow_table_cookie_delete sid t c hw = F.flow_table_cookie_delete sid t c hw

  unfoldable pub wrap_group_table_entry_add : ℕ → GroupEntry → F.Hw → ℕ × F.Hw
  wrap_group_table_entry_add sid e hw = F.group_table_entry_add sid e hw

  unfoldable pub wrap_group_table_entry_delete : ℕ → ℕ → F.Hw → ℕ × F.Hw
  wrap_group_table_entry_delete sid g hw = F.group_table_entry_delete sid g hw

  unfoldable pub wrap_group_entry_bucket_add : ℕ → Bucket → F.Hw → ℕ × F.Hw
  wrap_group_entry_bucket_add sid b hw = F.group_entry_bucket_add sid b hw
