-- ===== src/Vlan/Fetch.antt =====
-- `ops_fpa_vlan_fetch` against the contents of the tables: a bit of the result is set exactly when
-- an entry of the port stands for it.
use switchd_fpa_plugin.Prelude.{
  ℕ, zero, suc, ◌+◌, ◌≤◌, ◌<◌, ◌≡◌, refl, ◌∙◌, ap, Bool, false, ◌&&◌, ◌||◌, Option, none, some,
  List, [], ◌∷◌, arith, ◌==◌, ltb, get_elem?, find, any, length,
}
use switchd_fpa_plugin.Prelude.Bitmap.{Bitmap, empty}
use switchd_fpa_plugin.Fpa.{FlowTable, FlowEntry, Bucket, Fpa}
use switchd_fpa_plugin.Fpa.Laws.{Group, FlowLaws, GroupLaws, bucket_of, Ascending}
use switchd_fpa_plugin.Vlan.Vidx.{vidx_ingress, vidx_egress}
use switchd_fpa_plugin.Vlan.{
  gid_vlan, gid_port, fetch_flow, fetch_flows, fetch_group, fetch_groups, vlan_fetch,
}

module _ (F : Fpa) where
  -- The entry stands for the ingress identifier `j` of port `pid`.
  abbrev pub flow_bit : ℕ → ℕ → FlowEntry → Bool
  flow_bit pid j e =
      pid == e.vlan.in_port
      && j == vidx_ingress e.vlan.vlan_id (e.vlan.vlan_id_mask == F.vlan_mask_tag)

-- The group stands for the egress identifier `j` of port `pid`.
abbrev pub bucket_bit : ℕ → ℕ → Option Bucket → Bool
bucket_bit j id none = false
bucket_bit j id (some b) = j == vidx_egress (gid_vlan id) b.l2_interface.pop_vlan_tag_action

abbrev pub group_bit : ℕ → ℕ → Group → Bool
group_bit pid j x = pid == gid_port x.id && bucket_bit j x.id x.bucket

module _ (F : Fpa) (L : FlowLaws F) (G : GroupLaws F) where
  -- The VLANs of a port as the tables hold them.
  unfoldable pub l2_state : ℕ → ℕ → F.Hw → Bitmap
  l2_state sid pid hw j =
      any (flow_bit F pid j) (L.flows sid FlowTable.vlan hw)
      || any (group_bit pid j) (G.groups sid hw)

  fetch_flows_suffix :
      (fuel sid pid i : ℕ) (hw : F.Hw) (vmap : Bitmap) (xs : List FlowEntry) (j : ℕ)
      → length xs < fuel
      → ((k m : ℕ) → k + i ≡ m → get_elem? (L.flows sid FlowTable.vlan hw) m ≡ get_elem? xs k)
      → fetch_flows F fuel sid pid (suc i) hw vmap j ≡ (vmap j || any (flow_bit F pid j) xs)
  unfolding fetch_flows fetch_flow
  fetch_flows_suffix zero sid pid i hw vmap xs j h s = absurd (omega arith)
  fetch_flows_suffix (suc fuel) sid pid i hw vmap [] j h s =
      ground (arith, L.get_next_none sid FlowTable.vlan i hw (s 0 i (omega arith)))
  fetch_flows_suffix (suc fuel) sid pid i hw vmap (x ∷ xs) j h s =
      rw (L.get_next_some sid FlowTable.vlan i hw x (s 0 i (omega arith)), fetch_flows)
        (fetch_flows_suffix fuel sid pid (suc i) hw seen xs j (omega arith)
            (λ k m e. s (suc k) m (omega arith))
          ∙ here)
    where
      seen : Bitmap
      seen = fetch_flow F pid x vmap

      here : (seen j || any (flow_bit F pid j) xs) ≡ (vmap j || any (flow_bit F pid j) (x ∷ xs))
      here = ground arith

  fetch_group-bit :
      (sid pid id : ℕ) (hw : F.Hw) (vmap : Bitmap) (j : ℕ) (b : Option Bucket)
      → bucket_of id (G.groups sid hw) ≡ b
      → fetch_group F sid pid id hw vmap j ≡ (vmap j || (pid == gid_port id && bucket_bit j id b))
  unfolding fetch_group
  fetch_group-bit sid pid id hw vmap j none e = ground (arith, G.bucket_get_none sid id hw e)
  fetch_group-bit sid pid id hw vmap j (some b) e =
      rw (G.bucket_get_some sid id hw b e, fetch_group) (ground arith)

  fetch_groups_suffix :
      (fuel sid pid g : ℕ) (hw : F.Hw) (vmap : Bitmap) (xs : List Group) (j : ℕ)
      → length xs < fuel
      → Ascending g xs
      → ((h : ℕ) → g ≤ h → find (λ y. ltb h y.id) (G.groups sid hw) ≡ find (λ y. ltb h y.id) xs)
      → ((h : ℕ) → g < h → bucket_of h (G.groups sid hw) ≡ bucket_of h xs)
      → fetch_groups F fuel sid pid g hw vmap j ≡ (vmap j || any (group_bit pid j) xs)
  unfolding fetch_groups
  fetch_groups_suffix zero sid pid g hw vmap xs j h up after held = absurd (omega arith)
  fetch_groups_suffix (suc fuel) sid pid g hw vmap [] j h up after held =
      ground (arith, G.group_next_none sid g hw (after g (omega arith)))
  fetch_groups_suffix (suc fuel) sid pid g hw vmap (x ∷ xs) j h up after held =
      rw (next.0, next.1, fetch_groups)
        (fetch_groups_suffix fuel sid pid x.id hw seen xs j (omega arith) up.1
            (λ k le. after k (omega arith) ∙ ground arith)
            (λ k lt. held k (omega arith) ∙ ground arith)
          ∙ here)
    where
      seen : Bitmap
      seen = fetch_group F sid pid x.id hw vmap

      first : find (λ y. ltb g y.id) (G.groups sid hw) ≡ some x
      first = after g (omega arith) ∙ ground arith

      next :
          ((F.group_table_get_next sid g hw).0 ≡ 0)
          × ((F.group_table_get_next sid g hw).1.group_identifier ≡ x.id)
      next = G.group_next_some sid g hw first

      bucket : bucket_of x.id (G.groups sid hw) ≡ x.bucket
      bucket = held x.id (up.0) ∙ ground arith

      here : (seen j || any (group_bit pid j) xs) ≡ (vmap j || any (group_bit pid j) (x ∷ xs))
      here = ground (arith, fetch_group-bit sid pid x.id hw vmap j x.bucket bucket)

  -- Reading the VLANs of a port gives exactly the identifiers for which the VLAN table or the
  -- group table holds an entry of the port, provided that neither table holds more entries than
  -- the switch has room for and the groups are in order; so both loops come to their ends.
  pub vlan_fetch-eq-l2_state :
      (sid pid : ℕ) (hw : F.Hw) (j : ℕ)
      → length (L.flows sid FlowTable.vlan hw) ≤ F.table_capacity
      → length (G.groups sid hw) ≤ F.table_capacity
      → Ascending 0 (G.groups sid hw)
      → vlan_fetch F sid pid hw j ≡ l2_state sid pid hw j
  unfolding vlan_fetch l2_state
  vlan_fetch-eq-l2_state sid pid hw j few_flows few_groups up =
      fetch_groups_suffix (suc F.table_capacity) sid pid 0 hw read (G.groups sid hw) j (omega arith)
        up (λ k le. refl) (λ k lt. refl)
      ∙ ap (λ b. b || any (group_bit pid j) (G.groups sid hw)) ingress
    where
      read : Bitmap
      read = fetch_flows F (suc F.table_capacity) sid pid 1 hw empty

      ingress : read j ≡ any (flow_bit F pid j) (L.flows sid FlowTable.vlan hw)
      ingress =
          fetch_flows_suffix (suc F.table_capacity) sid pid 0 hw empty
            (L.flows sid FlowTable.vlan hw) j (omega arith)
            (λ k m e. ap (get_elem? (L.flows sid FlowTable.vlan hw)) (omega arith))
