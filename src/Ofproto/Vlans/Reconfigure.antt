-- ===== src/Ofproto/Vlans/Reconfigure.antt =====
-- Applying a port's VLAN configuration: what the switch and the pending bitmap hold afterwards.
use switchd_fpa_plugin.Prelude.{
  ℕ, zero, suc, ◌+◌, ◌≤◌, ◌<◌, ◌≡◌, refl, ◌≢◌, ◌∙◌, Bool, true, false, not, ◌&&◌, ◌||◌, arith, ◌==◌,
  ltb, lt→ltb, and_true, if◌then◌else◌, Bool-cases, ==_iff, inl, inr, length,
}
use switchd_fpa_plugin.Prelude.Bitmap.{Bitmap, empty, diff, for_each_1}
use switchd_fpa_plugin.Fpa.{FlowTable, Fpa}
use switchd_fpa_plugin.Fpa.Laws.{FlowLaws, GroupLaws, FrameLaws, IdentLaws, Ascending}
use switchd_fpa_plugin.Vlan.Vidx.{vidx_vid, vmap_bits}
use switchd_fpa_plugin.Vlan.{vlan_fetch, vlan_add, vlan_del}
use switchd_fpa_plugin.Vlan.Fetch.{l2_state, vlan_fetch-eq-l2_state}
use switchd_fpa_plugin.Vlan.Add.{vlan_add-l2_state}
use switchd_fpa_plugin.Vlan.Delete.{clears, clears_self, IsL2, vlan_del-l2_state}
use switchd_fpa_plugin.Vlan.Keep.{vlan_add-IsL2, vlan_del-IsL2}
use switchd_fpa_plugin.Ofproto.Ports.{Ofport}
use switchd_fpa_plugin.Ofproto.Vlans.{
  PortState, VlanSettings, wanted, apply_vidx, apply_diff, reconfigure,
}

module _ (F : Fpa) (sid pid : ℕ) (vlans vnew vdiff : Bitmap) where
  -- The call for an index, if there is one, returns 0.
  abbrev accepted : ℕ → F.Hw → Bool
  accepted i hw =
      if vdiff i
      then (if vlans (vidx_vid i)
          then (if vnew i
              then (vlan_add F sid pid i hw).0 == 0
              else (vlan_del F sid pid i hw).0 == 0)
          else true)
      else true

  abbrev after : ℕ → PortState F → PortState F
  after i st = if vdiff i then apply_vidx F sid pid vlans vnew i st else st

  -- Every call of the loop returns 0.
  unfoldable pub all_accepted : ℕ → ℕ → PortState F → Bool
  unfolding apply_vidx
  all_accepted zero i st = true
  all_accepted (suc n) i st = accepted i st.hw && all_accepted n (suc i) (after i st)

module _ (F : Fpa) (L : FlowLaws F) (G : GroupLaws F) (R : FrameLaws F L G) (I : IdentLaws F)
    (sid pid : ℕ) (vlans vnew : Bitmap) (p16 : pid < 0x10000) (no_vlan_0 : vlans 0 ≡ false) where
  live : (i : ℕ) → vlans (vidx_vid i) ≡ true → 0 < vidx_vid i
  live i h = ground (arith, no_vlan_0)

  -- One round that is accepted, on every bit of every port.
  after-l2_state :
      (vdiff : Bitmap) (i : ℕ) (st : PortState F) (s p j : ℕ)
      → i < vmap_bits
      → accepted F sid pid vlans vnew vdiff i st.hw ≡ true
      → IsL2 F L G R I sid st.hw
      → l2_state F L G s p (after F sid pid vlans vnew vdiff i st).hw j ≡ (
          if vdiff i && vlans (vidx_vid i) && s == sid && p == pid
          then (if vnew i
              then j == i || l2_state F L G s p st.hw j
              else not (clears i j) && l2_state F L G s p st.hw j)
          else l2_state F L G s p st.hw j)
  unfolding apply_vidx
  after-l2_state vdiff i st s p j lt ok wf = elim (Bool-cases (vdiff i)) [
    | inr skip ↦ rw skip refl
    | inl differ ↦ elim (Bool-cases (vlans (vidx_vid i))) [
      | inr dead ↦ elim (Bool-cases (vnew i)) [
        | inl new ↦ rw (differ, dead, new) refl
        | inr old ↦ rw (differ, dead, old) refl
      ]
      | inl is_live ↦ elim (Bool-cases (vnew i)) [
        | inl new ↦
            rw (differ, is_live, new)
              (ground (arith, vlan_add-l2_state F L G R I sid pid i st.hw s p j p16 lt))
        | inr old ↦
            rw (differ, is_live, old)
              (ground (
                arith,
                vlan_del-l2_state F L G R I sid pid i st.hw s p j p16 lt (live i is_live) wf,
              ))
      ]
    ]
  ]

  after-IsL2 :
      (vdiff : Bitmap) (i : ℕ) (st : PortState F)
      → IsL2 F L G R I sid st.hw
      → IsL2 F L G R I sid (after F sid pid vlans vnew vdiff i st).hw
  unfolding apply_vidx
  after-IsL2 vdiff i st wf = elim (Bool-cases (vdiff i)) [
    | inr skip ↦ rw skip wf
    | inl differ ↦ elim (Bool-cases (vlans (vidx_vid i))) [
      | inr dead ↦ elim (Bool-cases (vnew i)) [
        | inl new ↦ rw (differ, dead, new) wf
        | inr old ↦ rw (differ, dead, old) wf
      ]
      | inl is_live ↦ elim (Bool-cases (vnew i)) [
        | inl new ↦
            rw (differ, is_live, new)
              (vlan_add-IsL2 F L G R I sid pid i st.hw p16 (live i is_live) wf)
        | inr old ↦ rw (differ, is_live, old) (vlan_del-IsL2 F L G R I sid pid i st.hw wf)
      ]
    ]
  ]

  after-vmap :
      (vdiff : Bitmap) (i : ℕ) (st : PortState F) (j : ℕ)
      → (after F sid pid vlans vnew vdiff i st).vmap j
        ≡ (if j == i && vdiff i && not (vlans (vidx_vid i)) && vnew i then true else st.vmap j)
  unfolding apply_vidx
  after-vmap vdiff i st j = elim (Bool-cases (vdiff i)) [
    | inr skip ↦ rw skip (ground arith)
    | inl differ ↦ elim (Bool-cases (vlans (vidx_vid i))) [
      | inr dead ↦ elim (Bool-cases (vnew i)) [
        | inl new ↦ rw (differ, dead, new) (ground arith)
        | inr old ↦ rw (differ, dead, old) (ground arith)
      ]
      | inl is_live ↦ elim (Bool-cases (vnew i)) [
        | inl new ↦ rw (differ, is_live, new) (ground arith)
        | inr old ↦ rw (differ, is_live, old) (ground arith)
      ]
    ]
  ]

-- Deleting the identifiers that are to go clears no other bit: not one that the switch has, and
-- not one that has been added before.
abbrev pub IsQuiet : Bitmap → Bitmap → Bitmap → Type 0
IsQuiet vlans cur vnew =
    (a b : ℕ)
    → a < vmap_bits
    → (vlans (vidx_vid a) && cur a && not (vnew a)) ≡ true
    → clears a b ≡ true
    → b ≢ a
    → (cur b ≡ false) × ((vlans (vidx_vid b) && vnew b) ≡ true → a < b)

module _ (F : Fpa) (L : FlowLaws F) (G : GroupLaws F) (R : FrameLaws F L G) (I : IdentLaws F)
    (sid pid : ℕ) (vlans cur vnew : Bitmap) (hw0 : F.Hw) (p16 : pid < 0x10000)
    (no_vlan_0 : vlans 0 ≡ false) where
  -- What the loop has reached before index `i`.
  record Reached (i : ℕ) (st : PortState F) : Type 0 where
    bits :
        (j : ℕ)
        → l2_state F L G sid pid st.hw j ≡ (if vlans (vidx_vid j) && ltb j i then vnew j else cur j)
    pending : (j : ℕ) → st.vmap j ≡ (ltb j i && not (vlans (vidx_vid j)) && vnew j && not (cur j))
    others :
        (s p j : ℕ)
        → (s == sid && p == pid) ≡ false
        → l2_state F L G s p st.hw j ≡ l2_state F L G s p hw0 j
    form : IsL2 F L G R I sid st.hw

  round :
      (i : ℕ) (st : PortState F) (s p j : ℕ)
      → i < vmap_bits
      → accepted F sid pid vlans vnew (diff cur vnew) i st.hw ≡ true
      → IsL2 F L G R I sid st.hw
      → l2_state F L G s p (after F sid pid vlans vnew (diff cur vnew) i st).hw j ≡ (
          if (diff cur vnew) i && vlans (vidx_vid i) && s == sid && p == pid
          then (if vnew i
              then j == i || l2_state F L G s p st.hw j
              else not (clears i j) && l2_state F L G s p st.hw j)
          else l2_state F L G s p st.hw j)
  round = after-l2_state F L G R I sid pid vlans vnew p16 no_vlan_0 (diff cur vnew)

  step :
      (i : ℕ) (st : PortState F)
      → IsQuiet vlans cur vnew
      → i < vmap_bits
      → accepted F sid pid vlans vnew (diff cur vnew) i st.hw ≡ true
      → Reached i st
      → Reached (suc i) (after F sid pid vlans vnew (diff cur vnew) i st)
  step i st quiet lt ok r = record {
    bits = λ j. elim (Bool-cases (j == i)) [
      | inl same ↦
          rw ((==_iff j i).0 same)
            (ground (arith, clears_self i, r.bits i, round i st sid pid i lt ok r.form))
      | inr differ ↦ ground (arith, differ, round i st sid pid j lt ok r.form, r.bits j, quiet i j)
    ];
    pending = λ j. elim (Bool-cases (j == i)) [
      | inl same ↦ rw ((==_iff j i).0 same) (
          ground (
            arith,
            r.pending i,
            after-vmap F L G R I sid pid vlans vnew p16 no_vlan_0 (diff cur vnew) i st i,
          ))
      | inr differ ↦ ground (
        arith,
        differ,
        r.pending j,
        after-vmap F L G R I sid pid vlans vnew p16 no_vlan_0 (diff cur vnew) i st j,
      )
    ];
    others = λ s p j h. ground (arith, h, r.others s p j, round i st s p j lt ok r.form);
    form = after-IsL2 F L G R I sid pid vlans vnew p16 no_vlan_0 (diff cur vnew) i st r.form;
  }

  run :
      (n i : ℕ) (st : PortState F)
      → IsQuiet vlans cur vnew
      → i + n ≡ vmap_bits
      → all_accepted F sid pid vlans vnew (diff cur vnew) n i st ≡ true
      → Reached i st
      → Reached vmap_bits
          (for_each_1 n i (λ st. diff cur vnew) (apply_vidx F sid pid vlans vnew) st)
  unfolding for_each_1 all_accepted
  run zero i st quiet e ok r = let done : i ≡ vmap_bits = omega arith in rw (← done) r
  run (suc n) i st quiet e ok r =
      run n (suc i) (after F sid pid vlans vnew (diff cur vnew) i st) quiet (omega arith)
        (ground (arith, ok)) (step i st quiet (omega arith) (ground (arith, ok)) r)

module _ (F : Fpa) (L : FlowLaws F) (G : GroupLaws F) (R : FrameLaws F L G) (I : IdentLaws F) where
  -- Applying a VLAN configuration to a port with a number below 2^16, on a switch whose VLAN and
  -- group tables are as the plugin fills them, in order and within the capacity: if every call is
  -- accepted, VLAN 0 is not enabled, and no deletion clears another identifier that the switch
  -- held for the port, or a wanted one of an enabled VLAN that comes before the deleted one, then
  -- afterwards the switch holds for the port exactly the wanted identifiers of the enabled VLANs
  -- and, for the other VLANs, what it held before; the pending bitmap holds exactly the wanted
  -- identifiers of VLANs that are not enabled and that the switch does not hold; and no bit of
  -- any other port of any switch has changed.
  pub reconfigure-l2_state :
      (sid : ℕ) (port : Ofport) (vlans : Bitmap) (set : VlanSettings) (hw : F.Hw)
      → port.pid < 0x10000
      → vlans 0 ≡ false
      → length (L.flows sid FlowTable.vlan hw) ≤ F.table_capacity
      → length (G.groups sid hw) ≤ F.table_capacity
      → Ascending 0 (G.groups sid hw)
      → IsL2 F L G R I sid hw
      → IsQuiet vlans (vlan_fetch F sid port.pid hw) (wanted set)
      → all_accepted F sid port.pid vlans
          (wanted set)
          (diff (vlan_fetch F sid port.pid hw) (wanted set))
          vmap_bits
          0
          (record { hw = hw; vmap = empty })
        ≡ true
      → (j s p k : ℕ) → j < vmap_bits
      → (s == sid && p == port.pid) ≡ false
      → let new = reconfigure F sid port vlans set hw in
        (l2_state F L G sid port.pid new.hw j
          ≡ (if vlans (vidx_vid j) then wanted set j else l2_state F L G sid port.pid hw j))
        × (new.vmap j
            ≡ (not (vlans (vidx_vid j)) && wanted set j && not (l2_state F L G sid port.pid hw j)))
        × (l2_state F L G s p new.hw k ≡ l2_state F L G s p hw k)
  unfolding reconfigure apply_diff
  reconfigure-l2_state sid port vlans set hw p16 no_vlan_0 few_flows few_groups up wf quiet ok j s p
        k lt other =
      let cur = vlan_fetch F sid port.pid hw in
      let end =
        run F L G R I sid port.pid vlans cur (wanted set) hw p16 no_vlan_0 vmap_bits 0
          (record { hw = hw; vmap = empty }) quiet refl ok
          (record {
            bits = λ j.
                ground
                  (arith, vlan_fetch-eq-l2_state F L G sid port.pid hw j few_flows few_groups up);
            pending = λ j. ground arith;
            others = λ s p j h. refl;
            form = wf;
          }) in
      let same =
        λ (j : ℕ). vlan_fetch-eq-l2_state F L G sid port.pid hw j few_flows few_groups up in
      (
        end.bits j ∙ rw (lt→ltb j vmap_bits lt, and_true (vlans (vidx_vid j)), same j) refl,
        end.pending j ∙ rw (lt→ltb j vmap_bits lt, same j) refl,
        end.others s p k other,
      )
