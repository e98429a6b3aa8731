-- ===== src/Ofproto/Vlans/Disable.antt =====
-- Disabling a VLAN: the identifiers of a port that the switch holds go back to the pending ones.
use switchd_fpa_plugin.Prelude.{
  ℕ, zero, suc, ◌+◌, ◌<◌, ◌≤◌, ◌≡◌, refl, ◌∙◌, Bool, true, false, not, ◌&&◌, ◌||◌, arith, ◌==◌, ltb,
  lt→ltb, if◌then◌else◌, Bool-cases, ==_iff, inl, inr, length, and_true, ap,
}
use switchd_fpa_plugin.Prelude.Bitmap.{Bitmap, for_each_1, set1}
use switchd_fpa_plugin.Fpa.{Fpa, FlowTable}
use switchd_fpa_plugin.Fpa.Laws.{FlowLaws, GroupLaws, FrameLaws, IdentLaws, Ascending}
use switchd_fpa_plugin.Vlan.Vidx.{vidx_vid, vmap_bits}
use switchd_fpa_plugin.Vlan.{vlan_del, vlan_fetch}
use switchd_fpa_plugin.Vlan.Fetch.{l2_state, vlan_fetch-eq-l2_state}
use switchd_fpa_plugin.Vlan.Delete.{IsL2, clears, clears_self, vlan_del-l2_state}
use switchd_fpa_plugin.Vlan.Keep.{vlan_del-IsL2}
use switchd_fpa_plugin.Ofproto.Ports.{Ofport}
use switchd_fpa_plugin.Ofproto.Vlans.{PortState, disable_vidx, disable_port}

module _ (F : Fpa) (sid pid vid : ℕ) (held : Bitmap) where
  abbrev next : ℕ → PortState F → PortState F
  next i st = if held i then disable_vidx F sid pid vid i st else st

  abbrev taken_out : ℕ → PortState F → Bool
  taken_out i st = if held i && vidx_vid i == vid then (vlan_del F sid pid i st.hw).0 == 0 else true

  -- Every deletion of the loop returns 0.
  unfoldable pub all_taken_out : ℕ → ℕ → PortState F → Bool
  unfolding disable_vidx
  all_taken_out zero i st = true
  all_taken_out (suc n) i st = taken_out i st && all_taken_out n (suc i) (next i st)

-- Deleting what the switch holds of the VLAN clears no identifier of another VLAN that the port has.
abbrev pub IsAlone : (F : Fpa) → FlowLaws F → GroupLaws F → ℕ → ℕ → ℕ → Bitmap → F.Hw → Type 0
IsAlone F L G sid pid vid held hw =
    (a j : ℕ)
    → (held a && vidx_vid a == vid) ≡ true
    → clears a j ≡ true
    → l2_state F L G sid pid hw j ≡ true
    → (vidx_vid j == vid) ≡ true

module _ (F : Fpa) (L : FlowLaws F) (G : GroupLaws F) (R : FrameLaws F L G) (I : IdentLaws F)
    (sid pid vid : ℕ) (held pending : Bitmap) (hw0 : F.Hw) (p16 : pid < 0x10000)
    (v1 : 0 < vid) where
  -- What the loop has reached before index `i`.
  pub record Reached (i : ℕ) (st : PortState F) : Type 0 where
    pub order : IsL2 F L G R I sid st.hw
    pub others :
        (s p j : ℕ)
        → (s == sid && p == pid) ≡ false
        → l2_state F L G s p st.hw j ≡ l2_state F L G s p hw0 j
    pub gone :
        (j : ℕ)
        → (held j && vidx_vid j == vid && ltb j i) ≡ true
        → l2_state F L G sid pid st.hw j ≡ false
    pub only : (j : ℕ) → l2_state F L G sid pid st.hw j ≡ true → l2_state F L G sid pid hw0 j ≡ true
    pub kept :
        IsAlone F L G sid pid vid held hw0
        → (j : ℕ) → (vidx_vid j == vid) ≡ false
        → l2_state F L G sid pid st.hw j ≡ l2_state F L G sid pid hw0 j
    pub back : (j : ℕ) → st.vmap j ≡ (held j && vidx_vid j == vid && ltb j i || pending j)

  skip :
      (i : ℕ) (st : PortState F)
      → (held i && vidx_vid i == vid) ≡ false
      → Reached i st
      → Reached (suc i) st
  skip i st off r = record {
    order = r.order;
    others = r.others;
    gone = λ j yes. elim (Bool-cases (j == i)) [
      | inl same ↦
          let off_j : (held j && vidx_vid j == vid) ≡ false = rw ((==_iff j i).0 same) off in
          ground (arith, off_j, yes)
      | inr differ ↦ r.gone j (ground (arith, differ, yes))
    ];
    only = r.only;
    kept = r.kept;
    back = λ j. elim (Bool-cases (j == i)) [
      | inl same ↦ rw ((==_iff j i).0 same) (ground (arith, off, r.back i))
      | inr differ ↦ ground (arith, differ, r.back j)
    ];
  }

  module _ (i : ℕ) (st : PortState F) (lt : i < vmap_bits) (held_i : held i ≡ true)
      (same_vid : (vidx_vid i == vid) ≡ true) (ok : ((vlan_del F sid pid i st.hw).0 == 0) ≡ true)
      (r : Reached i st) where
    deleted :
        (s p j : ℕ)
        → l2_state F L G s p (vlan_del F sid pid i st.hw).1 j
          ≡ (not (s == sid && p == pid && clears i j) && l2_state F L G s p st.hw j)
    deleted s p j =
        let positive : 0 < vidx_vid i = omega (arith, (==_iff (vidx_vid i) vid).0 same_vid) in
        ground
          (arith, ok, vlan_del-l2_state F L G R I sid pid i st.hw s p j p16 lt positive r.order)

    delete : Reached (suc i) (record { hw = (vlan_del F sid pid i st.hw).1; vmap = set1 st.vmap i })
    delete = record {
      order = vlan_del-IsL2 F L G R I sid pid i st.hw r.order;
      others = λ s p j other. ground (arith, deleted s p j, other, r.others s p j other);
      gone = λ j yes. elim (Bool-cases (j == i)) [
        | inl same ↦ rw ((==_iff j i).0 same) (ground (arith, deleted sid pid i, clears_self i))
        | inr differ ↦ ground (arith, deleted sid pid j, r.gone j (ground (arith, differ, yes)))
      ];
      only = λ j on. r.only j (ground (arith, deleted sid pid j, on));
      kept = λ alone j other. ground (
        arith,
        other,
        deleted sid pid j,
        alone i j (ground (arith, held_i, same_vid)),
        r.kept alone j other,
      );
      back = λ j. elim (Bool-cases (j == i)) [
        | inl same ↦ rw ((==_iff j i).0 same) (ground (arith, held_i, same_vid))
        | inr differ ↦ ground (arith, differ, r.back j)
      ];
    }

  step :
      (i : ℕ) (st : PortState F)
      → i < vmap_bits
      → taken_out F sid pid vid held i st ≡ true
      → Reached i st
      → Reached (suc i) (next F sid pid vid held i st)
  unfolding disable_vidx
  step i st lt ok r = elim (Bool-cases (held i)) [
    | inr off ↦ rw off (skip i st (ground (arith, off)) r)
    | inl held_i ↦ elim (Bool-cases (vidx_vid i == vid)) [
      | inr other ↦ rw (held_i, other) (skip i st (ground (arith, other)) r)
      | inl same ↦
          rw (held_i, same) (delete i st lt held_i same (ground (arith, held_i, same, ok)) r)
    ]
  ]

  run :
      (n i : ℕ) (st : PortState F)
      → i + n ≡ vmap_bits
      → all_taken_out F sid pid vid held n i st ≡ true
      → Reached i st
      → Reached vmap_bits (for_each_1 n i (λ st. held) (disable_vidx F sid pid vid) st)
  unfolding for_each_1 all_taken_out
  run zero i st e ok r = let done : i ≡ vmap_bits = omega arith in rw (← done) r
  run (suc n) i st e ok r =
      run n (suc i) (next F sid pid vid held i st) (omega arith) (ground (arith, ok))
        (step i st (omega arith) (ground (arith, ok)) r)

cut : (a b c : Bool) → ((a && b) ≡ true → c ≡ false) → (a && b && c) ≡ false
cut true true c off = off refl
cut true false c off = refl
cut false b c off = refl

outside : (own a b : Bool) → (own ≡ false → a ≡ b) → (not own && a) ≡ (not own && b)
outside true a b same = refl
outside false a b same = same refl

module _ (F : Fpa) (L : FlowLaws F) (G : GroupLaws F) (R : FrameLaws F L G) (I : IdentLaws F) where
  -- The loop ends where the last index is reached.
  pub disabled :
      (sid : ℕ) (port : Ofport) (vid : ℕ) (hw : F.Hw) (p16 : port.pid < 0x10000) (v1 : 0 < vid)
      → IsL2 F L G R I sid hw
      → all_taken_out F sid port.pid vid
          (vlan_fetch F sid port.ofp_port hw)
          vmap_bits
          0
          (record { hw = hw; vmap = port.vmap })
        ≡ true
      → Reached F L G R I sid port.pid vid
          (vlan_fetch F sid port.ofp_port hw)
          port.vmap
          hw
          p16
          v1
          vmap_bits
          (disable_port F sid port vid hw)
  unfolding disable_port
  disabled sid port vid hw p16 v1 order ok =
      run F L G R I sid port.pid vid (vlan_fetch F sid port.ofp_port hw) port.vmap hw p16 v1
        vmap_bits 0 (record { hw = hw; vmap = port.vmap }) refl ok
        (record {
          order = order;
          others = λ s p j other. refl;
          gone = λ j yes. ground (arith, yes);
          only = λ j on. on;
          kept = λ alone j other. refl;
          back = λ j. ground arith;
        })

  -- Disabling a VLAN other than 0 on a port whose OpenFlow number is its number in the switch,
  -- below 2^16, on a switch whose tables are as the plugin fills them, within their capacity and
  -- the groups in order, where every deletion returns 0: exactly the identifiers of the VLAN that
  -- the switch held for the port are pending now, beside those that were; none of them is in the
  -- switch for the port any more; no bit of any other port of any switch has changed.
  pub disable_port-l2_state :
      (sid : ℕ) (port : Ofport) (vid : ℕ) (hw : F.Hw) (s p j : ℕ)
      → port.pid < 0x10000
      → port.ofp_port ≡ port.pid
      → 0 < vid
      → IsL2 F L G R I sid hw
      → length (L.flows sid FlowTable.vlan hw) ≤ F.table_capacity
      → length (G.groups sid hw) ≤ F.table_capacity
      → Ascending 0 (G.groups sid hw)
      → all_taken_out F sid port.pid vid
          (vlan_fetch F sid port.ofp_port hw)
          vmap_bits
          0
          (record { hw = hw; vmap = port.vmap })
        ≡ true
      → j < vmap_bits
      → let new = disable_port F sid port vid hw in
        (new.vmap j ≡ (l2_state F L G sid port.pid hw j && vidx_vid j == vid || port.vmap j))
        × ((l2_state F L G sid port.pid hw j
              && vidx_vid j == vid
              && l2_state F L G sid port.pid new.hw j)
            ≡ false)
        × ((not (s == sid && p == port.pid) && l2_state F L G s p new.hw j)
            ≡ (not (s == sid && p == port.pid) && l2_state F L G s p hw j))
  disable_port-l2_state sid port vid hw s p j p16 same v1 order few_flows few_groups up ok lt = (
    end.back j ∙ rw (lt→ltb j vmap_bits lt, read) (ground arith),
    cut (l2_state F L G sid port.pid hw j) (vidx_vid j == vid) (l2_state F L G sid port.pid new j)
        (λ on.
          end.gone j (rw (lt→ltb j vmap_bits lt, and_true (held j && vidx_vid j == vid), read) on)),
    outside (s == sid && p == port.pid) (l2_state F L G s p new j) (l2_state F L G s p hw j)
        (end.others s p j),
  )
    where
      new : F.Hw
      new = (disable_port F sid port vid hw).hw

      held : Bitmap
      held = vlan_fetch F sid port.ofp_port hw

      read : held j ≡ l2_state F L G sid port.pid hw j
      read =
          vlan_fetch-eq-l2_state F L G sid port.ofp_port hw j few_flows few_groups up
          ∙ ap (λ q. l2_state F L G sid q hw j) same

      end :
          Reached F L G R I sid port.pid vid held port.vmap hw p16 v1 vmap_bits
            (disable_port F sid port vid hw)
      end = disabled sid port vid hw p16 v1 order ok

  no_rounds :
      (n i : ℕ) (held : Bitmap) (f : ℕ → PortState F → PortState F) (st : PortState F)
      → ((j : ℕ) → held j ≡ false)
      → for_each_1 n i (λ st. held) f st ≡ st
  unfolding for_each_1
  no_rounds zero i held f st off = refl
  no_rounds (suc n) i held f st off = rw (off i) (no_rounds n (suc i) held f st off)

  -- If the tables are within their capacity, the groups are in order and the switch holds no VLAN
  -- under the OpenFlow number of a port, then disabling a VLAN on the port changes nothing,
  -- whatever the switch holds under the port's own number.
  disable_port-other_number :
      (sid : ℕ) (port : Ofport) (vid : ℕ) (hw : F.Hw)
      → length (L.flows sid FlowTable.vlan hw) ≤ F.table_capacity
      → length (G.groups sid hw) ≤ F.table_capacity
      → Ascending 0 (G.groups sid hw)
      → ((j : ℕ) → l2_state F L G sid port.ofp_port hw j ≡ false)
      → disable_port F sid port vid hw ≡ record { hw = hw; vmap = port.vmap }
  unfolding disable_port
  disable_port-other_number sid port vid hw few_flows few_groups up none_held =
      no_rounds vmap_bits 0 (vlan_fetch F sid port.ofp_port hw) (disable_vidx F sid port.pid vid)
        (record { hw = hw; vmap = port.vmap })
        (λ j.
          vlan_fetch-eq-l2_state F L G sid port.ofp_port hw j few_flows few_groups up ∙ none_held j)
