-- ===== src/Ofproto/Vlans/Enable.antt =====
-- Enabling a VLAN: the pending identifiers of a port go to the switch.
use switchd_fpa_plugin.Prelude.{
  ℕ, zero, suc, ◌+◌, ◌<◌, ◌≡◌, refl, ◌∙◌, Bool, true, false, not, ◌&&◌, ◌||◌, arith, ◌==◌, ltb,
  lt→ltb, and_true, if◌then◌else◌, Bool-cases, ==_iff, inl, inr,
}
use switchd_fpa_plugin.Prelude.Bitmap.{Bitmap, for_each_1}
use switchd_fpa_plugin.Fpa.{Fpa}
use switchd_fpa_plugin.Fpa.Laws.{FlowLaws, GroupLaws, FrameLaws, IdentLaws}
use switchd_fpa_plugin.Vlan.Vidx.{vidx_vid, vmap_bits}
use switchd_fpa_plugin.Vlan.{vlan_add}
use switchd_fpa_plugin.Vlan.Fetch.{l2_state}
use switchd_fpa_plugin.Vlan.Add.{vlan_add-l2_state}
use switchd_fpa_plugin.Ofproto.Ports.{Ofport}
use switchd_fpa_plugin.Ofproto.Vlans.{PortState, enable_vidx, enable_port}

module _ (F : Fpa) (sid pid vid : ℕ) where
  abbrev next : ℕ → PortState F → PortState F
  next i st = if st.vmap i then enable_vidx F sid pid vid i st else st

  abbrev taken_in : ℕ → PortState F → Bool
  taken_in i st =
      if st.vmap i && vidx_vid i == vid then (vlan_add F sid pid i st.hw).0 == 0 else true

  -- Every add of the loop returns 0.
  unfoldable pub all_taken_in : ℕ → ℕ → PortState F → Bool
  unfolding enable_vidx
  all_taken_in zero i st = true
  all_taken_in (suc n) i st = taken_in i st && all_taken_in n (suc i) (next i st)

module _ (F : Fpa) (L : FlowLaws F) (G : GroupLaws F) (R : FrameLaws F L G) (I : IdentLaws F)
    (sid pid vid : ℕ) (pending : Bitmap) (hw0 : F.Hw) (p16 : pid < 0x10000) where
  -- One round, on every bit of every port and on the pending bitmap.
  round-l2_state :
      (i : ℕ) (st : PortState F) (s p j : ℕ)
      → i < vmap_bits
      → taken_in F sid pid vid i st ≡ true
      → l2_state F L G s p (next F sid pid vid i st).hw j ≡ (
          if st.vmap i && vidx_vid i == vid && s == sid && p == pid && j == i
          then true
          else l2_state F L G s p st.hw j)
  unfolding enable_vidx
  round-l2_state i st s p j lt ok = elim (Bool-cases (st.vmap i)) [
    | inr skip ↦ rw skip refl
    | inl wanted ↦ elim (Bool-cases (vidx_vid i == vid)) [
      | inr other ↦ rw (wanted, other) refl
      | inl same ↦
          rw (wanted, same)
            (ground
              (arith, wanted, same, ok, vlan_add-l2_state F L G R I sid pid i st.hw s p j p16 lt))
    ]
  ]

  round-vmap :
      (i : ℕ) (st : PortState F) (j : ℕ)
      → (next F sid pid vid i st).vmap j
        ≡ (if st.vmap i && vidx_vid i == vid && j == i then false else st.vmap j)
  unfolding enable_vidx
  round-vmap i st j = elim (Bool-cases (st.vmap i)) [
    | inr skip ↦ rw skip refl
    | inl wanted ↦ elim (Bool-cases (vidx_vid i == vid)) [
      | inr other ↦ rw (wanted, other) refl
      | inl same ↦ rw (wanted, same) (ground (arith, wanted))
    ]
  ]

  -- What the loop has reached before index `i`.
  record Reached (i : ℕ) (st : PortState F) : Type 0 where
    bits :
        (s p j : ℕ)
        → l2_state F L G s p st.hw j ≡ (
            if pending j && vidx_vid j == vid && s == sid && p == pid && ltb j i
            then true
            else l2_state F L G s p hw0 j)
    left : (j : ℕ) → st.vmap j ≡ (pending j && not (vidx_vid j == vid && ltb j i))

  step :
      (i : ℕ) (st : PortState F)
      → i < vmap_bits
      → taken_in F sid pid vid i st ≡ true
      → Reached i st
      → Reached (suc i) (next F sid pid vid i st)
  step i st lt ok r = record {
    bits = λ s p j. elim (Bool-cases (j == i)) [
      | inl same ↦
          rw ((==_iff j i).0 same)
            (ground (arith, round-l2_state i st s p i lt ok, r.bits s p i, r.left i))
      | inr differ ↦ ground (arith, differ, round-l2_state i st s p j lt ok, r.bits s p j, r.left i)
    ];
    left = λ j. elim (Bool-cases (j == i)) [
      | inl same ↦ rw ((==_iff j i).0 same) (ground (arith, round-vmap i st i, r.left i))
      | inr differ ↦ ground (arith, differ, round-vmap i st j, r.left j)
    ];
  }

  run :
      (n i : ℕ) (st : PortState F)
      → i + n ≡ vmap_bits
      → all_taken_in F sid pid vid n i st ≡ true
      → Reached i st
      → Reached vmap_bits (for_each_1 n i (λ st. st.vmap) (enable_vidx F sid pid vid) st)
  unfolding for_each_1 all_taken_in
  run zero i st e ok r = let done : i ≡ vmap_bits = omega arith in rw (← done) r
  run (suc n) i st e ok r =
      run n (suc i) (next F sid pid vid i st) (omega arith) (ground (arith, ok))
        (step i st (omega arith) (ground (arith, ok)) r)

reorder :
    (a b c d e : Bool) → (if a && b && c && d && true then true else e) ≡ (c && d && a && b || e)
reorder a b c d e = ground arith

module _ (F : Fpa) (L : FlowLaws F) (G : GroupLaws F) (R : FrameLaws F L G) (I : IdentLaws F) where
  -- Enabling a VLAN on a port with a number below 2^16, where every add returns 0: of the
  -- identifiers of the bitmap exactly the pending ones of the VLAN are not pending any more, and
  -- exactly those are now in the switch for the port, beside what it held; no bit of any other
  -- port of any switch has changed.
  pub enable_port-l2_state :
      (sid : ℕ) (port : Ofport) (vid : ℕ) (hw : F.Hw) (s p j : ℕ)
      → port.pid < 0x10000
      → all_taken_in F sid port.pid vid vmap_bits 0 (record { hw = hw; vmap = port.vmap }) ≡ true
      → j < vmap_bits
      → let new = enable_port F sid port vid hw in
        (new.vmap j ≡ (port.vmap j && not (vidx_vid j == vid)))
        × (l2_state F L G s p new.hw j ≡ (
            s == sid && p == port.pid && port.vmap j && vidx_vid j == vid
            || l2_state F L G s p hw j))
  unfolding enable_port
  enable_port-l2_state sid port vid hw s p j p16 ok lt =
      let end =
        run F L G R I sid port.pid vid port.vmap hw p16 vmap_bits 0
          (record { hw = hw; vmap = port.vmap }) refl ok
          (record { bits = λ s p j. ground arith; left = λ j. ground arith }) in
      (
        end.left j ∙ rw (lt→ltb j vmap_bits lt, and_true (vidx_vid j == vid)) refl,
        end.bits s p j
            ∙ rw (lt→ltb j vmap_bits lt) (
                reorder (port.vmap j) (vidx_vid j == vid) (s == sid) (p == port.pid)
                  (l2_state F L G s p hw j)),
      )
