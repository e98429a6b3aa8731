-- ===== src/Vlan/Internal.antt =====
-- Internal VLANs, which route between ports.
use switchd_fpa_plugin.Prelude.{
  ℕ, ◌<◌, ◌≡◌, Bool, true, false, ◌&&◌, ◌||◌, arith, ◌==◌, if◌then◌else◌, Bool-cases, inl, inr,
}
use switchd_fpa_plugin.Fpa.{Fpa}
use switchd_fpa_plugin.Fpa.Laws.{FlowLaws, GroupLaws, FrameLaws, IdentLaws}
use switchd_fpa_plugin.Vlan.Vidx.{vidx_ingress, vidx_egress, vidx_fields}
use switchd_fpa_plugin.Vlan.{VlanState, vlan_add, vlan_internal, vlan_add_internal}
use switchd_fpa_plugin.Vlan.Fetch.{l2_state}
use switchd_fpa_plugin.Vlan.Add.{vlan_add-l2_state}

module _ (F : Fpa) where
  -- Whether the switch accepts the two calls that make a VLAN internal on a port.
  abbrev pub both_accepted : ℕ → ℕ → ℕ → F.Hw → Bool
  both_accepted sid pid vid hw =
      let first = vlan_add F sid pid (vidx_ingress vid false) hw in
      first.0 == 0 && (vlan_add F sid pid (vidx_egress vid false) first.1).0 == 0

module _ (F : Fpa) (L : FlowLaws F) (G : GroupLaws F) (R : FrameLaws F L G) (I : IdentLaws F) where
  -- Making a VLAN below 2^12 internal on a port with a number below 2^16, where the switch
  -- accepts both calls: the switch then holds for the port the untagged identifiers of the VLAN
  -- in both directions beside what it held, no other port has changed, and the VLAN is internal;
  -- the status is 0 if it was not internal before, and 1 if it was, though the identifiers have
  -- been added all the same.
  pub vlan_add_internal-l2_state :
      (sid pid vid : ℕ) (st : VlanState F) (s p j : ℕ)
      → pid < 0x10000
      → vid < 0x1000
      → both_accepted F sid pid vid st.hw ≡ true
      → let done = vlan_add_internal F sid pid vid st in
        (done.0 ≡ (if st.internal_vlans vid then 1 else 0))
        × (done.1.internal_vlans j ≡ (j == vid || st.internal_vlans j))
        × (l2_state F L G s p done.1.hw j ≡ (
            s == sid && p == pid && (j == vidx_ingress vid false || j == vidx_egress vid false)
            || l2_state F L G s p st.hw j))
  unfolding vlan_add_internal vlan_internal
  vlan_add_internal-l2_state sid pid vid st s p j p16 v12 ok =
      let first = vlan_add F sid pid (vidx_ingress vid false) st.hw in
      let small = vidx_fields false vid false v12 in
      let small' = vidx_fields true vid false v12 in
      let one =
        vlan_add-l2_state F L G R I sid pid (vidx_ingress vid false) st.hw s p j p16 small.3 in
      let two =
        vlan_add-l2_state F L G R I sid pid (vidx_egress vid false) first.1 s p j p16 small'.3 in
      elim (Bool-cases (st.internal_vlans vid)) [
        | inl there ↦ rw there (ground (arith, ok, there, one, two))
        | inr fresh ↦ rw fresh (ground (arith, ok, fresh, one, two))
      ]
