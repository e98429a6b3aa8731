-- ===== src/Ofproto/Vlans/Flap.antt =====
-- The VLANs of a port in src/ops-fpa-ofproto.c over several calls: a VLAN that is disabled and
-- enabled again, and a port that is configured before its VLAN is enabled.
use switchd_fpa_plugin.Prelude.{
  ℕ, ◌≤◌, ◌<◌, ◌≡◌, refl, sym, ap, ap₂, ◌∙◌, true, false, not, ◌&&◌, ◌||◌, arith, ◌==◌, lt→ltb,
  if◌then◌else◌, Bool-cases, ==_iff, ==_refl, inl, inr, length,
}
use switchd_fpa_plugin.Prelude.Bitmap.{Bitmap, empty, put, diff}
use switchd_fpa_plugin.Fpa.{Fpa, FlowTable}
use switchd_fpa_plugin.Fpa.Laws.{FlowLaws, GroupLaws, FrameLaws, IdentLaws, Ascending}
use switchd_fpa_plugin.Vlan.Vidx.{vidx_vid, vmap_bits}
use switchd_fpa_plugin.Vlan.{vlan_fetch}
use switchd_fpa_plugin.Vlan.Fetch.{l2_state, vlan_fetch-eq-l2_state}
use switchd_fpa_plugin.Vlan.Delete.{IsL2}
use switchd_fpa_plugin.Ofproto.Ports.{Ofport}
use switchd_fpa_plugin.Ofproto.Vlans.{
  PortState, VlanSettings, wanted, reconfigure, enable_port, disable_port,
}
use switchd_fpa_plugin.Ofproto.Vlans.Enable.{all_taken_in, enable_port-l2_state}
use switchd_fpa_plugin.Ofproto.Vlans.Disable.{all_taken_out, IsAlone, disabled}
use switchd_fpa_plugin.Ofproto.Vlans.Reconfigure.{IsQuiet, all_accepted, reconfigure-l2_state}

module _ (F : Fpa) (L : FlowLaws F) (G : GroupLaws F) (R : FrameLaws F L G) (I : IdentLaws F) where
  -- The port itself after a VLAN has been disabled on it.
  disable_port-own :
      (sid : ℕ) (port : Ofport) (vid : ℕ) (hw : F.Hw) (j : ℕ)
      → port.pid < 0x10000
      → port.ofp_port ≡ port.pid
      → 0 < vid
      → IsL2 F L G R I sid hw
      → length (L.flows sid FlowTable.vlan hw) ≤ F.table_capacity
      → length (G.groups sid hw) ≤ F.table_capacity
      → Ascending 0 (G.groups sid hw)
      → IsAlone F L G sid port.pid vid (vlan_fetch F sid port.ofp_port hw) hw
      → all_taken_out F sid port.pid vid
          (vlan_fetch F sid port.ofp_port hw)
          vmap_bits
          0
          (record { hw = hw; vmap = port.vmap })
        ≡ true
      → j < vmap_bits
      → let new = disable_port F sid port vid hw in
        (l2_state F L G sid port.pid new.hw j
          ≡ (l2_state F L G sid port.pid hw j && not (vidx_vid j == vid)))
        × (new.vmap j ≡ (l2_state F L G sid port.pid hw j && vidx_vid j == vid || port.vmap j))
  disable_port-own sid port vid hw j p16 same v1 order few_flows few_groups up alone ok lt =
      let end = disabled F L G R I sid port vid hw p16 v1 order ok in
      let read : vlan_fetch F sid port.ofp_port hw j ≡ l2_state F L G sid port.pid hw j =
        vlan_fetch-eq-l2_state F L G sid port.ofp_port hw j few_flows few_groups up
        ∙ ap (λ q. l2_state F L G sid q hw j) same in
      let below = lt→ltb j vmap_bits lt in
      (
        ground (arith, read, below, end.gone j, end.only j, end.kept alone j),
        end.back j ∙ rw (below, read) (ground arith),
      )

  -- The port with the pending identifiers that a call has left.
  abbrev pub left : Ofport → PortState F → Ofport
  left port st = record port { vmap = st.vmap }

  -- Disabling a VLAN other than 0 on a port and enabling it again, where the port's OpenFlow
  -- number is its number in the switch, below 2^16, the tables of the switch are as the plugin
  -- fills them, within their capacity and the groups in order, no identifier of the VLAN is
  -- pending before, no deletion takes an identifier of another VLAN of the port with it, and the
  -- switch accepts every call: the switch holds for every port of every switch what it held, and
  -- the port's pending identifiers are what they were.
  pub enable_port-disable_port :
      (sid : ℕ) (port : Ofport) (vid : ℕ) (hw : F.Hw) (s p j : ℕ)
      → port.pid < 0x10000
      → port.ofp_port ≡ port.pid
      → 0 < vid
      → IsL2 F L G R I sid hw
      → length (L.flows sid FlowTable.vlan hw) ≤ F.table_capacity
      → length (G.groups sid hw) ≤ F.table_capacity
      → Ascending 0 (G.groups sid hw)
      → IsAlone F L G sid port.pid vid (vlan_fetch F sid port.ofp_port hw) hw
      → ((k : ℕ) → (port.vmap k && vidx_vid k == vid) ≡ false)
      → all_taken_out F sid port.pid vid
          (vlan_fetch F sid port.ofp_port hw)
          vmap_bits
          0
          (record { hw = hw; vmap = port.vmap })
        ≡ true
      → let off = disable_port F sid port vid hw in
        all_taken_in F sid port.pid vid vmap_bits 0 off ≡ true
        → j < vmap_bits
        → let on = enable_port F sid (left port off) vid off.hw in
          (l2_state F L G s p on.hw j ≡ l2_state F L G s p hw j) × (on.vmap j ≡ port.vmap j)
  enable_port-disable_port sid port vid hw s p j p16 same v1 order few_flows few_groups up alone
        none_pending out in_again lt =
      let off = disable_port F sid port vid hw in
      let own =
        disable_port-own sid port vid hw j p16 same v1 order few_flows few_groups up alone out lt in
      let others = (disabled F L G R I sid port vid hw p16 v1 order out).others s p j in
      let on_at = λ (s p : ℕ).
        enable_port-l2_state F L G R I sid (left port off) vid off.hw s p j p16 in_again lt in
      let on = on_at s p in
      let on_hw = (enable_port F sid (left port off) vid off.hw).hw in
      let back : l2_state F L G sid port.pid on_hw j ≡ l2_state F L G sid port.pid hw j = ground (
        arith,
        (on_at sid port.pid).1,
        own.0,
        own.1,
        none_pending j,
        ==_refl sid,
        ==_refl port.pid,
      ) in
      (
        elim (Bool-cases (s == sid && p == port.pid)) [
          | inl here ↦
              let at = λ (h : F.Hw).
                ap₂ (λ a b. l2_state F L G a b h j) ((==_iff s sid).0 (ground (arith, here)))
                  ((==_iff p port.pid).0 (ground (arith, here))) in
              at on_hw ∙ back ∙ sym (at hw)
          | inr there ↦ ground (arith, there, on.1, others there)
        ],
        ground (arith, on.0, own.1, none_pending j),
      )

  -- If a VLAN is disabled, the switch holds nothing of it for a port, and the port is configured
  -- under the conditions under which that is exact, then enabling the VLAN on it, where every add
  -- returns 0, comes to what the configuration asks for with the VLAN enabled: the switch holds
  -- for the port exactly the wanted identifiers of the enabled VLANs, this one among them, and of
  -- the others what it held; the pending ones are the wanted ones of the others that the switch
  -- does not hold; and no bit of another port has changed.
  pub enable_port-reconfigure :
      (sid : ℕ) (port : Ofport) (vid : ℕ) (vlans : Bitmap) (set : VlanSettings) (hw : F.Hw)
      → port.pid < 0x10000
      → vlans 0 ≡ false
      → length (L.flows sid FlowTable.vlan hw) ≤ F.table_capacity
      → length (G.groups sid hw) ≤ F.table_capacity
      → Ascending 0 (G.groups sid hw)
      → IsL2 F L G R I sid hw
      → IsQuiet vlans (vlan_fetch F sid port.pid hw) (wanted set)
      → all_accepted F sid port.pid vlans
          (wanted set)
          (diff (vlan_fetch F sid port.pid hw) (wanted set))
          vmap_bits
          0
          (record { hw = hw; vmap = empty })
        ≡ true
      → let first = reconfigure F sid port vlans set hw in
        all_taken_in F sid port.pid vid vmap_bits 0 first ≡ true
        → vlans vid ≡ false
        → ((k : ℕ) → (l2_state F L G sid port.pid hw k && vidx_vid k == vid) ≡ false)
        → (j s p : ℕ) → j < vmap_bits
        → (s == sid && p == port.pid) ≡ false
        → let new = enable_port F sid (left port first) vid first.hw in
          let live : Bitmap = put vlans vid true in
          (l2_state F L G sid port.pid new.hw j
            ≡ (if live (vidx_vid j) then wanted set j else l2_state F L G sid port.pid hw j))
          × (new.vmap j
              ≡ (not (live (vidx_vid j)) && wanted set j && not (l2_state F L G sid port.pid hw j)))
          × (l2_state F L G s p new.hw j ≡ l2_state F L G s p hw j)
  enable_port-reconfigure sid port vid vlans set hw p16 no_vlan_0 few_flows few_groups up wf quiet
        ok in_after dead unheld j s p lt other =
      let first = reconfigure F sid port vlans set hw in
      let conf =
        reconfigure-l2_state F L G R I sid port vlans set hw p16 no_vlan_0 few_flows few_groups up
          wf quiet ok j s p j lt other in
      let at = λ (s p : ℕ).
        enable_port-l2_state F L G R I sid (left port first) vid first.hw s p j p16 in_after lt in
      let own_at = (at sid port.pid).1 in
      let itself : (sid == sid && port.pid == port.pid) ≡ true =
        rw (==_refl sid, ==_refl port.pid) refl in
      let off : (vidx_vid j == vid) ≡ true → vlans (vidx_vid j) ≡ false =
        λ same. ap vlans ((==_iff (vidx_vid j) vid).0 same) ∙ dead in
      (
        ground (arith, own_at, itself, conf.0, conf.1, off, unheld j),
        ground (arith, (at s p).0, conf.1, off, unheld j),
        ground (arith, (at s p).1, conf.2, other),
      )
