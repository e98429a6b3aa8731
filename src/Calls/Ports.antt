-- ===== src/Calls/Ports.antt =====
-- Configuring ports and enabling VLANs in src/ops-fpa-ofproto.c, as calls on the switch.
use switchd_fpa_plugin.Prelude.{
  ℕ, zero, suc, ◌<◌, ◌≡◌, sym, subst, Bool, true, false, some, List, [], ◌∷◌, arith, ◌==◌, ==_iff,
  if◌then◌else◌, Bool-cases, Option-cases, inl, inr, find,
}
use switchd_fpa_plugin.Prelude.Bitmap.{Bitmap, empty, diff, for_each_1}
use switchd_fpa_plugin.Hmap.{Hmap}
use mathlib.Core.List.{Permᴰ}
use switchd_fpa_plugin.Fpa.{Fpa}
use switchd_fpa_plugin.Fpa.Laws.{FlowLaws, GroupLaws, FrameLaws, IdentLaws}
use switchd_fpa_plugin.Vlan.Vidx.{vidx_vid, vmap_bits}
use switchd_fpa_plugin.Vlan.{vlan_fetch}
use switchd_fpa_plugin.Ofproto.Ports.{
  insert_ofport, Ofport, PortNode, PortMap, get_ofport_by_pid, set_first, set_ofport, port_of,
  same_bucket,
}
use switchd_fpa_plugin.Ofproto.Vlans.{
  VlanSettings, PortState, wanted, L2State, apply_vidx, apply_diff, reconfigure, enable_vidx,
  enable_port, disable_vidx, disable_port, set_vlan_bundle, set_vlan_bundles, set_vlan,
}
use switchd_fpa_plugin.Ofproto.Vlans.OneBundle.{written, bundle-none, bundle-some}
use switchd_fpa_plugin.Calls.{Calls, Calls-append}
use switchd_fpa_plugin.Calls.Vlans.{vlan_add-Calls, vlan_del-Calls}

chosen :
    (F : Fpa) (b : Bool) (st new : PortState F)
    → Calls F st.hw new.hw
    → Calls F st.hw (if b then new else st).hw
chosen F true st new calls = calls
chosen F false st new calls = Calls.start

for_each_1-Calls :
    (F : Fpa) (bits : PortState F → Bitmap) (body : ℕ → PortState F → PortState F)
    → ((i : ℕ) (st : PortState F) → Calls F st.hw (body i st).hw)
    → (n i : ℕ) (st : PortState F) → Calls F st.hw (for_each_1 n i bits body st).hw
unfolding for_each_1
for_each_1-Calls F bits body h zero i st = Calls.start
for_each_1-Calls F bits body h (suc n) i st =
    Calls-append F (chosen F (bits st i) st (body i st) (h i st))
      (for_each_1-Calls F bits body h n (suc i) (if bits st i then body i st else st))

-- The ports of the map have numbers below 2^16.
abbrev pub AreSmall : List PortNode → Type 0
AreSmall [] = Unit
AreSmall (n ∷ ns) = (n.port.pid < 0x10000) × AreSmall ns

pub AreSmall-perm : {xs ys : List PortNode} → Permᴰ xs ys → AreSmall ys → AreSmall xs
AreSmall-perm Permᴰ.nil h = tt
AreSmall-perm (Permᴰ.cons e d) h =
    (subst (λ (n : PortNode). n.port.pid < 0x10000) (sym e) h.0, AreSmall-perm d h.1)
AreSmall-perm (Permᴰ.swap e f) h = (
  subst (λ (n : PortNode). n.port.pid < 0x10000) (sym e) h.1.0,
  (subst (λ (n : PortNode). n.port.pid < 0x10000) (sym f) h.0, h.1.1),
)
AreSmall-perm (Permᴰ.trans d e) h = AreSmall-perm d (AreSmall-perm e h)

-- A port that is inserted.
pub insert_ofport-AreSmall :
    (H : Hmap) (m : PortMap) (pid : ℕ) (p : Ofport)
    → p.pid < 0x10000
    → AreSmall m.nodes
    → AreSmall (insert_ofport H m pid p).nodes
unfolding insert_ofport
insert_ofport-AreSmall H m pid p p16 small =
    AreSmall-perm
      (H.insert-perm (λ (n : PortNode). n.hash) m.mask (record { hash = pid; port = p }) m.nodes)
      (p16, small)

found_small :
    (test : PortNode → Bool) (ns : List PortNode) (port : Ofport)
    → port_of (find test ns) ≡ some port
    → AreSmall ns
    → port.pid < 0x10000
found_small test [] port h small = cc
found_small test (n ∷ ns) port h small = elim (Bool-cases (test n)) [
  | inl hit ↦
      let same : n.port ≡ port = ground (arith, hit, h) in
      subst (λ (p : Ofport). p.pid < 0x10000) same small.0
  | inr miss ↦ found_small test ns port (ground (arith, miss, h)) small.1
]

pub get_ofport_by_pid-small :
    (m : PortMap) (pid : ℕ) (port : Ofport)
    → get_ofport_by_pid m pid ≡ some port
    → AreSmall m.nodes
    → port.pid < 0x10000
unfolding get_ofport_by_pid
get_ofport_by_pid-small m pid port h small =
    found_small (same_bucket m.mask pid) m.nodes port h small

set_first-AreSmall :
    (test : PortNode → Bool) (p : Ofport) (ns : List PortNode)
    → p.pid < 0x10000
    → AreSmall ns
    → AreSmall (set_first test p ns)
unfolding set_first
set_first-AreSmall test p [] p16 small = tt
set_first-AreSmall test p (n ∷ ns) p16 small =
    ground (arith, p16, small, set_first-AreSmall test p ns p16 small.1)

pub set_ofport-AreSmall :
    (m : PortMap) (pid : ℕ) (p : Ofport)
    → p.pid < 0x10000
    → AreSmall m.nodes
    → AreSmall (set_ofport m pid p).nodes
unfolding set_ofport
set_ofport-AreSmall m pid p p16 small =
    set_first-AreSmall (same_bucket m.mask pid) p m.nodes p16 small

module _ (F : Fpa) (L : FlowLaws F) (G : GroupLaws F) (R : FrameLaws F L G) (I : IdentLaws F) where
  apply_vidx-Calls :
      (sid pid : ℕ) (vlans vnew : Bitmap) (i : ℕ) (st : PortState F)
      → pid < 0x10000
      → vlans 0 ≡ false
      → Calls F st.hw (apply_vidx F sid pid vlans vnew i st).hw
  unfolding apply_vidx
  apply_vidx-Calls sid pid vlans vnew i st p16 no_vlan_0 = elim (Bool-cases (vlans (vidx_vid i))) [
    | inl live ↦
        let v1 : 0 < vidx_vid i = ground (arith, live, no_vlan_0) in
        rw live (
          ground (
            arith,
            vlan_add-Calls F L G R I sid pid i st.hw p16 v1,
            vlan_del-Calls F L G R I sid pid i st.hw,
          ))
    | inr dead ↦ let same : Calls F st.hw st.hw = Calls.start in rw dead (ground (arith, same))
  ]

  pub reconfigure-Calls :
      (sid : ℕ) (port : Ofport) (vlans : Bitmap) (set : VlanSettings) (hw : F.Hw)
      → port.pid < 0x10000
      → vlans 0 ≡ false
      → Calls F hw (reconfigure F sid port vlans set hw).hw
  unfolding reconfigure apply_diff
  reconfigure-Calls sid port vlans set hw p16 no_vlan_0 =
      let vnew = wanted set in
      let vdiff = diff (vlan_fetch F sid port.pid hw) vnew in
      for_each_1-Calls F (λ st. vdiff) (apply_vidx F sid port.pid vlans vnew)
        (λ i st. apply_vidx-Calls sid port.pid vlans vnew i st p16 no_vlan_0) vmap_bits 0
        (record { hw = hw; vmap = empty })

  enable_vidx-Calls :
      (sid pid vid i : ℕ) (st : PortState F)
      → pid < 0x10000
      → 0 < vid
      → Calls F st.hw (enable_vidx F sid pid vid i st).hw
  unfolding enable_vidx
  enable_vidx-Calls sid pid vid i st p16 v1 = elim (Bool-cases (vidx_vid i == vid)) [
    | inl same ↦
        let positive : 0 < vidx_vid i = omega (arith, v1, (==_iff (vidx_vid i) vid).0 same) in
        rw same (vlan_add-Calls F L G R I sid pid i st.hw p16 positive)
    | inr other ↦ rw other Calls.start
  ]

  enable_port-Calls :
      (sid : ℕ) (port : Ofport) (vid : ℕ) (hw : F.Hw)
      → port.pid < 0x10000
      → 0 < vid
      → Calls F hw (enable_port F sid port vid hw).hw
  unfolding enable_port
  enable_port-Calls sid port vid hw p16 v1 =
      for_each_1-Calls F (λ st. st.vmap) (enable_vidx F sid port.pid vid)
        (λ i st. enable_vidx-Calls sid port.pid vid i st p16 v1) vmap_bits 0
        (record { hw = hw; vmap = port.vmap })

  disable_vidx-Calls :
      (sid pid vid i : ℕ) (st : PortState F) → Calls F st.hw (disable_vidx F sid pid vid i st).hw
  unfolding disable_vidx
  disable_vidx-Calls sid pid vid i st = elim (Bool-cases (vidx_vid i == vid)) [
    | inl same ↦ rw same (vlan_del-Calls F L G R I sid pid i st.hw)
    | inr other ↦ rw other Calls.start
  ]

  disable_port-Calls :
      (sid : ℕ) (port : Ofport) (vid : ℕ) (hw : F.Hw)
      → Calls F hw (disable_port F sid port vid hw).hw
  unfolding disable_port
  disable_port-Calls sid port vid hw =
      for_each_1-Calls F (λ st. vlan_fetch F sid port.ofp_port hw) (disable_vidx F sid port.pid vid)
        (λ i st. disable_vidx-Calls sid port.pid vid i st) vmap_bits 0
        (record { hw = hw; vmap = port.vmap })

  -- The switch by calls, and the ports still small.
  pub record Goes (st new : L2State F) : Type 0 where
    pub calls : Calls F st.hw new.hw
    pub small : AreSmall new.ports.nodes

  written-Goes :
      (sid vid : ℕ) (add : Bool) (pid : ℕ) (st : L2State F) (port : Ofport)
      → 0 < vid
      → port.pid < 0x10000
      → AreSmall st.ports.nodes
      → Goes st (written F sid vid add pid port st)
  written-Goes sid vid true pid st port v1 p16 small = record {
    calls = enable_port-Calls sid port vid st.hw p16 v1;
    small = set_ofport-AreSmall st.ports pid _ p16 small;
  }
  written-Goes sid vid false pid st port v1 p16 small = record {
    calls = disable_port-Calls sid port vid st.hw;
    small = set_ofport-AreSmall st.ports pid _ p16 small;
  }

  set_vlan_bundle-Goes :
      (sid vid : ℕ) (add : Bool) (pid : ℕ) (st : L2State F)
      → 0 < vid
      → AreSmall st.ports.nodes
      → Goes st (set_vlan_bundle F sid vid add pid st)
  set_vlan_bundle-Goes sid vid add pid st v1 small =
      elim (Option-cases (get_ofport_by_pid st.ports pid)) [
        | inl absent ↦
            subst (Goes st) (sym (bundle-none F sid vid add pid st absent))
              (record { calls = Calls.start; small = small })
        | inr (port, found) ↦ subst (Goes st) (sym (bundle-some F sid vid add pid st port found)) (
            written-Goes sid vid add pid st port v1
              (get_ofport_by_pid-small st.ports pid port found small) small)
      ]

  set_vlan_bundles-Goes :
      (sid vid : ℕ) (add : Bool) (pids : List ℕ) (st : L2State F)
      → 0 < vid
      → AreSmall st.ports.nodes
      → Goes st (set_vlan_bundles F sid vid add pids st)
  unfolding set_vlan_bundles
  set_vlan_bundles-Goes sid vid add [] st v1 small = record { calls = Calls.start; small = small }
  set_vlan_bundles-Goes sid vid add (pid ∷ pids) st v1 small =
      let first = set_vlan_bundle-Goes sid vid add pid st v1 small in
      let rest =
        set_vlan_bundles-Goes sid vid add pids (set_vlan_bundle F sid vid add pid st) v1
          first.small in
      record { calls = Calls-append F first.calls rest.calls; small = rest.small }

  pub set_vlan-Goes :
      (sid vid : ℕ) (add : Bool) (pids : List ℕ) (st : L2State F)
      → 0 < vid
      → AreSmall st.ports.nodes
      → Goes st (set_vlan F sid vid add pids st)
  unfolding set_vlan
  set_vlan-Goes sid vid add pids st v1 small =
      let all = set_vlan_bundles-Goes sid vid add pids st v1 small in
      record { calls = all.calls; small = all.small }
