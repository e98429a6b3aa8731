-- ===== src/Ofproto/Vlans/Everywhere.antt =====
-- `ops_fpa_ofproto_set_vlan` of src/ops-fpa-ofproto.c, over all bundles: enabling a VLAN.
use switchd_fpa_plugin.Prelude.{
  ℕ, ◌<◌, ◌≡◌, refl, sym, ap, ◌∙◌, Bool, true, false, not, ◌&&◌, ◌||◌, List, [], ◌∷◌, arith, ◌==◌,
  ==_iff, any, bit_and, Bool-cases, inl, inr,
}
use switchd_fpa_plugin.Fpa.{Fpa}
use switchd_fpa_plugin.Fpa.Laws.{FlowLaws, GroupLaws, FrameLaws, IdentLaws}
use switchd_fpa_plugin.Vlan.Vidx.{vidx_vid, vmap_bits}
use switchd_fpa_plugin.Vlan.Fetch.{l2_state}
use switchd_fpa_plugin.Ofproto.Ports.{PortMap, get_ofport_by_pid}
use switchd_fpa_plugin.Ofproto.Ports.Found.{apart}
use switchd_fpa_plugin.Ofproto.Vlans.{L2State, set_vlan_bundle, set_vlan_bundles, set_vlan}
use switchd_fpa_plugin.Ofproto.Vlans.OneBundle.{
  vmap_of, pending, AreOwn, all_enabled, bundle-Enabled, bundles-vlans,
}

under : (c a b : Bool) → (c ≡ true → a ≡ b) → (c && a) ≡ (c && b)
under true a b h = h refl
under false a b h = refl

apart_sym : (m : PortMap) (a b : ℕ) → apart m b a ≡ apart m a b
apart_sym m a b = ground arith

-- What is left to do on further bundles is as it was.
AreOwn-kept :
    (m m' : PortMap) (pid : ℕ) (pids : List ℕ)
    → m'.mask ≡ m.mask
    → ((q : ℕ) → apart m pid q ≡ true → get_ofport_by_pid m' q ≡ get_ofport_by_pid m q)
    → any (λ q. not (apart m pid q)) pids ≡ false
    → AreOwn m pids
    → AreOwn m' pids
AreOwn-kept m m' pid [] mask kept off own = tt
AreOwn-kept m m' pid (q ∷ qs) mask kept off own =
    let here : get_ofport_by_pid m' q ≡ get_ofport_by_pid m q = kept q (ground (arith, off)) in
    (
      λ port found. own.0 port (sym here ∙ found),
      ap (λ k. any (λ r. not (not (bit_and q k == bit_and r k))) qs) mask ∙ own.1,
      AreOwn-kept m m' pid qs mask kept (ground (arith, off)) own.2,
    )

-- A bundle among others whose buckets differ from that of `pid` is none that is `pid`.
listed_apart :
    (m : PortMap) (pid q : ℕ) (pids : List ℕ)
    → any (λ r. not (apart m pid r)) pids ≡ false
    → any (λ r. q == r) pids ≡ true
    → apart m pid q ≡ true
listed_apart m pid q [] off there = cc
listed_apart m pid q (r ∷ rs) off there = elim (Bool-cases (q == r)) [
  | inl same ↦ rw ((==_iff q r).0 same) (ground (arith, off))
  | inr differ ↦ listed_apart m pid q rs (ground (arith, off)) (ground (arith, differ, there))
]

module _ (F : Fpa) (L : FlowLaws F) (G : GroupLaws F) (R : FrameLaws F L G) (I : IdentLaws F)
    (sid vid : ℕ) where
  -- The port of a number in a bucket of its own is left.
  bundles-apart :
      (p : ℕ) (pids : List ℕ) (st : L2State F)
      → any (λ q. not (apart st.ports p q)) pids ≡ false
      → AreOwn st.ports pids
      → all_enabled F sid vid pids st ≡ true
      → get_ofport_by_pid (set_vlan_bundles F sid vid true pids st).ports p
        ≡ get_ofport_by_pid st.ports p
  unfolding set_vlan_bundles all_enabled
  bundles-apart p [] st off own ok = refl
  bundles-apart p (pid ∷ pids) st off own ok =
      let one = bundle-Enabled F L G R I sid vid pid st own.0 (ground (arith, ok)) in
      let st1 = set_vlan_bundle F sid vid true pid st in
      let kept = AreOwn-kept st.ports st1.ports pid pids one.mask one.apart_kept own.1 own.2 in
      let off1 : any (λ q. not (apart st1.ports p q)) pids ≡ false =
        ap (λ k. any (λ q. not (not (bit_and p k == bit_and q k))) pids) one.mask
        ∙ ground (arith, off) in
      bundles-apart p pids st1 off1 kept (ground (arith, ok))
      ∙ one.apart_kept p (apart_sym st.ports p pid ∙ ground (arith, off))

  bundles-l2_state :
      (pids : List ℕ) (st : L2State F) (s p j : ℕ)
      → AreOwn st.ports pids
      → all_enabled F sid vid pids st ≡ true
      → j < vmap_bits
      → let new = set_vlan_bundles F sid vid true pids st in
        (l2_state F L G s p new.hw j ≡ (
          s == sid && any (λ q. p == q) pids && pending st.ports p j && vidx_vid j == vid
          || l2_state F L G s p st.hw j))
        × (any (λ q. p == q) pids ≡ true
            → pending new.ports p j ≡ (pending st.ports p j && not (vidx_vid j == vid)))
  unfolding set_vlan_bundles all_enabled
  bundles-l2_state [] st s p j own ok lt = (ground arith, λ h. cc)
  bundles-l2_state (pid ∷ pids) st s p j own ok lt =
      let one = bundle-Enabled F L G R I sid vid pid st own.0 (ground (arith, ok)) in
      let st1 = set_vlan_bundle F sid vid true pid st in
      let kept = AreOwn-kept st.ports st1.ports pid pids one.mask one.apart_kept own.1 own.2 in
      let rest = bundles-l2_state pids st1 s p j kept (ground (arith, ok)) lt in
      let far : any (λ q. p == q) pids ≡ true → pending st1.ports p j ≡ pending st.ports p j =
        λ h. ap (λ o. vmap_of o j) (one.apart_kept p (listed_apart st.ports pid p pids own.1 h)) in
      let off1 : any (λ q. not (apart st1.ports pid q)) pids ≡ false =
        ap (λ k. any (λ q. not (not (bit_and pid k == bit_and q k))) pids) one.mask ∙ own.1 in
      let left : pending (set_vlan_bundles F sid vid true pids st1).ports pid j
          ≡ pending st1.ports pid j =
        ap (λ o. vmap_of o j) (bundles-apart pid pids st1 off1 kept (ground (arith, ok))) in
      elim (Bool-cases (p == pid)) [
        | inl same ↦
            let e : p ≡ pid = (==_iff p pid).0 same in
            let own_p : pending st.ports p j ≡ pending st.ports pid j =
              ap (λ q. pending st.ports q j) e in
            (
              ground (arith, same, own_p, rest.0, far, one.bits s p j lt),
              λ h.
                  ap (λ q. pending (set_vlan_bundles F sid vid true pids st1).ports q j) e
                  ∙ left
                  ∙ one.own j lt
                  ∙ ap (λ b. b && not (vidx_vid j == vid)) (sym own_p),
            )
        | inr differ ↦ (
          ground (arith, differ, rest.0, far, one.bits s p j lt),
          λ h. ground (arith, differ, h, rest.1, far),
        )
      ]

module _ (F : Fpa) (L : FlowLaws F) (G : GroupLaws F) (R : FrameLaws F L G) (I : IdentLaws F) where
  -- Enabling a VLAN on all bundles of an ofproto whose port numbers are below 2^16 and whose
  -- ports, each with the number of its bundle, stand in places of their own in the map, where
  -- every add returns 0: each bundle's port gets in the switch exactly its pending identifiers of
  -- the VLAN, beside what the switch held for it, and they are not pending any more; a port of no
  -- bundle, and any port of another switch, has in the switch what it had; and the VLAN is
  -- enabled, beside those that were.
  pub set_vlan-l2_state :
      (sid vid : ℕ) (pids : List ℕ) (st : L2State F) (s p j v : ℕ)
      → AreOwn st.ports pids
      → all_enabled F sid vid pids st ≡ true
      → j < vmap_bits
      → let new = set_vlan F sid vid true pids st in
        (l2_state F L G s p new.hw j ≡ (
          s == sid && any (λ q. p == q) pids && pending st.ports p j && vidx_vid j == vid
          || l2_state F L G s p st.hw j))
        × ((any (λ q. p == q) pids && pending new.ports p j)
            ≡ (any (λ q. p == q) pids && (pending st.ports p j && not (vidx_vid j == vid))))
        × (new.vlans v ≡ (v == vid || st.vlans v))
  unfolding set_vlan
  set_vlan-l2_state sid vid pids st s p j v own ok lt =
      let (bits, left) = bundles-l2_state F L G R I sid vid pids st s p j own ok lt in
      (
        bits,
        under (any (λ q. p == q) pids) _ _ left,
        ground (arith, bundles-vlans F sid vid true pids st v),
      )
