-- ===== src/Ofproto/Vlans/OneBundle.antt =====
-- `ops_fpa_ofproto_set_vlan` of src/ops-fpa-ofproto.c, at one bundle: enabling a VLAN.
use switchd_fpa_plugin.Prelude.{
  ℕ, ◌<◌, ◌≡◌, refl, sym, ap, subst, ◌∙◌, Bool, true, false, not, ◌&&◌, ◌||◌, Option, none, some,
  List, [], ◌∷◌, arith, ◌==◌, any, Option-cases, inl, inr, if◌then◌else◌,
}
use switchd_fpa_plugin.Prelude.Bitmap.{Bitmap, empty}
use switchd_fpa_plugin.Fpa.{Fpa}
use switchd_fpa_plugin.Fpa.Laws.{FlowLaws, GroupLaws, FrameLaws, IdentLaws}
use switchd_fpa_plugin.Vlan.Vidx.{vidx_vid, vmap_bits}
use switchd_fpa_plugin.Vlan.Fetch.{l2_state}
use switchd_fpa_plugin.Ofproto.Ports.{Ofport, PortMap, get_ofport_by_pid, set_ofport}
use switchd_fpa_plugin.Ofproto.Ports.Found.{
  apart, get_ofport_by_pid-set_ofport, get_ofport_by_pid-set_ofport-apart,
}
use switchd_fpa_plugin.Ofproto.Vlans.{
  L2State, enable_port, disable_port, set_vlan_bundle, set_vlan_bundles,
}
use switchd_fpa_plugin.Ofproto.Vlans.Enable.{all_taken_in, enable_port-l2_state}

abbrev pub vmap_of : Option Ofport → Bitmap
vmap_of none = empty
vmap_of (some port) = port.vmap

-- The pending identifiers of the port with a number; none where there is no port.
abbrev pub pending : PortMap → ℕ → Bitmap
pending m pid = vmap_of (get_ofport_by_pid m pid)

-- The bundles stand for ports that have the numbers of the bundles, below 2^16, in buckets of
-- their own.
abbrev pub AreOwn : PortMap → List ℕ → Type 0
AreOwn m [] = Unit
AreOwn m (pid ∷ pids) =
    ((port : Ofport) → get_ofport_by_pid m pid ≡ some port → (port.pid ≡ pid) × (pid < 0x10000))
    × (any (λ q. not (apart m pid q)) pids ≡ false)
    × AreOwn m pids

on_none :
    {A : Type 0} {B : Type 0} (o : Option A) (b : B) (f : A → B)
    → o ≡ none
    → (elim o [ none ↦ b | some x ↦ f x ]) ≡ b
on_none o b f h = rw h refl

on_some :
    {A : Type 0} {B : Type 0} (o : Option A) (b : B) (f : A → B) (a : A)
    → o ≡ some a
    → (elim o [ none ↦ b | some x ↦ f x ]) ≡ f a
on_some o b f a h = rw h refl

module _ (F : Fpa) (sid vid : ℕ) where
  abbrev taken_in : Option Ofport → F.Hw → Bool
  taken_in none hw = true
  taken_in (some port) hw =
      all_taken_in F sid port.pid vid vmap_bits 0 (record { hw = hw; vmap = port.vmap })

  -- Every add on every port returns 0.
  unfoldable pub all_enabled : List ℕ → L2State F → Bool
  unfolding set_vlan_bundle
  all_enabled [] st = true
  all_enabled (pid ∷ pids) st =
      taken_in (get_ofport_by_pid st.ports pid) st.hw
      && all_enabled pids (set_vlan_bundle F sid vid true pid st)

module _ (F : Fpa) (sid vid : ℕ) (add : Bool) where
  -- The state after a bundle whose port is there.
  abbrev pub written : ℕ → Ofport → L2State F → L2State F
  written pid port st =
      let new =
        if add then enable_port F sid port vid st.hw else disable_port F sid port vid st.hw in
      record st { hw = new.hw; ports = set_ofport st.ports pid (record port { vmap = new.vmap }) }

  pub bundle-none :
      (pid : ℕ) (st : L2State F)
      → get_ofport_by_pid st.ports pid ≡ none
      → set_vlan_bundle F sid vid add pid st ≡ st
  unfolding set_vlan_bundle
  bundle-none pid st absent =
      on_none (get_ofport_by_pid st.ports pid) st (λ port. written pid port st) absent

  pub bundle-some :
      (pid : ℕ) (st : L2State F) (port : Ofport)
      → get_ofport_by_pid st.ports pid ≡ some port
      → set_vlan_bundle F sid vid add pid st ≡ written pid port st
  unfolding set_vlan_bundle
  bundle-some pid st port found =
      on_some (get_ofport_by_pid st.ports pid) st (λ port. written pid port st) port found

  bundle-vlans :
      (pid : ℕ) (st : L2State F) (v : ℕ)
      → (set_vlan_bundle F sid vid add pid st).vlans v ≡ st.vlans v
  bundle-vlans pid st v = elim (Option-cases (get_ofport_by_pid st.ports pid)) [
    | inl absent ↦ ap (λ (x : L2State F). x.vlans v) (bundle-none pid st absent)
    | inr (port, found) ↦ ap (λ (x : L2State F). x.vlans v) (bundle-some pid st port found)
  ]

  -- The loop does not touch the VLANs of the ofproto.
  pub bundles-vlans :
      (pids : List ℕ) (st : L2State F) (v : ℕ)
      → (set_vlan_bundles F sid vid add pids st).vlans v ≡ st.vlans v
  unfolding set_vlan_bundles
  bundles-vlans [] st v = refl
  bundles-vlans (pid ∷ pids) st v =
      bundles-vlans pids (set_vlan_bundle F sid vid add pid st) v ∙ bundle-vlans pid st v

module _ (F : Fpa) (L : FlowLaws F) (G : GroupLaws F) (R : FrameLaws F L G) (I : IdentLaws F)
    (sid vid : ℕ) where
  -- One bundle.
  pub record Enabled (pid : ℕ) (st new : L2State F) : Type 0 where
    pub bits :
        (s p j : ℕ)
        → j < vmap_bits
        → l2_state F L G s p new.hw j ≡ (
            s == sid && p == pid && pending st.ports pid j && vidx_vid j == vid
            || l2_state F L G s p st.hw j)
    pub own :
        (j : ℕ)
        → j < vmap_bits
        → pending new.ports pid j ≡ (pending st.ports pid j && not (vidx_vid j == vid))
    pub mask : new.ports.mask ≡ st.ports.mask
    pub apart_kept :
        (q : ℕ)
        → apart st.ports pid q ≡ true
        → get_ofport_by_pid new.ports q ≡ get_ofport_by_pid st.ports q

  written-Enabled :
      (pid : ℕ) (st : L2State F) (port : Ofport)
      → get_ofport_by_pid st.ports pid ≡ some port
      → port.pid ≡ pid
      → pid < 0x10000
      → taken_in F sid vid (some port) st.hw ≡ true
      → Enabled pid st (written F sid vid true pid port st)
  unfolding set_ofport
  written-Enabled pid st port found same p16 ok =
      let at = λ (s p j : ℕ).
        enable_port-l2_state F L G R I sid port vid st.hw s p j (omega (arith, same)) ok in
      record {
        bits = λ s p j lt. ground (arith, found, (at s p j lt).1, same);
        own = λ j lt. ground (
          arith,
          found,
          get_ofport_by_pid-set_ofport st.ports pid
              (record port { vmap = (enable_port F sid port vid st.hw).vmap }) port found,
          (at 0 0 j lt).0,
        );
        mask = refl;
        apart_kept = λ q h. get_ofport_by_pid-set_ofport-apart st.ports pid q _ h;
      }

  pub bundle-Enabled :
      (pid : ℕ) (st : L2State F)
      → ((port : Ofport)
          → get_ofport_by_pid st.ports pid ≡ some port
          → (port.pid ≡ pid) × (pid < 0x10000))
      → taken_in F sid vid (get_ofport_by_pid st.ports pid) st.hw ≡ true
      → Enabled pid st (set_vlan_bundle F sid vid true pid st)
  bundle-Enabled pid st own ok = elim (Option-cases (get_ofport_by_pid st.ports pid)) [
    | inl absent ↦ subst (Enabled pid st) (sym (bundle-none F sid vid true pid st absent)) (record {
      bits = λ s p j lt. ground (arith, absent);
      own = λ j lt. ground (arith, absent);
      mask = refl;
      apart_kept = λ q h. refl;
    })
    | inr (port, found) ↦
        let (same, p16) = own port found in
        subst (Enabled pid st) (sym (bundle-some F sid vid true pid st port found)) (
          written-Enabled pid st port found same p16
            (ap (λ o. taken_in F sid vid o st.hw) (sym found) ∙ ok))
  ]
