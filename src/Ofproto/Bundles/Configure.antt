-- ===== src/Ofproto/Bundles/Configure.antt =====
-- The steps of `ops_fpa_ofproto_bundle_set` of src/ops-fpa-ofproto.c for an ofproto that does not
-- route: the bundle and its port are found or created, and the VLANs are applied.
use switchd_fpa_plugin.Ofproto.Hosts.{HostKey}
use switchd_fpa_plugin.Prelude.{
  ℕ, ◌≡◌, refl, ap, Bool, true, false, Option, none, some, ◌==◌, ==_refl, if◌then◌else◌,
}
use switchd_fpa_plugin.Fpa.{Fpa}
use switchd_fpa_plugin.Os.{Os}
use switchd_fpa_plugin.Strings.{Chars}
use switchd_fpa_plugin.Netdev.{NetdevClass, bytes_eq}
use switchd_fpa_plugin.MacLearning.{Env}
use switchd_fpa_plugin.Ofproto.Ports.{Ofport, get_ofport_by_pid, set_ofport}
use switchd_fpa_plugin.Ofproto.Vlans.{reconfigure}
use switchd_fpa_plugin.Ofproto.Hosts.{HostState}
use switchd_fpa_plugin.Ofproto.Bundles.{
  FpaBundle, OfprotoType, BundleSettings, find_bundle, set_bundle,
}
use switchd_fpa_plugin.Ofproto.Bundles.Set.{
  OfprotoState, create_bundle, set_l2, configure, bundle_set,
}
use switchd_fpa_plugin.Ofproto.Ports.Found.{IsAloneAt, get_ofport_by_pid-insert_ofport}
use switchd_fpa_plugin.Ofproto.Bundles.Found.{find_bundle-aux}

abbrev pub is_vrf : OfprotoType → Bool
is_vrf OfprotoType.vrf = true
is_vrf k = false

-- Two tests that fail, and a search that succeeds.
passes :
    {A : Type 0} {B : Type 0} (c d : Bool) (o : Option A) (r : Option B) (f : A → Option B) (a : A)
    → c ≡ false
    → d ≡ false
    → o ≡ some a
    → (if c then r else if d then r else (elim o [ none ↦ none | some x ↦ f x ])) ≡ f a
passes c d o r f a hc hd ho = rw (hc, hd, ho) refl

module _ (F : Fpa) (O : Os) (key : HostKey) (E : Env) (inet_addr : Chars → ℕ) where
  -- The bundle, found or created, stands for the port; a new one for a port whose bucket has no
  -- other port.
  abbrev pub IsFor : Option FpaBundle → BundleSettings → HostState F → Ofport → Type 0
  IsFor none set st port =
      (class : NetdevClass) × (set.slave ≡ some (port, class))
      × ((port.pid == F.invalid_intf_id) ≡ false)
      × IsAloneAt E.hmap st.ports port.pid port
  IsFor (some b) set st port =
      ((b.base.intf_id == F.invalid_intf_id) ≡ false)
      × (get_ofport_by_pid st.ports b.base.intf_id ≡ some port)

  -- Both are in place: the port under the number of the bundle, and the bundle under `aux`.
  pub record Placed (aux : ℕ) (b : FpaBundle) (port : Ofport)
      (st : OfprotoState F O key E inet_addr) : Type 0 where
    pub valid : (b.base.intf_id == F.invalid_intf_id) ≡ false
    pub port_found : get_ofport_by_pid st.host.ports b.base.intf_id ≡ some port
    pub bundle_found : (old : FpaBundle) × (find_bundle aux st.bundles ≡ some old)
    pub key_kept : b.aux ≡ aux

  -- What the part for the other types leaves behind.
  abbrev pub after_l2 :
      BundleSettings
      → FpaBundle
      → Ofport
      → OfprotoState F O key E inet_addr
      → OfprotoState F O key E inet_addr
  after_l2 set b port st =
      let new = reconfigure F st.switch_id port st.vlans set.vlans st.host.hw in
      record st {
        host = record st.host {
          hw = new.hw;
          ports = set_ofport st.host.ports b.base.intf_id (record port { vmap = new.vmap });
        };
        bundles = set_bundle b st.bundles;
      }

  set_l2-reconfigure :
      (set : BundleSettings) (b : FpaBundle) (port : Ofport) (st : OfprotoState F O key E inet_addr)
      (aux : ℕ)
      → bytes_eq st.name set.name ≡ false
      → Placed aux b port st
      → set_l2 F O key E inet_addr set st b st.host ≡ some (after_l2 set b port st).host
  unfolding set_l2
  set_l2-reconfigure set b port st aux external placed =
      passes (b.base.intf_id == F.invalid_intf_id) (bytes_eq st.name set.name)
        (get_ofport_by_pid st.host.ports b.base.intf_id) (some st.host)
        (λ p. some (after_l2 set b p st).host) port placed.valid external placed.port_found

  -- Either of the two types that do not route.
  l2_done :
      (set : BundleSettings) (b : FpaBundle) (port : Ofport) (st : OfprotoState F O key E inet_addr)
      (aux : ℕ)
      → bytes_eq st.name set.name ≡ false
      → Placed aux b port st
      → (elim (set_l2 F O key E inet_addr set st b st.host)
          as (λ x. Option (ℕ × OfprotoState F O key E inet_addr)) [
            | none ↦ none
            | some host ↦ some (0, record st { host = host; bundles = set_bundle b st.bundles })
          ])
        ≡ some (0, after_l2 set b port st)
  l2_done set b port st aux external placed =
      ap
        (λ (h : Option (HostState F)).
          elim h as (λ x. Option (ℕ × OfprotoState F O key E inet_addr)) [
            | none ↦ none
            | some host ↦ some (0, record st { host = host; bundles = set_bundle b st.bundles })
          ])
        (set_l2-reconfigure set b port st aux external placed)

  pub configure-l2 :
      (set : BundleSettings) (b : FpaBundle) (port : Ofport) (st : OfprotoState F O key E inet_addr)
      (aux : ℕ)
      → is_vrf st.kind ≡ false
      → bytes_eq st.name set.name ≡ false
      → Placed aux b port st
      → configure F O key E inet_addr set b st ≡ some (0, after_l2 set b port st)
  unfolding configure
  configure-l2 set b port st aux l2 external placed = by_kind st.kind l2
    where
      at : (k : OfprotoType) → Placed aux b port (record st { kind = k })
      at k = record {
        valid = placed.valid;
        port_found = placed.port_found;
        bundle_found = placed.bundle_found;
        key_kept = placed.key_kept;
      }

      by_kind :
          (k : OfprotoType)
          → is_vrf k ≡ false
          → configure F O key E inet_addr set b (record st { kind = k })
            ≡ some (0, after_l2 set b port (record st { kind = k }))
      by_kind OfprotoType.system e =
          l2_done set b port (record st { kind = OfprotoType.system }) aux external
            (at OfprotoType.system)
      by_kind OfprotoType.vrf e = cc
      by_kind OfprotoType.other e =
          l2_done set b port (record st { kind = OfprotoType.other }) aux external
            (at OfprotoType.other)

  -- The bundle and the state on which the function goes on: those that were there, or new ones.
  abbrev pub begins :
      ℕ
      → BundleSettings
      → Option FpaBundle
      → OfprotoState F O key E inet_addr
      → FpaBundle × OfprotoState F O key E inet_addr
  begins aux set (some b) st = (record b { name = some set.name }, st)
  begins aux set none st =
      let made = create_bundle F O key E inet_addr aux set st in
      (record made.0 { name = some set.name }, made.1)

  -- Creating keeps what the rest depends on.
  pub begins-Placed :
      (aux : ℕ) (set : BundleSettings) (port : Ofport) (st : OfprotoState F O key E inet_addr)
      (o : Option FpaBundle)
      → find_bundle aux st.bundles ≡ o
      → IsFor o set st.host port
      → Placed aux (begins aux set o st).0 port (begins aux set o st).1
  unfolding create_bundle find_bundle
  begins-Placed aux set port st none h is = record {
    valid = rw is.1 is.2;
    port_found =
        rw (is.1, is.2) (get_ofport_by_pid-insert_ofport E.hmap st.host.ports port.pid port is.3);
    bundle_found = ((create_bundle F O key E inet_addr aux set st).0, rw (==_refl aux) refl);
    key_kept = refl;
  }
  begins-Placed aux set port st (some b) h is = record {
    valid = is.0;
    port_found = is.1;
    bundle_found = (b, h);
    key_kept = find_bundle-aux aux b st.bundles h;
  }

  pub bundle_set-configure :
      (aux : ℕ) (set : BundleSettings) (st : OfprotoState F O key E inet_addr)
      (o : Option FpaBundle)
      → set.n_slaves ≡ 1
      → find_bundle aux st.bundles ≡ o
      → bundle_set F O key E inet_addr aux (some set) st
        ≡ configure F O key E inet_addr set (begins aux set o st).0 (begins aux set o st).1
  unfolding bundle_set
  bundle_set-configure aux set st none one h = rw (one, h) refl
  bundle_set-configure aux set st (some b) one h = rw (one, h) refl
