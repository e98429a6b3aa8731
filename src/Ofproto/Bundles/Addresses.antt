-- ===== src/Ofproto/Bundles/Addresses.antt =====
-- What `bundle_ip_reconfigure` of src/ops-fpa-ofproto.c does for a primary address.
use switchd_fpa_plugin.Ofproto.Hosts.{HostKey}
use switchd_fpa_plugin.Prelude.{
  ℕ, ◌≡◌, refl, ap, ◌∙◌, true, Option, none, some, [], ◌∷◌, arith, Bool-cases, Option-cases, inl,
  inr,
}
use switchd_fpa_plugin.Fpa.{Fpa}
use switchd_fpa_plugin.Strings.{Chars}
use switchd_fpa_plugin.Netdev.{bytes_eq}
use switchd_fpa_plugin.MacLearning.{Env}
use switchd_fpa_plugin.Ofproto.Hosts.{
  HostState, add_l3_host_entry, delete_l3_host_entry, host_of, host_table_find,
}
use switchd_fpa_plugin.Ofproto.Bundles.{
  FpaBundle, IpSettings, parse, add_ip, delete_ip, primary_reconfigure, bundle_ip_reconfigure,
}

bytes_eq→≡ : (s t : Chars) → bytes_eq s t ≡ true → s ≡ t
bytes_eq→≡ [] [] h = refl
bytes_eq→≡ [] (d ∷ t) h = cc
bytes_eq→≡ (c ∷ s) [] h = cc
bytes_eq→≡ (c ∷ s) (d ∷ t) h =
    let tail : bytes_eq s t ≡ true = ground (arith, h) in
    let head : c ≡ d = ground (arith, h) in cc (bytes_eq→≡ s t tail, head)

module _ (F : Fpa) (key : HostKey) (E : Env) (inet_addr : Chars → ℕ) where
  -- No host has the address.
  abbrev pub NoHost : Chars → HostState F → Type 0
  NoHost address st =
      (a : ℕ)
      → host_of F (parse F key E inet_addr address) ≡ some a
      → host_table_find key a st.host_table ≡ none

  add_ip-refused :
      (address : Chars) (b : FpaBundle) (st : HostState F)
      → add_ip F key E inet_addr address b st ≡ some (b, st)
  unfolding add_ip add_l3_host_entry
  add_ip-refused address b st = refl

  delete_ip-refused :
      (address : Chars) (b : FpaBundle) (st : HostState F)
      → NoHost address st
      → delete_ip F key E inet_addr address b st ≡ (b, st)
  unfolding delete_ip delete_l3_host_entry
  delete_ip-refused address b st absent = elim (Option-cases b.base.l3_intf) [
    | inl off ↦ ground (arith, off)
    | inr on ↦ elim (Option-cases (host_of F (parse F key E inet_addr address))) [
      | inl other ↦ ground (arith, on.1, other)
      | inr host ↦ ground (arith, on.1, host.1, absent host.0 host.1)
    ]
  ]

  primary-refused :
      (new old : Option Chars) (b : FpaBundle) (st : HostState F)
      → b.ip4addr ≡ old
      → ((address : Chars) → old ≡ some address → NoHost address st)
      → primary_reconfigure F key E inet_addr new old b st ≡ some (record b { ip4addr = new }, st)
  unfolding primary_reconfigure
  primary-refused none none b st e absent = ap (λ p. some (record b { ip4addr = p }, st)) e
  primary-refused none (some a) b st e absent =
      ap (λ r. some (record r.0 { ip4addr = none }, r.1)) (delete_ip-refused a b st (absent a refl))
  primary-refused (some n) none b st e absent = add_ip-refused n (record b { ip4addr = some n }) st
  primary-refused (some n) (some a) b st e absent =
      let gone = delete_ip-refused a b st (absent a refl) in
      elim (Bool-cases (bytes_eq a n)) [
        | inl same ↦
            rw same
              (ap (λ p. some (record b { ip4addr = p }, st)) (e ∙ ap some (bytes_eq→≡ a n same)))
        | inr differ ↦ rw differ (
            ap (λ r. add_ip F key E inet_addr n (record r.0 { ip4addr = some n }) r.1) gone
            ∙ add_ip-refused n (record b { ip4addr = some n }) st)
      ]

  -- Where the primary address of a bundle has changed and no host has the old one, reconfiguring
  -- records the new address, or that there is none, and changes nothing else: no entry for the
  -- address is added to the switch.
  pub bundle_ip_reconfigure-primary :
      (set : IpSettings) (b : FpaBundle) (st : HostState F)
      → set.primary_ipv4_changed ≡ true
      → ((address : Chars) → b.ip4addr ≡ some address → NoHost address st)
      → bundle_ip_reconfigure F key E inet_addr set b st
        ≡ some (record b { ip4addr = set.ip4_address }, st)
  unfolding bundle_ip_reconfigure
  bundle_ip_reconfigure-primary set b st primary absent =
      rw primary (primary-refused set.ip4_address b.ip4addr b st refl absent)
