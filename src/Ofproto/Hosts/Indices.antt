-- ===== src/Ofproto/Hosts/Indices.antt =====
-- Who owns a next-hop index: the free list or one host.
use switchd_fpa_plugin.Ofproto.Hosts.{HostKey}
use switchd_fpa_plugin.Prelude.{
  ◌≢◌, ℕ, ◌≡◌, refl, sym, ◌∙◌, subst, Bool, true, false, Option, some, List, [], ◌∷◌, arith, ◌==◌,
  ==_iff, ◌⊎◌, Bool-cases, Option-cases, inl, inr, length, get_or, set, any, find, length-set,
}
use switchd_fpa_plugin.Fpa.{Fpa}
use switchd_fpa_plugin.Route.{add_l2_group, add_l3_group, add_route, del_group}
use switchd_fpa_plugin.Routing.{L3Intf}
use switchd_fpa_plugin.MacLearning.{Env}
use switchd_fpa_plugin.Ofproto.Ports.{get_ofport_by_pid}
use switchd_fpa_plugin.Ofproto.ArpIndices.{
  release_arp_index, IsFreeList, taken, alloc_arp_index-cons, alloc_arp_index-nil,
  release_arp_index-IsFreeList,
}
use switchd_fpa_plugin.Ofproto.Hosts.{
  HostEntry, HostNode, HostState, HostResult, Bundle, NextHopMac, host_table_add, host_table_find,
  host_table_delete, is_host, install_host, remove_host, uncount_route, find_egress, host_of,
  add_l3_host_entry, delete_l3_host_entry,
}
use switchd_fpa_plugin.Ofproto.Hosts.Owned.{
  holds, AreOwned-perm, AreOwned, AreOwned-less, AreOwned-more, host_table_delete-AreOwned,
}

module _ (F : Fpa) where
  -- Of the next-hop indices those of `free` are free, and no host has one of them or that of
  -- another host.
  pub record IsSeparate (free : List ℕ) (st : HostState F) : Type 0 where
    pub free_list : IsFreeList st.arp_indices free
    pub owned : AreOwned (length st.arp_indices) free st.host_table

  length-taken : (a : List ℕ) (x : ℕ) → length (taken a x) ≡ length a
  length-taken a x = length-set (set a 0 (get_or a x 0)) x 0 ∙ length-set a 0 (get_or a x 0)

  -- The index that has been taken, without a host and with one.
  taken-IsSeparate :
      (x : ℕ) (xs : List ℕ) (st : HostState F) (hw : F.Hw)
      → IsSeparate (x ∷ xs) st
      → IsSeparate xs (record st { hw = hw; arp_indices = taken st.arp_indices x })
  taken-IsSeparate x xs st hw sep = record {
    free_list = (alloc_arp_index-cons st.arp_indices x xs sep.free_list).1;
    owned =
        rw (length-taken st.arp_indices x)
          (AreOwned-less (length st.arp_indices) x xs st.host_table sep.owned).0;
  }

  added-IsSeparate :
      (key : HostKey) (ip x l3 l2 : ℕ) (xs : List ℕ) (st : HostState F) (hw : F.Hw)
      → IsSeparate (x ∷ xs) st
      → let table = host_table_add key ip x l3 l2 st.host_mask st.host_table in
        IsSeparate xs (record st {
          hw = hw;
          arp_indices = taken st.arp_indices x;
          host_mask = table.0;
          host_table = table.1;
        })
  unfolding host_table_add
  added-IsSeparate key ip x l3 l2 xs st hw sep =
      let less = AreOwned-less (length st.arp_indices) x xs st.host_table sep.owned in
      let n : HostNode = record {
        hash = key.hash ip;
        entry = record { ipv4_addr = ip; arp_index = x; l3_group = l3; l2_group = l2 };
      } in
      record {
        free_list = (alloc_arp_index-cons st.arp_indices x xs sep.free_list).1;
        owned =
            subst (λ k. AreOwned k xs (host_table_add key ip x l3 l2 st.host_mask st.host_table).1)
              (sym (length-taken st.arp_indices x))
              (AreOwned-perm (length st.arp_indices) xs
                (key.hmap.insert-perm (λ (m : HostNode). m.hash) st.host_mask n st.host_table)
                (sep.free_list.1.1, sep.free_list.1.2, sep.free_list.1.3, less.1, less.0));
      }

  pub install_host-IsSeparate :
      (key : HostKey) (intf : L3Intf) (egress mtu src dst ip : ℕ) (free : List ℕ) (st : HostState F)
      → IsSeparate free st
      → (left : List ℕ) × IsSeparate left (install_host F key intf egress mtu src dst ip st).1
  unfolding install_host
  install_host-IsSeparate key intf egress mtu src dst ip [] st sep =
      ([], ground (arith, sep, alloc_arp_index-nil st.arp_indices sep.free_list))
  install_host-IsSeparate key intf egress mtu src dst ip (x ∷ xs) st sep =
      let l2 = add_l2_group F intf.switch_id egress intf.vlan_id false st.hw in
      let l3 = add_l3_group F intf.switch_id l2.1 x intf.vlan_id mtu src dst l2.2 in
      let route = add_route F intf.switch_id l3.1 ip 32 l3.2 in
      let taken_at = alloc_arp_index-cons st.arp_indices x xs sep.free_list in
      elim (Bool-cases (l2.0 == 0)) [
        | inr refused ↦
            (x ∷ xs, rw refused (record { free_list = sep.free_list; owned = sep.owned }))
        | inl grouped ↦ (
          xs,
          rw (grouped, taken_at.0)
              (elim (Bool-cases (l3.0 == 0)) [
                | inr refused ↦
                    rw refused
                      (taken-IsSeparate x xs st (del_group F intf.switch_id l2.1 l3.2).1 sep)
                | inl joined ↦ elim (Bool-cases (route.0 == 0)) [
                  | inr refused ↦
                      rw (joined, refused)
                        (taken-IsSeparate x xs st
                          (del_group F intf.switch_id l3.1
                            (del_group F intf.switch_id l2.1 route.1).1).1
                          sep)
                  | inl routed ↦
                      rw (joined, routed) (added-IsSeparate key ip x l3.1 l2.1 xs st route.1 sep)
                ]
              ]),
        )
      ]

  kept :
      (free : List ℕ) (st new : HostState F)
      → IsSeparate free st
      → new ≡ st
      → (left : List ℕ) × IsSeparate left new
  kept free st new sep same = (free, subst (IsSeparate free) (sym same) sep)

  -- Adding a host, where no next-hop index is both free and a host's and no two hosts share one:
  -- the same holds afterwards, whatever status the call returns.
  add_l3_host_entry-IsSeparate :
      (key : HostKey) (E : Env) (bundle : Bundle) (is_ipv6 : Bool) (ip_addr : Option (ℕ × ℕ))
      (next_hop : NextHopMac) (egress : ℕ) (free : List ℕ) (st : HostState F) (done : HostResult F)
      → IsSeparate free st
      → add_l3_host_entry F key E bundle is_ipv6 ip_addr next_hop egress st ≡ some done
      → (left : List ℕ) × IsSeparate left done.state
  unfolding add_l3_host_entry
  add_l3_host_entry-IsSeparate key E bundle is_ipv6 ip_addr NextHopMac.null egress free st done sep
        ok =
      kept free st done.state sep (ground (arith, ok))
  add_l3_host_entry-IsSeparate key E bundle is_ipv6 ip_addr NextHopMac.bad egress free st done sep
        ok =
      kept free st done.state sep (elim (Bool-cases is_ipv6) [
        | inl v6 ↦ ground (arith, ok, v6)
        | inr v4 ↦ elim (Option-cases bundle.l3_intf) [
          | inl off ↦ ground (arith, ok, v4, off)
          | inr on ↦ elim (Option-cases (get_ofport_by_pid st.ports bundle.intf_id)) [
            | inl unknown ↦ ground (arith, ok, v4, on.1, unknown)
            | inr known ↦ ground (arith, ok, v4, on.1, known.1)
          ]
        ]
      ])
  add_l3_host_entry-IsSeparate key E bundle is_ipv6 ip_addr (NextHopMac.eth_addr mac) egress free st
        done sep ok =
      elim (Bool-cases is_ipv6) [
        | inl v6 ↦ kept free st done.state sep (ground (arith, ok, v6))
        | inr v4 ↦ elim (Option-cases bundle.l3_intf) [
          | inl off ↦ kept free st done.state sep (ground (arith, ok, v4, off))
          | inr on ↦ elim (Option-cases (get_ofport_by_pid st.ports bundle.intf_id)) [
            | inl unknown ↦ ground (arith, ok, v4, on.1, unknown)
            | inr known ↦ elim (Option-cases (find_egress F E on.0 mac st)) [
              | inl lost ↦ ground (arith, ok, v4, on.1, known.1, lost)
              | inr out ↦ elim (Bool-cases (out.0.0 == 0)) [
                | inr failed ↦
                    kept free st done.state sep
                      (ground (arith, ok, v4, on.1, known.1, out.1, failed))
                | inl good ↦ elim (Option-cases (host_of F ip_addr)) [
                  | inl no_host ↦
                      kept free st done.state sep
                        (ground (arith, ok, v4, on.1, known.1, out.1, good, no_host))
                  | inr host ↦
                      let put =
                        install_host-IsSeparate key on.0 out.0.1 known.0.mtu known.0.mac mac host.0
                          free st sep in
                      (
                        put.0,
                        subst (IsSeparate put.0)
                            (ground (arith, ok, v4, on.1, known.1, out.1, good, host.1)) put.1,
                      )
                ]
              ]
            ]
          ]
        ]
      ]

  pub remove_host-IsSeparate :
      (key : HostKey) (sid ip : ℕ) (n : HostNode) (free : List ℕ) (st : HostState F)
      → find (is_host key ip) st.host_table ≡ some n
      → n.entry.ipv4_addr ≡ ip
      → IsSeparate free st
      → IsSeparate (n.entry.arp_index ∷ free) (remove_host F key sid n.entry st)
  unfolding remove_host
  remove_host-IsSeparate key sid ip n free st found same sep =
      let gone =
        host_table_delete-AreOwned key ip (length st.arp_indices) free st.host_table n found
          sep.owned in
      record {
        free_list =
            release_arp_index-IsFreeList n.entry.arp_index st.arp_indices free gone.0 gone.1 gone.2
              sep.free_list;
        owned =
            subst
              (λ k.
                AreOwned k (n.entry.arp_index ∷ free)
                  (host_table_delete key n.entry.ipv4_addr st.host_table))
              (sym (length-release n.entry.arp_index st.arp_indices))
              (rw same (
                AreOwned-more (length st.arp_indices) n.entry.arp_index free
                  (host_table_delete key ip st.host_table) gone.3 gone.5));
      }
    where
      length-release : (x : ℕ) (a : List ℕ) → length (release_arp_index x a) ≡ length a
      length-release x a = length-set (set a x (get_or a 0 0)) 0 x ∙ length-set a x (get_or a 0 0)

  pub uncount_route-IsSeparate :
      (intf : L3Intf) (bundle : Bundle) (free : List ℕ) (st : HostState F)
      → IsSeparate free st
      → IsSeparate free (uncount_route F intf bundle st).1
  unfolding uncount_route
  uncount_route-IsSeparate intf bundle free st sep = ground (arith, sep)

  pub find-is_host :
      (key : HostKey) (ip : ℕ) (table : List HostNode) (n : HostNode)
      → find (is_host key ip) table ≡ some n
      → n.entry.ipv4_addr ≡ ip
  find-is_host key ip [] n at = cc
  find-is_host key ip (m ∷ ms) n at = elim (Bool-cases (is_host key ip m)) [
    | inl here ↦
        let same : m ≡ n = ground (arith, at, here) in
        subst (λ k. k.entry.ipv4_addr ≡ ip) same
          ((==_iff m.entry.ipv4_addr ip).0 (ground (arith, here)))
    | inr there ↦ find-is_host key ip ms n (ground (arith, at, there))
  ]

  -- Deleting a host, where no next-hop index is both free and a host's and no two hosts share
  -- one: the same holds afterwards, and either the free indices are as before, or the index of
  -- the host that is found for the address has come in front of them.
  delete_l3_host_entry-IsSeparate :
      (key : HostKey) (bundle : Bundle) (is_ipv6 : Bool) (ip_addr : Option (ℕ × ℕ)) (free : List ℕ)
      (st : HostState F)
      → IsSeparate free st
      → let done = delete_l3_host_entry F key bundle is_ipv6 ip_addr st in
        IsSeparate free done.2
        ⊎ ((ip : ℕ) × (entry : HostEntry) × (host_of F ip_addr ≡ some ip)
            × (host_table_find key ip st.host_table ≡ some entry)
            × IsSeparate (entry.arp_index ∷ free) done.2)
  unfolding delete_l3_host_entry host_table_find
  delete_l3_host_entry-IsSeparate key bundle is_ipv6 ip_addr free st sep =
      elim (Bool-cases is_ipv6) [
        | inl v6 ↦ inl (rw v6 sep)
        | inr v4 ↦ elim (Option-cases bundle.l3_intf) [
          | inl off ↦ inl (rw (v4, off) sep)
          | inr on ↦ elim (Option-cases (host_of F ip_addr)) [
            | inl no_host ↦ inl (rw (v4, on.1, no_host) sep)
            | inr host ↦ elim (Option-cases (find (is_host key host.0) st.host_table)) [
              | inl absent ↦ inl (rw (v4, on.1, host.1, absent) sep)
              | inr at ↦ inr (
                host.0,
                at.0.entry,
                host.1,
                rw (at.1, host_table_find) refl,
                rw (v4, on.1, host.1, at.1)
                    (uncount_route-IsSeparate on.0 bundle (at.0.entry.arp_index ∷ free)
                      (remove_host F key on.0.switch_id at.0.entry st)
                      (remove_host-IsSeparate key on.0.switch_id host.0 at.0 free st at.1
                        (find-is_host key host.0 st.host_table at.0 at.1) sep)),
              )
            ]
          ]
        ]
      ]

  -- If the L2 group of a host is added and the call then fails, where no next-hop index is both
  -- free and a host's and no two hosts share one, the first free index is neither free nor a
  -- host's afterwards: it is lost.
  pub install_host-loses_index :
      (key : HostKey) (intf : L3Intf) (egress mtu src dst ip x : ℕ) (free : List ℕ)
      (st : HostState F)
      → IsSeparate (x ∷ free) st
      → (add_l2_group F intf.switch_id egress intf.vlan_id false st.hw).0 ≡ 0
      → (install_host F key intf egress mtu src dst ip st).0 ≢ 0
      → let done = (install_host F key intf egress mtu src dst ip st).1 in
        IsSeparate free done
        × (any (λ y. y == x) free ≡ false)
        × (any (holds x) done.host_table ≡ false)
  unfolding install_host
  install_host-loses_index key intf egress mtu src dst ip x free st sep grouped failed =
      let l2 = add_l2_group F intf.switch_id egress intf.vlan_id false st.hw in
      let l3 = add_l3_group F intf.switch_id l2.1 x intf.vlan_id mtu src dst l2.2 in
      let route = add_route F intf.switch_id l3.1 ip 32 l3.2 in
      let taken_at = alloc_arp_index-cons st.arp_indices x free sep.free_list in
      let unowned = (AreOwned-less (length st.arp_indices) x free st.host_table sep.owned).1 in
      let here : (l2.0 == 0) ≡ true = (==_iff l2.0 0).1 grouped in
      elim (Bool-cases (l3.0 == 0)) [
        | inr refused ↦
            rw (here, taken_at.0, refused)
              (
                taken-IsSeparate x free st (del_group F intf.switch_id l2.1 l3.2).1 sep,
                sep.free_list.1.3,
                unowned,
              )
        | inl joined ↦ elim (Bool-cases (route.0 == 0)) [
          | inr refused ↦
              rw (here, taken_at.0, joined, refused)
                (
                  taken-IsSeparate x free st
                      (del_group F intf.switch_id l3.1
                        (del_group F intf.switch_id l2.1 route.1).1).1
                      sep,
                  sep.free_list.1.3,
                  unowned,
                )
          | inl routed ↦ absurd (failed (rw (here, taken_at.0, joined, routed) refl))
        ]
      ]
