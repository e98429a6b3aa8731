-- ===== src/Ofproto/Hosts/Undo.antt =====
-- A host that is installed and removed again in src/ops-fpa-ofproto.c.
use switchd_fpa_plugin.Ofproto.Hosts.{HostKey}
use switchd_fpa_plugin.Prelude.{
  ℕ, suc, zero, ◌≡◌, ◌≢◌, refl, sym, ap, ap₂, subst, ◌∙◌, Bool, true, false, ◌&&◌, Option, none,
  some, List, [], ◌∷◌, arith, ◌==◌, ==_refl, if◌then◌else◌, get_or, set, find, any, Option-cases,
  inl, inr,
}
use switchd_fpa_plugin.Hmap.{find-none, find-insert, without_first, without_first-insert}
use mathlib.Core.List.{Permᴰ}
use switchd_fpa_plugin.Fpa.{FlowTable, same_table, Fpa}
use switchd_fpa_plugin.Fpa.Laws.{FlowLaws, GroupLaws, FrameLaws, drop_cookie}
use switchd_fpa_plugin.Route.{
  add_l2_group, add_l3_group, add_route, del_route, del_group, route_ipv4_cookie, route_entry,
}
use switchd_fpa_plugin.Routing.{L3Intf}
use switchd_fpa_plugin.Ofproto.ArpIndices.{
  alloc_arp_index, release_arp_index, IsFreeList, taken, alloc_arp_index-cons, alloc_arp_index-nil,
}
use switchd_fpa_plugin.Ofproto.Hosts.{
  HostEntry, HostState, HostNode, is_host, host_table_add, host_table_find, host_table_delete,
  install_host, remove_host,
}
use switchd_fpa_plugin.Route.Undo.{
  drop_cookie-last, add_l2_group-HasGroup, add_l3_group-HasGroup, del_group-HasGroup,
  add_route-tables, del_route-tables, del_group-status, del_group-flows,
}

some_inj : {A : Type 0} {a b : A} → some a ≡ some b → a ≡ b
some_inj h = ground (arith, h)

set-set : (xs : List ℕ) (i u v : ℕ) → set (set xs i u) i v ≡ set xs i v
set-set [] i u v = refl
set-set (x ∷ xs) zero u v = refl
set-set (x ∷ xs) (suc i) u v = ap (λ ys. x ∷ ys) (set-set xs i u v)

set-get_or : (xs : List ℕ) (i d : ℕ) → set xs i (get_or xs i d) ≡ xs
set-get_or [] i d = refl
set-get_or (x ∷ xs) zero d = refl
set-get_or (x ∷ xs) (suc i) d = ap (λ ys. x ∷ ys) (set-get_or xs i d)

-- The index that was taken goes back to where it was.
release_arp_index-taken :
    (a : List ℕ) (x : ℕ) (xs : List ℕ) → IsFreeList a (x ∷ xs) → release_arp_index x (taken a x) ≡ a
unfolding release_arp_index
release_arp_index-taken [] x xs h = absurd (omega (arith, h.0))
release_arp_index-taken (y ∷ ys) zero xs h = absurd (omega (arith, h.1.1))
release_arp_index-taken (y ∷ ys) (suc i) xs h =
    rw (set-set ys i 0 (get_or ys i 0), set-get_or ys i 0) (ap (λ z. z ∷ ys) (sym h.1.0))

delete-without_first :
    (key : HostKey) (ip : ℕ) (table : List HostNode)
    → host_table_delete key ip table ≡ without_first (is_host key ip) table
unfolding host_table_delete
delete-without_first key ip [] = refl
delete-without_first key ip (n ∷ ns) = ground (arith, delete-without_first key ip ns)

-- A host whose address no other has is the one that is found and deleted.
host_table_find-add :
    (key : HostKey) (ip x l3 l2 mask : ℕ) (table : List HostNode)
    → host_table_find key ip table ≡ none
    → let entry : HostEntry = record {
      ipv4_addr = ip;
      arp_index = x;
      l3_group = l3;
      l2_group = l2;
    } in
      let more = (host_table_add key ip x l3 l2 mask table).1 in
      (host_table_find key ip more ≡ some entry) × Permᴰ (host_table_delete key ip more) table
unfolding host_table_find host_table_add
host_table_find-add key ip x l3 l2 mask table absent =
    let n : HostNode = record {
      hash = key.hash ip;
      entry = record { ipv4_addr = ip; arp_index = x; l3_group = l3; l2_group = l2 };
    } in
    let hash = λ (m : HostNode). m.hash in
    let own : is_host key ip n ≡ true = ground (arith, ==_refl (key.hash ip), ==_refl ip) in
    let alone : any (is_host key ip) table ≡ false =
      find-none (is_host key ip) table (elim (Option-cases (find (is_host key ip) table)) [
        | inl e ↦ e
        | inr (m, there) ↦ absurd (ground (arith, absent, there))
      ]) in
    let more = (key.hmap.insert hash mask n table).1 in
    (
      ap
          (λ (o : Option HostNode). elim o as (λ x. Option HostEntry) [
            | none ↦ none
            | some m ↦ some m.entry
          ])
          (find-insert key.hmap hash mask (is_host key ip) n table own alone),
      subst (λ l. Permᴰ l table) (sym (delete-without_first key ip more))
          (without_first-insert key.hmap hash mask (is_host key ip) n table own alone),
    )

module _ (F : Fpa) where
  -- Every deletion of the removal of a host returns 0.
  unfoldable pub all_removed : ℕ → HostEntry → F.Hw → Bool
  unfolding del_route del_group
  all_removed sid entry hw =
      let route = del_route F sid entry.ipv4_addr 32 hw in
      let l3 = del_group F sid entry.l3_group route.1 in
      route.0 == 0 && l3.0 == 0 && (del_group F sid entry.l2_group l3.1).0 == 0

module _ (F : Fpa) (L : FlowLaws F) (G : GroupLaws F) (R : FrameLaws F L G) where
  module _ (key : HostKey) (intf : L3Intf) (egress mtu src dst ip x : ℕ) (free : List ℕ)
      (st : HostState F) (frees : IsFreeList st.arp_indices (x ∷ free)) where
    abbrev sid : ℕ
    sid = intf.switch_id

    abbrev l2 : ℕ × ℕ × F.Hw
    l2 = add_l2_group F sid egress intf.vlan_id false st.hw

    abbrev l3 : ℕ × ℕ × F.Hw
    l3 = add_l3_group F sid l2.1 x intf.vlan_id mtu src dst l2.2

    abbrev route : ℕ × F.Hw
    route = add_route F sid l3.1 ip 32 l3.2

    abbrev new_entry : HostEntry
    new_entry = record { ipv4_addr = ip; arp_index = x; l3_group = l3.1; l2_group = l2.1 }

    abbrev with_entry : HostState F
    with_entry = record st {
      hw = route.1;
      arp_indices = taken st.arp_indices x;
      host_mask = (host_table_add key ip x l3.1 l2.1 st.host_mask st.host_table).0;
      host_table = (host_table_add key ip x l3.1 l2.1 st.host_mask st.host_table).1;
    }

    installed :
        (install_host F key intf egress mtu src dst ip st).0 ≡ 0
        → (l2.0 ≡ 0)
          × (l3.0 ≡ 0)
          × (route.0 ≡ 0)
          × ((install_host F key intf egress mtu src dst ip st).1 ≡ with_entry)
    unfolding install_host
    installed ok =
        let here = (alloc_arp_index-cons st.arp_indices x free frees).0 in ground (arith, ok, here)

    undone :
        (s : ℕ) (u : FlowTable)
        → host_table_find key ip st.host_table ≡ none
        → l2.0 ≡ 0
        → l3.0 ≡ 0
        → route.0 ≡ 0
        → all_removed F sid new_entry route.1 ≡ true
        → let back = remove_host F key sid new_entry with_entry in
          (back.arp_indices ≡ st.arp_indices)
          × Permᴰ back.host_table st.host_table
          × (G.groups s back.hw ≡ G.groups s st.hw)
          × (L.flows s u back.hw ≡ (
              if s == sid && same_table u FlowTable.l3_unicast
              then drop_cookie (route_ipv4_cookie ip 32) (L.flows s u st.hw)
              else L.flows s u st.hw))
    unfolding remove_host all_removed route_entry
    undone s u absent ok2 ok3 ok4 gone =
        let has2 = add_l2_group-HasGroup F L G R sid egress intf.vlan_id false st.hw ok2 in
        let has3 = add_l3_group-HasGroup F L G R sid l2.1 x intf.vlan_id mtu src dst l2.2 ok3 in
        let routed = add_route-tables F L G R sid l3.1 ip 32 l3.2 ok4 in
        let unrouted = del_route-tables F L G R sid ip 32 route.1 (ground (arith, gone)) in
        let hw1 = (del_route F sid ip 32 route.1).1 in
        let hw2 = (del_group F sid l3.1 hw1).1 in
        let hw3 = (del_group F sid l2.1 hw2).1 in
        let e = route_entry F l3.1 0 ip 32 (F.flow_entry_init sid FlowTable.l3_unicast).1 in
        (
          release_arp_index-taken st.arp_indices x free frees,
          (host_table_find-add key ip x l3.1 l2.1 st.host_mask st.host_table absent).1,
          del_group-HasGroup F L G R sid l2.1 _ st.hw l2.2 hw2 s has2
              (del_group-HasGroup F L G R sid l3.1 _ l2.2 l3.2 hw1 s has3
                (unrouted.0 s ∙ routed.0 s)
                (del_group-status F L G R sid l3.1 hw1 (ground (arith, gone))))
              (del_group-status F L G R sid l2.1 hw2 (ground (arith, gone))),
          del_group-flows F L G R sid l2.1 hw2 s u
              ∙ del_group-flows F L G R sid l3.1 hw1 s u
              ∙ unrouted.1 s u
              ∙ drop_cookie-last (s == sid && same_table u FlowTable.l3_unicast) e
                  (L.flows s u st.hw) (L.flows s u route.1)
                  (rw (sym (has2.flows s u), sym (has3.flows s u)) (routed.1 s u)),
        )

module _ (F : Fpa) (L : FlowLaws F) (G : GroupLaws F) (R : FrameLaws F L G) where
  -- The state after the removal against the one before the host.
  abbrev IsAsBefore : ℕ → ℕ → FlowTable → ℕ → HostState F → HostState F → Type 0
  IsAsBefore sid s u ip st back =
      (back.arp_indices ≡ st.arp_indices)
      × Permᴰ back.host_table st.host_table
      × (G.groups s back.hw ≡ G.groups s st.hw)
      × (L.flows s u back.hw ≡ (
          if s == sid && same_table u FlowTable.l3_unicast
          then drop_cookie (route_ipv4_cookie ip 32) (L.flows s u st.hw)
          else L.flows s u st.hw))

  no_index :
      (key : HostKey) (intf : L3Intf) (egress mtu src dst ip : ℕ) (st : HostState F)
      → alloc_arp_index st.arp_indices ≡ none
      → (install_host F key intf egress mtu src dst ip st).0 ≢ 0
  unfolding install_host
  no_index key intf egress mtu src dst ip st h ok = ground (arith, h, ok)

  -- If a host whose address is not in the table is installed with status 0 and then removed under
  -- the entry that is found for its address, and the three deletions succeed, whatever the hash
  -- map does to its order: the free indices and the groups of every switch are as they were, the
  -- table holds the hosts that it held, in some order, and the flow tables are as they were, but
  -- that the unicast table of the switch has lost the entries that it may have held under the
  -- cookie of the host's route.
  pub remove_host-install_host :
      (key : HostKey) (intf : L3Intf) (egress mtu src dst ip : ℕ) (free : List ℕ) (st : HostState F)
      (entry : HostEntry) (s : ℕ) (u : FlowTable)
      → IsFreeList st.arp_indices free
      → host_table_find key ip st.host_table ≡ none
      → let host = install_host F key intf egress mtu src dst ip st in
        host.0 ≡ 0
        → host_table_find key ip host.1.host_table ≡ some entry
        → all_removed F intf.switch_id entry host.1.hw ≡ true
        → let back = remove_host F key intf.switch_id entry host.1 in
          (back.arp_indices ≡ st.arp_indices)
          × Permᴰ back.host_table st.host_table
          × (G.groups s back.hw ≡ G.groups s st.hw)
          × (L.flows s u back.hw ≡ (
              if s == intf.switch_id && same_table u FlowTable.l3_unicast
              then drop_cookie (route_ipv4_cookie ip 32) (L.flows s u st.hw)
              else L.flows s u st.hw))
  remove_host-install_host key intf egress mtu src dst ip [] st entry s u frees absent ok found
        gone =
      absurd
        (no_index key intf egress mtu src dst ip st (alloc_arp_index-nil st.arp_indices frees) ok)
  remove_host-install_host key intf egress mtu src dst ip (x ∷ free) st entry s u frees absent ok
        found gone =
      let sid = intf.switch_id in
      let (ok2, ok3, ok4, done) =
        installed F L G R key intf egress mtu src dst ip x free st frees ok in
      let made = with_entry F L G R key intf egress mtu src dst ip x free st frees in
      let own = new_entry F L G R key intf egress mtu src dst ip x free st frees in
      let same : entry ≡ own = some_inj (
        sym found
        ∙ ap (λ (h : HostState F). host_table_find key ip h.host_table) done
        ∙ (host_table_find-add key ip x own.l3_group own.l2_group st.host_mask st.host_table
            absent).0) in
      let gone' : all_removed F sid own made.hw ≡ true =
        ap₂ (λ e (h : HostState F). all_removed F sid e h.hw) (sym same) (sym done) ∙ gone in
      subst
        (λ e.
          IsAsBefore sid s u ip st
            (remove_host F key sid e (install_host F key intf egress mtu src dst ip st).1))
        (sym same)
        (subst (λ h. IsAsBefore sid s u ip st (remove_host F key sid own h)) (sym done)
          (undone F L G R key intf egress mtu src dst ip x free st frees s u absent ok2 ok3 ok4
            gone'))
