-- ===== src/Route/Undo.antt =====
-- Groups and routes of src/ops-fpa-route.c that are added and deleted again.
use switchd_fpa_plugin.Prelude.{
  ℕ, ◌≡◌, refl, sym, ap, subst, ◌∙◌, Bool, true, false, ◌&&◌, none, List, [], ◌∷◌, ◌++◌, arith,
  ◌==◌, ==_iff, ==_refl, if◌then◌else◌, Bool-cases, Option-cases, inl, inr, find,
}
use switchd_fpa_plugin.Fpa.{FlowTable, same_table, FlowEntry, Bucket, Fpa}
use switchd_fpa_plugin.Fpa.Laws.{
  FlowLaws, GroupLaws, FrameLaws, insert_group, set_bucket, drop_cookie,
}
use switchd_fpa_plugin.Wrap.{
  wrap_flow_entry_add, wrap_flow_table_cookie_delete, wrap_group_table_entry_add,
  wrap_group_table_entry_delete, wrap_group_entry_bucket_add,
}
use switchd_fpa_plugin.Route.{
  add_l2_group, add_l3_group, add_route, del_route, del_group, indirect, l2_ident, l2_bucket,
  l3_ident, l3_bucket, route_ipv4_cookie, route_entry,
}
use switchd_fpa_plugin.Vlan.Add.{drop-insert, drop-set}

-- Entries that a cookie takes away, one of them at the end.
pub drop_cookie-last :
    (b : Bool) (e : FlowEntry) (xs ys : List FlowEntry)
    → ys ≡ (if b then xs ++ (e ∷ []) else xs)
    → (if b then drop_cookie e.cookie ys else ys) ≡ (if b then drop_cookie e.cookie xs else xs)
drop_cookie-last false e xs ys h = h
drop_cookie-last true e xs ys h = ap (drop_cookie e.cookie) h ∙ dropped xs
  where
    dropped :
        (xs : List FlowEntry) → drop_cookie e.cookie (xs ++ (e ∷ [])) ≡ drop_cookie e.cookie xs
    dropped [] = rw (==_refl e.cookie) refl
    dropped (x ∷ xs) = ground (arith, dropped xs)

module _ (F : Fpa) (L : FlowLaws F) (G : GroupLaws F) (R : FrameLaws F L G) where
  -- The second switch is the first with one more group, filled with a bucket.
  pub record HasGroup (sid g : ℕ) (b : Bucket) (hw hw' : F.Hw) : Type 0 where
    pub fresh : find (λ x. x.id == g) (G.groups sid hw) ≡ none
    pub groups :
        (s : ℕ)
        → G.groups s hw'
          ≡ (if s == sid then set_bucket g b (insert_group g (G.groups s hw)) else G.groups s hw)
    pub flows : (s : ℕ) (u : FlowTable) → L.flows s u hw' ≡ L.flows s u hw

  both_added :
      (sid g : ℕ) (b : Bucket) (hw : F.Hw)
      → b.group_identifier ≡ g
      → (F.group_table_entry_add sid (indirect F g) hw).0 ≡ 0
      → let hw1 = (F.group_table_entry_add sid (indirect F g) hw).1 in
        (F.group_entry_bucket_add sid b hw1).0 ≡ 0
        → HasGroup sid g b hw (F.group_entry_bucket_add sid b hw1).1
  both_added sid g b hw same added filled =
      let hw1 = (F.group_table_entry_add sid (indirect F g) hw).1 in
      record {
        fresh = elim (Option-cases (find (λ x. x.id == g) (G.groups sid hw))) [
          | inl e ↦ e
          | inr (x, e) ↦ absurd (G.add_present sid (indirect F g) hw e added)
        ];
        groups = λ s. ground (
          arith,
          added,
          filled,
          same,
          G.groups-add sid (indirect F g) hw s,
          G.groups-bucket_add sid b hw1 s,
        );
        flows =
            λ s u. R.flows-bucket_add sid b hw1 s u ∙ R.flows-group_add sid (indirect F g) hw s u;
      }

  pub add_l2_group-HasGroup :
      (sid pid vid : ℕ) (pop : Bool) (hw : F.Hw)
      → (add_l2_group F sid pid vid pop hw).0 ≡ 0
      → let (err, g, hw') = add_l2_group F sid pid vid pop hw in
        HasGroup sid g (l2_bucket g pid pop) hw hw'
  unfolding add_l2_group
  add_l2_group-HasGroup sid pid vid pop hw ok =
      let g = (F.group_identifier_build (l2_ident pid vid)).1 in
      let added = F.group_table_entry_add sid (indirect F g) hw in
      let filled = F.group_entry_bucket_add sid (l2_bucket g pid pop) added.1 in
      let e : add_l2_group F sid pid vid pop hw ≡ (0, g, filled.1) = ground (arith, ok) in
      subst (λ r. HasGroup sid r.1 (l2_bucket r.1 pid pop) hw r.2) (sym e)
        (both_added sid g (l2_bucket g pid pop) hw refl (ground (arith, ok)) (ground (arith, ok)))

  pub add_l3_group-HasGroup :
      (sid l2 x vid mtu src dst : ℕ) (hw : F.Hw)
      → (add_l3_group F sid l2 x vid mtu src dst hw).0 ≡ 0
      → let (err, g, hw') = add_l3_group F sid l2 x vid mtu src dst hw in
        HasGroup sid g (l3_bucket g l2 vid mtu src dst) hw hw'
  unfolding add_l3_group wrap_group_table_entry_add wrap_group_entry_bucket_add
  add_l3_group-HasGroup sid l2 x vid mtu src dst hw ok =
      let g = (F.group_identifier_build (l3_ident x)).1 in
      let b = l3_bucket g l2 vid mtu src dst in
      let added = F.group_table_entry_add sid (indirect F g) hw in
      let filled = F.group_entry_bucket_add sid b added.1 in
      let e : add_l3_group F sid l2 x vid mtu src dst hw ≡ (0, g, filled.1) = ground (arith, ok) in
      subst (λ r. HasGroup sid r.1 (l3_bucket r.1 l2 vid mtu src dst) hw r.2) (sym e)
        (both_added sid g b hw refl (ground (arith, ok)) (ground (arith, ok)))

  -- The group goes, and nothing else.
  pub del_group-HasGroup :
      (sid g : ℕ) (b : Bucket) (hw hw' now : F.Hw) (s : ℕ)
      → HasGroup sid g b hw hw'
      → G.groups s now ≡ G.groups s hw'
      → (F.group_table_entry_delete sid g now).0 ≡ 0
      → G.groups s (del_group F sid g now).1 ≡ G.groups s hw
  unfolding del_group wrap_group_table_entry_delete
  del_group-HasGroup sid g b hw hw' now s made same ok = elim (Bool-cases (s == sid)) [
    | inl here ↦
        let fresh : find (λ x. x.id == g) (G.groups s hw) ≡ none =
          ap (λ q. find (λ x. x.id == g) (G.groups q hw)) ((==_iff s sid).0 here) ∙ made.fresh in
        ground (
          arith,
          here,
          ok,
          same,
          made.groups s,
          G.groups-delete sid g now s,
          drop-set g b (insert_group g (G.groups s hw)),
          drop-insert g (G.groups s hw) fresh,
        )
    | inr there ↦ ground (arith, there, same, made.groups s, G.groups-delete sid g now s)
  ]

  pub add_route-tables :
      (sid group ipv4 mask_len : ℕ) (hw : F.Hw)
      → (add_route F sid group ipv4 mask_len hw).0 ≡ 0
      → let e =
          route_entry F group 0 ipv4 mask_len (F.flow_entry_init sid FlowTable.l3_unicast).1 in
        let hw' = (add_route F sid group ipv4 mask_len hw).1 in
        ((s : ℕ) → G.groups s hw' ≡ G.groups s hw)
        × ((s : ℕ) (u : FlowTable)
            → L.flows s u hw' ≡ (
                if s == sid && same_table u FlowTable.l3_unicast
                then L.flows s u hw ++ (e ∷ [])
                else L.flows s u hw))
  unfolding add_route wrap_flow_entry_add
  add_route-tables sid group ipv4 mask_len hw ok =
      let e = route_entry F group 0 ipv4 mask_len (F.flow_entry_init sid FlowTable.l3_unicast).1 in
      (
        λ s. ground (arith, ok, R.groups-flow_add sid FlowTable.l3_unicast e hw s),
        λ s u. ground (arith, ok, L.flows-add sid FlowTable.l3_unicast e hw s u),
      )

  pub del_route-tables :
      (sid ipv4 mask_len : ℕ) (hw : F.Hw)
      → ((del_route F sid ipv4 mask_len hw).0 == 0) ≡ true
      → let hw' = (del_route F sid ipv4 mask_len hw).1 in
        ((s : ℕ) → G.groups s hw' ≡ G.groups s hw)
        × ((s : ℕ) (u : FlowTable)
            → L.flows s u hw' ≡ (
                if s == sid && same_table u FlowTable.l3_unicast
                then drop_cookie (route_ipv4_cookie ipv4 mask_len) (L.flows s u hw)
                else L.flows s u hw))
  unfolding del_route wrap_flow_table_cookie_delete
  del_route-tables sid ipv4 mask_len hw ok =
      let c = route_ipv4_cookie ipv4 mask_len in
      (
        λ s. R.groups-cookie_delete sid FlowTable.l3_unicast c hw s,
        λ s u. ground (arith, ok, L.flows-cookie_delete sid FlowTable.l3_unicast c hw s u),
      )

  pub del_group-status :
      (sid g : ℕ) (hw : F.Hw)
      → ((del_group F sid g hw).0 == 0) ≡ true
      → (F.group_table_entry_delete sid g hw).0 ≡ 0
  unfolding del_group wrap_group_table_entry_delete
  del_group-status sid g hw ok = ground (arith, ok)

  pub del_group-flows :
      (sid g : ℕ) (hw : F.Hw) (s : ℕ) (u : FlowTable)
      → L.flows s u (del_group F sid g hw).1 ≡ L.flows s u hw
  unfolding del_group wrap_group_table_entry_delete
  del_group-flows sid g hw s u = R.flows-group_delete sid g hw s u
