-- ===== src/Vlan/Delete.antt =====
-- What `ops_fpa_vlan_del` does to the VLANs of every port. It deletes flows by their cookie and
-- groups by their identifier, and either may take more than the one bit with it.
use switchd_fpa_plugin.Prelude.{
  ℕ, ◌+◌, ◌*◌, ◌<◌, ◌≡◌, refl, ◌∙◌, ap, Bool, true, false, not, ◌&&◌, Option, none, some, List, [],
  ◌∷◌, arith, ◌==◌, if◌then◌else◌, Bool-cases, inl, inr, ◌⊎◌, ==_iff, any,
}
use switchd_fpa_plugin.Prelude.Bits.{bit_or-disjoint}
use switchd_fpa_plugin.Fpa.{FlowTable, FlowEntry, Bucket, Fpa}
use switchd_fpa_plugin.Fpa.Laws.{
  Group, FlowLaws, GroupLaws, FrameLaws, IdentLaws, drop_group, drop_cookie,
}
use switchd_fpa_plugin.Vlan.Vidx.{
  vidx_ingress, vidx_egress, vidx_vid, vidx_is_egress, vidx_arg, vmap_bits, vidx_rebuild,
  vidx_fields, vidx_vid-eq, vidx_ingress-eq,
}
use switchd_fpa_plugin.Vlan.{gid_vlan, gid_port, vlan_cookie, vlan_del}
use switchd_fpa_plugin.Vlan.Fetch.{flow_bit, bucket_bit, group_bit, l2_state}
use switchd_fpa_plugin.Vlan.Add.{gid_port-eq, gid_vlan-eq, gid_fields}

-- Deleting `vidx` clears the bit `j` of the same port: of the egress bits the two of the VLAN, of
-- the tagged ingress bits the one, and of the untagged ingress bits all.
unfoldable pub clears : ℕ → ℕ → Bool
clears vidx j =
    if vidx_is_egress vidx
    then vidx_is_egress j && vidx_vid j == vidx_vid vidx
    else not (vidx_is_egress j) && (if vidx_arg vidx then j == vidx else not (vidx_arg j))

module _ (F : Fpa) where
  abbrev pub tagged : FlowEntry → Bool
  tagged e = e.vlan.vlan_id_mask == F.vlan_mask_tag

  -- The entries of the VLAN table have the cookie that `vlan_add` gives them.
  abbrev pub AreVlanFlows : List FlowEntry → Type 0
  AreVlanFlows [] = Unit {0}
  AreVlanFlows (e ∷ es) =
      (e.cookie ≡ vlan_cookie e.vlan.in_port e.vlan.vlan_id (tagged e))
      × (e.vlan.in_port < 0x10000)
      × (0 < e.vlan.vlan_id)
      × (e.vlan.vlan_id < 0x1000)
      × AreVlanFlows es

-- A group is that of a port and a VLAN, or reads as one of VLAN 0.
abbrev pub AreGroups : List Group → Type 0
AreGroups [] = Unit {0}
AreGroups (x ∷ xs) = ((x.id < 0x10000000) ⊎ (gid_vlan x.id ≡ 0)) × AreGroups xs

vlan_cookie-eq :
    (pid vid : ℕ) (tag : Bool)
    → pid < 0x10000
    → vlan_cookie pid vid tag ≡ (if tag then vid * 0x100000000 + pid else pid)
unfolding vlan_cookie
vlan_cookie-eq pid vid true h = bit_or-disjoint 32 vid pid (omega arith)
vlan_cookie-eq pid vid false h = refl

-- The cookie of an ingress identifier of port `pid`, against that of an entry of port `p`.
cookie_hit :
    (pid p vid vid' : ℕ) (arg tag : Bool)
    → pid < 0x10000
    → p < 0x10000
    → 0 < vid
    → vid < 0x1000
    → 0 < vid'
    → vid' < 0x1000
    → (vlan_cookie p vid' tag == vlan_cookie pid vid arg)
      ≡ (p == pid && clears (vidx_ingress vid arg) (vidx_ingress vid' tag))
unfolding clears
cookie_hit pid p vid vid' arg tag p16 q16 v1 v12 w1 w12 =
    let here = vidx_fields false vid arg v12 in
    let there = vidx_fields false vid' tag w12 in
    ground (
      arith,
      here.0,
      here.1,
      here.2,
      there.0,
      there.1,
      there.2,
      vidx_ingress-eq vid arg v12,
      vidx_ingress-eq vid' tag w12,
      vlan_cookie-eq pid vid arg p16,
      vlan_cookie-eq p vid' tag q16,
    )

group_hit :
    (pid vid id : ℕ) (pop : Bool)
    → pid < 0x10000
    → vid < 0x1000
    → 0 < vid
    → (id < 0x10000000) ⊎ (gid_vlan id ≡ 0)
    → (id == vid * 0x10000 + pid) ≡ (
        gid_port id == pid
        && vidx_is_egress (vidx_egress (gid_vlan id) pop)
        && vidx_vid (vidx_egress (gid_vlan id) pop) == vid)
group_hit pid vid id pop p16 v12 v1 wf =
    let v = gid_vlan id in
    let small : v < 0x1000 = omega (arith, gid_vlan-eq id) in
    let at = vidx_fields true v pop small in
    ground (arith, at.0, at.1, gid_vlan-eq id, gid_port-eq id, gid_fields pid vid p16 v12)

-- Which bits the entries with a cookie stand for.
any-drop_cookie :
    (F : Fpa) (pid vid p j : ℕ) (arg : Bool) (es : List FlowEntry)
    → pid < 0x10000
    → 0 < vid
    → vid < 0x1000
    → AreVlanFlows F es
    → any (flow_bit F p j) (drop_cookie (vlan_cookie pid vid arg) es)
      ≡ (not (p == pid && clears (vidx_ingress vid arg) j) && any (flow_bit F p j) es)
any-drop_cookie F pid vid p j arg [] p16 v1 v12 wf = ground arith
any-drop_cookie F pid vid p j arg (e ∷ es) p16 v1 v12 wf = ground (
  arith,
  cookie_hit pid e.vlan.in_port vid e.vlan.vlan_id arg (tagged F e) p16 wf.1 v1 v12 wf.2 wf.3,
  any-drop_cookie F pid vid p j arg es p16 v1 v12 wf.4,
)

pub bucket_hit :
    (pid vid id j : ℕ) (b : Option Bucket)
    → pid < 0x10000
    → vid < 0x1000
    → 0 < vid
    → (id < 0x10000000) ⊎ (gid_vlan id ≡ 0)
    → bucket_bit j id b ≡ true
    → (id == vid * 0x10000 + pid) ≡ (gid_port id == pid && vidx_is_egress j && vidx_vid j == vid)
bucket_hit pid vid id j none p16 v12 v1 wf is_j = cc
bucket_hit pid vid id j (some b) p16 v12 v1 wf is_j =
    rw ((==_iff j _).0 is_j) (group_hit pid vid id b.l2_interface.pop_vlan_tag_action p16 v12 v1 wf)

any-drop_group :
    (pid vid p j : ℕ) (xs : List Group)
    → pid < 0x10000
    → vid < 0x1000
    → 0 < vid
    → AreGroups xs
    → any (group_bit p j) (drop_group (vid * 0x10000 + pid) xs)
      ≡ (not (p == pid && vidx_is_egress j && vidx_vid j == vid) && any (group_bit p j) xs)
any-drop_group pid vid p j [] p16 v12 v1 wf = ground arith
any-drop_group pid vid p j (x ∷ xs) p16 v12 v1 wf = ground (
  arith,
  bucket_hit pid vid x.id j x.bucket p16 v12 v1 wf.0,
  any-drop_group pid vid p j xs p16 v12 v1 wf.1,
)

-- Groups stand for egress bits only, and flows for ingress bits only.
any-group_ingress :
    (p j : ℕ) (xs : List Group) → vidx_is_egress j ≡ false → any (group_bit p j) xs ≡ false
any-group_ingress p j [] ingress = refl
any-group_ingress p j (x ∷ xs) ingress =
    ground (arith, bucket_egress j x.id x.bucket, any-group_ingress p j xs ingress)
  where
    bucket_egress :
        (j id : ℕ) (b : Option Bucket) → bucket_bit j id b ≡ true → vidx_is_egress j ≡ true
    bucket_egress j id none h = cc
    bucket_egress j id (some b) h =
        rw ((==_iff j _).0 h)
          (vidx_fields true (gid_vlan id) b.l2_interface.pop_vlan_tag_action
            (omega (arith, gid_vlan-eq id))).1

pub any-flow_egress :
    (F : Fpa) (p j : ℕ) (es : List FlowEntry)
    → AreVlanFlows F es
    → vidx_is_egress j ≡ true
    → any (flow_bit F p j) es ≡ false
any-flow_egress F p j [] wf egress = refl
any-flow_egress F p j (e ∷ es) wf egress = ground (
  arith,
  vidx_fields false e.vlan.vlan_id (tagged F e) wf.3,
  any-flow_egress F p j es wf.4 egress,
)

module _ (F : Fpa) (L : FlowLaws F) (G : GroupLaws F) (R : FrameLaws F L G) (I : IdentLaws F) where
  -- The VLAN table and the group table of a switch are as the plugin fills them.
  pub record IsL2 (sid : ℕ) (hw : F.Hw) : Type 0 where
    pub vlan_flows : AreVlanFlows F (L.flows sid FlowTable.vlan hw)
    pub l2_groups : AreGroups (G.groups sid hw)

  -- Deleting an identifier of a VLAN other than 0, for a port with a number below 2^16 on a
  -- switch whose tables are as the plugin fills them, clears, when it succeeds, the bits of the
  -- port that `clears` names, and changes no other bit of any port of any switch.
  pub vlan_del-l2_state :
      (sid pid vidx : ℕ) (hw : F.Hw) (s p j : ℕ)
      → pid < 0x10000
      → vidx < vmap_bits
      → 0 < vidx_vid vidx
      → IsL2 sid hw
      → l2_state F L G s p (vlan_del F sid pid vidx hw).1 j ≡ (
          not ((vlan_del F sid pid vidx hw).0 == 0 && s == sid && p == pid && clears vidx j)
          && l2_state F L G s p hw j)
  unfolding vlan_del l2_state clears
  vlan_del-l2_state sid pid vidx hw s p j p16 v14 v1 wf = elim (Bool-cases (vidx_is_egress vidx)) [
    | inl egress ↦
        rw (egress, I.build_l2 pid (vidx_vid vidx) p16 v12)
          (ground (
            arith,
            G.groups-delete sid (vidx_vid vidx * 0x10000 + pid) hw s,
            R.flows-group_delete sid (vidx_vid vidx * 0x10000 + pid) hw s FlowTable.vlan,
            dropped,
            no_flow,
          ))
    | inr ingress ↦ rw ingress (
        ground (
          arith,
          L.flows-cookie_delete sid FlowTable.vlan (vlan_cookie pid (vidx_vid vidx) (vidx_arg vidx))
              hw s FlowTable.vlan,
          R.groups-cookie_delete sid FlowTable.vlan
              (vlan_cookie pid (vidx_vid vidx) (vidx_arg vidx)) hw s,
          erased ingress,
          any-group_ingress p j (G.groups s hw),
        ))
  ]
    where
      v12 : vidx_vid vidx < 0x1000
      v12 = rw vidx_vid-eq (omega arith)

      dropped :
          (s == sid) ≡ true
          → any (group_bit p j) (drop_group (vidx_vid vidx * 0x10000 + pid) (G.groups s hw)) ≡ (
              not (p == pid && vidx_is_egress j && vidx_vid j == vidx_vid vidx)
              && any (group_bit p j) (G.groups s hw))
      dropped same =
          any-drop_group pid (vidx_vid vidx) p j (G.groups s hw) p16 v12 v1
            (rw ((==_iff s sid).0 same) wf.l2_groups)

      no_flow :
          (s == sid) ≡ true
          → vidx_is_egress j ≡ true
          → any (flow_bit F p j) (L.flows s FlowTable.vlan hw) ≡ false
      no_flow same =
          any-flow_egress F p j (L.flows s FlowTable.vlan hw)
            (rw ((==_iff s sid).0 same) wf.vlan_flows)

      rebuilt : vidx_is_egress vidx ≡ false → vidx_ingress (vidx_vid vidx) (vidx_arg vidx) ≡ vidx
      rebuilt ingress = ground (arith, vidx_rebuild vidx v14)

      erased :
          vidx_is_egress vidx ≡ false
          → (s == sid) ≡ true
          → any (flow_bit F p j) (
              drop_cookie
                (vlan_cookie pid (vidx_vid vidx) (vidx_arg vidx))
                (L.flows s FlowTable.vlan hw))
            ≡ (not (p == pid && clears vidx j)
                && any (flow_bit F p j) (L.flows s FlowTable.vlan hw))
      erased ingress same =
          any-drop_cookie F pid (vidx_vid vidx) p j (vidx_arg vidx) (L.flows s FlowTable.vlan hw)
            p16 v1 v12 (rw ((==_iff s sid).0 same) wf.vlan_flows)
          ∙ ap
              (λ v.
                not (p == pid && clears v j) && any (flow_bit F p j) (L.flows s FlowTable.vlan hw))
              (rebuilt ingress)

pub clears_self : (vidx : ℕ) → clears vidx vidx ≡ true
unfolding clears
clears_self vidx = ground arith
