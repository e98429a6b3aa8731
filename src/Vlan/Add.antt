-- ===== src/Vlan/Add.antt =====
-- What `ops_fpa_vlan_add` does to the VLANs of every port.
use switchd_fpa_plugin.Prelude.{
  ℕ, ◌+◌, ◌*◌, ◌/◌, ◌%◌, ◌<◌, ◌≡◌, refl, Bool, true, false, ◌&&◌, ◌||◌, none, some, List, [], ◌∷◌,
  arith, ◌==◌, if◌then◌else◌, Bool-cases, inl, inr, find, any, ==_iff, Option-cases, any-append,
}
use switchd_fpa_plugin.Prelude.Bits.{bit_and-ones, bit_and-field}
use switchd_fpa_plugin.Fpa.{FlowTable, FlowEntry, Bucket, Fpa}
use switchd_fpa_plugin.Fpa.Laws.{
  Group, FlowLaws, GroupLaws, FrameLaws, IdentLaws, insert_group, drop_group, set_bucket,
}
use switchd_fpa_plugin.Route.{add_l2_group, l2_ident, l2_bucket, indirect}
use switchd_fpa_plugin.Vlan.Vidx.{
  vidx_egress, vidx_vid, vidx_is_egress, vidx_arg, vmap_bits, vidx_rebuild, vidx_vid-eq,
}
use switchd_fpa_plugin.Vlan.{gid_vlan, gid_port, vlan_flow, vlan_add}
use switchd_fpa_plugin.Vlan.Fetch.{flow_bit, bucket_bit, group_bit, l2_state}

pub gid_port-eq : (id : ℕ) → gid_port id ≡ id % 0x10000
unfolding gid_port
gid_port-eq id = bit_and-ones 16 id

pub gid_vlan-eq : (id : ℕ) → gid_vlan id ≡ id / 0x10000 % 0x1000
unfolding gid_vlan
gid_vlan-eq id = omega (arith, bit_and-field 16 id 0xFFF, bit_and-ones 12 (id / 0x10000))

-- The group of a port in a VLAN.
pub gid_fields :
    (pid vid : ℕ)
    → pid < 0x10000
    → vid < 0x1000
    → (gid_port (vid * 0x10000 + pid) ≡ pid) × (gid_vlan (vid * 0x10000 + pid) ≡ vid)
gid_fields pid vid p v = (
  omega (arith, gid_port-eq (vid * 0x10000 + pid)),
  omega (arith, gid_vlan-eq (vid * 0x10000 + pid)),
)

any-insert_group :
    (p j g : ℕ) (xs : List Group) → any (group_bit p j) (insert_group g xs) ≡ any (group_bit p j) xs
any-insert_group p j g [] = ground arith
any-insert_group p j g (x ∷ xs) = ground (arith, any-insert_group p j g xs)

-- A group that is not in the table: nothing to drop or to fill.
drop-absent : (g : ℕ) (xs : List Group) → find (λ x. x.id == g) xs ≡ none → drop_group g xs ≡ xs
drop-absent g [] h = refl
drop-absent g (x ∷ xs) h = ground (arith, drop-absent g xs)

set-absent :
    (g : ℕ) (b : Bucket) (xs : List Group)
    → find (λ x. x.id == g) xs ≡ none
    → set_bucket g b xs ≡ xs
set-absent g b [] h = refl
set-absent g b (x ∷ xs) h = ground (arith, set-absent g b xs)

pub drop-insert :
    (g : ℕ) (xs : List Group)
    → find (λ x. x.id == g) xs ≡ none
    → drop_group g (insert_group g xs) ≡ xs
drop-insert g [] h = ground arith
drop-insert g (x ∷ xs) h = ground (arith, drop-absent g xs, drop-insert g xs)

pub drop-set :
    (g : ℕ) (b : Bucket) (xs : List Group) → drop_group g (set_bucket g b xs) ≡ drop_group g xs
drop-set g b [] = refl
drop-set g b (x ∷ xs) = ground (arith, drop-set g b xs)

any-set_inserted :
    (p j g : ℕ) (b : Bucket) (xs : List Group)
    → find (λ x. x.id == g) xs ≡ none
    → any (group_bit p j) (set_bucket g b (insert_group g xs))
      ≡ (p == gid_port g && bucket_bit j g (some b) || any (group_bit p j) xs)
any-set_inserted p j g b [] h = ground arith
any-set_inserted p j g b (x ∷ xs) h = ground (arith, set-absent g b xs, any-set_inserted p j g b xs)

module _ (F : Fpa) (G : GroupLaws F) (I : IdentLaws F) where
  module _ (sid pid vid : ℕ) (pop : Bool) (hw : F.Hw) (p16 : pid < 0x10000)
      (v12 : vid < 0x1000) where
    abbrev g : ℕ
    g = vid * 0x10000 + pid

    abbrev added : ℕ × F.Hw
    added = F.group_table_entry_add sid (indirect F g) hw

    abbrev filled : ℕ × F.Hw
    filled = F.group_entry_bucket_add sid (l2_bucket g pid pop) added.1

    -- The three ways in which `add_l2_group` ends, with the identifier of the group known.
    add_l2_group-eq : add_l2_group F sid pid vid pop hw ≡ (
        if added.0 == 0
        then (if filled.0 == 0
            then (0, g, filled.1)
            else (1, g, (F.group_table_entry_delete sid g filled.1).1))
        else (1, g, added.1))
    unfolding add_l2_group
    add_l2_group-eq = rw (I.build_l2 pid vid p16 v12, add_l2_group)

    -- A group that was added was not there before.
    fresh : (added.0 == 0) ≡ true → find (λ x. x.id == g) (G.groups sid hw) ≡ none
    fresh ok = elim (Option-cases (find (λ x. x.id == g) (G.groups sid hw))) [
      | inl e ↦ e
      | inr (x, e) ↦ absurd (G.add_present sid (indirect F g) hw e ((==_iff _ 0).0 ok))
    ]

    fresh_at :
        (s : ℕ)
        → (added.0 == 0) ≡ true
        → (s == sid) ≡ true
        → find (λ x. x.id == g) (G.groups s hw) ≡ none
    fresh_at s ok same = rw ((==_iff s sid).0 same) (fresh ok)

    groups-filled :
        (s : ℕ)
        → (added.0 == 0) ≡ true
        → G.groups s filled.1 ≡ (
            if s == sid
            then (if filled.0 == 0
                then set_bucket g (l2_bucket g pid pop) (insert_group g (G.groups s hw))
                else insert_group g (G.groups s hw))
            else G.groups s hw)
    groups-filled s ok = ground (
      arith,
      G.groups-add sid (indirect F g) hw s,
      G.groups-bucket_add sid (l2_bucket g pid pop) added.1 s,
    )

    -- What adding the group changes is the egress bit of its port and VLAN, and that only when it
    -- succeeds; a failure leaves every port as it was, also where the clean-up fails.
    pub add_l2_group-state :
        (s p j : ℕ)
        → any (group_bit p j) (G.groups s (add_l2_group F sid pid vid pop hw).2) ≡ (
            (add_l2_group F sid pid vid pop hw).0 == 0
              && s == sid
              && p == pid
              && j == vidx_egress vid pop
            || any (group_bit p j) (G.groups s hw))
    add_l2_group-state s p j = rw add_l2_group-eq (elim (Bool-cases (added.0 == 0)) [
      | inr refused ↦ rw refused (ground (arith, G.groups-add sid (indirect F g) hw s))
      | inl ok ↦ rw ok (elim (Bool-cases (filled.0 == 0)) [
        | inl done ↦ rw done (
            ground (
              arith,
              groups-filled s ok,
              fresh_at s ok,
              any-set_inserted p j g (l2_bucket g pid pop) (G.groups s hw),
              (gid_fields pid vid p16 v12).0,
              (gid_fields pid vid p16 v12).1,
            ))
        | inr failed ↦ rw failed (
            ground (
              arith,
              G.groups-delete sid g filled.1 s,
              groups-filled s ok,
              fresh_at s ok,
              any-insert_group p j g (G.groups s hw),
              drop-insert g (G.groups s hw),
            ))
      ])
    ])

module _ (F : Fpa) (L : FlowLaws F) (G : GroupLaws F) (R : FrameLaws F L G) (I : IdentLaws F) where
  pub add_l2_group-flows :
      (sid pid vid : ℕ) (pop : Bool) (hw : F.Hw) (s : ℕ) (u : FlowTable)
      → L.flows s u (add_l2_group F sid pid vid pop hw).2 ≡ L.flows s u hw
  unfolding add_l2_group
  add_l2_group-flows sid pid vid pop hw s u =
      let g = (F.group_identifier_build (l2_ident pid vid)).1 in
      let hw1 = (F.group_table_entry_add sid (indirect F g) hw).1 in
      let hw2 = (F.group_entry_bucket_add sid (l2_bucket g pid pop) hw1).1 in
      ground (
        arith,
        R.flows-group_add sid (indirect F g) hw s u,
        R.flows-bucket_add sid (l2_bucket g pid pop) hw1 s u,
        R.flows-group_delete sid g hw2 s u,
      )

  -- The entry that an ingress identifier adds stands for that identifier.
  flow_bit-vlan_flow :
      (pid vidx p j : ℕ) (e : FlowEntry)
      → vidx < vmap_bits
      → vidx_is_egress vidx ≡ false
      → flow_bit F p j (vlan_flow F pid (vidx_vid vidx) (vidx_arg vidx) e) ≡ (p == pid && j == vidx)
  unfolding vlan_flow
  flow_bit-vlan_flow pid vidx p j e h ingress = ground (arith, vidx_rebuild vidx h, L.tag_ne_untag)

  -- Adding an identifier of the bitmap, in either direction, for a port with a number below 2^16
  -- sets the identifier's bit for the port when it succeeds, and changes no other bit of any port
  -- of any switch, whether it succeeds or not.
  pub vlan_add-l2_state :
      (sid pid vidx : ℕ) (hw : F.Hw) (s p j : ℕ)
      → pid < 0x10000
      → vidx < vmap_bits
      → l2_state F L G s p (vlan_add F sid pid vidx hw).1 j ≡ (
          (vlan_add F sid pid vidx hw).0 == 0 && s == sid && p == pid && j == vidx
          || l2_state F L G s p hw j)
  unfolding vlan_add l2_state
  vlan_add-l2_state sid pid vidx hw s p j p16 v14 = elim (Bool-cases (vidx_is_egress vidx)) [
    | inl egress ↦ rw egress (
        ground (
          arith,
          add_l2_group-flows sid pid (vidx_vid vidx) (vidx_arg vidx) hw s FlowTable.vlan,
          add_l2_group-state F G I sid pid (vidx_vid vidx) (vidx_arg vidx) hw p16
              (rw vidx_vid-eq (omega arith)) s p j,
          vidx_rebuild vidx v14,
        ))
    | inr ingress ↦ rw ingress (
        ground (
          arith,
          L.flows-add sid FlowTable.vlan (flow vidx) hw s FlowTable.vlan,
          R.groups-flow_add sid FlowTable.vlan (flow vidx) hw s,
          any-append (flow_bit F p j) (L.flows s FlowTable.vlan hw) (flow vidx ∷ []),
          flow_bit-vlan_flow pid vidx p j (F.flow_entry_init sid FlowTable.vlan).1 v14 ingress,
        ))
  ]
    where
      flow : ℕ → FlowEntry
      flow v = vlan_flow F pid (vidx_vid v) (vidx_arg v) (F.flow_entry_init sid FlowTable.vlan).1
