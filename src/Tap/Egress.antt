-- ===== src/Tap/Egress.antt =====
-- The egress state that `get_port_eg_tag_state` of src/ops-fpa-tap.c reads, against the VLANs of
-- the port, and what becomes of the frames of an interface.
use switchd_fpa_plugin.Prelude.{
  ℕ, ◌+◌, ◌*◌, ◌<◌, ◌≡◌, refl, sym, ◌∙◌, Bool, true, false, not, ◌&&◌, Option, none, some, List, [],
  ◌∷◌, arith, ◌==◌, ==_iff, ==_refl, subst, if◌then◌else◌, any, Bool-cases, inl, inr,
}
use switchd_fpa_plugin.Fpa.{FlowTable, Bucket, Fpa}
use switchd_fpa_plugin.Fpa.Laws.{
  Group, FlowLaws, GroupLaws, FrameLaws, IdentLaws, bucket_of, Ascending,
}
use switchd_fpa_plugin.Vlan.Vidx.{
  vidx_egress, vidx_vid, vidx_is_egress, vidx_egress-eq, vidx_fields,
}
use switchd_fpa_plugin.Vlan.Fetch.{group_bit, l2_state}
use switchd_fpa_plugin.Vlan.Add.{gid_fields}
use switchd_fpa_plugin.Vlan.Delete.{AreGroups, IsL2, bucket_hit, any-flow_egress}
use switchd_fpa_plugin.Tap.Listeners.{get_port_eg_tag_state, send_frame}
use switchd_fpa_plugin.Tap.Frame.{Packet, ethertype_vlan, get_eth_type, get_tci, strip_tag}
use switchd_fpa_plugin.Tap.Maps.{TapIfEntry}

abbrev pub same_bool : Bool → Bool → Bool
same_bool true b = b
same_bool false b = not b

-- The bucket of the group pops the tag as asked.
abbrev pops : Bool → Option Bucket → Bool
pops pop none = false
pops pop (some b) = same_bool b.l2_interface.pop_vlan_tag_action pop

-- No group above that of the port and the VLAN stands for an egress identifier of it.
any-above :
    (pid vid low : ℕ) (pop : Bool) (xs : List Group)
    → pid < 0x10000
    → vid < 0x1000
    → 0 < vid
    → vid * 0x10000 + pid < low + 1
    → Ascending low xs
    → AreGroups xs
    → any (group_bit pid (vidx_egress vid pop)) xs ≡ false
any-above pid vid low pop [] p16 v12 v1 le up wf = refl
any-above pid vid low pop (x ∷ xs) p16 v12 v1 le up wf =
    let f = vidx_fields true vid pop v12 in
    ground (
      arith,
      f.0,
      f.1,
      up.0,
      bucket_hit pid vid x.id (vidx_egress vid pop) x.bucket p16 v12 v1 wf.0,
      any-above pid vid x.id pop xs p16 v12 v1 (omega (arith, up.0)) up.1 wf.1,
    )

-- Two egress identifiers of one VLAN are equal where the tag is popped alike.
egress_same :
    (vid : ℕ) (a b : Bool) → vid < 0x1000 → (vidx_egress vid b == vidx_egress vid a) ≡ same_bool a b
egress_same vid a b v12 = ground (arith, vidx_egress-eq vid a v12, vidx_egress-eq vid b v12)

at_group :
    (pid vid : ℕ) (pop : Bool) (b : Option Bucket)
    → pid < 0x10000
    → vid < 0x1000
    → group_bit pid (vidx_egress vid pop) (record { id = vid * 0x10000 + pid; bucket = b })
      ≡ pops pop b
at_group pid vid pop none p16 v12 = ground arith
at_group pid vid pop (some b) p16 v12 =
    let pops_tag = b.l2_interface.pop_vlan_tag_action in
    let g = gid_fields pid vid p16 v12 in
    rw (g.0, g.1, ==_refl pid) (egress_same vid pops_tag pop v12)

any-bucket_of :
    (pid vid low : ℕ) (pop : Bool) (xs : List Group)
    → pid < 0x10000
    → vid < 0x1000
    → 0 < vid
    → Ascending low xs
    → AreGroups xs
    → any (group_bit pid (vidx_egress vid pop)) xs ≡ pops pop (bucket_of (vid * 0x10000 + pid) xs)
any-bucket_of pid vid low pop [] p16 v12 v1 up wf = refl
any-bucket_of pid vid low pop (x ∷ xs) p16 v12 v1 up wf =
    elim (Bool-cases (x.id == vid * 0x10000 + pid)) [
      | inl same ↦
          let e = (==_iff x.id (vid * 0x10000 + pid)).0 same in
          let above : Ascending (vid * 0x10000 + pid) xs = subst (λ q. Ascending q xs) e up.1 in
          rw (e, ==_refl (vid * 0x10000 + pid))
            (ground (
              arith,
              at_group pid vid pop x.bucket p16 v12,
              any-above pid vid (vid * 0x10000 + pid) pop xs p16 v12 v1 (omega arith) above wf.1,
            ))
      | inr differ ↦ ground (
        arith,
        differ,
        f.0,
        f.1,
        bucket_hit pid vid x.id (vidx_egress vid pop) x.bucket p16 v12 v1 wf.0,
        any-bucket_of pid vid x.id pop xs p16 v12 v1 up.1 wf.1,
      )
    ]
  where
    f : (vidx_vid (vidx_egress vid pop) ≡ vid) × (vidx_is_egress (vidx_egress vid pop) ≡ true)
    f = let all = vidx_fields true vid pop v12 in (all.0, all.1)

module _ (F : Fpa) (L : FlowLaws F) (G : GroupLaws F) (R : FrameLaws F L G) (I : IdentLaws F) where
  bucket_read :
      (sid pid vid : ℕ) (pop : Bool) (hw : F.Hw)
      → pid < 0x10000
      → vid < 0x1000
      → (b : Option Bucket) → bucket_of (vid * 0x10000 + pid) (G.groups sid hw) ≡ b
      → ((get_port_eg_tag_state F sid pid vid hw).0 == 0
          && same_bool (get_port_eg_tag_state F sid pid vid hw).1 pop)
        ≡ pops pop b
  unfolding get_port_eg_tag_state
  bucket_read sid pid vid pop hw p16 v12 none e =
      rw (I.build_l2 pid vid p16 v12)
        (ground (arith, G.bucket_get_none sid (vid * 0x10000 + pid) hw e))
  bucket_read sid pid vid pop hw p16 v12 (some b) e =
      rw (I.build_l2 pid vid p16 v12, G.bucket_get_some sid (vid * 0x10000 + pid) hw b e) refl

  get_port_eg_tag_state-l2_state :
      (sid pid vid : ℕ) (pop : Bool) (hw : F.Hw)
      → pid < 0x10000
      → vid < 0x1000
      → 0 < vid
      → IsL2 F L G R I sid hw
      → Ascending 0 (G.groups sid hw)
      → ((get_port_eg_tag_state F sid pid vid hw).0 == 0
          && same_bool (get_port_eg_tag_state F sid pid vid hw).1 pop)
        ≡ l2_state F L G sid pid hw (vidx_egress vid pop)
  unfolding get_port_eg_tag_state l2_state
  get_port_eg_tag_state-l2_state sid pid vid pop hw p16 v12 v1 wf up =
      let egress = (vidx_fields true vid pop v12).1 in
      bucket_read sid pid vid pop hw p16 v12 (bucket_of (vid * 0x10000 + pid) (G.groups sid hw))
        refl
      ∙ sym (any-bucket_of pid vid 0 pop (G.groups sid hw) p16 v12 v1 up wf.l2_groups)
      ∙ rw
          (any-flow_egress F pid (vidx_egress vid pop) (L.flows sid FlowTable.vlan hw) wf.vlan_flows
            egress)
          refl

  decides :
      {A : Type 0} (err : ℕ) (pop yes_popped yes_kept : Bool) (a b c : A)
      → ((err == 0) && same_bool pop true) ≡ yes_popped
      → ((err == 0) && same_bool pop false) ≡ yes_kept
      → (if err == 0 then (if pop then a else b) else c)
        ≡ (if yes_popped then a else if yes_kept then b else c)
  decides err pop yes_popped yes_kept a b c h k = ground (arith, h, k)

  -- A frame read from an interface whose tag control information is a VLAN from 1 to 4095, for a
  -- port below 2^16 on a switch whose tables are as the plugin fills them and the groups in
  -- order: it is sent without its tag if the switch holds for the port the identifier of the VLAN
  -- with the tag popped, as it is if the switch holds the one with the tag kept, and dropped if
  -- it holds neither.
  pub send_frame-l2_state :
      (sid vid : ℕ) (entry : TapIfEntry) (p : Packet) (hw : F.Hw)
      → entry.number < 0x10000
      → vid < 0x1000
      → 0 < vid
      → IsL2 F L G R I sid hw
      → Ascending 0 (G.groups sid hw)
      → get_eth_type p ≡ ethertype_vlan
      → get_tci p ≡ vid
      → send_frame F sid entry p hw ≡ (
          if l2_state F L G sid entry.number hw (vidx_egress vid true)
          then some (record { to = entry.number; packet = strip_tag p })
          else if l2_state F L G sid entry.number hw (vidx_egress vid false)
          then some (record { to = entry.number; packet = p })
          else none)
  unfolding send_frame
  send_frame-l2_state sid vid entry p hw p16 v12 v1 wf up tagged tci =
      rw (tagged, tci)
        (decides (get_port_eg_tag_state F sid entry.number vid hw).0
          (get_port_eg_tag_state F sid entry.number vid hw).1 _ _
          (some (record { to = entry.number; packet = strip_tag p }))
          (some (record { to = entry.number; packet = p })) none
          (get_port_eg_tag_state-l2_state sid entry.number vid true hw p16 v12 v1 wf up)
          (get_port_eg_tag_state-l2_state sid entry.number vid false hw p16 v12 v1 wf up))
