-- ===== src/Vlan/Vidx/Exact.antt =====
-- The identifiers of include/ops-fpa-vlan.h and the fields they are made of, as types.
use std.Equiv.{IsEquiv, iso_to_equiv}
use mathlib.Core.HLevel.{Σ_prop_path}
use native.Mathlib.Bridge.{le_prop}
use switchd_fpa_plugin.Prelude.{ℕ, ◌<◌, ◌≡◌, Bool, arith}
use switchd_fpa_plugin.Vlan.Vidx.{
  vmap_bits, vidx_vid, vidx_is_egress, vidx_arg, vidx_vid-eq, build, vidx_fields, vidx_rebuild,
}

-- The indices of a bitmap of `OPS_FPA_VMAP_BITS` bits, and the VLANs of 12 bits.
abbrev Index : Type 0
Index = (n : ℕ) × (n < vmap_bits)

abbrev VlanId : Type 0
VlanId = (n : ℕ) × (n < 0x1000)

-- Direction, VLAN and flag.
abbrev Fields : Type 0
Fields = Bool × VlanId × Bool

abbrev index_of : Fields → Index
index_of (egress, vid, arg) = (build egress vid.0 arg, (vidx_fields egress vid.0 arg vid.1).3)

vid_below : (vidx : ℕ) → vidx_vid vidx < 0x1000
vid_below vidx = omega (arith, vidx_vid-eq vidx)

abbrev fields_of : Index → Fields
fields_of n = (vidx_is_egress n.0, (vidx_vid n.0, vid_below n.0), vidx_arg n.0)

fields_of-index_of : (f : Fields) → fields_of (index_of f) ≡ f
fields_of-index_of (egress, vid, arg) =
    let (v, e, a, b) = vidx_fields egress vid.0 arg vid.1 in
    let built = build egress vid.0 arg in
    let same_vid : (vidx_vid built, vid_below built) ≡ vid = Σ_prop_path (λ n. le_prop) v in
    λ i. (e i, same_vid i, a i)

-- The identifiers below the size of the bitmap are exactly the triples of a direction, a VLAN of
-- 12 bits and a flag: building them is an equivalence of types, so that every bit of the bitmap
-- says one thing and no two bits say the same.
index_of-IsEquiv : IsEquiv index_of
index_of-IsEquiv =
    (iso_to_equiv record {
      fun = index_of;
      inv = fields_of;
      rinv = λ n. Σ_prop_path (λ m. le_prop) (vidx_rebuild n.0 n.1);
      linv = fields_of-index_of;
    }).1
