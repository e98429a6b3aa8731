-- ===== src/Vlan/Vidx.antt =====
-- The extended VLAN identifier of include/ops-fpa-vlan.h: direction, tag and VLAN in 14 bits.
pub mod Exact
use switchd_fpa_plugin.Prelude.{
  ℕ, ◌+◌, ◌-◌, ◌*◌, ◌/◌, ◌%◌, ◌<◌, ◌≡◌, Bool, true, false, not, arith, ◌==◌, if◌then◌else◌, bit_and,
  bit_or,
}
use switchd_fpa_plugin.Prelude.Bits.{bit_and-ones, bit_and-bit, bit_or-disjoint}

-- A C `bool` in an arithmetic expression.
abbrev pub to_int : Bool → ℕ
to_int true = 1
to_int false = 0

-- A C integer as a condition.
abbrev pub to_bool : ℕ → Bool
to_bool n = not (n == 0)

-- `OPS_FPA_VMAP_BITS`.
abbrev pub vmap_bits : ℕ
vmap_bits = 0x4000

-- `x << k` is `x * 2^k`; the shifts of the source stay within an `int`.
unfoldable pub vidx_ingress : ℕ → Bool → ℕ
vidx_ingress vid tagged = bit_or (bit_or (0 * 0x2000) (to_int tagged * 0x1000)) vid

unfoldable pub vidx_egress : ℕ → Bool → ℕ
vidx_egress vid poptag = bit_or (bit_or (1 * 0x2000) (to_int poptag * 0x1000)) vid

unfoldable pub vidx_vid : ℕ → ℕ
vidx_vid vidx = bit_and vidx (1 * 0x1000 - 1)

unfoldable pub vidx_is_egress : ℕ → Bool
vidx_is_egress vidx = to_bool (bit_and vidx (1 * 0x2000))

unfoldable pub vidx_arg : ℕ → Bool
vidx_arg vidx = to_bool (bit_and vidx (1 * 0x1000))

-- The three fields by arithmetic.
pub vidx_vid-eq : (vidx : ℕ) → vidx_vid vidx ≡ vidx % 0x1000
unfolding vidx_vid
vidx_vid-eq vidx = bit_and-ones 12 vidx

vidx_is_egress-eq : (vidx : ℕ) → vidx_is_egress vidx ≡ to_bool (vidx / 0x2000 % 2)
unfolding vidx_is_egress
vidx_is_egress-eq vidx = ground (arith, bit_and-bit 13 vidx)

vidx_arg-eq : (vidx : ℕ) → vidx_arg vidx ≡ to_bool (vidx / 0x1000 % 2)
unfolding vidx_arg
vidx_arg-eq vidx = ground (arith, bit_and-bit 12 vidx)

pub vidx_ingress-eq :
    (vid : ℕ) (tagged : Bool)
    → vid < 0x1000
    → vidx_ingress vid tagged ≡ to_int tagged * 0x1000 + vid
unfolding vidx_ingress
vidx_ingress-eq vid true h = bit_or-disjoint 12 1 vid h
vidx_ingress-eq vid false h = bit_or-disjoint 12 0 vid h

pub vidx_egress-eq :
    (vid : ℕ) (poptag : Bool)
    → vid < 0x1000
    → vidx_egress vid poptag ≡ 0x2000 + to_int poptag * 0x1000 + vid
unfolding vidx_egress
vidx_egress-eq vid true h = bit_or-disjoint 12 3 vid h
vidx_egress-eq vid false h = bit_or-disjoint 12 2 vid h

-- The identifier that the three fields make up.
abbrev pub build : Bool → ℕ → Bool → ℕ
build egress vid arg = if egress then vidx_egress vid arg else vidx_ingress vid arg

pub fields_at :
    (vidx : ℕ) (egress : Bool) (vid : ℕ) (arg : Bool)
    → vidx ≡ to_int egress * 0x2000 + to_int arg * 0x1000 + vid
    → vid < 0x1000
    → (vidx_vid vidx ≡ vid)
      × (vidx_is_egress vidx ≡ egress)
      × (vidx_arg vidx ≡ arg)
      × (vidx < vmap_bits)
fields_at vidx egress vid arg e h = (
  ground (arith, vidx_vid-eq vidx),
  ground (arith, vidx_is_egress-eq vidx),
  ground (arith, vidx_arg-eq vidx),
  ground arith,
)

-- Building an identifier from a direction, a VLAN below 2^12 and a flag and taking it apart gives
-- the three back, and the identifier fits in the bitmap.
pub vidx_fields :
    (egress : Bool) (vid : ℕ) (arg : Bool)
    → vid < 0x1000
    → (vidx_vid (build egress vid arg) ≡ vid)
      × (vidx_is_egress (build egress vid arg) ≡ egress)
      × (vidx_arg (build egress vid arg) ≡ arg)
      × (build egress vid arg < vmap_bits)
vidx_fields true vid true h = fields_at _ _ _ _ (vidx_egress-eq vid true h) h
vidx_fields true vid false h = fields_at _ _ _ _ (vidx_egress-eq vid false h) h
vidx_fields false vid true h = fields_at _ _ _ _ (vidx_ingress-eq vid true h) h
vidx_fields false vid false h = fields_at _ _ _ _ (vidx_ingress-eq vid false h) h

-- Every index of the bitmap is the identifier that is built from its own fields.
pub vidx_rebuild :
    (vidx : ℕ)
    → vidx < vmap_bits
    → build (vidx_is_egress vidx) (vidx_vid vidx) (vidx_arg vidx) ≡ vidx
vidx_rebuild vidx h = ground (
  arith,
  vidx_vid-eq vidx,
  vidx_is_egress-eq vidx,
  vidx_arg-eq vidx,
  vidx_egress-eq (vidx_vid vidx) (vidx_arg vidx),
  vidx_ingress-eq (vidx_vid vidx) (vidx_arg vidx),
)
