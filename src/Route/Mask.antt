-- ===== src/Route/Mask.antt =====
-- The mask of a route's entry against the mask of its prefix.
use switchd_fpa_plugin.Prelude.{
  ℕ, ◌+◌, ◌-◌, ◌*◌, ◌%◌, ◌^◌, ◌≤◌, ◌≡◌, refl, Bool, false, not, arith, ◌==◌, leb, if◌then◌else◌,
  any, count_up, any-count_up_none,
}
use switchd_fpa_plugin.Fpa.{Fpa}
use switchd_fpa_plugin.Route.{route_mask}

-- Byte number `k` of the mask of `len` bits, the first byte being number 0.
abbrev pub mask_byte : ℕ → ℕ → ℕ
mask_byte len k =
    if leb (8 * k + 8) len
    then 0xff
    else (if leb len (8 * k) then 0 else 0x100 - 2 ^ (8 * k + 8 - len))

-- The mask in network order, as a little-endian host reads its four bytes.
abbrev pub network_mask : ℕ → ℕ
network_mask len =
    mask_byte len 0
    + mask_byte len 1 * 0x100
    + mask_byte len 2 * 0x10000
    + mask_byte len 3 * 0x1000000

module _ (F : Fpa) where
  abbrev wrong : ℕ → Bool
  wrong len = if route_mask F len == network_mask len then not (len % 8 == 0) else len % 8 == 0

  none_wrong : any wrong (count_up 1 32) ≡ false
  unfolding route_mask
  none_wrong = refl

  -- For a prefix length from 1 to 32, the mask of a route is the mask of the prefix in network
  -- order, as a little-endian host reads it, exactly if the length is a multiple of 8.
  pub route_mask-network_mask :
      (len : ℕ) → 1 ≤ len → len ≤ 32 → (route_mask F len == network_mask len) ≡ (len % 8 == 0)
  route_mask-network_mask len low high =
      same (route_mask F len == network_mask len) (len % 8 == 0)
        (any-count_up_none wrong 1 32 len none_wrong low (omega arith))
    where
      same : (a b : Bool) → (if a then not b else b) ≡ false → a ≡ b
      same a b h = ground (arith, h)
