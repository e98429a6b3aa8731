-- ===== src/Strings/Masks.antt =====
-- Prefix lengths and masks.
use switchd_fpa_plugin.Prelude.{
  ℕ, zero, suc, ◌-◌, ◌/◌, ◌≤◌, ◌<◌, ◌≡◌, refl, Bool, true, arith, ◌==◌, ==_iff, if◌then◌else◌,
  Bool-cases, inl, inr,
}
use switchd_fpa_plugin.Strings.{htonl, ffs, ip4mask_to_prefix_len, prefix_len_to_ip4mask}

-- How many of the numbers under a bound fail a test.
unfoldable failures : (ℕ → Bool) → ℕ → ℕ
failures test zero = 0
failures test (suc bound) = let rest = failures test bound in if test bound then rest else suc rest

no_failures : (test : ℕ → Bool) (bound n : ℕ) → failures test bound ≡ 0 → n < bound → test n ≡ true
unfolding failures
no_failures test zero n none small = absurd (omega arith)
no_failures test (suc bound) n none small = elim (Bool-cases (n == bound)) [
  | inl last ↦ rw ((==_iff n bound).0 last) (ground (arith, none))
  | inr before ↦ no_failures test bound n (ground (arith, none)) (ground (arith, before, small))
]

abbrev keeps_length : ℕ → Bool
keeps_length n = ip4mask_to_prefix_len (htonl (prefix_len_to_ip4mask n)) == n

all_lengths : failures keeps_length 33 ≡ 0
unfolding failures ip4mask_to_prefix_len prefix_len_to_ip4mask
all_lengths = refl

-- The mask of a prefix length of at most 32, put into network order, has that prefix length.
prefix_len-ip4mask : (n : ℕ) → n ≤ 32 → ip4mask_to_prefix_len (htonl (prefix_len_to_ip4mask n)) ≡ n
prefix_len-ip4mask n h = (==_iff _ n).0 (no_failures keeps_length 33 n all_lengths (omega arith))

ffs-le : (k n : ℕ) → ffs k n ≤ k
unfolding ffs
ffs-le zero n = omega arith
ffs-le (suc k) n = ground (arith, ffs-le k (n / 2))

flipped-le : (a : ℕ) → a ≤ 32 → (if a == 0 then 0 else 33 - a) ≤ 32
flipped-le a h = ground arith

ip4mask_to_prefix_len-le : (mask : ℕ) → ip4mask_to_prefix_len mask ≤ 32
unfolding ip4mask_to_prefix_len
ip4mask_to_prefix_len-le mask = flipped-le (ffs 32 (htonl mask)) (ffs-le 32 (htonl mask))
