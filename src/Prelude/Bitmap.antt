-- ===== src/Prelude/Bitmap.antt =====
-- Bitmaps of OVS (lib/bitmap.h) as functions from an index to its bit, and its loop over the set
-- bits.
use Prim.Native.Nat.{ℕ, zero, suc}
use mathlib.Core.Bool.{Bool, true, false, not}
use switchd_fpa_plugin.Prelude.Tests.{◌==◌, if◌then◌else◌}

abbrev pub Bitmap : Type 0
Bitmap = ℕ → Bool

-- A `memset` to 0.
abbrev pub empty : Bitmap
empty i = false

-- `bitmap_set`; `bitmap_set1` and `bitmap_set0` are its two cases.
abbrev pub put : Bitmap → ℕ → Bool → Bitmap
put m i b j = if j == i then b else m j

abbrev pub set1 : Bitmap → ℕ → Bitmap
set1 m i = put m i true

abbrev pub set0 : Bitmap → ℕ → Bitmap
set0 m i = put m i false

-- `^=` on each word of two bitmaps.
abbrev pub diff : Bitmap → Bitmap → Bitmap
diff a b i = if a i then not (b i) else b i

module _ {ℓ} {S : Type ℓ} where
  -- `BITMAP_FOR_EACH_1 (idx, size, bits) body`, from index `i` on with `n` indices left. The
  -- bitmap is read from the state, since a body may change it.
  unfoldable pub for_each_1 : ℕ → ℕ → (S → Bitmap) → (ℕ → S → S) → S → S
  for_each_1 zero i bits body s = s
  for_each_1 (suc n) i bits body s =
      for_each_1 n (suc i) bits body (if bits s i then body i s else s)
