-- ===== src/Prelude/Bits.antt =====
-- Laws of `&` and `|` on native numbers: a mask of low bits, a single bit, and fields that do not
-- overlap.
use Prim.Native.Nat.{
  ℕ, zero, suc, ◌+◌, ◌*◌, ◌/◌, ◌%◌, ◌≤◌, ◌<◌, min, max, bit_and, bit_or, digits, bitwise,
  bit_and-bitwise, bit_or-bitwise,
}
use mathlib.Core.Path.{◌≡◌, refl, sym, ap, ◌∙◌}
use mathlib.Core.Logic.{inl, inr}
use native.Mathlib.Omega.{arith}
use switchd_fpa_plugin.Prelude.Tests.{◌==◌, ==_iff, Bool-cases}

module _ (z : ℕ → ℕ) (f : ℕ → ℕ → ℕ) where
  one_more : (n a b : ℕ) → a ≤ n → digits z f (suc n) a b ≡ digits z f n a b
  one_more n zero b h = run_out n
    where
      run_out : (n : ℕ) → z b ≡ digits z f n zero b
      run_out zero = refl
      run_out (suc n) = refl
  one_more zero (suc a) b h = absurd (omega arith)
  one_more (suc n) (suc a) b h =
      ap (λ t. t * 2 + f (suc a % 2) (b % 2)) (one_more n (suc a / 2) (b / 2) (omega arith))

  -- A count of digits that covers the first number gives what any larger count gives.
  enough : (n m a b : ℕ) → a ≤ m → m ≤ n → digits z f n a b ≡ digits z f m a b
  enough zero m a b covers le = let same : zero ≡ m = omega arith in ap (λ k. digits z f k a b) same
  enough (suc n) m a b covers le = elim (Bool-cases (m == suc n)) [
    | inl same ↦ ap (λ k. digits z f k a b) (sym ((==_iff m (suc n)).0 same))
    | inr differ ↦
        let lt : m < suc n = ground (arith, differ, le) in
        one_more n a b (omega arith) ∙ enough n m a b covers (omega arith)
  ]

  -- The lowest digit apart from the others.
  lowest_digit :
      (a b : ℕ) → 0 < a → bitwise z f a b ≡ bitwise z f (a / 2) (b / 2) * 2 + f (a % 2) (b % 2)
  lowest_digit zero b pos = absurd (omega arith)
  lowest_digit (suc k) b pos =
      ap (λ t. t * 2 + f (suc k % 2) (b % 2))
        (enough k (suc k / 2) (suc k / 2) (b / 2) (omega arith) (omega arith))

-- Induction along a / 2, a / 4, ...
by_halves {ℓ} :
    (P : ℕ → Type ℓ) → P 0 → ((a : ℕ) → 0 < a → P (a / 2) → P a) → (bound a : ℕ) → a ≤ bound → P a
by_halves P base half bound zero h = base
by_halves P base half zero (suc a) h = absurd (omega arith)
by_halves P base half (suc bound) (suc a) h =
    half (suc a) (omega arith) (by_halves P base half bound (suc a / 2) (omega arith))

pub bit_and_step : (a b : ℕ) → bit_and a b ≡ bit_and (a / 2) (b / 2) * 2 + min (a % 2) (b % 2)
bit_and_step zero b = omega (arith, bit_and-bitwise 0 b, bit_and-bitwise 0 (b / 2))
bit_and_step (suc k) b =
    bit_and-bitwise (suc k) b
    ∙ lowest_digit (λ b. 0) min (suc k) b (omega arith)
    ∙ ap (λ t. t * 2 + min (suc k % 2) (b % 2)) (sym (bit_and-bitwise (suc k / 2) (b / 2)))

pub bit_or_step : (a b : ℕ) → bit_or a b ≡ bit_or (a / 2) (b / 2) * 2 + max (a % 2) (b % 2)
bit_or_step zero b = omega (arith, bit_or-bitwise 0 b, bit_or-bitwise 0 (b / 2))
bit_or_step (suc k) b =
    bit_or-bitwise (suc k) b
    ∙ lowest_digit (λ b. b) max (suc k) b (omega arith)
    ∙ ap (λ t. t * 2 + max (suc k % 2) (b % 2)) (sym (bit_or-bitwise (suc k / 2) (b / 2)))

pub bit_and-zero : (a : ℕ) → bit_and a 0 ≡ 0
bit_and-zero a =
    by_halves (λ k. bit_and k 0 ≡ 0) (bit_and-bitwise 0 0)
      (λ k pos below. omega (arith, bit_and_step k 0, below)) a a (omega arith)

pub bit_or-zero : (a : ℕ) → bit_or a 0 ≡ a
bit_or-zero a =
    by_halves (λ k. bit_or k 0 ≡ k) (bit_or-bitwise 0 0)
      (λ k pos below. omega (arith, bit_or_step k 0, below)) a a (omega arith)

-- 2^k - 1 and 2^k, digit by digit.
abbrev pub ones : ℕ → ℕ
ones zero = 0
ones (suc k) = ones k * 2 + 1

abbrev pub two_to : ℕ → ℕ
two_to zero = 1
two_to (suc k) = two_to k * 2

two_to-pos : (k : ℕ) → 0 < two_to k
two_to-pos zero = omega arith
two_to-pos (suc k) = omega (arith, two_to-pos k)

mod-double : (a t : ℕ) → 0 < t → a / 2 % t * 2 + a % 2 ≡ a % (t * 2)
mod-double a t h = grind arith

div-double : (a t : ℕ) → 0 < t → a / 2 / t ≡ a / (t * 2)
div-double a t h = grind arith

-- `a & (2^k - 1)`.
pub bit_and-ones : (k a : ℕ) → bit_and a (ones k) ≡ a % two_to k
bit_and-ones zero a = omega (arith, bit_and-zero a)
bit_and-ones (suc k) a = omega (
  arith,
  bit_and_step a (ones k * 2 + 1),
  bit_and-ones k (a / 2),
  mod-double a (two_to k) (two_to-pos k),
  ap (bit_and (a / 2)) half,
)
  where
    half : (ones k * 2 + 1) / 2 ≡ ones k
    half = omega arith

-- `a & (1 << k)`.
pub bit_and-bit : (k a : ℕ) → bit_and a (two_to k) ≡ a / two_to k % 2 * two_to k
bit_and-bit zero a = omega (arith, bit_and_step a 1, bit_and-zero (a / 2))
bit_and-bit (suc k) a =
    rw (← div-double a (two_to k) (two_to-pos k)) (
      omega
        (arith, bit_and_step a (two_to k * 2), bit_and-bit k (a / 2), ap (bit_and (a / 2)) half))
  where
    half : two_to k * 2 / 2 ≡ two_to k
    half = omega arith

-- Fields that do not overlap: `|` is addition.
pub bit_or-disjoint : (k hi lo : ℕ) → lo < two_to k → bit_or (hi * two_to k) lo ≡ hi * two_to k + lo
bit_or-disjoint zero hi lo h = omega (arith, bit_or-zero (hi * 1), ap (bit_or (hi * 1)) (none_left))
  where
    none_left : lo ≡ 0
    none_left = omega arith
bit_or-disjoint (suc k) hi lo h = omega (
  arith,
  bit_or_step (hi * (two_to k * 2)) lo,
  bit_or-disjoint k hi (lo / 2) (omega arith),
  ap (λ t. bit_or t (lo / 2)) half,
)
  where
    half : hi * (two_to k * 2) / 2 ≡ hi * two_to k
    half = omega arith

-- `a & (m << k)`.
pub bit_and-field : (k a m : ℕ) → bit_and a (m * two_to k) ≡ bit_and (a / two_to k) m * two_to k
bit_and-field zero a m = cc (one_times m, one_times (bit_and (a / 1) m), over_one a)
  where
    one_times : (n : ℕ) → n * 1 ≡ n
    one_times n = omega arith

    over_one : (n : ℕ) → n / 1 ≡ n
    over_one n = omega arith
bit_and-field (suc k) a m = rw (← div-double a (two_to k) (two_to-pos k)) (
    omega (
      arith,
      bit_and_step a (m * (two_to k * 2)),
      bit_and-field k (a / 2) m,
      ap (bit_and (a / 2)) half,
    ))
  where
    half : m * (two_to k * 2) / 2 ≡ m * two_to k
    half = omega arith
