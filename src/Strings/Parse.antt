-- ===== src/Strings/Parse.antt =====
-- What `ops_fpa_str2ip` of src/ops-fpa.c accepts.
use switchd_fpa_plugin.Prelude.{
  ℕ, zero, suc, ◌+◌, ◌-◌, ◌*◌, ◌^◌, ◌≡◌, ◌≢◌, refl, ap, sym, ◌∙◌, Bool, true, false, not, ◌&&◌,
  Option, none, some, inl, inr, Option-cases, [], ◌∷◌, ◌++◌, arith, ◌==◌, leb, if◌then◌else◌, any,
  length,
}
use native.Mathlib.Nat.{add-mul, mul_assoc, pow-succ'}
use switchd_fpa_plugin.Strings.{
  Chars, ℤ, Strtol, is_digit, is_int, opposite, int_max, long_max, read_digits, skip_spaces,
  unsigned_part, signed_part, strtol, str2int, split_slash, fits_prefix, prefix_of, read_parts,
  str2ip,
}

abbrev pub has_slash : Chars → Bool
has_slash s = any (λ c. c == b'/') s

split_slash-append :
    (a b : Chars) → has_slash a ≡ false → split_slash (a ++ (b'/' ∷ b)) ≡ (a, some b)
unfolding split_slash
split_slash-append [] b h = refl
split_slash-append (c ∷ a) b h = ground (arith, h, split_slash-append a b)

-- A text of decimal digits.
abbrev pub all_digits : Chars → Bool
all_digits [] = true
all_digits (c ∷ s) = is_digit c && all_digits s

-- The number that a text of decimal digits stands for: each digit by its place.
abbrev pub place_value : Chars → ℕ
place_value [] = 0
place_value (c ∷ s) = (c - b'0') * 10 ^ length s + place_value s

shift : (n d p q : ℕ) → q ≡ 10 * p → (n * 10 + d) * p ≡ n * q + d * p
shift n d p q e =
    add-mul (n * 10) d p ∙ ap (λ x. x + d * p) (mul_assoc n 10 p ∙ ap (λ x. n * x) (sym e))

read_digits-all_digits :
    (s : Chars) (n : ℕ)
    → all_digits s ≡ true
    → read_digits s n ≡ (n * 10 ^ length s + place_value s, [])
unfolding read_digits
read_digits-all_digits [] n h = ap (λ m. (m, [])) (omega arith)
read_digits-all_digits (c ∷ s) n h = ground (
  arith,
  h,
  read_digits-all_digits s (n * 10 + (c - b'0')),
  shift n (c - b'0') (10 ^ length s) (10 ^ length (c ∷ s)) (pow-succ' 10 (length s)),
)

-- What `strtol` returns for the number `n` with nothing behind it, with a minus sign or without.
abbrev clamped : Bool → ℕ → Strtol
clamped negative n =
    if negative
    then (if leb n (long_max + 1)
        then record { value = opposite n; erange = false; rest = some [] }
        else record { value = ℤ.negsuc long_max; erange = true; rest = some [] })
    else (if leb n long_max
        then record { value = ℤ.pos n; erange = false; rest = some [] }
        else record { value = ℤ.pos long_max; erange = true; rest = some [] })

-- What `str2int` makes of a result of `strtol`.
abbrev as_int : Strtol → Option ℤ
as_int l = elim l.rest [
  | none ↦ none
  | some [] ↦ if not l.erange && is_int l.value then some l.value else none
  | some (c ∷ rest) ↦ none
]

unsigned_part-digits :
    (negative : Bool) (c : ℕ) (s : Chars)
    → all_digits (c ∷ s) ≡ true
    → unsigned_part negative (c ∷ s) ≡ clamped negative (place_value (c ∷ s))
unfolding unsigned_part
unsigned_part-digits negative c s h = rw (read_digits-all_digits (c ∷ s) 0 h) (ground (arith, h))

strtol-digits :
    (c : ℕ) (s : Chars)
    → all_digits (c ∷ s) ≡ true
    → strtol (c ∷ s) ≡ clamped false (place_value (c ∷ s))
unfolding strtol skip_spaces signed_part
strtol-digits c s h =
    let plain : strtol (c ∷ s) ≡ unsigned_part false (c ∷ s) = ground (arith, h) in
    plain ∙ unsigned_part-digits false c s h

as_int-clamped :
    (n : ℕ) → as_int (clamped false n) ≡ (if leb n int_max then some (ℤ.pos n) else none)
as_int-clamped n = ground arith

as_int-negative :
    (n : ℕ) → as_int (clamped true n) ≡ (if leb n (int_max + 1) then some (opposite n) else none)
as_int-negative zero = refl
as_int-negative (suc n) = ground arith

str2int-digits :
    (c : ℕ) (s : Chars)
    → all_digits (c ∷ s) ≡ true
    → str2int (some (c ∷ s))
      ≡ (if leb (place_value (c ∷ s)) int_max then some (ℤ.pos (place_value (c ∷ s))) else none)
unfolding str2int
str2int-digits c s h = ap as_int (strtol-digits c s h) ∙ as_int-clamped (place_value (c ∷ s))

str2int-negative :
    (c : ℕ) (s : Chars)
    → all_digits (c ∷ s) ≡ true
    → str2int (some (b'-' ∷ c ∷ s)) ≡ (
        if leb (place_value (c ∷ s)) (int_max + 1)
        then some (opposite (place_value (c ∷ s)))
        else none)
unfolding str2int strtol skip_spaces signed_part
str2int-negative c s h =
    ap as_int (unsigned_part-digits true c s h) ∙ as_int-negative (place_value (c ∷ s))

-- What a length comes to beside an address that is not refused.
abbrev with_length : ℕ → Option ℤ → Option (ℕ × ℤ)
with_length address none = none
with_length address (some len) = if fits_prefix len then some (address, len) else none

read_parts-with_length :
    (inet_addr : Chars → ℕ) (a b : Chars)
    → inet_addr a ≢ 0xffffffff
    → read_parts inet_addr (a, some b) ≡ with_length (inet_addr a) (str2int (some b))
unfolding read_parts prefix_of
read_parts-with_length inet_addr a b ok = elim (Option-cases (str2int (some b))) [
  | inl absent ↦ ground (arith, absent)
  | inr (len, e) ↦ ground (arith, e, ok)
]

with_length-positive :
    (address n : ℕ)
    → with_length address (if leb n int_max then some (ℤ.pos n) else none)
      ≡ (if leb n 32 then some (address, ℤ.pos n) else none)
with_length-positive address n = ground arith

with_length-negative :
    (address n : ℕ)
    → with_length address (if leb n (int_max + 1) then some (opposite n) else none)
      ≡ (if leb n 0x80000000 then some (address, opposite n) else none)
with_length-negative address zero = refl
with_length-negative address (suc n) = ground arith

-- A text without a slash, which `inet_addr` does not refuse, a slash and decimal digits, at least
-- one, are accepted exactly if the number that the digits stand for by their places, leading
-- zeros or not, is at most 32; with a minus sign before the digits they are accepted exactly if
-- the number is at most 2^31. The address of the text and the number, with its sign, are returned
-- then.
pub str2ip-digits :
    (inet_addr : Chars → ℕ) (a : Chars) (c : ℕ) (s : Chars)
    → has_slash a ≡ false
    → inet_addr a ≢ 0xffffffff
    → all_digits (c ∷ s) ≡ true
    → let n = place_value (c ∷ s) in
      (str2ip inet_addr (a ++ (b'/' ∷ c ∷ s))
        ≡ (if leb n 32 then some (inet_addr a, ℤ.pos n) else none))
      × (str2ip inet_addr (a ++ (b'/' ∷ b'-' ∷ c ∷ s))
          ≡ (if leb n 0x80000000 then some (inet_addr a, opposite n) else none))
unfolding str2ip
str2ip-digits inet_addr a c s h ok digits =
    let n = place_value (c ∷ s) in
    (
      ap (read_parts inet_addr) (split_slash-append a (c ∷ s) h)
          ∙ read_parts-with_length inet_addr a (c ∷ s) ok
          ∙ ap (with_length (inet_addr a)) (str2int-digits c s digits)
          ∙ with_length-positive (inet_addr a) n,
      ap (read_parts inet_addr) (split_slash-append a (b'-' ∷ c ∷ s) h)
          ∙ read_parts-with_length inet_addr a (b'-' ∷ c ∷ s) ok
          ∙ ap (with_length (inet_addr a)) (str2int-negative c s digits)
          ∙ with_length-negative (inet_addr a) n,
    )
