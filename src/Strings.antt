-- ===== src/Strings.antt =====
-- src/ops-fpa.c: numbers, IPv4 addresses and masks read from text. A string is the list of its
-- bytes without the NUL at its end, NULL is `none`; a C int or long is an integer.
pub mod Masks
pub mod Parse
use switchd_fpa_plugin.Prelude.{
  ℕ, zero, suc, ◌+◌, ◌-◌, ◌*◌, ◌/◌, ◌%◌, ◌^◌, Bool, true, false, not, ◌&&◌, ◌||◌, Option, none,
  some, List, [], ◌∷◌, ◌==◌, ltb, leb, if◌then◌else◌, bit_or,
}

abbrev pub Chars : Type 0
Chars = List ℕ

-- `negsuc n` is -(n + 1).
pub data ℤ : Type 0 where
  pos : ℕ → ℤ
  negsuc : ℕ → ℤ

abbrev pub int_max : ℕ
int_max = 0x7fffffff

abbrev pub long_max : ℕ
long_max = 0x7fffffffffffffff

abbrev pub is_space : ℕ → Bool
is_space c = c == 32 || leb 9 c && leb c 13

abbrev pub is_digit : ℕ → Bool
is_digit c = leb b'0' c && leb c b'9'

-- What `strtol` in base 10 returns: the number, whether `errno` is set, and what it leaves, `none`
-- where it reads no number.
pub record Strtol : Type 0 where
  pub value : ℤ
  pub erange : Bool
  pub rest : Option Chars

unfoldable pub skip_spaces : Chars → Chars
skip_spaces [] = []
skip_spaces (c ∷ s) = if is_space c then skip_spaces s else c ∷ s

-- The value of the leading digits, and what follows them.
unfoldable pub read_digits : Chars → ℕ → ℕ × Chars
read_digits [] n = (n, [])
read_digits (c ∷ s) n = if is_digit c then read_digits s (n * 10 + (c - b'0')) else (n, c ∷ s)

abbrev pub starts_number : Chars → Bool
starts_number [] = false
starts_number (c ∷ s) = is_digit c

abbrev pub opposite : ℕ → ℤ
opposite zero = ℤ.pos zero
opposite (suc n) = ℤ.negsuc n

unfoldable pub unsigned_part : Bool → Chars → Strtol
unfolding read_digits
unsigned_part negative s =
    let (n, rest) = read_digits s 0 in
    if starts_number s
    then (if negative
        then (if leb n (long_max + 1)
            then record { value = opposite n; erange = false; rest = some rest }
            else record { value = ℤ.negsuc long_max; erange = true; rest = some rest })
        else (if leb n long_max
            then record { value = ℤ.pos n; erange = false; rest = some rest }
            else record { value = ℤ.pos long_max; erange = true; rest = some rest }))
    else record { value = ℤ.pos 0; erange = false; rest = none }

unfoldable pub signed_part : Chars → Strtol
unfolding unsigned_part
signed_part [] = unsigned_part false []
signed_part (c ∷ s) =
    if c == b'-'
    then unsigned_part true s
    else if c == b'+'
    then unsigned_part false s
    else unsigned_part false (c ∷ s)

unfoldable pub strtol : Chars → Strtol
unfolding skip_spaces signed_part
strtol s = signed_part (skip_spaces s)

abbrev pub is_int : ℤ → Bool
is_int (ℤ.pos n) = leb n int_max
is_int (ℤ.negsuc n) = leb n int_max

-- `ops_fpa_str2int`; `none` is the status 1.
unfoldable pub str2int : Option Chars → Option ℤ
unfolding strtol
str2int none = none
str2int (some s) =
    let l = strtol s in
    elim l.rest [
      | none ↦ none
      | some [] ↦ if not l.erange && is_int l.value then some l.value else none
      | some (c ∷ rest) ↦ none
    ]

-- `strchr` for a slash: what stands before it, and what after it where there is one.
unfoldable pub split_slash : Chars → Chars × Option Chars
split_slash [] = ([], none)
split_slash (c ∷ s) =
    let (before, after) = split_slash s in if c == b'/' then ([], some s) else (c ∷ before, after)

-- `OPS_FPA_MAX_IP_PREFIX`.
abbrev pub max_ip_prefix : ℕ
max_ip_prefix = 32

abbrev pub fits_prefix : ℤ → Bool
fits_prefix (ℤ.pos n) = leb n max_ip_prefix
fits_prefix (ℤ.negsuc n) = true

unfoldable pub prefix_of : Option Chars → Option ℤ
unfolding str2int
prefix_of none = some (ℤ.pos max_ip_prefix)
prefix_of (some p) = elim (str2int (some p)) [
  | none ↦ none
  | some len ↦ if fits_prefix len then some len else none
]

-- The parts before and after the slash.
unfoldable pub read_parts : (Chars → ℕ) → Chars × Option Chars → Option (ℕ × ℤ)
unfolding prefix_of
read_parts inet_addr (address, p) = elim (prefix_of p) [
  | none ↦ none
  | some len ↦ if inet_addr address == 0xffffffff then none else some (inet_addr address, len)
]

-- `ops_fpa_str2ip`, with `inet_addr` as a parameter: the address and `*prefixlen`, `none` for the
-- status 1.
unfoldable pub str2ip : (Chars → ℕ) → Chars → Option (ℕ × ℤ)
unfolding split_slash read_parts
str2ip inet_addr s = read_parts inet_addr (split_slash s)

-- `htonl` on a little-endian host.
unfoldable pub htonl : ℕ → ℕ
htonl n =
    n % 0x100 * 0x1000000
    + n / 0x100 % 0x100 * 0x10000
    + n / 0x10000 % 0x100 * 0x100
    + n / 0x1000000 % 0x100

-- `ffs`: one more than the number of the lowest set bit among `k` bits, 0 without one.
unfoldable pub ffs : ℕ → ℕ → ℕ
ffs zero n = 0
ffs (suc k) n =
    let above = ffs k (n / 2) in if n % 2 == 1 then 1 else if above == 0 then 0 else above + 1

unfoldable pub ip4mask_to_prefix_len : ℕ → ℕ
unfolding ffs htonl
ip4mask_to_prefix_len mask =
    let prefix_len = ffs 32 (htonl mask) in
    if prefix_len == 0 then 0 else max_ip_prefix + 1 - prefix_len

-- The loop of `ops_fpa_prefix_len_to_ip4mask`, round `i` on; a shift by a negative number, which C
-- leaves undefined, is that by 0 here.
unfoldable pub set_bits : ℕ → ℕ → ℕ → ℕ
set_bits zero i ip = ip
set_bits (suc n) i ip = set_bits n (suc i) (bit_or ip (2 ^ (31 - i)))

unfoldable pub prefix_len_to_ip4mask : ℕ → ℕ
unfolding set_bits
prefix_len_to_ip4mask prefix = set_bits prefix 0 0
