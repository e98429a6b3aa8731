-- ===== src/Ofproto/ArpIndices.antt =====
-- `arp_indices` of src/ops-fpa-ofproto.c: the free list of next-hop indices. `arp_indices[0]` is the
-- first free index and `arp_indices[i]` the one after `i`; 0 ends the list.
use switchd_fpa_plugin.Prelude.{
  count_up, ℕ, zero, suc, ◌+◌, ◌<◌, ◌≡◌, ◌≢◌, refl, ◌∙◌, false, Option, none, some, List, [], ◌∷◌,
  arith, ◌==◌, if◌then◌else◌, length, get_or, set, any, length-set, get_or-set_self, get_or-set_ne,
}

-- The loop of `ops_fpa_ofproto_init`, from index `i` on with `n` rounds left.
abbrev pub init_from : ℕ → ℕ → List ℕ
init_from zero i = 0 ∷ []
init_from (suc n) i = (i + 1) ∷ init_from n (i + 1)

-- `ARP_INDICES_SIZE`.
abbrev pub arp_indices_size : ℕ
arp_indices_size = 1024

unfoldable pub init_arp_indices : List ℕ
init_arp_indices = init_from arp_indices_size 0

-- The index that is taken, and the array without it.
unfoldable pub alloc_arp_index : List ℕ → Option (ℕ × List ℕ)
alloc_arp_index a =
    let arp_index = get_or a 0 0 in
    if arp_index == 0
    then none
    else some (arp_index, set (set a 0 (get_or a arp_index 0)) arp_index 0)

unfoldable pub release_arp_index : ℕ → List ℕ → List ℕ
release_arp_index arp_index a = set (set a arp_index (get_or a 0 0)) 0 arp_index

-- From `head` the array runs through the indices `free`, none of them 0, out of bounds or met twice.
abbrev pub Chain : List ℕ → ℕ → List ℕ → Type 0
Chain a head [] = head ≡ 0
Chain a head (x ∷ xs) =
    (head ≡ x)
    × (0 < x)
    × (x < length a)
    × (any (λ y. y == x) xs ≡ false)
    × Chain a (get_or a x 0) xs

abbrev pub IsFreeList : List ℕ → List ℕ → Type 0
IsFreeList a free = (0 < length a) × Chain a (get_or a 0 0) free

-- A write to a place that is not on the chain does not change it.
Chain-set :
    (a : List ℕ) (i v head : ℕ) (xs : List ℕ)
    → any (λ y. y == i) xs ≡ false
    → Chain a head xs
    → Chain (set a i v) head xs
Chain-set a i v head [] h c = c
Chain-set a i v head (x ∷ xs) h c =
    let apart : i ≢ x = λ e. ground (arith, h, e) in
    (
      c.0,
      c.1,
      rw (length-set a i v) c.2,
      c.3,
      rw (get_or-set_ne a {i = i} {j = x} v 0 apart)
          (Chain-set a i v (get_or a x 0) xs (ground (arith, h)) c.4),
    )

-- A chain does not run through 0.
Chain-positive :
    (a : List ℕ) (head : ℕ) (xs : List ℕ) → Chain a head xs → any (λ y. y == 0) xs ≡ false
Chain-positive a head [] c = refl
Chain-positive a head (x ∷ xs) c = ground (arith, c.1, Chain-positive a (get_or a x 0) xs c.4)

-- The array after the first index `x` has been taken.
abbrev pub taken : List ℕ → ℕ → List ℕ
taken a x = set (set a 0 (get_or a x 0)) x 0

-- Taking an index from a free list that is not empty gives its first index and leaves the rest of
-- the list free.
pub alloc_arp_index-cons :
    (a : List ℕ) (x : ℕ) (xs : List ℕ)
    → IsFreeList a (x ∷ xs)
    → (alloc_arp_index a ≡ some (x, taken a x)) × IsFreeList (taken a x) xs
unfolding alloc_arp_index
alloc_arp_index-cons a x xs h = (
  rw h.1.0 (ground (arith, h.1.1)),
  rw (length-set (set a 0 (get_or a x 0)) x 0, length-set a 0 (get_or a x 0)) (h.0, chain),
)
  where
    apart : x ≢ 0
    apart e = omega (arith, h.1.1, e)

    first : get_or (taken a x) 0 0 ≡ get_or a x 0
    first =
        get_or-set_ne (set a 0 (get_or a x 0)) {i = x} {j = 0} 0 0 apart
        ∙ get_or-set_self a 0 (get_or a x 0) 0 h.0

    chain : Chain (taken a x) (get_or (taken a x) 0 0) xs
    chain = rw first (
        Chain-set (set a 0 (get_or a x 0)) x 0 (get_or a x 0) xs h.1.3 (
          Chain-set a 0 (get_or a x 0) (get_or a x 0) xs (Chain-positive a (get_or a x 0) xs h.1.4)
            h.1.4))

-- No index is taken from an empty list.
pub alloc_arp_index-nil : (a : List ℕ) → IsFreeList a [] → alloc_arp_index a ≡ none
unfolding alloc_arp_index
alloc_arp_index-nil a h = rw h.1 refl

-- Releasing an index that is in bounds, not 0 and not free puts it in front of the free list.
pub release_arp_index-IsFreeList :
    (x : ℕ) (a free : List ℕ)
    → 0 < x
    → x < length a
    → any (λ y. y == x) free ≡ false
    → IsFreeList a free
    → IsFreeList (release_arp_index x a) (x ∷ free)
unfolding release_arp_index
release_arp_index-IsFreeList x a free pos small new h =
    let linked = set a x (get_or a 0 0) in
    let sized : length linked ≡ length a = length-set a x (get_or a 0 0) in
    let sized' : length (set linked 0 x) ≡ length linked = length-set linked 0 x in
    (
      rw (sized', sized) h.0,
      (
        get_or-set_self linked 0 x 0 (rw sized h.0),
        pos,
        rw (sized', sized) small,
        new,
        rw
            (
              get_or-set_ne linked {i = 0} {j = x} x 0 (λ e. omega (arith, e, pos)),
              get_or-set_self a x (get_or a 0 0) 0 small,
            )
            (Chain-set linked 0 x (get_or a 0 0) free (Chain-positive a (get_or a 0 0) free h.1)
              (Chain-set a x (get_or a 0 0) (get_or a 0 0) free new h.1)),
      ),
    )

length-init_from : (n i : ℕ) → length (init_from n i) ≡ n + 1
length-init_from zero i = refl
length-init_from (suc n) i = omega (arith, length-init_from n (i + 1))

get_or-init_from : (n i k : ℕ) → k < n → get_or (init_from n i) k 0 ≡ i + k + 1
get_or-init_from zero i k h = absurd (omega arith)
get_or-init_from (suc n) i zero h = omega arith
get_or-init_from (suc n) i (suc k) h = omega (arith, get_or-init_from n (i + 1) k (omega arith))

get_or-init_from_last : (n i : ℕ) → get_or (init_from n i) n 0 ≡ 0
get_or-init_from_last zero i = refl
get_or-init_from_last (suc n) i = get_or-init_from_last n (i + 1)

any-count_up : (x i n : ℕ) → x < i → any (λ y. y == x) (count_up i n) ≡ false
any-count_up x i zero h = refl
any-count_up x i (suc n) h = ground (arith, any-count_up x (i + 1) n (omega arith))

init-Chain :
    (size m k : ℕ)
    → k + m ≡ size
    → Chain (init_from size 0) (get_or (init_from size 0) k 0) (count_up (k + 1) m)
init-Chain size zero k h =
    let last : k ≡ size = omega arith in rw last (get_or-init_from_last size 0)
init-Chain size (suc m) k h =
    let at : get_or (init_from size 0) k 0 ≡ k + 1 =
      omega (arith, get_or-init_from size 0 k (omega arith)) in
    (
      at,
      omega arith,
      omega (arith, length-init_from size 0),
      any-count_up (k + 1) (k + 1 + 1) m (omega arith),
      init-Chain size m (k + 1) (omega arith),
    )

-- After `ops_fpa_ofproto_init` the free list is 1, 2 and so on up to `ARP_INDICES_SIZE`, and ends
-- there.
init_arp_indices-IsFreeList : IsFreeList init_arp_indices (count_up 1 arp_indices_size)
unfolding init_arp_indices
init_arp_indices-IsFreeList = (
  omega (arith, length-init_from arp_indices_size 0),
  init-Chain arp_indices_size arp_indices_size 0 refl,
)
