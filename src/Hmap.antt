-- ===== src/Hmap.antt =====
-- The hash maps of Open vSwitch (`hmap.h`), which are not part of the repository: what an insertion
-- does to the nodes of a map, given in the order in which the map is walked.
use switchd_fpa_plugin.Prelude.{
  ℕ, suc, ◌≤◌, ◌≡◌, refl, ap, ap₂, sym, ◌∙◌, Bool, true, false, not, ◌||◌, none, some, List, [],
  ◌∷◌, arith, length, subst, any, find, keep, Bool-cases, inl, inr, if◌then◌else◌,
}
use mathlib.Core.List.{Permᴰ}
use mathlib.Core.List.Permᴰ

-- `hmap_insert` of a node with its hash, into a map with a number of buckets less 1. It may grow the
-- map, and then every node may come to stand elsewhere; but no node is lost, doubled or changed.
pub record Hmap : Type 1 where
  pub insert : {A : Type 0} → (A → ℕ) → ℕ → A → List A → ℕ × List A
  pub insert-perm :
      {A : Type 0}
      → (hash : A → ℕ) (mask : ℕ) (x : A) (xs : List A) → Permᴰ (insert hash mask x xs).1 (x ∷ xs)

module _ {A : Type 0} where
  pub any-perm : (p : A → Bool) {xs ys : List A} → Permᴰ xs ys → any p xs ≡ any p ys
  any-perm p Permᴰ.nil = refl
  any-perm p (Permᴰ.cons e d) = ap₂ (λ a b. p a || b) e (any-perm p d)
  any-perm p (Permᴰ.swap {l = l} e f) = ap₂ (λ a b. p a || (p b || any p l)) e f ∙ ground arith
  any-perm p (Permᴰ.trans d e) = any-perm p d ∙ any-perm p e

  pub length-perm : {xs ys : List A} → Permᴰ xs ys → length xs ≡ length ys
  length-perm Permᴰ.nil = refl
  length-perm (Permᴰ.cons e d) = ap suc (length-perm d)
  length-perm (Permᴰ.swap e f) = refl
  length-perm (Permᴰ.trans d e) = length-perm d ∙ length-perm e

  keep-cons :
      (p : A → Bool) (a : A) (l m : List A)
      → Permᴰ (keep p l) (keep p m)
      → Permᴰ (keep p (a ∷ l)) (keep p (a ∷ m))
  keep-cons p a l m d = elim (Bool-cases (p a)) [
    | inl hit ↦ rw hit (Permᴰ.cons refl d)
    | inr miss ↦ rw miss d
  ]

  keep-swap :
      (p : A → Bool) (a b : A) (l : List A) → Permᴰ (keep p (a ∷ b ∷ l)) (keep p (b ∷ a ∷ l))
  keep-swap p a b l = elim (Bool-cases (p a)) [
    | inl hit_a ↦ elim (Bool-cases (p b)) [
      | inl hit_b ↦ rw (hit_a, hit_b) (Permᴰ.swap refl refl)
      | inr miss_b ↦ rw (hit_a, miss_b) (Permᴰ.refl (a ∷ keep p l))
    ]
    | inr miss_a ↦ elim (Bool-cases (p b)) [
      | inl hit_b ↦ rw (miss_a, hit_b) (Permᴰ.refl (b ∷ keep p l))
      | inr miss_b ↦ rw (miss_a, miss_b) (Permᴰ.refl (keep p l))
    ]
  ]

  pub keep-perm : (p : A → Bool) {xs ys : List A} → Permᴰ xs ys → Permᴰ (keep p xs) (keep p ys)
  keep-perm p Permᴰ.nil = Permᴰ.nil
  keep-perm p (Permᴰ.cons {a = a} {l₁ = l} {l₂ = m} e d) =
      subst (λ b. Permᴰ (keep p (a ∷ l)) (keep p (b ∷ m))) e (keep-cons p a l m (keep-perm p d))
  keep-perm p (Permᴰ.swap {a = a} {b = b} {b' = b'} {l = l} e f) =
      subst (λ c. Permᴰ (keep p (a ∷ b ∷ l)) (keep p (c ∷ b' ∷ l))) f
        (subst (λ c. Permᴰ (keep p (a ∷ b ∷ l)) (keep p (b ∷ c ∷ l))) e (keep-swap p a b l))
  keep-perm p (Permᴰ.trans d e) = Permᴰ.trans (keep-perm p d) (keep-perm p e)

  -- A list of at most one element has no other order.
  perm-one : {xs ys : List A} → Permᴰ xs ys → length xs ≤ 1 → xs ≡ ys
  perm-one Permᴰ.nil few = refl
  perm-one (Permᴰ.cons e d) few = ap₂ (λ a l. a ∷ l) e (perm-one d (omega (arith, few)))
  perm-one (Permᴰ.swap e f) few = absurd (omega (arith, few))
  perm-one (Permᴰ.trans d e) few = perm-one d few ∙ perm-one e (omega (arith, few, length-perm d))

  -- Without the first element that passes the test.
  abbrev pub without_first : (A → Bool) → List A → List A
  without_first p [] = []
  without_first p (x ∷ xs) = if p x then xs else x ∷ without_first p xs

  find-keep : (p : A → Bool) (xs : List A) → find p xs ≡ find (λ x. true) (keep p xs)
  find-keep p [] = refl
  find-keep p (x ∷ xs) = ground (arith, find-keep p xs)

  -- Where at most one element passes, a search does not depend on the order.
  pub find-perm :
      (p : A → Bool) {xs ys : List A} → Permᴰ xs ys → length (keep p ys) ≤ 1 → find p xs ≡ find p ys
  find-perm p {xs} {ys} d few =
      let kept = keep-perm p d in
      find-keep p xs
      ∙ ap (find (λ x. true)) (perm-one kept (omega (arith, few, length-perm kept)))
      ∙ sym (find-keep p ys)

  pub find-none : (p : A → Bool) (xs : List A) → find p xs ≡ none → any p xs ≡ false
  find-none p [] h = refl
  find-none p (x ∷ xs) h = elim (Bool-cases (p x)) [
    | inl hit ↦ ground (arith, h, hit)
    | inr miss ↦ ground (arith, miss, find-none p xs (ground (arith, h, miss)))
  ]

  no_keep : (p : A → Bool) (xs : List A) → any p xs ≡ false → length (keep p xs) ≡ 0
  no_keep p [] h = refl
  no_keep p (x ∷ xs) h = ground (arith, h, no_keep p xs)

  keep_all : (p : A → Bool) (xs : List A) → any p xs ≡ false → keep (λ x. not (p x)) xs ≡ xs
  keep_all p [] h = refl
  keep_all p (x ∷ xs) h = ground (arith, h, keep_all p xs)

  none_kept : (p : A → Bool) (xs : List A) → length (keep p xs) ≤ 0 → any p xs ≡ false
  none_kept p [] h = refl
  none_kept p (x ∷ xs) h = elim (Bool-cases (p x)) [
    | inl hit ↦ ground (arith, h, hit)
    | inr miss ↦ ground (arith, h, miss, none_kept p xs)
  ]

  without_first-keep :
      (p : A → Bool) (xs : List A)
      → length (keep p xs) ≤ 1
      → without_first p xs ≡ keep (λ x. not (p x)) xs
  without_first-keep p [] few = refl
  without_first-keep p (x ∷ xs) few = elim (Bool-cases (p x)) [
    | inl hit ↦
        let rest = none_kept p xs (ground (arith, few, hit)) in
        ground (arith, hit, keep_all p xs rest)
    | inr miss ↦ ground (arith, miss, few, without_first-keep p xs)
  ]

  module _ (H : Hmap) (hash : A → ℕ) (mask : ℕ) (p : A → Bool) (x : A) (xs : List A)
      (passes : p x ≡ true) (alone : any p xs ≡ false) where
    few : length (keep p (x ∷ xs)) ≤ 1
    few = ground (arith, passes, no_keep p xs alone)

    -- A new node is found, where no other one passes the test; and without it the map holds the
    -- nodes that it held before.
    pub find-insert : find p (H.insert hash mask x xs).1 ≡ some x
    find-insert = find-perm p (H.insert-perm hash mask x xs) few ∙ ground (arith, passes)

    pub without_first-insert : Permᴰ (without_first p (H.insert hash mask x xs).1) xs
    without_first-insert =
        let d = H.insert-perm hash mask x xs in
        let same =
          without_first-keep p (H.insert hash mask x xs).1
            (omega (arith, few, length-perm (keep-perm p d))) in
        let kept : keep (λ y. not (p y)) (x ∷ xs) ≡ xs =
          ground (arith, passes, keep_all p xs alone) in
        subst (λ l. Permᴰ l xs) (sym same)
          (subst (λ l. Permᴰ (keep (λ y. not (p y)) (H.insert hash mask x xs).1) l) kept
            (keep-perm (λ y. not (p y)) d))
