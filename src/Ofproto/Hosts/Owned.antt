-- ===== src/Ofproto/Hosts/Owned.antt =====
-- The hosts of src/ops-fpa-ofproto.c own their next-hop indices: none of them is free or another's.
use switchd_fpa_plugin.Ofproto.Hosts.{HostKey}
use switchd_fpa_plugin.Prelude.{
  ℕ, ◌<◌, ◌≡◌, refl, sym, ◌∙◌, ap, subst, Bool, true, false, some, List, [], ◌∷◌, arith, ◌==◌,
  ==_iff, Bool-cases, inl, inr, any, find,
}
use switchd_fpa_plugin.Hmap.{any-perm}
use mathlib.Core.List.{Permᴰ}
use switchd_fpa_plugin.Ofproto.Hosts.{HostNode, host_table_delete, is_host}

abbrev pub holds : ℕ → HostNode → Bool
holds i n = n.entry.arp_index == i

-- The index of every host is in bounds, not free, and not that of another host.
abbrev pub AreOwned : ℕ → List ℕ → List HostNode → Type 0
AreOwned size free [] = Unit {0}
AreOwned size free (n ∷ ns) =
    (0 < n.entry.arp_index)
    × (n.entry.arp_index < size)
    × (any (λ y. y == n.entry.arp_index) free ≡ false)
    × (any (holds n.entry.arp_index) ns ≡ false)
    × AreOwned size free ns

pub AreOwned-less :
    (size x : ℕ) (xs : List ℕ) (ns : List HostNode)
    → AreOwned size (x ∷ xs) ns
    → AreOwned size xs ns × (any (holds x) ns ≡ false)
AreOwned-less size x xs [] h = (tt, refl)
AreOwned-less size x xs (n ∷ ns) h = ground (arith, h, AreOwned-less size x xs ns h.4)

pub AreOwned-more :
    (size x : ℕ) (xs : List ℕ) (ns : List HostNode)
    → any (holds x) ns ≡ false
    → AreOwned size xs ns
    → AreOwned size (x ∷ xs) ns
AreOwned-more size x xs [] new h = tt
AreOwned-more size x xs (n ∷ ns) new h = ground (arith, new, h, AreOwned-more size x xs ns)

swapped :
    (size : ℕ) (free : List ℕ) (a b : HostNode) (ns : List HostNode)
    → AreOwned size free (b ∷ a ∷ ns)
    → AreOwned size free (a ∷ b ∷ ns)
swapped size free a b ns h = ground (arith, h)

-- In whatever order the hosts stand.
pub AreOwned-perm :
    (size : ℕ) (free : List ℕ) {xs ys : List HostNode}
    → Permᴰ xs ys
    → AreOwned size free ys
    → AreOwned size free xs
AreOwned-perm size free Permᴰ.nil h = tt
AreOwned-perm size free (Permᴰ.cons {a = a} {l₁ = l} {l₂ = m} e d) h =
    let own : AreOwned size free (a ∷ m) = subst (λ n. AreOwned size free (n ∷ m)) (sym e) h in
    (
      own.0,
      own.1,
      own.2,
      any-perm (holds a.entry.arp_index) d ∙ own.3,
      AreOwned-perm size free d own.4,
    )
AreOwned-perm size free (Permᴰ.swap {a = a} {b = b} {b' = b'} {l = l} e f) h =
    swapped size free a b l (
      subst (λ n. AreOwned size free (b ∷ n ∷ l)) (sym e)
        (subst (λ n. AreOwned size free (n ∷ b' ∷ l)) (sym f) h))
AreOwned-perm size free (Permᴰ.trans d e) h =
    AreOwned-perm size free d (AreOwned-perm size free e h)

any-host_table_delete :
    (key : HostKey) (ip i : ℕ) (ns : List HostNode)
    → any (holds i) ns ≡ false
    → any (holds i) (host_table_delete key ip ns) ≡ false
unfolding host_table_delete
any-host_table_delete key ip i [] h = refl
any-host_table_delete key ip i (n ∷ ns) h = ground (arith, h, any-host_table_delete key ip i ns)

holds-apart :
    (i j : ℕ) (ns : List HostNode)
    → any (holds i) ns ≡ true
    → any (holds j) ns ≡ false
    → (i == j) ≡ false
holds-apart i j ns held not_held = elim (Bool-cases (i == j)) [
  | inl same ↦
      let clash : true ≡ false =
        sym held ∙ ap (λ k. any (holds k) ns) ((==_iff i j).0 same) ∙ not_held in
      ground (arith, clash)
  | inr differ ↦ differ
]

-- The host that is found and removed gives its index back.
pub host_table_delete-AreOwned :
    (key : HostKey) (ip size : ℕ) (free : List ℕ) (ns : List HostNode) (n : HostNode)
    → find (is_host key ip) ns ≡ some n
    → AreOwned size free ns
    → (0 < n.entry.arp_index)
      × (n.entry.arp_index < size)
      × (any (λ y. y == n.entry.arp_index) free ≡ false)
      × (any (holds n.entry.arp_index) (host_table_delete key ip ns) ≡ false)
      × (any (holds n.entry.arp_index) ns ≡ true)
      × AreOwned size free (host_table_delete key ip ns)
unfolding host_table_delete
host_table_delete-AreOwned key ip size free [] n at h = cc
host_table_delete-AreOwned key ip size free (m ∷ ms) n at h = elim (Bool-cases (is_host key ip m)) [
  | inl here ↦
      let same : m ≡ n = ground (arith, at, here) in
      subst
        (λ k.
          (0 < k.entry.arp_index)
          × (k.entry.arp_index < size)
          × (any (λ y. y == k.entry.arp_index) free ≡ false)
          × (any (holds k.entry.arp_index) (host_table_delete key ip (m ∷ ms)) ≡ false)
          × (any (holds k.entry.arp_index) (m ∷ ms) ≡ true)
          × AreOwned size free (host_table_delete key ip (m ∷ ms)))
        same (rw here (h.0, h.1, h.2, h.3, ground arith, h.4))
  | inr there ↦
      let rest = host_table_delete-AreOwned key ip size free ms n (ground (arith, at, there)) h.4 in
      let apart = holds-apart n.entry.arp_index m.entry.arp_index ms rest.4 h.3 in
      rw there (
        rest.0,
        rest.1,
        rest.2,
        ground (arith, apart, rest.3),
        ground (arith, rest.4),
        (h.0, h.1, h.2, any-host_table_delete key ip m.entry.arp_index ms h.3, rest.5),
      )
]
