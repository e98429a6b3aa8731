-- ===== src/Calls/Indices.antt =====
-- The next-hop indices of src/ops-fpa-ofproto.c stay below 2^16.
use switchd_fpa_plugin.Ofproto.Hosts.{HostKey}
use switchd_fpa_plugin.Prelude.{
  ℕ, zero, suc, ◌<◌, ◌≡◌, ◌∙◌, refl, subst, false, some, List, [], ◌∷◌, arith, leb, any, get_or,
  set, Bool-cases, inl, inr,
}
use switchd_fpa_plugin.Ofproto.ArpIndices.{alloc_arp_index, release_arp_index}
use switchd_fpa_plugin.Hmap.{any-perm}
use switchd_fpa_plugin.Ofproto.Hosts.{
  host_table_add, HostEntry, HostNode, host_table_find, host_table_delete, is_host,
}

-- No number of a list is 2^16 or more.
abbrev pub AreIndices : List ℕ → Type 0
AreIndices xs = any (leb 0x10000) xs ≡ false

abbrev pub AreHosts : List HostNode → Type 0
AreHosts ns = any (λ n. leb 0x10000 n.entry.arp_index) ns ≡ false

get_or-small : (xs : List ℕ) (i : ℕ) → AreIndices xs → get_or xs i 0 < 0x10000
get_or-small [] i h = omega arith
get_or-small (x ∷ xs) zero h = ground (arith, h)
get_or-small (x ∷ xs) (suc i) h = get_or-small xs i (ground (arith, h))

set-AreIndices : (xs : List ℕ) (i v : ℕ) → v < 0x10000 → AreIndices xs → AreIndices (set xs i v)
set-AreIndices [] i v v16 h = refl
set-AreIndices (x ∷ xs) zero v v16 h = ground (arith, v16, h)
set-AreIndices (x ∷ xs) (suc i) v v16 h =
    ground (arith, h, set-AreIndices xs i v v16 (ground (arith, h)))

pub alloc_arp_index-small :
    (a : List ℕ) (r : ℕ × List ℕ)
    → alloc_arp_index a ≡ some r
    → AreIndices a
    → (r.0 < 0x10000) × AreIndices r.1
unfolding alloc_arp_index
alloc_arp_index-small a r h small =
    let x = get_or a 0 0 in
    let x16 = get_or-small a 0 small in
    let set1 = set-AreIndices a 0 (get_or a x 0) (get_or-small a x small) small in
    let set2 = set-AreIndices (set a 0 (get_or a x 0)) x 0 (omega arith) set1 in
    ground (arith, h, x16, set2)

pub release_arp_index-small :
    (x : ℕ) (a : List ℕ) → x < 0x10000 → AreIndices a → AreIndices (release_arp_index x a)
unfolding release_arp_index
release_arp_index-small x a x16 small =
    set-AreIndices (set a x (get_or a 0 0)) 0 x x16
      (set-AreIndices a x (get_or a 0 0) (get_or-small a 0 small) small)

pub host_table_find-small :
    (key : HostKey) (ip : ℕ) (ns : List HostNode) (entry : HostEntry)
    → host_table_find key ip ns ≡ some entry
    → AreHosts ns
    → entry.arp_index < 0x10000
unfolding host_table_find
host_table_find-small key ip [] entry h small = cc
host_table_find-small key ip (n ∷ ns) entry h small = elim (Bool-cases (is_host key ip n)) [
  | inl hit ↦
      let same : n.entry ≡ entry = ground (arith, hit, h) in
      subst (λ (e : HostEntry). e.arp_index < 0x10000) same (ground (arith, small))
  | inr miss ↦
      host_table_find-small key ip ns entry (ground (arith, miss, h)) (ground (arith, small))
]

pub host_table_add-AreHosts :
    (key : HostKey) (ip x l3 l2 mask : ℕ) (ns : List HostNode)
    → x < 0x10000
    → AreHosts ns
    → AreHosts (host_table_add key ip x l3 l2 mask ns).1
unfolding host_table_add
host_table_add-AreHosts key ip x l3 l2 mask ns x16 small =
    let n : HostNode = record {
      hash = key.hash ip;
      entry = record { ipv4_addr = ip; arp_index = x; l3_group = l3; l2_group = l2 };
    } in
    any-perm (λ (m : HostNode). leb 0x10000 m.entry.arp_index)
      (key.hmap.insert-perm (λ (m : HostNode). m.hash) mask n ns)
    ∙ ground (arith, x16, small)

pub host_table_delete-AreHosts :
    (key : HostKey) (ip : ℕ) (ns : List HostNode)
    → AreHosts ns
    → AreHosts (host_table_delete key ip ns)
unfolding host_table_delete
host_table_delete-AreHosts key ip [] small = refl
host_table_delete-AreHosts key ip (n ∷ ns) small =
    ground (arith, small, host_table_delete-AreHosts key ip ns (ground (arith, small)))
