-- ===== src/Ofproto/Ports/Found.antt =====
-- Finding the ports that are written in the map `ports_by_pid` of src/ops-fpa-ofproto.c.
use switchd_fpa_plugin.Prelude.{
  ℕ, ◌≡◌, refl, Bool, true, some, false, not, List, [], ◌∷◌, arith, ◌==◌, ==_iff, bit_and, find,
  any, ap, ==_refl, Bool-cases, inl, inr,
}
use switchd_fpa_plugin.Hmap.{Hmap, find-insert}
use switchd_fpa_plugin.Ofproto.Ports.{
  Ofport, PortNode, PortMap, same_bucket, get_ofport_by_pid, insert_ofport, set_first, set_ofport,
  port_of,
}

find-set_first :
    (test : PortNode → Bool) (p q : Ofport) (ns : List PortNode)
    → ((n : PortNode) → test (record n { port = p }) ≡ test n)
    → port_of (find test ns) ≡ some q
    → port_of (find test (set_first test p ns)) ≡ some p
unfolding set_first
find-set_first test p q [] same h = cc
find-set_first test p q (n ∷ ns) same h = elim (Bool-cases (test n)) [
  | inl hit ↦ ground (arith, hit, same n)
  | inr miss ↦ ground (arith, miss, h, find-set_first test p q ns same)
]

-- A port that is written is found.
pub get_ofport_by_pid-set_ofport :
    (m : PortMap) (pid : ℕ) (p q : Ofport)
    → get_ofport_by_pid m pid ≡ some q
    → get_ofport_by_pid (set_ofport m pid p) pid ≡ some p
unfolding get_ofport_by_pid set_ofport
get_ofport_by_pid-set_ofport m pid p q h = find-set_first _ p q m.nodes (λ n. refl) h

-- In the map after the insertion of a port, no other port is in the bucket of its number.
abbrev pub IsAloneAt : Hmap → PortMap → ℕ → Ofport → Type 0
IsAloneAt H m pid p = any (same_bucket (insert_ofport H m pid p).mask pid) m.nodes ≡ false

pub get_ofport_by_pid-insert_ofport :
    (H : Hmap) (m : PortMap) (pid : ℕ) (p : Ofport)
    → IsAloneAt H m pid p
    → get_ofport_by_pid (insert_ofport H m pid p) pid ≡ some p
unfolding get_ofport_by_pid insert_ofport
get_ofport_by_pid-insert_ofport H m pid p alone =
    let new : PortNode = record { hash = pid; port = p } in
    ap port_of (
      find-insert H (λ (n : PortNode). n.hash) m.mask
        (same_bucket (H.insert (λ (n : PortNode). n.hash) m.mask new m.nodes).0 pid) new m.nodes
        (==_refl _) alone)

-- Two numbers fall in different buckets.
abbrev pub apart : PortMap → ℕ → ℕ → Bool
apart m a b = not (bit_and a m.mask == bit_and b m.mask)

find-set_first_other :
    (test other : PortNode → Bool) (p : Ofport) (ns : List PortNode)
    → ((n : PortNode) → test n ≡ true → other n ≡ false)
    → ((n : PortNode) → other (record n { port = p }) ≡ other n)
    → port_of (find other (set_first test p ns)) ≡ port_of (find other ns)
unfolding set_first
find-set_first_other test other p [] differ same = refl
find-set_first_other test other p (n ∷ ns) differ same = elim (Bool-cases (test n)) [
  | inl hit ↦ rw hit (ground (arith, hit, differ n, same n))
  | inr miss ↦ rw miss (ground (arith, find-set_first_other test other p ns differ same))
]

-- A write to the port of one number leaves the port of a number in another bucket.
pub get_ofport_by_pid-set_ofport-apart :
    (m : PortMap) (pid q : ℕ) (p : Ofport)
    → apart m pid q ≡ true
    → get_ofport_by_pid (set_ofport m pid p) q ≡ get_ofport_by_pid m q
unfolding get_ofport_by_pid set_ofport
get_ofport_by_pid-set_ofport-apart m pid q p h =
    find-set_first_other (same_bucket m.mask pid) (same_bucket m.mask q) p m.nodes
      (λ n hit. ground (arith, h, (==_iff (bit_and n.hash m.mask) (bit_and pid m.mask)).0 hit))
      (λ n. refl)
