-- ===== src/Netdev/Macs.antt =====
-- The MAC addresses that `ops_fpa_netdev_construct` of src/ops-fpa-netdev.c gives.
use switchd_fpa_plugin.Prelude.{
  sym, ℕ, zero, suc, ◌+◌, ◌/◌, ◌%◌, ◌<◌, ◌≤◌, ◌≡◌, ap, ◌∙◌, some, List, [], ◌∷◌, arith, ◌==◌,
  ==_iff, Bool-cases, inl, inr, length, get_elem?,
}
use switchd_fpa_plugin.Fpa.{Fpa}
use switchd_fpa_plugin.Os.{Name}
use switchd_fpa_plugin.Netdev.{FpaNetdev, NetdevClass, mac_of_counter, construct}

mac_of_counter-eq : (n : ℕ) → n < 0x100000000 → mac_of_counter n ≡ 0xaa5500000000 + n
unfolding mac_of_counter
mac_of_counter-eq n h = omega arith

-- Devices constructed one after the other, from a counter on.
unfoldable pub construct_all : Fpa → List (NetdevClass × Name) → ℕ → List FpaNetdev
unfolding construct
construct_all F [] n = []
construct_all F ((class, name) ∷ rest) n =
    let (dev, next) = construct F class name n in dev ∷ construct_all F rest next

counted :
    (F : Fpa) (xs : List (NetdevClass × Name)) (n i : ℕ) (d : FpaNetdev)
    → n < 0x100000000
    → get_elem? (construct_all F xs n) i ≡ some d
    → (d.mac ≡ mac_of_counter ((n + i) % 0x100000000)) × (i < length xs)
unfolding construct_all construct
counted F [] n i d n32 h = cc
counted F (x ∷ xs) n zero d n32 h =
    let same : n ≡ (n + 0) % 0x100000000 = omega arith in
    (rw (← same) (ground (arith, h)), omega arith)
counted F (x ∷ xs) n (suc i) d n32 h =
    let next = (n + 1) % 0x100000000 in
    let rest = counted F xs next i d (omega arith) h in
    let same : (next + i) % 0x100000000 ≡ (n + suc i) % 0x100000000 = omega arith in
    (rest.0 ∙ ap mac_of_counter same, omega (arith, rest.1))

-- Of at most 2^32 devices constructed one after the other, from whatever counter below 2^32 on,
-- two have the same MAC address only if they are the same device, and the address of each is
-- below 2^48, of one interface, and administered locally.
pub construct_all-mac :
    (F : Fpa) (xs : List (NetdevClass × Name)) (n i j : ℕ) (d e : FpaNetdev)
    → n < 0x100000000
    → length xs ≤ 0x100000000
    → get_elem? (construct_all F xs n) i ≡ some d
    → get_elem? (construct_all F xs n) j ≡ some e
    → ((d.mac == e.mac) ≡ (i == j)) × (d.mac < 0x1000000000000) × (d.mac / 0x10000000000 % 4 ≡ 2)
construct_all-mac F xs n i j d e n32 few at_i at_j =
    let (mac_i, i_in) = counted F xs n i d n32 at_i in
    let (mac_j, j_in) = counted F xs n j e n32 at_j in
    let eq_i = mac_of_counter-eq ((n + i) % 0x100000000) (omega arith) in
    let eq_j = mac_of_counter-eq ((n + j) % 0x100000000) (omega arith) in
    (
      elim (Bool-cases (i == j)) [
        | inl same ↦
            let at = (==_iff i j).0 same in
            (==_iff d.mac e.mac).1
              (mac_i ∙ ap (λ k. mac_of_counter ((n + k) % 0x100000000)) at ∙ sym mac_j)
            ∙ sym same
        | inr apart ↦ elim (Bool-cases (d.mac == e.mac)) [
          | inr differ ↦ differ ∙ sym apart
          | inl same ↦
              let eq = (==_iff d.mac e.mac).0 same in
              let at : i ≡ j = omega (arith, eq, mac_i, mac_j, eq_i, eq_j, i_in, j_in, few) in
              absurd (ground (arith, (==_iff i j).1 at, apart))
        ]
      ],
      omega (arith, mac_i, eq_i),
      omega (arith, mac_i, eq_i),
    )
