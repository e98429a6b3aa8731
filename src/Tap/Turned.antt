-- ===== src/Tap/Turned.antt =====
-- The maps of TAP interfaces of src/ops-fpa-tap.c by descriptor and by port: one is the other with
-- the keys and the numbers of the entries exchanged.
use switchd_fpa_plugin.Prelude.{
  ℕ, ◌≡◌, ◌≢◌, refl, ◌∙◌, ap, sym, Bool, true, false, some, [], ◌∷◌, arith, ◌==◌, any, drop_first,
  Bool-cases, inl, inr,
}
use switchd_fpa_plugin.Tap.Maps.{TapIfEntry, TapNode, TapMap, has_key, get_if_entry}

-- The map with keys and numbers exchanged.
abbrev pub turn : TapNode → TapNode
turn n = record { key = n.entry.number; entry = record n.entry { number = n.key } }

abbrev pub turned : TapMap → TapMap
turned [] = []
turned (n ∷ ns) = turn n ∷ turned ns

abbrev pub uses_key : ℕ → TapMap → Bool
uses_key key map = any (has_key key) map

-- No two nodes have one key.
abbrev pub AreDistinct : TapMap → Type 0
AreDistinct [] = Unit {0}
AreDistinct (n ∷ ns) = (uses_key n.key ns ≡ false) × AreDistinct ns

true_ne_false : true ≢ false
true_ne_false e = cc

uses_key-drop_first :
    (key k : ℕ) (map : TapMap)
    → uses_key key map ≡ false
    → uses_key key (drop_first (has_key k) map) ≡ false
uses_key-drop_first key k [] h = refl
uses_key-drop_first key k (n ∷ ns) h = ground (arith, h, uses_key-drop_first key k ns)

pub drop_first-AreDistinct :
    (k : ℕ) (map : TapMap) → AreDistinct map → AreDistinct (drop_first (has_key k) map)
drop_first-AreDistinct k [] d = d
drop_first-AreDistinct k (n ∷ ns) d =
    ground (arith, drop_first-AreDistinct k ns d.1, uses_key-drop_first n.key k ns d.0)

uses_number-drop_first :
    (key k : ℕ) (map : TapMap)
    → uses_key key (turned map) ≡ false
    → uses_key key (turned (drop_first (has_key k) map)) ≡ false
uses_number-drop_first key k [] h = refl
uses_number-drop_first key k (n ∷ ns) h = ground (arith, h, uses_number-drop_first key k ns)

pub drop_first-AreDistinct_turned :
    (k : ℕ) (map : TapMap)
    → AreDistinct (turned map)
    → AreDistinct (turned (drop_first (has_key k) map))
drop_first-AreDistinct_turned k [] d = d
drop_first-AreDistinct_turned k (n ∷ ns) d =
    ground (
      arith,
      drop_first-AreDistinct_turned k ns d.1,
      uses_number-drop_first n.entry.number k ns d.0,
    )

-- A key that is found is used by the turned map.
found-uses_number :
    (k : ℕ) (map : TapMap) (e : TapIfEntry)
    → get_if_entry map k ≡ some e
    → uses_key e.number (turned map) ≡ true
unfolding get_if_entry
found-uses_number k [] e h = cc
found-uses_number k (n ∷ ns) e h = ground (arith, h, found-uses_number k ns e)

port_clash :
    (n : TapNode) (ns : TapMap) (e : TapIfEntry)
    → AreDistinct (turned (n ∷ ns))
    → (n.entry.number == e.number) ≡ true
    → uses_key e.number (turned ns) ≡ true
    → ⊥
port_clash n ns e d joined used =
    let clash : e.number ≡ n.entry.number = ground (arith, joined) in
    true_ne_false (sym used ∙ ap (λ q. uses_key q (turned ns)) clash ∙ d.0)

-- Removing the interface with a descriptor is removing the one with its port.
pub turned-drop_first :
    (k : ℕ) (map : TapMap) (e : TapIfEntry)
    → AreDistinct (turned map)
    → get_if_entry map k ≡ some e
    → turned (drop_first (has_key k) map) ≡ drop_first (has_key e.number) (turned map)
unfolding get_if_entry
turned-drop_first k [] e d h = cc
turned-drop_first k (n ∷ ns) e d h = elim (Bool-cases (n.key == k)) [
  | inl same ↦ ground (arith, same, h)
  | inr differ ↦
      let found : get_if_entry ns k ≡ some e = ground (arith, differ, h) in
      elim (Bool-cases (n.entry.number == e.number)) [
        | inr apart ↦ ground (arith, differ, apart, turned-drop_first k ns e d.1 found)
        | inl joined ↦ absurd (port_clash n ns e d joined (found-uses_number k ns e found))
      ]
]

-- With no two interfaces of one port, the turned map finds an interface by its port.
pub turned-found :
    (map : TapMap) (k : ℕ) (e : TapIfEntry)
    → AreDistinct (turned map)
    → get_if_entry map k ≡ some e
    → get_if_entry (turned map) e.number ≡ some (record e { number = k })
unfolding get_if_entry
turned-found [] k e d h = cc
turned-found (n ∷ ns) k e d h = elim (Bool-cases (n.key == k)) [
  | inl same ↦ ground (arith, same, h)
  | inr differ ↦
      let found : get_if_entry ns k ≡ some e = ground (arith, differ, h) in
      elim (Bool-cases (n.entry.number == e.number)) [
        | inr apart ↦ ground (arith, apart, turned-found ns k e d.1 found)
        | inl joined ↦ absurd (port_clash n ns e d joined (found-uses_number k ns e found))
      ]
]
