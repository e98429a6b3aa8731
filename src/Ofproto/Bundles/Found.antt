-- ===== src/Ofproto/Bundles/Found.antt =====
-- Bundles of src/ops-fpa-ofproto.c that are written are found.
use switchd_fpa_plugin.Prelude.{
  ℕ, ◌≡◌, refl, sym, ap, ◌∙◌, true, some, List, [], ◌∷◌, arith, ◌==◌, ==_iff, Bool-cases, inl, inr,
}
use switchd_fpa_plugin.Ofproto.Bundles.{FpaBundle, find_bundle, set_bundle, has_aux}

pub find_bundle-aux :
    (aux : ℕ) (b : FpaBundle) (bs : List FpaBundle) → find_bundle aux bs ≡ some b → b.aux ≡ aux
unfolding find_bundle
find_bundle-aux aux b [] h = cc
find_bundle-aux aux b (x ∷ xs) h = elim (Bool-cases (has_aux aux x)) [
  | inl hit ↦
      let first : x ≡ b = ground (arith, hit, h) in
      ap (λ (y : FpaBundle). y.aux) (sym first) ∙ (==_iff x.aux aux).0 hit
  | inr miss ↦ find_bundle-aux aux b xs (ground (arith, miss, h))
]

-- A bundle that is written under its key is found.
pub find_bundle-set_bundle :
    (aux : ℕ) (b c : FpaBundle) (bs : List FpaBundle)
    → find_bundle aux bs ≡ some b
    → c.aux ≡ aux
    → find_bundle aux (set_bundle c bs) ≡ some c
unfolding find_bundle set_bundle
find_bundle-set_bundle aux b c [] h same = cc
find_bundle-set_bundle aux b c (x ∷ xs) h same =
    let here : has_aux aux c ≡ true = (==_iff c.aux aux).1 same in
    let test : has_aux c.aux x ≡ has_aux aux x = ap (λ a. x.aux == a) same in
    elim (Bool-cases (has_aux aux x)) [
      | inl hit ↦ rw (test ∙ hit) (rw here refl)
      | inr miss ↦
          rw (test ∙ miss)
            (rw miss (find_bundle-set_bundle aux b c xs (ground (arith, miss, h)) same))
    ]
