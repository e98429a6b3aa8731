-- ===== src/Netdev/Features.antt =====
-- The features of a port as the library and as OVS number them, in src/ops-fpa-netdev.c.
use mathlib.Core.Bool.{and-true, and-false, or-false, or_self, or_self_left, or_assoc}
use switchd_fpa_plugin.Prelude.{
  ℕ, ◌≡◌, refl, ap, ◌∙◌, Bool, true, false, ◌&&◌, ◌||◌, List, [], ◌∷◌, arith, ◌==◌, if◌then◌else◌,
  any,
}
use switchd_fpa_plugin.Prelude.Bitmap.{Bitmap, empty, set1}
use switchd_fpa_plugin.Fpa.Ports.{
  Feature, NetdevFeature, feature_no, netdev_feature_no, FeatureBits,
}

-- The feature of OVS on the same line as one of the library; both functions have these lines.
abbrev pub netdev_of : Feature → NetdevFeature
netdev_of Feature.mb10_hd = NetdevFeature.mb10_hd
netdev_of Feature.mb10_fd = NetdevFeature.mb10_fd
netdev_of Feature.mb100_hd = NetdevFeature.mb100_hd
netdev_of Feature.mb100_fd = NetdevFeature.mb100_fd
netdev_of Feature.gb1_hd = NetdevFeature.gb1_hd
netdev_of Feature.gb1_fd = NetdevFeature.gb1_fd
netdev_of Feature.gb2_5_fd = NetdevFeature.other
netdev_of Feature.gb10_fd = NetdevFeature.gb10_fd
netdev_of Feature.gb20_fd = NetdevFeature.other
netdev_of Feature.gb40_fd = NetdevFeature.gb40_fd
netdev_of Feature.gb100_fd = NetdevFeature.gb100_fd
netdev_of Feature.tb1_fd = NetdevFeature.tb1_fd
netdev_of Feature.other = NetdevFeature.other
netdev_of Feature.copper = NetdevFeature.copper
netdev_of Feature.fiber = NetdevFeature.fiber
netdev_of Feature.autoneg = NetdevFeature.autoneg
netdev_of Feature.pause = NetdevFeature.pause
netdev_of Feature.pause_asym = NetdevFeature.pause_asym

abbrev pub all_features : List Feature
all_features =
    Feature.mb10_hd ∷ Feature.mb10_fd ∷ Feature.mb100_hd ∷ Feature.mb100_fd ∷ Feature.gb1_hd
    ∷ Feature.gb1_fd ∷ Feature.gb2_5_fd ∷ Feature.gb10_fd ∷ Feature.gb20_fd ∷ Feature.gb40_fd
    ∷ Feature.gb100_fd ∷ Feature.tb1_fd ∷ Feature.other ∷ Feature.copper ∷ Feature.fiber
    ∷ Feature.autoneg ∷ Feature.pause ∷ Feature.pause_asym ∷ []

-- One line for each feature: `if (word & from) result |= to`.
unfoldable pub translate : (Feature → ℕ) → (Feature → ℕ) → List Feature → Bitmap → Bitmap → Bitmap
translate from to [] word result = result
translate from to (f ∷ fs) word result =
    translate from to fs word (if word (from f) then set1 result (to f) else result)

module _ (B : FeatureBits) where
  unfoldable pub fpa_to_netdev_features : Bitmap → Bitmap
  unfolding translate
  fpa_to_netdev_features word =
      translate B.fpa_bit (λ f. B.netdev_bit (netdev_of f)) all_features word empty

  unfoldable pub netdev_to_fpa_features : Bitmap → Bitmap
  unfolding translate
  netdev_to_fpa_features word =
      translate (λ f. B.netdev_bit (netdev_of f)) B.fpa_bit all_features word empty

translate-bit :
    (from to : Feature → ℕ) (fs : List Feature) (word result : Bitmap) (j : ℕ)
    → translate from to fs word result j ≡ (result j || any (λ f. word (from f) && j == to f) fs)
unfolding translate
translate-bit from to [] word result j = ground arith
translate-bit from to (f ∷ fs) word result j =
    translate-bit from to fs word (if word (from f) then set1 result (to f) else result) j
    ∙ ground arith

any-congr :
    (p q : Feature → Bool) (fs : List Feature) → ((f : Feature) → p f ≡ q f) → any p fs ≡ any q fs
any-congr p q [] h = refl
any-congr p q (f ∷ fs) h = ground (arith, h f, any-congr p q fs h)

ruleset bool_laws = (and-true, and-false, or-false, or_self, or_self_left, or_assoc)

-- Of all features only `f` has its number.
only_one :
    (w : NetdevFeature → Bool) (f : Feature)
    → any (λ g. w (netdev_of g) && feature_no f == feature_no g) all_features ≡ w (netdev_of f)
only_one w Feature.mb10_hd = simp bool_laws
only_one w f = simp bool_laws

-- Every feature of OVS stands on a line, and only lines with it count.
some_line :
    (w : NetdevFeature → Bool) (x : NetdevFeature)
    → any
        (λ f. w (netdev_of f) && netdev_feature_no x == netdev_feature_no (netdev_of f))
        all_features
      ≡ w x
some_line w NetdevFeature.mb10_hd = simp bool_laws
some_line w x = simp bool_laws

-- `NETDEV_F_OTHER` stands for three features of the library.
abbrev pub is_other : Feature → Bool
is_other Feature.gb2_5_fd = true
is_other Feature.gb20_fd = true
is_other Feature.other = true
is_other f = false

lines_of :
    (w : Feature → Bool) (f : Feature)
    → any
        (λ g. w g && netdev_feature_no (netdev_of f) == netdev_feature_no (netdev_of g))
        all_features
      ≡ (if is_other f then w Feature.gb2_5_fd || w Feature.gb20_fd || w Feature.other else w f)
lines_of w Feature.mb10_hd = simp bool_laws
lines_of w f = simp bool_laws

module _ (B : FeatureBits) where
  netdev_to_fpa-bit :
      (n : Bitmap) (f : Feature)
      → netdev_to_fpa_features B n (B.fpa_bit f) ≡ n (B.netdev_bit (netdev_of f))
  unfolding netdev_to_fpa_features
  netdev_to_fpa-bit n f =
      translate-bit (λ g. B.netdev_bit (netdev_of g)) B.fpa_bit all_features n empty (B.fpa_bit f)
      ∙ any-congr (λ g. n (B.netdev_bit (netdev_of g)) && B.fpa_bit f == B.fpa_bit g)
          (λ g. n (B.netdev_bit (netdev_of g)) && feature_no f == feature_no g) all_features
          (λ g. ap (λ b. n (B.netdev_bit (netdev_of g)) && b) (B.fpa_distinct f g))
      ∙ only_one (λ x. n (B.netdev_bit x)) f

  fpa_to_netdev-bit :
      (w : Bitmap) (x : NetdevFeature)
      → fpa_to_netdev_features B w (B.netdev_bit x)
        ≡ any
            (λ f. w (B.fpa_bit f) && netdev_feature_no x == netdev_feature_no (netdev_of f))
            all_features
  unfolding fpa_to_netdev_features
  fpa_to_netdev-bit w x =
      translate-bit B.fpa_bit (λ f. B.netdev_bit (netdev_of f)) all_features w empty
        (B.netdev_bit x)
      ∙ any-congr (λ f. w (B.fpa_bit f) && B.netdev_bit x == B.netdev_bit (netdev_of f))
          (λ f. w (B.fpa_bit f) && netdev_feature_no x == netdev_feature_no (netdev_of f))
          all_features (λ f. ap (λ b. w (B.fpa_bit f) && b) (B.netdev_distinct x (netdev_of f)))

  -- Features of OVS that are translated to the library and back are as they were; of features of
  -- the library that are translated to OVS and back each is as it was, but the three for 2.5G,
  -- 20G and other, each of which is there if one of them was.
  pub features-there_and_back :
      (n w : Bitmap) (x : NetdevFeature) (f : Feature)
      → (fpa_to_netdev_features B (netdev_to_fpa_features B n) (B.netdev_bit x)
          ≡ n (B.netdev_bit x))
        × (netdev_to_fpa_features B (fpa_to_netdev_features B w) (B.fpa_bit f) ≡ (
            if is_other f
            then w (B.fpa_bit Feature.gb2_5_fd)
              || w (B.fpa_bit Feature.gb20_fd)
              || w (B.fpa_bit Feature.other)
            else w (B.fpa_bit f)))
  features-there_and_back n w x f = (
    fpa_to_netdev-bit (netdev_to_fpa_features B n) x
        ∙ any-congr
            (λ g.
              netdev_to_fpa_features B n (B.fpa_bit g)
              && netdev_feature_no x == netdev_feature_no (netdev_of g))
            (λ g.
              n (B.netdev_bit (netdev_of g))
              && netdev_feature_no x == netdev_feature_no (netdev_of g))
            all_features
            (λ g.
              ap (λ b. b && netdev_feature_no x == netdev_feature_no (netdev_of g))
                (netdev_to_fpa-bit n g))
        ∙ some_line (λ y. n (B.netdev_bit y)) x,
    netdev_to_fpa-bit (fpa_to_netdev_features B w) f
        ∙ fpa_to_netdev-bit w (netdev_of f)
        ∙ lines_of (λ g. w (B.fpa_bit g)) f,
  )
