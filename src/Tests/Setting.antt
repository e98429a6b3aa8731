-- ===== src/Tests/Setting.antt =====
-- What the tests share: the simulated switch, a system without /dev/net/tun that counts its calls,
-- and the other parameters.
use switchd_fpa_plugin.Prelude.{
  ◌/◌, ◌*◌, ◌++◌, List, ◌∷◌, length, ltb, if◌then◌else◌, Bool-cases, inl, inr, refl, ℕ, ◌+◌, false,
  Option, none, some, [],
}
use switchd_fpa_plugin.Ofproto.Hosts.{HostKey}
use switchd_fpa_plugin.Hmap.{Hmap}
use mathlib.Core.List.{Permᴰ}
use mathlib.Core.List.Permᴰ
use switchd_fpa_plugin.Fpa.{Fpa}
use switchd_fpa_plugin.Fpa.Sim.{Switch, sim}
use switchd_fpa_plugin.Os.{Os, WaitStatus}
use switchd_fpa_plugin.Strings.{Chars}
use switchd_fpa_plugin.MacLearning.{Env, MacLearning}

abbrev pub F : Fpa
F = sim 100

-- A switch without entries.
abbrev pub blank : Switch
blank = record { flow = λ s t. []; group = λ s. []; aging = 300; down = λ s p. false }

abbrev pub O : Os
O = record {
  World = ℕ;
  system = λ c n. (WaitStatus.exited 0, n + 1);
  open_tun = λ n. (none, n + 1);
  tunsetiff = λ fd name n. (some name, n + 1);
  set_nonblocking = λ fd n. (0, n + 1);
  close = λ fd n. n + 1;
  pipe = λ n. ((n, n + 1), n + 2);
}

pub last-perm : {A : Type 0} → (x : A) (xs : List A) → Permᴰ (xs ++ (x ∷ [])) (x ∷ xs)
last-perm x [] = Permᴰ.cons refl Permᴰ.nil
last-perm x (y ∷ ys) = Permᴰ.trans (Permᴰ.cons refl (last-perm x ys)) (Permᴰ.swap refl refl)

-- A hash map that puts a new node first, but last where the map grows.
abbrev pub put : {A : Type 0} → (A → ℕ) → ℕ → A → List A → ℕ × List A
put hash mask x xs =
    if ltb mask ((length xs + 1) / 2) then (2 * mask + 1, xs ++ (x ∷ [])) else (mask, x ∷ xs)

pub put-perm :
    {A : Type 0}
    → (hash : A → ℕ) (mask : ℕ) (x : A) (xs : List A) → Permᴰ (put hash mask x xs).1 (x ∷ xs)
put-perm hash mask x xs = elim (Bool-cases (ltb mask ((length xs + 1) / 2))) [
  | inl grows ↦ rw grows (last-perm x xs)
  | inr stays ↦ rw stays (Permᴰ.refl (x ∷ xs))
]

abbrev pub growing : Hmap
growing = record { insert = put; insert-perm = put-perm }

abbrev pub E : Env
E = record {
  hash_bytes = λ vid address. vid + address;
  buffer_size = 2;
  port_name = λ p. [];
  hmap = growing;
}

abbrev pub key : HostKey
key = record { hash = λ ip. ip; hmap = growing }

abbrev pub inet_addr : Chars → ℕ
inet_addr s = 0x02000001

abbrev pub no_ml : ℕ → F.Hw → ℕ × Option MacLearning × F.Hw
no_ml sid hw = (0, none, hw)
