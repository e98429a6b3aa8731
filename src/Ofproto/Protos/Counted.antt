-- ===== src/Ofproto/Protos/Counted.antt =====
-- The ofprotos of src/ops-fpa-ofproto.c and the count of openings of src/ops-fpa-dev.c.
use switchd_fpa_plugin.Prelude.{
  ℕ, ◌+◌, ◌<◌, ◌≡◌, refl, sym, ap, ◌∙◌, Bool, true, false, not, Option, none, some, List, [], ◌∷◌,
  arith, ◌==◌, any, drop_first, length, Bool-cases, Option-cases, inl, inr,
}
use switchd_fpa_plugin.Fpa.{Fpa}
use switchd_fpa_plugin.Os.{Name, Os}
use switchd_fpa_plugin.MacLearning.{Env, MacLearning, flush}
use switchd_fpa_plugin.Dev.{FpaDev, ◌>>=◌, DevState, dev_mutex_lock, dev_mutex_unlock, dev_by_id}
use switchd_fpa_plugin.Dev.Lifetime.{dev_init, dev_deinit}
use switchd_fpa_plugin.Ofproto.Ports.{PortMap}
use switchd_fpa_plugin.Ofproto.Bundles.{OfprotoType}
use switchd_fpa_plugin.Ofproto.Protos.{
  Proto, is_named, ProtoState, construct, destruct, with_ml, run, fdb_flush, fdb_flush_all,
  fdb_configure_aging, ofproto_lookup,
}

-- How often the device has been opened.
abbrev pub openings : Option FpaDev → ℕ
openings none = 0
openings (some d) = d.ref_cnt

abbrev pub is_open : Option FpaDev → Bool
is_open none = false
is_open (some d) = true

abbrev pub is_empty : List Proto → Bool
is_empty [] = true
is_empty (p ∷ ps) = false

length-drop_first :
    (test : Proto → Bool) (ps : List Proto)
    → any test ps ≡ true
    → length (drop_first test ps) + 1 ≡ length ps
length-drop_first test [] h = cc
length-drop_first test (p ∷ ps) h = elim (Bool-cases (test p)) [
  | inl hit ↦ ground (arith, hit)
  | inr miss ↦ ground (arith, miss, h, length-drop_first test ps)
]

module _ (F : Fpa) (O : Os) (room sid : ℕ)
    (ml_create : ℕ → F.Hw → ℕ × Option MacLearning × F.Hw) where
  dev_init-openings :
      (st st' : DevState F O) (err : ℕ)
      → openings st.dev < 0xffffffff
      → dev_init F O room ml_create sid st ≡ some (err, st')
      → (openings st'.dev ≡ openings st.dev + 1) × (is_open st'.dev ≡ true)
  unfolding dev_init dev_mutex_lock dev_mutex_unlock
  dev_init-openings st st' err few h = ground (arith, h, few)

  dev_deinit-openings :
      (st st' : DevState F O)
      → openings st.dev < 0x100000000
      → 0 < openings st.dev
      → dev_deinit F O room ml_create sid st ≡ some st'
      → (openings st'.dev + 1 ≡ openings st.dev) × (is_open st'.dev ≡ not (openings st'.dev == 0))
  unfolding dev_deinit dev_mutex_lock dev_mutex_unlock dev_by_id
  dev_deinit-openings st st' few some_open h = ground (arith, h, few, some_open)

  -- What the bridge asks of the class, one call after the other; fewer than 2^32 - 1 ofprotos.
  pub data Step (s : ProtoState F O room sid ml_create) (t : ProtoState F O room sid ml_create)
      : Type 1 where
    constructs :
        (kind : OfprotoType) (name : Name) (err : ℕ)
        → length s.protos < 0xffffffff
        → construct F O room sid ml_create kind name s ≡ some (err, t)
        → Step s t
    destructs :
        (name : Name)
        → any (is_named name) s.protos ≡ true
        → destruct F O room sid ml_create name s ≡ some t
        → Step s t
    runs :
        (E : Env) (ports : PortMap) (timer_expired : Bool) (p : Proto)
        → run F O room sid ml_create E ports timer_expired p s ≡ some t
        → Step s t
    flushes :
        (E : Env) (ports : PortMap) (name : Option Name) (refused : Bool)
        → fdb_flush F O room sid ml_create E ports name s ≡ some (refused, t)
        → Step s t
    ages :
        (name : Name) (idle_time : Option ℕ) (refused : Bool)
        → fdb_configure_aging F O room sid ml_create name idle_time s ≡ some (refused, t)
        → Step s t

  pub data Reached (s : ProtoState F O room sid ml_create)
      : ProtoState F O room sid ml_create → Type 1 where
    start : Reached s s
    later : {t u : ProtoState F O room sid ml_create} → Reached s t → Step t u → Reached s u

  pub record IsCounted (s : ProtoState F O room sid ml_create) : Type 0 where
    pub same : openings s.devs.dev ≡ length s.protos
    pub there : is_open s.devs.dev ≡ not (is_empty s.protos)
    pub few : length s.protos < 0x100000000

  empty-length : (ps : List Proto) → is_empty ps ≡ (length ps == 0)
  empty-length [] = refl
  empty-length (p ∷ ps) = ground arith

  -- A call that keeps the list and the count.
  abbrev AreKept : ProtoState F O room sid ml_create → ProtoState F O room sid ml_create → Type 0
  AreKept s t =
      (t.protos ≡ s.protos)
      × (openings t.devs.dev ≡ openings s.devs.dev)
      × (is_open t.devs.dev ≡ is_open s.devs.dev)

  kept : (s t : ProtoState F O room sid ml_create) → AreKept s t → IsCounted s → IsCounted t
  kept s t k c = record {
    same = k.1 ∙ c.same ∙ sym (ap length k.0);
    there = k.2 ∙ c.there ∙ sym (ap (λ ps. not (is_empty ps)) k.0);
    few = omega (arith, ap length k.0, c.few);
  }

  ran :
      (E : Env) (ports : PortMap) (timer_expired : Bool) (p : Proto)
      (s t : ProtoState F O room sid ml_create)
      → run F O room sid ml_create E ports timer_expired p s ≡ some t
      → AreKept s t
  unfolding run with_ml
  ran E ports timer_expired p s t h = ground (arith, h)

  aged :
      (name : Name) (idle_time : Option ℕ) (refused : Bool)
      (s t : ProtoState F O room sid ml_create)
      → fdb_configure_aging F O room sid ml_create name idle_time s ≡ some (refused, t)
      → AreKept s t
  unfolding fdb_configure_aging
  aged name idle_time refused s t h = ground (arith, h)

  flushed_one :
      (f : MacLearning → Option (MacLearning × F.Hw)) (s t : ProtoState F O room sid ml_create)
      → with_ml F O room sid ml_create f s ≡ some t
      → AreKept s t
  unfolding with_ml
  flushed_one f s t h = ground (arith, h)

  flushed_all :
      (E : Env) (ports : PortMap) (ps : List Proto) (s t : ProtoState F O room sid ml_create)
      → fdb_flush_all F O room sid ml_create E ports ps s ≡ some t
      → AreKept s t
  unfolding fdb_flush_all
  flushed_all E ports [] s t h = ground (arith, h)
  flushed_all E ports (p ∷ ps) s t h =
      let f : MacLearning → Option (MacLearning × F.Hw) =
        λ ml. flush E sid ports ml >>= λ ml1. some (ml1, s.devs.hw) in
      elim (Option-cases (with_ml F O room sid ml_create f s)) [
        | inl stuck ↦ ground (arith, h, stuck)
        | inr one ↦
            let rest = flushed_all E ports ps one.0 t (ground (arith, h, one.1)) in
            let first = flushed_one f s one.0 one.1 in
            (rest.0 ∙ first.0, rest.1 ∙ first.1, rest.2 ∙ first.2)
      ]

  flushed :
      (E : Env) (ports : PortMap) (name : Option Name) (refused : Bool)
      (s t : ProtoState F O room sid ml_create)
      → fdb_flush F O room sid ml_create E ports name s ≡ some (refused, t)
      → AreKept s t
  unfolding fdb_flush
  flushed E ports none refused s t h =
      elim (Option-cases (fdb_flush_all F O room sid ml_create E ports s.protos s)) [
        | inl stuck ↦ ground (arith, h, stuck)
        | inr done ↦ flushed_all E ports s.protos s t (ground (arith, h, done.1))
      ]
  flushed E ports (some name) refused s t h = elim (Option-cases (ofproto_lookup name s.protos)) [
    | inl unknown ↦ ground (arith, h, unknown)
    | inr p ↦ elim (Option-cases (fdb_flush_all F O room sid ml_create E ports (p.0 ∷ []) s)) [
      | inl stuck ↦ ground (arith, h, p.1, stuck)
      | inr done ↦ flushed_all E ports (p.0 ∷ []) s t (ground (arith, h, p.1, done.1))
    ]
  ]

  constructed :
      (kind : OfprotoType) (name : Name) (err : ℕ) (s t : ProtoState F O room sid ml_create)
      → construct F O room sid ml_create kind name s ≡ some (err, t)
      → (dev_init F O room ml_create sid s.devs ≡ some (err, t.devs))
        × (t.protos ≡ record { kind = kind; name = name; port_names = [] } ∷ s.protos)
  unfolding construct
  constructed kind name err s t h = elim (Option-cases (dev_init F O room ml_create sid s.devs)) [
    | inl stuck ↦ ground (arith, h, stuck)
    | inr done ↦ ground (arith, h, done.1)
  ]

  destructed :
      (name : Name) (s t : ProtoState F O room sid ml_create)
      → destruct F O room sid ml_create name s ≡ some t
      → (dev_deinit F O room ml_create sid s.devs ≡ some t.devs)
        × (t.protos ≡ drop_first (is_named name) s.protos)
  unfolding destruct
  destructed name s t h = elim (Option-cases (dev_deinit F O room ml_create sid s.devs)) [
    | inl stuck ↦ ground (arith, h, stuck)
    | inr done ↦ ground (arith, h, done.1)
  ]

  Step-IsCounted : {s t : ProtoState F O room sid ml_create} → Step s t → IsCounted s → IsCounted t
  Step-IsCounted {s} {t} (constructs kind name err room_left h) c =
      let made = constructed kind name err s t h in
      let opened = dev_init-openings s.devs t.devs err (omega (arith, c.same, room_left)) made.0 in
      let longer : length t.protos ≡ length s.protos + 1 = ap length made.1 ∙ omega arith in
      record {
        same = omega (arith, opened.0, longer, c.same);
        there = opened.1 ∙ sym (ap (λ ps. not (is_empty ps)) made.1);
        few = omega (arith, longer, room_left);
      }
  Step-IsCounted {s} {t} (destructs name known h) c =
      let left = destructed name s t h in
      let shorter : length t.protos + 1 ≡ length s.protos =
        ap (λ ps. length ps + 1) left.1 ∙ length-drop_first (is_named name) s.protos known in
      let closed =
        dev_deinit-openings s.devs t.devs (omega (arith, c.same, c.few))
          (omega (arith, c.same, shorter)) left.0 in
      let same : openings t.devs.dev ≡ length t.protos = omega (arith, closed.0, shorter, c.same) in
      record {
        same = same;
        there = closed.1 ∙ ap (λ n. not (n == 0)) same ∙ sym (ap not (empty-length t.protos));
        few = omega (arith, shorter, c.few);
      }
  Step-IsCounted {s} {t} (runs E ports timer_expired p h) c =
      kept s t (ran E ports timer_expired p s t h) c
  Step-IsCounted {s} {t} (flushes E ports name refused h) c =
      kept s t (flushed E ports name refused s t h) c
  Step-IsCounted {s} {t} (ages name idle_time refused h) c =
      kept s t (aged name idle_time refused s t h) c

  -- Whatever ofprotos have been constructed and destructed, fewer than 2^32 at a time, and
  -- whatever runs, flushes and changes of the ageing time have come between, from a state without
  -- ofprotos and device on: the device is there exactly if an ofproto is, and it counts the
  -- ofprotos; a call that fails to open the device counts too.
  pub Reached-IsCounted :
      (devs : DevState F O) (t : ProtoState F O room sid ml_create)
      → devs.dev ≡ none
      → Reached (record { protos = []; devs = devs }) t
      → (openings t.devs.dev ≡ length t.protos) × (is_open t.devs.dev ≡ not (is_empty t.protos))
  Reached-IsCounted devs t none_open r = let c = from r in (c.same, c.there)
    where
      from :
          {u : ProtoState F O room sid ml_create}
          → Reached (record { protos = []; devs = devs }) u
          → IsCounted u
      from start = record {
        same = ap openings none_open;
        there = ap is_open none_open;
        few = omega arith;
      }
      from (later r step) = Step-IsCounted step (from r)
