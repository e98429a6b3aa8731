-- ===== src/Ofproto/Protos.antt =====
-- The list of ofprotos of src/ops-fpa-ofproto.c: `construct`, `destruct` and `run`, the names of
-- their ports, and the commands that work on the table of learned addresses.
pub mod Counted
use switchd_fpa_plugin.Prelude.{
  ℕ, Bool, true, false, not, ◌&&◌, Option, none, some, List, [], ◌∷◌, ◌==◌, if◌then◌else◌, any,
  find, drop_first,
}
use switchd_fpa_plugin.Fpa.{Fpa}
use switchd_fpa_plugin.Os.{Name, Os}
use switchd_fpa_plugin.MacLearning.{
  Env, MacLearning, flush, set_idle_time, get_idle_time, on_mlearn_timer_expired,
}
use switchd_fpa_plugin.Netdev.{bytes_eq}
use switchd_fpa_plugin.Tap.Interfaces.{bridge_normal}
use switchd_fpa_plugin.Dev.{FpaDev, ◌>>=◌, DevState}
use switchd_fpa_plugin.Dev.Lifetime.{dev_init, dev_deinit}
use switchd_fpa_plugin.Ofproto.Ports.{PortMap}
use switchd_fpa_plugin.Ofproto.Bundles.{OfprotoType}
use switchd_fpa_plugin.Prelude.Errno.{enodev}

-- What the list needs of a `struct fpa_ofproto`; `port_names` is a set.
pub record Proto : Type 0 where
  pub kind : OfprotoType
  pub name : Name
  pub port_names : List Name

abbrev pub is_named : Name → Proto → Bool
is_named name p = bytes_eq p.name name

unfoldable pub ofproto_lookup : Name → List Proto → Option Proto
ofproto_lookup name protos = find (is_named name) protos

unfoldable pub port_add : Name → Proto → Proto
port_add devname p =
    if any (bytes_eq devname) p.port_names
    then p
    else record p { port_names = devname ∷ p.port_names }

-- `ofp_port` is that of the port of this name, `none` without one, and `type` that of its netdev.
unfoldable pub port_query_by_name :
    {A : Type 0} → Proto → Name → Option A → Option ℕ → ℕ × Option (A × Option ℕ)
port_query_by_name p devname type ofp_port =
    let known : ℕ × Option _ = elim type [
      | none ↦ (enodev, none)
      | some t ↦ (0, some (t, ofp_port))
    ] in
    if any (bytes_eq devname) p.port_names then known else (enodev, none)

-- `sid` is `FPA_DEV_SWITCH_ID_DEFAULT`.
module _ (F : Fpa) (O : Os) (room sid : ℕ)
    (ml_create : ℕ → F.Hw → ℕ × Option MacLearning × F.Hw) where
  pub record ProtoState : Type 0 where
    pub protos : List Proto
    pub devs : DevState F O

  -- The ofproto is in the list whether the device could be opened or not.
  unfoldable pub construct : OfprotoType → Name → ProtoState → Option (ℕ × ProtoState)
  construct kind name st = do
    done ← dev_init F O room ml_create sid st.devs
    let p : Proto = record { kind = kind; name = name; port_names = [] }
    some (done.0, record { protos = p ∷ st.protos; devs = done.1 })

  unfoldable pub destruct : Name → ProtoState → Option ProtoState
  destruct name st = do
    left ← dev_deinit F O room ml_create sid st.devs
    some (record { protos = drop_first (is_named name) st.protos; devs = left })

  -- The table of the device, which may be NULL.
  unfoldable pub with_ml :
      (MacLearning → Option (MacLearning × F.Hw)) → ProtoState → Option ProtoState
  with_ml f st = do
    d ← st.devs.dev
    ml ← d.ml
    r ← f ml
    some (record st { devs = record st.devs { dev = some (record d { ml = some r.0 }); hw = r.1 } })

  -- Only the default bridge looks at the timer.
  unfoldable pub run : Env → PortMap → Bool → Proto → ProtoState → Option ProtoState
  unfolding on_mlearn_timer_expired with_ml
  run E ports timer_expired p st =
      let is_system : Bool = elim p.kind [
        | OfprotoType.system ↦ true
        | OfprotoType.vrf ↦ false
        | OfprotoType.other ↦ false
      ] in
      let ticked =
        with_ml
          (λ ml.
            some (if timer_expired then on_mlearn_timer_expired E sid ports ml else ml, st.devs.hw))
          st in
      if is_system && bytes_eq p.name bridge_normal then ticked else some st

  -- `fpa/fdb/flush` without a bridge, over the ofprotos that are left.
  unfoldable pub fdb_flush_all : Env → PortMap → List Proto → ProtoState → Option ProtoState
  fdb_flush_all E ports [] st = some st
  fdb_flush_all E ports (p ∷ ps) st = do
    st1 ← with_ml (λ ml. do ml1 ← flush E sid ports ml; some (ml1, st.devs.hw)) st
    fdb_flush_all E ports ps st1

  -- The command; the Boolean says whether the reply is an error.
  unfoldable pub fdb_flush : Env → PortMap → Option Name → ProtoState → Option (Bool × ProtoState)
  fdb_flush E ports none st = do st1 ← fdb_flush_all E ports st.protos st; some (false, st1)
  fdb_flush E ports (some name) st = elim (ofproto_lookup name st.protos) [
    | none ↦ some (true, st)
    | some p ↦ do st1 ← fdb_flush_all E ports (p ∷ []) st; some (false, st1)
  ]

  -- `fpa/fdb/set-age`, with the time that `ovs_scan` reads.
  unfoldable pub fdb_configure_aging : Name → Option ℕ → ProtoState → Option (Bool × ProtoState)
  unfolding ofproto_lookup set_idle_time
  fdb_configure_aging name idle_time st = elim (ofproto_lookup name st.protos) [
    | none ↦ some (true, st)
    | some p ↦ elim idle_time [
      | none ↦ some (true, st)
      | some t ↦ do
        d ← st.devs.dev
        ml ← d.ml
        let (err, ml1, hw1) = set_idle_time F d.switch_id t ml st.devs.hw
        some (
          not (err == 0),
          record st { devs = record st.devs { dev = some (record d { ml = some ml1 }); hw = hw1 } },
        )
    ]
  ]
