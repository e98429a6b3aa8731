-- ===== src/Os.antt =====
-- What src/ops-fpa-tap.c and src/ops-fpa-util.c ask of the operating system: a parameter, with the
-- state `World` on which the calls work, and `ops_fpa_system`.
use switchd_fpa_plugin.Prelude.{ℕ, Option, ◌==◌, if◌then◌else◌, List}
use switchd_fpa_plugin.Prelude.Errno.{efault}

abbrev pub Name : Type 0
Name = List ℕ

-- The command lines that the plugin runs.
pub data Command : Type 0 where
  ifconfig_down : Name → Command
  ifconfig_up : Name → Command
  ip_set_address : Name → ℕ → Command
  ip_add_bridge : Name → Command
  ip_delete_bridge : Name → Command
  ip_set_up : Name → Command
  ip_set_master : Name → Name → Command
  ip_set_nomaster : Name → Command

-- What `system` returns, as the macros of sys/wait.h read it.
pub data WaitStatus : Type 0 where
  exited : ℕ → WaitStatus
  signaled : ℕ → WaitStatus
  not_run : WaitStatus

-- `none` is a result below 0; `tunsetiff` is the ioctl, with the name that it writes back.
pub record Os : Type 1 where
  pub World : Type 0
  pub system : Command → World → WaitStatus × World
  pub open_tun : World → Option ℕ × World
  pub tunsetiff : ℕ → Name → World → Option Name × World
  pub set_nonblocking : ℕ → World → ℕ × World
  pub close : ℕ → World → World
  pub pipe : World → (ℕ × ℕ) × World

abbrev pub status_of : WaitStatus → ℕ
status_of (exited code) = if code == 0 then 0 else efault
status_of (signaled n) = efault
status_of not_run = efault

module _ (O : Os) where
  unfoldable pub fpa_system : Command → O.World → ℕ × O.World
  fpa_system command w = let (ret, w') = O.system command w in (status_of ret, w')
