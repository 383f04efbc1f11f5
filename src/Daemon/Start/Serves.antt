-- ===== src/Daemon/Start/Serves.antt =====
-- From a file that is in order to a daemon that watches every directory it names.
use watch_it.Base.{ℕ, suc, ◌≡◌, true, false, ◌||◌, [], some}
use watch_it.CString.{Str, codes}
use watch_it.Config.Types.{Ini}
use watch_it.Config.FireOn.Flags.{says, words_of}
use watch_it.Handling.Types.{State, Env}
use watch_it.Daemon.Table.{Table}
use watch_it.Daemon.Start.{Kernel, is_negative}

-- The process is the daemon, and neither `setsid` nor `chdir`, `inotify_init` or `pthread_create`
-- fails.
pub record IsDaemon (kernel : Kernel) : Type 0 where
  pub forked : kernel.fork ≡ 0
  pub leads : is_negative kernel.setsid ≡ false
  pub moves : is_negative kernel.chdir ≡ false
  pub notifies : is_negative kernel.inotify_init ≡ false
  pub starts : kernel.thread_created ≡ true

-- `inotify_add_watch` succeeds for the directory.
abbrev pub Accepts : Kernel → ℕ → Str → Type 0
Accepts kernel mask dir = is_negative (kernel.inotify_add_watch dir mask) ≡ false

-- The file asks for something.
abbrev pub IsAsking : Ini → Type 0
IsAsking dict = (says (codes "OPEN") (words_of dict) || says (codes "CLOSE") (words_of dict)) ≡ true

module _ (env : Env) (kernel : Kernel) (grants : (n : ℕ) → env.grants n ≡ true)
    (daemon : IsDaemon kernel) (dict : Ini) (asking : IsAsking dict) where
  -- What `event_handling_init` makes of a state.
  prepared : Str → Str → ℕ → State → State
  prepared opens closes delay s = record s {
    mallocs = suc (suc s.mallocs);
    live = suc (suc s.live);
    file_event_list = [];
    max_delay_before_fire = delay;
    open_cmd = some opens;
    close_cmd = some closes;
    signaled = false;
    last_tick = 0;
  }
