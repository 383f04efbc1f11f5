-- ===== src/Config/Load/Usable.antt =====
-- What `config_load` hands over to `begin_watch`.
use watch_it.Base.{ℕ, ◌≡◌, refl, Bool, false, some}
use watch_it.CString.{codes}
use watch_it.Config.Types.{Ini, Host}
use watch_it.Config.Load.{config_init, Loaded, null, loaded, fault, config_load, sizeof_conf}
use watch_it.Config.Load.Inversion.{fresh_loader, config_load-loaded, config_load-fault}
use watch_it.Config.Load.Commands.{IsRunnable, GrantsCmd, load_into-IsRunnable}

-- What `config_load` may do: return NULL, return such a configuration, or write through NULL, if
-- the `malloc` of the configuration has failed.
abbrev pub IsUsable : Host → Loaded → Type 0
IsUsable host null = Unit
IsUsable host (loaded l) = IsRunnable l.config
IsUsable host fault = host.grants 0 sizeof_conf ≡ false

module _ (host : Host) (dict : Ini)
    (close_granted : GrantsCmd host dict (codes "folder:close_command"))
    (open_granted : GrantsCmd host dict (codes "folder:open_command")) where
  pub config_load-IsUsable :
      (fuel : ℕ) (readable : Bool) (r : Loaded)
      → config_load host fuel readable (some dict) ≡ some r
      → IsUsable host r
  unfolding config_init
  config_load-IsUsable fuel readable null e = tt
  config_load-IsUsable fuel readable fault e = config_load-fault host fuel dict readable e
  config_load-IsUsable fuel readable (loaded l) e =
      let (count, into) = config_load-loaded host fuel dict readable l e in
      load_into-IsRunnable host dict close_granted open_granted fuel (fresh_loader count) l refl
        into
