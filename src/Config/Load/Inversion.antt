-- ===== src/Config/Load/Inversion.antt =====
-- How `config_load` came to what it returned.
use watch_it.Base.{ℕ, ◌≡◌, Bool, true, false, Option, some, arith, Option-cases, inl, inr}
use watch_it.Config.Types.{Loader, Ini, Host}
use watch_it.Config.Dirs.{get_watch_dir_count}
use watch_it.Config.Load.{
  config_init, allocate_for, allocate_config, loaded, fault, load_into, config_load, sizeof_conf,
  slots,
}

-- A configuration as `allocate_config` leaves it.
abbrev pub fresh_loader : Option ℕ → Loader
fresh_loader count = record { config = config_init (slots count); mallocs = 2; live = 2 }

module _ (host : Host) (fuel : ℕ) (dict : Ini) where
  pub config_load-loaded :
      (readable : Bool) (l : Loader)
      → config_load host fuel readable (some dict) ≡ some (loaded l)
      → (count : Option ℕ) × (load_into host fuel dict (fresh_loader count) ≡ some l)
  unfolding config_load allocate_config allocate_for
  config_load-loaded false l e = absurd (ground (arith, e))
  config_load-loaded true l e = elim (Option-cases (get_watch_dir_count host fuel dict)) [
    | inl out ↦ absurd (ground (arith, out, e))
    | inr (count, counted) ↦ elim (Option-cases (load_into host fuel dict (fresh_loader count))) [
      | inl out ↦ absurd (ground (arith, counted, out, e))
      | inr (l', w) ↦ (count, ground (arith, counted, w, e))
    ]
  ]

  pub config_load-fault :
      (readable : Bool)
      → config_load host fuel readable (some dict) ≡ some fault
      → host.grants 0 sizeof_conf ≡ false
  unfolding config_load allocate_config allocate_for
  config_load-fault false e = absurd (ground (arith, e))
  config_load-fault true e = elim (Option-cases (get_watch_dir_count host fuel dict)) [
    | inl out ↦ absurd (ground (arith, out, e))
    | inr (count, counted) ↦ elim (Option-cases (load_into host fuel dict (fresh_loader count))) [
      | inl out ↦ ground (arith, counted, out, e)
      | inr (l', w) ↦ ground (arith, counted, w, e)
    ]
  ]
