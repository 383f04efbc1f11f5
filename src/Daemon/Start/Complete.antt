-- ===== src/Daemon/Start/Complete.antt =====
-- `main` together with `config_load`.
use watch_it.Base.{
  ℕ, ◌^◌, ◌-◌, ◌<◌, ◌≡◌, ◌≢◌, ◌⊎◌, refl, Bool, true, false, some, All, arith, Option-cases, inl,
  inr,
}
use watch_it.CString.{Str, codes}
use watch_it.Config.Types.{Conf, Loader, Ini, Host}
use watch_it.Config.Dirs.{dirs_of}
use watch_it.Config.Dirs.Ends.{IsTree}
use watch_it.Config.Load.{Loaded, null, loaded, fault, config_load, sizeof_conf}
use watch_it.Config.Load.Safe.{config_load-some}
use watch_it.Config.Load.Commands.{HasCommands, GrantsCmd}
use watch_it.Config.Load.Usable.{IsUsable, config_load-IsUsable}
use watch_it.Handling.Types.{State, Env}
use watch_it.Handling.Init.{event_handling_init}
use watch_it.Daemon.Table.{Table, init_name_map}
use watch_it.Daemon.Start.{Kernel, Begun, begin_watch, refused, watching, broken, main, crashes}

Begun-cases :
    (b : Begun) → (b ≡ broken) ⊎ (b ≡ refused) ⊎ ((t : Table) × (s : State) × (b ≡ watching t s))
Begun-cases broken = inl refl
Begun-cases refused = inr (inl refl)
Begun-cases (watching t s) = inr (inr (t, s, refl))

module _ (env : Env) (kernel : Kernel) (grants : (n : ℕ) → env.grants n ≡ true) where
  init-some :
      (created : Bool) (c : Conf) (s : State)
      → HasCommands c
      → (r : State × Bool) × (event_handling_init env created c s ≡ some r)
  unfolding event_handling_init
  init-some created c s both =
      let (opens, o) = both.opens in
      let (closes, k) = both.closes in
      elim (Option-cases (event_handling_init env created c s)) [
        | inl failed ↦
            absurd (ground (arith, o, k, grants s.mallocs, grants (ℕ.suc s.mallocs), failed))
        | inr found ↦ found
      ]

  begin-untyped :
      (c : Conf) (t : Table) (s : State) → c.type ≡ 0 → begin_watch env kernel c t s ≢ broken
  unfolding begin_watch
  begin-untyped c t s h e = ground (arith, h, e)

  begin-commands :
      (c : Conf) (t : Table) (s : State) → HasCommands c → begin_watch env kernel c t s ≢ broken
  unfolding begin_watch
  begin-commands c t s both e =
      let (r, done) = init-some kernel.thread_created c s both in ground (arith, done, e)

  -- `main` goes through NULL after a successful load only if `begin_watch` does.
  main-broken :
      (t : Table) (s : State) (l : Loader)
      → main env kernel t s (loaded l) ≡ crashes
      → begin_watch env kernel l.config (init_name_map t) s ≡ broken
  unfolding main
  main-broken t s l e = elim (Begun-cases (begin_watch env kernel l.config (init_name_map t) s)) [
    | inl found ↦ found
    | inr (inl found) ↦ absurd (ground (arith, found, e))
    | inr (inr (t', s', found)) ↦ absurd (ground (arith, found, e))
  ]

  main-survives :
      (host : Host) (t : Table) (s : State) (r : Loaded)
      → host.grants 0 sizeof_conf ≡ true
      → IsUsable host r
      → main env kernel t s r ≢ crashes
  main-survives host t s null granted usable e = unfold main in ground (arith, e)
  main-survives host t s fault granted usable e = cc (granted, usable)
  main-survives host t s (loaded l) granted (inl untyped) e =
      begin-untyped l.config (init_name_map t) s untyped (main-broken t s l e)
  main-survives host t s (loaded l) granted (inr both) e =
      begin-commands l.config (init_name_map t) s both (main-broken t s l e)

  -- On a finite tree of directories that does not change, with fuel above its height, if `malloc`
  -- gives the configuration, the two commands and their copies, and cannot give 2 ^ 64 - 8 bytes,
  -- `config_load` ends, whether or not the file can be read, and `main` with what it returns does
  -- not go through NULL.
  pub main-ne-crashes :
      (host : Host) (dict : Ini) (height : Str → ℕ) (fuel : ℕ) (readable : Bool) (t : Table)
      (s : State)
      → IsTree host height
      → All (λ dir. height dir < fuel) (dirs_of dict)
      → ((n : ℕ) → host.grants n (2 ^ 64 - 8) ≡ false)
      → host.grants 0 sizeof_conf ≡ true
      → GrantsCmd host dict (codes "folder:close_command")
      → GrantsCmd host dict (codes "folder:open_command")
      → (r : Loaded) × (config_load host fuel readable (some dict) ≡ some r)
        × (main env kernel t s r ≢ crashes)
  main-ne-crashes host dict height fuel readable t s tree low huge granted closes opens =
      let (r, e) = config_load-some host fuel dict height readable tree low huge in
      (
        r,
        e,
        main-survives host t s r granted
            (config_load-IsUsable host dict closes opens fuel readable r e),
      )
