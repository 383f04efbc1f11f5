-- ===== src/Daemon/Start.antt =====
-- `begin_watch` up to its endless loop, and `main`.
pub mod Watched
pub mod Complete
pub mod Configured
pub mod Buffers
pub mod Serves
pub mod Examples
use watch_it.Base.{
  ℕ, ◌^◌, Bool, true, false, not, ◌||◌, List, [], ◌∷◌, Option, none, some, length, take, leb, ltb,
  ◌==◌, if◌then◌else◌,
}
use watch_it.CString.{Str}
use watch_it.Config.Types.{Conf}
use watch_it.Config.Load.{Loaded, null, loaded, fault}
use watch_it.Handling.Types.{State, Env}
use watch_it.Handling.Init.{event_handling_init}
use watch_it.Daemon.Table.{Table, add_to_map, init_name_map}

-- An `int` below 0.
abbrev pub is_negative : ℕ → Bool
is_negative w = leb (2 ^ 31) w

-- What the calls into the system return: `inotify_init`, `inotify_add_watch` by path and mask, and
-- whether `pthread_create` returns 0; for `main`, `fork`, `setsid` and `chdir`.
pub record Kernel : Type 0 where
  pub inotify_init : ℕ
  pub inotify_add_watch : Str → ℕ → ℕ
  pub thread_created : Bool
  pub fork : ℕ
  pub setsid : ℕ
  pub chdir : ℕ

module _ (kernel : Kernel) where
  -- The loop over `watch_dir`; `none` is the return value -1.
  unfoldable pub watch_loop : Conf → List Str → Table → Option Table
  watch_loop config [] t = some t
  watch_loop config (dir ∷ rest) t =
      let wd = kernel.inotify_add_watch dir config.fire_on in
      let (t', added) = add_to_map dir wd config.type config.min_read_close t in
      elim (length dir == 0) [
        | true ↦ watch_loop config rest t
        | false ↦ elim (is_negative wd || not added) [
          | true ↦ none
          | false ↦ watch_loop config rest t'
        ]
      ]

-- How `begin_watch` goes on: it returns -1, it reaches its endless loop of `get_event`, or it goes
-- through NULL.
pub data Begun : Type 0 where
  refused : Begun
  watching : Table → State → Begun
  broken : Begun

module _ (env : Env) (kernel : Kernel) where
  -- From `event_handling_init` on. `watch_dir_count` is the number of names written, so it is not
  -- negative.
  begin_loop : Conf → Table → Option (State × Bool) → Begun
  begin_loop config t none = broken
  begin_loop config t (some (s, started)) =
      if started
      then elim (watch_loop kernel config (take config.watch_dir_count config.watch_dir) t) [
        | none ↦ refused
        | some t' ↦ watching t' s
      ]
      else refused

  unfoldable pub begin_watch : Conf → Table → State → Begun
  unfolding begin_loop
  begin_watch config t s =
      if is_negative kernel.inotify_init
        || config.fire_on == 0
        || config.watch_dir_count == 0
        || config.type == 0
      then refused
      else begin_loop config t (event_handling_init env kernel.thread_created config s)

-- How the process goes on: it exits with a status, serves events, or goes through NULL.
pub data Outcome : Type 0 where
  exits : ℕ → Outcome
  serves : Table → State → Outcome
  crashes : Outcome

abbrev pub exit_failure : ℕ
exit_failure = 1

-- `exit(res ? EXIT_FAILURE : EXIT_SUCCESS)`, where `begin_watch` returns nothing but -1.
after_begin : Begun → Outcome
after_begin refused = exits exit_failure
after_begin (watching t s) = serves t s
after_begin broken = crashes

module _ (env : Env) (kernel : Kernel) where
  -- From `config_load` on. A `return -1` is the status 255.
  after_load : Table → State → Loaded → Outcome
  unfolding after_begin begin_watch init_name_map
  after_load t s null = exits 255
  after_load t s fault = crashes
  after_load t s (loaded l) = after_begin (begin_watch env kernel l.config (init_name_map t) s)

  -- `main`, given what `config_load` does.
  unfoldable pub main : Table → State → Loaded → Outcome
  unfolding after_load
  main t s config =
      if is_negative kernel.fork
      then exits exit_failure
      else if not (kernel.fork == 0)
      then exits 0
      else if is_negative kernel.setsid || is_negative kernel.chdir
      then exits exit_failure
      else after_load t s config
