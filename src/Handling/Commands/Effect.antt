-- ===== src/Handling/Commands/Effect.antt =====
-- What running a command leaves behind.
use watch_it.Base.{
  length, ◌<◌, ◌^◌, ℕ, ◌≡◌, true, false, [], ◌∷◌, ◌++◌, some, arith, Option-cases, inl, inr,
}
use watch_it.CString.{Str, strstr}
use watch_it.Replace.Spec.{replace_all, scan-none}
use watch_it.Replace.Bounds.{str_replace-found}
use watch_it.Handling.Types.{State, Env, FileEvent}
use watch_it.Handling.Clock.{get_tick}
use watch_it.Handling.Commands.{placeholder, run_command, execute_open_event, execute_close_event}

-- The command for a file: every placeholder replaced by the name.
abbrev pub expand : Str → Str → Str
expand cmd name = replace_all placeholder name cmd

-- The command, and the command for the file, are shorter than 2 ^ 31 bytes.
pub record IsShort (cmd name : Str) : Type 0 where
  pub before : length cmd < 2 ^ 31
  pub after : length (expand cmd name) < 2 ^ 31

-- No allocation fails.
abbrev pub Grants : Env → Type 0
Grants env = (n : ℕ) → env.grants n ≡ true

module _ (env : Env) (grants : Grants env) where
  -- One command is run, and no block is left allocated.
  pub run_command-executed :
      (cmd name : Str) (f : FileEvent) (s : State)
      → f.name ≡ some name
      → IsShort cmd name
      → ((run_command env cmd f s).executed ≡ s.executed ++ expand cmd name ∷ [])
        × ((run_command env cmd f s).live ≡ s.live)
  unfolding run_command
  run_command-executed cmd name f s n short = elim (Option-cases (strstr cmd placeholder)) [
    | inl plain ↦ ground (arith, plain, scan-none b'@' (b'0' ∷ []) name cmd plain)
    | inr (k, e) ↦ ground (
      arith,
      e,
      n,
      grants s.mallocs,
      str_replace-found b'@' (b'0' ∷ []) cmd (some name) k e short.before short.after,
    )
  ]

-- A command that is not empty is run for a file that has not had it, and the file is marked.
pub execute_open-fires :
    (env : Env) (c : ℕ) (cmd : Str) (f : FileEvent) (s : State)
    → s.open_cmd ≡ some (c ∷ cmd)
    → f.has_fired_open ≡ false
    → f.has_fired_closed ≡ false
    → ((execute_open_event env f s).1 ≡ record f { has_fired_open = true })
      × ((execute_open_event env f s).0 ≡ run_command env (c ∷ cmd) f s)
unfolding execute_open_event
execute_open-fires env c cmd f s e o d = (ground arith, ground arith)

pub execute_close-fires :
    (env : Env) (c : ℕ) (cmd : Str) (f : FileEvent) (s : State)
    → s.close_cmd ≡ some (c ∷ cmd)
    → f.has_fired_open ≡ true
    → f.has_fired_closed ≡ false
    → ((execute_close_event env f s).1 ≡ record f { has_fired_closed = true })
      × ((execute_close_event env f s).0 ≡ run_command env (c ∷ cmd) f s)
unfolding execute_close_event
execute_close-fires env c cmd f s e o d = (ground arith, ground arith)

-- What no step of the program changes once it is set up.
pub record SameSettings (s t : State) : Type 0 where
  pub open_cmd : t.open_cmd ≡ s.open_cmd
  pub close_cmd : t.close_cmd ≡ s.close_cmd
  pub delay : t.max_delay_before_fire ≡ s.max_delay_before_fire

pub run_command-settings :
    (env : Env) (cmd : Str) (f : FileEvent) (s : State) → SameSettings s (run_command env cmd f s)
unfolding run_command
run_command-settings env cmd f s = ground arith

pub get_tick-settings : (env : Env) (s : State) → SameSettings s (get_tick env s).0
unfolding get_tick
get_tick-settings env s = ground arith

pub execute_open-settings :
    (env : Env) (f : FileEvent) (s : State) → SameSettings s (execute_open_event env f s).0
unfolding execute_open_event
execute_open-settings env f s = elim (Option-cases s.open_cmd) [
  | inl unset ↦ ground (arith, unset)
  | inr (cmd, e) ↦ ground (arith, e, run_command-settings env cmd f s)
]

pub execute_close-settings :
    (env : Env) (f : FileEvent) (s : State) → SameSettings s (execute_close_event env f s).0
unfolding execute_close_event
execute_close-settings env f s = elim (Option-cases s.close_cmd) [
  | inl unset ↦ ground (arith, unset)
  | inr (cmd, e) ↦ ground (arith, e, run_command-settings env cmd f s)
]
