-- ===== src/Handling/Commands.antt =====
-- `execute_open_event` and `execute_close_event`.
pub mod Effect
use watch_it.Base.{
  ℕ, Bool, true, false, not, ◌||◌, List, [], ◌∷◌, ◌++◌, Option, none, some, length, ◌==◌,
  if◌then◌else◌,
}
use watch_it.CString.{Str, codes, strstr}
use watch_it.Replace.{Replaced, null, result, fault, overflow, str_replace}
use watch_it.Handling.Types.{State, Env, FileEvent, malloc, free}

-- The text that stands for the file's name in a command.
abbrev pub placeholder : Str
placeholder = b'@' ∷ b'0' ∷ []

-- `system(cmd)`. Its result only decides whether a message is logged.
abbrev pub system : Str → State → State
system cmd s = record s { executed = s.executed ++ cmd ∷ [] }

-- `system` and `free` on what `str_replace` returned; with NULL neither does anything. Where an
-- `int` has overflowed in it, the model goes on with the state before the call.
run_replaced : State → Replaced → State → State
run_replaced before null s = s
run_replaced before (result size cmd) s = free (system cmd s)
run_replaced before fault s = s
run_replaced before overflow s = before

module _ (env : Env) where
  -- The command with the file's name put in, or as it is where it has no placeholder.
  unfoldable pub run_command : Str → FileEvent → State → State
  unfolding run_replaced malloc
  run_command cmd f s =
      let (s1, granted) = malloc env s in
      elim (strstr cmd placeholder) [
        | none ↦ system cmd s
        | some _ ↦ run_replaced s (str_replace granted (some cmd) (some placeholder) f.name) s1
      ]

  fire_open : Str → FileEvent → State → State × FileEvent
  fire_open cmd f s =
      if length cmd == 0 || f.has_fired_open || f.has_fired_closed
      then (s, f)
      else (run_command cmd f s, record f { has_fired_open = true })

  unfoldable pub execute_open_event : FileEvent → State → State × FileEvent
  unfolding fire_open
  execute_open_event f s = elim s.open_cmd [ none ↦ (s, f) | some cmd ↦ fire_open cmd f s ]

  fire_close : Str → FileEvent → State → State × FileEvent
  fire_close cmd f s =
      if length cmd == 0 || not f.has_fired_open || f.has_fired_closed
      then (s, f)
      else (run_command cmd f s, record f { has_fired_closed = true })

  unfoldable pub execute_close_event : FileEvent → State → State × FileEvent
  unfolding fire_close
  execute_close_event f s = elim s.close_cmd [ none ↦ (s, f) | some cmd ↦ fire_close cmd f s ]
