-- ===== src/Handling/Init.antt =====
-- `event_handling_init`: the commands are copied, the statics are set and the consumer is started.
use watch_it.Base.{Bool, false, [], Option, none, some, if◌then◌else◌}
use watch_it.CString.{Str}
use watch_it.Config.Types.{Conf}
use watch_it.Handling.Types.{State, Env, malloc}

module _ (env : Env) where
  -- A command in a new block. `none` is `strlen` of NULL or `strcpy` to NULL.
  copy_cmd : Option Str → State → Option (State × Str)
  unfolding malloc
  copy_cmd none s = none
  copy_cmd (some cmd) s =
      let (s', granted) = malloc env s in if granted then some (s', cmd) else none

  -- The call, given whether `pthread_create` returns 0; `false` is the return value -1. `none` is
  -- an access through NULL.
  unfoldable pub event_handling_init : Bool → Conf → State → Option (State × Bool)
  unfolding copy_cmd
  event_handling_init created config s = elim (copy_cmd config.open_cmd s) [
    | none ↦ none
    | some (s1, opens) ↦ elim (copy_cmd config.close_cmd s1) [
      | none ↦ none
      | some (s2, closes) ↦ some (
        record s2 {
          file_event_list = [];
          max_delay_before_fire = config.min_read_close;
          open_cmd = some opens;
          close_cmd = some closes;
          signaled = false;
          last_tick = 0;
        },
        created,
      )
    ]
  ]
