-- ===== src/Handling/Add.antt =====
-- `event_handling_add_event`: the producer's side, which runs with the mutex held throughout.
pub mod Effect
pub mod Quiet
pub mod Keeps
use watch_it.Base.{ℕ, Bool, true, false, not, ◌&&◌, List, Option, none, some, set, if◌then◌else◌}
use watch_it.Handling.Types.{State, Env, Event, FileList}
use watch_it.Handling.Clock.{get_tick, has_open_past_delay}
use watch_it.Handling.Files.{
  is_close_event, is_open_event, is_file_open, is_file_closed, copy_event_to_file, close_file,
  reset_to_open, init_file, find_in_file_list, remove_from_list, add_new_file,
}

-- The store of an entry through its pointer.
abbrev pub put : ℕ → FileList → State → State
put i fl s = record s { file_event_list = set s.file_event_list i fl }

module _ (env : Env) where
  -- A close event of the open file at position `i`.
  unfoldable pub close_open_file : ℕ → FileList → State → State
  unfolding close_file remove_from_list
  close_open_file i fl s =
      let (s1, past) = has_open_past_delay env fl s in
      let (s2, tick) = get_tick env s1 in
      if past
      then put i (close_file fl tick) s2
      else if not fl.file.has_fired_open
      then remove_from_list i s1
      else s1

  unfoldable pub on_close : Option (ℕ × FileList) → State → State
  unfolding close_open_file is_file_open
  on_close none s = s
  on_close (some (i, fl)) s = if is_file_open fl then close_open_file i fl s else s

  -- An open event; the Boolean says that `res` is 0.
  unfoldable pub on_open : Event → Option (ℕ × FileList) → State → State × Bool
  unfolding add_new_file copy_event_to_file init_file reset_to_open is_file_closed
  on_open event none s =
      let (file_to_add, copied) = copy_event_to_file event (init_file none 0 0) in
      if copied then add_new_file env file_to_add s else (s, false)
  on_open event (some (i, fl)) s =
      if is_file_closed fl then (put i (reset_to_open fl event.timestamp) s, true) else (s, true)

  unfoldable pub handle_event : Event → State → State × Bool
  unfolding on_close on_open
  handle_event event s =
      let found = find_in_file_list event s.file_event_list in
      if is_close_event event
      then (on_close found s, true)
      else if is_open_event event
      then on_open event found s
      else (s, true)

  -- The whole call: the handling, then `signaled=1`. `false` is the return value -1.
  unfoldable pub add_event : Event → State → State × Bool
  unfolding handle_event
  add_event event s = let (s', res) = handle_event event s in (record s' { signaled = true }, res)
