-- ===== src/Handling/Add/Effect.antt =====
-- What `event_handling_add_event` does to the list of files, branch by branch.
use watch_it.Base.{
  ℕ, ◌≡◌, Bool, true, false, not, [], ◌∷◌, ◌++◌, none, some, set, erase_idx, if◌then◌else◌, arith,
  ◌⊎◌,
}
use watch_it.Handling.Types.{State, Env, Event, FileEvent, FileList}
use watch_it.Handling.Clock.{get_tick, has_open_past_delay}
use watch_it.Handling.Files.{
  add_new_file, init_file, close_file, reset_to_open, is_close_event, is_open_event,
  copy_event_to_file,
}
use watch_it.Handling.Files.Find.{wanted}
use watch_it.Handling.Add.{close_open_file, on_close, on_open}

-- The node for a new file.
abbrev pub new_node : FileEvent → FileList
new_node f = record { file = init_file f.name f.id f.open_timestamp; remove = false }

-- A new file is appended, or an allocation has failed and the list stays as it was.
pub add_new_file-files :
    (env : Env) (f : FileEvent) (s : State)
    → ((add_new_file env f s).1 ≡ false)
        × ((add_new_file env f s).0.file_event_list ≡ s.file_event_list)
      ⊎ ((add_new_file env f s).1 ≡ true)
        × ((add_new_file env f s).0.file_event_list ≡ s.file_event_list ++ new_node f ∷ [])
unfolding add_new_file
add_new_file-files env f s = ground arith

module _ (env : Env) where
  pub get_tick-files : (s : State) → (get_tick env s).0.file_event_list ≡ s.file_event_list
  unfolding get_tick
  get_tick-files s = ground arith

  pub delay-files :
      (fl : FileList) (s : State)
      → (has_open_past_delay env fl s).0.file_event_list ≡ s.file_event_list
  unfolding has_open_past_delay
  delay-files fl s = ground arith

  -- Whether the file has been open longer than the delay, as the handler finds it.
  abbrev pub past_delay : FileList → State → Bool
  past_delay fl s = (has_open_past_delay env fl s).1

  -- The tick at which a file is closed: the next reading of the clock.
  abbrev pub close_tick : FileList → State → ℕ
  close_tick fl s = (get_tick env (has_open_past_delay env fl s).0).1

  -- An open file that gets a close event.
  pub close_open_file-files :
      (i : ℕ) (fl : FileList) (s : State)
      → (close_open_file env i fl s).file_event_list ≡ (
          if past_delay fl s
          then set s.file_event_list i (close_file fl (close_tick fl s))
          else if not fl.file.has_fired_open
          then erase_idx s.file_event_list i
          else s.file_event_list)
  unfolding close_open_file
  close_open_file-files i fl s =
      ground (arith, delay-files fl s, get_tick-files (has_open_past_delay env fl s).0)

  -- A close event whose file is in the list.
  pub on_close-files :
      (i : ℕ) (fl : FileList) (s : State)
      → (on_close env (some (i, fl)) s).file_event_list ≡ (
          if fl.file.is_closed
          then s.file_event_list
          else if past_delay fl s
          then set s.file_event_list i (close_file fl (close_tick fl s))
          else if fl.file.has_fired_open
          then s.file_event_list
          else erase_idx s.file_event_list i)
  unfolding on_close
  on_close-files i fl s =
      ground (arith, delay-files fl s, get_tick-files (has_open_past_delay env fl s).0)

  -- An open event whose file is not in the list.
  pub on_open-files :
      (e : Event) (s : State)
      → is_close_event e ≡ false
      → is_open_event e ≡ true
      → ((on_open env e none s).1 ≡ false)
          × ((on_open env e none s).0.file_event_list ≡ s.file_event_list)
        ⊎ ((on_open env e none s).1 ≡ true)
          × ((on_open env e none s).0.file_event_list
              ≡ s.file_event_list ++ new_node (wanted e) ∷ [])
  unfolding on_open copy_event_to_file
  on_open-files e s c o = ground (arith, c, o)

  -- An open event whose file is in the list.
  pub on_open-found :
      (e : Event) (i : ℕ) (fl : FileList) (s : State)
      → (on_open env e (some (i, fl)) s).0.file_event_list ≡ (
          if fl.file.is_closed
          then set s.file_event_list i (reset_to_open fl e.timestamp)
          else s.file_event_list)
  unfolding on_open
  on_open-found e i fl s = ground arith
