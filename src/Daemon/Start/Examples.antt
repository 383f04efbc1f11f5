-- ===== src/Daemon/Start/Examples.antt =====
-- From `main` to a command that is run, at concrete inputs.
use watch_it.Base.{
  true, Bool-cases, inl, inr, subst, length, ◌≤◌, ◌<◌, arith, ℕ, ◌≡◌, refl, false, List, [], ◌∷◌,
  some, All,
}
use watch_it.CString.{Str, codes, strstr, strcmp_eq, strtok_all}
use watch_it.Config.Examples.{dict, host, height, tree, loaded_all, loads_all}
use watch_it.Config.Dirs.{dirs_of}
use watch_it.Config.Load.Lengths.{HasShortNames, HasRoom, Fits}
use watch_it.Daemon.Table.Laws.{new_tuple}
use watch_it.Daemon.Start.Buffers.{NameFits, main-Fits}
use watch_it.Replace.{str_replace}
use watch_it.Config.Types.{Loader}
use watch_it.Handling.Types.{State, Event, in_open}
use watch_it.Handling.Init.{event_handling_init}
use watch_it.Handling.Clock.{get_tick, has_open_past_delay}
use watch_it.Handling.Files.{is_close_event, is_open_event, find_in_file_list}
use watch_it.Handling.Commands.{run_command}
use watch_it.Handling.Add.{add_event}
use watch_it.Handling.Consumer.{consume, visit, visit_all, sweep}
use watch_it.Handling.Origin.{IsCommand, AllReported}
use watch_it.Handling.System.{proceed}
use watch_it.Handling.Samples.{ticking}
use watch_it.Daemon.Table.{Table, add_to_map, find_in_map, init_name_map}
use watch_it.Daemon.Reader.{event_at, next_event}
use watch_it.Daemon.Reader.Wire.{encode_all}
use watch_it.Daemon.Start.{begin_watch, watch_loop, main}
use watch_it.Daemon.Start.Configured.{Watches, main-Configured}
use watch_it.Daemon.Threads.{
  reading, Process, of_consumer, here, next, read, stamp_event, add, consumer_turn,
}
use watch_it.Daemon.Examples.{table, table-IsValid, child, config, idle, named}

abbrev pub l : Loader
l = record {
  config = record config { open_cmd = some (codes "o @0"); close_cmd = some (codes "c @0") };
  mallocs = 5;
  live = 5;
}

abbrev pub watched : Table
watched = (add_to_map (codes "/tmp") 1 1 200 (init_name_map table)).0

abbrev pub set_up : State
set_up = record idle {
  mallocs = 2;
  live = 4;
  open_cmd = some (codes "o @0");
  close_cmd = some (codes "c @0");
}

abbrev one_event : List ℕ
one_event = encode_all (named ∷ [])

abbrev opening : ℕ → Event
opening tick = record {
  id = 1;
  name = codes "f";
  event_type = in_open;
  min_read_close = 200;
  timestamp = tick;
}

abbrev listed : State
listed = (add_event ticking (opening 100000000) (get_tick ticking set_up).0).0

-- The open command has been run.
abbrev fired : Process
fired = record {
  system = record {
    state = (consume ticking 6000 listed).0;
    waiting = false;
    cur_wait = (consume ticking 6000 listed).1;
  };
  stage = reading one_event 32;
}

runs_one : (consume ticking 6000 listed).0.executed ≡ codes "o f" ∷ []
unfolding consume add_event sweep visit_all is_close_event is_open_event find_in_file_list get_tick
    visit has_open_past_delay run_command strstr str_replace
runs_one = refl

main-Configured_example :
    let Ours = Watches child l.config in
    (opens : Str) × (closes : Str) × (l.config.open_cmd ≡ some opens)
    × (l.config.close_cmd ≡ some closes)
    × AllReported Ours fired.system.state.file_event_list
    × All (IsCommand Ours opens closes) fired.system.state.executed
unfolding encode_all event_at next_event find_in_map add_to_map get_tick add_event of_consumer
    is_close_event is_open_event find_in_file_list main begin_watch watch_loop event_handling_init
    init_name_map
main-Configured_example =
    main-Configured ticking child l table watched idle set_up fired table-IsValid refl refl refl (
      next
        (next
          (next (next here (read (some one_event) refl))
            (stamp_event one_event 0 opening refl refl refl))
          (add one_event 32 (opening 100000000) refl))
        (consumer_turn (proceed refl refl) refl))

short_names : HasShortNames host
short_names dir names e = elim (Bool-cases (strcmp_eq dir (codes "d"))) [
  | inl top ↦
      let same : (codes "." ∷ codes "s" ∷ []) ≡ names = ground (arith, top, e) in
      subst (All (λ name. length name ≤ 255)) same (omega arith, (omega arith, tt))
  | inr other ↦
      let same : (codes ".." ∷ []) ≡ names = ground (arith, other, e) in
      subst (All (λ name. length name ≤ 255)) same (omega arith, tt)
]

-- The table with the three directories of the file.
abbrev three : Table
three =
    (add_to_map (codes "e") 1 1 200
      (add_to_map (codes "d/s") 1 1 200
        (add_to_map (codes "d") 1 1 200 (init_name_map table)).0).0).0

abbrev prepared : State
prepared = record set_up { open_cmd = some (codes "echo @0"); close_cmd = some (codes "echo @0") }

rooms : All (HasRoom 4096 host height) (dirs_of dict)
unfolding strtok_all strcmp_eq
rooms = (omega arith, (omega arith, tt))

main-Fits_example :
    All (Fits 4096 host) loaded_all.config.watch_dir
    × (length (new_tuple (codes "d") 1 1 200).name < 4096)
    × NameFits 4096 (event_at one_event) (new_tuple (codes "d") 1 1 200)
unfolding main begin_watch watch_loop add_to_map init_name_map event_handling_init encode_all
    event_at find_in_map
main-Fits_example =
    main-Fits 4096 host height dict 2 true loaded_all ticking child table three idle prepared
      (event_at one_event) (new_tuple (codes "d") 1 1 200) short_names tree rooms loads_all
      table-IsValid refl refl refl (omega arith)
