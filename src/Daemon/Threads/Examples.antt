-- ===== src/Daemon/Threads/Examples.antt =====
-- The theorems about the daemon's turns at concrete inputs.
use watch_it.Base.{ℕ, ◌≡◌, ◌≤◌, refl, false, List, [], ◌∷◌, some, length}
use watch_it.CString.{codes}
use watch_it.Handling.Types.{State, Event, in_open}
use watch_it.Handling.Clock.{get_tick}
use watch_it.Handling.Files.{is_close_event, is_open_event, find_in_file_list}
use watch_it.Handling.Add.{add_event}
use watch_it.Handling.Consumer.{consume}
use watch_it.Handling.Invariant.Defs.{Inv}
use watch_it.Handling.System.{System, proceed}
use watch_it.Daemon.Table.{find_in_map, add_to_map}
use watch_it.Daemon.Reader.{get_event, event_at, next_event}
use watch_it.Daemon.Reader.Wire.{encode_all}
use watch_it.Daemon.Threads.{
  Stage, reading, Process, of_consumer, Turns, here, next, read, stamp_event, add, consumer_turn,
}
use watch_it.Daemon.Threads.Bounded.{events_read, Turns-IsSound}
use watch_it.Daemon.Threads.Alone.{fetched, marks, standing, get_event-Turns}
use watch_it.Daemon.Examples.{env, added, idle, named, nameless}

abbrev system : System
system = record { state = idle; waiting = false; cur_wait = 6000 }

abbrev two_events : List ℕ
two_events = encode_all (named ∷ nameless ∷ [])

get_event-Turns_example :
    (s : State) × (get_event env added.0 (some two_events) idle ≡ some s)
    × (turns : Turns env added.0
        (standing env added.0 system idle Stage.idle)
        (standing env added.0 system s Stage.idle))
    × (marks env added.0 turns ≡ fetched (some two_events) ∷ [])
get_event-Turns_example = get_event-Turns env added.0 (some two_events) system

-- The first event is added, and the consumer has a turn before the second.
abbrev opening : ℕ → Event
opening tick = record {
  id = 1;
  name = codes "f";
  event_type = in_open;
  min_read_close = 200;
  timestamp = tick;
}

abbrev after_first : State
after_first = (add_event env (opening 0) (get_tick env idle).0).0

abbrev halfway : Process
halfway = record {
  system = record {
    state = (consume env 6000 after_first).0;
    waiting = false;
    cur_wait = (consume env 6000 after_first).1;
  };
  stage = reading two_events 32;
}

Turns-IsSound_example :
    Inv halfway.system.state.file_event_list × (length halfway.system.state.executed ≤ 6)
unfolding encode_all event_at next_event find_in_map add_to_map get_tick add_event of_consumer
    is_close_event is_open_event find_in_file_list events_read
Turns-IsSound_example =
    Turns-IsSound env added.0 {d = record { system = system; stage = Stage.idle }} {t = halfway}
      (next
        (next
          (next (next here (read (some two_events) refl))
            (stamp_event two_events 0 opening refl refl refl))
          (add two_events 32 (opening 0) refl))
        (consumer_turn (proceed refl refl) refl))
      refl refl refl
