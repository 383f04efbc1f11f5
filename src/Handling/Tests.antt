-- ===== src/Handling/Tests.antt =====
-- Runs of the two threads on small inputs.
use watch_it.Base.{◌*◌, ◌≡◌, refl, true, false, [], ◌∷◌, some}
use watch_it.CString.{codes, strcmp_eq, strstr}
use watch_it.Handling.Types.{State, Env, Event, in_open, in_close_write, malloc}
use watch_it.Handling.Clock.{get_tick, cur_tick, has_open_past_delay, calc_open_delta}
use watch_it.Handling.Files.{find_in_file_list, is_close_event, is_open_event}
use watch_it.Handling.Add.{add_event}
use watch_it.Replace.{str_replace}
use watch_it.Handling.Commands.{run_command}
use watch_it.Handling.Consumer.{consume, visit_all, visit, sweep}

-- A clock whose n-th reading is 100 n milliseconds after second 7, and a heap that is never full.
abbrev ticking : Env
ticking = record {
  clock_gettime = λ n. some (record { tv_sec = 7; tv_nsec = n * 100000000 });
  grants = λ n. true;
}

abbrev fresh : State
fresh = record {
  file_event_list = [];
  signaled = false;
  max_delay_before_fire = 200;
  open_cmd = some (codes "o @0");
  close_cmd = some (codes "c @0");
  last_tick = 0;
  clock_reads = 0;
  mallocs = 0;
  live = 2;
  executed = [];
}

abbrev opened : Event
opened = record {
  id = 1;
  name = codes "f";
  event_type = in_open;
  min_read_close = 200;
  timestamp = 7000000;
}

abbrev closed : Event
closed = record opened { event_type = in_close_write }

abbrev one_open : State
one_open = (add_event ticking opened fresh).0

quick_close : (add_event ticking closed one_open).0.file_event_list ≡ []
unfolding add_event find_in_file_list is_close_event is_open_event has_open_past_delay get_tick
    calc_open_delta cur_tick strcmp_eq malloc
quick_close = refl

abbrev late : State
late = record one_open { clock_reads = 5 }

abbrev late_round : State
late_round = (consume ticking 6000 (add_event ticking closed late).0).0

late_fires : late_round.executed ≡ codes "o f" ∷ codes "c f" ∷ []
unfolding consume visit_all visit sweep run_command str_replace strstr add_event find_in_file_list
    is_close_event is_open_event has_open_past_delay get_tick calc_open_delta cur_tick strcmp_eq
    malloc
late_fires = refl
