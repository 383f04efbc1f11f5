-- ===== src/Handling/Samples.antt =====
-- States, events and environments for the examples.
use watch_it.Base.{◌+◌, refl, true, false, [], ◌∷◌, some, arith}
use watch_it.CString.{codes, starts_with}
use watch_it.Replace.Spec.{scan}
use watch_it.Handling.Types.{State, Env, Event, FileList, in_open, in_close_write}
use watch_it.Handling.Clock.{cur_tick}
use watch_it.Handling.Add.{add_event}
use watch_it.Handling.Consumer.Owed.{Settings, ShowsAtLeast, AreShort}
use watch_it.Handling.Invariant.Defs.{Inv}
use watch_it.Handling.System.{System}

-- A clock whose n-th reading is n seconds, and a heap that is never full.
abbrev pub ticking : Env
ticking = record {
  clock_gettime = λ n. some (record { tv_sec = 100 + n; tv_nsec = 5 });
  grants = λ n. true;
}

abbrev pub fresh : State
fresh = record {
  file_event_list = [];
  signaled = false;
  max_delay_before_fire = 200;
  open_cmd = some (codes "o @0");
  close_cmd = some (codes "c @0");
  last_tick = 0;
  clock_reads = 0;
  mallocs = 0;
  live = 2;
  executed = [];
}

abbrev pub start : System
start = record { state = fresh; waiting = false; cur_wait = 6000 }

abbrev pub opened : Event
opened = record {
  id = 1;
  name = codes "f";
  event_type = in_open;
  min_read_close = 200;
  timestamp = 100000000;
}

abbrev pub closed : Event
closed = record opened { event_type = in_close_write }

-- One file that has been opened and closed.
abbrev pub entry : FileList
entry = record {
  file = record {
    id = 1;
    name = some (codes "f");
    open_timestamp = 7;
    close_timestamp = 90;
    is_closed = true;
    has_fired_open = false;
    has_fired_closed = false;
  };
  remove = false;
}

abbrev pub busy : State
busy = record fresh { file_event_list = entry ∷ [] }

pub empty-Inv : Inv []
empty-Inv = record { sound = tt; unique = tt }

pub busy-Inv : Inv (entry ∷ [])
busy-Inv = record {
  sound = (
    record {
      named = (codes "f", refl);
      kept = refl;
      unclosed = refl;
      open_time = λ h. absurd (cc);
    },
    tt,
  );
  unique = (tt, tt);
}

abbrev pub after_open_event : System
after_open_event = record start { state = (add_event ticking opened fresh).0 }

abbrev pub settings : Settings
settings = record {
  open_head = b'o';
  open_tail = codes " @0";
  close_head = b'c';
  close_tail = codes " @0";
  delay = 200;
}

-- A clock that stands still.
abbrev pub steady : Env
steady = record ticking { clock_gettime = λ n. some (record { tv_sec = 100; tv_nsec = 5 }) }

-- A clock of our days that stands still.
abbrev pub modern : Env
modern = record ticking { clock_gettime = λ n. some (record { tv_sec = 1700000000; tv_nsec = 5 }) }

pub modern-ShowsAtLeast : ShowsAtLeast modern 1700000000000000
unfolding cur_tick
modern-ShowsAtLeast n = (record { tv_sec = 1700000000; tv_nsec = 5 }, refl, omega arith)

pub settings-AreShort : AreShort settings (codes "f")
unfolding scan starts_with
settings-AreShort = record {
  opens = record { before = omega arith; after = omega arith };
  closes = record { before = omega arith; after = omega arith };
}
