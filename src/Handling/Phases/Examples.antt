-- ===== src/Handling/Phases/Examples.antt =====
-- The theorems about the phases at concrete inputs.
use watch_it.Base.{◌≡◌, ◌⊎◌, refl, [], ◌∷◌, true, false}
use watch_it.Base.Words.{uint32_max}
use watch_it.CString.{codes, strcmp_eq}
use watch_it.Handling.Types.{FileList}
use watch_it.Handling.Add.{add_event}
use watch_it.Handling.Files.{equals_file}
use watch_it.Handling.System.{System, Reach, here, next, produce}
use watch_it.Handling.Lookup.{lookup}
use watch_it.Handling.Invariant.Defs.{Inv}
use watch_it.Handling.Phases.{Moves, running, ending}
use watch_it.Handling.Phases.Diagram.{phase_of, Step-Moves, Reach-ending}
use watch_it.Handling.Samples.{ticking, fresh, opened, closed, entry, busy, busy-Inv}

-- The file is in the list, closed and with its open command still to be run.
abbrev with_entry : System
with_entry = record { state = busy; waiting = false; cur_wait = 6000 }

abbrev reopened : System
reopened = record with_entry { state = (add_event ticking opened busy).0 }

Step-Moves_example : Moves (phase_of entry.file with_entry) (phase_of entry.file reopened)
Step-Moves_example =
    Step-Moves ticking {s = with_entry} {t = reopened} entry.file busy-Inv (produce opened)

-- The file is open and its open command has been run.
abbrev started : FileList
started = record entry {
  file = record entry.file {
    close_timestamp = uint32_max;
    is_closed = false;
    has_fired_open = true;
  };
}

abbrev with_started : System
with_started = record with_entry { state = record fresh { file_event_list = started ∷ [] } }

abbrev stopped : System
stopped = record with_started { state = (add_event ticking closed with_started.state).0 }

started-Inv : Inv (started ∷ [])
started-Inv = record {
  sound = (
    record { named = (codes "f", refl); kept = refl; unclosed = refl; open_time = λ h. refl },
    tt,
  );
  unique = (tt, tt);
}

Reach-ending_example :
    (phase_of started.file stopped ≡ running)
    ⊎ ((u : System) × Reach ticking with_started u
        × Reach ticking u stopped
        × (phase_of started.file u ≡ ending))
unfolding lookup equals_file strcmp_eq
Reach-ending_example =
    Reach-ending ticking {s = with_started} {t = stopped} started.file started-Inv refl
      (next here (produce closed))
