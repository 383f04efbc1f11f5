-- ===== src/Handling/Phases.antt =====
-- The phases that a file goes through, and the diagram of its transitions.
pub mod Added
pub mod Rounds
pub mod Diagram
pub mod Examples
use watch_it.Base.{Bool, true, false, Option, none, some}
use watch_it.Handling.Types.{FileEvent, FileList}

-- Not in the list; opened; its open command run; closed with the open command still to be run;
-- closed with the open command run.
pub data Phase : Type 0 where
  absent opened running closing ending : Phase

abbrev pub phase_by : (is_closed has_fired_open : Bool) → Phase
phase_by false false = opened
phase_by false true = running
phase_by true false = closing
phase_by true true = ending

abbrev pub phase : Option FileList → Phase
phase none = absent
phase (some fl) = phase_by fl.file.is_closed fl.file.has_fired_open

-- What one step of the program may do to a file.
pub data Moves : Phase → Phase → Type 0 where
  stay : {p : Phase} → Moves p p
  -- by an open event
  open_new : Moves absent opened
  reopen : Moves closing opened
  resume : Moves ending running
  -- by a close event
  close_early : Moves opened absent
  close_late : Moves opened closing
  stop : Moves running ending
  -- by a round of the consumer
  start : Moves opened running
  run : Moves closing ending
  run_both : Moves closing absent
  finish : Moves ending absent

pub ruleset transitions =
    (stay, open_new, reopen, resume, close_early, close_late, stop, start, run, run_both, finish)
