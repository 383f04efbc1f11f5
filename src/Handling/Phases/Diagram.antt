-- ===== src/Handling/Phases/Diagram.antt =====
-- Every step of the program follows the diagram.
use watch_it.Base.{◌≡◌, ◌⊎◌, refl, inl, inr}
use watch_it.Handling.Types.{Env, FileEvent}
use watch_it.Handling.Add.Effect.{get_tick-files}
use watch_it.Handling.Wait.{read_now}
use watch_it.Handling.System.{System, Step, stamp, produce, sleep, wake, proceed, Reach, here, next}
use watch_it.Handling.Invariant.Defs.{Inv}
use watch_it.Handling.Invariant.Reachable.{Reach-Inv}
use watch_it.Handling.Lookup.{lookup}
use watch_it.Handling.Phases.{
  Phase, running, ending, phase, Moves, stay, open_new, reopen, resume, close_early, close_late,
  stop, start, run, run_both, finish,
}
use watch_it.Handling.Phases.Added.{add_event-Moves}
use watch_it.Handling.Phases.Rounds.{consume-Moves}

-- The phase of a file in a state of the system.
abbrev pub phase_of : FileEvent → System → Phase
phase_of k s = phase (lookup k s.state.file_event_list)

module _ (env : Env) where
  -- Over a sound list, whatever the clock shows and whichever allocations fail, every step of the
  -- two threads takes every file along a transition of the diagram or leaves it in its phase. A
  -- file whose open command has been run is forgotten only after it has been closed.
  pub Step-Moves :
      {s t : System} (k : FileEvent)
      → Inv s.state.file_event_list
      → Step env s t
      → Moves (phase_of k s) (phase_of k t)
  unfolding read_now
  Step-Moves {s} k inv stamp = rw (get_tick-files env s.state) stay
  Step-Moves {s} k inv (produce e) = add_event-Moves env e s.state inv k
  Step-Moves k inv (sleep _ _) = stay
  Step-Moves {s} k inv (wake _) = consume-Moves env k _ s.state inv
  Step-Moves {s} k inv (proceed _ _) = consume-Moves env k s.cur_wait s.state inv

from_running : {p q : Phase} → Moves p q → p ≡ running → (q ≡ running) ⊎ (q ≡ ending)
from_running stay e = inl e
from_running stop e = inr refl
from_running open_new e = absurd (cc)
from_running reopen e = absurd (cc)
from_running resume e = absurd (cc)
from_running close_early e = absurd (cc)
from_running close_late e = absurd (cc)
from_running start e = absurd (cc)
from_running run e = absurd (cc)
from_running run_both e = absurd (cc)
from_running finish e = absurd (cc)

module _ (env : Env) where
  -- However the threads interleave from a sound list: a file whose open command has been run and
  -- that is still open stays so until, in some state on the way, it has been closed with its close
  -- command still to be run.
  pub Reach-ending :
      {s t : System} (k : FileEvent)
      → Inv s.state.file_event_list
      → phase_of k s ≡ running
      → Reach env s t
      → (phase_of k t ≡ running)
        ⊎ ((u : System) × Reach env s u × Reach env u t × (phase_of k u ≡ ending))
  Reach-ending k inv e here = inl e
  Reach-ending {t} k inv e (next {t = u} r st) = elim (Reach-ending k inv e r) [
    | inl still ↦ elim (from_running (Step-Moves env k (Reach-Inv env inv r) st) still) [
      | inl on ↦ inl on
      | inr ended ↦ inr (t, next r st, here, ended)
    ]
    | inr (v, before, after, ended) ↦ inr (v, before, next after st, ended)
  ]
