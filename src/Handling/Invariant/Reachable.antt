-- ===== src/Handling/Invariant/Reachable.antt =====
-- The invariant in every state that the two threads reach.
use watch_it.Handling.Types.{Env}
use watch_it.Handling.Add.Effect.{get_tick-files}
use watch_it.Handling.Wait.{read_now}
use watch_it.Handling.System.{System, Step, stamp, produce, sleep, wake, proceed, Reach, here, next}
use watch_it.Handling.Invariant.Defs.{Inv}
use watch_it.Handling.Invariant.Produced.{add_event-Inv}
use watch_it.Handling.Invariant.Consumed.{consume-Inv}

module _ (env : Env) where
  Step-Inv :
      {s t : System} → Step env s t → Inv s.state.file_event_list → Inv t.state.file_event_list
  unfolding read_now
  Step-Inv {s} stamp v = rw (get_tick-files env s.state) v
  Step-Inv {s} (produce event) v = add_event-Inv env event s.state v
  Step-Inv (sleep _ _) v = v
  Step-Inv {s} (wake _) v = consume-Inv env _ s.state v
  Step-Inv {s} (proceed _ _) v = consume-Inv env s.cur_wait s.state v

  -- However the threads interleave, whatever the clock shows and whichever allocations fail: if
  -- the list is sound at the start, it is sound in every state that is reached. Each entry has a
  -- name, is not marked for removal, has not had its close command run, and has no close time
  -- while it is open; and no two entries are for one file.
  pub Reach-Inv :
      {s t : System} → Inv s.state.file_event_list → Reach env s t → Inv t.state.file_event_list
  Reach-Inv v here = v
  Reach-Inv v (next r st) = Step-Inv st (Reach-Inv v r)
