-- ===== src/Daemon/Threads/Origin.antt =====
-- Which files the daemon lists and which commands it runs, by the table of watches.
use watch_it.Base.{ℕ, ◌≡◌, subst, Bool, true, false, List, drop}
use watch_it.CString.{Str}
use watch_it.Handling.Types.{Env}
use watch_it.Handling.Origin.Kept.{
  Traced, tick-Traced, add_event-Traced, consume-Traced, read_now-Traced,
}
use watch_it.Handling.System.{System, Step, stamp, produce, sleep, wake, proceed}
use watch_it.Daemon.Table.{Table}
use watch_it.Daemon.Reader.{event_at}
use watch_it.Daemon.Reader.Reports.{Reports, next_event-Reports}
use watch_it.Daemon.Threads.{
  Stage, idle, reading, adding, Process, after_add, of_consumer, Turn, read, finish, skip,
  stamp_event, add, consumer_turn, Turns, here, next,
}

module _ (env : Env) (table : Table) (Reported : ℕ → Str → Type 0)
    (allowed : (id : ℕ) (name : Str) → Reports table id name → Reported id name)
    (opens closes : Str) where
  -- An event that is about to be added was reported.
  abbrev pub Pending : Stage → Type 0
  Pending idle = Unit
  Pending (reading _ _) = Unit
  Pending (adding _ _ event) = Reported event.id event.name

  pub record Follows (d : Process) : Type 0 where
    pub traced : Traced Reported opens closes d.system.state
    pub pending : Pending d.stage

  after_add-Pending : (added : Bool) (buff : List ℕ) (i : ℕ) → Pending (after_add added buff i)
  after_add-Pending true buff i = tt
  after_add-Pending false buff i = tt

  consumer-Traced :
      {s t : System} (st : Step env s t)
      → of_consumer env st ≡ true
      → Traced Reported opens closes s.state
      → Traced Reported opens closes t.state
  unfolding of_consumer
  consumer-Traced stamp own h = absurd (cc)
  consumer-Traced (produce _) own h = absurd (cc)
  consumer-Traced {s} (sleep _ _) own h = read_now-Traced Reported opens closes env s.state h
  consumer-Traced {s} (wake _) own h = consume-Traced Reported opens closes env _ s.state h
  consumer-Traced {s} (proceed _ _) own h =
      consume-Traced Reported opens closes env s.cur_wait s.state h

  Turn-Follows : {t u : Process} → Turn env table t u → Follows t → Follows u
  Turn-Follows (read bytes at) f = record { traced = f.traced; pending = tt }
  Turn-Follows (finish buff i at outside) f = record { traced = f.traced; pending = tt }
  Turn-Follows (skip buff i at inside skipped) f = record { traced = f.traced; pending = tt }
  Turn-Follows {t} (stamp_event buff i event at inside wanted) f = record {
    traced = tick-Traced Reported opens closes env t.system.state f.traced;
    pending = allowed _ _ (next_event-Reports table (event_at (drop i buff)) event _ wanted);
  }
  Turn-Follows {t} (add buff i event at) f = record {
    traced =
        add_event-Traced Reported opens closes env event t.system.state (subst Pending at f.pending)
          f.traced;
    pending = after_add-Pending _ buff i;
  }
  Turn-Follows (consumer_turn st own) f = record {
    traced = consumer-Traced st own f.traced;
    pending = f.pending;
  }

  pub Turns-Follows : {d t : Process} → Turns env table d t → Follows d → Follows t
  Turns-Follows here f = f
  Turns-Follows (next r turn) f = Turn-Follows turn (Turns-Follows r f)
