-- ===== src/Daemon/Threads/Bounded.antt =====
-- Whatever the daemon reads and however the two threads interleave.
use watch_it.Base.{
  ℕ, suc, ◌+◌, ◌-◌, ◌*◌, ◌/◌, ◌≤◌, ◌≡◌, refl, sym, subst, ap, Bool, true, false, List, [], length,
  ltb→lt, arith,
}
use watch_it.Handling.Types.{Env}
use watch_it.Handling.Add.{add_event}
use watch_it.Handling.Invariant.Defs.{Inv}
use watch_it.Handling.Invariant.Reachable.{Reach-Inv}
use watch_it.Handling.System.{System, Step, stamp, produce, sleep, wake, proceed, Reach}
use watch_it.Handling.Accounts.Reachable.{produced, Reach-runs}
use watch_it.Handling.System
use watch_it.Handling.Accounts.{outstanding_all}
use watch_it.Daemon.Table.{Table}
use watch_it.Daemon.Threads.{
  Stage, idle, reading, adding, Process, bytes_of, after_add, of_consumer, Turn, read, finish, skip,
  stamp_event, add, consumer_turn, Turns, here, next,
}

-- One for each 16 bytes, rounded up.
abbrev pub events_in : ℕ → ℕ
events_in n = (n + 15) / 16

-- The events that may still be added for what has been read.
room : Stage → ℕ
room idle = 0
room (reading buff i) = (length buff + 15 - i) / 16
room (adding buff i _) = suc ((length buff + 15 - i) / 16)

after_add-room :
    (added : Bool) (buff : List ℕ) (i : ℕ)
    → room (after_add added buff i) ≤ (length buff + 15 - i) / 16
unfolding room
after_add-room true buff i = omega arith
after_add-room false buff i = omega arith

module _ (env : Env) (table : Table) where
  -- The most events that the bytes of a `read` can hold.
  unfoldable pub read_in : {d t : Process} → Turn env table d t → ℕ
  read_in (read bytes _) = events_in (length (bytes_of bytes))
  read_in (finish _ _ _ _) = 0
  read_in (skip _ _ _ _ _) = 0
  read_in (stamp_event _ _ _ _ _ _) = 0
  read_in (add _ _ _ _) = 0
  read_in (consumer_turn _ _) = 0

  unfoldable pub events_read : {d t : Process} → Turns env table d t → ℕ
  unfolding read_in
  events_read here = 0
  events_read (next r turn) = events_read r + read_in turn

  -- The turns as steps, with as many events added as there was room for.
  record Counted (start : System) (budget : ℕ) (t : Process) : Type 0 where
    steps : Reach env start t.system
    few : produced env steps + room t.stage ≤ budget

  consumer-produced :
      {s t u : System} (r : Reach env s t) (st : Step env t u)
      → of_consumer env st ≡ true
      → produced env (System.next r st) ≡ produced env r
  unfolding produced of_consumer
  consumer-produced r stamp h = absurd (cc)
  consumer-produced r (produce _) h = absurd (cc)
  consumer-produced r (sleep _ _) h = refl
  consumer-produced r (wake _) h = refl
  consumer-produced r (proceed _ _) h = refl

  Turn-Counted :
      (start : System) {t u : Process} (n : ℕ) (turn : Turn env table t u)
      → Counted start n t
      → Counted start (n + read_in turn) u
  unfolding read_in room produced
  Turn-Counted start n (read bytes at) c = record {
    steps = c.steps;
    few = omega (arith, ap room at, c.few);
  }
  Turn-Counted start n (finish buff i at outside) c = record {
    steps = c.steps;
    few = omega (arith, ap room at, c.few);
  }
  Turn-Counted start n (skip buff i at inside skipped) c = record {
    steps = c.steps;
    few = omega (arith, ap room at, c.few);
  }
  Turn-Counted start n (stamp_event buff i event at inside wanted) c = record {
    steps = System.next c.steps stamp;
    few = omega (arith, ap room at, ltb→lt i (length buff) inside, c.few);
  }
  Turn-Counted start {t} n (add buff i event at) c = record {
    steps = System.next c.steps (produce event);
    few =
        omega
          (arith, ap room at, after_add-room (add_event env event t.system.state).1 buff i, c.few);
  }
  Turn-Counted start n (consumer_turn st own) c = record {
    steps = System.next c.steps st;
    few = omega (arith, consumer-produced c.steps st own, c.few);
  }

  Turns-Counted :
      {d t : Process} (r : Turns env table d t)
      → d.stage ≡ idle
      → Counted d.system (events_read r) t
  unfolding events_read room produced
  Turns-Counted here h = record { steps = System.here; few = omega (arith, ap room h) }
  Turns-Counted {d} (next r turn) h = Turn-Counted d.system (events_read r) turn (Turns-Counted r h)

  -- From an empty list, with nothing run and the daemon about to read: however the turns of the two
  -- threads follow each other, whatever is read, whatever the clock shows and whichever allocations
  -- fail, the list is sound, and at most two commands have been run for each 16 bytes of what was
  -- read, rounded up for each call of `read`.
  pub Turns-IsSound :
      {d t : Process} (r : Turns env table d t)
      → d.stage ≡ idle
      → d.system.state.file_event_list ≡ []
      → d.system.state.executed ≡ []
      → Inv t.system.state.file_event_list × (length t.system.state.executed ≤ 2 * events_read r)
  Turns-IsSound {d} r h empty fresh =
      let c = Turns-Counted r h in
      let runs = Reach-runs env c.steps in
      (
        Reach-Inv env (subst Inv (sym empty) (record { sound = tt; unique = tt })) c.steps,
        omega (arith, ap length fresh, ap outstanding_all empty, runs, c.few),
      )
