-- ===== src/Handling/Accounts/Reachable.antt =====
-- The accounts over every interleaving of the two threads.
use watch_it.Base.{ℕ, suc, ◌+◌, ◌*◌, ◌≤◌, ◌≡◌, ap, length, arith}
use watch_it.Handling.Types.{State, Env, Event}
use watch_it.Handling.Clock.{get_tick}
use watch_it.Handling.Add.{add_event}
use watch_it.Handling.Add.Quiet.{add_event-IsQuiet}
use watch_it.Handling.Consumer.{consume}
use watch_it.Handling.Wait.{read_now}
use watch_it.Handling.System.{System, stamp, produce, sleep, wake, proceed, Reach, here, next}
use watch_it.Handling.Accounts.{outstanding_all, tick-Spends}
use watch_it.Handling.Accounts.Rounds.{consume-live, consume-runs}
use watch_it.Handling.Accounts.Added.{lost_by, add_event-Adds}

module _ (env : Env) where
  -- The files lost on the way: when an open event of a new file came, those whose node could not be
  -- allocated after the file and its name were.
  pub lost_on : {s t : System} → Reach env s t → ℕ
  lost_on here = 0
  lost_on (next r stamp) = lost_on r
  lost_on (next {t} r (produce event)) = lost_on r + lost_by env event t.state
  lost_on (next r (sleep p q)) = lost_on r
  lost_on (next r (wake p)) = lost_on r
  lost_on (next r (proceed p q)) = lost_on r

  -- Beside `base` blocks the heap has three for each entry of the list, and two for each of `lost`
  -- files.
  abbrev Holds : ℕ → ℕ → State → Type 0
  Holds base lost s = s.live ≡ base + 3 * length s.file_event_list + 2 * lost

  tick-Holds : (base lost : ℕ) (s : State) → Holds base lost s → Holds base lost (get_tick env s).0
  tick-Holds base lost s h = let p = tick-Spends env s 0 in ground (arith, p, h)

  add_event-Holds :
      (base lost : ℕ) (e : Event) (s : State)
      → Holds base lost s
      → Holds base (lost + lost_by env e s) (add_event env e s).0
  add_event-Holds base lost e s h =
      let grown = (add_event-Adds env e s).live (omega (arith, h)) in omega (arith, h, grown)

  consume-Holds :
      (base lost w : ℕ) (s : State) → Holds base lost s → Holds base lost (consume env w s).0
  consume-Holds base lost w s h = omega (arith, h, consume-live env w s (omega (arith, h)))

  -- However the threads interleave, whatever the clock shows and whichever allocations fail: if the
  -- heap has, besides some blocks, three for each entry of the list at the start, it has these
  -- blocks and three for each entry later, and two more for each file that was lost on the way
  -- because its node could not be allocated.
  pub Reach-Holds :
      (base : ℕ) {s t : System} (r : Reach env s t)
      → s.state.live ≡ base + 3 * length s.state.file_event_list
      → t.state.live ≡ base + 3 * length t.state.file_event_list + 2 * lost_on r
  unfolding lost_on read_now
  Reach-Holds base here h = omega (arith, h)
  Reach-Holds base (next {t} r stamp) h = tick-Holds base (lost_on r) t.state (Reach-Holds base r h)
  Reach-Holds base (next {t} r (produce e)) h =
      add_event-Holds base (lost_on r) e t.state (Reach-Holds base r h)
  Reach-Holds base (next r (sleep _ _)) h = Reach-Holds base r h
  Reach-Holds base (next {t} r (wake _)) h =
      consume-Holds base (lost_on r) _ t.state (Reach-Holds base r h)
  Reach-Holds base (next {t} r (proceed _ _)) h =
      consume-Holds base (lost_on r) t.cur_wait t.state (Reach-Holds base r h)

  -- The events added on the way.
  unfoldable pub produced : {s t : System} → Reach env s t → ℕ
  produced here = 0
  produced (next r stamp) = produced r
  produced (next r (produce event)) = suc (produced r)
  produced (next r (sleep p q)) = produced r
  produced (next r (wake p)) = produced r
  produced (next r (proceed p q)) = produced r

  -- The commands that have been run and those that may still be run for files in the list.
  abbrev runs : State → ℕ
  runs s = length s.executed + outstanding_all s.file_event_list

  tick-runs : (s : State) → runs (get_tick env s).0 ≤ runs s
  tick-runs s = let p = tick-Spends env s 0 in ground (arith, p)

  add_event-runs : (e : Event) (s : State) → runs (add_event env e s).0 ≤ runs s + 2
  add_event-runs e s =
      omega (arith, ap length (add_event-IsQuiet env e s).executed, (add_event-Adds env e s).more)

  reach-runs : {s t : System} (r : Reach env s t) → runs t.state ≤ runs s.state + 2 * produced r
  unfolding produced read_now
  reach-runs here = omega arith
  reach-runs (next {t} r stamp) = omega (arith, tick-runs t.state, reach-runs r)
  reach-runs (next {t} r (produce e)) = omega (arith, add_event-runs e t.state, reach-runs r)
  reach-runs (next r (sleep _ _)) = omega (arith, reach-runs r)
  reach-runs (next {t} r (wake _)) = omega (arith, consume-runs env _ t.state, reach-runs r)
  reach-runs (next {t} r (proceed _ _)) =
      omega (arith, consume-runs env t.cur_wait t.state, reach-runs r)

  -- However the threads interleave, at most two commands are run for each event that is added,
  -- besides those that were run or outstanding at the start.
  pub Reach-runs :
      {s t : System} (r : Reach env s t)
      → length t.state.executed
        ≤ length s.state.executed + outstanding_all s.state.file_event_list + 2 * produced r
  Reach-runs r = omega (arith, reach-runs r)
