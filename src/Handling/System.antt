-- ===== src/Handling/System.antt =====
-- The two threads, interleaved at the mutex.
use watch_it.Base.{ℕ, ◌≡◌, Bool, true, false}
use watch_it.Base.Words.{ulong_of_int}
use watch_it.Handling.Types.{State, Env, Event}
use watch_it.Handling.Clock.{get_tick}
use watch_it.Handling.Add.{add_event}
use watch_it.Handling.Consumer.{consume}
use watch_it.Handling.Wait.{read_now}

-- The consumer is at the head of its loop, or inside `pthread_cond_timedwait`, which has released
-- the mutex.
pub record System : Type 0 where
  pub state : State
  pub waiting : Bool
  pub cur_wait : ℕ

module _ (env : Env) where
  pub data Step (s : System) : System → Type 0 where
    -- The producer takes a time stamp, without the mutex.
    stamp : Step s (record s { state = (get_tick env s.state).0 })
    -- The producer adds an event.
    produce : (event : Event) → Step s (record s { state = (add_event env event s.state).0 })
    -- The consumer finds nothing signalled, reads the clock for the deadline and waits.
    sleep :
        s.waiting ≡ false
        → s.state.signaled ≡ false
        → Step s (record s { state = (read_now env s.state).0; waiting = true })
    -- The wait ends, by a signal or by the time, and the round is run.
    wake :
        s.waiting ≡ true
        → Step s (record {
          state = (consume env (ulong_of_int s.state.max_delay_before_fire) s.state).0;
          waiting = false;
          cur_wait = (consume env (ulong_of_int s.state.max_delay_before_fire) s.state).1;
        })
    -- Something was signalled before the consumer looked: it runs the round at once.
    proceed :
        s.waiting ≡ false
        → s.state.signaled ≡ true
        → Step s (record {
          state = (consume env s.cur_wait s.state).0;
          waiting = false;
          cur_wait = (consume env s.cur_wait s.state).1;
        })

  pub data Reach (s : System) : System → Type 0 where
    here : Reach s s
    next : {t u : System} → Reach s t → Step t u → Reach s u
