-- ===== src/Handling/Wakeup.antt =====
-- The condition variable between the two threads: `pthread_cond_timedwait` in `wait_for_producer`
-- and `pthread_cond_signal` in `event_handling_add_event`.
pub mod Served
pub mod Examples
use watch_it.Base.{ℕ, ◌≡◌, Bool, true, false, ◌||◌}
use watch_it.Base.Words.{ulong_of_int}
use watch_it.Handling.Types.{State, Env, Event}
use watch_it.Handling.Clock.{get_tick}
use watch_it.Handling.Add.{add_event}
use watch_it.Handling.Consumer.{consume}
use watch_it.Handling.Wait.{read_now}
use watch_it.Handling.System.{System}

-- The two threads, and whether the consumer has been signalled since it began to wait.
pub record Waiter : Type 0 where
  pub system : System
  pub notified : Bool

module _ (env : Env) where
  -- The system after a wait and its round.
  abbrev pub after_wait : System → System
  after_wait s =
      let r = consume env (ulong_of_int s.state.max_delay_before_fire) s.state in
      record { state = r.0; waiting = false; cur_wait = r.1 }

  -- A round of the consumer that does not come from the deadline: it was signalled in its wait, or
  -- found `signaled` set and did not wait.
  pub data Round (d : Waiter) : Waiter → Type 0 where
    on_signal :
        d.system.waiting ≡ true
        → d.notified ≡ true
        → Round d (record { system = after_wait d.system; notified = false })
    at_once :
        d.system.waiting ≡ false
        → d.system.state.signaled ≡ true
        → Round d (record d {
          system = record {
            state = (consume env d.system.cur_wait d.system.state).0;
            waiting = false;
            cur_wait = (consume env d.system.cur_wait d.system.state).1;
          };
        })

  pub data Move (d : Waiter) : Waiter → Type 0 where
    stamp :
        Move d (record d { system = record (d.system) { state = (get_tick env d.system.state).0 } })
    -- The signal reaches the consumer if it waits, and is lost otherwise.
    produce :
        (event : Event)
        → Move d (record {
          system = record (d.system) { state = (add_event env event d.system.state).0 };
          notified = d.notified || d.system.waiting;
        })
    sleep :
        d.system.waiting ≡ false
        → d.system.state.signaled ≡ false
        → Move d (record {
          system = record (d.system) { state = (read_now env d.system.state).0; waiting = true };
          notified = false;
        })
    -- The deadline has passed.
    expire :
        d.system.waiting ≡ true → Move d (record { system = after_wait d.system; notified = false })
    round : {e : Waiter} → Round d e → Move d e

  pub data Moves (d : Waiter) : Waiter → Type 0 where
    here : Moves d d
    next : {t u : Waiter} → Moves d t → Move t u → Moves d u
