-- ===== src/Daemon/Threads.antt =====
-- The daemon and the consumer as they run together: the loop of `begin_watch` that calls
-- `get_event`, round by round, with the consumer's turns anywhere in between.
pub mod Bounded
pub mod Alone
pub mod Origin
pub mod Examples
use watch_it.Base.{
  ℕ, ◌+◌, ◌≡◌, Bool, true, false, List, [], Option, none, some, length, drop, ltb, if◌then◌else◌,
}
use watch_it.Handling.Types.{Env, Event}
use watch_it.Handling.Clock.{get_tick}
use watch_it.Handling.Add.{add_event}
use watch_it.Handling.System.{System, Step, stamp, produce, sleep, wake, proceed}
use watch_it.Daemon.Table.{Table}
use watch_it.Daemon.Reader.{event_at, next_event, sizeof_event}

-- Where the daemon is: about to read, at the head of the loop over the bytes with its `i`, or with
-- an event that is stamped and not yet added.
pub data Stage : Type 0 where
  idle : Stage
  reading : List ℕ → ℕ → Stage
  adding : List ℕ → ℕ → Event → Stage

pub record Process : Type 0 where
  pub system : System
  pub stage : Stage

-- The bytes to be looped over. A failed `read` returns -1, and the loop is not entered.
abbrev pub bytes_of : Option (List ℕ) → List ℕ
bytes_of none = []
bytes_of (some buff) = buff

-- `i` after the round at `i`.
abbrev pub next_i : List ℕ → ℕ → ℕ
next_i buff i = i + (sizeof_event + (event_at (drop i buff)).len)

-- After the call of `event_handling_add_event`: the next round, or the early return.
abbrev pub after_add : Bool → List ℕ → ℕ → Stage
after_add added buff i = if added then reading buff i else idle

module _ (env : Env) where
  -- The turns of the consumer.
  unfoldable pub of_consumer : {s t : System} → Step env s t → Bool
  of_consumer stamp = false
  of_consumer (produce _) = false
  of_consumer (sleep _ _) = true
  of_consumer (wake _) = true
  of_consumer (proceed _ _) = true

module _ (env : Env) (table : Table) where
  -- One turn of either thread.
  pub data Turn (d : Process) : Process → Type 0 where
    read :
        (bytes : Option (List ℕ))
        → d.stage ≡ idle
        → Turn d (record d { stage = reading (bytes_of bytes) 0 })
    -- The loop is left.
    finish :
        (buff : List ℕ) (i : ℕ)
        → d.stage ≡ reading buff i
        → ltb i (length buff) ≡ false
        → Turn d (record d { stage = idle })
    -- A round that ends with `continue`.
    skip :
        (buff : List ℕ) (i : ℕ)
        → d.stage ≡ reading buff i
        → ltb i (length buff) ≡ true
        → next_event table (event_at (drop i buff)) ≡ none
        → Turn d (record d { stage = reading buff (next_i buff i) })
    -- A round up to the time stamp, which is taken without the mutex.
    stamp_event :
        (buff : List ℕ) (i : ℕ) (event : ℕ → Event)
        → d.stage ≡ reading buff i
        → ltb i (length buff) ≡ true
        → next_event table (event_at (drop i buff)) ≡ some event
        → Turn d (record d {
          system = record (d.system) { state = (get_tick env d.system.state).0 };
          stage = adding buff (next_i buff i) (event (get_tick env d.system.state).1);
        })
    -- The event is added, with the mutex.
    add :
        (buff : List ℕ) (i : ℕ) (event : Event)
        → d.stage ≡ adding buff i event
        → Turn d (record {
          system = record (d.system) { state = (add_event env event d.system.state).0 };
          stage = after_add (add_event env event d.system.state).1 buff i;
        })
    consumer_turn :
        {t : System} (turn : Step env d.system t)
        → of_consumer env turn ≡ true
        → Turn d (record d { system = t })

  pub data Turns (d : Process) : Process → Type 0 where
    here : Turns d d
    next : {t u : Process} → Turns d t → Turn t u → Turns d u
