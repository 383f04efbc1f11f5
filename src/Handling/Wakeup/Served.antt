-- ===== src/Handling/Wakeup/Served.antt =====
-- No wake-up is lost.
use watch_it.Base.{ℕ, ◌≡◌, refl, sym, ◌∙◌, suc, inl, inr, true, false, ◌||◌, arith, Bool-cases}
use watch_it.Handling.Types.{State, Env, Event}
use watch_it.Handling.Clock.{get_tick}
use watch_it.Handling.Add.{add_event}
use watch_it.Handling.Wait.{read_now}
use watch_it.Handling.System
use watch_it.Handling.System.{System, Reach}
use watch_it.Handling.Wakeup.{
  Waiter, Round, on_signal, at_once, Move, stamp, produce, sleep, expire, round, Moves, here, next,
}

module _ (env : Env) where
  -- A consumer that waits while something is signalled has been notified; one that does not wait
  -- has not.
  pub record IsAwake (d : Waiter) : Type 0 where
    pub heard : d.system.waiting ≡ true → d.system.state.signaled ≡ true → d.notified ≡ true

  tick_signaled : (s : State) → (get_tick env s).0.signaled ≡ s.signaled
  unfolding get_tick
  tick_signaled s = ground arith

  Move-IsAwake : {d e : Waiter} → Move env d e → IsAwake d → IsAwake e
  unfolding read_now
  Move-IsAwake {d} stamp h = record {
    heard = λ w s. h.heard w (sym (tick_signaled d.system.state) ∙ s);
  }
  Move-IsAwake {d} (produce event) h = record { heard = λ w s. ground (arith, w) }
  Move-IsAwake (sleep w unset) h = record { heard = λ _ s. absurd (cc (unset, s)) }
  Move-IsAwake (expire w) h = record { heard = λ u s. absurd (cc) }
  Move-IsAwake (round (on_signal w n)) h = record { heard = λ u s. absurd (cc) }
  Move-IsAwake (round (at_once w set)) h = record { heard = λ u s. absurd (cc) }

  Moves-IsAwake : {d e : Waiter} → Moves env d e → IsAwake d → IsAwake e
  Moves-IsAwake here h = h
  Moves-IsAwake (next r m) h = Move-IsAwake m (Moves-IsAwake r h)

  -- The rounds are steps of the two threads.
  Move-Step : {d e : Waiter} → Move env d e → System.Step env d.system e.system
  Move-Step stamp = System.stamp
  Move-Step (produce event) = System.produce event
  Move-Step (sleep w unset) = System.sleep w unset
  Move-Step (expire w) = System.wake w
  Move-Step (round (on_signal w n)) = System.wake w
  Move-Step (round (at_once w set)) = System.proceed w set

  Moves-Reach : {d e : Waiter} → Moves env d e → Reach env d.system e.system
  Moves-Reach here = System.here
  Moves-Reach (next r m) = System.next (Moves-Reach r) (Move-Step m)

  Moves-append : {d t e : Waiter} → Moves env d t → Moves env t e → Moves env d e
  Moves-append r here = r
  Moves-append r (next r' m) = next (Moves-append r r') m

  -- The rounds that the consumer has run on the way.
  unfoldable pub rounds_in : {d e : Waiter} → Moves env d e → ℕ
  rounds_in here = 0
  rounds_in (next r stamp) = rounds_in r
  rounds_in (next r (produce event)) = rounds_in r
  rounds_in (next r (sleep w unset)) = rounds_in r
  rounds_in (next r (expire w)) = suc (rounds_in r)
  rounds_in (next r (round p)) = suc (rounds_in r)

  -- `signaled` stays set until a round.
  still_signaled :
      {d e : Waiter} (r : Moves env d e)
      → rounds_in r ≡ 0
      → d.system.state.signaled ≡ true
      → e.system.state.signaled ≡ true
  unfolding rounds_in read_now add_event
  still_signaled here n h = h
  still_signaled (next {t} r stamp) n h = tick_signaled t.system.state ∙ still_signaled r n h
  still_signaled (next r (produce event)) n h = refl
  still_signaled (next r (sleep w unset)) n h = absurd (cc (still_signaled r n h, unset))
  still_signaled (next r (expire w)) n h = absurd (omega (arith, n))
  still_signaled (next r (round p)) n h = absurd (omega (arith, n))

  can_run : (d : Waiter) → IsAwake d → d.system.state.signaled ≡ true → (e : Waiter) × Round env d e
  can_run d h s = elim (Bool-cases d.system.waiting) [
    | inl waits ↦ (_, on_signal waits (h.heard waits s))
    | inr runs ↦ (_, at_once runs s)
  ]

  -- After the producer has added an event.
  abbrev pub added : Event → Waiter → Waiter
  added event d = record {
    system = record (d.system) { state = (add_event env event d.system.state).0 };
    notified = d.notified || d.system.waiting;
  }

  -- From a consumer that does not wait, however the threads interleave: when an event has been
  -- added and no round has been run since, the consumer can run one without waiting for its
  -- deadline, since it has been signalled in its wait or does not wait; and what has happened is a
  -- run of the two threads.
  pub Moves-served :
      {d t v : Waiter} (r : Moves env d t) (event : Event) (r' : Moves env (added event t) v)
      → d.system.waiting ≡ false
      → rounds_in r' ≡ 0
      → ((e : Waiter) × Round env v e) × Reach env d.system v.system
  unfolding add_event
  Moves-served {d} {v} r event r' idle none_run =
      let start : IsAwake d = record { heard = λ w _. absurd (cc (idle, w)) } in
      let awake = Moves-IsAwake r' (Move-IsAwake (produce event) (Moves-IsAwake r start)) in
      (
        can_run v awake (still_signaled r' none_run refl),
        Moves-Reach (Moves-append (next r (produce event)) r'),
      )
