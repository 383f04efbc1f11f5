-- ===== src/Daemon/Threads/Alone.antt =====
-- A call of `get_event` that the consumer does not interrupt.
use watch_it.Base.{
  ◌∷◌, ◌++◌, ℕ, zero, suc, ◌-◌, ◌<◌, ◌≡◌, refl, subst, Bool, true, false, List, [], Option, none,
  some, length, drop, ltb, ltb→lt, arith, Bool-cases, Option-cases, inl, inr, if-rule,
}
use watch_it.Handling.Types.{State, Env, Event}
use watch_it.Handling.Clock.{get_tick}
use watch_it.Handling.Add.{add_event}
use watch_it.Handling.System.{System}
use watch_it.Daemon.Table.{Table}
use watch_it.Daemon.Reader.{
  InotifyEvent, event_at, next_event, handle_inotify, read_loop, get_event,
}
use watch_it.Daemon.Reader.Refines.{loop-round}
use watch_it.Daemon.Threads.{
  Stage, idle, reading, Process, next_i, after_add, read, finish, skip, stamp_event, add,
  consumer_turn, Turn, Turns, here, next,
}

-- What a turn takes from outside the daemon's loop.
pub data Mark : Type 0 where
  fetched : Option (List ℕ) → Mark
  interrupted : Mark

module _ (env : Env) (table : Table) where
  unfoldable pub mark : {d t : Process} → Turn env table d t → List Mark
  mark (read bytes _) = fetched bytes ∷ []
  mark (finish _ _ _ _) = []
  mark (skip _ _ _ _ _) = []
  mark (stamp_event _ _ _ _ _ _) = []
  mark (add _ _ _ _) = []
  mark (consumer_turn _ _) = interrupted ∷ []

  -- The reads and the consumer's turns among some turns, the last one first.
  unfoldable pub marks : {d t : Process} → Turns env table d t → List Mark
  unfolding mark
  marks here = []
  marks (next r turn) = mark turn ++ marks r

  handle-skipped :
      (e : InotifyEvent) (s : State)
      → next_event table e ≡ none
      → handle_inotify env table e s ≡ (s, true)
  unfolding handle_inotify
  handle-skipped e s h = rw (h, handle_inotify) refl

  handle-wanted :
      (e : InotifyEvent) (f : ℕ → Event) (s : State)
      → next_event table e ≡ some f
      → handle_inotify env table e s ≡ add_event env (f (get_tick env s).1) (get_tick env s).0
  unfolding handle_inotify
  handle-wanted e f s h = rw (h, handle_inotify) refl

  -- The daemon in a state of the system and at a stage.
  abbrev pub standing : System → State → Stage → Process
  standing sys s stage = record { system = record sys { state = s }; stage = stage }

  module _ (sys : System) (buff : List ℕ) where
    -- Turns from before the call, with just these marks.
    pub record Taken (n : List Mark) (d : Process) : Type 0 where
      pub turns : Turns env table (standing sys sys.state idle) d
      pub reads : marks turns ≡ n

    abbrev Ends : List Mark → Option State → Type 0
    Ends n r = (s : State) × (r ≡ some s) × Taken n (standing sys s idle)

    read_loop-outside :
        (fuel i : ℕ) (s : State)
        → ltb i (length buff) ≡ false
        → read_loop env table buff (suc fuel) i s ≡ some s
    unfolding read_loop
    read_loop-outside fuel i s h = ground (arith, h)

    -- After a skipped event.
    skipped_turn :
        (i : ℕ) (n : List Mark) (s : State)
        → ltb i (length buff) ≡ true
        → next_event table (event_at (drop i buff)) ≡ none
        → Taken n (standing sys s (reading buff i))
        → Taken n (standing sys s (reading buff (next_i buff i)))
    unfolding marks
    skipped_turn i n s inside h c = record {
      turns = next c.turns (skip buff i refl inside h);
      reads = c.reads;
    }

    -- After an event that is stamped and added.
    added_turns :
        (i : ℕ) (n : List Mark) (f : ℕ → Event) (s : State) (added : Bool)
        → ltb i (length buff) ≡ true
        → next_event table (event_at (drop i buff)) ≡ some f
        → (add_event env (f (get_tick env s).1) (get_tick env s).0).1 ≡ added
        → Taken n (standing sys s (reading buff i))
        → Taken n (
            standing sys
              (add_event env (f (get_tick env s).1) (get_tick env s).0).0
              (after_add added buff (next_i buff i)))
    unfolding marks
    added_turns i n f s added inside h at c =
        subst
          (λ (b : Bool). Taken n (
            standing sys (add_event env (f (get_tick env s).1) (get_tick env s).0).0
              (after_add b buff (next_i buff i))))
          at
          (record {
            turns =
                next (next c.turns (stamp_event buff i f refl inside h))
                  (add buff (next_i buff i) (f (get_tick env s).1) refl);
            reads = c.reads;
          })

    read_loop-Ends :
        (fuel i : ℕ) (n : List Mark) (s : State)
        → length buff - i < fuel
        → Taken n (standing sys s (reading buff i))
        → Ends n (read_loop env table buff fuel i s)
    unfolding read_loop marks
    read_loop-Ends zero i n s f c = absurd (omega arith)
    read_loop-Ends (suc fuel) i n s f c =
        let e : InotifyEvent = event_at (drop i buff) in
        elim (Bool-cases (ltb i (length buff))) [
          | inl inside ↦
              let below = ltb→lt i (length buff) inside in
              rw (loop-round env table buff fuel i s inside)
                (elim (Option-cases (next_event table e)) [
                  | inl none_wanted ↦ rw (handle-skipped e s none_wanted) (
                      read_loop-Ends fuel (next_i buff i) n s (omega (arith, below))
                        (skipped_turn i n s inside none_wanted c))
                  | inr (event, wanted) ↦ rw (handle-wanted e event s wanted) (
                      if-rule (Ends n)
                        (add_event env (event (get_tick env s).1) (get_tick env s).0).1 _ _
                        (λ done.
                          read_loop-Ends fuel (next_i buff i) n _ (omega (arith, below))
                            (added_turns i n event s true inside wanted done c))
                        (λ failed. (_, refl, added_turns i n event s false inside wanted failed c)))
                ])
          | inr outside ↦ (
            s,
            read_loop-outside fuel i s outside,
            record { turns = next c.turns (finish buff i refl outside); reads = c.reads },
          )
        ]

-- Whatever `read` returned, `get_event` ends, and what it does is what turns of the daemon do that
-- go from before this `read` to before the next: among them is one `read`, which returns the same,
-- and no turn of the consumer.
pub get_event-Turns :
    (env : Env) (table : Table) (bytes : Option (List ℕ)) (sys : System)
    → (s : State) × (get_event env table bytes sys.state ≡ some s)
      × (turns : Turns env table
          (standing env table sys sys.state idle)
          (standing env table sys s idle))
      × (marks env table turns ≡ fetched bytes ∷ [])
unfolding get_event marks
get_event-Turns env table none sys =
    (sys.state, refl, next (next here (read none refl)) (finish [] 0 refl refl), refl)
get_event-Turns env table (some buff) sys =
    let (s, ended, c) =
      read_loop-Ends env table sys buff (suc (length buff)) 0 (fetched (some buff) ∷ []) sys.state
        (omega arith) (record { turns = next here (read (some buff) refl); reads = refl }) in
    (s, ended, c.turns, c.reads)
