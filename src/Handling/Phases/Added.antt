-- ===== src/Handling/Phases/Added.antt =====
-- The transitions by `event_handling_add_event`.
use watch_it.Base.{
  ℕ, ◌≡◌, sym, subst, Bool, true, false, ◌&&◌, Option, none, some, if◌then◌else◌, if-rule, arith,
  Bool-cases, inl, inr,
}
use watch_it.Handling.Types.{State, Env, Event, FileEvent, FileList}
use watch_it.Handling.Files.{
  is_close_event, is_open_event, equals_file, close_file, reset_to_open, init_file,
}
use watch_it.Handling.Files.Find.{wanted}
use watch_it.Handling.Add.{handle_event, add_event}
use watch_it.Handling.Invariant.Defs.{Inv}
use watch_it.Handling.Invariant.Keys.{equals_file-SameKey}
use watch_it.Handling.Lookup.{lookup, after_close, after_open}
use watch_it.Handling.Lookup.Laws.{lookup-SameKey}
use watch_it.Handling.Lookup.Refines.{add_event-after_close, add_event-after_open}
use watch_it.Handling.Phases.{
  Phase, absent, phase, phase_by, Moves, stay, open_new, reopen, resume, close_early, close_late,
  stop,
}

-- The phase after a close event, from the three tests.
abbrev closed_phase : (closed late fired : Bool) → Phase
closed_phase closed late fired =
    if closed
    then phase_by closed fired
    else if late
    then phase_by true fired
    else if fired
    then phase_by closed fired
    else absent

closed-Moves :
    (closed late fired : Bool) → Moves (phase_by closed fired) (closed_phase closed late fired)
closed-Moves true late fired = stay
closed-Moves false true true = stop
closed-Moves false true false = close_late
closed-Moves false false true = stay
closed-Moves false false false = close_early

after_close-Moves :
    (past : FileList → Bool) (tick : FileList → ℕ) (entry : Option FileList)
    → Moves (phase entry) (phase (after_close past tick entry))
unfolding after_close close_file
after_close-Moves past tick none = stay
after_close-Moves past tick (some fl) =
    let closed = fl.file.is_closed in
    let fired = fl.file.has_fired_open in
    let same : closed_phase closed (past fl) fired ≡ phase (after_close past tick (some fl)) =
      ground arith in
    subst (Moves (phase_by closed fired)) same (closed-Moves closed (past fl) fired)

-- The phase after an open event.
opened-Moves :
    (closed fired : Bool)
    → Moves (phase_by closed fired) (if closed then phase_by false fired else phase_by closed fired)
opened-Moves true true = resume
opened-Moves true false = reopen
opened-Moves false fired = stay

after_open-Moves :
    (e : Event) (entry : Option FileList) → Moves (phase entry) (phase (after_open e entry))
unfolding after_open reset_to_open init_file
after_open-Moves e none = open_new
after_open-Moves e (some fl) =
    let closed = fl.file.is_closed in
    let fired = fl.file.has_fired_open in
    let same : (if closed then phase_by false fired else phase_by closed fired)
        ≡ phase (after_open e (some fl)) =
      ground arith in
    subst (Moves (phase_by closed fired)) same (opened-Moves closed fired)

module _ (env : Env) (e : Event) (s : State) (inv : Inv s.file_event_list) (k : FileEvent) where
  abbrev Result : Option FileList → Type 0
  Result entry = Moves (phase (lookup k s.file_event_list)) (phase entry)

  -- The entry for the event's file, where that is the file asked for.
  own_view :
      equals_file (wanted e) k ≡ true
      → lookup (wanted e) s.file_event_list ≡ lookup k s.file_event_list
  own_view own =
      lookup-SameKey (wanted e) k s.file_event_list (equals_file-SameKey (wanted e) k own)

  -- A transition of the event's file, and no change for any other.
  changed :
      (test : Bool) (after : Option FileList → Option FileList)
      → (test ≡ true → equals_file (wanted e) k ≡ true)
      → ((entry : Option FileList) → Moves (phase entry) (phase (after entry)))
      → Result
          (if test then after (lookup (wanted e) s.file_event_list) else lookup k s.file_event_list)
  changed test after own moves =
      if-rule Result test _ _
        (λ h.
          subst (λ entry. Moves (phase entry) (phase (after (lookup (wanted e) s.file_event_list))))
            (own_view (own h)) (moves (lookup (wanted e) s.file_event_list)))
        (λ _. stay)

  close-Moves : is_close_event e ≡ true → Result (lookup k (add_event env e s).0.file_event_list)
  close-Moves c =
      subst Result (sym (add_event-after_close env e s inv k c))
        (changed (equals_file (wanted e) k) _ (λ h. h) (after_close-Moves _ _))

  open-Moves :
      is_close_event e ≡ false
      → is_open_event e ≡ true
      → Result (lookup k (add_event env e s).0.file_event_list)
  open-Moves c o = subst Result (sym (add_event-after_open env e s inv k c o)) (
      changed (equals_file (wanted e) k && (add_event env e s).1) (after_open e)
        (λ h. ground (arith, h)) (after_open-Moves e))

  other-Moves :
      is_close_event e ≡ false
      → is_open_event e ≡ false
      → Result (lookup k (add_event env e s).0.file_event_list)
  unfolding add_event handle_event
  other-Moves c o = rw (c, o) stay

  -- An event takes each file along a transition of the diagram.
  pub add_event-Moves : Result (lookup k (add_event env e s).0.file_event_list)
  add_event-Moves = elim (Bool-cases (is_close_event e)) [
    | inl c ↦ close-Moves c
    | inr c ↦ elim (Bool-cases (is_open_event e)) [
      | inl o ↦ open-Moves c o
      | inr o ↦ other-Moves c o
    ]
  ]
