-- ===== src/Handling/Phases/Rounds.antt =====
-- The transitions by a round of the consumer.
use watch_it.Base.{
  ℕ, ◌≡◌, refl, sym, subst, ◌∙◌, Bool, true, false, List, [], ◌∷◌, Option, none, some,
  if◌then◌else◌, arith, Bool-cases, inl, inr,
}
use watch_it.Base.Words.{uint32_max}
use watch_it.Handling.Types.{State, Env, FileEvent, FileList}
use watch_it.Handling.Clock.{has_open_past_delay}
use watch_it.Handling.Files.{equals_file, is_valid_close}
use watch_it.Handling.Commands.{execute_close_event}
use watch_it.Handling.Consumer.{Visit, visit_open, visit_close, visit, visit_all, consume}
use watch_it.Handling.Consumer.Sweep.{survivors}
use watch_it.Handling.Invariant.Defs.{IsSound, Inv}
use watch_it.Handling.Invariant.Keys.{equals_file-left}
use watch_it.Handling.Invariant.Consumed.{
  execute_open-file, visit-key, visit_all-IsAbsent, consume-files,
}
use watch_it.Handling.Lookup.{lookup}
use watch_it.Handling.Lookup.Laws.{lookup-absent}
use watch_it.Handling.Phases.{absent, phase, phase_by, Moves, stay, start, run, run_both, finish}

execute_close-flags :
    (env : Env) (f : FileEvent) (s : State)
    → ((execute_close_event env f s).1.is_closed ≡ f.is_closed)
      × ((execute_close_event env f s).1.has_fired_open ≡ f.has_fired_open)
unfolding execute_close_event
execute_close-flags env f s = ground arith

-- What a visit does to the flags of an entry: only closed ones are marked, and an open command that
-- has been run stays so.
record Flags (cur item : FileList) : Type 0 where
  closed : item.file.is_closed ≡ cur.file.is_closed
  fired : cur.file.has_fired_open ≡ true → item.file.has_fired_open ≡ true
  marked : item.remove ≡ true → cur.file.is_closed ≡ true

open-Flags :
    (env : Env) (cur : FileList) (w : ℕ) (s : State)
    → IsSound cur
    → Flags cur (visit_open env cur w s).item
      × ((visit_open env cur w s).item.file.close_timestamp ≡ cur.file.close_timestamp)
      × ((visit_open env cur w s).item.remove ≡ false)
unfolding visit_open
open-Flags env cur w s sound =
    ground (arith, sound, execute_open-file env cur.file (has_open_past_delay env cur s).0)

close-Flags :
    (env : Env) (v : Visit FileList)
    → v.item.remove ≡ false
    → (v.item.file.is_closed ≡ false → v.item.file.close_timestamp ≡ uint32_max)
    → Flags v.item (visit_close env v).item
unfolding visit_close is_valid_close
close-Flags env v kept mark =
    ground (arith, execute_close-flags env v.item.file v.state, Bool-cases v.item.file.is_closed)

visit-Flags :
    (env : Env) (cur : FileList) (w : ℕ) (s : State)
    → IsSound cur
    → Flags cur (visit env cur w s).item
unfolding visit
visit-Flags env cur w s sound =
    let v = visit_open env cur w s in
    let (flags, time, kept) = open-Flags env cur w s sound in
    let rest =
      close-Flags env v kept (λ still. time ∙ sound.open_time (sym flags.closed ∙ still)) in
    record {
      closed = rest.closed ∙ flags.closed;
      fired = λ h. rest.fired (flags.fired h);
      marked = λ h. sym flags.closed ∙ rest.marked h;
    }

-- The phase after a visit, from the flags before and after it.
visited-Moves :
    (closed fired fired' marked : Bool)
    → (fired ≡ true → fired' ≡ true)
    → (marked ≡ true → closed ≡ true)
    → Moves (phase_by closed fired) (if marked then absent else phase_by closed fired')
visited-Moves closed true false marked f m = absurd (cc (f refl))
visited-Moves false fired fired' true f m = absurd (cc (m refl))
visited-Moves true true true true f m = finish
visited-Moves true false true true f m = run_both
visited-Moves true false false true f m = run_both
visited-Moves closed true true false f m = stay
visited-Moves closed false false false f m = stay
visited-Moves true false true false f m = run
visited-Moves false false true false f m = start

-- What the second loop makes of an entry.
abbrev swept : FileList → Option FileList
swept item = if item.remove then none else some item

visit-Moves :
    (env : Env) (cur : FileList) (w : ℕ) (s : State)
    → IsSound cur
    → Moves (phase (some cur)) (phase (swept (visit env cur w s).item))
visit-Moves env cur w s sound =
    let item = (visit env cur w s).item in
    let flags = visit-Flags env cur w s sound in
    let same : (if item.remove
          then absent
          else phase_by cur.file.is_closed item.file.has_fired_open)
        ≡ phase (swept item) =
      ground (arith, flags.closed) in
    subst (Moves (phase (some cur))) same (
      visited-Moves cur.file.is_closed cur.file.has_fired_open item.file.has_fired_open item.remove
        flags.fired flags.marked)

lookup-own :
    (k : FileEvent) (item : FileList) (rest : List FileList)
    → equals_file item.file k ≡ true
    → lookup k (survivors rest) ≡ none
    → lookup k (survivors (item ∷ rest)) ≡ swept item
unfolding lookup
lookup-own k item rest own none_left = ground (arith, own, none_left)

lookup-other :
    (k : FileEvent) (item : FileList) (rest : List FileList)
    → equals_file item.file k ≡ false
    → lookup k (survivors (item ∷ rest)) ≡ lookup k (survivors rest)
unfolding lookup
lookup-other k item rest other = ground (arith, other)

module _ (env : Env) (k : FileEvent) where
  visit_all-Moves :
      (files : List FileList) (w : ℕ) (s : State)
      → Inv files
      → Moves (phase (lookup k files)) (phase (lookup k (survivors (visit_all env files w s).item)))
  unfolding visit_all lookup
  visit_all-Moves [] w s inv = stay
  visit_all-Moves (x ∷ rest) w s inv =
      let v = visit env x w s in
      let later = (visit_all env rest v.cur_wait v.state).item in
      let key = equals_file-left x.file v.item.file k (visit-key env x w s) in
      let inv' : Inv rest = record { sound = inv.sound.1; unique = inv.unique.1 } in
      elim (Bool-cases (equals_file x.file k)) [
        | inl own ↦
            let gone =
              lookup-absent k x.file (survivors later) own
                (visit_all-IsAbsent env x.file rest v.cur_wait v.state inv.unique.0) in
            let after = lookup-own k v.item later (sym key ∙ own) gone in
            rw (own, after) (visit-Moves env x w s inv.sound.0)
        | inr other ↦
            rw (other, lookup-other k v.item later (sym key ∙ other))
              (visit_all-Moves rest v.cur_wait v.state inv')
      ]

  -- A round takes each file along a transition of the diagram.
  pub consume-Moves :
      (w : ℕ) (s : State)
      → Inv s.file_event_list
      → Moves
          (phase (lookup k s.file_event_list))
          (phase (lookup k (consume env w s).0.file_event_list))
  consume-Moves w s inv =
      rw (consume-files env w s)
        (visit_all-Moves s.file_event_list w (record s { signaled = false }) inv)
