-- ===== src/Handling/Lookup/Commute.antt =====
-- The view after two events of different files, with a clock that stands.
use watch_it.Base.{
  ℕ, ◌-◌, ◌≤◌, ◌≡◌, refl, sym, ap, ◌∙◌, Bool, true, false, Option, none, some, ltb, arith,
  if◌then◌else◌, Bool-cases, Option-cases, inl, inr, if-rule,
}
use mathlib.Core.Path.{fun_ext}
use watch_it.Base.Words.{ulong_of_int}
use watch_it.Handling.Types.{State, Env, Event, FileEvent, FileList}
use watch_it.Handling.Clock.{has_open_past_delay}
use watch_it.Handling.Files.{
  equals_file, is_close_event, is_open_event, find_in_file_list, copy_event_to_file,
}
use watch_it.Handling.Files.Find.{wanted}
use watch_it.Handling.Commands.Effect.{Grants}
use watch_it.Handling.Add.{on_close, on_open, handle_event, add_event}
use watch_it.Handling.Add.Effect.{past_delay, close_tick}
use watch_it.Handling.Add.Quiet.{add_event-IsQuiet}
use watch_it.Handling.Consumer.Early.{delay-Waits, tick_within}
use watch_it.Handling.Consumer.Shortened.{ShowsAt, at_most, tick_at, delta_at}
use watch_it.Handling.Invariant.Defs.{Inv}
use watch_it.Handling.Invariant.Produced.{add_event-Inv}
use watch_it.Handling.Lookup.{lookup, after_close, after_open}
use watch_it.Handling.Lookup.Laws.{lookup-SameKey}
use watch_it.Handling.Invariant.Keys.{equals_file-SameKey}
use watch_it.Handling.Lookup.Refines.{add_event-after_close, add_event-after_open}

-- What an event does to the entry of its file, at a tick and with a delay.
unfoldable pub after_event : (now delay : ℕ) → Event → Option FileList → Option FileList
unfolding after_close after_open
after_event now delay e x =
    if is_close_event e
    then after_close (λ fl. ltb (ulong_of_int delay) (now - fl.file.open_timestamp)) (λ _. now) x
    else if is_open_event e
    then after_open e x
    else x

module _ (env : Env) (now : ℕ) (clock : ShowsAt env now) (grants : Grants env) where
  past_at :
      (fl : FileList) (s : State)
      → s.last_tick ≤ now
      → past_delay env fl s
        ≡ ltb (ulong_of_int s.max_delay_before_fire) (now - fl.file.open_timestamp)
  unfolding has_open_past_delay
  past_at fl s h =
      ap (ltb (ulong_of_int s.max_delay_before_fire)) (delta_at env now clock fl.file s h)

  close_at : (fl : FileList) (s : State) → s.last_tick ≤ now → close_tick env fl s ≡ now
  close_at fl s h =
      tick_at env now clock (has_open_past_delay env fl s).0
        (delay-Waits env now (at_most env now clock) fl s h).within

  close_event-view :
      (e : Event) (s : State) (k : FileEvent)
      → s.last_tick ≤ now
      → Inv s.file_event_list
      → is_close_event e ≡ true
      → lookup k (add_event env e s).0.file_event_list ≡ (
          if equals_file (wanted e) k
          then after_event now s.max_delay_before_fire e (lookup (wanted e) s.file_event_list)
          else lookup k s.file_event_list)
  unfolding after_event
  close_event-view e s k h v c =
      add_event-after_close env e s v k c
      ∙ rw (c, fun_ext (λ fl. past_at fl s h), fun_ext (λ fl. close_at fl s h)) refl

  new_file-done :
      (e : Event) (s : State)
      → is_close_event e ≡ false
      → is_open_event e ≡ true
      → (on_open env e none s).1 ≡ true
  unfolding on_open copy_event_to_file
  new_file-done e s c o =
      ground
        (arith, c, o, grants s.mallocs, grants (ℕ.suc s.mallocs), grants (ℕ.suc (ℕ.suc s.mallocs)))

  found-done :
      (e : Event) (i : ℕ) (fl : FileList) (s : State) → (on_open env e (some (i, fl)) s).1 ≡ true
  unfolding on_open
  found-done e i fl s = ground arith

  other-files :
      (e : Event) (s : State)
      → is_close_event e ≡ false
      → is_open_event e ≡ false
      → (add_event env e s).0.file_event_list ≡ s.file_event_list
  unfolding add_event handle_event
  other-files e s c o = rw (c, o) refl

  add_event-done :
      (e : Event) (s : State)
      → is_close_event e ≡ false
      → is_open_event e ≡ true
      → (add_event env e s).1 ≡ true
  unfolding add_event handle_event
  add_event-done e s c o = elim (Option-cases (find_in_file_list e s.file_event_list)) [
    | inl missing ↦ rw (c, o, missing) (new_file-done e s c o)
    | inr ((i, fl), found) ↦ rw (c, o, found) (found-done e i fl s)
  ]

  other_event-view :
      (e : Event) (s : State) (k : FileEvent)
      → is_close_event e ≡ false
      → is_open_event e ≡ false
      → lookup k (add_event env e s).0.file_event_list ≡ (
          if equals_file (wanted e) k
          then after_event now s.max_delay_before_fire e (lookup (wanted e) s.file_event_list)
          else lookup k s.file_event_list)
  unfolding after_event
  other_event-view e s k c o = elim (Bool-cases (equals_file (wanted e) k)) [
    | inl same ↦
        ap (lookup k) (other-files e s c o)
        ∙ sym
            (lookup-SameKey (wanted e) k s.file_event_list (equals_file-SameKey (wanted e) k same))
        ∙ ground (arith, c, o, same)
    | inr other ↦ ap (lookup k) (other-files e s c o) ∙ ground (arith, other)
  ]

  on_close-within :
      (found : Option (ℕ × FileList)) (s : State)
      → s.last_tick ≤ now
      → (on_close env found s).last_tick ≤ now
  unfolding on_close
  on_close-within none s h = h
  on_close-within (some (i, fl)) s h =
      let first = (delay-Waits env now (at_most env now clock) fl s h).within in
      let second =
        (tick_within env now (at_most env now clock) (has_open_past_delay env fl s).0 first).1 in
      ground (arith, h, first, second)

  on_open-within :
      (e : Event) (found : Option (ℕ × FileList)) (s : State)
      → s.last_tick ≤ now
      → (on_open env e found s).0.last_tick ≤ now
  unfolding on_open
  on_open-within e none s h = ground arith
  on_open-within e (some (i, fl)) s h = ground arith

  open_event-view :
      (e : Event) (s : State) (k : FileEvent)
      → Inv s.file_event_list
      → is_close_event e ≡ false
      → is_open_event e ≡ true
      → lookup k (add_event env e s).0.file_event_list ≡ (
          if equals_file (wanted e) k
          then after_event now s.max_delay_before_fire e (lookup (wanted e) s.file_event_list)
          else lookup k s.file_event_list)
  unfolding after_event
  open_event-view e s k v c o =
      add_event-after_open env e s v k c o
      ∙ rw (add_event-done e s c o) (ground (arith, c, o, Bool-cases (equals_file (wanted e) k)))

  -- The event's file has its entry changed, and no other file.
  pub event-view :
      (e : Event) (s : State) (k : FileEvent)
      → s.last_tick ≤ now
      → Inv s.file_event_list
      → lookup k (add_event env e s).0.file_event_list ≡ (
          if equals_file (wanted e) k
          then after_event now s.max_delay_before_fire e (lookup (wanted e) s.file_event_list)
          else lookup k s.file_event_list)
  event-view e s k h v = elim (Bool-cases (is_close_event e)) [
    | inl c ↦ close_event-view e s k h v c
    | inr c ↦ elim (Bool-cases (is_open_event e)) [
      | inl o ↦ open_event-view e s k v c o
      | inr o ↦ other_event-view e s k c o
    ]
  ]

  pub add_event-within :
      (e : Event) (s : State) → s.last_tick ≤ now → (add_event env e s).0.last_tick ≤ now
  unfolding add_event handle_event
  add_event-within e s h =
      if-rule (λ (r : State × Bool). r.0.last_tick ≤ now) (is_close_event e) _ _
        (λ _. on_close-within (find_in_file_list e s.file_event_list) s h)
        (λ _.
          if-rule (λ (r : State × Bool). r.0.last_tick ≤ now) (is_open_event e) _ _
            (λ _. on_open-within e (find_in_file_list e s.file_event_list) s h) (λ _. h))

  -- The order of events of different files does not matter for the view.
  pub swap-view :
      (e f : Event) (s : State) (k : FileEvent)
      → s.last_tick ≤ now
      → Inv s.file_event_list
      → equals_file (wanted e) (wanted f) ≡ false
      → lookup k (add_event env f (add_event env e s).0).0.file_event_list ≡ (
          if equals_file (wanted f) k
          then after_event now s.max_delay_before_fire f (lookup (wanted f) s.file_event_list)
          else if equals_file (wanted e) k
          then after_event now s.max_delay_before_fire e (lookup (wanted e) s.file_event_list)
          else lookup k s.file_event_list)
  swap-view e f s k h v ef =
      let s1 : State = (add_event env e s).0 in
      event-view f s1 k (add_event-within e s h) (add_event-Inv env e s v)
      ∙ rw
          (
            (add_event-IsQuiet env e s).delay,
            event-view e s (wanted f) h v,
            event-view e s k h v,
            ef,
          )
          refl
