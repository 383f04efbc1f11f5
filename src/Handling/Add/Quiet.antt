-- ===== src/Handling/Add/Quiet.antt =====
-- Adding an event runs no command and changes no setting.
use watch_it.Base.{ℕ, ◌≡◌, ◌∙◌, Bool, true, Option, none, some, arith, if-rule}
use watch_it.Handling.Types.{State, Env, Event, FileEvent, FileList}
use watch_it.Handling.Clock.{get_tick, calc_open_delta, has_open_past_delay}
use watch_it.Handling.Files.{is_close_event, is_open_event, find_in_file_list}
use watch_it.Handling.Add.{on_close, on_open, handle_event, add_event}

-- The two states differ at most in the list, the clock, the heap and the signal.
pub record IsQuiet (s t : State) : Type 0 where
  pub open_cmd : t.open_cmd ≡ s.open_cmd
  pub close_cmd : t.close_cmd ≡ s.close_cmd
  pub delay : t.max_delay_before_fire ≡ s.max_delay_before_fire
  pub executed : t.executed ≡ s.executed

pub IsQuiet-trans : {s t u : State} → IsQuiet s t → IsQuiet t u → IsQuiet s u
IsQuiet-trans p q = record {
  open_cmd = q.open_cmd ∙ p.open_cmd;
  close_cmd = q.close_cmd ∙ p.close_cmd;
  delay = q.delay ∙ p.delay;
  executed = q.executed ∙ p.executed;
}

module _ (env : Env) where
  pub get_tick-IsQuiet : (s : State) → IsQuiet s (get_tick env s).0
  unfolding get_tick
  get_tick-IsQuiet s = ground arith

  pub delay-IsQuiet : (fl : FileList) (s : State) → IsQuiet s (has_open_past_delay env fl s).0
  unfolding has_open_past_delay
  delay-IsQuiet fl s = ground arith

  pub delta-IsQuiet : (f : Option FileEvent) (s : State) → IsQuiet s (calc_open_delta env f s).0
  unfolding calc_open_delta
  delta-IsQuiet f s = get_tick-IsQuiet s

  on_close-IsQuiet : (found : Option (ℕ × FileList)) (s : State) → IsQuiet s (on_close env found s)
  unfolding on_close
  on_close-IsQuiet none s = ground arith
  on_close-IsQuiet (some (i, fl)) s =
      ground (arith, delay-IsQuiet fl s, get_tick-IsQuiet (has_open_past_delay env fl s).0)

  on_open-IsQuiet :
      (e : Event) (found : Option (ℕ × FileList)) (s : State) → IsQuiet s (on_open env e found s).0
  unfolding on_open
  on_open-IsQuiet e none s = ground arith
  on_open-IsQuiet e (some (i, fl)) s = ground arith

  handle_event-IsQuiet : (e : Event) (s : State) → IsQuiet s (handle_event env e s).0
  unfolding handle_event
  handle_event-IsQuiet e s =
      if-rule (λ (r : State × Bool). IsQuiet s r.0) (is_close_event e) _ _
        (λ _. on_close-IsQuiet (find_in_file_list e s.file_event_list) s)
        (λ _.
          if-rule (λ (r : State × Bool). IsQuiet s r.0) (is_open_event e) _ _
            (λ _. on_open-IsQuiet e (find_in_file_list e s.file_event_list) s) (λ _. ground arith))

  signal : {s t : State} → IsQuiet s t → IsQuiet s (record t { signaled = true })
  signal q = record {
    open_cmd = q.open_cmd;
    close_cmd = q.close_cmd;
    delay = q.delay;
    executed = q.executed;
  }

  pub add_event-IsQuiet : (e : Event) (s : State) → IsQuiet s (add_event env e s).0
  unfolding add_event
  add_event-IsQuiet e s = signal (handle_event-IsQuiet e s)
