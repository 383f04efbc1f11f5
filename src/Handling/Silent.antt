-- ===== src/Handling/Silent.antt =====
-- Without an open command nothing is ever run.
use watch_it.Base.{ℕ, ◌≡◌, refl, sym, ◌∙◌, ap, ap₂, subst, false, List, [], ◌∷◌, some, All, arith}
use watch_it.Handling.Types.{State, Env, Event, FileList}
use watch_it.Handling.Clock.{has_open_past_delay, calc_open_delta}
use watch_it.Handling.Files.{close_file, reset_to_open, init_file}
use watch_it.Handling.Files.Find.{wanted}
use watch_it.Handling.Commands.{execute_open_event}
use watch_it.Handling.Add.{add_event}
use watch_it.Handling.Add.Effect.{new_node, get_tick-files}
use watch_it.Handling.Add.Quiet.{
  IsQuiet, IsQuiet-trans, delta-IsQuiet, add_event-IsQuiet, delay-IsQuiet, get_tick-IsQuiet,
}
use watch_it.Handling.Consumer.{visit_open, visit, visit_all, consume}
use watch_it.Handling.Add.Keeps.{add_event-All}
use watch_it.Handling.Consumer.Sweep.{All-survivors, sweep-survivors, sweep-IsQuiet}
use watch_it.Handling.Consumer.Visits.{visit_close-unfired}
use watch_it.Handling.Wait.{read_now}
use watch_it.Handling.System.{System, Step, stamp, produce, sleep, wake, proceed, Reach, here, next}

abbrev IsUnfired : FileList → Type 0
IsUnfired fl = fl.file.has_fired_open ≡ false

-- The open command is empty, no file in the list has had one run, and nothing has been run.
pub record IsSilent (s : State) : Type 0 where
  pub empty : s.open_cmd ≡ some []
  pub unfired : All IsUnfired s.file_event_list
  pub nothing : s.executed ≡ []

close_file-IsUnfired : (fl : FileList) (t : ℕ) → IsUnfired fl → IsUnfired (close_file fl t)
unfolding close_file
close_file-IsUnfired fl t u = u

reset-IsUnfired : (fl : FileList) (t : ℕ) → IsUnfired fl → IsUnfired (reset_to_open fl t)
unfolding reset_to_open
reset-IsUnfired fl t u = u

new_node-IsUnfired : (e : Event) → IsUnfired (new_node (wanted e))
unfolding init_file
new_node-IsUnfired e = refl

module _ (env : Env) where
  visit_open_silent :
      (cur : FileList) (w : ℕ) (s : State)
      → s.open_cmd ≡ some []
      → ((visit_open env cur w s).item ≡ cur) × IsQuiet s (visit_open env cur w s).state
  unfolding visit_open execute_open_event
  visit_open_silent cur w s e =
      let s1 : State = (has_open_past_delay env cur s).0 in
      let s2 : State = (calc_open_delta env (some cur.file) s1).0 in
      ground (
        arith,
        delay-IsQuiet env cur s,
        delta-IsQuiet env (some cur.file) s1,
        delta-IsQuiet env (some cur.file) s2,
      )

  visit_silent :
      (cur : FileList) (w : ℕ) (s : State)
      → s.open_cmd ≡ some []
      → IsUnfired cur
      → ((visit env cur w s).item ≡ cur) × IsQuiet s (visit env cur w s).state
  unfolding visit
  visit_silent cur w s e u =
      let (item, quiet) = visit_open_silent cur w s e in
      let unfired = ap (λ (fl : FileList). fl.file.has_fired_open) item ∙ u in
      rw (visit_close-unfired env (visit_open env cur w s) unfired) (item, quiet)

  visit_all_silent :
      (files : List FileList) (w : ℕ) (s : State)
      → s.open_cmd ≡ some []
      → All IsUnfired files
      → ((visit_all env files w s).item ≡ files) × IsQuiet s (visit_all env files w s).state
  unfolding visit_all
  visit_all_silent [] w s e u = (refl, ground arith)
  visit_all_silent (x ∷ rest) w s e u =
      let x1 = visit env x w s in
      let (item, quiet) = visit_silent x w s e u.0 in
      let (items, later) = visit_all_silent rest x1.cur_wait x1.state (quiet.open_cmd ∙ e) u.1 in
      (ap₂ ◌∷◌ item items, IsQuiet-trans quiet later)

  consume-IsSilent : (w : ℕ) (s : State) → IsSilent s → IsSilent (consume env w s).0
  unfolding consume
  consume-IsSilent w s h =
      let s0 : State = record s { signaled = false } in
      let vs = visit_all env s.file_event_list w s0 in
      let (items, quiet) = visit_all_silent s.file_event_list w s0 h.empty h.unfired in
      let swept = sweep-IsQuiet vs.item vs.state in
      record {
        empty = swept.open_cmd ∙ quiet.open_cmd ∙ h.empty;
        nothing = swept.executed ∙ quiet.executed ∙ h.nothing;
        unfired =
            subst (All IsUnfired) (sym (sweep-survivors vs.item vs.state))
              (All-survivors IsUnfired vs.item (subst (All IsUnfired) (sym items) h.unfired));
      }

  add_event-IsSilent : (e : Event) (s : State) → IsSilent s → IsSilent (add_event env e s).0
  add_event-IsSilent e s h = record {
    empty = (add_event-IsQuiet env e s).open_cmd ∙ h.empty;
    nothing = (add_event-IsQuiet env e s).executed ∙ h.nothing;
    unfired =
        add_event-All env IsUnfired (λ fl t u. close_file-IsUnfired fl t u)
          (λ fl t u. reset-IsUnfired fl t u) e s (new_node-IsUnfired e) h.unfired;
  }

  Step-IsSilent : {s t : System} → Step env s t → IsSilent s.state → IsSilent t.state
  unfolding read_now
  Step-IsSilent {s} stamp h = record {
    empty = (get_tick-IsQuiet env s.state).open_cmd ∙ h.empty;
    nothing = (get_tick-IsQuiet env s.state).executed ∙ h.nothing;
    unfired = rw (get_tick-files env s.state) h.unfired;
  }
  Step-IsSilent {s} (produce e) h = add_event-IsSilent e s.state h
  Step-IsSilent (sleep _ _) h = record { empty = h.empty; nothing = h.nothing; unfired = h.unfired }
  Step-IsSilent {s} (wake _) h = consume-IsSilent _ s.state h
  Step-IsSilent {s} (proceed _ _) h = consume-IsSilent s.cur_wait s.state h

  -- If the open command is empty, no file in the list has had it run, and nothing has been run,
  -- then no command is ever run, the close command included, whatever is added and however the
  -- threads interleave.
  pub Reach-silent : {s t : System} → IsSilent s.state → Reach env s t → t.state.executed ≡ []
  Reach-silent h r = (silent h r).nothing
    where
      silent : {s t : System} → IsSilent s.state → Reach env s t → IsSilent t.state
      silent h here = h
      silent h (next r st) = Step-IsSilent st (silent h r)
