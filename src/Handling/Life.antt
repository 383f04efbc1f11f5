-- ===== src/Handling/Life.antt =====
-- The life of a file, from its open event to the round after its close event, step by step.
pub mod Between
pub mod Whole
pub mod Lost
pub mod Brief
pub mod Examples
use watch_it.Base.{
  ℕ, ◌+◌, ◌*◌, ◌<◌, ◌≤◌, ◌≡◌, ◌≢◌, refl, sym, ap, subst, ◌∙◌, Bool, true, false, List, [], ◌∷◌,
  ◌++◌, append_assoc, Option, none, some, All, length, if◌then◌else◌, ◌==◌, arith, Bool-cases, inl,
  inr,
}
use watch_it.Base.Words.{ulong_of_int, uint32_max}
use watch_it.CString.{Str}
use watch_it.CString.Search.{strcmp_eq_refl}
use watch_it.Handling.Types.{State, Env, Event, FileEvent, FileList}
use watch_it.Handling.Clock.{has_open_past_delay}
use watch_it.Handling.Files.{
  is_close_event, is_open_event, is_valid_close, find_in_file_list, equals_file, close_file,
  init_file, add_new_file, copy_event_to_file,
}
use watch_it.Handling.Files.Find.{wanted, wanted-key}
use watch_it.Handling.Commands.Effect.{Grants, expand}
use watch_it.Handling.Add.{on_close, on_open, handle_event, add_event}
use watch_it.Handling.Add.Effect.{new_node, on_close-files, close_tick, past_delay}
use watch_it.Handling.Add.Quiet.{IsQuiet, add_event-IsQuiet}
use watch_it.Handling.Consumer.{consume}
use watch_it.Handling.Consumer.Owed.{
  ShowsAtLeast, Settings, Has, IsDue, AreShort, owed_all, opened_entry,
}
use watch_it.Handling.Consumer.Late.{late_tick, late_past, consume-late}
use watch_it.Handling.Consumer.Left.{left, consume-left}
use watch_it.Handling.Invariant.Defs.{IsSound}
use watch_it.Handling.Accounts.Rounds.{consume-live}
use watch_it.Handling.Accounts.Added.{add_event-Adds}

-- The entry of a file that an event has just opened.
abbrev pub opened_by : Event → FileList
opened_by e = record {
  file = record {
    id = e.id;
    name = some e.name;
    open_timestamp = e.timestamp;
    close_timestamp = uint32_max;
    is_closed = false;
    has_fired_open = false;
    has_fired_closed = false;
  };
  remove = false;
}

pub Has-kept : (g : Settings) (s t : State) → IsQuiet s t → Has g s → Has g t
Has-kept g s t q h = record {
  opens = q.open_cmd ∙ h.opens;
  closes = q.close_cmd ∙ h.closes;
  delays = q.delay ∙ h.delays;
}

pub Has-quiet :
    (env : Env) (g : Settings) (e : Event) (s : State) → Has g s → Has g (add_event env e s).0
Has-quiet env g e s h = Has-kept g s (add_event env e s).0 (add_event-IsQuiet env e s) h

module _ (env : Env) (grants : Grants env) where
  -- An open event of a new file, with an empty list.
  pub opened_list :
      (e : Event) (s : State)
      → s.file_event_list ≡ []
      → is_close_event e ≡ false
      → is_open_event e ≡ true
      → (add_event env e s).0.file_event_list ≡ opened_by e ∷ []
  unfolding add_event handle_event find_in_file_list
  opened_list e s empty c o = ground (
    arith,
    empty,
    c,
    o,
    grants s.mallocs,
    grants (ℕ.suc s.mallocs),
    grants (ℕ.suc (ℕ.suc s.mallocs)),
  )

module _ (env : Env) where
  found_alone :
      (e : Event) (fl : FileList)
      → fl.file.id ≡ e.id
      → fl.file.name ≡ some e.name
      → is_close_event e ≡ true
      → find_in_file_list e (fl ∷ []) ≡ some (0, fl)
  unfolding find_in_file_list
  found_alone e fl i n c = ground (arith, i, n, c, strcmp_eq_refl e.name)

  -- A close event of the only file, which has been open for longer than the delay.
  pub closed_list :
      (e : Event) (fl : FileList) (s : State)
      → s.file_event_list ≡ fl ∷ []
      → fl.file.id ≡ e.id
      → fl.file.name ≡ some e.name
      → fl.file.is_closed ≡ false
      → past_delay env fl s ≡ true
      → is_close_event e ≡ true
      → (add_event env e s).0.file_event_list ≡ close_file fl (close_tick env fl s) ∷ []
  unfolding add_event handle_event
  closed_list e fl s alone i n opened past c =
      let found : find_in_file_list e s.file_event_list ≡ some (0, fl) =
        ap (find_in_file_list e) alone ∙ found_alone e fl i n c in
      ground (arith, c, found, on_close-files env 0 fl s, opened, past, alone)

-- The two commands for a file.
abbrev pub open_text : Settings → Event → Str
open_text g opening = expand (g.open_head ∷ g.open_tail) opening.name

abbrev pub close_text : Settings → Event → Str
close_text g opening = expand (g.close_head ∷ g.close_tail) opening.name

-- The entry after the first late round.
abbrev pub running : Event → FileList
running opening = opened_entry (opened_by opening)

module _ (env : Env) (grants : Grants env) (now : ℕ) (clock : ShowsAtLeast env now) (g : Settings)
    (opening : Event) where
  -- A late round after the open event.
  pub first_round :
      (w : ℕ) (s : State)
      → s.file_event_list ≡ opened_by opening ∷ []
      → Has g s
      → opening.timestamp + ulong_of_int g.delay < now
      → AreShort g opening.name
      → ((consume env w s).0.executed ≡ s.executed ++ open_text g opening ∷ [])
        × ((consume env w s).0.file_event_list ≡ running opening ∷ [])
        × Has g (consume env w s).0
  unfolding owed_all is_valid_close
  first_round w s alone h overdue short =
      let sound : IsSound (opened_by opening) = record {
        named = (opening.name, refl);
        kept = refl;
        unclosed = refl;
        open_time = λ h. refl;
      } in
      let due : IsDue now g (opened_by opening) = record { overdue = overdue; short = short } in
      let late : All (IsDue now g) s.file_event_list =
        subst (All (IsDue now g)) (sym alone) (due, tt) in
      let sounds : All IsSound s.file_event_list = subst (All IsSound) (sym alone) (sound, tt) in
      let (ran, _) = consume-late env grants now clock g w s h late sounds in
      let (files, has) = consume-left env grants now clock g w s h late sounds in
      (
        ran ∙ ap (λ (files : List FileList). s.executed ++ owed_all g files) alone,
        files ∙ ap left alone,
        has,
      )

  -- A late round after the close event.
  pub last_round :
      (w tick : ℕ) (s : State)
      → s.file_event_list ≡ close_file (running opening) tick ∷ []
      → Has g s
      → opening.timestamp + ulong_of_int g.delay < now
      → AreShort g opening.name
      → uint32_max < tick
      → ((consume env w s).0.executed ≡ s.executed ++ close_text g opening ∷ [])
        × ((consume env w s).0.file_event_list ≡ [])
  unfolding owed_all is_valid_close close_file
  last_round w tick s alone h overdue short high =
      let sound : IsSound (close_file (running opening) tick) = record {
        named = (opening.name, refl);
        kept = refl;
        unclosed = refl;
        open_time = λ h. absurd (cc);
      } in
      let due : IsDue now g (close_file (running opening) tick) = record {
        overdue = overdue;
        short = short;
      } in
      let late : All (IsDue now g) s.file_event_list =
        subst (All (IsDue now g)) (sym alone) (due, tt) in
      let sounds : All IsSound s.file_event_list = subst (All IsSound) (sym alone) (sound, tt) in
      let (ran, _) = consume-late env grants now clock g w s h late sounds in
      let (files, has) = consume-left env grants now clock g w s h late sounds in
      let owed : owed_all g (close_file (running opening) tick ∷ []) ≡ close_text g opening ∷ [] =
        ground (arith, high) in
      let none_left : left (close_file (running opening) tick ∷ []) ≡ [] = ground (arith, high) in
      (
        ran
            ∙ ap (λ (files : List FileList). s.executed ++ owed_all g files) alone
            ∙ ap (λ (cs : List Str). s.executed ++ cs) owed,
        files ∙ ap left alone ∙ none_left,
      )
