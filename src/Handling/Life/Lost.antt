-- ===== src/Handling/Life/Lost.antt =====
-- A file that is opened again before the round that would run its close command, and closed again
-- before the delay has passed.
use watch_it.Base.{ℕ, zero, suc, ◌≡◌, refl, ap, ◌∙◌, true, false, [], ◌∷◌, some, arith}
use watch_it.CString.Search.{strcmp_eq_refl}
use watch_it.Handling.Types.{State, Env, Event, FileList}
use watch_it.Handling.Files.{
  is_close_event, is_open_event, is_file_closed, is_valid_close, find_in_file_list, reset_to_open,
}
use watch_it.Handling.Add.{on_open, handle_event, add_event}
use watch_it.Handling.Add.Effect.{on_close-files, past_delay}
use watch_it.Handling.Add.Quiet.{add_event-IsQuiet}
use watch_it.Handling.Consumer.{consume, visit_all, visit_close, visit, sweep}
use watch_it.Handling.Consumer.Visits.{visit_open-fired, visit_close-invalid}

-- Some rounds of the consumer, one after the other.
unfoldable pub rounds : Env → ℕ → ℕ → State → State
rounds env zero w s = s
rounds env (suc n) w s = let (s1, w1) = consume env w s in rounds env n w1 s1

-- The entry is the file that the event is about.
abbrev pub IsFor : FileList → Event → Type 0
IsFor fl e = (fl.file.id ≡ e.id) × (fl.file.name ≡ some e.name)

module _ (env : Env) where
  found_open :
      (e : Event) (fl : FileList)
      → IsFor fl e
      → is_close_event e ≡ false
      → is_open_event e ≡ true
      → find_in_file_list e (fl ∷ []) ≡ some (0, fl)
  unfolding find_in_file_list
  found_open e fl (i, n) c o = ground (arith, i, n, c, o, strcmp_eq_refl e.name)

  found_close :
      (e : Event) (fl : FileList)
      → IsFor fl e
      → is_close_event e ≡ true
      → find_in_file_list e (fl ∷ []) ≡ some (0, fl)
  unfolding find_in_file_list
  found_close e fl (i, n) c = ground (arith, i, n, c, strcmp_eq_refl e.name)

  -- The closed file is opened again.
  reopened_list :
      (e : Event) (fl : FileList) (s : State)
      → s.file_event_list ≡ fl ∷ []
      → IsFor fl e
      → fl.file.is_closed ≡ true
      → is_close_event e ≡ false
      → is_open_event e ≡ true
      → (add_event env e s).0.file_event_list ≡ reset_to_open fl e.timestamp ∷ []
  unfolding add_event handle_event on_open is_file_closed
  reopened_list e fl s alone own closed c o =
      let found = ap (find_in_file_list e) alone ∙ found_open e fl own c o in
      ground (arith, c, o, found, closed, alone)

  -- A close event that comes before the delay has passed.
  early_list :
      (e : Event) (fl : FileList) (s : State)
      → s.file_event_list ≡ fl ∷ []
      → IsFor fl e
      → fl.file.is_closed ≡ false
      → fl.file.has_fired_open ≡ true
      → past_delay env fl s ≡ false
      → is_close_event e ≡ true
      → (add_event env e s).0.file_event_list ≡ fl ∷ []
  unfolding add_event handle_event
  early_list e fl s alone own opened fired early c =
      let found = ap (find_in_file_list e) alone ∙ found_close e fl own c in
      ground (arith, c, found, on_close-files env 0 fl s, opened, fired, early, alone)

  visit-running :
      (fl : FileList) (w : ℕ) (s : State)
      → fl.file.has_fired_open ≡ true
      → is_valid_close fl ≡ false
      → visit env fl w s ≡ record { item = fl; cur_wait = w; state = s }
  unfolding visit
  visit-running fl w s fired invalid =
      ap (visit_close env) (visit_open-fired env fl w s fired)
      ∙ visit_close-invalid env (record { item = fl; cur_wait = w; state = s }) invalid

  visit_all-running :
      (fl : FileList) (w : ℕ) (s : State)
      → fl.file.has_fired_open ≡ true
      → is_valid_close fl ≡ false
      → visit_all env (fl ∷ []) w s ≡ record { item = fl ∷ []; cur_wait = w; state = s }
  unfolding visit_all
  visit_all-running fl w s fired invalid = rw (visit-running fl w s fired invalid) refl

  consume-running :
      (fl : FileList) (w : ℕ) (s : State)
      → s.file_event_list ≡ fl ∷ []
      → fl.file.has_fired_open ≡ true
      → is_valid_close fl ≡ false
      → fl.remove ≡ false
      → ((consume env w s).0.file_event_list ≡ fl ∷ [])
        × ((consume env w s).0.executed ≡ s.executed)
  unfolding consume sweep
  consume-running fl w s alone fired invalid kept =
      let woken : State = record s { file_event_list = fl ∷ []; signaled = false } in
      rw (alone, visit_all-running fl w woken fired invalid, kept) (refl, refl)

  rounds-running :
      (n w : ℕ) (fl : FileList) (s : State)
      → s.file_event_list ≡ fl ∷ []
      → fl.file.has_fired_open ≡ true
      → is_valid_close fl ≡ false
      → fl.remove ≡ false
      → ((rounds env n w s).file_event_list ≡ fl ∷ []) × ((rounds env n w s).executed ≡ s.executed)
  unfolding rounds
  rounds-running zero w fl s alone fired invalid kept = (alone, refl)
  rounds-running (suc n) w fl s alone fired invalid kept =
      let (files, ran) = consume-running fl w s alone fired invalid kept in
      let (files', ran') =
        rounds-running n (consume env w s).1 fl (consume env w s).0 files fired invalid kept in
      (files', ran' ∙ ran)

module _ (env : Env) (reopening closing : Event) where
  -- When the only file in the list is closed, its open command has been run and its entry is not
  -- marked for removal, and an open event of the file comes and then a close event at which the
  -- file has not been open for longer than the delay since: the entry stays in the list as that of
  -- an open file, and no command is run, however many rounds of the consumer follow and whatever
  -- the clock shows then.
  pub lost_close :
      (fl : FileList) (s : State)
      → s.file_event_list ≡ fl ∷ []
      → fl.file.is_closed ≡ true
      → fl.file.has_fired_open ≡ true
      → fl.remove ≡ false
      → IsFor fl reopening
      → IsFor fl closing
      → is_close_event reopening ≡ false
      → is_open_event reopening ≡ true
      → is_close_event closing ≡ true
      → past_delay env (reset_to_open fl reopening.timestamp) (add_event env reopening s).0 ≡ false
      → (later : Env) (n w : ℕ)
      → let s1 = (add_event env reopening s).0 in
        let s2 = (add_event env closing s1).0 in
        let s3 = rounds later n w s2 in
        (s3.file_event_list ≡ reset_to_open fl reopening.timestamp ∷ [])
        × (s3.executed ≡ s.executed)
  unfolding reset_to_open is_valid_close
  lost_close fl s alone closed fired kept own own' c o c' early later n w =
      let s1 = (add_event env reopening s).0 in
      let s2 = (add_event env closing s1).0 in
      let open_again = reset_to_open fl reopening.timestamp in
      let files1 = reopened_list env reopening fl s alone own closed c o in
      let files2 = early_list env closing open_again s1 files1 own' refl fired early c' in
      let (files3, ran3) = rounds-running later n w open_again s2 files2 fired refl kept in
      (
        files3,
        ran3
            ∙ (add_event-IsQuiet env closing s1).executed
            ∙ (add_event-IsQuiet env reopening s).executed,
      )
