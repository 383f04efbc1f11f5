-- ===== src/Handling/Add/Keeps.antt =====
-- A property of entries that `event_handling_add_event` keeps throughout the list.
use watch_it.Base.{
  ℕ, ◌≡◌, Bool, true, false, [], ◌∷◌, All, All-append, All-set, All-erase_idx, All-get_elem?,
  if-rule, Option-cases, inl, inr,
}
use watch_it.Handling.Types.{State, Env, Event, FileList}
use watch_it.Handling.Files.{
  find_in_file_list, is_close_event, is_open_event, close_file, reset_to_open,
}
use watch_it.Handling.Files.Find.{wanted, find-some}
use watch_it.Handling.Add.{on_close, on_open, handle_event, add_event}
use watch_it.Handling.Add.Effect.{
  on_close-files, on_open-files, on_open-found, new_node, past_delay, close_tick,
}

module _ (env : Env) (P : FileList → Type 0)
    (closes : (fl : FileList) (t : ℕ) → P fl → P (close_file fl t))
    (resets : (fl : FileList) (t : ℕ) → P fl → P (reset_to_open fl t)) where
  on_close-All :
      (e : Event) (s : State)
      → All P s.file_event_list
      → All P (on_close env (find_in_file_list e s.file_event_list) s).file_event_list
  on_close-All e s h = elim (Option-cases (find_in_file_list e s.file_event_list)) [
    | inl missing ↦ rw missing (unfold on_close in h)
    | inr ((i, fl), found) ↦
        let at = (find-some e s.file_event_list i fl found).0 in
        let new = close_file fl (close_tick env fl s) in
        rw (found, on_close-files env i fl s)
          (if-rule (All P) fl.file.is_closed _ _ (λ _. h)
            (λ _.
              if-rule (All P) (past_delay env fl s) _ _
                (λ _.
                  All-set P s.file_event_list i new h
                    (closes fl _ (All-get_elem? P s.file_event_list i fl h at)))
                (λ _.
                  if-rule (All P) fl.file.has_fired_open _ _ (λ _. h)
                    (λ _. All-erase_idx P s.file_event_list i h))))
  ]

  on_open-All :
      (e : Event) (s : State)
      → P (new_node (wanted e))
      → is_close_event e ≡ false
      → is_open_event e ≡ true
      → All P s.file_event_list
      → All P (on_open env e (find_in_file_list e s.file_event_list) s).0.file_event_list
  on_open-All e s adds c o h = elim (Option-cases (find_in_file_list e s.file_event_list)) [
    | inl missing ↦ elim (on_open-files env e s c o) [
      | inl (_, files) ↦ rw (missing, files) h
      | inr (_, files) ↦
          rw (missing, files)
            (All-append P s.file_event_list (new_node (wanted e) ∷ []) h (adds, tt))
    ]
    | inr ((i, fl), found) ↦
        let at = (find-some e s.file_event_list i fl found).0 in
        rw (found, on_open-found env e i fl s)
          (if-rule (All P) fl.file.is_closed _ _
            (λ _.
              All-set P s.file_event_list i (reset_to_open fl e.timestamp) h
                (resets fl _ (All-get_elem? P s.file_event_list i fl h at)))
            (λ _. h))
  ]

  pub add_event-All :
      (e : Event) (s : State)
      → P (new_node (wanted e))
      → All P s.file_event_list
      → All P (add_event env e s).0.file_event_list
  unfolding add_event handle_event
  add_event-All e s adds h =
      if-rule (λ (r : State × Bool). All P r.0.file_event_list) (is_close_event e) _ _
        (λ _. on_close-All e s h)
        (λ c.
          if-rule (λ (r : State × Bool). All P r.0.file_event_list) (is_open_event e) _ _
            (λ o. on_open-All e s adds c o h) (λ _. h))
