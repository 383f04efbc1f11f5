-- ===== src/Handling/Invariant/Produced.antt =====
-- `event_handling_add_event` keeps the invariant of the list.
use watch_it.Base.{
  ℕ, ◌≡◌, refl, Bool, true, List, [], ◌∷◌, some, All-append, All-set, All-erase_idx, erase_idx,
  All-get_elem?, if-rule, not, get_elem?, set, arith, Option-cases, inl, inr,
}
use watch_it.Handling.Types.{State, Env, Event, FileList}
use watch_it.Handling.Files.{
  find_in_file_list, add_new_file, init_file, close_file, reset_to_open, is_close_event,
  is_open_event, is_file_open, is_file_closed,
}
use watch_it.Handling.Files.Find.{wanted, wanted-key, find-some, find-none}
use watch_it.Handling.Add.Effect.{
  new_node, add_new_file-files, close_open_file-files, past_delay, close_tick,
}
use watch_it.Handling.Add.{close_open_file, on_close, on_open, handle_event, add_event}
use watch_it.Handling.Invariant.Defs.{IsSound, IsAbsent, Inv}
use watch_it.Handling.Invariant.Keys.{
  SameKey, IsUnique-set, IsUnique-erase, IsUnique-snoc, IsAbsent-SameKey,
}

set-Inv :
    (i : ℕ) (old new : FileList) (files : List FileList)
    → get_elem? files i ≡ some old
    → SameKey old.file new.file
    → IsSound new
    → Inv files
    → Inv (set files i new)
set-Inv i old new files e k h v = record {
  sound = All-set IsSound files i new v.sound h;
  unique = IsUnique-set files i old new e k v.unique;
}

erase-Inv : (i : ℕ) (files : List FileList) → Inv files → Inv (erase_idx files i)
erase-Inv i files v = record {
  sound = All-erase_idx IsSound files i v.sound;
  unique = IsUnique-erase files i v.unique;
}

close_file-IsSound : (fl : FileList) (tick : ℕ) → IsSound fl → IsSound (close_file fl tick)
unfolding close_file
close_file-IsSound fl tick h = ground arith

reset_to_open-IsSound : (fl : FileList) (t : ℕ) → IsSound fl → IsSound (reset_to_open fl t)
unfolding reset_to_open
reset_to_open-IsSound fl t h = ground arith

new_node-IsSound : (e : Event) → IsSound (new_node (wanted e))
unfolding init_file
new_node-IsSound e = ground (arith, wanted-key e)

reset-Inv :
    (i : ℕ) (fl : FileList) (t : ℕ) (files : List FileList)
    → get_elem? files i ≡ some fl
    → Inv files
    → Inv (set files i (reset_to_open fl t))
unfolding reset_to_open
reset-Inv i fl t files e v =
    set-Inv i fl (reset_to_open fl t) files e (refl, refl)
      (reset_to_open-IsSound fl t (All-get_elem? IsSound files i fl v.sound e)) v

module _ (env : Env) where
  new_file-Inv :
      (event : Event) (s : State)
      → IsAbsent (wanted event) s.file_event_list
      → Inv s.file_event_list
      → Inv (add_new_file env (wanted event) s).0.file_event_list
  unfolding init_file
  new_file-Inv event s absent v = elim (add_new_file-files env (wanted event) s) [
    | inl (_, e) ↦ rw e v
    | inr (_, e) ↦ rw e (record {
      sound =
          All-append IsSound s.file_event_list (new_node (wanted event) ∷ []) v.sound
            (new_node-IsSound event, tt);
      unique =
          IsUnique-snoc s.file_event_list (new_node (wanted event))
            (IsAbsent-SameKey (wanted event) (new_node (wanted event)).file s.file_event_list
              (refl, refl) absent)
            v.unique;
    })
  ]

  close_open_file-Inv :
      (i : ℕ) (fl : FileList) (s : State)
      → get_elem? s.file_event_list i ≡ some fl
      → Inv s.file_event_list
      → Inv (close_open_file env i fl s).file_event_list
  unfolding close_file
  close_open_file-Inv i fl s e v = rw (close_open_file-files env i fl s) (
      if-rule Inv (past_delay env fl s) _ _
        (λ past.
          set-Inv i fl (close_file fl tick) s.file_event_list e (refl, refl)
            (close_file-IsSound fl tick (All-get_elem? IsSound s.file_event_list i fl v.sound e)) v)
        (λ early.
          if-rule Inv (not fl.file.has_fired_open) _ _ (λ unfired. erase-Inv i s.file_event_list v)
            (λ fired. v)))
    where
      tick : ℕ
      tick = close_tick env fl s

  on_close-Inv :
      (event : Event) (s : State)
      → Inv s.file_event_list
      → Inv (on_close env (find_in_file_list event s.file_event_list) s).file_event_list
  unfolding on_close
  on_close-Inv event s v = elim (Option-cases (find_in_file_list event s.file_event_list)) [
    | inl missing ↦ rw (missing, on_close) v
    | inr ((i, fl), e) ↦
        rw (e, on_close)
          (if-rule (λ (t : State). Inv t.file_event_list) (is_file_open fl) _ _
            (λ _. close_open_file-Inv i fl s (find-some event s.file_event_list i fl e).0 v)
            (λ _. v))
  ]

  on_open-Inv :
      (event : Event) (s : State)
      → is_open_event event ≡ true
      → Inv s.file_event_list
      → Inv (on_open env event (find_in_file_list event s.file_event_list) s).0.file_event_list
  unfolding on_open
  on_open-Inv event s h v = elim (Option-cases (find_in_file_list event s.file_event_list)) [
    | inl missing ↦
        rw (missing, on_open)
          (if-rule (λ (r : State × Bool). Inv r.0.file_event_list) _ _ _
            (λ _. new_file-Inv event s (find-none event s.file_event_list (inr h) missing) v)
            (λ _. v))
    | inr ((i, fl), e) ↦
        rw (e, on_open)
          (if-rule (λ (r : State × Bool). Inv r.0.file_event_list) (is_file_closed fl) _ _
            (λ _.
              reset-Inv i fl event.timestamp s.file_event_list
                (find-some event s.file_event_list i fl e).0 v)
            (λ _. v))
  ]

  -- Adding an event keeps the invariant, whatever the event, the clock and the heap.
  pub add_event-Inv :
      (event : Event) (s : State)
      → Inv s.file_event_list
      → Inv (add_event env event s).0.file_event_list
  unfolding add_event handle_event
  add_event-Inv event s v =
      if-rule (λ (r : State × Bool). Inv r.0.file_event_list) (is_close_event event) _ _
        (λ _. on_close-Inv event s v)
        (λ _.
          if-rule (λ (r : State × Bool). Inv r.0.file_event_list) (is_open_event event) _ _
            (λ opens. on_open-Inv event s opens v) (λ _. v))
