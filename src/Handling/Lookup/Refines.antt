-- ===== src/Handling/Lookup/Refines.antt =====
-- `event_handling_add_event` changes the entry of the event's file as the per-file state machine
-- says, and no other.
use watch_it.Base.{
  ℕ, ◌≡◌, refl, sym, ◌∙◌, ap, Bool, true, false, ◌&&◌, List, Option, none, some, set, erase_idx,
  get_elem?, if◌then◌else◌, arith, Bool-cases, Option-cases, inl, inr,
}
use watch_it.Handling.Types.{State, Env, Event, FileEvent, FileList}
use watch_it.Handling.Files.{
  equals_file, find_in_file_list, is_close_event, is_open_event, is_file_closed, close_file,
  reset_to_open, init_file, copy_event_to_file,
}
use watch_it.Handling.Files.Find.{wanted, find-some, find-none}
use watch_it.Handling.Add.{on_close, on_open, handle_event, add_event}
use watch_it.Handling.Add.Effect.{past_delay, close_tick, on_close-files, on_open-files, new_node}
use watch_it.Handling.Invariant.Defs.{IsUnique, Inv}
use watch_it.Handling.Invariant.Keys.{
  SameKey, equals_file-left, equals_file-SameKey, IsAbsent-SameKey,
}
use watch_it.Handling.Lookup.{lookup, after_close, after_open}
use watch_it.Handling.Lookup.Laws.{
  lookup-SameKey, lookup-kept, lookup-set, lookup-erase_idx, lookup-snoc, lookup-find,
}

-- The three tests of a close event, on the list and on the map.
closed_cases :
    (k : FileEvent) (files : List FileList) (i : ℕ) (fl new : FileList) (closed past fired : Bool)
    → get_elem? files i ≡ some fl
    → SameKey fl.file new.file
    → IsUnique files
    → lookup fl.file files ≡ some fl
    → lookup k (
        if closed
        then files
        else if past
        then set files i new
        else if fired
        then files
        else erase_idx files i)
      ≡ (if equals_file fl.file k
          then (if closed
              then some fl
              else if past
              then some new
              else if fired
              then some fl
              else none)
          else lookup k files)
closed_cases k files i fl new true past fired at same u view = lookup-kept k files fl view
closed_cases k files i fl new false true fired at same u view =
    ground (arith, lookup-set k files i fl new at same u)
closed_cases k files i fl new false false true at same u view = lookup-kept k files fl view
closed_cases k files i fl new false false false at same u view = lookup-erase_idx k files i fl at u

-- The abstract map after a close event.
abbrev pub closed_view : Env → Event → State → FileEvent → Option FileList
closed_view env e s k =
    if equals_file (wanted e) k
    then after_close (λ fl. past_delay env fl s) (λ fl. close_tick env fl s)
        (lookup (wanted e) s.file_event_list)
    else lookup k s.file_event_list

module _ (env : Env) (e : Event) (s : State) (inv : Inv s.file_event_list) where
  close_found :
      (i : ℕ) (fl : FileList) (k : FileEvent)
      → find_in_file_list e s.file_event_list ≡ some (i, fl)
      → lookup (wanted e) s.file_event_list ≡ some fl
      → lookup k (on_close env (some (i, fl)) s).file_event_list ≡ closed_view env e s k
  unfolding after_close close_file
  close_found i fl k found view =
      let (at, same) = find-some e s.file_event_list i fl found in
      let key : SameKey fl.file (wanted e) = equals_file-SameKey fl.file (wanted e) same in
      ap (lookup k) (on_close-files env i fl s)
      ∙ closed_cases k s.file_event_list i fl (close_file fl (close_tick env fl s))
          fl.file.is_closed (past_delay env fl s) fl.file.has_fired_open at (refl, refl) inv.unique
          (lookup-SameKey fl.file (wanted e) s.file_event_list key ∙ view)
      ∙ ground (arith, view, equals_file-left fl.file (wanted e) k key)

  close_missing :
      (k : FileEvent)
      → lookup (wanted e) s.file_event_list ≡ none
      → lookup k (on_close env none s).file_event_list ≡ closed_view env e s k
  unfolding on_close after_close
  close_missing k view = elim (Bool-cases (equals_file (wanted e) k)) [
    | inl same ↦
        rw (same, view)
          (sym (
              lookup-SameKey (wanted e) k s.file_event_list (equals_file-SameKey (wanted e) k same))
            ∙ view)
    | inr other ↦ rw other refl
  ]

  -- On a sound list, over its view as a map from files to entries, a close event changes the entry
  -- of its file as the per-file state machine says (closed at the tick, kept, or forgotten), and no
  -- other entry.
  pub add_event-after_close :
      (k : FileEvent)
      → is_close_event e ≡ true
      → lookup k (add_event env e s).0.file_event_list ≡ closed_view env e s k
  unfolding add_event handle_event
  add_event-after_close k h = elim (Option-cases (find_in_file_list e s.file_event_list)) [
    | inl missing ↦
        rw (h, missing) (close_missing k (lookup-find e s.file_event_list (inl h) ∙ ground arith))
    | inr ((i, fl), found) ↦
        rw (h, found)
          (close_found i fl k found (lookup-find e s.file_event_list (inl h) ∙ ground arith))
  ]

-- The node that an open event appends.
new_node-wanted :
    (e : Event)
    → is_close_event e ≡ false
    → is_open_event e ≡ true
    → some (new_node (wanted e)) ≡ after_open e none
unfolding after_open copy_event_to_file
new_node-wanted e c o = ground (arith, c, o)

new_node-key : (e : Event) → SameKey (wanted e) (new_node (wanted e)).file
unfolding init_file
new_node-key e = (refl, refl)

-- The abstract map after an open event; `done` says that the call returned 0.
abbrev pub opened_view : Event → State → Bool → FileEvent → Option FileList
opened_view e s done k =
    if equals_file (wanted e) k && done
    then after_open e (lookup (wanted e) s.file_event_list)
    else lookup k s.file_event_list

module _ (env : Env) (e : Event) (s : State) (inv : Inv s.file_event_list) where
  open_found :
      (i : ℕ) (fl : FileList) (k : FileEvent)
      → find_in_file_list e s.file_event_list ≡ some (i, fl)
      → lookup (wanted e) s.file_event_list ≡ some fl
      → lookup k (on_open env e (some (i, fl)) s).0.file_event_list
        ≡ opened_view e s (on_open env e (some (i, fl)) s).1 k
  unfolding on_open after_open is_file_closed reset_to_open
  open_found i fl k found view =
      let (at, same) = find-some e s.file_event_list i fl found in
      let key : SameKey fl.file (wanted e) = equals_file-SameKey fl.file (wanted e) same in
      elim (Bool-cases fl.file.is_closed) [
        | inl closed ↦ ground (
          arith,
          view,
          equals_file-left fl.file (wanted e) k key,
          lookup-set k s.file_event_list i fl (reset_to_open fl e.timestamp) at (refl, refl)
              inv.unique,
        )
        | inr opened ↦ ground (
          arith,
          view,
          equals_file-left fl.file (wanted e) k key,
          lookup-kept k s.file_event_list fl
              (lookup-SameKey fl.file (wanted e) s.file_event_list key ∙ view),
        )
      ]

  open_missing :
      (k : FileEvent)
      → is_close_event e ≡ false
      → is_open_event e ≡ true
      → find_in_file_list e s.file_event_list ≡ none
      → lookup (wanted e) s.file_event_list ≡ none
      → lookup k (on_open env e none s).0.file_event_list
        ≡ opened_view e s (on_open env e none s).1 k
  open_missing k c o missing view = elim (on_open-files env e s c o) [
    | inl (failed, files) ↦
        rw (failed, files) (ground (arith, Bool-cases (equals_file (wanted e) k)))
    | inr (done, files) ↦
        rw (done, files)
          (lookup-snoc k s.file_event_list (new_node (wanted e)) (
              IsAbsent-SameKey (wanted e) (new_node (wanted e)).file s.file_event_list
                (new_node-key e) (find-none e s.file_event_list (inr o) missing))
            ∙ ground (
              arith,
              view,
              new_node-wanted e c o,
              equals_file-left (wanted e) (new_node (wanted e)).file k (new_node-key e),
            ))
  ]

  -- On a sound list, over the same view, an open event that returns 0 gives an unknown file a new
  -- entry and opens a closed one again, and changes no other entry; if the call fails, no entry
  -- changes.
  pub add_event-after_open :
      (k : FileEvent)
      → is_close_event e ≡ false
      → is_open_event e ≡ true
      → lookup k (add_event env e s).0.file_event_list ≡ opened_view e s (add_event env e s).1 k
  unfolding add_event handle_event
  add_event-after_open k c o = elim (Option-cases (find_in_file_list e s.file_event_list)) [
    | inl missing ↦
        rw (c, o, missing)
          (open_missing k c o missing
            (lookup-find e s.file_event_list (inr o) ∙ ground (arith, missing)))
    | inr ((i, fl), found) ↦
        rw (c, o, found)
          (open_found i fl k found
            (lookup-find e s.file_event_list (inr o) ∙ ground (arith, found)))
  ]
