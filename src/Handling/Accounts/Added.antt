-- ===== src/Handling/Accounts/Added.antt =====
-- The accounts of `event_handling_add_event`.
use watch_it.Base.{
  true, Bool-cases, subst, ℕ, zero, suc, ◌+◌, ◌*◌, ◌≤◌, ◌≡◌, refl, ap, Bool, false, not, ◌&&◌, List,
  [], ◌∷◌, ◌++◌, none, some, length, length-append, length-set, get_elem?, set, erase_idx,
  if◌then◌else◌, if-rule, arith, Option-cases, inl, inr,
}
use watch_it.Handling.Types.{State, Env, Event, FileEvent, FileList}
use watch_it.Handling.Clock.{get_tick, has_open_past_delay}
use watch_it.Handling.Commands.Effect.{Grants}
use watch_it.Handling.Files.{
  find_in_file_list, add_new_file, init_file, close_file, reset_to_open, is_close_event,
  is_open_event, copy_event_to_file,
}
use watch_it.Handling.Files.Find.{wanted, find-some}
use watch_it.Handling.Add.{close_open_file, on_close, on_open, handle_event, add_event}
use watch_it.Handling.Accounts.{outstanding, outstanding_all, tick-Spends, delay-Spends}

length-erase_idx :
    (files : List FileList) (i : ℕ) (fl : FileList)
    → get_elem? files i ≡ some fl
    → suc (length (erase_idx files i)) ≡ length files
length-erase_idx [] i fl h = absurd (cc)
length-erase_idx (x ∷ rest) zero fl h = refl
length-erase_idx (x ∷ rest) (suc i) fl h = ap suc (length-erase_idx rest i fl h)

outstanding-erase_idx :
    (files : List FileList) (i : ℕ) → outstanding_all (erase_idx files i) ≤ outstanding_all files
outstanding-erase_idx [] i = omega arith
outstanding-erase_idx (x ∷ rest) zero = omega arith
outstanding-erase_idx (x ∷ rest) (suc i) = omega (arith, outstanding-erase_idx rest i)

outstanding-set :
    (files : List FileList) (i : ℕ) (old new : FileList)
    → get_elem? files i ≡ some old
    → outstanding new.file ≡ outstanding old.file
    → outstanding_all (set files i new) ≡ outstanding_all files
outstanding-set [] i old new h e = refl
outstanding-set (x ∷ rest) zero old new h e = ground (arith, h, e)
outstanding-set (x ∷ rest) (suc i) old new h e = omega (arith, outstanding-set rest i old new h e)

outstanding-append :
    (xs ys : List FileList) → outstanding_all (xs ++ ys) ≡ outstanding_all xs + outstanding_all ys
outstanding-append [] ys = omega arith
outstanding-append (x ∷ xs) ys = omega (arith, outstanding-append xs ys)

module _ (env : Env) where
  -- One if the next two allocations succeed, for a file and its name, and that of a node after them
  -- does not.
  abbrev pub lost_file : State → ℕ
  lost_file s =
      if env.grants s.mallocs
        && env.grants (suc s.mallocs)
        && not (env.grants (suc (suc s.mallocs)))
      then 1
      else 0

  -- The files that are lost when an event comes: at most one, on an open event of a new file.
  abbrev pub lost_by : Event → State → ℕ
  lost_by e s =
      if is_close_event e
      then 0
      else if is_open_event e
      then (elim (find_in_file_list e s.file_event_list) [ none ↦ lost_file s | some _ ↦ 0 ])
      else 0

  -- What adding an event does: `lost` is the number of files whose node could not be allocated.
  -- Their two blocks are never given back.
  pub record Adds (lost : ℕ) (s t : State) : Type 0 where
    pub live :
        3 * length s.file_event_list ≤ s.live
        → t.live + 3 * length s.file_event_list ≡ s.live + 3 * length t.file_event_list + 2 * lost
    pub granted : Grants env → lost ≡ 0
    pub more : outstanding_all t.file_event_list ≤ outstanding_all s.file_event_list + 2

  Adds-none : (s : State) → Adds 0 s s
  Adds-none s = record { live = λ h. omega arith; granted = λ g. refl; more = omega arith }

  close_open_file-Adds :
      (i : ℕ) (fl : FileList) (s : State)
      → get_elem? s.file_event_list i ≡ some fl
      → Adds 0 s (close_open_file env i fl s)
  unfolding close_open_file
  close_open_file-Adds i fl s at =
      let s1 : State = (has_open_past_delay env fl s).0 in
      let p = delay-Spends env fl s 0 in
      let q = tick-Spends env s1 0 in
      let new = close_file fl (get_tick env s1).1 in
      record {
        live = λ h. ground (
          arith,
          p,
          q,
          length-set s.file_event_list i new,
          length-erase_idx s.file_event_list i fl at,
        );
        granted = λ g. refl;
        more = ground (
          arith,
          p,
          q,
          outstanding-set s.file_event_list i fl new at refl,
          outstanding-erase_idx s.file_event_list i,
        );
      }

  add_new_file-Adds : (f : FileEvent) (s : State) → Adds (lost_file s) s (add_new_file env f s).0
  unfolding add_new_file init_file
  add_new_file-Adds f s =
      let node : FileList = record {
        file = init_file f.name f.id f.open_timestamp;
        remove = false;
      } in
      record {
        live = λ h. ground (arith, length-append s.file_event_list (node ∷ []));
        granted = λ g. ground (arith, g (suc (suc s.mallocs)));
        more = ground (arith, outstanding-append s.file_event_list (node ∷ []));
      }

  on_close-Adds :
      (e : Event) (s : State) → Adds 0 s (on_close env (find_in_file_list e s.file_event_list) s)
  unfolding on_close
  on_close-Adds e s = elim (Option-cases (find_in_file_list e s.file_event_list)) [
    | inl missing ↦ rw (missing, on_close) (Adds-none s)
    | inr ((i, fl), found) ↦
        rw (found, on_close)
          (if-rule (Adds 0 s) (not fl.file.is_closed) _ _
            (λ _. close_open_file-Adds i fl s (find-some e s.file_event_list i fl found).0)
            (λ _. Adds-none s))
  ]

  reset-Adds :
      (i : ℕ) (fl : FileList) (t : ℕ) (s : State)
      → get_elem? s.file_event_list i ≡ some fl
      → Adds 0 s (record s { file_event_list = set s.file_event_list i (reset_to_open fl t) })
  unfolding reset_to_open
  reset-Adds i fl t s at = record {
    live = λ h. omega (arith, length-set s.file_event_list i (reset_to_open fl t));
    granted = λ g. refl;
    more = omega (arith, outstanding-set s.file_event_list i fl (reset_to_open fl t) at refl);
  }

  abbrev copied : Event → Bool
  copied e = (copy_event_to_file e (init_file none 0 0)).1

  on_open-Adds :
      (e : Event) (s : State)
      → is_close_event e ≡ false
      → is_open_event e ≡ true
      → Adds (lost_by e s) s (on_open env e (find_in_file_list e s.file_event_list) s).0
  unfolding on_open copy_event_to_file
  on_open-Adds e s c o = elim (Option-cases (find_in_file_list e s.file_event_list)) [
    | inl missing ↦
        rw (c, o, missing, on_open)
          (if-rule (λ (r : State × Bool). Adds (lost_file s) s r.0) (copied e)
            (add_new_file env (wanted e) s) (s, false) (λ _. add_new_file-Adds (wanted e) s)
            (λ failed. absurd (ground (arith, c, o, failed))))
    | inr ((i, fl), found) ↦
        rw (c, o, found, on_open)
          (if-rule (λ (r : State × Bool). Adds 0 s r.0) fl.file.is_closed _ _
            (λ _. reset-Adds i fl e.timestamp s (find-some e s.file_event_list i fl found).0)
            (λ _. Adds-none s))
  ]

  handle-Adds : (e : Event) (s : State) → Adds (lost_by e s) s (handle_event env e s).0
  unfolding handle_event
  handle-Adds e s = elim (Bool-cases (is_close_event e)) [
    | inl closes ↦ rw closes (on_close-Adds e s)
    | inr c ↦ elim (Bool-cases (is_open_event e)) [
      | inl o ↦
          rw (c, o)
            (subst (λ n. Adds n s (on_open env e (find_in_file_list e s.file_event_list) s).0)
              (ground (arith, c, o)) (on_open-Adds e s c o))
      | inr other ↦ rw (c, other) (Adds-none s)
    ]
  ]

  pub add_event-Adds : (e : Event) (s : State) → Adds (lost_by e s) s (add_event env e s).0
  unfolding add_event
  add_event-Adds e s =
      let handled = handle-Adds e s in
      record { live = handled.live; granted = handled.granted; more = handled.more }
