-- ===== src/Daemon/Reader/Heard.antt =====
-- One read of one event about a file in a watched directory.
use watch_it.Base.{refl, ℕ, ◌≡◌, ap, ◌∙◌, true, false, [], ◌∷◌, some, ◌==◌, arith, Bool, if-rule}
use watch_it.Base.Words.{has_bits}
use watch_it.Handling.Types.{State, Env, Event}
use watch_it.Handling.Clock.{get_tick}
use watch_it.Handling.Add.{add_event}
use watch_it.Daemon.Table.{Table, WdNameTuple, find_in_map}
use watch_it.Daemon.Reader.{
  watch_content, in_isdir, filter_event, stamped, next_event, submit, handle_inotify, get_event,
}
use watch_it.Daemon.Reader.Reports.{next_event-known}
use watch_it.Daemon.Reader.Wire.{KernelEvent, IsWellFormed, field_len, encode_all, view}
use watch_it.Daemon.Reader.Refines.{handle_all, get_event-handle_all}

-- The event for a file in a watched directory, with the directory's delay and at a tick.
abbrev pub heard : KernelEvent → ℕ → ℕ → Event
heard e delay tick = record {
  id = e.wd;
  name = e.name;
  event_type = e.mask;
  min_read_close = delay;
  timestamp = tick;
}

-- A well-formed event about a file in a directory.
pub record IsFileEvent (e : KernelEvent) : Type 0 where
  pub formed : IsWellFormed e
  pub named : (field_len e == 0) ≡ false
  pub plain : has_bits e.mask in_isdir ≡ false

module _ (table : Table) (x : WdNameTuple) (content : has_bits x.type watch_content ≡ true)
    (e : KernelEvent) (file : IsFileEvent e) (known : find_in_map e.wd table ≡ some x) where
  next_event-heard : next_event table (view e) ≡ some (heard e x.min_read_close)
  unfolding stamped
  next_event-heard =
      next_event-known table (view e) x e.name known
        (unfold filter_event in ground (arith, file.named, file.plain, content))

  handle-heard :
      (env : Env) (s : State)
      → let (s', tick) = get_tick env s in
        handle_inotify env table (view e) s ≡ add_event env (heard e x.min_read_close tick) s'
  unfolding handle_inotify submit
  handle-heard env s = rw next_event-heard refl

  -- One read of such an event adds it at the tick that the clock shows.
  pub get_event-heard :
      (env : Env) (s : State)
      → let (s', tick) = get_tick env s in
        get_event env table (some (encode_all (e ∷ []))) s
        ≡ some (add_event env (heard e x.min_read_close tick) s').0
  unfolding handle_all
  get_event-heard env s =
      let one = handle-heard env s in
      get_event-handle_all env table (e ∷ []) s (file.formed, tt)
      ∙ ap some (
          if-rule (λ r. r ≡ (handle_inotify env table (view e) s).0) _ _ _ (λ _. refl) (λ _. refl)
          ∙ ap (λ (r : State × Bool). r.0) one)
