-- ===== src/Handling/Origin/Kept.antt =====
-- The steps of the two threads keep the origin of files and commands.
use watch_it.Base.{ℕ, sym, subst, ◌∙◌, false, All, arith}
use watch_it.CString.{Str}
use watch_it.Handling.Types.{State, Env, Event, FileList}
use watch_it.Handling.Clock.{get_tick}
use watch_it.Handling.Wait.{read_now}
use watch_it.Handling.Files.{close_file, reset_to_open, init_file}
use watch_it.Handling.Files.Find.{wanted, wanted-key}
use watch_it.Handling.Add.{add_event}
use watch_it.Handling.Add.Effect.{new_node, get_tick-files}
use watch_it.Handling.Add.Keeps.{add_event-All}
use watch_it.Handling.Add.Quiet.{get_tick-IsQuiet, add_event-IsQuiet}
use watch_it.Handling.Consumer.{consume, visit_all}
use watch_it.Handling.Consumer.Sweep.{sweep-survivors, sweep-IsQuiet, All-survivors}
use watch_it.Handling.Origin.{
  IsReported, IsCommand, AllReported, Obeys, Obeys-quiet, visit_all-Obeys,
}

module _ (Reported : ℕ → Str → Type 0) (opens closes : Str) where
  -- Every file in the list was reported, and every command that was run is for such a file.
  pub record Traced (s : State) : Type 0 where
    pub files : AllReported Reported s.file_event_list
    pub obeys : Obeys Reported opens closes s

  abbrev IsOurs : FileList → Type 0
  IsOurs fl = IsReported Reported fl.file

  module _ (env : Env) where
    pub tick-Traced : (s : State) → Traced s → Traced (get_tick env s).0
    tick-Traced s h = record {
      files = rw (get_tick-files env s) h.files;
      obeys = Obeys-quiet Reported opens closes (get_tick-IsQuiet env s) h.obeys;
    }

    new_node-IsOurs : (e : Event) → Reported e.id e.name → IsOurs (new_node (wanted e))
    unfolding init_file
    new_node-IsOurs e r =
        let (i, n) = wanted-key e in (e.name, n, subst (λ id. Reported id e.name) (sym i) r)

    close_file-IsOurs : (fl : FileList) (t : ℕ) → IsOurs fl → IsOurs (close_file fl t)
    unfolding close_file
    close_file-IsOurs fl t h = h

    reset_to_open-IsOurs : (fl : FileList) (t : ℕ) → IsOurs fl → IsOurs (reset_to_open fl t)
    unfolding reset_to_open
    reset_to_open-IsOurs fl t h = h

    pub add_event-Traced :
        (e : Event) (s : State) → Reported e.id e.name → Traced s → Traced (add_event env e s).0
    add_event-Traced e s r h = record {
      files =
          add_event-All env IsOurs close_file-IsOurs reset_to_open-IsOurs e s (new_node-IsOurs e r)
            h.files;
      obeys = Obeys-quiet Reported opens closes (add_event-IsQuiet env e s) h.obeys;
    }

    pub consume-Traced : (w : ℕ) (s : State) → Traced s → Traced (consume env w s).0
    unfolding consume
    consume-Traced w s h =
        let s0 : State = record s { signaled = false } in
        let vs = visit_all env s.file_event_list w s0 in
        let woken : Obeys Reported opens closes s0 =
          Obeys-quiet Reported opens closes (ground arith) h.obeys in
        let (files, obeys) =
          visit_all-Obeys Reported opens closes env s.file_event_list w s0 h.files woken in
        let swept = sweep-IsQuiet vs.item vs.state in
        record {
          files = rw (sweep-survivors vs.item vs.state) (All-survivors IsOurs vs.item files);
          obeys = record {
            opening = swept.open_cmd ∙ obeys.opening;
            closing = swept.close_cmd ∙ obeys.closing;
            commands =
                subst (All (IsCommand Reported opens closes)) (sym swept.executed) obeys.commands;
          };
        }

    pub read_now-Traced : (s : State) → Traced s → Traced (read_now env s).0
    unfolding read_now
    read_now-Traced s h = record {
      files = h.files;
      obeys = Obeys-quiet Reported opens closes (ground arith) h.obeys;
    }
