-- ===== src/Handling/Life/Examples.antt =====
-- The theorems about the life of a file at concrete inputs.
use watch_it.Base.{◌≡◌, refl, [], ◌∷◌, true}
use watch_it.CString.{strcmp_eq}
use watch_it.Handling.Types.{State, Event, FileList}
use watch_it.Handling.Clock.{has_open_past_delay}
use watch_it.Handling.Files.{is_close_event, is_open_event, reset_to_open, find_in_file_list}
use watch_it.Handling.Add.{add_event}
use watch_it.Handling.Life.Lost.{rounds, lost_close}
use watch_it.Handling.Samples.{ticking, modern, fresh, opened, closed, entry}

-- The file has been closed, and its open command run.
abbrev fired : FileList
fired = record entry { file = record entry.file { has_fired_open = true } }

abbrev before : State
before = record fresh { file_event_list = fired ∷ [] }

-- It is opened again at the tick that the clock shows.
abbrev again : Event
again = record opened { timestamp = 1700000000000000 }

lost_close_example :
    let s1 = (add_event modern again before).0 in
    let s2 = (add_event modern closed s1).0 in
    let s3 = rounds ticking 3 6000 s2 in
    (s3.file_event_list ≡ reset_to_open fired 1700000000000000 ∷ []) × (s3.executed ≡ [])
unfolding has_open_past_delay add_event is_close_event is_open_event find_in_file_list strcmp_eq
lost_close_example =
    lost_close modern again closed fired before refl refl refl refl (refl, refl) (refl, refl) refl
      refl refl refl ticking 3 6000
