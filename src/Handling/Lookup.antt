-- ===== src/Handling/Lookup.antt =====
-- The list of files as a finite map from files to entries: the abstract view of
-- `file_event_list`, and the per-file state machine that `event_handling_add_event` implements.
pub mod Laws
pub mod Refines
pub mod Commute
pub mod Unordered
pub mod Reorder
pub mod Examples
use watch_it.Base.{ℕ, Bool, true, false, not, List, [], ◌∷◌, Option, none, some, if◌then◌else◌}
use watch_it.Handling.Types.{Event, FileEvent, FileList}
use watch_it.Handling.Files.{equals_file, close_file, reset_to_open, init_file}

-- The entry for a file.
unfoldable pub lookup : FileEvent → List FileList → Option FileList
lookup f [] = none
lookup f (x ∷ rest) = if equals_file x.file f then some x else lookup f rest

-- A close event, for the file's entry: a file that has been open past the delay is closed at the
-- tick; one that has not, and whose open command has not been run, is forgotten.
unfoldable pub after_close :
    (past : FileList → Bool) (tick : FileList → ℕ) → Option FileList → Option FileList
after_close past tick none = none
after_close past tick (some fl) =
    if fl.file.is_closed
    then some fl
    else if past fl
    then some (close_file fl (tick fl))
    else if fl.file.has_fired_open
    then some fl
    else none

-- An open event: an unknown file gets an entry, and a closed one is opened again.
unfoldable pub after_open : Event → Option FileList → Option FileList
after_open e none =
    some (record { file = init_file (some e.name) e.id e.timestamp; remove = false })
after_open e (some fl) = some (if fl.file.is_closed then reset_to_open fl e.timestamp else fl)
